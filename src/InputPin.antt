-- ===== src/InputPin.antt =====
-- An input pin of the sink filter (src/VirtualStreamSinkInputPin.cpp and .h): its state and what
-- DirectShow calls on it. `calls` is the history of the pin's calls of the system. What a method of
-- the base class returns is an argument, and so is what a member that the constructor leaves out
-- holds at first.
pub mod Write
pub mod Server
pub mod Fifo
pub mod Transmit
pub mod Writer
pub mod Rounds
pub mod Locking
pub mod Handles
pub mod Allocator
pub mod Copy
pub mod Leftovers
pub mod Base
use virtual_capture_stream.Prelude.{
  ℕ, Bool, true, false, List, [], ◌∷◌, ◌++◌, ◌*◌, ◌%◌, ◌^◌, ◌-◌, not, ◌==◌, ◌||◌, if◌then◌else◌,
}
use virtual_capture_stream.Win.{
  Os, OsCall, Routine, s_ok, e_fail, e_invalidarg, failed, invalid_handle, wait_object_0,
  wait_timeout,
}
use virtual_capture_stream.MediaType.{AmMediaType, AllocatorProperties, Sdk}
use virtual_capture_stream.Sample.{MediaSampleX, IMediaSample, Memory, new_sample}

-- The first value of `m_rtRefPoint`, -999999999.
abbrev pub ref_unset : ℕ
ref_unset = 2 ^ 64 - 999999999

pub record InputPin : Type 0 where
  pub name : List ℕ
  pub track_id : ℕ
  pub pipename : List ℕ
  pub buffer_allocator : ℕ
  pub h_pipe : ℕ
  pub h_thread : ℕ
  pub h_thread2 : ℕ
  pub connected : Bool
  pub sync_point_hit : Bool
  pub rt_ref_point : ℕ
  pub rt_ref_point2 : ℕ
  pub write_buffer : List MediaSampleX
  pub write_buffering : Bool
  pub pipe_server_running : Bool
  pub mt : AmMediaType
  pub calls : List OsCall

-- `\\.\pipe\`
abbrev pub pipe_prefix : List ℕ
pipe_prefix = 92 ∷ 92 ∷ 46 ∷ 92 ∷ 112 ∷ 105 ∷ 112 ∷ 101 ∷ 92 ∷ []

abbrev pub log : OsCall → InputPin → InputPin
log c p = record p { calls = c ∷ p.calls }

-- The constructor. `raw2` and `raw_ref2` are what memory holds at `m_hThread2` and
-- `m_rtRefPoint2`, `mt` is the base class's empty media type.
unfoldable pub new_input_pin : List ℕ → ℕ → ℕ → ℕ → AmMediaType → InputPin
new_input_pin name allocator raw2 raw_ref2 mt = record {
  name = name;
  track_id = 2 ^ 32 - 1;
  pipename = pipe_prefix ++ name;
  buffer_allocator = allocator;
  h_pipe = 0;
  h_thread = 0;
  h_thread2 = raw2;
  connected = false;
  sync_point_hit = false;
  rt_ref_point = ref_unset;
  rt_ref_point2 = raw_ref2;
  write_buffer = [];
  write_buffering = false;
  pipe_server_running = false;
  mt = mt;
  calls = [];
}

unfoldable pub check_media_type : Sdk → ℕ → ℕ
check_media_type sdk majortype =
    if majortype == sdk.mediatype_video
    then s_ok
    else if majortype == sdk.mediatype_audio
    then s_ok
    else if majortype == sdk.mediatype_aux_line21_data
    then s_ok
    else e_invalidarg

-- `base` is what `CBaseInputPin::SetMediaType` returns; it stores the type when it succeeds.
unfoldable pub set_media_type : ℕ → AmMediaType → InputPin → ℕ × InputPin
set_media_type base mt p = if failed base then (base, p) else (s_ok, record p { mt = mt })

unfoldable pub get_pin_major_type : InputPin → ℕ
get_pin_major_type p = p.mt.majortype

unfoldable pub get_connected_media_type : InputPin → AmMediaType
get_connected_media_type p = p.mt

-- The probe that `StopServer` opens to release the listener, and closes at once.
abbrev pub probe_pipe : Os → InputPin → InputPin
probe_pipe os p =
    let h = os.create_file_reply p.calls in
    let q = log (OsCall.create_file p.pipename) p in
    if h == invalid_handle then q else log (OsCall.close_handle h) q

-- `if (WaitForSingleObject(m_hThread, 10000) == WAIT_TIMEOUT) TerminateThread(m_hThread, 0);`
abbrev pub await_listener : Os → InputPin → InputPin
await_listener os p =
    let r = os.wait_reply p.calls in
    let q = log (OsCall.wait_for_single_object p.h_thread 10000) p in
    if r == wait_timeout then log (OsCall.terminate_thread p.h_thread) q else q

abbrev pub close_pipe : InputPin → InputPin
close_pipe p = log (OsCall.close_handle p.h_pipe) (log (OsCall.disconnect_named_pipe p.h_pipe) p)

unfoldable pub stop_server : Os → InputPin → InputPin
stop_server os p =
    let stopped =
      if p.h_pipe == 0
      then p
      else close_pipe
          (await_listener os (probe_pipe os (record p { pipe_server_running = false }))) in
    record stopped { h_pipe = 0; h_thread = 0 }

-- The destructor, up to the release of the allocator that the constructor made.
unfoldable pub delete_input_pin : Os → InputPin → InputPin
unfolding stop_server
delete_input_pin os p = if p.h_pipe == 0 then p else stop_server os p

unfoldable pub end_of_stream : Os → InputPin → ℕ × InputPin
unfolding stop_server
end_of_stream os p = (s_ok, if p.h_pipe == 0 then p else stop_server os p)

unfoldable pub create_write_buffer_thread : Os → InputPin → InputPin
create_write_buffer_thread os p = record p {
  write_buffering = true;
  h_thread2 = os.create_thread_reply p.calls;
  calls = OsCall.create_thread Routine.pin_write_thread ∷ p.calls;
}

-- `base` is what `CBaseInputPin::Receive` returns.
unfoldable pub receive : Os → Memory → ℕ → IMediaSample → InputPin → ℕ × InputPin
unfolding create_write_buffer_thread new_sample
receive os m base s p =
    let started = if p.write_buffering then p else create_write_buffer_thread os p in
    let queued = record started { write_buffer = started.write_buffer ++ new_sample m 0 s ∷ [] } in
    (if failed base then base else s_ok, queued)

-- `Reset` calls `m_writeBuffer.empty()`, which only asks whether the queue is empty.
unfoldable pub reset : InputPin → ℕ × InputPin
reset p = (s_ok, record p { rt_ref_point = ref_unset })
