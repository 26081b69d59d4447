-- ===== src/OutputPin.antt =====
-- An output pin of the source filter (src/VirtualStreamSourceOutputPin.cpp and .h): its state and the
-- stream thread's calls. `calls` is the history of the pin's calls of the system.
pub mod Fill
pub mod Playing
pub mod Restart
pub mod Desync
pub mod Torn
pub mod Connect
pub mod Caps
pub mod Types
pub mod Handles
use virtual_capture_stream.Prelude.{
  ℕ, Bool, true, false, List, [], ◌∷◌, Option, none, some, not, ◌+◌, ◌%◌, ◌^◌, ltb, ◌==◌, is_pos32,
  sub64, if◌then◌else◌,
}
use virtual_capture_stream.Win.{
  Os, OsCall, ReadReply, s_ok, s_false, e_fail, e_notimpl, failed, invalid_handle,
}
use virtual_capture_stream.MediaType.{AmMediaType, AllocatorProperties}
use virtual_capture_stream.Sample.{MediaSampleInfo}
use virtual_capture_stream.Wire.{Abi, info_read}
use virtual_capture_stream.PipeClient.{
  pipehost, client_pipe_name, OpenResult, opened, not_opened, open_pipe,
}

pub record OutputPin : Type 0 where
  pub name : List ℕ
  pub mt : AmMediaType
  pub alloc_properties : AllocatorProperties
  pub h_pipe : ℕ
  pub connected : Bool
  pub first_sample_delivered : Bool
  pub rt_start : ℕ
  pub running : Bool
  pub calls : List OsCall

-- The constructor; `raw_start` and `raw_running` are what memory holds at `m_rtStart` and `m_bRunning`.
unfoldable pub new_output_pin : List ℕ → AllocatorProperties → AmMediaType → ℕ → Bool → OutputPin
new_output_pin name props mt raw_start raw_running = record {
  name = name;
  mt = mt;
  alloc_properties = props;
  h_pipe = 0;
  connected = false;
  first_sample_delivered = false;
  rt_start = raw_start;
  running = raw_running;
  calls = [];
}

abbrev pub log : OsCall → OutputPin → OutputPin
log c p = record p { calls = c ∷ p.calls }

unfoldable pub reset : OutputPin → ℕ × OutputPin
reset p = (s_ok, record p { first_sample_delivered = false })

unfoldable pub stop : OutputPin → ℕ × OutputPin
stop p = (s_ok, record p { first_sample_delivered = false; running = false })

-- `base` is what `CSourceStream::OnThreadDestroy` returns.
unfoldable pub on_thread_destroy : ℕ → OutputPin → ℕ × OutputPin
on_thread_destroy base p = (base, record p { running = false })

unfoldable pub on_thread_start_play : ℕ → OutputPin → ℕ × OutputPin
on_thread_start_play base p = (base, record p { first_sample_delivered = false; running = true })

unfoldable pub set_first_sample_delivered : OutputPin → OutputPin
set_first_sample_delivered p = record p { first_sample_delivered = true }

unfoldable pub get_first_sample_delivered : OutputPin → Bool
get_first_sample_delivered p = p.first_sample_delivered

-- `m_bConnected` stays as it is.
unfoldable pub disconnect_pipe : OutputPin → ℕ × OutputPin
disconnect_pipe p = (
  s_ok,
  if p.h_pipe == 0 then p else record (log (OsCall.close_handle p.h_pipe) p) { h_pipe = 0 },
)

-- After the loop: message mode is set on an open pipe.
abbrev set_mode : Os → OpenResult → OutputPin → ℕ × OutputPin
set_mode os not_opened p = (e_fail, record p { h_pipe = invalid_handle })
set_mode os (opened h) p =
    let q = record (log (OsCall.set_named_pipe_handle_state h) p) { h_pipe = h } in
    if os.set_state_reply p.calls then (s_ok, record q { connected = true }) else (e_fail, q)

abbrev after_loop : Os → OutputPin → Option (OpenResult × List OsCall) → Option (ℕ × OutputPin)
after_loop os p none = none
after_loop os p (some (r, cs)) = some (set_mode os r (record p { calls = cs }))

-- The event of `m_ol` is made each time; nothing closes it.
unfoldable pub connect_to_sink_pin : Os → ℕ → OutputPin → Option (ℕ × OutputPin)
unfolding disconnect_pipe
connect_to_sink_pin os fuel p =
    let name = client_pipe_name pipehost p.name in
    let q =
      log (OsCall.create_event name)
        (record (disconnect_pipe p).1 { h_pipe = 0; connected = false }) in
    after_loop os q (open_pipe os name 2000 fuel q.calls)

-- The calls that `FillBuffer` makes on the sample that it fills, and the data that it stores there.
pub data SampleCall : Type 0 where
  set_actual_data_length : ℕ → SampleCall
  set_time set_media_time : ℕ → ℕ → SampleCall
  set_sync_point set_preroll set_discontinuity : Bool → SampleCall
  set_media_type : AmMediaType → SampleCall
  store : List ℕ → SampleCall

-- What the sample answers to the setters whose code is looked at.
pub record SampleReplies : Type 0 where
  pub sync_point_hr : ℕ
  pub preroll_hr : ℕ
  pub media_type_hr : ℕ
  pub discontinuity_hr : ℕ

pub record Filled : Type 0 where
  pub hr : ℕ
  pub pin : OutputPin
  pub sample : List SampleCall

abbrev pub read : Os → ℕ → OutputPin → ReadReply × OutputPin
read os n p = let q = log (OsCall.read_file p.h_pipe n) p in (os.read_reply q.calls, q)

-- The data of the sample, if it has any. A failing read goes unnoticed.
unfoldable pub fill_data : Os → ℕ → ℕ → OutputPin → Filled
fill_data os hr n p =
    if is_pos32 n
    then (let (r, q) = read os n p in record { hr = hr; pin = q; sample = store r.bytes ∷ [] })
    else record { hr = hr; pin = p; sample = [] }

abbrev pub behind : SampleCall → Filled → Filled
behind c f = record f { sample = c ∷ f.sample }

-- The setters from `SetSyncPoint` on, each with its early return; the first returns the code that `hr`
-- has from before.
unfoldable pub fill_flags : Os → SampleReplies → MediaSampleInfo → OutputPin → Filled
unfolding fill_data get_first_sample_delivered
fill_flags os r info p = behind (set_sync_point info.is_sync_point) (
    if failed r.sync_point_hr
    then record { hr = s_ok; pin = p; sample = [] }
    else behind (set_preroll false) (
        if failed r.preroll_hr
        then record { hr = r.preroll_hr; pin = p; sample = [] }
        else behind (set_media_type p.mt) (
            if failed r.media_type_hr
            then record { hr = r.media_type_hr; pin = p; sample = [] }
            else behind (set_discontinuity (not (get_first_sample_delivered p))) (
                if failed r.discontinuity_hr
                then record { hr = r.discontinuity_hr; pin = p; sample = [] }
                else fill_data os r.discontinuity_hr info.actual_data_length p))))

-- From a header on: times relative to the first sample's.
unfoldable pub fill_sample : Os → SampleReplies → MediaSampleInfo → OutputPin → Filled
unfolding fill_flags get_first_sample_delivered set_first_sample_delivered
fill_sample os r info p =
    let start = if get_first_sample_delivered p then p.rt_start else info.time_start in
    let t = sub64 info.time_start start in
    let u = sub64 info.time_end start in
    behind (set_actual_data_length info.actual_data_length) (
      behind (set_time t u) (
        behind (set_media_time info.media_time_start info.media_time_end) (
          behind (set_time t u)
            (fill_flags os r info (set_first_sample_delivered (record p { rt_start = start }))))))

unfoldable pub fill_connected : Os → Abi → SampleReplies → OutputPin → Filled
unfolding fill_sample info_read
fill_connected os abi r p =
    let (reply, q) = read os abi.info_size p in
    if reply.success
    then fill_sample os r (info_read abi reply.bytes) q
    else record { hr = s_ok; pin = q; sample = [] }

abbrev fill_if_connected : Os → Abi → SampleReplies → OutputPin → Filled
fill_if_connected os abi r p =
    if p.connected then fill_connected os abi r p else record { hr = s_ok; pin = p; sample = [] }

abbrev fill_after : Os → Abi → SampleReplies → Option (ℕ × OutputPin) → Option Filled
fill_after os abi r none = none
fill_after os abi r (some (hr, p)) = some (fill_if_connected os abi r p)

-- `none` stands for a connection loop that ran out of fuel.
unfoldable pub fill_buffer : Os → Abi → ℕ → SampleReplies → OutputPin → Option Filled
fill_buffer os abi fuel r p =
    if not p.running
    then some (record { hr = s_false; pin = (disconnect_pipe p).1; sample = [] })
    else if p.connected
    then some (fill_if_connected os abi r p)
    else fill_after os abi r (connect_to_sink_pin os fuel p)
