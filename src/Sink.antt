-- ===== src/Sink.antt =====
-- The sink filter (src/VirtualStreamSink.cpp and .h): its pins, the pipe on which it describes them,
-- and what DirectShow and the application call. `calls` is the history of the filter's own calls of
-- the system. What a base class returns is an argument.
pub mod Publish
pub mod Pins
pub mod OldPipe
pub mod Interface
pub mod Renaming
pub mod Pipe
pub mod PinPipes
pub mod Handles
pub mod Names
pub mod Server
use virtual_capture_stream.Prelude.{
  ℕ, zero, suc, ◌+◌, Bool, true, false, List, [], ◌∷◌, ◌++◌, Option, none, some, length, get_elem?,
  ltb, not, ◌==◌, if◌then◌else◌,
}
use virtual_capture_stream.Win.{Os, OsCall, Routine, s_ok, failed, invalid_handle, wait_timeout}
use virtual_capture_stream.MediaType.{AmMediaType, AllocatorProperties, Sdk}
use virtual_capture_stream.Crt.{Crt}
use virtual_capture_stream.InputPin.{InputPin, new_input_pin, delete_input_pin, pipe_prefix}
use virtual_capture_stream.InputPin

pub data FilterState : Type 0 where
  stopped paused running : FilterState

-- A pin in the list: `id` is its address, `is_connected` the answer of `IsConnected`, `alloc_props`
-- what its allocator reports.
pub record SinkPin : Type 0 where
  pub id : ℕ
  pub is_connected : Bool
  pub alloc_props : AllocatorProperties
  pub pin : InputPin

-- `next_id` is an address that no object has yet, `deleted` lists the pins that were destroyed, as their
-- destructors left them, newest first.
pub record Sink : Type 0 where
  pub stream_name : List ℕ
  pub pin_list : List SinkPin
  pub h_pipe : ℕ
  pub h_thread : ℕ
  pub server_running : Bool
  pub connected : Bool
  pub pipename : List ℕ
  pub state : FilterState
  pub next_id : ℕ
  pub deleted : List SinkPin
  pub calls : List OsCall

-- What the construction of a pin depends on: the clock, the memory that the constructor leaves unset,
-- the allocator that it makes and what that reports, the empty media type, and the code that the base
-- class's constructor reports.
pub record NewPin : Type 0 where
  pub tick_count : ℕ
  pub allocator : ℕ
  pub alloc_props : AllocatorProperties
  pub raw2 : ℕ
  pub raw_ref2 : ℕ
  pub empty_mt : AmMediaType
  pub hr : ℕ

-- `Stream-`
abbrev stream_text : List ℕ
stream_text = 83 ∷ 116 ∷ 114 ∷ 101 ∷ 97 ∷ 109 ∷ 45 ∷ []

-- `%sStream-%i-%08x` in a block of 100 characters: a text that does not fit it makes `_stprintf_s` call the
-- invalid parameter handler of the runtime, and leaves the block empty if that returns.
unfoldable pub pin_name : Crt → List ℕ → ℕ → ℕ → List ℕ
pin_name crt stream_name n tick =
    let text = stream_name ++ (stream_text ++ (crt.format_int n ++ 45 ∷ crt.format_hex8 tick)) in
    if ltb (length text) 100 then text else []

-- The test of the loop in `AddInputPin`.
abbrev pub any_free : List SinkPin → Bool
any_free [] = false
any_free (x ∷ xs) = if x.is_connected then any_free xs else true

-- The pin that `AddInputPin` constructs.
unfoldable pub make_input_pin : Crt → NewPin → Sink → SinkPin
unfolding new_input_pin pin_name
make_input_pin crt n s = record {
  id = s.next_id;
  is_connected = false;
  alloc_props = n.alloc_props;
  pin =
      new_input_pin (pin_name crt s.stream_name (length s.pin_list + 1) n.tick_count) n.allocator
        n.raw2 n.raw_ref2 n.empty_mt;
}

unfoldable pub add_input_pin : Crt → NewPin → Sink → ℕ × Sink
add_input_pin crt n s =
    if any_free s.pin_list then (s_ok, s) else if failed n.hr then (n.hr, s) else (
      s_ok,
      record s { pin_list = s.pin_list ++ make_input_pin crt n s ∷ []; next_id = suc s.next_id },
    )

unfoldable pub get_pin_count : Sink → ℕ
get_pin_count s = length s.pin_list

-- `none` stands for an index past the end of a list with pins, where the source reads past the vector;
-- `some none` is the null pointer.
unfoldable pub get_pin : ℕ → Sink → Option (Option SinkPin)
get_pin n s =
    if ltb (length s.pin_list) 1
    then some none
    else elim (get_elem? s.pin_list n) [ none ↦ none | some p ↦ some (some p) ]

-- The first pin at this address goes out of the list and is destroyed.
abbrev pub without : ℕ → List SinkPin → List SinkPin
without a [] = []
without a (x ∷ xs) = if x.id == a then xs else x ∷ without a xs

abbrev pub pin_at : ℕ → List SinkPin → Option SinkPin
pin_at a [] = none
pin_at a (x ∷ xs) = if x.id == a then some x else pin_at a xs

-- `delete` runs the pin's destructor.
abbrev pub destroyed : Os → SinkPin → SinkPin
destroyed os x = record x { pin = delete_input_pin os x.pin }

unfoldable pub remove_pin : Os → ℕ → Sink → Sink
remove_pin os a s = elim (pin_at a s.pin_list) [
  | none ↦ s
  | some x ↦ record s { pin_list = without a s.pin_list; deleted = destroyed os x ∷ s.deleted }
]

abbrev pub log : OsCall → Sink → Sink
log c s = record s { calls = c ∷ s.calls }

abbrev pub probe_pipe : Os → Sink → Sink
probe_pipe os s =
    let h = os.create_file_reply s.calls in
    let t = log (OsCall.create_file s.pipename) s in
    if h == invalid_handle then t else log (OsCall.close_handle h) t

abbrev pub await_listener : Os → Sink → Sink
await_listener os s =
    let r = os.wait_reply s.calls in
    let t = log (OsCall.wait_for_single_object s.h_thread 10000) s in
    if r == wait_timeout then log (OsCall.terminate_thread s.h_thread) t else t

abbrev pub close_pipe : Sink → Sink
close_pipe s =
    record (log (OsCall.close_handle s.h_pipe) (log (OsCall.disconnect_named_pipe s.h_pipe) s)) {
      h_pipe = 0;
    }

unfoldable pub stop_server : Os → Sink → Sink
stop_server os s =
    if s.h_pipe == 0
    then s
    else close_pipe (await_listener os (probe_pipe os (record s { server_running = false })))

-- `BUFSIZE` of src/VirtualStreamSink.cpp.
abbrev bufsize : ℕ
bufsize = 10000

unfoldable pub initialize_pipe : Os → Sink → Sink
unfolding stop_server
initialize_pipe os s =
    let t = if s.h_pipe == 0 then s else stop_server os s in
    let name = pipe_prefix ++ s.stream_name in
    let made = OsCall.create_named_pipe name bufsize 0 ∷ t.calls in
    record t {
      pipename = name;
      h_pipe = os.create_named_pipe_reply t.calls;
      h_thread = os.create_thread_reply made;
      calls = OsCall.create_thread Routine.sink_instance_thread ∷ made;
    }

-- `VirtualSink1`
abbrev pub default_stream : List ℕ
default_stream = 86 ∷ 105 ∷ 114 ∷ 116 ∷ 117 ∷ 97 ∷ 108 ∷ 83 ∷ 105 ∷ 110 ∷ 107 ∷ 49 ∷ []

-- The constructor. `raw_pipename` is what memory holds in `m_lpszPipename`.
unfoldable pub new_sink : Crt → NewPin → List ℕ → ℕ × Sink
new_sink crt n raw_pipename = add_input_pin crt n (record {
  stream_name = default_stream;
  pin_list = [];
  h_pipe = 0;
  h_thread = 0;
  server_running = false;
  connected = false;
  pipename = raw_pipename;
  state = stopped;
  next_id = 1;
  deleted = [];
  calls = [];
})

abbrev pub delete_pins : Os → List SinkPin → List SinkPin → List SinkPin
delete_pins os [] d = d
delete_pins os (x ∷ xs) d = delete_pins os xs (destroyed os x ∷ d)

-- The destructor: the pins first, then the pipe.
unfoldable pub delete_sink : Os → Sink → Sink
unfolding stop_server
delete_sink os s =
    let t = record s { deleted = delete_pins os s.pin_list s.deleted } in
    record (if t.h_pipe == 0 then t else stop_server os t) { pin_list = [] }

-- `base` is `CBaseFilter::Stop`, which the override calls with the state already set.
unfoldable pub stop : (Sink → Sink) → Sink → ℕ × Sink
stop base s = (s_ok, base (record s { state = stopped }))

-- `base` is the code and the state that `CBaseFilter::Pause` leaves.
unfoldable pub pause : Os → ℕ × FilterState → Sink → ℕ × Sink
pause os base s = (base.0, initialize_pipe os (record s { state = base.1 }))

-- `Reset` on every connected pin; `AddTrack`, which follows it, only asks the pin's allocator for its
-- properties.
abbrev pub reset_pins : List SinkPin → List SinkPin
reset_pins [] = []
reset_pins (x ∷ xs) =
    (if x.is_connected then record x { pin = (InputPin.reset x.pin).1 } else x) ∷ reset_pins xs

unfoldable pub run : Os → ℕ × FilterState → Sink → ℕ × Sink
unfolding InputPin.reset
run os base s =
    let t = record s { pin_list = reset_pins s.pin_list } in
    let u = if t.h_pipe == 0 then initialize_pipe os t else t in
    (base.0, record u { state = base.1 })

-- The loop of `SetStreamName`: the index grows while the list shrinks. With fuel for its rounds.
unfoldable pub remove_pins : Os → ℕ → ℕ → Sink → Sink
unfolding remove_pin
remove_pins os zero i s = s
remove_pins os (suc fuel) i s = elim (get_elem? s.pin_list i) [
  | none ↦ s
  | some x ↦ remove_pins os fuel (suc i) (remove_pin os x.id s)
]

unfoldable pub set_stream_name : Os → Crt → NewPin → List ℕ → Sink → ℕ × Sink
set_stream_name os crt n name s =
    let renamed = record s { stream_name = name } in
    let emptied = record (remove_pins os (length s.pin_list) 0 renamed) { pin_list = [] } in
    let filled = (add_input_pin crt n emptied).1 in
    (s_ok, if filled.h_pipe == 0 then initialize_pipe os filled else filled)

-- `CompleteConnect` of the pin class (src/VirtualStreamSinkInputPin.cpp): `base` is what the base class
-- returns, and what `AddInputPin` returns is not looked at.
unfoldable pub complete_connect : Crt → NewPin → ℕ → Sink → ℕ × Sink
complete_connect crt n base s = if failed base then (base, s) else (s_ok, (add_input_pin crt n s).1)
