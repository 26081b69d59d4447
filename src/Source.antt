-- ===== src/Source.antt =====
-- The source filter (src/VirtualStreamSource.cpp and .h): the choice of the stream, the output pins that
-- it makes from the sink's description, and its states. `calls` is the history of the filter's own
-- calls of the system.
pub mod Rebuild
pub mod Oversize
pub mod StreamName
pub mod Stopping
pub mod Life
pub mod PinPipes
pub mod Describing
pub mod Handles
use virtual_capture_stream.Prelude.{
  ℕ, zero, suc, ◌^◌, ◌-◌, Bool, true, false, List, [], ◌∷◌, ◌++◌, Option, none, some, not, ◌&&◌,
  ◌||◌, drop, length, ltb, ◌==◌, if◌then◌else◌,
}
use virtual_capture_stream.Win.{Os, OsCall, ReadReply, s_ok, vfw_s_cant_cue, error_more_data}
use virtual_capture_stream.Wire.{Abi}
use virtual_capture_stream.Crt.{Crt}
use virtual_capture_stream.PinInfo.{PinInfo, read_pin_info}
use virtual_capture_stream.PipeClient.{
  pipehost, client_pipe_name, OpenResult, opened, not_opened, open_pipe,
}
use virtual_capture_stream.Sink.{default_stream, FilterState, stopped, paused, running}
use virtual_capture_stream.OutputPin.{OutputPin, new_output_pin}
use virtual_capture_stream.OutputPin.Types.{delete_output_pin}
use virtual_capture_stream.OutputPin

-- `deleted` lists the pins that were destroyed, as their destructors left them, newest first.
pub record Source : Type 0 where
  pub pin_list : List OutputPin
  pub state : FilterState
  pub rt_video_ref_point : ℕ
  pub deleted : List OutputPin
  pub calls : List OsCall

-- What memory holds in the members that the constructor of an output pin leaves unset.
pub record RawPin : Type 0 where
  pub raw_start : ℕ
  pub raw_running : Bool

abbrev pub log : OsCall → Source → Source
log c s = record s { calls = c ∷ s.calls }

-- `-1`
abbrev pub minus_one : ℕ
minus_one = 2 ^ 32 - 1

-- `BUFSIZE` of src/VirtualStreamSource.cpp.
abbrev pub bufsize : ℕ
bufsize = 100000

-- The pin of one message; its media type is set from the message.
unfoldable pub make_pin : Crt → Abi → RawPin → List ℕ → OutputPin
unfolding new_output_pin
make_pin crt abi raw msg =
    let info = read_pin_info crt abi msg in
    new_output_pin info.pin_name info.alloc_props info.amt raw.raw_start raw.raw_running

abbrev pub is_empty : List ℕ → Bool
is_empty [] = true
is_empty (x ∷ xs) = false

-- The loop that reads a message for each pin, with fuel for its rounds. A message that is longer than
-- the buffer still makes a pin, and ends the loop.
unfoldable pub read_pins : Os → Crt → Abi → RawPin → ℕ → ℕ → Source → Option Source
read_pins os crt abi raw h zero s = none
read_pins os crt abi raw h (suc fuel) s =
    let t = log (OsCall.read_file h bufsize) s in
    let r = os.read_reply t.calls in
    let u = record t { pin_list = t.pin_list ++ make_pin crt abi raw r.bytes ∷ [] } in
    let more = read_pins os crt abi raw h fuel u in
    if is_empty r.bytes || (not r.success && not (os.last_error t.calls == error_more_data))
    then some t
    else if r.success
    then more
    else some u

abbrev pub close_after : ℕ → Option Source → Option (ℕ × Source)
close_after h none = none
close_after h (some s) = some (s_ok, log (OsCall.close_handle h) s)

-- After the connection: message mode, the pins, the end. A pipe that refuses the mode is not closed.
abbrev pub after_loop :
    Os → Crt → Abi → RawPin → ℕ → Option (OpenResult × List OsCall) → Source → Option (ℕ × Source)
after_loop os crt abi raw fuel none s = none
after_loop os crt abi raw fuel (some (not_opened, cs)) s = some (minus_one, record s { calls = cs })
after_loop os crt abi raw fuel (some (opened h, cs)) s =
    let t = record s { calls = OsCall.set_named_pipe_handle_state h ∷ cs } in
    if os.set_state_reply cs
    then close_after h (read_pins os crt abi raw h fuel t)
    else some (minus_one, t)

-- `delete` runs the destructor of each pin.
abbrev pub delete_pins : List OutputPin → List OutputPin → List OutputPin
delete_pins [] d = d
delete_pins (p ∷ ps) d = delete_pins ps (delete_output_pin p ∷ d)

-- `none` stands for a loop that ran out of fuel. The pins that were there are disconnected, removed and
-- destroyed first.
unfoldable pub create_output_pins :
    Os → Crt → Abi → RawPin → ℕ → List ℕ → Source → Option (ℕ × Source)
unfolding delete_output_pin
create_output_pins os crt abi raw fuel name s =
    let t = record s { pin_list = []; deleted = delete_pins s.pin_list s.deleted } in
    after_loop os crt abi raw fuel
      (open_pipe os (client_pipe_name pipehost name) 20000 fuel t.calls) t

abbrev pub stop_pins : List OutputPin → List OutputPin
stop_pins [] = []
stop_pins (p ∷ ps) = (OutputPin.stop p).1 ∷ stop_pins ps

-- `base` is the code and the state that `CSource::Stop` leaves.
unfoldable pub stop : ℕ × FilterState → Source → ℕ × Source
unfolding OutputPin.stop
stop base s = (base.0, record s { pin_list = stop_pins s.pin_list; state = base.1 })

unfoldable pub pause : ℕ × FilterState → Source → ℕ × Source
pause base s = (base.0, record s { state = base.1 })

abbrev pub reset_pins : List OutputPin → List OutputPin
reset_pins [] = []
reset_pins (p ∷ ps) = (OutputPin.reset p).1 ∷ reset_pins ps

unfoldable pub run : ℕ × FilterState → Source → ℕ × Source
unfolding OutputPin.reset
run base s = (
  base.0,
  record s { pin_list = reset_pins s.pin_list; rt_video_ref_point = 2 ^ 64 - 1; state = base.1 },
)

unfoldable pub get_state : Source → ℕ × FilterState
get_state s =
    (elim s.state [ stopped ↦ vfw_s_cant_cue | paused ↦ vfw_s_cant_cue | running ↦ s_ok ], s.state)

-- `/stream`
abbrev pub stream_option : List ℕ
stream_option = 47 ∷ 115 ∷ 116 ∷ 114 ∷ 101 ∷ 97 ∷ 109 ∷ []

abbrev pub starts_with : List ℕ → List ℕ → Bool
starts_with [] t = true
starts_with (c ∷ p) [] = false
starts_with (c ∷ p) (d ∷ t) = if c == d then starts_with p t else false

-- `_tcsstr`: the text from the first occurrence on.
unfoldable pub find_text : List ℕ → List ℕ → Option (List ℕ)
find_text p [] = if starts_with p [] then some [] else none
find_text p (c ∷ t) = if starts_with p (c ∷ t) then some (c ∷ t) else find_text p t

abbrev pub or_default : List ℕ → List ℕ
or_default [] = default_stream
or_default (c ∷ t) = c ∷ t

-- The name behind the option: eight characters on, `none` where that is past the text's end.
abbrev pub behind_option : Option (List ℕ) → Option (List ℕ)
behind_option none = some default_stream
behind_option (some t) = if ltb (length t) 8 then none else some (or_default (drop 8 t))

-- The choice of the constructor: the environment variable, the option of the command line, or the
-- default.
unfoldable pub choose_stream_name : List ℕ → List ℕ → Option (List ℕ)
unfolding find_text
choose_stream_name [] cmdline = behind_option (find_text stream_option cmdline)
choose_stream_name (c ∷ env) cmdline = some (c ∷ env)
