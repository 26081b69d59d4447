-- ===== src/InputPin/Handles.antt =====
-- The pipe of an input pin over its life: which calls make it and which close it.
use virtual_capture_stream.Prelude.{
  ℕ, suc, Bool, false, ◌+◌, List, [], ◌∷◌, ◌≡◌, ◌≢◌, ◌==◌, if◌then◌else◌, arith,
}
use virtual_capture_stream.Win.{Os, OsCall}
use virtual_capture_stream.MediaType.{AllocatorProperties}
use virtual_capture_stream.Sample.{IMediaSample, Memory}
use virtual_capture_stream.InputPin.{
  InputPin, receive, reset, stop_server, end_of_stream, delete_input_pin,
}
use virtual_capture_stream.InputPin.Allocator.{Slot, notify_allocator, break_connect}

abbrev pub pipes_made : List OsCall → ℕ
pipes_made [] = 0
pipes_made (OsCall.create_named_pipe n size t ∷ cs) = suc (pipes_made cs)
pipes_made (_ ∷ cs) = pipes_made cs

abbrev disconnects_first : ℕ → List OsCall → Bool
disconnects_first h [] = false
disconnects_first h (OsCall.disconnect_named_pipe g ∷ cs) = g == h
disconnects_first h (_ ∷ cs) = false

-- The handles that were closed right after their pipe was disconnected.
abbrev pub pipes_ended : List OsCall → ℕ
pipes_ended [] = 0
pipes_ended (OsCall.close_handle h ∷ cs) =
    (if disconnects_first h cs then 1 else 0) + pipes_ended cs
pipes_ended (_ ∷ cs) = pipes_ended cs

-- The calls that DirectShow makes on a pin.
pub data PinOp : Type 0 where
  notifying : AllocatorProperties → ℕ → ℕ → Slot → PinOp
  breaking : ℕ → Slot → PinOp
  receiving : Memory → ℕ → IMediaSample → PinOp
  resetting ending : PinOp

unfoldable pub pin_step : Os → PinOp → InputPin → InputPin
unfolding notify_allocator break_connect receive reset end_of_stream
pin_step os (notifying props base a s) p = (notify_allocator os props base a s p).2
pin_step os (breaking base s) p = (break_connect os base s p).2
pin_step os (receiving m base s) p = (receive os m base s p).1
pin_step os resetting p = (reset p).1
pin_step os ending p = (end_of_stream os p).1

unfoldable pub pin_run : Os → List PinOp → InputPin → InputPin
pin_run os [] p = p
pin_run os (op ∷ ops) p = pin_run os ops (pin_step os op p)

-- One pipe is open while the pin has a handle, and none otherwise.
abbrev pub IsOwner : InputPin → Type 0
IsOwner p = pipes_made p.calls ≡ pipes_ended p.calls + (if p.h_pipe == 0 then 0 else 1)

stop_server-IsOwner : (os : Os) (p : InputPin) → IsOwner p → IsOwner (stop_server os p)
unfolding stop_server
stop_server-IsOwner os p h = ground arith

-- `CreateNamedPipe` never answers with the null handle.
abbrev pub NeverNull : Os → Type 0
NeverNull os = (cs : List OsCall) → os.create_named_pipe_reply cs ≢ 0

pub pin_step-IsOwner :
    (os : Os) → NeverNull os → (op : PinOp) (p : InputPin) → IsOwner p → IsOwner (pin_step os op p)
unfolding pin_step
pin_step-IsOwner os n (notifying props base a s) p h = ground (arith, n p.calls)
pin_step-IsOwner os n (breaking base s) p h = ground arith
pin_step-IsOwner os n (receiving m base s) p h = ground arith
pin_step-IsOwner os n resetting p h = h
pin_step-IsOwner os n ending p h = ground arith

pub pin_run-IsOwner :
    (os : Os)
    → NeverNull os
    → (ops : List PinOp) (p : InputPin) → IsOwner p
    → IsOwner (pin_run os ops p)
unfolding pin_run
pin_run-IsOwner os n [] p h = h
pin_run-IsOwner os n (op ∷ ops) p h =
    pin_run-IsOwner os n ops (pin_step os op p) (pin_step-IsOwner os n op p h)

pub delete-ends :
    (os : Os) (p : InputPin)
    → IsOwner p
    → pipes_made (delete_input_pin os p).calls ≡ pipes_ended (delete_input_pin os p).calls
unfolding delete_input_pin
delete-ends os p h = ground arith
