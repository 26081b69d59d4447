-- ===== src/Sink/Pipe.antt =====
-- The sink filter's own pipe: what each operation does to its handle (src/VirtualStreamSink.cpp and .h).
use virtual_capture_stream.Prelude.{
  ℕ, zero, suc, ◌+◌, List, [], ◌∷◌, ◌≡◌, refl, length, get_elem?, ◌==◌, if◌then◌else◌, arith,
  Option-cases, Bool-cases, inl, inr, ◌∙◌,
}
use virtual_capture_stream.Win.{Os}
use virtual_capture_stream.Wire.{Abi}
use virtual_capture_stream.Crt.{Crt}
use virtual_capture_stream.Sink.Publish.{write_pins, pipe_out_media_types}
use virtual_capture_stream.InputPin.Handles.{pipes_made, pipes_ended, NeverNull}
use virtual_capture_stream.Sink.{
  Sink, SinkPin, NewPin, stop_server, initialize_pipe, set_stream_name, remove_pin, remove_pins,
  add_input_pin, delete_sink, new_sink,
}

-- One pipe is open while the filter has a handle, and none otherwise.
abbrev pub IsOwner : Sink → Type 0
IsOwner s = pipes_made s.calls ≡ pipes_ended s.calls + (if s.h_pipe == 0 then 0 else 1)

stop_server-IsOwner :
    (os : Os) (s : Sink) → IsOwner s → IsOwner (stop_server os s) × ((stop_server os s).h_pipe ≡ 0)
unfolding stop_server
stop_server-IsOwner os s h = ground arith

pub initialize_pipe-IsOwner :
    (os : Os) (s : Sink) → NeverNull os → IsOwner s → IsOwner (initialize_pipe os s)
unfolding initialize_pipe
initialize_pipe-IsOwner os s n h =
    ground (arith, stop_server-IsOwner os s h, n s.calls, n (stop_server os s).calls)

pub remove_pins-calls :
    (os : Os) (fuel i : ℕ) (s : Sink)
    → ((remove_pins os fuel i s).calls ≡ s.calls) × ((remove_pins os fuel i s).h_pipe ≡ s.h_pipe)
unfolding remove_pins remove_pin
remove_pins-calls os zero i s = (refl, refl)
remove_pins-calls os (suc fuel) i s = elim (Option-cases (get_elem? s.pin_list i)) [
  | inl past ↦ rw (past, remove_pins) (refl, refl)
  | inr (x, found) ↦
      rw (found, remove_pins)
        (let later = remove_pins-calls os fuel (suc i) (remove_pin os x.id s) in
          (later.0 ∙ ground arith, later.1 ∙ ground arith))
]

pub add_input_pin-calls :
    (crt : Crt) (n : NewPin) (s : Sink)
    → ((add_input_pin crt n s).1.calls ≡ s.calls) × ((add_input_pin crt n s).1.h_pipe ≡ s.h_pipe)
unfolding add_input_pin
add_input_pin-calls crt n s = ground arith

pub ensured-IsOwner :
    (os : Os) (s : Sink)
    → NeverNull os
    → IsOwner s
    → IsOwner (if s.h_pipe == 0 then initialize_pipe os s else s)
ensured-IsOwner os s n h = elim (Bool-cases (s.h_pipe == 0)) [
  | inl missing ↦
      let made : IsOwner (initialize_pipe os s) = initialize_pipe-IsOwner os s n h in
      rw missing made
  | inr there ↦ rw there h
]

pub set_stream_name-IsOwner :
    (os : Os) (crt : Crt) (n : NewPin) (name : List ℕ) (s : Sink)
    → NeverNull os
    → IsOwner s
    → IsOwner (set_stream_name os crt n name s).1
unfolding set_stream_name
set_stream_name-IsOwner os crt n name s never h =
    let renamed = record s { stream_name = name } in
    let kept = remove_pins-calls os (length s.pin_list) 0 renamed in
    let emptied = record (remove_pins os (length s.pin_list) 0 renamed) { pin_list = [] } in
    let same = add_input_pin-calls crt n emptied in
    ensured-IsOwner os (add_input_pin crt n emptied).1 never (rw (same.0, same.1, kept.0, kept.1) h)

write_pins-IsOwner :
    (crt : Crt) (abi : Abi) (l : List SinkPin) (s : Sink)
    → IsOwner s
    → IsOwner (write_pins crt abi l s)
unfolding write_pins
write_pins-IsOwner crt abi [] s h = h
write_pins-IsOwner crt abi (x ∷ xs) s h = write_pins-IsOwner crt abi xs _ (ground arith)

pub pipe_out_media_types-IsOwner :
    (crt : Crt) (abi : Abi) (s : Sink) → IsOwner s → IsOwner (pipe_out_media_types crt abi s).1
unfolding pipe_out_media_types
pipe_out_media_types-IsOwner crt abi s h = write_pins-IsOwner crt abi s.pin_list s h

pub new_sink-IsOwner : (crt : Crt) (n : NewPin) (raw : List ℕ) → IsOwner (new_sink crt n raw).1
unfolding new_sink add_input_pin
new_sink-IsOwner crt n raw = ground arith

pub delete_sink-ends :
    (os : Os) (s : Sink)
    → IsOwner s
    → pipes_made (delete_sink os s).calls ≡ pipes_ended (delete_sink os s).calls
unfolding delete_sink
delete_sink-ends os s h = ground arith
