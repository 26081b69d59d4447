-- ===== src/Sink/Names.antt =====
-- The names of the sink's pins and of their pipes (src/VirtualStreamSink.cpp): a pin's pipe goes by the
-- pin's name.
use virtual_capture_stream.Prelude.{
  ℕ, ◌≡◌, refl, List, [], ◌∷◌, ◌++◌, length, ◌==◌, if◌then◌else◌, arith, Bool, true, false,
  Bool-cases, inl, inr, subst, sym,
}
use virtual_capture_stream.Win.{Os, failed}
use virtual_capture_stream.Wire.{Abi}
use virtual_capture_stream.Crt.{Crt}
use virtual_capture_stream.InputPin.{
  InputPin, new_input_pin, pipe_prefix, receive, reset, end_of_stream, stop_server,
}
use virtual_capture_stream.InputPin.Allocator.{notify_allocator, break_connect}
use virtual_capture_stream.InputPin.Handles.{
  PinOp, pin_step, notifying, breaking, receiving, resetting, ending,
}
use virtual_capture_stream.Sink.{
  Sink, SinkPin, NewPin, pin_name, default_stream, add_input_pin, make_input_pin, reset_pins,
  set_stream_name, initialize_pipe, remove_pins, new_sink, pause, run, stop,
}
use virtual_capture_stream.Sink
use virtual_capture_stream.Sink.Pins.{
  GraphEvent, connecting, disconnecting, renaming, graph_step, mark,
}
use virtual_capture_stream.Sink.Publish.{pipe_out_media_types}
use virtual_capture_stream.Sink.PinPipes.{at_pin}
use virtual_capture_stream.Sink.Handles.{
  SinkOp, pausing, running_at, stopping, answering, in_graph, on_pin, sink_step, sink_run,
  write_pins-rest,
}

-- Every pin's pipe goes by the pin's name.
abbrev pub AllNamed : List SinkPin → Type 0
AllNamed [] = Unit
AllNamed (x ∷ xs) = (x.pin.pipename ≡ pipe_prefix ++ x.pin.name) × AllNamed xs

AllNamed-append :
    (l : List SinkPin) (x : SinkPin)
    → AllNamed l
    → x.pin.pipename ≡ pipe_prefix ++ x.pin.name
    → AllNamed (l ++ x ∷ [])
AllNamed-append [] x h e = (e, tt)
AllNamed-append (y ∷ l) x h e = (h.0, AllNamed-append l x h.1 e)

AllNamed-mark : (a : ℕ) (b : Bool) (l : List SinkPin) → AllNamed l → AllNamed (mark a b l)
AllNamed-mark a b [] h = tt
AllNamed-mark a b (x ∷ xs) h = ground (arith, AllNamed-mark a b xs h.1)

AllNamed-reset_pins : (l : List SinkPin) → AllNamed l → AllNamed (reset_pins l)
unfolding reset
AllNamed-reset_pins [] h = tt
AllNamed-reset_pins (x ∷ xs) h = ground (arith, AllNamed-reset_pins xs h.1)

-- No call on a pin renames it or its pipe.
pin_step-name :
    (os : Os) (op : PinOp) (p : InputPin)
    → ((pin_step os op p).name ≡ p.name) × ((pin_step os op p).pipename ≡ p.pipename)
unfolding pin_step notify_allocator break_connect receive reset end_of_stream stop_server
pin_step-name os (notifying props base a s) p = ground arith
pin_step-name os (breaking base s) p = ground arith
pin_step-name os (receiving m base s) p = ground arith
pin_step-name os resetting p = (refl, refl)
pin_step-name os ending p = ground arith

AllNamed-at_pin :
    (os : Os) (op : PinOp) (a : ℕ) (l : List SinkPin)
    → AllNamed l
    → AllNamed (at_pin a (pin_step os op) l)
AllNamed-at_pin os op a [] h = tt
AllNamed-at_pin os op a (x ∷ xs) h =
    ground (arith, AllNamed-at_pin os op a xs h.1, pin_step-name os op x.pin)

add_input_pin-AllNamed :
    (crt : Crt) (n : NewPin) (s : Sink)
    → AllNamed s.pin_list
    → AllNamed (add_input_pin crt n s).1.pin_list
unfolding add_input_pin make_input_pin new_input_pin
add_input_pin-AllNamed crt n s h =
    ground (arith, AllNamed-append s.pin_list (make_input_pin crt n s) h refl)

initialize_pipe-pin_list : (os : Os) (s : Sink) → (initialize_pipe os s).pin_list ≡ s.pin_list
unfolding initialize_pipe Sink.stop_server
initialize_pipe-pin_list os s = ground arith

ensured-pin_list :
    (os : Os) (s : Sink) → (if s.h_pipe == 0 then initialize_pipe os s else s).pin_list ≡ s.pin_list
ensured-pin_list os s = ground (arith, initialize_pipe-pin_list os s)

set_stream_name-AllNamed :
    (os : Os) (crt : Crt) (name : List ℕ) (n : NewPin) (s : Sink)
    → AllNamed (set_stream_name os crt n name s).1.pin_list
unfolding set_stream_name
set_stream_name-AllNamed os crt name n s =
    let emptied : Sink =
      record (remove_pins os (length s.pin_list) 0 (record s { stream_name = name })) {
        pin_list = [];
      } in
    subst AllNamed (sym (ensured-pin_list os (add_input_pin crt n emptied).1))
      (add_input_pin-AllNamed crt n emptied tt)

graph_step-AllNamed :
    (os : Os) (crt : Crt) (e : GraphEvent) (s : Sink)
    → AllNamed s.pin_list
    → AllNamed (graph_step os crt e s).pin_list
unfolding graph_step
graph_step-AllNamed os crt (connecting a base n) s h = elim (Bool-cases (failed base)) [
  | inl refused ↦ rw (refused, graph_step) (rw refused h)
  | inr taken ↦
      rw (taken, graph_step)
        (add_input_pin-AllNamed crt n (record s { pin_list = mark a true s.pin_list })
          (AllNamed-mark a true s.pin_list h))
]
graph_step-AllNamed os crt (disconnecting a) s h = AllNamed-mark a false s.pin_list h
graph_step-AllNamed os crt (renaming name n) s h = set_stream_name-AllNamed os crt name n s

sink_step-AllNamed :
    (os : Os) (crt : Crt) (abi : Abi) (op : SinkOp) (s : Sink)
    → AllNamed s.pin_list
    → AllNamed (sink_step os crt abi op s).pin_list
unfolding sink_step pause run stop pipe_out_media_types
sink_step-AllNamed os crt abi (pausing base) s h =
    subst AllNamed (sym (initialize_pipe-pin_list os (record s { state = base.1 }))) h
sink_step-AllNamed os crt abi (running_at base) s h =
    subst AllNamed (sym (ensured-pin_list os (record s { pin_list = reset_pins s.pin_list })))
      (AllNamed-reset_pins s.pin_list h)
sink_step-AllNamed os crt abi stopping s h = h
sink_step-AllNamed os crt abi answering s h =
    subst AllNamed (sym (write_pins-rest crt abi s.pin_list s).0) h
sink_step-AllNamed os crt abi (in_graph e) s h = graph_step-AllNamed os crt e s h
sink_step-AllNamed os crt abi (on_pin a op) s h = AllNamed-at_pin os op a s.pin_list h

sink_run-AllNamed :
    (os : Os) (crt : Crt) (abi : Abi) (ops : List SinkOp) (s : Sink)
    → AllNamed s.pin_list
    → AllNamed (sink_run os crt abi ops s).pin_list
unfolding sink_run
sink_run-AllNamed os crt abi [] s h = h
sink_run-AllNamed os crt abi (op ∷ ops) s h =
    sink_run-AllNamed os crt abi ops (sink_step os crt abi op s)
      (sink_step-AllNamed os crt abi op s h)

-- Whatever was called on a new filter and its pins.
pub sink_run-new_sink :
    (os : Os) (crt : Crt) (abi : Abi) (n : NewPin) (raw : List ℕ) (ops : List SinkOp)
    → AllNamed (sink_run os crt abi ops (new_sink crt n raw).1).pin_list
unfolding new_sink
sink_run-new_sink os crt abi n raw ops =
    sink_run-AllNamed os crt abi ops _ (add_input_pin-AllNamed crt n _ tt)
