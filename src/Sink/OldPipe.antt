-- ===== src/Sink/OldPipe.antt =====
-- `SetStreamName` of src/VirtualStreamSink.h while the filter has its pipe.
use virtual_capture_stream.Prelude.{
  ℕ, zero, suc, false, List, length, get_elem?, Option-cases, ◌≡◌, ◌≢◌, refl, ◌∙◌, inl, inr, arith,
}
use virtual_capture_stream.Win.{Os, failed}
use virtual_capture_stream.Crt.{Crt}
use virtual_capture_stream.Sink.{
  Sink, NewPin, remove_pin, remove_pins, add_input_pin, set_stream_name,
}

-- The members that have to do with the pipe.
record HasPipeOf (s t : Sink) : Type 0 where
  same_handle : t.h_pipe ≡ s.h_pipe
  same_pipename : t.pipename ≡ s.pipename
  same_calls : t.calls ≡ s.calls
  same_name : t.stream_name ≡ s.stream_name

same_pipe : (s : Sink) → HasPipeOf s s
same_pipe s = record {
  same_handle = refl;
  same_pipename = refl;
  same_calls = refl;
  same_name = refl;
}

remove_pins-HasPipeOf : (os : Os) (fuel i : ℕ) (s : Sink) → HasPipeOf s (remove_pins os fuel i s)
unfolding remove_pins remove_pin
remove_pins-HasPipeOf os zero i s = same_pipe s
remove_pins-HasPipeOf os (suc fuel) i s = elim (Option-cases (get_elem? s.pin_list i)) [
  | inl past ↦ rw (past, remove_pins) (same_pipe s)
  | inr (x, found) ↦
      rw (found, remove_pins)
        (let later = remove_pins-HasPipeOf os fuel (suc i) (remove_pin os x.id s) in
          record {
            same_handle = later.same_handle ∙ ground arith;
            same_pipename = later.same_pipename ∙ ground arith;
            same_calls = later.same_calls ∙ ground arith;
            same_name = later.same_name ∙ ground arith;
          })
]

-- A filter that has its pipe keeps it under the old name when it is renamed: the filter makes no call for
-- its own pipe, whatever the pins that are destroyed do with theirs, and the handle and the pipe's name stay, while the stream has the new name and a single new
-- pin, if that pin is constructed without an error.
pub set_stream_name-old_pipe :
    (os : Os) (crt : Crt) (n : NewPin) (name : List ℕ) (s : Sink)
    → failed n.hr ≡ false
    → s.h_pipe ≢ 0
    → let t = (set_stream_name os crt n name s).1 in
      (t.calls ≡ s.calls)
      × (t.h_pipe ≡ s.h_pipe)
      × (t.pipename ≡ s.pipename)
      × (t.stream_name ≡ name)
      × (length t.pin_list ≡ 1)
unfolding set_stream_name add_input_pin
set_stream_name-old_pipe os crt n name s ok has_pipe =
    let kept = remove_pins-HasPipeOf os (length s.pin_list) 0 (record s { stream_name = name }) in
    ground (arith, kept.same_handle, kept.same_pipename, kept.same_calls, kept.same_name)
