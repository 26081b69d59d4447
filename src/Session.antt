-- ===== src/Session.antt =====
-- A sink filter and a source filter that reads its description, as a whole: the pins that the source
-- makes (src/VirtualStreamSource.cpp) against the pins that the sink has (src/VirtualStreamSink.cpp).
pub mod Streams
pub mod Progress
use virtual_capture_stream.Prelude.{
  ℕ, ◌<◌, true, false, ◌≡◌, refl, sym, List, [], ◌∷◌, ◌++◌, some, subst, length, drop, drop-append,
  arith,
}
use virtual_capture_stream.Win.{Os, OsCall, s_ok}
use virtual_capture_stream.Wire.{Abi, IsFaithful}
use virtual_capture_stream.Crt.{Crt}
use virtual_capture_stream.PipeClient.{pipehost, client_pipe_name, open_pipe, opened}
use virtual_capture_stream.InputPin.Transmit.{sent}
use virtual_capture_stream.Sink.{Sink, SinkPin, NewPin, new_sink}
use virtual_capture_stream.Sink.Publish.{
  pipe_out_media_types, connected_pins, pin_messages, pipe_out_media_types-sent,
}
use virtual_capture_stream.Sink.Handles.{SinkOp, sink_run}
use virtual_capture_stream.Sink.Names.{AllNamed, sink_run-new_sink}
use virtual_capture_stream.OutputPin.{OutputPin}
use virtual_capture_stream.OutputPin.Fill.{Serves}
use virtual_capture_stream.Source.{Source, RawPin, create_output_pins}
use virtual_capture_stream.Source.Rebuild.{AllFit, mirrors, create_output_pins-mirrors}

-- An output pin that belongs to an input pin: it looks for the pipe that the input pin serves, has the
-- same media type, and asks its allocator for what the input pin's reported. It has not connected yet.
pub record ArePartners (x : SinkPin) (q : OutputPin) : Type 0 where
  pub same_pipe : client_pipe_name pipehost q.name ≡ x.pin.pipename
  pub same_type : q.mt ≡ x.pin.mt
  pub same_allocator : q.alloc_properties ≡ x.alloc_props
  pub not_connected : q.connected ≡ false
  pub none_delivered : q.first_sample_delivered ≡ false

abbrev pub AllPartners : List SinkPin → List OutputPin → Type 0
AllPartners [] [] = Unit
AllPartners (x ∷ xs) (q ∷ qs) = ArePartners x q × AllPartners xs qs
AllPartners _ _ = ⊥

mirrors-AllPartners : (raw : RawPin) (l : List SinkPin) → AllNamed l → AllPartners l (mirrors raw l)
mirrors-AllPartners raw [] h = tt
mirrors-AllPartners raw (x ∷ xs) h = (
  record {
    same_pipe = sym h.0;
    same_type = refl;
    same_allocator = refl;
    not_connected = refl;
    none_delivered = refl;
  },
  mirrors-AllPartners raw xs h.1,
)

AllNamed-connected_pins : (l : List SinkPin) → AllNamed l → AllNamed (connected_pins l)
AllNamed-connected_pins [] h = tt
AllNamed-connected_pins (x ∷ xs) h = ground (arith, AllNamed-connected_pins xs h.1)

-- What one answer of the sink's thread puts into the filter's pipe.
abbrev pub description : Crt → Abi → Sink → List (List ℕ)
description crt abi s =
    drop (length (sent s.h_pipe s.calls)) (sent s.h_pipe (pipe_out_media_types crt abi s).1.calls)

description-messages :
    (crt : Crt) (abi : Abi) (s : Sink)
    → description crt abi s ≡ pin_messages crt abi (connected_pins s.pin_list) ++ [] ∷ []
description-messages crt abi s = rw (pipe_out_media_types-sent crt abi s) (
    drop-append (length (sent s.h_pipe s.calls)) (sent s.h_pipe s.calls)
      (pin_messages crt abi (connected_pins s.pin_list) ++ [] ∷ []) refl)

-- Both filters together. Whatever was called on a new sink and its pins, a source that reads the answer
-- of the sink's thread makes one output pin for each connected pin of the sink, in order, and each of
-- them, not connected yet, looks for the very pipe that its input pin serves, with the media type and the
-- allocator's properties of that pin: when the filter's pipe opens, takes the message mode and delivers the answer,
-- every description fits, and the fuel exceeds the number of pins.
pub create_output_pins-AllPartners :
    (sink_os source_os : Os) (crt : Crt) (abi : Abi) (n : NewPin) (raw_pipename : List ℕ)
    (ops : List SinkOp) (s : Sink) (raw : RawPin) (h fuel : ℕ) (name : List ℕ) (c : Source)
    (cs : List OsCall)
    → IsFaithful abi
    → s ≡ sink_run sink_os crt abi ops (new_sink crt n raw_pipename).1
    → AllFit crt abi (connected_pins s.pin_list)
    → length (connected_pins s.pin_list) < fuel
    → open_pipe source_os (client_pipe_name pipehost name) 20000 fuel c.calls ≡ some (opened h, cs)
    → source_os.set_state_reply cs ≡ true
    → Serves source_os h (description crt abi s) (OsCall.set_named_pipe_handle_state h ∷ cs)
    → (t : Source) × (create_output_pins source_os crt abi raw fuel name c ≡ some (s_ok, t))
      × AllPartners (connected_pins s.pin_list) t.pin_list
create_output_pins-AllPartners sink_os os crt abi n raw_pipename ops s raw h fuel name c cs v made
      fit lt open_ok mode serves =
    let named : AllNamed s.pin_list =
      subst (λ (x : Sink). AllNamed x.pin_list) (sym made)
        (sink_run-new_sink sink_os crt abi n raw_pipename ops) in
    let served =
      subst (λ ms. Serves os h ms (OsCall.set_named_pipe_handle_state h ∷ cs))
        (description-messages crt abi s) serves in
    let (t, done, pins) =
      create_output_pins-mirrors os crt abi raw h v (connected_pins s.pin_list) fuel name c cs fit
        lt open_ok mode served in
    (
      t,
      done,
      subst (AllPartners (connected_pins s.pin_list)) (sym pins) (
          mirrors-AllPartners raw (connected_pins s.pin_list)
            (AllNamed-connected_pins s.pin_list named)),
    )
