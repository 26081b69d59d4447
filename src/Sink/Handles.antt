-- ===== src/Sink/Handles.antt =====
-- The pipes of the sink filter and of its pins over their lives (src/VirtualStreamSink.cpp and .h).
use virtual_capture_stream.Prelude.{ℕ, List, [], ◌∷◌, ◌≡◌, refl, Bool-cases, inl, inr}
use virtual_capture_stream.Win.{Os, OsCall}
use virtual_capture_stream.Wire.{Abi}
use virtual_capture_stream.Crt.{Crt}
use virtual_capture_stream.InputPin.Handles.{PinOp, pin_step}
use virtual_capture_stream.Sink.{Sink, SinkPin, FilterState, pause, run, stop, log}
use virtual_capture_stream.Sink.Pins.{GraphEvent, graph_step}
use virtual_capture_stream.Sink.Publish.{write_pins, pin_message, pipe_out_media_types}
use virtual_capture_stream.Sink.Pipe.{IsOwner}
use virtual_capture_stream.Sink.PinPipes.{at_pin, AllOwn, AllEnded}

-- What is called on the filter, the answer that its thread gives to a client, what the graph does, and
-- what is called on the pin at an address.
pub data SinkOp : Type 0 where
  pausing running_at : ℕ × FilterState → SinkOp
  stopping answering : SinkOp
  in_graph : GraphEvent → SinkOp
  on_pin : ℕ → PinOp → SinkOp

-- `CBaseFilter::Stop` finds the filter stopped and does nothing.
unfoldable pub sink_step : Os → Crt → Abi → SinkOp → Sink → Sink
sink_step os crt abi (pausing base) s = (pause os base s).1
sink_step os crt abi (running_at base) s = (run os base s).1
sink_step os crt abi stopping s = (stop (λ t. t) s).1
sink_step os crt abi answering s = (pipe_out_media_types crt abi s).1
sink_step os crt abi (in_graph e) s = graph_step os crt e s
sink_step os crt abi (on_pin a op) s = record s { pin_list = at_pin a (pin_step os op) s.pin_list }

unfoldable pub sink_run : Os → Crt → Abi → List SinkOp → Sink → Sink
sink_run os crt abi [] s = s
sink_run os crt abi (op ∷ ops) s = sink_run os crt abi ops (sink_step os crt abi op s)

-- The filter owns its pipe, each of its pins its own, and the pins that are gone have left none.
record KeepsPipes (s : Sink) : Type 0 where
  own : IsOwner s
  pins : AllOwn s.pin_list
  gone : AllEnded s.deleted

pub write_pins-rest :
    (crt : Crt) (abi : Abi) (l : List SinkPin) (s : Sink)
    → ((write_pins crt abi l s).pin_list ≡ s.pin_list)
      × ((write_pins crt abi l s).deleted ≡ s.deleted)
unfolding write_pins
write_pins-rest crt abi [] s = (refl, refl)
write_pins-rest crt abi (x ∷ xs) s = elim (Bool-cases x.is_connected) [
  | inl told ↦
      rw (told, write_pins)
        (write_pins-rest crt abi xs (log (OsCall.write_file s.h_pipe (pin_message crt abi x)) s))
  | inr free ↦ rw (free, write_pins) (write_pins-rest crt abi xs s)
]
