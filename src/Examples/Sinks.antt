-- ===== src/Examples/Sinks.antt =====
-- Examples for the sink filter.
use virtual_capture_stream.Prelude.{◌≡◌, refl, true, false, List, [], ◌∷◌, ◌++◌, length, arith}
use virtual_capture_stream.InputPin.Transmit.{sent}
use virtual_capture_stream.InputPin.Handles.{notifying}
use virtual_capture_stream.InputPin.Allocator.{no_allocator}
use virtual_capture_stream.InputPin.Server.{starting, connecting}
use virtual_capture_stream.Sink.{
  Sink, stopped, paused, new_sink, remove_pins, destroyed, set_stream_name, make_input_pin,
}
use virtual_capture_stream.Sink.OldPipe.{set_stream_name-old_pipe}
use virtual_capture_stream.Sink.Publish.{
  pipe_out_media_types, pin_messages, pipe_out_media_types-sent,
}
use virtual_capture_stream.Sink.Pins.{
  connecting as connecting_pin, disconnecting, renaming as graph_renaming, IsReady, graph_run,
  graph_run-new_sink,
}
use virtual_capture_stream.Sink.Renaming.{set_stream_name-odds}
use virtual_capture_stream.Sink.Handles.{SinkOp, pausing, answering, in_graph, on_pin}
use virtual_capture_stream.Sink.Server.{SinkThread, serve_run, signal_stop, serve_run-lost_stop}
use virtual_capture_stream.Examples.Data.{abi, crt, os, new_pin, listed, props}

abbrev three_pins : Sink
three_pins = record {
  stream_name = 83 ∷ [];
  pin_list = listed 1 ∷ listed 2 ∷ listed 3 ∷ [];
  h_pipe = 20;
  h_thread = 21;
  server_running = true;
  connected = false;
  pipename = 83 ∷ [];
  state = stopped;
  next_id = 4;
  deleted = [];
  calls = [];
}

pipe_out_media_types-sent_example :
    sent 20 (pipe_out_media_types crt abi three_pins).1.calls
    ≡ pin_messages crt abi (listed 1 ∷ listed 2 ∷ listed 3 ∷ []) ++ [] ∷ []
pipe_out_media_types-sent_example = pipe_out_media_types-sent crt abi three_pins

graph_run-new_sink_example : IsReady (
    graph_run os crt
      (connecting_pin 1 0 new_pin ∷ disconnecting 1 ∷ graph_renaming (84 ∷ []) new_pin ∷ [])
      (new_sink crt new_pin []).1)
graph_run-new_sink_example =
    graph_run-new_sink os crt new_pin []
      (connecting_pin 1 0 new_pin ∷ disconnecting 1 ∷ graph_renaming (84 ∷ []) new_pin ∷ []) refl
      (refl, (refl, tt))

set_stream_name-odds_example :
    let renamed = record three_pins { stream_name = 84 ∷ [] } in
    let t = (set_stream_name os crt new_pin (84 ∷ []) three_pins).1 in
    ((remove_pins os 3 0 renamed).pin_list ≡ listed 2 ∷ [])
    × (t.deleted ≡ destroyed os (listed 3) ∷ destroyed os (listed 1) ∷ [])
    × (t.pin_list
        ≡ make_input_pin crt new_pin (record (remove_pins os 3 0 renamed) { pin_list = [] }) ∷ [])
set_stream_name-odds_example =
    set_stream_name-odds os crt new_pin (84 ∷ []) three_pins refl (ground arith)

-- The graph gives the pin an allocator and connects it, the filter pauses and answers, and is renamed.
abbrev session : List SinkOp
session =
    on_pin 1 (notifying props 0 30 no_allocator)
    ∷ in_graph (connecting_pin 1 0 new_pin)
    ∷ pausing (0, paused)
    ∷ answering
    ∷ in_graph (graph_renaming (84 ∷ []) new_pin)
    ∷ []

abbrev serving : SinkThread
serving = record { stage = connecting; sink = three_pins }

serve_run-lost_stop_example :
    let u =
      serve_run crt abi
        (true ∷ true ∷ true ∷ true ∷ [])
        (signal_stop (record serving { stage = starting })) in
    (u.sink.server_running ≡ true)
    × (u.sink.calls
        ≡ (pipe_out_media_types crt abi
            (record three_pins { server_running = true; connected = true })).1.calls)
serve_run-lost_stop_example =
    serve_run-lost_stop crt abi true true true (record serving { stage = starting }) refl

set_stream_name-old_pipe_example :
    let t = (set_stream_name os crt new_pin (84 ∷ []) three_pins).1 in
    (t.calls ≡ [])
    × (t.h_pipe ≡ 20)
    × (t.pipename ≡ 83 ∷ [])
    × (t.stream_name ≡ 84 ∷ [])
    × (length t.pin_list ≡ 1)
set_stream_name-old_pipe_example =
    set_stream_name-old_pipe os crt new_pin (84 ∷ []) three_pins refl (omega arith)
