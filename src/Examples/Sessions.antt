-- ===== src/Examples/Sessions.antt =====
-- Examples for a sink and a source together, for the names of the pins and for the property page.
use virtual_capture_stream.Prelude.{
  ℕ, ◌≡◌, refl, true, false, [], ◌∷◌, List, none, some, arith, Option, ◌++◌, map, inl,
}
use virtual_capture_stream.Win.{Os, OsCall, s_ok}
use virtual_capture_stream.PipeClient.{pipehost, client_pipe_name, open_pipe}
use virtual_capture_stream.PinInfo.{write_pin_info, name_field}
use virtual_capture_stream.InputPin.{new_input_pin, receive}
use virtual_capture_stream.Sample.{new_sample}
use virtual_capture_stream.InputPin.Allocator.{notify_allocator, create_pipe, no_allocator}
use virtual_capture_stream.OutputPin.{OutputPin, connect_to_sink_pin, on_thread_start_play}
use virtual_capture_stream.Session.Progress.{AllServed, create_output_pins-AllServed}
use virtual_capture_stream.InputPin.Server.{connecting as at_the_pipe, listen_step}
use virtual_capture_stream.Channel.{
  Channel, receiving, notifying, starting, opening, listening, renewed,
}
use virtual_capture_stream.Session.Streams.{
  channels, Runs, begun, later, AllInOrder, create_output_pins-AllInOrder,
}
use virtual_capture_stream.Registration.{iid_i_virtual_stream_sink}
use virtual_capture_stream.Sink.{
  Sink, pin_name, new_sink, add_input_pin, make_input_pin, pause, initialize_pipe, paused,
}
use virtual_capture_stream.Sink.Interface.{query_interface, virtual_stream_sink}
use virtual_capture_stream.Sink.Pins.{connecting, graph_step}
use virtual_capture_stream.Sink.Publish.{pin_message, connected_pins, pipe_out_media_types}
use virtual_capture_stream.Sink.Handles.{SinkOp, pausing, in_graph, sink_step, sink_run}
use virtual_capture_stream.Source.{Source, create_output_pins, read_pins, make_pin}
use virtual_capture_stream.Source.Rebuild.{AllFit}
use virtual_capture_stream.Session.{AllPartners, description, create_output_pins-AllPartners}
use virtual_capture_stream.PropertyPage.{on_connect, new_property_page, on_connect-query_interface}
use virtual_capture_stream.Examples.Data.{
  abi, abi-IsFaithful, crt, sdk, os, os_with, props, playing, new_pin, raw, unmade, memory,
  upstream,
}

-- The graph connects the first pin and pauses.
abbrev ops : List SinkOp
ops = in_graph (connecting 1 0 new_pin) ∷ pausing (0, paused) ∷ []

abbrev used : Sink
used = sink_run os crt abi ops (new_sink crt new_pin []).1

abbrev answering_os : Os
answering_os = os_with (description crt abi used)

used-AllFit : AllFit crt abi (connected_pins used.pin_list)
unfolding sink_run sink_step graph_step new_sink add_input_pin make_input_pin new_input_pin pin_name
    pause initialize_pipe pin_message write_pin_info name_field
used-AllFit = (
  record {
    plain = record { converts = refl; no_zero = ground arith; formats = refl };
    short = omega arith;
    whole = refl;
    small = omega arith;
  },
  tt,
)

create_output_pins-AllPartners_example :
    (t : Source) × (create_output_pins answering_os crt abi raw 2 (83 ∷ []) unmade ≡ some (s_ok, t))
    × AllPartners (connected_pins used.pin_list) t.pin_list
unfolding open_pipe sink_run sink_step graph_step new_sink add_input_pin make_input_pin
    new_input_pin pin_name pause initialize_pipe pin_message write_pin_info name_field
    pipe_out_media_types
create_output_pins-AllPartners_example =
    create_output_pins-AllPartners os answering_os crt abi new_pin [] ops used raw 22 2 (83 ∷ [])
      unmade (OsCall.create_file (client_pipe_name pipehost (83 ∷ [])) ∷ []) abi-IsFaithful refl
      used-AllFit (omega arith) refl refl (λ n h. (refl, λ m k. (refl, tt)))

abbrev source_of : Option (ℕ × Source) → Source
source_of none = unmade
source_of (some (hr, t)) = t

abbrev made : Source
made = source_of (create_output_pins answering_os crt abi raw 2 (83 ∷ []) unmade)

-- The pin of the sink receives a sample.
abbrev after : Channel → Channel
after c = record c {
  sink = (receive os memory 0 upstream c.sink).1;
  received = c.received ++ new_sample memory 0 upstream ∷ [];
}

create_output_pins-AllInOrder_example :
    AllInOrder abi
      (connected_pins used.pin_list)
      (map after (channels (connected_pins used.pin_list) made.pin_list))
unfolding open_pipe sink_run sink_step graph_step new_sink add_input_pin make_input_pin
    new_input_pin pin_name pause initialize_pipe pin_message write_pin_info name_field
    pipe_out_media_types create_output_pins read_pins make_pin
create_output_pins-AllInOrder_example =
    create_output_pins-AllInOrder os answering_os crt abi new_pin [] ops used raw 22 2 (83 ∷ [])
      unmade made (OsCall.create_file (client_pipe_name pipehost (83 ∷ [])) ∷ [])
      (map after (channels (connected_pins used.pin_list) made.pin_list)) abi-IsFaithful refl
      used-AllFit (omega arith) refl refl (λ n h. (refl, λ m k. (refl, tt))) refl (refl, tt)
      (later begun (inl (receiving os memory 0 upstream, refl)))

-- Upstream agrees on an allocator, the source's thread starts and connects, and the sink sees it.
abbrev agreed : Channel → Channel
agreed c = record c { sink = (notify_allocator os props 0 40 no_allocator c.sink).2 }

abbrev started : Channel → Channel
started c = renewed c (on_thread_start_play 0 c.source).1

abbrev pin_of : Option (ℕ × OutputPin) → OutputPin
pin_of none = playing
pin_of (some (hr, q)) = q

abbrev joined : Channel → Channel
joined c = record c { source = pin_of (connect_to_sink_pin os 1 c.source); broken = false }

abbrev seen : Channel → Channel
seen c = record c { sink = record c.sink { connected = true } }

abbrev live : Channel → Channel
live c = seen (joined (started (agreed (after c))))

abbrev pairs : List Channel
pairs = channels (connected_pins used.pin_list) made.pin_list

create_output_pins-AllServed_example :
    (es : List Channel) × Runs abi (map live pairs) es
    × AllServed (connected_pins used.pin_list) (map live pairs) es
unfolding open_pipe sink_run sink_step graph_step new_sink add_input_pin make_input_pin
    new_input_pin pin_name pause initialize_pipe pin_message write_pin_info name_field
    pipe_out_media_types create_output_pins read_pins make_pin connect_to_sink_pin receive
    notify_allocator create_pipe on_thread_start_play listen_step
create_output_pins-AllServed_example =
    let first : Runs abi pairs (map after pairs) =
      later begun (inl (receiving os memory 0 upstream, refl)) in
    let second : Runs abi pairs (map (λ c. agreed (after c)) pairs) =
      later first (inl (notifying os props 0 40 no_allocator, refl)) in
    let third : Runs abi pairs (map (λ c. started (agreed (after c))) pairs) =
      later second (inl (starting 0, refl)) in
    let fourth : Runs abi pairs (map (λ c. joined (started (agreed (after c)))) pairs) =
      later third (inl (opening os 1 _ refl refl (λ e. cc) refl (λ e. cc), refl)) in
    let fifth : Runs abi pairs (map live pairs) =
      later fourth (inl (listening at_the_pipe true (λ e. absurd (cc e)), refl)) in
    create_output_pins-AllServed os answering_os crt abi new_pin [] ops used raw 22 2 (83 ∷ [])
      unmade made (OsCall.create_file (client_pipe_name pipehost (83 ∷ [])) ∷ []) (map live pairs)
      abi-IsFaithful refl used-AllFit (omega arith) refl refl (λ n h. (refl, λ m k. (refl, tt)))
      refl (refl, tt) fifth
      (
        record {
          is_writing = refl;
          has_client = refl;
          is_running = refl;
          is_whole = refl;
          undisturbed = refl;
        },
        tt,
      )

on_connect-query_interface_example :
    let face = query_interface sdk (λ i. none) in
    (face iid_i_virtual_stream_sink ≡ some virtual_stream_sink)
    × ((on_connect face new_property_page).0 ≡ s_ok)
    × ((on_connect face new_property_page).1.stream_buffer ≡ none)
on_connect-query_interface_example =
    on_connect-query_interface sdk (λ i. none) new_property_page (λ e. cc) (λ e. cc) refl
