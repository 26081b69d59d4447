-- ===== src/Examples/Sources.antt =====
-- Examples for the source filter and its output pins.
use virtual_capture_stream.Prelude.{
  ℕ, Option, ◌++◌, ◌≡◌, ◌⊎◌, refl, true, false, [], ◌∷◌, none, some, arith,
}
use virtual_capture_stream.Win.{Os, OsCall, s_ok, e_fail, failed}
use virtual_capture_stream.PipeClient.{open_pipe, client_pipe_name, pipehost}
use virtual_capture_stream.InputPin.Transmit.{all_messages}
use virtual_capture_stream.OutputPin.{
  OutputPin, SampleReplies, Filled, fill_sample, fill_buffer, fill_connected, connect_to_sink_pin,
  on_thread_start_play, log,
}
use virtual_capture_stream.OutputPin.Playing.{
  fill_buffers, all_delivered, fill_buffers-all_messages,
}
use virtual_capture_stream.OutputPin.Desync.{stores, fill_buffer-refused}
use virtual_capture_stream.Wire.{info_read}
use virtual_capture_stream.InputPin.Write.{payload}
use virtual_capture_stream.Sample.{get_buffer}
use virtual_capture_stream.OutputPin.Connect.{NeverDiscontinuous, fill_buffer-NeverDiscontinuous}
use virtual_capture_stream.OutputPin.Caps.{
  Answers, refused, get_property, query_supported, get_property-query_supported,
}
use virtual_capture_stream.Source.{
  Source, RawPin, create_output_pins, read_pins, make_pin, choose_stream_name, stream_option,
}
use virtual_capture_stream.Source.Rebuild.{mirror, Fits, mirrors, create_output_pins-mirrors}
use virtual_capture_stream.Source.StreamName.{choose_stream_name-command_line}
use virtual_capture_stream.Source
use virtual_capture_stream.Source.Stopping.{AllEnd, stop-AllEnd}
use virtual_capture_stream.Source.Life.{bare_source, delete_source}
use virtual_capture_stream.Source.PinPipes.{AllClosed}
use virtual_capture_stream.Source.Handles.{
  SourceRun, here, next, naming, stopping, on_pin, delete_source-SourceRun,
}
use virtual_capture_stream.OutputPin.Handles.{
  PinStep, files_opened, closed_or_left, filling, starting,
}
use virtual_capture_stream.Sink.{stopped, running}
use virtual_capture_stream.Sink.Publish.{pin_message, pin_messages}
use virtual_capture_stream.PinInfo.{read_pin_info, write_pin_info, name_field}
use virtual_capture_stream.Examples.Data.{
  abi, abi-IsFaithful, crt, sdk, os, os_with, video_type, frame, gap, accepting, playing, listed,
  raw, unmade,
}

fill_buffers-all_messages_example :
    fill_buffers
      (os_with (all_messages abi 500 1 (frame ∷ gap ∷ [])))
      abi
      0
      (accepting ∷ accepting ∷ [])
      playing
    ≡ some (all_delivered video_type 500 (frame ∷ gap ∷ []))
fill_buffers-all_messages_example =
    fill_buffers-all_messages (os_with (all_messages abi 500 1 (frame ∷ gap ∷ []))) abi 0
      abi-IsFaithful 500 1 (accepting ∷ accepting ∷ []) frame (gap ∷ []) playing (ground arith) refl
      refl refl (λ n h. (refl, λ m k. (refl, λ i j. (refl, tt))))

-- A sample that refuses its sync point.
abbrev refusing : SampleReplies
refusing = record accepting { sync_point_hr = e_fail }

abbrev frame_os : Os
frame_os = os_with (all_messages abi 500 1 (frame ∷ []))

fill_buffer-refused_example :
    (f : Filled) × (fill_buffer frame_os abi 0 refusing playing ≡ some f)
    × (stores f.sample ≡ false)
    × (fill_buffer frame_os abi 0 accepting f.pin
        ≡ some (
            fill_sample frame_os accepting
              (info_read abi (payload frame))
              (log (OsCall.read_file playing.h_pipe abi.info_size) f.pin)))
unfolding payload get_buffer
fill_buffer-refused_example =
    fill_buffer-refused frame_os abi 0 refusing accepting 500 1 frame playing [] abi-IsFaithful refl
      refl (ground arith) refl (omega arith) (λ n h. (refl, λ m k. (refl, tt)))

abbrev idle : OutputPin
idle = record playing { connected = false; h_pipe = 0 }

-- A call that sets a sample up.
abbrev filled : Filled
filled = fill_connected frame_os abi accepting playing

fill_buffer-NeverDiscontinuous_example : NeverDiscontinuous filled.sample
unfolding fill_buffer
fill_buffer-NeverDiscontinuous_example =
    fill_buffer-NeverDiscontinuous frame_os abi 0 accepting playing filled refl

get_property-query_supported_example :
    let g = get_property sdk 8 9 true 16 false in
    let q = query_supported sdk 8 9 true in
    ((failed q.0 ≡ true) × (q.1 ≡ none) × (g ≡ refused q.0))
    ⊎ ((q.0 ≡ s_ok) × (q.1 ≡ some 11) × Answers sdk 16 true false g)
get_property-query_supported_example = get_property-query_supported sdk 8 9 16 true false true

listed-Fits : Fits crt abi (listed 1)
unfolding pin_message write_pin_info name_field
listed-Fits = record {
  plain = record { converts = refl; no_zero = ground arith; formats = refl };
  short = omega arith;
  whole = refl;
  small = omega arith;
}

create_output_pins-mirrors_example :
    (t : Source) × (create_output_pins
        (os_with (pin_messages crt abi (listed 1 ∷ []) ++ [] ∷ []))
        crt
        abi
        raw
        2
        (83 ∷ [])
        unmade
      ≡ some (s_ok, t))
    × (t.pin_list ≡ mirrors raw (listed 1 ∷ []))
unfolding open_pipe
create_output_pins-mirrors_example =
    create_output_pins-mirrors (os_with (pin_messages crt abi (listed 1 ∷ []) ++ [] ∷ [])) crt abi
      raw 22 abi-IsFaithful (listed 1 ∷ []) 2 (83 ∷ []) unmade
      (OsCall.create_file (client_pipe_name pipehost (83 ∷ [])) ∷ []) (listed-Fits, tt)
      (omega arith) refl refl (λ n h. (refl, λ m k. (refl, tt)))

-- `a /stream:XY`
choose_stream_name-command_line_example :
    choose_stream_name [] (97 ∷ 32 ∷ (stream_option ++ 58 ∷ 88 ∷ 89 ∷ [])) ≡ some (88 ∷ 89 ∷ [])
choose_stream_name-command_line_example =
    choose_stream_name-command_line (97 ∷ 32 ∷ []) (88 ∷ 89 ∷ []) 58 (ground arith) (λ e. cc)

abbrev streaming : Source
streaming = record {
  pin_list = playing ∷ idle ∷ [];
  state = running;
  rt_video_ref_point = 0;
  deleted = [];
  calls = [];
}

stop-AllEnd_example :
    AllEnd os abi 0 accepting
      (playing ∷ idle ∷ [])
      (Source.stop (s_ok, stopped) streaming).1.pin_list
stop-AllEnd_example = stop-AllEnd os abi 0 accepting (s_ok, stopped) streaming

-- The filter reads the description, its pin plays and fills a sample, the filter stops.
abbrev describing : Os
describing = os_with (pin_messages crt abi (listed 1 ∷ []) ++ [] ∷ [])

abbrev source_of : Option (ℕ × Source) → Source
source_of none = unmade
source_of (some (hr, s)) = s

abbrev filled_of : Option Filled → Filled
filled_of none = record { hr = e_fail; pin = playing; sample = [] }
filled_of (some f) = f

abbrev named : Source
named = source_of (create_output_pins describing crt abi raw 2 (83 ∷ []) (bare_source 0))

abbrev begun : OutputPin
begun = (on_thread_start_play 0 (mirror raw (listed 1))).1

abbrev first_fill : Filled
first_fill = filled_of (fill_buffer describing abi 1 accepting begun)

delete_source-SourceRun_example :
    let gone =
      delete_source
        (Source.stop (s_ok, stopped) (record named { pin_list = first_fill.pin ∷ [] })).1 in
    (gone.pin_list ≡ [])
    × AllClosed describing gone.deleted
    × (files_opened describing gone.calls ≡ closed_or_left describing gone.calls)
unfolding create_output_pins read_pins make_pin open_pipe fill_buffer pin_message write_pin_info
    read_pin_info connect_to_sink_pin on_thread_start_play
delete_source-SourceRun_example =
    let fill : PinStep describing abi begun first_fill.pin = filling 1 accepting first_fill refl in
    let one : SourceRun describing crt abi raw (bare_source 0) named =
      next here (naming 2 s_ok (83 ∷ []) named refl) in
    let two = next one (on_pin [] [] (mirror raw (listed 1)) begun refl (starting 0)) in
    let three = next two (on_pin [] [] begun first_fill.pin refl fill) in
    delete_source-SourceRun describing crt abi raw 0 _ (λ cs. omega arith)
      (next three (stopping (s_ok, stopped)))
