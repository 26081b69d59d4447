-- ===== src/Examples/Modules.antt =====
-- Examples for the pin descriptions, the trace file and the registration.
use virtual_capture_stream.Prelude.{◌≡◌, refl, true, false, [], ◌∷◌, ◌++◌, some, arith}
use virtual_capture_stream.PinInfo.{read_pin_info, write_pin_info, read_pin_info-write_pin_info}
use virtual_capture_stream.Trace.{
  Tracer, content, traces, set_trace_file, stamped_all, trace_line, traces-set_trace_file,
}
use virtual_capture_stream.Registration.{RegReplies}
use virtual_capture_stream.Examples.Data.{abi, abi-IsFaithful, crt, props, video_type}

read_pin_info-write_pin_info_example :
    read_pin_info crt abi (write_pin_info crt abi (65 ∷ []) video_type props)
    ≡ record { pin_name = 65 ∷ []; amt = video_type; alloc_props = props }
read_pin_info-write_pin_info_example =
    read_pin_info-write_pin_info crt abi (65 ∷ []) video_type props abi-IsFaithful
      (record { converts = refl; no_zero = ground arith; formats = refl }) (omega arith) refl

abbrev tracer : Tracer
tracer = record { trace_file = []; files = (70 ∷ [], 1 ∷ 2 ∷ []) ∷ [] }

traces-set_trace_file_example :
    content
      (70 ∷ [])
      (traces
        ((3 ∷ [], 4 ∷ [], 5 ∷ []) ∷ [])
        (set_trace_file crt false true (3 ∷ []) (4 ∷ []) (some (70 ∷ [])) tracer)).files
    ≡ (1 ∷ 2 ∷ [])
      ++ stamped_all ((3 ∷ [], 4 ∷ [], trace_line crt (70 ∷ [])) ∷ (3 ∷ [], 4 ∷ [], 5 ∷ []) ∷ [])
traces-set_trace_file_example =
    traces-set_trace_file crt false (3 ∷ []) (4 ∷ []) (70 ∷ []) ((3 ∷ [], 4 ∷ [], 5 ∷ []) ∷ [])
      tracer (λ e. cc)

abbrev good : RegReplies
good = record {
  co_initialize_hr = 0;
  register_server_hr = 0;
  create_mapper_hr = 0;
  register_filter_hr = 0;
  unregister_audio_hr = 0;
}

-- The mapper cannot be made.
abbrev without_mapper : RegReplies
without_mapper = record good { create_mapper_hr = 0x80004005 }
