-- ===== src/Examples/Writers.antt =====
-- Examples for the write thread of an input pin.
use virtual_capture_stream.Prelude.{
  ◌≡◌, ◌⊎◌, true, false, refl, arith, [], ◌∷◌, ◌++◌, some, false, length, ◌==◌, if◌then◌else◌,
}
use virtual_capture_stream.Win.{Os, failed}
use virtual_capture_stream.InputPin.Write.{header}
use virtual_capture_stream.InputPin.Writer.{
  Writer, taking, checking, sleeping, last_round, writer_run, signal_stop, writer_run-sends,
}
use virtual_capture_stream.InputPin.Locking.{waits_for_lock, stop_writer, stop_writer-lock}
use virtual_capture_stream.Sample.{MediaSampleX}
use virtual_capture_stream.InputPin.Transmit.{Drained, messages, written}
use virtual_capture_stream.InputPin.Rounds.{begun, round_run, round_step}
use virtual_capture_stream.OutputPin.{Filled, fill_buffer}
use virtual_capture_stream.OutputPin.Fill.{start_of}
use virtual_capture_stream.OutputPin.Torn.{delivered_with, fill_buffer-torn, fill_buffer-stranded}
use virtual_capture_stream.Examples.Data.{
  abi, abi-IsFaithful, sending, frame, gap, os_with, accepting, playing, video_type,
}

-- A thread that is about to take the first of two samples.
abbrev busy : Writer
busy = record { stage = taking; pin = sending }

-- The caller holds the lock.
stop_writer-lock_example :
    let r = stop_writer abi true 9 busy in
    ((waits_for_lock true busy.stage ≡ true) × (r.0 ≡ true) × (r.1 ≡ signal_stop busy))
    ⊎ ((waits_for_lock true busy.stage ≡ false)
        × (r.0 ≡ false)
        × (r.1.pin ≡ last_round abi busy.stage (signal_stop busy).pin))
stop_writer-lock_example = stop_writer-lock abi true 9 busy (omega arith)

writer_run-sends_example :
    let w = writer_run abi 8 (record { stage = checking; pin = sending }) in
    (w.stage ≡ sleeping) × Drained abi 300 0 (frame ∷ gap ∷ []) sending w.pin
writer_run-sends_example =
    writer_run-sends abi frame (gap ∷ []) sending refl refl refl (omega arith)

-- A sample whose data is as long as a header.
abbrev long_frame : MediaSampleX
long_frame = record frame {
  actual_data_length = 12;
  buffer = some (1 ∷ 2 ∷ 3 ∷ 4 ∷ 5 ∷ 6 ∷ 7 ∷ 8 ∷ 9 ∷ 10 ∷ 11 ∷ 12 ∷ []);
}

abbrev torn_os : Os
torn_os = os_with (
    written sending (round_run abi long_frame 1 (begun sending)).pin
    ++ (messages abi 500 1 frame ++ []))

fill_buffer-torn_example :
    (f : Filled) × (fill_buffer torn_os abi 0 accepting playing ≡ some f)
    × (f.sample
        ≡ delivered_with video_type
            (start_of playing long_frame)
            long_frame
            (abi.info_bytes (header 500 1 frame)))
unfolding round_run round_step
fill_buffer-torn_example =
    fill_buffer-torn torn_os abi 0 accepting long_frame frame 500 1 sending playing []
      abi-IsFaithful refl refl (omega arith) refl refl (ground arith)
      (λ n h. (refl, λ m k. (refl, λ i j. (refl, tt))))

-- The pipe closes behind the header.
abbrev closing_os : Os
closing_os = record torn_os {
  read_reply = λ cs.
      if length cs == 1
      then record { success = true; bytes = abi.info_bytes (header 500 1 frame) }
      else record { success = false; bytes = [] };
}

fill_buffer-stranded_example :
    (f : Filled) × (fill_buffer closing_os abi 0 accepting playing ≡ some f)
    × (failed f.hr ≡ false)
    × (f.pin.connected ≡ true)
    × (f.sample ≡ delivered_with video_type (start_of playing frame) frame [])
fill_buffer-stranded_example =
    fill_buffer-stranded closing_os abi 0 accepting frame 500 1 playing [] abi-IsFaithful refl refl
      refl (ground arith) (λ n h. (refl, tt)) refl
