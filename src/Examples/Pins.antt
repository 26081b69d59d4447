-- ===== src/Examples/Pins.antt =====
-- Examples for the input pins of the sink filter.
use virtual_capture_stream.Prelude.{
  List, ◌++◌, ◌≡◌, refl, [], ◌∷◌, none, length, zero, length-replicate, arith,
}
use virtual_capture_stream.Sample.{new_sample}
use virtual_capture_stream.InputPin.{end_of_stream}
use virtual_capture_stream.InputPin.Write.{payload, drain}
use virtual_capture_stream.InputPin.Transmit.{
  sent, freed, buffers, all_messages, Drained, drain_sends,
}
use virtual_capture_stream.Win.{OsCall}
use virtual_capture_stream.InputPin.Fifo.{
  receiving, taking, writing, resetting, breaking as break_off, Traffic, IsOrdered, traffic_run,
  traffic_run-IsOrdered,
}
use virtual_capture_stream.InputPin.Copy.{
  GivesBlocks, payload-new_sample, payload-new_sample_copied,
}
use virtual_capture_stream.InputPin.Allocator.{
  notified, broken, IsBalanced, slot_run, no_allocator, slot_run-IsBalanced,
}
use virtual_capture_stream.InputPin.Leftovers.{end_of_stream-drain}
use virtual_capture_stream.Examples.Data.{abi, os, props, frame, gap, upstream, memory, sending}

drain_sends_example : Drained abi 300 0 (frame ∷ gap ∷ []) sending (drain abi 3 sending)
drain_sends_example =
    drain_sends abi 3 frame (gap ∷ []) sending refl refl refl (omega arith) (omega arith)

abbrev quiet : Traffic
quiet = record {
  pin = record sending { write_buffer = [] };
  held = none;
  received = [];
  finished = [];
}

traffic_run-IsOrdered_example : IsOrdered (
    traffic_run os abi
      (receiving memory 0 upstream
        ∷ taking
        ∷ receiving memory 0 upstream
        ∷ resetting
        ∷ writing
        ∷ taking
        ∷ break_off 0 no_allocator
        ∷ [])
      quiet)
traffic_run-IsOrdered_example =
    traffic_run-IsOrdered os abi
      (receiving memory 0 upstream
        ∷ taking
        ∷ receiving memory 0 upstream
        ∷ resetting
        ∷ writing
        ∷ taking
        ∷ break_off 0 no_allocator
        ∷ [])
      quiet (record { fifo = refl; freed_once = refl })

memory-GivesBlocks : GivesBlocks memory
memory-GivesBlocks n block e = ground (arith, length-replicate n zero)

payload-new_sample_example :
    length (payload (new_sample memory 0 upstream))
    ≡ (new_sample memory 0 upstream).actual_data_length
unfolding new_sample
payload-new_sample_example = payload-new_sample memory 0 upstream memory-GivesBlocks refl

payload-new_sample_copied_example : payload (new_sample memory 0 upstream) ≡ 7 ∷ 8 ∷ 9 ∷ []
payload-new_sample_copied_example =
    payload-new_sample_copied memory 0 upstream (0 ∷ 0 ∷ 0 ∷ []) (7 ∷ 8 ∷ 9 ∷ []) memory-GivesBlocks
      refl refl refl (omega arith)

slot_run-IsBalanced_example : IsBalanced 5 (
    slot_run os
      (notified props 0 4 sending
        ∷ notified props 0 5 sending
        ∷ broken 0 sending
        ∷ notified props 0 5 sending
        ∷ [])
      no_allocator)
slot_run-IsBalanced_example =
    slot_run-IsBalanced os
      (notified props 0 4 sending
        ∷ notified props 0 5 sending
        ∷ broken 0 sending
        ∷ notified props 0 5 sending
        ∷ [])
      5 (omega arith)

end_of_stream-drain_example :
    let q = (end_of_stream os sending).1 in
    let d = drain abi 3 q in
    ((before : List OsCall) × (q.calls
        ≡ OsCall.close_handle 20 ∷ OsCall.disconnect_named_pipe 20 ∷ before))
    × (q.h_pipe ≡ 0)
    × (d.write_buffer ≡ [])
    × (sent 0 d.calls ≡ sent 0 q.calls ++ all_messages abi 300 0 (frame ∷ gap ∷ []))
    × (freed d.calls ≡ freed q.calls ++ buffers (frame ∷ gap ∷ []))
end_of_stream-drain_example =
    end_of_stream-drain os abi 3 frame (gap ∷ []) sending refl refl refl (omega arith) (omega arith)
      (omega arith)
