-- ===== src/InputPin/Rounds.antt =====
-- A round of the write thread, one call at a time (`InstanceWritePipeThread` of
-- src/VirtualStreamSinkInputPin.cpp), for a thread that is terminated on its way.
use virtual_capture_stream.Prelude.{
  ℕ, zero, suc, true, ◌≡◌, refl, [], ◌∷◌, ◌++◌, is_pos32, length, drop-append, if◌then◌else◌, arith,
}
use virtual_capture_stream.Win.{OsCall}
use virtual_capture_stream.Sample.{MediaSampleX}
use virtual_capture_stream.Wire.{Abi}
use virtual_capture_stream.InputPin.{InputPin, log}
use virtual_capture_stream.InputPin.Write.{
  header, payload, note_reference, write_to_pipe, write_sample,
}
use virtual_capture_stream.InputPin.Transmit.{sent, written}

-- Where the round stands: before the header, before the data, before the sample is freed, or at its end.
pub data Point : Type 0 where
  at_header at_data at_free finished : Point

pub record Round : Type 0 where
  pub point : Point
  pub pin : InputPin

abbrev round_at : Abi → MediaSampleX → Point → InputPin → Round
round_at abi s at_header p =
    let q = note_reference s p in
    if q.connected
    then record {
      point = at_data;
      pin =
          log
            (OsCall.write_file q.h_pipe (abi.info_bytes (header q.rt_ref_point q.rt_ref_point2 s)))
            q;
    }
    else record { point = at_free; pin = q }
round_at abi s at_data p = record {
  point = at_free;
  pin = if is_pos32 s.actual_data_length then log (OsCall.write_file p.h_pipe (payload s)) p else p;
}
round_at abi s at_free p = record { point = finished; pin = log (OsCall.free_buffer s.buffer) p }
round_at abi s finished p = record { point = finished; pin = p }

unfoldable pub round_step : Abi → MediaSampleX → Round → Round
unfolding note_reference header payload
round_step abi s r = round_at abi s r.point r.pin

unfoldable pub round_run : Abi → MediaSampleX → ℕ → Round → Round
round_run abi s zero r = r
round_run abi s (suc n) r = round_run abi s n (round_step abi s r)

abbrev pub begun : InputPin → Round
begun p = record { point = at_header; pin = p }

-- A round that nobody cuts short does what `write_sample` does.
round_run-write_sample :
    (abi : Abi) (s : MediaSampleX) (p : InputPin)
    → round_run abi s 3 (begun p) ≡ record { point = finished; pin = write_sample abi s p }
unfolding round_run round_step write_sample write_to_pipe
round_run-write_sample abi s p = ground arith

header_only :
    (abi : Abi) (s : MediaSampleX) (p : InputPin)
    → p.connected ≡ true
    → let q = note_reference s p in
      sent p.h_pipe (round_run abi s 1 (begun p)).pin.calls
      ≡ sent p.h_pipe p.calls ++ abi.info_bytes (header q.rt_ref_point q.rt_ref_point2 s) ∷ []
unfolding round_run round_step note_reference
header_only abi s p con = ground arith

-- What a thread that is terminated before the data has put into the pipe.
pub round_run-torn :
    (abi : Abi) (s : MediaSampleX) (p : InputPin)
    → p.connected ≡ true
    → let q = note_reference s p in
      written p (round_run abi s 1 (begun p)).pin
      ≡ abi.info_bytes (header q.rt_ref_point q.rt_ref_point2 s) ∷ []
round_run-torn abi s p con =
    rw (header_only abi s p con)
      (drop-append (length (sent p.h_pipe p.calls)) (sent p.h_pipe p.calls) _ refl)
