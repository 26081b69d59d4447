-- ===== src/OutputPin/Torn.antt =====
-- What `FillBuffer` (src/VirtualStreamSourceOutputPin.cpp) makes of a sample whose data was never written,
-- because `BreakConnect` (src/VirtualStreamSinkInputPin.cpp) terminated the write thread, and of one whose
-- data is lost with the pipe.
use virtual_capture_stream.Prelude.{
  ℕ, ◌≤◌, true, false, ◌≡◌, ap, ◌∙◌, List, [], ◌∷◌, ◌++◌, some, is_pos32, sub64, arith,
}
use virtual_capture_stream.Win.{Os, OsCall, failed}
use virtual_capture_stream.MediaType.{AmMediaType}
use virtual_capture_stream.Sample.{MediaSampleX, MediaSampleInfo}
use virtual_capture_stream.Wire.{Abi, IsFaithful}
use virtual_capture_stream.InputPin.{InputPin}
use virtual_capture_stream.InputPin.Write.{header, note_reference}
use virtual_capture_stream.InputPin.Transmit.{messages, written}
use virtual_capture_stream.InputPin.Rounds.{begun, round_run, round_run-torn}
use virtual_capture_stream.OutputPin.{
  OutputPin, SampleCall, set_actual_data_length, set_time, set_media_time, set_sync_point,
  set_preroll, set_discontinuity, set_media_type, store, SampleReplies, Filled, fill_sample,
  fill_buffer, log,
}
use virtual_capture_stream.OutputPin.Fill.{
  Serves, Accepts, start_of, fill_connected-header, fill_buffer-connected,
}

-- What is made of a sample whose data is taken to be `bytes`.
abbrev pub delivered_with : AmMediaType → ℕ → MediaSampleX → List ℕ → List SampleCall
delivered_with mt start s bytes =
    let t = sub64 s.time_start start in
    let u = sub64 s.time_end start in
    set_actual_data_length s.actual_data_length
    ∷ set_time t u
    ∷ set_media_time s.media_time_start s.media_time_end
    ∷ set_time t u
    ∷ set_sync_point s.is_sync_point
    ∷ set_preroll false
    ∷ set_media_type mt
    ∷ set_discontinuity false
    ∷ store bytes
    ∷ []

pub fill_sample-with :
    (os : Os) (r : SampleReplies) (r1 r2 : ℕ) (s : MediaSampleX) (bytes : List ℕ) (p : OutputPin)
    → Accepts r
    → is_pos32 s.actual_data_length ≡ true
    → (os.read_reply (OsCall.read_file p.h_pipe s.actual_data_length ∷ p.calls)).bytes ≡ bytes
    → (fill_sample os r (header r1 r2 s) p).sample ≡ delivered_with p.mt (start_of p s) s bytes
unfolding fill_sample header
fill_sample-with os r r1 r2 s bytes p a pos e = ground arith

-- A write thread that is terminated between a header and its data leaves the pins out of step: whatever
-- sample the sink sends next, the source delivers the torn sample with that sample's header for its data.
-- The sink's pin has a client, the torn sample is at least as long as a header, the source's pin runs and
-- is connected to a pipe that serves what was written, and its sample accepts every setting.
pub fill_buffer-torn :
    (os : Os) (abi : Abi) (fuel : ℕ) (r : SampleReplies) (s next : MediaSampleX) (r1 r2 : ℕ)
    (p : InputPin) (q : OutputPin) (rest : List (List ℕ))
    → IsFaithful abi
    → p.connected ≡ true
    → is_pos32 s.actual_data_length ≡ true
    → abi.info_size ≤ s.actual_data_length
    → q.running ≡ true
    → q.connected ≡ true
    → Accepts r
    → Serves os q.h_pipe
        (written p (round_run abi s 1 (begun p)).pin ++ (messages abi r1 r2 next ++ rest))
        q.calls
    → (f : Filled) × (fill_buffer os abi fuel r q ≡ some f)
      × (f.sample ≡ delivered_with q.mt (start_of q s) s (abi.info_bytes (header r1 r2 next)))
fill_buffer-torn os abi fuel r s next r1 r2 p q rest v con pos long runs joined acc serves =
    let noted = note_reference s p in
    let head = header noted.rt_ref_point noted.rt_ref_point2 s in
    let torn : Serves os q.h_pipe (abi.info_bytes head ∷ (messages abi r1 r2 next ++ rest))
        q.calls =
      rw (round_run-torn abi s p con) at serves in
    let (first, later) = torn abi.info_size (omega (arith, v.info_length head)) in
    let (second, _) =
      later s.actual_data_length (omega (arith, v.info_length (header r1 r2 next))) in
    let q' = log (OsCall.read_file q.h_pipe abi.info_size) q in
    (
      fill_sample os r head q',
      fill_buffer-connected os abi fuel r q runs joined
          ∙ ap some (fill_connected-header os abi r head q v first),
      fill_sample-with os r noted.rt_ref_point noted.rt_ref_point2 s
          (abi.info_bytes (header r1 r2 next)) q' acc pos (ap (λ x. x.bytes) second),
    )

fill_sample-no_failure :
    (os : Os) (r : SampleReplies) (x : MediaSampleInfo) (p : OutputPin)
    → Accepts r
    → failed (fill_sample os r x p).hr ≡ false
unfolding fill_sample
fill_sample-no_failure os r x p a = ground arith

fill_sample-connected :
    (os : Os) (r : SampleReplies) (x : MediaSampleInfo) (p : OutputPin)
    → (fill_sample os r x p).pin.connected ≡ p.connected
unfolding fill_sample
fill_sample-connected os r x p = ground arith

-- A pipe that closes between the two reads of `FillBuffer` goes unnoticed: the call reports no failure,
-- and hands on the sample with the lengths, times, sync point and media type that it should have, and with
-- whatever the failed read left in its buffer for its data, a pin that is connected staying connected. The
-- sample has data, the pin runs and is connected, the first read gets the header, and the sample accepts
-- every setting.
pub fill_buffer-stranded :
    (os : Os) (abi : Abi) (fuel : ℕ) (r : SampleReplies) (s : MediaSampleX) (r1 r2 : ℕ)
    (p : OutputPin) (left : List ℕ)
    → IsFaithful abi
    → is_pos32 s.actual_data_length ≡ true
    → p.running ≡ true
    → p.connected ≡ true
    → Accepts r
    → Serves os p.h_pipe (abi.info_bytes (header r1 r2 s) ∷ []) p.calls
    → os.read_reply (
        OsCall.read_file p.h_pipe s.actual_data_length
        ∷ OsCall.read_file p.h_pipe abi.info_size
        ∷ p.calls)
      ≡ record { success = false; bytes = left }
    → (f : Filled) × (fill_buffer os abi fuel r p ≡ some f)
      × (failed f.hr ≡ false)
      × (f.pin.connected ≡ true)
      × (f.sample ≡ delivered_with p.mt (start_of p s) s left)
fill_buffer-stranded os abi fuel r s r1 r2 p left v pos runs joined acc serves fails =
    let head = header r1 r2 s in
    let (first, _) = serves abi.info_size (omega (arith, v.info_length head)) in
    let q = log (OsCall.read_file p.h_pipe abi.info_size) p in
    (
      fill_sample os r head q,
      fill_buffer-connected os abi fuel r p runs joined
          ∙ ap some (fill_connected-header os abi r head p v first),
      fill_sample-no_failure os r head q acc,
      fill_sample-connected os r head q ∙ joined,
      fill_sample-with os r r1 r2 s left q acc pos (ap (λ x. x.bytes) fails),
    )
