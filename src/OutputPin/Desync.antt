-- ===== src/OutputPin/Desync.antt =====
-- `FillBuffer` (src/VirtualStreamSourceOutputPin.cpp) when the sample that it fills refuses a setting.
use virtual_capture_stream.Prelude.{
  ℕ, Bool, ◌≤◌, true, false, ◌≡◌, ap, ◌∙◌, List, [], ◌∷◌, ◌++◌, some, length, is_pos32, ◌||◌, arith,
}
use virtual_capture_stream.Win.{Os, OsCall, failed}
use virtual_capture_stream.Sample.{MediaSampleX}
use virtual_capture_stream.Wire.{Abi, IsFaithful, info_read}
use virtual_capture_stream.InputPin.Write.{header, payload}
use virtual_capture_stream.InputPin.Transmit.{messages}
use virtual_capture_stream.OutputPin.{
  OutputPin, SampleCall, store, SampleReplies, Filled, fill_sample, fill_connected, fill_buffer,
  log,
}
use virtual_capture_stream.OutputPin.Fill.{
  Serves, moved_on, start_of, fill_connected-header, fill_buffer-connected,
}

abbrev pub refuses : SampleReplies → Bool
refuses r =
    failed r.sync_point_hr
    || failed r.preroll_hr
    || failed r.media_type_hr
    || failed r.discontinuity_hr

-- Data was put into the sample.
abbrev pub stores : List SampleCall → Bool
stores [] = false
stores (store bytes ∷ cs) = true
stores (_ ∷ cs) = stores cs

-- The call returns before it reads the data.
fill_sample-refused :
    (os : Os) (r : SampleReplies) (r1 r2 : ℕ) (s : MediaSampleX) (p : OutputPin)
    → refuses r ≡ true
    → (stores (fill_sample os r (header r1 r2 s) p).sample ≡ false)
      × ((fill_sample os r (header r1 r2 s) p).pin ≡ moved_on p (start_of p s) p.calls)
unfolding fill_sample header
fill_sample-refused os r r1 r2 s p e = ground arith

fill_connected-next :
    (os : Os) (abi : Abi) (r : SampleReplies) (bytes : List ℕ) (p : OutputPin)
    → os.read_reply (OsCall.read_file p.h_pipe abi.info_size ∷ p.calls)
      ≡ record { success = true; bytes = bytes }
    → fill_connected os abi r p
      ≡ fill_sample os r (info_read abi bytes) (log (OsCall.read_file p.h_pipe abi.info_size) p)
unfolding fill_connected
fill_connected-next os abi r bytes p e = ground arith

-- A sample with data whose setting is refused puts the two pins out of step: the call stores no data and
-- leaves it in the pipe, and the next call takes that data for a header, when it is no longer than one.
-- The pin runs and is connected, and the pipe serves the messages of the sample first.
pub fill_buffer-refused :
    (os : Os) (abi : Abi) (fuel : ℕ) (r r' : SampleReplies) (r1 r2 : ℕ) (s : MediaSampleX)
    (p : OutputPin) (rest : List (List ℕ))
    → IsFaithful abi
    → p.running ≡ true
    → p.connected ≡ true
    → refuses r ≡ true
    → is_pos32 s.actual_data_length ≡ true
    → length (payload s) ≤ abi.info_size
    → Serves os p.h_pipe (messages abi r1 r2 s ++ rest) p.calls
    → (f : Filled) × (fill_buffer os abi fuel r p ≡ some f)
      × (stores f.sample ≡ false)
      × (fill_buffer os abi fuel r' f.pin
          ≡ some (
              fill_sample os r'
                (info_read abi (payload s))
                (log (OsCall.read_file p.h_pipe abi.info_size) f.pin)))
fill_buffer-refused os abi fuel r r' r1 r2 s p rest v run con refused pos short serves =
    let q = log (OsCall.read_file p.h_pipe abi.info_size) p in
    let both : Serves os p.h_pipe (abi.info_bytes (header r1 r2 s) ∷ payload s ∷ rest) p.calls =
      (rw pos at serves) in
    let first = both abi.info_size (omega (arith, v.info_length (header r1 r2 s))) in
    let second = first.1 abi.info_size short in
    let (bare, after) = fill_sample-refused os r r1 r2 s q refused in
    let f = fill_sample os r (header r1 r2 s) q in
    (
      f,
      fill_buffer-connected os abi fuel r p run con
          ∙ ap some (fill_connected-header os abi r (header r1 r2 s) p v first.0),
      bare,
      rw after (
          fill_buffer-connected os abi fuel r' (moved_on q (start_of q s) q.calls) run con
          ∙ ap some (
              fill_connected-next os abi r' (payload s) (moved_on q (start_of q s) q.calls)
                second.0)),
    )
