-- ===== src/OutputPin/Fill.antt =====
-- From the sink's write buffer to the samples that the source fills: what `FillBuffer`
-- (src/VirtualStreamSourceOutputPin.cpp) makes of the messages that the write thread sends.
use virtual_capture_stream.Prelude.{
  ℕ, ◌≤◌, true, false, ◌≡◌, ap, List, [], ◌∷◌, ◌++◌, some, length, length-take, is_pos32, sub64,
  if◌then◌else◌, arith, Bool-cases, inl, inr,
}
use virtual_capture_stream.Win.{Os, OsCall, failed}
use virtual_capture_stream.MediaType.{AmMediaType}
use virtual_capture_stream.Sample.{MediaSampleX, MediaSampleInfo, get_buffer}
use virtual_capture_stream.Wire.{Abi, IsFaithful, info_read-info_bytes}
use virtual_capture_stream.InputPin.Write.{header, payload, block_of}
use virtual_capture_stream.InputPin.Transmit.{messages}
use virtual_capture_stream.OutputPin.{
  OutputPin, SampleCall, set_actual_data_length, set_time, set_media_time, set_sync_point,
  set_preroll, set_discontinuity, set_media_type, store, SampleReplies, Filled, fill_sample,
  fill_connected, fill_buffer, log,
}

-- A message pipe: from the history `cs` on, reads of the handle that offer enough room answer with these
-- messages, whole and in order.
abbrev pub Serves : Os → ℕ → List (List ℕ) → List OsCall → Type 0
Serves os h [] cs = Unit
Serves os h (m ∷ ms) cs =
    (n : ℕ)
    → length m ≤ n
    → (os.read_reply (OsCall.read_file h n ∷ cs) ≡ record { success = true; bytes = m })
      × Serves os h ms (OsCall.read_file h n ∷ cs)

-- The sample that is filled accepts every setting.
pub record Accepts (r : SampleReplies) : Type 0 where
  pub sync_point : failed r.sync_point_hr ≡ false
  pub preroll : failed r.preroll_hr ≡ false
  pub media_type : failed r.media_type_hr ≡ false
  pub discontinuity : failed r.discontinuity_hr ≡ false

-- What is made of a sample `s` of the sink: its times relative to `start`, its sync point, its data.
abbrev pub delivered : AmMediaType → ℕ → MediaSampleX → List SampleCall
delivered mt start s =
    let t = sub64 s.time_start start in
    let u = sub64 s.time_end start in
    set_actual_data_length s.actual_data_length
    ∷ set_time t u
    ∷ set_media_time s.media_time_start s.media_time_end
    ∷ set_time t u
    ∷ set_sync_point s.is_sync_point
    ∷ set_preroll false
    ∷ set_media_type mt
    ∷ set_discontinuity false
    ∷ (if is_pos32 s.actual_data_length then store (payload s) ∷ [] else [])

abbrev pub start_of : OutputPin → MediaSampleX → ℕ
start_of p s = if p.first_sample_delivered then p.rt_start else s.time_start

-- The pin after a sample: `cs` are the reads that it made.
abbrev pub moved_on : OutputPin → ℕ → List OsCall → OutputPin
moved_on p start cs = record p { rt_start = start; first_sample_delivered = true; calls = cs }

payload-le : (s : MediaSampleX) → length (payload s) ≤ s.actual_data_length
unfolding payload
payload-le s = omega (arith, length-take s.actual_data_length (block_of (get_buffer s)))

-- A header whose sample has data.
fill_sample-data :
    (os : Os) (r : SampleReplies) (r1 r2 : ℕ) (s : MediaSampleX) (p : OutputPin)
    → Accepts r
    → is_pos32 s.actual_data_length ≡ true
    → os.read_reply (OsCall.read_file p.h_pipe s.actual_data_length ∷ p.calls)
      ≡ record { success = true; bytes = payload s }
    → (fill_sample os r (header r1 r2 s) p).sample ≡ delivered p.mt (start_of p s) s
      × ((fill_sample os r (header r1 r2 s) p).pin
          ≡ moved_on p (start_of p s) (OsCall.read_file p.h_pipe s.actual_data_length ∷ p.calls))
unfolding fill_sample header
fill_sample-data os r r1 r2 s p a pos e = ground arith

-- A header whose sample has none.
fill_sample-bare :
    (os : Os) (r : SampleReplies) (r1 r2 : ℕ) (s : MediaSampleX) (p : OutputPin)
    → Accepts r
    → is_pos32 s.actual_data_length ≡ false
    → (fill_sample os r (header r1 r2 s) p).sample ≡ delivered p.mt (start_of p s) s
      × ((fill_sample os r (header r1 r2 s) p).pin ≡ moved_on p (start_of p s) p.calls)
unfolding fill_sample header
fill_sample-bare os r r1 r2 s p a pos = ground arith

-- One call on a connected pin whose pipe serves the messages of `s` first: the sample that is delivered,
-- and the pin behind it, with the rest of the messages still to come.
pub record Delivers (os : Os) (rest : List (List ℕ)) (s : MediaSampleX) (p : OutputPin) (f : Filled)
    : Type 0 where
  pub sample_made : f.sample ≡ delivered p.mt (start_of p s) s
  pub history : List OsCall
  pub pin_after : f.pin ≡ moved_on p (start_of p s) history
  pub still_served : Serves os p.h_pipe rest history

fill_sample-Delivers :
    (os : Os) (r : SampleReplies) (r1 r2 : ℕ) (s : MediaSampleX) (p : OutputPin)
    (rest : List (List ℕ))
    → Accepts r
    → Serves os p.h_pipe
        ((if is_pos32 s.actual_data_length then payload s ∷ [] else []) ++ rest)
        p.calls
    → Delivers os rest s p (fill_sample os r (header r1 r2 s) p)
fill_sample-Delivers os r r1 r2 s p rest a serves =
    elim (Bool-cases (is_pos32 s.actual_data_length)) [
      | inl pos ↦
          let next = (rw pos at serves) s.actual_data_length (payload-le s) in
          let done = fill_sample-data os r r1 r2 s p a pos next.0 in
          record {
            sample_made = done.0;
            history = OsCall.read_file p.h_pipe s.actual_data_length ∷ p.calls;
            pin_after = done.1;
            still_served = next.1;
          }
      | inr bare ↦
          let done = fill_sample-bare os r r1 r2 s p a bare in
          record {
            sample_made = done.0;
            history = p.calls;
            pin_after = done.1;
            still_served = rw bare at serves;
          }
    ]

pub fill_connected-header :
    (os : Os) (abi : Abi) (r : SampleReplies) (x : MediaSampleInfo) (p : OutputPin)
    → IsFaithful abi
    → os.read_reply (OsCall.read_file p.h_pipe abi.info_size ∷ p.calls)
      ≡ record { success = true; bytes = abi.info_bytes x }
    → fill_connected os abi r p
      ≡ fill_sample os r x (log (OsCall.read_file p.h_pipe abi.info_size) p)
unfolding fill_connected
fill_connected-header os abi r x p v e = rw e (
    ap (λ y. fill_sample os r y (log (OsCall.read_file p.h_pipe abi.info_size) p))
      (info_read-info_bytes abi v x))

pub fill_connected-Delivers :
    (os : Os) (abi : Abi) (r : SampleReplies) (r1 r2 : ℕ) (s : MediaSampleX) (p : OutputPin)
    (rest : List (List ℕ))
    → IsFaithful abi
    → Accepts r
    → Serves os p.h_pipe (messages abi r1 r2 s ++ rest) p.calls
    → Delivers os rest s p (fill_connected os abi r p)
fill_connected-Delivers os abi r r1 r2 s p rest v a serves =
    rw (fill_connected-header os abi r (header r1 r2 s) p v first.0) (record {
      sample_made = made.sample_made;
      history = made.history;
      pin_after = made.pin_after;
      still_served = made.still_served;
    })
  where
    first :
        (os.read_reply (OsCall.read_file p.h_pipe abi.info_size ∷ p.calls)
          ≡ record { success = true; bytes = abi.info_bytes (header r1 r2 s) })
        × Serves os p.h_pipe
            ((if is_pos32 s.actual_data_length then payload s ∷ [] else []) ++ rest)
            (OsCall.read_file p.h_pipe abi.info_size ∷ p.calls)
    first = serves abi.info_size (omega (arith, v.info_length (header r1 r2 s)))

    made :
        Delivers os rest s
          (log (OsCall.read_file p.h_pipe abi.info_size) p)
          (fill_sample os r (header r1 r2 s) (log (OsCall.read_file p.h_pipe abi.info_size) p))
    made =
        fill_sample-Delivers os r r1 r2 s (log (OsCall.read_file p.h_pipe abi.info_size) p) rest a
          first.1

pub fill_buffer-connected :
    (os : Os) (abi : Abi) (fuel : ℕ) (r : SampleReplies) (p : OutputPin)
    → p.running ≡ true
    → p.connected ≡ true
    → fill_buffer os abi fuel r p ≡ some (fill_connected os abi r p)
unfolding fill_buffer
fill_buffer-connected os abi fuel r p run con = ground arith
