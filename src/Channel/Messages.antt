-- ===== src/Channel/Messages.antt =====
-- The messages of a channel: what a round of the write thread puts into the pipe, and what a call of
-- `FillBuffer` takes out of it.
use virtual_capture_stream.Prelude.{
  list_laws, ℕ, ◌+◌, ◌<◌, ◌≡◌, refl, List, [], ◌∷◌, ◌++◌, append_assoc, true, some, drop-append,
  length, is_pos32, if◌then◌else◌, arith,
}
use virtual_capture_stream.Win.{Os, OsCall}
use virtual_capture_stream.Sample.{MediaSampleX, MediaSampleInfo}
use virtual_capture_stream.Wire.{Abi, IsFaithful}
use virtual_capture_stream.InputPin.{InputPin}
use virtual_capture_stream.InputPin.Write.{
  header, payload, note_reference, write_sample, write_next, get_next_write_buffer_sample,
}
use virtual_capture_stream.InputPin.Transmit.{sent, messages}
use virtual_capture_stream.OutputPin.{OutputPin, SampleReplies, fill_connected, fill_sample, log}
use virtual_capture_stream.OutputPin.Fill.{Serves, Accepts, fill_connected-header}
use virtual_capture_stream.Channel.{reads, read_off}
use virtual_capture_stream.InputPin.Transmit.{written}

-- The messages carry these samples, each with some reference points.
abbrev pub Carries : Abi → List MediaSampleX → List (List ℕ) → Type 0
Carries abi [] ms = ms ≡ []
Carries abi (s ∷ l) ms =
    (r : ℕ) × (r2 : ℕ) × (rest : List (List ℕ)) × (ms ≡ messages abi r r2 s ++ rest)
    × Carries abi l rest

pub Carries-snoc :
    (abi : Abi) (l : List MediaSampleX) (ms : List (List ℕ)) (r r2 : ℕ) (s : MediaSampleX)
    → Carries abi l ms
    → Carries abi (l ++ s ∷ []) (ms ++ messages abi r r2 s)
Carries-snoc abi [] ms r r2 s h = (r, r2, [], rw h (simp list_laws), refl)
Carries-snoc abi (x ∷ l) ms r r2 s (q, q2, rest, e, h) =
    (q, q2, rest ++ messages abi r r2 s, rw e (simp list_laws), Carries-snoc abi l rest r r2 s h)

-- What a round of the write thread does on a connected pin.
pub write_sample-sent :
    (abi : Abi) (s : MediaSampleX) (p : InputPin)
    → p.connected ≡ true
    → sent p.h_pipe (write_sample abi s p).calls
      ≡ sent p.h_pipe p.calls
        ++ messages abi (note_reference s p).rt_ref_point (note_reference s p).rt_ref_point2 s
unfolding write_sample
write_sample-sent abi s p con = ground (
  arith,
  append_assoc (sent p.h_pipe p.calls)
      (abi.info_bytes
          (header (note_reference s p).rt_ref_point (note_reference s p).rt_ref_point2 s)
        ∷ [])
      (payload s ∷ []),
)

-- What the round adds to the pipe.
pub write_sample-written :
    (abi : Abi) (s : MediaSampleX) (p : InputPin)
    → p.connected ≡ true
    → written p (write_sample abi s p)
      ≡ messages abi (note_reference s p).rt_ref_point (note_reference s p).rt_ref_point2 s
write_sample-written abi s p con =
    rw (write_sample-sent abi s p con)
      (drop-append (length (sent p.h_pipe p.calls)) (sent p.h_pipe p.calls) _ refl)

-- A round that is made takes the front of the queue.
pub write_next-taken :
    (abi : Abi) (p q : InputPin) (s : MediaSampleX) (rest : List MediaSampleX)
    → p.write_buffer ≡ s ∷ rest
    → write_next abi p ≡ some q
    → q ≡ write_sample abi s (record p { write_buffer = rest })
unfolding write_next get_next_write_buffer_sample
write_next-taken abi p q s rest e h = ground arith

pub write_next-inversion :
    (abi : Abi) (p q : InputPin) (l : List MediaSampleX)
    → p.write_buffer ≡ l
    → write_next abi p ≡ some q
    → (s : MediaSampleX) × (rest : List MediaSampleX) × (p.write_buffer ≡ s ∷ rest)
      × (q ≡ write_sample abi s (record p { write_buffer = rest }))
unfolding write_next get_next_write_buffer_sample
write_next-inversion abi p q [] e h = absurd (ground arith)
write_next-inversion abi p q (s ∷ rest) e h = (s, rest, e, write_next-taken abi p q s rest e h)

-- The reads of a call that gets a header: one for it, and one for the data if there is any.
pub fill_sample-reads :
    (os : Os) (r : SampleReplies) (x : MediaSampleInfo) (p : OutputPin)
    → Accepts r
    → reads p.h_pipe (fill_sample os r x p).pin.calls
      ≡ (if is_pos32 x.actual_data_length then 1 else 0) + reads p.h_pipe p.calls
unfolding fill_sample
fill_sample-reads os r x p a = ground arith

pub fill_connected-read_off :
    (os : Os) (abi : Abi) (r : SampleReplies) (r1 r2 : ℕ) (s : MediaSampleX) (p : OutputPin)
    (rest : List (List ℕ))
    → IsFaithful abi
    → Accepts r
    → Serves os p.h_pipe (messages abi r1 r2 s ++ rest) p.calls
    → read_off p (fill_connected os abi r p).pin ≡ length (messages abi r1 r2 s)
unfolding header
fill_connected-read_off os abi r r1 r2 s p rest v a serves =
    let first = serves abi.info_size (omega (arith, v.info_length (header r1 r2 s))) in
    rw (fill_connected-header os abi r (header r1 r2 s) p v first.0) (
      ground (
        arith,
        fill_sample-reads os r (header r1 r2 s) (log (OsCall.read_file p.h_pipe abi.info_size) p) a,
      ))

-- A call on a connected pin reads at least once.
pub fill_connected-reads_some :
    (os : Os) (abi : Abi) (r : SampleReplies) (p : OutputPin)
    → 0 < read_off p (fill_connected os abi r p).pin
unfolding fill_connected fill_sample
fill_connected-reads_some os abi r p = ground arith
