-- ===== src/InputPin/Transmit.antt =====
-- What the write thread sends: the messages that go into the pipe, oldest first.
use virtual_capture_stream.Prelude.{
  list_laws, ℕ, zero, suc, true, ◌<◌, ◌≡◌, ◌≢◌, List, [], ◌∷◌, ◌++◌, append_assoc, Option, none,
  some, length, drop, is_pos32, ◌==◌, if◌then◌else◌, arith,
}
use virtual_capture_stream.Win.{OsCall}
use virtual_capture_stream.Sample.{MediaSampleX}
use virtual_capture_stream.Wire.{Abi}
use virtual_capture_stream.InputPin.{InputPin, ref_unset}
use virtual_capture_stream.InputPin.Write.{
  header, payload, note_reference, write_sample, get_next_write_buffer_sample, write_next, drain,
}

-- The messages written to the handle `h`.
abbrev pub sent : ℕ → List OsCall → List (List ℕ)
sent h [] = []
sent h (OsCall.write_file g b ∷ cs) = if g == h then sent h cs ++ b ∷ [] else sent h cs
sent h (_ ∷ cs) = sent h cs

-- What is written to the pin's pipe from one state to another: what that adds to the pipe.
abbrev pub written : InputPin → InputPin → List (List ℕ)
written p q = drop (length (sent p.h_pipe p.calls)) (sent p.h_pipe q.calls)

-- The buffers that were freed.
abbrev pub freed : List OsCall → List (Option (List ℕ))
freed [] = []
freed (OsCall.free_buffer b ∷ cs) = freed cs ++ b ∷ []
freed (_ ∷ cs) = freed cs

-- The messages of one sample, and of several with the same reference points.
abbrev pub messages : Abi → ℕ → ℕ → MediaSampleX → List (List ℕ)
messages abi r r2 s =
    abi.info_bytes (header r r2 s) ∷ (if is_pos32 s.actual_data_length then payload s ∷ [] else [])

abbrev pub all_messages : Abi → ℕ → ℕ → List MediaSampleX → List (List ℕ)
all_messages abi r r2 [] = []
all_messages abi r r2 (s ∷ rest) = messages abi r r2 s ++ all_messages abi r r2 rest

abbrev pub buffers : List MediaSampleX → List (Option (List ℕ))
buffers [] = []
buffers (s ∷ rest) = s.buffer ∷ buffers rest

-- The state in which a pin sends: connected, writing, and with its reference points fixed.
pub record IsSending (r r2 : ℕ) (p : InputPin) : Type 0 where
  pub is_connected : p.connected ≡ true
  pub is_writing : p.write_buffering ≡ true
  pub first : p.rt_ref_point ≡ r
  pub second : p.rt_ref_point2 ≡ r2

-- One round with the reference points fixed.
write_sample-sends :
    (abi : Abi) (r r2 : ℕ) (s : MediaSampleX) (p : InputPin)
    → r ≢ ref_unset
    → IsSending r r2 p
    → IsSending r r2 (write_sample abi s p)
      × (sent p.h_pipe (write_sample abi s p).calls ≡ sent p.h_pipe p.calls ++ messages abi r r2 s)
unfolding write_sample
write_sample-sends abi r r2 s p n h = ground (
  arith,
  append_assoc (sent p.h_pipe p.calls)
      (abi.info_bytes (header p.rt_ref_point p.rt_ref_point2 s) ∷ []) (payload s ∷ []),
)

-- A round leaves the handle and the queue alone, and frees the sample.
pub write_sample-rest :
    (abi : Abi) (s : MediaSampleX) (p : InputPin)
    → ((write_sample abi s p).h_pipe ≡ p.h_pipe)
      × ((write_sample abi s p).write_buffer ≡ p.write_buffer)
      × ((write_sample abi s p).write_buffering ≡ p.write_buffering)
      × (freed (write_sample abi s p).calls ≡ freed p.calls ++ s.buffer ∷ [])
unfolding write_sample
write_sample-rest abi s p = ground arith

-- What the loop has done when it ends.
pub record Drained (abi : Abi) (r r2 : ℕ) (l : List MediaSampleX) (p q : InputPin) : Type 0 where
  pub emptied : q.write_buffer ≡ []
  pub all_sent : sent p.h_pipe q.calls ≡ sent p.h_pipe p.calls ++ all_messages abi r r2 l
  pub all_freed : freed q.calls ≡ freed p.calls ++ buffers l

-- The loop takes the front of the queue, or stops at the empty queue.
pub write_next-empty : (abi : Abi) (p : InputPin) → p.write_buffer ≡ [] → write_next abi p ≡ none
unfolding write_next
write_next-empty abi p e = rw (e, get_next_write_buffer_sample) (ground arith)

pub write_next-front :
    (abi : Abi) (p : InputPin) (s : MediaSampleX) (rest : List MediaSampleX)
    → p.write_buffering ≡ true
    → p.write_buffer ≡ s ∷ rest
    → write_next abi p ≡ some (write_sample abi s (record p { write_buffer = rest }))
unfolding write_next
write_next-front abi p s rest w e = ground arith

Drained-cons :
    (abi : Abi) (r r2 : ℕ) (s : MediaSampleX) (rest : List MediaSampleX) (p q d : InputPin)
    → q.h_pipe ≡ p.h_pipe
    → sent p.h_pipe q.calls ≡ sent p.h_pipe p.calls ++ messages abi r r2 s
    → freed q.calls ≡ freed p.calls ++ s.buffer ∷ []
    → Drained abi r r2 rest q d
    → Drained abi r r2 (s ∷ rest) p d
Drained-cons abi r r2 s rest p q d same sends frees h = record {
  emptied = h.emptied;
  all_sent = cc (
    h.all_sent,
    append_assoc (sent p.h_pipe p.calls) (messages abi r r2 s) (all_messages abi r r2 rest),
  );
  all_freed = simp (h.all_freed, frees, list_laws);
}

drain-Drained :
    (abi : Abi) (r r2 fuel : ℕ) (l : List MediaSampleX) (p : InputPin)
    → r ≢ ref_unset
    → IsSending r r2 p
    → p.write_buffer ≡ l
    → length l < fuel
    → Drained abi r r2 l p (drain abi fuel p)
unfolding drain
drain-Drained abi r r2 zero l p n h e lt = absurd (omega arith)
drain-Drained abi r r2 (suc fuel) [] p n h e lt =
    rw (write_next-empty abi p e, drain)
      (record { emptied = e; all_sent = simp list_laws; all_freed = simp list_laws })
drain-Drained abi r r2 (suc fuel) (s ∷ rest) p n h e lt =
    rw (write_next-front abi p s rest h.is_writing e, drain)
      (Drained-cons abi r r2 s rest p q _ kept.0 moved.1 kept.3
        (drain-Drained abi r r2 fuel rest q n moved.0 kept.1 (omega arith)))
  where
    taken : InputPin
    taken = record p { write_buffer = rest }

    q : InputPin
    q = write_sample abi s taken

    moved :
        IsSending r r2 q × (sent p.h_pipe q.calls ≡ sent p.h_pipe p.calls ++ messages abi r r2 s)
    moved = write_sample-sends abi r r2 s taken n (record {
      is_connected = h.is_connected;
      is_writing = h.is_writing;
      first = h.first;
      second = h.second;
    })

    kept :
        (q.h_pipe ≡ p.h_pipe)
        × (q.write_buffer ≡ rest)
        × (q.write_buffering ≡ p.write_buffering)
        × (freed q.calls ≡ freed p.calls ++ s.buffer ∷ [])
    kept = write_sample-rest abi s taken

-- Setting the reference points beforehand changes nothing for the round that would set them.
noted-write_next :
    (abi : Abi) (s : MediaSampleX) (rest : List MediaSampleX) (p : InputPin)
    → p.write_buffer ≡ s ∷ rest
    → s.time_start ≢ ref_unset
    → write_next abi p ≡ write_next abi (note_reference s p)
unfolding write_next
noted-write_next abi s rest p e n = ground arith

noted-drain :
    (abi : Abi) (fuel : ℕ) (s : MediaSampleX) (rest : List MediaSampleX) (p : InputPin)
    → p.write_buffering ≡ true
    → p.write_buffer ≡ s ∷ rest
    → s.time_start ≢ ref_unset
    → drain abi (suc fuel) p ≡ drain abi (suc fuel) (note_reference s p)
unfolding drain
noted-drain abi fuel s rest p w e n =
    ground (arith, noted-write_next abi s rest p e n, write_next-front abi p s rest w e)

-- The reference point with which the queue that begins with `s` is sent.
abbrev pub base_time : InputPin → MediaSampleX → ℕ
base_time p s = if p.rt_ref_point == ref_unset then s.time_start else p.rt_ref_point

abbrev pub base_media_time : InputPin → MediaSampleX → ℕ
base_media_time p s = if p.rt_ref_point == ref_unset then s.media_time_start else p.rt_ref_point2

-- A connected pin whose write thread runs sends its whole queue in order, with fuel above the
-- queue's length: for each sample its header, which carries the pin's reference points (those of the
-- first sample, if none were set), then its data if it has any. Every sample is freed once, in order,
-- and the queue ends empty. The first sample's time is not the value that marks unset points.
pub drain_sends :
    (abi : Abi) (fuel : ℕ) (s : MediaSampleX) (rest : List MediaSampleX) (p : InputPin)
    → p.connected ≡ true
    → p.write_buffering ≡ true
    → p.write_buffer ≡ s ∷ rest
    → s.time_start ≢ ref_unset
    → length (s ∷ rest) < fuel
    → Drained abi (base_time p s) (base_media_time p s) (s ∷ rest) p (drain abi fuel p)
unfolding note_reference
drain_sends abi zero s rest p c w e n lt = absurd (omega arith)
drain_sends abi (suc fuel) s rest p c w e n lt = rw (noted-drain abi fuel s rest p w e n) (
    Drained-before (
      drain-Drained abi _ _ (suc fuel) (s ∷ rest) (note_reference s p) (ground arith)
        (record {
          is_connected = ground arith;
          is_writing = ground arith;
          first = ground arith;
          second = ground arith;
        })
        (ground arith) lt))
  where
    Drained-before :
        {d : InputPin}
        → Drained abi (base_time p s) (base_media_time p s) (s ∷ rest) (note_reference s p) d
        → Drained abi (base_time p s) (base_media_time p s) (s ∷ rest) p d
    Drained-before h = ground (arith, h.all_sent, h.all_freed, h.emptied)
