-- ===== src/OutputPin/Playing.antt =====
-- The calls of `FillBuffer` (src/VirtualStreamSourceOutputPin.cpp) that the stream thread makes, against
-- what the write thread sends.
use mathlib.Core.Option
use virtual_capture_stream.Prelude.{
  ℕ, true, ◌≡◌, refl, ◌∙◌, List, [], ◌∷◌, Option, none, some, length, arith,
}
use virtual_capture_stream.Win.{Os}
use virtual_capture_stream.MediaType.{AmMediaType}
use virtual_capture_stream.Sample.{MediaSampleX}
use virtual_capture_stream.Wire.{Abi, IsFaithful}
use virtual_capture_stream.InputPin.Transmit.{all_messages}
use virtual_capture_stream.OutputPin.{
  OutputPin, SampleCall, SampleReplies, Filled, fill_connected, fill_buffer,
}
use virtual_capture_stream.OutputPin.Fill.{
  Serves, Accepts, delivered, start_of, moved_on, Delivers, fill_connected-Delivers,
  fill_buffer-connected,
}

-- The stream thread: one call of `FillBuffer` for each entry of the list, each with the answers of its
-- sample. The result is what was done to each sample.
abbrev fill_then :
    (OutputPin → Option (List (List SampleCall))) → Option Filled → Option (List (List SampleCall))
fill_then k none = none
fill_then k (some f) = Option.map (λ l. f.sample ∷ l) (k f.pin)

unfoldable pub fill_buffers :
    Os → Abi → ℕ → List SampleReplies → OutputPin → Option (List (List SampleCall))
fill_buffers os abi fuel [] p = some []
fill_buffers os abi fuel (r ∷ rs) p =
    fill_then (fill_buffers os abi fuel rs) (fill_buffer os abi fuel r p)

abbrev pub all_delivered : AmMediaType → ℕ → List MediaSampleX → List (List SampleCall)
all_delivered mt start [] = []
all_delivered mt start (s ∷ rest) = delivered mt start s ∷ all_delivered mt start rest

abbrev pub AllAccept : List SampleReplies → Type 0
AllAccept [] = Unit
AllAccept (r ∷ rs) = Accepts r × AllAccept rs

module _ (os : Os) (abi : Abi) (fuel : ℕ) (v : IsFaithful abi) where
  -- One sample, and what the later calls make of the rest.
  fill_buffers-cons :
      (r : SampleReplies) (rs : List SampleReplies) (s : MediaSampleX) (p : OutputPin)
      (rest : List (List ℕ)) (ds : List (List SampleCall))
      → p.running ≡ true
      → p.connected ≡ true
      → (made : Delivers os rest s p (fill_connected os abi r p))
      → fill_buffers os abi fuel rs (moved_on p (start_of p s) made.history) ≡ some ds
      → fill_buffers os abi fuel (r ∷ rs) p ≡ some (delivered p.mt (start_of p s) s ∷ ds)
  unfolding fill_buffers
  fill_buffers-cons r rs s p rest ds run con made later =
      rw (fill_buffer-connected os abi fuel r p run con, made.pin_after, made.sample_made, later)

  -- The samples behind the first one.
  fill_buffers-later :
      (r1 r2 : ℕ) (rs : List SampleReplies) (l : List MediaSampleX) (p : OutputPin)
      → AllAccept rs
      → length rs ≡ length l
      → p.running ≡ true
      → p.connected ≡ true
      → p.first_sample_delivered ≡ true
      → Serves os p.h_pipe (all_messages abi r1 r2 l) p.calls
      → fill_buffers os abi fuel rs p ≡ some (all_delivered p.mt p.rt_start l)
  unfolding fill_buffers
  fill_buffers-later r1 r2 [] [] p a n run con first serves = refl
  fill_buffers-later r1 r2 [] (s ∷ l) p a n run con first serves = absurd (omega arith)
  fill_buffers-later r1 r2 (r ∷ rs) [] p a n run con first serves = absurd (omega arith)
  fill_buffers-later r1 r2 (r ∷ rs) (s ∷ l) p a n run con first serves =
      fill_buffers-cons r rs s p (all_messages abi r1 r2 l) (all_delivered p.mt (start_of p s) l)
        run con made
        (fill_buffers-later r1 r2 rs l (moved_on p (start_of p s) made.history) a.1 (omega arith)
          run con refl made.still_served)
      ∙ rw first
    where
      made : Delivers os (all_messages abi r1 r2 l) s p (fill_connected os abi r p)
      made = fill_connected-Delivers os abi r r1 r2 s p (all_messages abi r1 r2 l) v a.0 serves

  -- When the pipe serves what the write thread sends for the samples `s ∷ l`, and the samples to fill
  -- accept every setting, then as many calls of `FillBuffer` on a running, connected pin deliver each
  -- sample of the sink once and in order: its data, its sync point, its media times, and its times
  -- relative to the first sample that the pin delivered.
  pub fill_buffers-all_messages :
      (r1 r2 : ℕ) (rs : List SampleReplies) (s : MediaSampleX) (l : List MediaSampleX)
      (p : OutputPin)
      → AllAccept rs
      → length rs ≡ length (s ∷ l)
      → p.running ≡ true
      → p.connected ≡ true
      → Serves os p.h_pipe (all_messages abi r1 r2 (s ∷ l)) p.calls
      → fill_buffers os abi fuel rs p ≡ some (all_delivered p.mt (start_of p s) (s ∷ l))
  fill_buffers-all_messages r1 r2 [] s l p a n run con serves = absurd (omega arith)
  fill_buffers-all_messages r1 r2 (r ∷ rs) s l p a n run con serves =
      fill_buffers-cons r rs s p (all_messages abi r1 r2 l) (all_delivered p.mt (start_of p s) l)
        run con made
        (fill_buffers-later r1 r2 rs l (moved_on p (start_of p s) made.history) a.1 (omega arith)
          run con refl made.still_served)
    where
      made : Delivers os (all_messages abi r1 r2 l) s p (fill_connected os abi r p)
      made = fill_connected-Delivers os abi r r1 r2 s p (all_messages abi r1 r2 l) v a.0 serves
