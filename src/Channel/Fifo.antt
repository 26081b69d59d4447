-- ===== src/Channel/Fifo.antt =====
-- The abstract channel, and how the system of both pins stands for it.
use virtual_capture_stream.Prelude.{
  ℕ, flatten, map, ◌≡◌, refl, ap, List, [], ◌∷◌, ◌++◌, Bool, true, false, if◌then◌else◌, subst,
  arith,
}
use virtual_capture_stream.MediaType.{AmMediaType}
use virtual_capture_stream.Sample.{MediaSampleX}
use virtual_capture_stream.Wire.{Abi}
use virtual_capture_stream.OutputPin.{OutputPin, SampleCall}
use virtual_capture_stream.OutputPin.Fill.{delivered, start_of}
use virtual_capture_stream.OutputPin.Torn.{delivered_with}
use virtual_capture_stream.OutputPin.Playing.{all_delivered}
use virtual_capture_stream.Channel.{Channel, is_cut, is_joined}
use virtual_capture_stream.Channel.Messages.{Carries}

-- The abstract channel: a queue of samples, and those that came out, in earlier runs and in this one.
-- Its front may be lost before anything has come out. Once it is shut, nothing comes out, and `late` are
-- the samples that are lost then.
pub record Fifo : Type 0 where
  pub queue : List MediaSampleX
  pub past : List (List MediaSampleX)
  pub gone : List MediaSampleX
  pub late : List MediaSampleX
  pub is_shut : Bool

abbrev pub NothingOut : Fifo → Type 0
NothingOut a = (flatten a.past ≡ []) × (a.gone ≡ [])

pub data FifoStep (a : Fifo) (b : Fifo) : Type 0 where
  idle : b ≡ a → FifoStep a b
  push : (s : MediaSampleX) → b ≡ record a { queue = a.queue ++ s ∷ [] } → FifoStep a b
  lose :
      (s : MediaSampleX) (rest : List MediaSampleX)
      → a.is_shut ≡ false
      → a.queue ≡ s ∷ rest
      → NothingOut a
      → b ≡ record a { queue = rest }
      → FifoStep a b
  pop :
      (s : MediaSampleX) (rest : List MediaSampleX)
      → a.is_shut ≡ false
      → a.queue ≡ s ∷ rest
      → b ≡ record a { queue = rest; gone = a.gone ++ s ∷ [] }
      → FifoStep a b
  renew : b ≡ record a { past = a.past ++ a.gone ∷ []; gone = [] } → FifoStep a b
  shut :
      (front rest : List MediaSampleX)
      → a.queue ≡ front ++ rest
      → b ≡ record a { queue = rest; late = a.late ++ front; is_shut = true }
      → FifoStep a b

-- The time of the first sample that came out.
abbrev pub first_time : List MediaSampleX → ℕ
first_time [] = 0
first_time (s ∷ l) = s.time_start

abbrev pub is_some : List MediaSampleX → Bool
is_some [] = false
is_some (s ∷ l) = true

-- The source's pin is behind these samples of a run, with times relative to the first of them.
pub record Follows (mt : AmMediaType) (p : OutputPin) (gone : List MediaSampleX) : Type 0 where
  pub same_type : p.mt ≡ mt
  pub begun : p.first_sample_delivered ≡ is_some gone
  pub started : (if p.first_sample_delivered then p.rt_start else 0) ≡ first_time gone

-- What is done to the samples of a run.
abbrev pub run_delivered : AmMediaType → List MediaSampleX → List (List SampleCall)
run_delivered mt l = all_delivered mt (first_time l) l

-- All samples that came in, oldest first.
abbrev pub all_samples : Channel → Fifo → List MediaSampleX
all_samples c a = c.lost ++ (flatten a.past ++ (a.gone ++ (a.late ++ a.queue)))

-- One sample at most is set up without its data: the first that a closed pipe lost, with `start` for its
-- times and `bytes` for what the failed read left in the sample.
pub data Strands (mt : AmMediaType) (l : List (List SampleCall)) (late : List MediaSampleX)
    (cut : Bool) : Type 0 where
  unstranded : l ≡ [] → Strands mt l late cut
  one_strand :
      (start : ℕ) (s : MediaSampleX) (rest : List MediaSampleX) (bytes : List ℕ)
      → cut ≡ true
      → late ≡ s ∷ rest
      → l ≡ delivered_with mt start s bytes ∷ []
      → Strands mt l late cut

pub Strands-uncut :
    (mt : AmMediaType) (l : List (List SampleCall)) (late : List MediaSampleX)
    → Strands mt l late false
    → l ≡ []
Strands-uncut mt l late (unstranded e) = e
Strands-uncut mt l late (one_strand start s rest bytes k e e') = absurd (cc k)

pub Strands-later :
    (mt : AmMediaType) (l : List (List SampleCall)) (late more : List MediaSampleX) (cut : Bool)
    → Strands mt l late cut
    → Strands mt l (late ++ more) true
Strands-later mt l late more cut (unstranded e) = unstranded e
Strands-later mt l late more cut (one_strand start s rest bytes k e e') =
    one_strand start s (rest ++ more) bytes refl (ap (λ q. q ++ more) e) e'

-- How the system stands for the abstract channel.
pub record Represents (abi : Abi) (mt : AmMediaType) (c : Channel) (a : Fifo) : Type 0 where
  -- The queue is what the pipe carries, then the write buffer.
  pub carried : List MediaSampleX
  pub in_order : a.queue ≡ carried ++ c.sink.write_buffer
  pub on_wire : Carries abi carried c.in_pipe
  -- Nothing else is lost, nothing made up on the way in, nothing altered on the way out.
  pub all_in : c.received ≡ all_samples c a
  pub all_out : c.filled ≡ run_delivered mt a.gone
  pub past_out : c.past ≡ map (run_delivered mt) a.past
  pub follows : is_cut c ≡ false → Follows mt c.source a.gone
  -- Before both pins take themselves for connected nothing is on its way; samples are lost on the way only when a side has closed the pipe, and then nothing is on its way.
  pub unseen : is_joined c ≡ false → is_cut c ≡ false → NothingOut a × (carried ≡ [])
  pub uncut : is_cut c ≡ false → a.late ≡ []
  pub cut : is_cut c ≡ true → carried ≡ []
  pub same_shut : a.is_shut ≡ is_cut c
  pub strands : Strands mt c.stranded a.late (is_cut c)

pub none_stranded :
    (abi : Abi) (mt : AmMediaType) (c : Channel) (a : Fifo)
    → is_cut c ≡ false
    → Represents abi mt c a
    → c.stranded ≡ []
none_stranded abi mt c a whole h =
    Strands-uncut mt c.stranded a.late (subst (λ k. Strands mt c.stranded a.late k) whole h.strands)

-- The start that the next sample's times are relative to.
pub start_of-first_time :
    (p : OutputPin) (s : MediaSampleX) (l : List MediaSampleX)
    → p.first_sample_delivered ≡ is_some l
    → (if p.first_sample_delivered then p.rt_start else 0) ≡ first_time l
    → start_of p s ≡ first_time (l ++ s ∷ [])
start_of-first_time p s [] b e = ground arith
start_of-first_time p s (x ∷ l) b e = ground arith

pub is_some-snoc : (l : List MediaSampleX) (s : MediaSampleX) → is_some (l ++ s ∷ []) ≡ true
is_some-snoc [] s = refl
is_some-snoc (x ∷ l) s = refl

all_delivered-append :
    (mt : AmMediaType) (start : ℕ) (l : List MediaSampleX) (s : MediaSampleX)
    → all_delivered mt start (l ++ s ∷ []) ≡ all_delivered mt start l ++ delivered mt start s ∷ []
all_delivered-append mt start [] s = refl
all_delivered-append mt start (x ∷ l) s =
    ap (◌∷◌ (delivered mt start x)) (all_delivered-append mt start l s)

pub all_delivered-snoc :
    (mt : AmMediaType) (l : List MediaSampleX) (s : MediaSampleX)
    → all_delivered mt (first_time (l ++ s ∷ [])) (l ++ s ∷ [])
      ≡ all_delivered mt (first_time l) l ++ delivered mt (first_time (l ++ s ∷ [])) s ∷ []
all_delivered-snoc mt [] s = refl
all_delivered-snoc mt (x ∷ l) s = all_delivered-append mt x.time_start (x ∷ l) s
