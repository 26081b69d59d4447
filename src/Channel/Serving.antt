-- ===== src/Channel/Serving.antt =====
-- A system whose pipe answers with the messages that it holds, for a stream thread to read.
use virtual_capture_stream.Prelude.{
  ℕ, zero, suc, ◌+◌, ◌-◌, ◌≤◌, ◌≡◌, refl, ap, List, [], ◌∷◌, true, subst, drop, length,
  length-append, arith,
}
use virtual_capture_stream.Win.{Os, OsCall, s_ok}
use virtual_capture_stream.Sample.{MediaSampleX}
use virtual_capture_stream.Wire.{Abi, IsFaithful}
use virtual_capture_stream.InputPin.Transmit.{messages}
use virtual_capture_stream.OutputPin.{SampleReplies, fill_connected}
use virtual_capture_stream.OutputPin.Fill.{Serves, Accepts}
use virtual_capture_stream.Channel.{Channel, reads, read_off}
use virtual_capture_stream.Channel.Messages.{Carries, fill_connected-read_off}

-- A system whose pipe answers the reads of `h` with these messages, after `done` reads.
abbrev front : List (List ℕ) → List ℕ
front [] = []
front (m ∷ ms) = m

abbrev pub serving : Os → ℕ → ℕ → List (List ℕ) → Os
serving os h done ms = record os {
  read_reply = λ cs. record { success = true; bytes = front (drop (reads h cs - suc done) ms) };
}

drop-suc :
    (k : ℕ) (all : List (List ℕ)) {m : List ℕ} {ms : List (List ℕ)}
    → drop k all ≡ m ∷ ms
    → drop (suc k) all ≡ ms
drop-suc zero [] e = cc
drop-suc zero (x ∷ all) e = cc
drop-suc (suc k) [] e = cc
drop-suc (suc k) (x ∷ all) e = drop-suc k all e

pub Serves-serving :
    (os : Os) (h done : ℕ) (all : List (List ℕ)) (k : ℕ) (ms : List (List ℕ)) (cs : List OsCall)
    → reads h cs ≡ done + k
    → drop k all ≡ ms
    → Serves (serving os h done all) h ms cs
Serves-serving os h done all k [] cs n e = tt
Serves-serving os h done all k (m ∷ ms) cs n e = λ room le. (
  answer room,
  Serves-serving os h done all (suc k) ms (OsCall.read_file h room ∷ cs) (ground arith)
      (drop-suc k all e),
)
  where
    at : reads h cs + 1 - suc done ≡ k
    at = omega arith

    answer :
        (room : ℕ)
        → (serving os h done all).read_reply (OsCall.read_file h room ∷ cs)
          ≡ record { success = true; bytes = m }
    answer room = ground (arith, at, e)

-- A pipe that carries a sample holds the messages that a call reads.
pub carried-room :
    (os : Os) (abi : Abi) (v : IsFaithful abi) (r : SampleReplies) (c : Channel) (s : MediaSampleX)
    (l : List MediaSampleX)
    → Accepts r
    → Carries abi (s ∷ l) c.in_pipe
    → Serves os c.source.h_pipe c.in_pipe c.source.calls
    → read_off c.source (fill_connected os abi r c.source).pin ≤ length c.in_pipe
carried-room os abi v r c s l acc (r1, r2, rest, split, _) serves = omega (
  arith,
  fill_connected-read_off os abi r r1 r2 s c.source rest v acc
      (subst (λ ms. Serves os c.source.h_pipe ms c.source.calls) split serves),
  ap length split,
  length-append (messages abi r1 r2 s) rest,
)

abbrev pub agreeable : SampleReplies
agreeable = record {
  sync_point_hr = s_ok;
  preroll_hr = s_ok;
  media_type_hr = s_ok;
  discontinuity_hr = s_ok;
}

pub agreeable-Accepts : Accepts agreeable
agreeable-Accepts = record {
  sync_point = refl;
  preroll = refl;
  media_type = refl;
  discontinuity = refl;
}
