-- ===== src/PipeClient.antt =====
-- How the source opens a pipe of the sink: the loop that stands in `ConnectToSinkPin`
-- (src/VirtualStreamSourceOutputPin.cpp) and in `CreateOutputPins` (src/VirtualStreamSource.cpp), and the
-- names of the pipes.
use virtual_capture_stream.Prelude.{
  ℕ, zero, suc, ◌<◌, ◌≡◌, ◌≢◌, refl, false, List, [], ◌∷◌, ◌++◌, Option, none, some, ◌==◌,
  if◌then◌else◌, arith, not, ◌&&◌,
}
use virtual_capture_stream.Win.{Os, OsCall, invalid_handle, error_pipe_busy}
use virtual_capture_stream.InputPin.{pipe_prefix}

-- `PIPEHOST` of src/stdafx.h.
abbrev pub pipehost : List ℕ
pipehost = 46 ∷ []

-- `\\%s\pipe\%s`
abbrev pub client_pipe_name : List ℕ → List ℕ → List ℕ
client_pipe_name host name = 92 ∷ 92 ∷ (host ++ 92 ∷ 112 ∷ 105 ∷ 112 ∷ 101 ∷ 92 ∷ name)

-- The source looks for a pipe under the name that the sink gives it.
pub client_pipe_name-pipehost :
    (name : List ℕ) → client_pipe_name pipehost name ≡ pipe_prefix ++ name
client_pipe_name-pipehost name = refl

pub data OpenResult : Type 0 where
  opened : ℕ → OpenResult
  not_opened : OpenResult

-- The loop, with fuel for its rounds: `none` when the fuel runs out. The answer comes with the history.
unfoldable pub open_pipe : Os → List ℕ → ℕ → ℕ → List OsCall → Option (OpenResult × List OsCall)
open_pipe os name timeout zero cs = none
open_pipe os name timeout (suc fuel) cs =
    let h = os.create_file_reply cs in
    let made = OsCall.create_file name ∷ cs in
    let waited = OsCall.wait_named_pipe name timeout ∷ made in
    let again = open_pipe os name timeout fuel waited in
    if not (h == invalid_handle)
    then some (opened h, made)
    else if not (os.last_error made == error_pipe_busy)
    then some (not_opened, made)
    else if os.wait_named_pipe_reply made
    then again
    else some (not_opened, waited)

-- The history after `n` rounds that end with a free instance reported.
abbrev pub after_rounds : List ℕ → ℕ → ℕ → List OsCall → List OsCall
after_rounds name timeout zero cs = cs
after_rounds name timeout (suc n) cs =
    after_rounds name timeout n (OsCall.wait_named_pipe name timeout ∷ OsCall.create_file name ∷ cs)

-- A round that does not go on: the pipe opens, fails for another reason than busy instances, or none
-- gets free in time.
abbrev pub IsLast : Os → List ℕ → List OsCall → Type 0
IsLast os name cs =
    ((os.create_file_reply cs == invalid_handle)
      && ((os.last_error (OsCall.create_file name ∷ cs) == error_pipe_busy)
          && os.wait_named_pipe_reply (OsCall.create_file name ∷ cs)))
    ≡ false

-- The loop ends: if the round after `n` others does not go on, `n + 1` rounds of fuel are enough.
pub open_pipe-total :
    (os : Os) (name : List ℕ) (timeout n fuel : ℕ) (cs : List OsCall)
    → IsLast os name (after_rounds name timeout n cs)
    → n < fuel
    → open_pipe os name timeout fuel cs ≢ none
unfolding open_pipe
open_pipe-total os name timeout n zero cs h lt = elim lt [ ]
open_pipe-total os name timeout zero (suc fuel) cs h lt = ground arith
open_pipe-total os name timeout (suc n) (suc fuel) cs h lt = ground (
  arith,
  open_pipe-total os name timeout n fuel
      (OsCall.wait_named_pipe name timeout ∷ OsCall.create_file name ∷ cs) h,
)
