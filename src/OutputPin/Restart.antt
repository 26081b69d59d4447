-- ===== src/OutputPin/Restart.antt =====
-- Output pins whose pipe is gone: `FillBuffer` after a broken pipe, and after a stop and a restart
-- (src/VirtualStreamSourceOutputPin.cpp).
use mathlib.Core.Option
use virtual_capture_stream.Prelude.{ℕ, true, false, ◌≡◌, refl, List, [], ◌∷◌, Option, some, arith}
use virtual_capture_stream.Win.{Os, OsCall, s_ok}
use virtual_capture_stream.Wire.{Abi}
use virtual_capture_stream.OutputPin.{
  OutputPin, SampleCall, SampleReplies, fill_buffer, disconnect_pipe, on_thread_start_play,
  fill_connected, log,
}
use virtual_capture_stream.OutputPin.Playing.{fill_buffers}

-- Every read of the handle fails.
abbrev ReadsFail : Os → ℕ → Type 0
ReadsFail os h =
    (n : ℕ) (cs : List OsCall) → (os.read_reply (OsCall.read_file h n ∷ cs)).success ≡ false

abbrev no_calls : List SampleReplies → List (List SampleCall)
no_calls [] = []
no_calls (r ∷ rs) = [] ∷ no_calls rs

fill_buffer-failing :
    (os : Os) (abi : Abi) (fuel : ℕ) (r : SampleReplies) (p : OutputPin)
    → ReadsFail os p.h_pipe
    → p.running ≡ true
    → p.connected ≡ true
    → fill_buffer os abi fuel r p
      ≡ some
          (record { hr = s_ok; pin = log (OsCall.read_file p.h_pipe abi.info_size) p; sample = [] })
unfolding fill_buffer fill_connected
fill_buffer-failing os abi fuel r p fails run con = ground (arith, fails abi.info_size p.calls)

-- Once every read of the pipe fails, a running pin that is marked connected reports success on each
-- call and delivers nothing, with all of its state kept: it never connects again.
fill_buffers-failing :
    (os : Os) (abi : Abi) (fuel : ℕ) (rs : List SampleReplies) (p : OutputPin)
    → ReadsFail os p.h_pipe
    → p.running ≡ true
    → p.connected ≡ true
    → fill_buffers os abi fuel rs p ≡ some (no_calls rs)
unfolding fill_buffers
fill_buffers-failing os abi fuel [] p fails run con = refl
fill_buffers-failing os abi fuel (r ∷ rs) p fails run con = rw (
  fill_buffer-failing os abi fuel r p fails run con,
  fill_buffers-failing os abi fuel rs (log (OsCall.read_file p.h_pipe abi.info_size) p) fails run
      con,
)

-- The pin after a call of `FillBuffer` that found it stopped, and a new start of the stream thread.
unfoldable restarted : Os → Abi → ℕ → SampleReplies → ℕ → OutputPin → Option OutputPin
restarted os abi fuel r base p =
    Option.map (λ f. (on_thread_start_play base f.pin).1) (fill_buffer os abi fuel r p)

restarted-lem :
    (os : Os) (abi : Abi) (fuel : ℕ) (r : SampleReplies) (base : ℕ) (p : OutputPin)
    → p.running ≡ false
    → restarted os abi fuel r base p
      ≡ some (record (disconnect_pipe p).1 { first_sample_delivered = false; running = true })
unfolding restarted fill_buffer on_thread_start_play disconnect_pipe
restarted-lem os abi fuel r base p run = ground arith

-- A connected pin that is stopped, called once and started again delivers nothing in all later calls,
-- if reads of the null handle fail: the pipe is closed while the mark of the connection stays.
restarted-delivers_nothing :
    (os : Os) (abi : Abi) (fuel : ℕ) (r : SampleReplies) (base : ℕ) (rs : List SampleReplies)
    (p q : OutputPin)
    → ReadsFail os 0
    → p.running ≡ false
    → p.connected ≡ true
    → restarted os abi fuel r base p ≡ some q
    → fill_buffers os abi fuel rs q ≡ some (no_calls rs)
unfolding disconnect_pipe
restarted-delivers_nothing os abi fuel r base rs p q fails run con e =
    fill_buffers-failing os abi fuel rs q (rw closed fails) (ground (arith, same))
      (ground (arith, same))
  where
    same : q ≡ record (disconnect_pipe p).1 { first_sample_delivered = false; running = true }
    same = ground (arith, restarted-lem os abi fuel r base p run)

    closed : q.h_pipe ≡ 0
    closed = ground (arith, same)
