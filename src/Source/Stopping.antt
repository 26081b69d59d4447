-- ===== src/Source/Stopping.antt =====
-- What `Stop` of the source filter (src/VirtualStreamSource.cpp) means for its pins' stream threads.
use virtual_capture_stream.Prelude.{ℕ, ◌≡◌, ◌≢◌, refl, List, [], ◌∷◌, some, arith, ◌⊎◌}
use virtual_capture_stream.Win.{Os, OsCall, s_false}
use virtual_capture_stream.Wire.{Abi}
use virtual_capture_stream.Sink.{FilterState}
use virtual_capture_stream.OutputPin.{
  OutputPin, Filled, SampleReplies, fill_buffer, disconnect_pipe, stop,
}
use virtual_capture_stream.Source.{Source, stop_pins}
use virtual_capture_stream.Source

-- The next call of `FillBuffer` on the pin `q` ends the stream: it reports `S_FALSE`, leaves the sample
-- alone and the pin without a pipe, and does no more than close the pipe that the pin `p` had.
pub record EndsStream (os : Os) (abi : Abi) (fuel : ℕ) (r : SampleReplies) (p q : OutputPin)
    : Type 0 where
  pub filled : Filled
  pub returns : fill_buffer os abi fuel r q ≡ some filled
  pub code : filled.hr ≡ s_false
  pub untouched : filled.sample ≡ []
  pub no_pipe : filled.pin.h_pipe ≡ 0
  pub closed :
      ((p.h_pipe ≡ 0) × (filled.pin.calls ≡ p.calls))
      ⊎ ((p.h_pipe ≢ 0) × (filled.pin.calls ≡ OsCall.close_handle p.h_pipe ∷ p.calls))

abbrev pub AllEnd : Os → Abi → ℕ → SampleReplies → List OutputPin → List OutputPin → Type 0
AllEnd os abi fuel r [] [] = Unit
AllEnd os abi fuel r (p ∷ ps) (q ∷ qs) = EndsStream os abi fuel r p q × AllEnd os abi fuel r ps qs
AllEnd os abi fuel r _ _ = ⊥

stop-closed :
    (p : OutputPin)
    → let q = (disconnect_pipe (stop p).1).1 in
      ((p.h_pipe ≡ 0) × (q.calls ≡ p.calls))
      ⊎ ((p.h_pipe ≢ 0) × (q.calls ≡ OsCall.close_handle p.h_pipe ∷ p.calls))
unfolding disconnect_pipe stop
stop-closed p = ground arith

stop-no_pipe : (p : OutputPin) → ((disconnect_pipe (stop p).1).1).h_pipe ≡ 0
unfolding disconnect_pipe stop
stop-no_pipe p = ground arith

stop-EndsStream :
    (os : Os) (abi : Abi) (fuel : ℕ) (r : SampleReplies) (p : OutputPin)
    → EndsStream os abi fuel r p (stop p).1
unfolding fill_buffer stop
stop-EndsStream os abi fuel r p = record {
  filled = record { hr = s_false; pin = (disconnect_pipe (stop p).1).1; sample = [] };
  returns = refl;
  code = refl;
  untouched = refl;
  no_pipe = stop-no_pipe p;
  closed = stop-closed p;
}

stop_pins-AllEnd :
    (os : Os) (abi : Abi) (fuel : ℕ) (r : SampleReplies) (ps : List OutputPin)
    → AllEnd os abi fuel r ps (stop_pins ps)
stop_pins-AllEnd os abi fuel r [] = tt
stop_pins-AllEnd os abi fuel r (p ∷ ps) =
    (stop-EndsStream os abi fuel r p, stop_pins-AllEnd os abi fuel r ps)

-- After `Stop`, whatever the base class returns, the next call of `FillBuffer` on each of the filter's
-- pins ends that pin's stream: it reports `S_FALSE`, leaves its sample alone, and closes the pipe that
-- the pin had, if it had one, and the pin keeps none. No pin is added or lost.
pub stop-AllEnd :
    (os : Os) (abi : Abi) (fuel : ℕ) (r : SampleReplies) (base : ℕ × FilterState) (s : Source)
    → AllEnd os abi fuel r s.pin_list (Source.stop base s).1.pin_list
unfolding Source.stop
stop-AllEnd os abi fuel r base s = stop_pins-AllEnd os abi fuel r s.pin_list
