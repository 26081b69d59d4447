-- ===== src/OutputPin/Connect.antt =====
-- `ConnectToSinkPin` as a whole, and what `FillBuffer` does on every branch
-- (src/VirtualStreamSourceOutputPin.cpp).
use virtual_capture_stream.Prelude.{
  ℕ, ◌<◌, true, false, ◌≡◌, ◌≢◌, ◌⊎◌, List, [], ◌∷◌, none, some, arith, Option-cases, inl, inr,
}
use virtual_capture_stream.Win.{Os, OsCall, s_ok, e_fail}
use virtual_capture_stream.Wire.{Abi}
use virtual_capture_stream.PipeClient.{
  pipehost, client_pipe_name, open_pipe, open_pipe-total, after_rounds, IsLast,
}
use virtual_capture_stream.OutputPin.{
  OutputPin, SampleCall, set_discontinuity, SampleReplies, Filled, fill_buffer, fill_connected,
  disconnect_pipe, connect_to_sink_pin,
}

-- The history when the loop begins.
abbrev pub before_loop : OutputPin → List OsCall
before_loop p = OsCall.create_event (client_pipe_name pipehost p.name) ∷ (disconnect_pipe p).1.calls

-- Connecting ends: one round of fuel more than the rounds that find every instance busy is enough.
connect_to_sink_pin-total :
    (os : Os) (n fuel : ℕ) (p : OutputPin)
    → IsLast os
        (client_pipe_name pipehost p.name)
        (after_rounds (client_pipe_name pipehost p.name) 2000 n (before_loop p))
    → n < fuel
    → connect_to_sink_pin os fuel p ≢ none
unfolding connect_to_sink_pin
connect_to_sink_pin-total os n fuel p last lt = ground (
  arith,
  open_pipe-total os (client_pipe_name pipehost p.name) 2000 n fuel (before_loop p) last lt,
)

-- The code and the mark of the connection agree: connecting succeeds or fails, succeeds exactly when
-- the pin is then marked connected, and leaves the other members as they were.
pub connect_to_sink_pin-connected :
    (os : Os) (fuel hr : ℕ) (p q : OutputPin)
    → connect_to_sink_pin os fuel p ≡ some (hr, q)
    → (((hr ≡ s_ok) × (q.connected ≡ true)) ⊎ ((hr ≡ e_fail) × (q.connected ≡ false)))
      × (q.mt ≡ p.mt)
      × (q.running ≡ p.running)
      × (q.rt_start ≡ p.rt_start)
      × (q.first_sample_delivered ≡ p.first_sample_delivered)
unfolding connect_to_sink_pin
connect_to_sink_pin-connected os fuel hr p q e =
    elim (Option-cases
      (open_pipe os (client_pipe_name pipehost p.name) 2000 fuel (before_loop p))) [
        | inl out ↦ ground arith
        | inr ((r, cs), found) ↦ ground arith
      ]

-- No call marks a sample as discontinuous.
abbrev pub NeverDiscontinuous : List SampleCall → Type 0
NeverDiscontinuous [] = Unit
NeverDiscontinuous (c ∷ cs) = (c ≢ set_discontinuity true) × NeverDiscontinuous cs

fill_connected-NeverDiscontinuous :
    (os : Os) (abi : Abi) (r : SampleReplies) (p : OutputPin)
    → NeverDiscontinuous (fill_connected os abi r p).sample
unfolding fill_connected
fill_connected-NeverDiscontinuous os abi r p = ground arith

-- No call of `FillBuffer` marks its sample as discontinuous, not even the first one after a start, unless
-- another thread clears the flag of the first delivery in the middle of the call: the call sets that flag
-- before it looks at it.
pub fill_buffer-NeverDiscontinuous :
    (os : Os) (abi : Abi) (fuel : ℕ) (r : SampleReplies) (p : OutputPin) (f : Filled)
    → fill_buffer os abi fuel r p ≡ some f
    → NeverDiscontinuous f.sample
unfolding fill_buffer
fill_buffer-NeverDiscontinuous os abi fuel r p f e =
    elim (Option-cases (connect_to_sink_pin os fuel p)) [
      | inl out ↦ ground (arith, fill_connected-NeverDiscontinuous os abi r p)
      | inr ((hr, q), found) ↦ ground (
        arith,
        fill_connected-NeverDiscontinuous os abi r p,
        fill_connected-NeverDiscontinuous os abi r q,
      )
    ]
