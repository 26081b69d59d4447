-- ===== src/Channel/Calls.antt =====
-- What each call of `FillBuffer` does to the queue of samples that the system stands for.
use virtual_capture_stream.Prelude.{
  ℕ, ◌≤◌, ◌≡◌, ◌≢◌, refl, sym, ◌∙◌, [], ◌∷◌, ◌++◌, drop, subst, length, true, false, some, arith,
  inl,
}
use virtual_capture_stream.Win.{Os, OsCall, s_ok, s_false, e_fail}
use virtual_capture_stream.MediaType.{AmMediaType}
use virtual_capture_stream.Wire.{Abi, IsFaithful}
use virtual_capture_stream.OutputPin.{
  OutputPin, SampleReplies, Filled, fill_connected, fill_buffer, disconnect_pipe,
  connect_to_sink_pin, log,
}
use virtual_capture_stream.OutputPin.Fill.{Serves, Accepts, fill_buffer-connected}
use virtual_capture_stream.OutputPin.Connect.{connect_to_sink_pin-connected}
use virtual_capture_stream.Channel.{Channel, read_off, is_cut, noted}
use virtual_capture_stream.Channel.Fifo.{Fifo, FifoStep, pop, Represents}
use virtual_capture_stream.Channel.SourceSteps.{connecting-Represents, filling-Represents}
use virtual_capture_stream.Channel.SourceCalls.{
  still-IsSteady, fill_connected-starved, steady-Represents,
}
use virtual_capture_stream.Channel.Closing.{
  fill_buffer-stopped, disconnect_pipe-IsSteady, disconnect_pipe-closed, closing-Represents,
}

-- The mark of the connection behind a connection that is made, and behind one that fails.
connect_to_sink_pin-made :
    (os : Os) (fuel : ℕ) (p q : OutputPin)
    → connect_to_sink_pin os fuel p ≡ some (s_ok, q)
    → q.connected ≡ true
connect_to_sink_pin-made os fuel p q e =
    ground (arith, connect_to_sink_pin-connected os fuel s_ok p q e)

connect_to_sink_pin-failed :
    (os : Os) (fuel : ℕ) (p q : OutputPin)
    → connect_to_sink_pin os fuel p ≡ some (e_fail, q)
    → q.connected ≡ false
connect_to_sink_pin-failed os fuel p q e =
    ground (arith, connect_to_sink_pin-connected os fuel e_fail p q e)

module _ (abi : Abi) (mt : AmMediaType) where
  -- A call of `FillBuffer` on a connected pin that runs.
  pub filling-pops :
      (os : Os) (fuel : ℕ) (r : SampleReplies) (f : Filled) (c : Channel) (a : Fifo)
      → IsFaithful abi
      → c.source.running ≡ true
      → c.source.connected ≡ true
      → is_cut c ≡ false
      → Accepts r
      → Serves os c.source.h_pipe c.in_pipe c.source.calls
      → fill_buffer os abi fuel r c.source ≡ some f
      → read_off c.source f.pin ≤ length c.in_pipe
      → Represents abi mt c a
      → (b : Fifo) × FifoStep a b
        × Represents abi mt
            (record c {
              in_pipe = drop (read_off c.source f.pin) c.in_pipe;
              source = f.pin;
              filled = noted c.filled f.sample;
            })
            b
  filling-pops os fuel r f c a v run con whole acc serves e room h =
      let same : fill_connected os abi r c.source ≡ f =
        cc (e, fill_buffer-connected os abi fuel r c.source run con) in
      let (s, rest, front, made) =
        filling-Represents abi mt os r c a h.carried v acc whole serves
          (subst (λ g. read_off c.source g.pin ≤ length c.in_pipe) (sym same) room) h refl in
      (
        record a { queue = rest; gone = a.gone ++ s ∷ [] },
        pop s rest (h.same_shut ∙ whole) front refl,
        subst
            (λ g.
              Represents abi mt
                (record c {
                  in_pipe = drop (read_off c.source g.pin) c.in_pipe;
                  source = g.pin;
                  filled = noted c.filled g.sample;
                })
                (record a { queue = rest; gone = a.gone ++ s ∷ [] }))
            same made,
      )

  pub starving-Represents :
      (os : Os) (fuel : ℕ) (r : SampleReplies) (f : Filled) (c : Channel) (a : Fifo)
      → c.source.running ≡ true
      → c.source.connected ≡ true
      → (os.read_reply (OsCall.read_file c.source.h_pipe abi.info_size ∷ c.source.calls)).success
        ≡ false
      → fill_buffer os abi fuel r c.source ≡ some f
      → Represents abi mt c a
      → Represents abi mt (record c { source = f.pin; filled = noted c.filled f.sample }) a
  starving-Represents os fuel r f c a run con fails e h =
      let q = log (OsCall.read_file c.source.h_pipe abi.info_size) c.source in
      let same : record { hr = s_ok; pin = q; sample = [] } ≡ f = cc (
        e,
        fill_buffer-connected os abi fuel r c.source run con,
        fill_connected-starved os abi r c.source fails,
      ) in
      subst
        (λ (g : Filled).
          Represents abi mt (record c { source = g.pin; filled = noted c.filled g.sample }) a)
        same
        (steady-Represents abi mt q c a (still-IsSteady c.source c.source.running q.calls) refl h)

  pub stopped-Represents :
      (os : Os) (fuel : ℕ) (r : SampleReplies) (f : Filled) (c : Channel) (a : Fifo)
      → c.source.running ≡ false
      → fill_buffer os abi fuel r c.source ≡ some f
      → Represents abi mt c a
      → (b : Fifo) × FifoStep a b
        × Represents abi mt
            (record c { source = f.pin; in_pipe = []; filled = noted c.filled f.sample })
            b
  stopped-Represents os fuel r f c a off e h =
      let q = (disconnect_pipe c.source).1 in
      let same : record { hr = s_false; pin = q; sample = [] } ≡ f =
        cc (e, fill_buffer-stopped os abi fuel r c.source off) in
      subst
        (λ (g : Filled).
          (b : Fifo) × FifoStep a b
          × Represents abi mt
              (record c { source = g.pin; in_pipe = []; filled = noted c.filled g.sample }) b)
        same
        (closing-Represents abi mt c.sink q c.broken c a refl refl
          (disconnect_pipe-IsSteady c.source) (inl (disconnect_pipe-closed c.source)) h)

  pub opening-Represents :
      (os : Os) (fuel : ℕ) (q : OutputPin) (c : Channel) (a : Fifo)
      → c.source.connected ≡ false
      → connect_to_sink_pin os fuel c.source ≡ some (s_ok, q)
      → q.h_pipe ≢ 0
      → Represents abi mt c a
      → Represents abi mt (record c { source = q; broken = false }) a
  opening-Represents os fuel q c a off e n h =
      connecting-Represents abi mt os fuel s_ok q false c a e off (ground arith) h

  pub failing-Represents :
      (os : Os) (fuel : ℕ) (q : OutputPin) (c : Channel) (a : Fifo)
      → c.source.connected ≡ false
      → connect_to_sink_pin os fuel c.source ≡ some (e_fail, q)
      → Represents abi mt c a
      → Represents abi mt (record c { source = q }) a
  failing-Represents os fuel q c a off e h =
      connecting-Represents abi mt os fuel e_fail q c.broken c a e off
        (ground (arith, connect_to_sink_pin-failed os fuel c.source q e)) h
