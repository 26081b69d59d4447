-- ===== src/Sink/Server.antt =====
-- The thread that answers clients with the description of the pins (`InstanceThread` of
-- src/VirtualStreamSink.cpp), one shared access at a time, so that `StopServer` can step in anywhere.
-- What `ConnectNamedPipe` answers, an already connected client included, is an argument.
use virtual_capture_stream.Prelude.{
  ℕ, Bool, true, false, List, [], ◌∷◌, ◌≡◌, ◌≢◌, ◌≤◌, refl, ◌∙◌, ◌-◌, ◌&&◌, if◌then◌else◌, length,
  arith,
}
use virtual_capture_stream.Wire.{Abi}
use virtual_capture_stream.Crt.{Crt}
use virtual_capture_stream.InputPin.Server.{
  Stage, starting, testing, connecting, checking, pausing, leaving, done,
}
use virtual_capture_stream.Sink.{Sink, SinkPin}
use virtual_capture_stream.Sink.Publish.{write_pins, pipe_out_media_types}

pub record SinkThread : Type 0 where
  pub stage : Stage
  pub sink : Sink

-- The test behind the wait, and the answer to the client.
abbrev answer : Crt → Abi → Sink → Sink
answer crt abi s = if s.connected && s.server_running then (pipe_out_media_types crt abi s).1 else s

abbrev serve_at : Crt → Abi → Stage → Bool → Sink → SinkThread
serve_at crt abi starting reply s = record {
  stage = testing;
  sink = record s { server_running = true; connected = false };
}
serve_at crt abi testing reply s = record {
  stage = if s.server_running then connecting else leaving;
  sink = s;
}
serve_at crt abi connecting reply s = record {
  stage = checking;
  sink = record s { connected = reply };
}
serve_at crt abi checking reply s = record { stage = pausing; sink = answer crt abi s }
serve_at crt abi pausing reply s = record { stage = testing; sink = s }
serve_at crt abi leaving reply s = record {
  stage = done;
  sink = record s { server_running = false; connected = false; h_thread = 0 };
}
serve_at crt abi done reply s = record { stage = done; sink = s }

-- One step of the thread.
unfoldable pub serve_step : Crt → Abi → Bool → SinkThread → SinkThread
serve_step crt abi reply t = serve_at crt abi t.stage reply t.sink

unfoldable pub serve_run : Crt → Abi → List Bool → SinkThread → SinkThread
serve_run crt abi [] t = t
serve_run crt abi (b ∷ bs) t = serve_run crt abi bs (serve_step crt abi b t)

-- The first thing that `StopServer` does.
unfoldable pub signal_stop : SinkThread → SinkThread
signal_stop t = record t { sink = record t.sink { server_running = false } }

-- The steps that are left once the stop is seen.
abbrev rounds_left : Stage → ℕ
rounds_left starting = 7
rounds_left testing = 2
rounds_left connecting = 5
rounds_left checking = 4
rounds_left pausing = 3
rounds_left leaving = 1
rounds_left done = 0

record IsEnding (t : SinkThread) : Type 0 where
  begun : t.stage ≢ starting
  told : t.sink.server_running ≡ false

module _ (crt : Crt) (abi : Abi) where
  serve_step-IsEnding : (b : Bool) (t : SinkThread) → IsEnding t → IsEnding (serve_step crt abi b t)
  unfolding serve_step
  serve_step-IsEnding b t h = ground arith

  serve_step-fewer :
      (b : Bool) (t : SinkThread)
      → IsEnding t
      → (rounds_left (serve_step crt abi b t).stage ≤ rounds_left t.stage - 1)
        × ((serve_step crt abi b t).sink.calls ≡ t.sink.calls)
  unfolding serve_step
  serve_step-fewer b t h = ground arith

  ending-done : (t : SinkThread) → IsEnding t → rounds_left t.stage ≤ 0 → t.stage ≡ done
  ending-done t h le = ground arith

  serve_run-ends :
      (bs : List Bool) (t : SinkThread)
      → IsEnding t
      → rounds_left t.stage ≤ length bs
      → ((serve_run crt abi bs t).stage ≡ done)
        × ((serve_run crt abi bs t).sink.server_running ≡ false)
        × ((serve_run crt abi bs t).sink.calls ≡ t.sink.calls)
  unfolding serve_run
  serve_run-ends [] t h le = (ending-done t h le, h.told, refl)
  serve_run-ends (b ∷ bs) t h le =
      let later =
        serve_run-ends bs (serve_step crt abi b t) (serve_step-IsEnding b t h)
          (omega (arith, serve_step-fewer b t h)) in
      (later.0, later.1, later.2 ∙ (serve_step-fewer b t h).1)

  rounds_left-le : (t : SinkThread) → t.stage ≢ starting → rounds_left t.stage ≤ 5
  rounds_left-le t n = ground arith

  -- Once the thread has begun and `StopServer` has told it to stop, it ends within five steps whatever
  -- `ConnectNamedPipe` answers, and describes the pins to no further client.
  pub serve_run-stops :
      (bs : List Bool) (t : SinkThread)
      → t.stage ≢ starting
      → 5 ≤ length bs
      → let u = serve_run crt abi bs (signal_stop t) in
        (u.stage ≡ done) × (u.sink.server_running ≡ false) × (u.sink.calls ≡ t.sink.calls)
  unfolding signal_stop
  serve_run-stops bs t n le =
      serve_run-ends bs (signal_stop t) (record { begun = n; told = refl })
        (omega (arith, rounds_left-le t n))

  write_pins-running :
      (l : List SinkPin) (s : Sink) → (write_pins crt abi l s).server_running ≡ s.server_running
  unfolding write_pins
  write_pins-running [] s = refl
  write_pins-running (x ∷ xs) s = write_pins-running xs _ ∙ ground arith

  pipe_out_media_types-running :
      (s : Sink) → (pipe_out_media_types crt abi s).1.server_running ≡ s.server_running
  unfolding pipe_out_media_types
  pipe_out_media_types-running s = write_pins-running s.pin_list s

  -- A stop that comes before the thread's first statement is lost: the next client is still answered.
  pub serve_run-lost_stop :
      (b c d : Bool) (t : SinkThread)
      → t.stage ≡ starting
      → let u = serve_run crt abi (b ∷ c ∷ true ∷ d ∷ []) (signal_stop t) in
        (u.sink.server_running ≡ true)
        × (u.sink.calls
            ≡ (pipe_out_media_types crt abi
                (record t.sink { server_running = true; connected = true })).1.calls)
  unfolding serve_run serve_step signal_stop
  serve_run-lost_stop b c d t e = ground (
    arith,
    pipe_out_media_types-running (record t.sink { server_running = true; connected = true }),
  )
