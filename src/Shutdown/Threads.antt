-- ===== src/Shutdown/Threads.antt =====
-- The two server threads as `StopServer` sees them: the listener of an input pin and the thread of the
-- sink filter.
use virtual_capture_stream.Prelude.{
  Bool, true, false, ◌≡◌, ◌≢◌, refl, ◌∙◌, List, [], ◌∷◌, not, arith,
}
use virtual_capture_stream.Wire.{Abi}
use virtual_capture_stream.Crt.{Crt}
use virtual_capture_stream.InputPin.Server.{
  Stage, starting, done, Listener, listen_step, listen_run, signal_stop, listen_run-stops,
}
use virtual_capture_stream.Sink.{Sink, SinkPin}
use virtual_capture_stream.Sink.Publish.{write_pins, pipe_out_media_types}
use virtual_capture_stream.Sink.Server.{
  signal_stop as signal_sink_stop, SinkThread, serve_step, serve_run, serve_run-stops,
}
use virtual_capture_stream.Shutdown.{Server, five_times}

abbrev pub is_done : Stage → Bool
is_done done = true
is_done _ = false

abbrev pub is_starting : Stage → Bool
is_starting starting = true
is_starting _ = false

-- What `StopServer` of a pin leaves.
abbrev pub forget_pipe : Listener → Listener
forget_pipe t = record t { h_pipe = 0; h_thread = 0 }

pub listen_step-ended : (b : Bool) (t : Listener) → is_done t.stage ≡ true → listen_step b t ≡ t
unfolding listen_step
listen_step-ended b t e = ground arith

pub listen_step-handles :
    (b : Bool) (t : Listener)
    → t.h_thread ≢ 0
    → (listen_step b t).h_thread ≡ 0
    → is_done (listen_step b t).stage ≡ true
unfolding listen_step
listen_step-handles b t n e = ground arith

pub listen_step-pipe : (b : Bool) (t : Listener) → (listen_step b t).h_pipe ≡ t.h_pipe
unfolding listen_step
listen_step-pipe b t = ground arith

pub listener-ends :
    (t : Listener)
    → not (is_starting t.stage) ≡ true
    → is_done (five_times (listen_step true) (signal_stop t)).stage ≡ true
unfolding listen_run
listener-ends t e = ground (
  arith,
  listen_run-stops (true ∷ true ∷ true ∷ true ∷ true ∷ []) t (λ s. ground arith) (omega arith),
)

unfoldable pub listener : Server Listener
unfolding signal_stop
listener = record {
  step = listen_step;
  has_begun = λ t. not (is_starting t.stage);
  has_ended = λ t. is_done t.stage;
  h_pipe = λ t. t.h_pipe;
  h_thread = λ t. t.h_thread;
  signal = signal_stop;
  forget = forget_pipe;
  step_ended = listen_step-ended;
  step_handle = listen_step-handles;
  step_pipe = listen_step-pipe;
  signal_pipe = λ t. refl;
  signal_handle = λ t. refl;
  signal_ended = λ t. refl;
  forget_ended = λ t. refl;
  ends = listener-ends;
}

-- What `StopServer` of the filter leaves: it keeps the thread's handle.
abbrev pub forget_sink_pipe : SinkThread → SinkThread
forget_sink_pipe t = record t { sink = record t.sink { h_pipe = 0 } }

module _ (crt : Crt) (abi : Abi) where
  write_pins-handles :
      (l : List SinkPin) (s : Sink)
      → ((write_pins crt abi l s).h_pipe ≡ s.h_pipe)
        × ((write_pins crt abi l s).h_thread ≡ s.h_thread)
  unfolding write_pins
  write_pins-handles [] s = (refl, refl)
  write_pins-handles (x ∷ xs) s =
      let later = write_pins-handles xs _ in (later.0 ∙ ground arith, later.1 ∙ ground arith)

  pipe_out_media_types-handles :
      (s : Sink)
      → ((pipe_out_media_types crt abi s).1.h_pipe ≡ s.h_pipe)
        × ((pipe_out_media_types crt abi s).1.h_thread ≡ s.h_thread)
  unfolding pipe_out_media_types
  pipe_out_media_types-handles s = write_pins-handles s.pin_list s

  pub serve_step-ended :
      (b : Bool) (t : SinkThread) → is_done t.stage ≡ true → serve_step crt abi b t ≡ t
  unfolding serve_step
  serve_step-ended b t e = ground arith

  pub serve_step-handles :
      (b : Bool) (t : SinkThread)
      → t.sink.h_thread ≢ 0
      → (serve_step crt abi b t).sink.h_thread ≡ 0
      → is_done (serve_step crt abi b t).stage ≡ true
  unfolding serve_step
  serve_step-handles b t n e = ground (arith, pipe_out_media_types-handles t.sink)

  pub serve_step-pipe :
      (b : Bool) (t : SinkThread) → (serve_step crt abi b t).sink.h_pipe ≡ t.sink.h_pipe
  unfolding serve_step
  serve_step-pipe b t = ground (arith, pipe_out_media_types-handles t.sink)

  pub server-ends :
      (t : SinkThread)
      → not (is_starting t.stage) ≡ true
      → is_done (five_times (serve_step crt abi true) (signal_sink_stop t)).stage ≡ true
  unfolding serve_run
  server-ends t e = ground (
    arith,
    serve_run-stops crt abi (true ∷ true ∷ true ∷ true ∷ true ∷ []) t (λ s. ground arith)
        (omega arith),
  )

  unfoldable pub sink_server : Server SinkThread
  unfolding signal_sink_stop
  sink_server = record {
    step = serve_step crt abi;
    has_begun = λ t. not (is_starting t.stage);
    has_ended = λ t. is_done t.stage;
    h_pipe = λ t. t.sink.h_pipe;
    h_thread = λ t. t.sink.h_thread;
    signal = signal_sink_stop;
    forget = forget_sink_pipe;
    step_ended = serve_step-ended;
    step_handle = serve_step-handles;
    step_pipe = serve_step-pipe;
    signal_pipe = λ t. refl;
    signal_handle = λ t. refl;
    signal_ended = λ t. refl;
    forget_ended = λ t. refl;
    ends = server-ends;
  }
