-- ===== src/Examples/Shutdowns.antt =====
-- Examples for `StopServer` against the threads that it stops.
use virtual_capture_stream.Prelude.{◌∷◌, refl, true, false, []}
use virtual_capture_stream.InputPin.Server.{Listener, connecting, checking}
use virtual_capture_stream.InputPin.Server.{signal_stop as signal_pin_stop}
use virtual_capture_stream.Shutdown.{
  called, disconnected, Stopping, time_up, Acting, signalling, probing, waiting, terminating,
  disconnecting, Reach, here, calls_on, IsCalled,
}
use virtual_capture_stream.Shutdown.Quiet.{Reach-quiet}
use virtual_capture_stream.Shutdown.Threads.{listener}
use virtual_capture_stream.Win.{OsCall, wait_timeout, invalid_handle}

abbrev blocked : Listener
blocked = record {
  stage = connecting;
  pipe_server_running = true;
  h_pipe = 20;
  h_thread = 21;
  connected = false;
  disconnects = 0;
}

abbrev stopping : Stopping Listener
stopping = record {
  server = blocked;
  terminated = false;
  pipename = [];
  place = called;
  calls = [];
}

stopping-IsCalled : IsCalled listener stopping
unfolding listener
stopping-IsCalled = record {
  at_start = refl;
  has_handle = λ e. cc;
  not_terminated = refl;
  no_calls = refl;
}

-- The probe finds no free instance, the thread stays where it is, and the wait times out.
abbrev cut_off : Stopping Listener
cut_off = record {
  server = record blocked { pipe_server_running = false };
  terminated = true;
  pipename = [];
  place = disconnected;
  calls =
      OsCall.disconnect_named_pipe 20
      ∷ OsCall.terminate_thread 21
      ∷ OsCall.wait_for_single_object 21 10000
      ∷ OsCall.create_file []
      ∷ [];
}

stopping-cut_off : Reach listener stopping cut_off
unfolding listener signal_pin_stop
stopping-cut_off =
    calls_on
      (calls_on
        (calls_on
          (calls_on (calls_on here (signalling refl (λ e. cc) refl))
            (probing invalid_handle refl refl))
          (waiting wait_timeout refl (time_up (λ e. cc) refl) refl))
        (terminating refl refl))
      (disconnecting refl refl)

Reach-quiet_example :
    ¬ Acting listener cut_off (record cut_off { server = record blocked { stage = checking } })
Reach-quiet_example =
    Reach-quiet listener stopping cut_off
      (record cut_off { server = record blocked { stage = checking } }) stopping-IsCalled
      stopping-cut_off refl
