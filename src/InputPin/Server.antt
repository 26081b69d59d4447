-- ===== src/InputPin/Server.antt =====
-- The thread that waits for a client of the pin's pipe (`InstanceThread` of
-- src/VirtualStreamSinkInputPin.cpp), one shared access at a time, so that `StopServer` can step in
-- anywhere. What `ConnectNamedPipe` answers, an already connected client included, is an argument.
use virtual_capture_stream.Prelude.{
  ℕ, suc, Bool, true, false, List, [], ◌∷◌, ◌≡◌, ◌≢◌, refl, ◌∙◌, not, ◌-◌, ◌&&◌, ◌==◌,
  if◌then◌else◌, length, ◌≤◌, arith,
}

-- Where the thread stands: before its first statement, at the loop's test, before the wait for a
-- client, at the test after it, before the pause, behind the loop, or past its end.
pub data Stage : Type 0 where
  starting testing connecting checking pausing leaving done : Stage

pub record Listener : Type 0 where
  pub stage : Stage
  pub pipe_server_running : Bool
  pub h_pipe : ℕ
  pub h_thread : ℕ
  pub connected : Bool
  -- How often the thread has disconnected a client.
  pub disconnects : ℕ

abbrev listen_at : Stage → Bool → Listener → Listener
listen_at starting reply t = record t { stage = testing; pipe_server_running = true }
listen_at testing reply t = record t {
  stage = if t.pipe_server_running && not (t.h_pipe == 0) then connecting else leaving;
}
listen_at connecting reply t = record t {
  stage = checking;
  connected = if t.h_pipe == 0 then t.connected else reply;
}
listen_at checking reply t = record t {
  stage = pausing;
  disconnects =
      if t.pipe_server_running && (not t.connected && not (t.h_pipe == 0))
      then suc t.disconnects
      else t.disconnects;
}
listen_at pausing reply t = record t { stage = testing }
listen_at leaving reply t = record t { stage = done; pipe_server_running = false; h_thread = 0 }
listen_at done reply t = t

-- One step of the thread.
unfoldable pub listen_step : Bool → Listener → Listener
listen_step reply t = listen_at t.stage reply t

unfoldable pub listen_run : List Bool → Listener → Listener
listen_run [] t = t
listen_run (b ∷ bs) t = listen_run bs (listen_step b t)

-- The first thing that `StopServer` does.
unfoldable pub signal_stop : Listener → Listener
signal_stop t = record t { pipe_server_running = false }

-- The steps that are left once the stop is seen.
abbrev steps_left : Stage → ℕ
steps_left starting = 7
steps_left testing = 2
steps_left connecting = 5
steps_left checking = 4
steps_left pausing = 3
steps_left leaving = 1
steps_left done = 0

pub record IsStopping (t : Listener) : Type 0 where
  pub begun : t.stage ≢ starting
  pub told : t.pipe_server_running ≡ false

listen_step-IsStopping : (b : Bool) (t : Listener) → IsStopping t → IsStopping (listen_step b t)
unfolding listen_step
listen_step-IsStopping b t h = ground arith

listen_step-fewer :
    (b : Bool) (t : Listener)
    → IsStopping t
    → (steps_left (listen_step b t).stage ≤ steps_left t.stage - 1)
      × ((listen_step b t).disconnects ≡ t.disconnects)
unfolding listen_step
listen_step-fewer b t h = ground arith

stopping-done : (t : Listener) → IsStopping t → steps_left t.stage ≤ 0 → t.stage ≡ done
stopping-done t h le = ground arith

listen_run-ends :
    (bs : List Bool) (t : Listener)
    → IsStopping t
    → steps_left t.stage ≤ length bs
    → ((listen_run bs t).stage ≡ done)
      × ((listen_run bs t).pipe_server_running ≡ false)
      × ((listen_run bs t).disconnects ≡ t.disconnects)
unfolding listen_run
listen_run-ends [] t h le = (stopping-done t h le, h.told, refl)
listen_run-ends (b ∷ bs) t h le =
    let ended =
      listen_run-ends bs (listen_step b t) (listen_step-IsStopping b t h)
        (omega (arith, listen_step-fewer b t h)) in
    (ended.0, ended.1, ended.2 ∙ (listen_step-fewer b t h).1)

steps_left-le : (t : Listener) → t.stage ≢ starting → steps_left t.stage ≤ 5
steps_left-le t n = ground arith

-- Once the listener has begun and `StopServer` has told it to stop, it ends within five steps whatever
-- `ConnectNamedPipe` answers, stays ended, and disconnects no client on the way.
pub listen_run-stops :
    (bs : List Bool) (t : Listener)
    → t.stage ≢ starting
    → 5 ≤ length bs
    → let u = listen_run bs (signal_stop t) in
      (u.stage ≡ done) × (u.pipe_server_running ≡ false) × (u.disconnects ≡ t.disconnects)
unfolding signal_stop
listen_run-stops bs t n le =
    listen_run-ends bs (signal_stop t) (record { begun = n; told = refl })
      (omega (arith, steps_left-le t n))

-- A stop that comes before the thread's first statement is lost: the thread sets the flag anew, and
-- goes on to wait for a client as long as the pipe's handle is there.
listen_run-lost_stop :
    (b c : Bool) (t : Listener)
    → t.stage ≡ starting
    → t.h_pipe ≢ 0
    → let u = listen_run (b ∷ c ∷ []) (signal_stop t) in
      (u.pipe_server_running ≡ true) × (u.stage ≡ connecting)
unfolding listen_run listen_step signal_stop
listen_run-lost_stop b c t e n = ground arith
