-- ===== src/Shutdown.antt =====
-- `StopServer` of src/VirtualStreamSinkInputPin.cpp and of src/VirtualStreamSink.cpp against the thread
-- that it stops, as two threads: both functions make the same calls in the same order, and the threads
-- that they stop fill one interface.
pub mod Quiet
pub mod Threads
use virtual_capture_stream.Prelude.{
  ℕ, Bool, true, false, ◌≡◌, ◌≢◌, List, [], ◌∷◌, ◌==◌, ◌||◌, not, if◌then◌else◌,
}
use virtual_capture_stream.Win.{OsCall, invalid_handle, wait_object_0, wait_timeout}

abbrev pub five_times : {A : Type 0} → (A → A) → A → A
five_times f a = f (f (f (f (f a))))

-- A server thread and what it shares with `StopServer`: how it steps, by what `ConnectNamedPipe` answers,
-- the handles of its pipe and of itself, the stop that it is told, and the handles that are forgotten in
-- the end. The thread gives up its own handle only at its end, and once it has begun, a stop ends it
-- within five steps, if a client ends its wait.
pub record Server (T : Type 0) : Type 0 where
  pub step : Bool → T → T
  pub has_begun : T → Bool
  pub has_ended : T → Bool
  pub h_pipe : T → ℕ
  pub h_thread : T → ℕ
  pub signal : T → T
  pub forget : T → T
  pub step_ended : (b : Bool) (t : T) → has_ended t ≡ true → step b t ≡ t
  pub step_handle :
      (b : Bool) (t : T) → h_thread t ≢ 0 → h_thread (step b t) ≡ 0 → has_ended (step b t) ≡ true
  pub step_pipe : (b : Bool) (t : T) → h_pipe (step b t) ≡ h_pipe t
  pub signal_pipe : (t : T) → h_pipe (signal t) ≡ h_pipe t
  pub signal_handle : (t : T) → h_thread (signal t) ≡ h_thread t
  pub signal_ended : (t : T) → has_ended (signal t) ≡ has_ended t
  pub forget_ended : (t : T) → has_ended (forget t) ≡ has_ended t
  pub ends : (t : T) → has_begun t ≡ true → has_ended (five_times (step true) (signal t)) ≡ true

-- Where `StopServer` stands: at its test, behind the flag, behind the probe, behind a wait that timed
-- out, behind the wait, behind the disconnection, behind the closing, or past its end.
pub data Place : Type 0 where
  called signalled probed timed_out waited disconnected closed finished : Place

-- `terminated` says that `TerminateThread` has ended the thread, `calls` is the history of `StopServer`.
pub record Stopping (T : Type 0) : Type 0 where
  pub server : T
  pub terminated : Bool
  pub pipename : List ℕ
  pub place : Place
  pub calls : List OsCall

-- What `WaitForSingleObject` answers for a thread's handle: that the thread is over, if it is, that the
-- time is up, or that it failed, if there is no handle.
pub data WaitAnswer (handle : ℕ) (is_over : Bool) (r : ℕ) : Type 0 where
  signalled_object : handle ≢ 0 → is_over ≡ true → r ≡ wait_object_0 → WaitAnswer handle is_over r
  time_up : handle ≢ 0 → r ≡ wait_timeout → WaitAnswer handle is_over r
  no_object : handle ≡ 0 → r ≢ wait_timeout → WaitAnswer handle is_over r

-- The call is made only on a handle that is there.
abbrev pub log_if : ℕ → OsCall → List OsCall → List OsCall
log_if h c cs = if h == 0 then cs else c ∷ cs

-- A step of the thread, while it is neither over nor terminated: a call that it waits in may end at any
-- time, or never.
pub data Acting {T : Type 0} (v : Server T) (s : Stopping T) (u : Stopping T) : Type 0 where
  acting :
      (b : Bool)
      → v.has_ended s.server ≡ false
      → s.terminated ≡ false
      → u ≡ record s { server = v.step b s.server }
      → Acting v s u

-- A step of `StopServer`.
pub data Calling {T : Type 0} (v : Server T) (s : Stopping T) (u : Stopping T) : Type 0 where
  skipping :
      s.place ≡ called
      → v.h_pipe s.server ≡ 0
      → u ≡ record s { server = v.forget s.server; place = finished }
      → Calling v s u
  signalling :
      s.place ≡ called
      → v.h_pipe s.server ≢ 0
      → u ≡ record s { server = v.signal s.server; place = signalled }
      → Calling v s u
  probing :
      (h : ℕ)
      → s.place ≡ signalled
      → u ≡ record s {
        place = probed;
        calls =
            if h == invalid_handle
            then OsCall.create_file s.pipename ∷ s.calls
            else OsCall.close_handle h ∷ OsCall.create_file s.pipename ∷ s.calls;
      }
      → Calling v s u
  waiting :
      (r : ℕ)
      → s.place ≡ probed
      → WaitAnswer (v.h_thread s.server) (v.has_ended s.server || s.terminated) r
      → u ≡ record s {
        place = if r == wait_timeout then timed_out else waited;
        calls = OsCall.wait_for_single_object (v.h_thread s.server) 10000 ∷ s.calls;
      }
      → Calling v s u
  terminating :
      s.place ≡ timed_out
      → u ≡ record s {
        place = waited;
        terminated = s.terminated || not (v.h_thread s.server == 0);
        calls = OsCall.terminate_thread (v.h_thread s.server) ∷ s.calls;
      }
      → Calling v s u
  disconnecting :
      s.place ≡ waited
      → u ≡ record s {
        place = disconnected;
        calls =
            log_if (v.h_pipe s.server) (OsCall.disconnect_named_pipe (v.h_pipe s.server)) s.calls;
      }
      → Calling v s u
  closing :
      s.place ≡ disconnected
      → u ≡ record s {
        place = closed;
        calls = log_if (v.h_pipe s.server) (OsCall.close_handle (v.h_pipe s.server)) s.calls;
      }
      → Calling v s u
  finishing :
      s.place ≡ closed
      → u ≡ record s { server = v.forget s.server; place = finished }
      → Calling v s u

-- Both, in any order.
pub data Reach {T : Type 0} (v : Server T) (s : Stopping T) : Stopping T → Type 0 where
  here : Reach v s s
  acts : {t u : Stopping T} → Reach v s t → Acting v t u → Reach v s u
  calls_on : {t u : Stopping T} → Reach v s t → Calling v t u → Reach v s u

-- `StopServer` is called while the thread's handle is there, whatever the thread is at.
pub record IsCalled {T : Type 0} (v : Server T) (s : Stopping T) : Type 0 where
  pub at_start : s.place ≡ called
  pub has_handle : v.h_thread s.server ≢ 0
  pub not_terminated : s.terminated ≡ false
  pub no_calls : s.calls ≡ []
