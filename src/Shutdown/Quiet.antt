-- ===== src/Shutdown/Quiet.antt =====
-- That the thread is gone when `StopServer` lets go of the pipe.
use virtual_capture_stream.Prelude.{Bool, true, false, ◌≡◌, List, [], ◌∷◌, ◌||◌, arith}
use virtual_capture_stream.Win.{OsCall}
use virtual_capture_stream.Shutdown.{
  Server, Place, waited, disconnected, closed, finished, Stopping, signalled_object, time_up,
  no_object, Acting, acting, Calling, skipping, signalling, probing, waiting, terminating,
  disconnecting, closing, finishing, Reach, here, acts, calls_on, IsCalled,
}

-- The pipe was disconnected.
abbrev pub has_disconnected : List OsCall → Bool
has_disconnected [] = false
has_disconnected (OsCall.disconnect_named_pipe h ∷ cs) = true
has_disconnected (_ ∷ cs) = has_disconnected cs

abbrev is_past_wait : Place → Bool
is_past_wait waited = true
is_past_wait disconnected = true
is_past_wait closed = true
is_past_wait _ = false

abbrev is_under_way : Place → Bool
is_under_way finished = false
is_under_way _ = true

module _ {T : Type 0} (v : Server T) where
  record Inv (s : Stopping T) : Type 0 where
    sound :
        is_under_way s.place ≡ true
        → v.h_thread s.server ≡ 0
        → (v.has_ended s.server || s.terminated) ≡ true
    quiet :
        (is_past_wait s.place || has_disconnected s.calls) ≡ true
        → (v.has_ended s.server || s.terminated) ≡ true

  Acting-Inv : (s u : Stopping T) → Acting v s u → Inv s → Inv u
  Acting-Inv s u (acting b going there e) h =
      ground (arith, h.sound, h.quiet, v.step_handle b s.server)

  Calling-Inv : (s u : Stopping T) → Calling v s u → Inv s → Inv u
  Calling-Inv s u (skipping p n e) h = ground (arith, h.sound, h.quiet, v.forget_ended s.server)
  Calling-Inv s u (signalling p n e) h =
      ground (arith, h.sound, h.quiet, v.signal_handle s.server, v.signal_ended s.server)
  Calling-Inv s u (probing k p e) h = ground (arith, h.sound, h.quiet)
  Calling-Inv s u (waiting r p (signalled_object k over q) e) h = ground (arith, h.sound, h.quiet)
  Calling-Inv s u (waiting r p (time_up k q) e) h = ground (arith, h.sound, h.quiet)
  Calling-Inv s u (waiting r p (no_object gone q) e) h = ground (arith, h.sound, h.quiet)
  Calling-Inv s u (terminating p e) h = ground (arith, h.sound, h.quiet)
  Calling-Inv s u (disconnecting p e) h = ground (arith, h.sound, h.quiet)
  Calling-Inv s u (closing p e) h = ground (arith, h.sound, h.quiet)
  Calling-Inv s u (finishing p e) h = ground (arith, h.sound, h.quiet, v.forget_ended s.server)

  Reach-Inv : {s t : Stopping T} → Reach v s t → Inv s → Inv t
  Reach-Inv here h = h
  Reach-Inv (acts {t} {u} r a) h = Acting-Inv t u a (Reach-Inv r h)
  Reach-Inv (calls_on {t} {u} r c) h = Calling-Inv t u c (Reach-Inv r h)

  IsCalled-Inv : (s : Stopping T) → IsCalled v s → Inv s
  IsCalled-Inv s h = record {
    sound = λ u z. absurd (h.has_handle z);
    quiet = ground (arith, h.at_start, h.no_calls);
  }

  Acting-going : (s u : Stopping T) → Acting v s u → (v.has_ended s.server || s.terminated) ≡ false
  Acting-going s u (acting b going there e) = ground arith

  -- Once `StopServer` has disconnected the pipe, the thread makes no further step: wherever the thread
  -- and `StopServer` got to, in any order, it has ended or been terminated by then.
  pub Reach-quiet :
      (s t u : Stopping T)
      → IsCalled v s
      → Reach v s t
      → has_disconnected t.calls ≡ true
      → ¬ Acting v t u
  Reach-quiet s t u start r over a =
      let h = Reach-Inv r (IsCalled-Inv s start) in
      cc (Acting-going t u a, h.quiet (ground (arith, over)))
