-- ===== src/InputPin/Locking.antt =====
-- `BreakConnect` against the write thread and the pin's lock (src/VirtualStreamSinkInputPin.cpp):
-- `GetNextWriteBufferSample` takes the lock, and whoever calls `BreakConnect` may hold it, as the base
-- class's `Disconnect` does.
use virtual_capture_stream.Prelude.{
  ℕ, zero, suc, Bool, true, false, not, ◌≤◌, ◌≡◌, ◌⊎◌, inl, inr, refl, if◌then◌else◌, Bool-cases,
  arith,
}
use virtual_capture_stream.Wire.{Abi}
use virtual_capture_stream.InputPin.Write.{get_next_write_buffer_sample, write_sample}
use virtual_capture_stream.InputPin.Writer.{
  WriterStage, taking, done, Writer, writer_step, writer_run, signal_stop, last_round,
  writer_run-stops,
}

-- The thread is about to call `GetNextWriteBufferSample`, and another thread holds the lock.
abbrev pub waits_for_lock : Bool → WriterStage → Bool
waits_for_lock held taking = held
waits_for_lock held _ = false

abbrev is_done : WriterStage → Bool
is_done done = true
is_done _ = false

unfoldable pub held_step : Abi → Bool → Writer → Writer
held_step abi held w = if waits_for_lock held w.stage then w else writer_step abi w

unfoldable pub held_run : Abi → Bool → ℕ → Writer → Writer
held_run abi held zero w = w
held_run abi held (suc n) w = held_run abi held n (held_step abi held w)

-- `BreakConnect` tells the thread to stop and waits for it; the thread makes `n` steps in that time. The
-- result says whether the thread is terminated because the wait did not succeed, and how the thread is
-- left.
unfoldable pub stop_writer : Abi → Bool → ℕ → Writer → Bool × Writer
unfolding signal_stop
stop_writer abi held n w = let u = held_run abi held n (signal_stop w) in (not (is_done u.stage), u)

held_run-waits :
    (abi : Abi) (held : Bool) (n : ℕ) (w : Writer)
    → waits_for_lock held w.stage ≡ true
    → held_run abi held n w ≡ w
unfolding held_run held_step
held_run-waits abi held zero w e = refl
held_run-waits abi held (suc n) w e = ground (arith, e, held_run-waits abi held n w e)

-- A thread that is told to stop does not come to take a sample any more.
stays_off :
    (abi : Abi) (held : Bool) (w : Writer)
    → w.pin.write_buffering ≡ false
    → ((writer_step abi w).pin.write_buffering ≡ false)
      × (waits_for_lock held (writer_step abi w).stage ≡ false)
unfolding writer_step get_next_write_buffer_sample write_sample
stays_off abi held w e = ground arith

held_run-goes :
    (abi : Abi) (held : Bool) (n : ℕ) (w : Writer)
    → w.pin.write_buffering ≡ false
    → waits_for_lock held w.stage ≡ false
    → held_run abi held n w ≡ writer_run abi n w
unfolding held_run held_step writer_run
held_run-goes abi held zero w off e = refl
held_run-goes abi held (suc n) w off e =
    let (still_off, still_free) = stays_off abi held w off in
    rw e (held_run-goes abi held n (writer_step abi w) still_off still_free)

-- How `BreakConnect` gets rid of the write thread, which makes at least five steps while it is waited
-- for, unless it waits itself: if the caller holds the pin's lock and the thread is about to take a
-- sample, the thread never gets on, however long the wait, and is terminated, with its queue as it was.
-- Otherwise it ends by itself and is not terminated; it writes the sample that it holds, or the one that
-- it is about to take, and leaves the others queued.
pub stop_writer-lock :
    (abi : Abi) (held : Bool) (n : ℕ) (w : Writer)
    → 5 ≤ n
    → let r = stop_writer abi held n w in
      ((waits_for_lock held w.stage ≡ true) × (r.0 ≡ true) × (r.1 ≡ signal_stop w))
      ⊎ ((waits_for_lock held w.stage ≡ false)
          × (r.0 ≡ false)
          × (r.1.pin ≡ last_round abi w.stage (signal_stop w).pin))
unfolding stop_writer signal_stop
stop_writer-lock abi held n w le = elim (Bool-cases (waits_for_lock held w.stage)) [
  | inl stuck ↦
      let same = held_run-waits abi held n (signal_stop w) stuck in
      inl (stuck, ground (arith, stuck, same), same)
  | inr free ↦
      let same = held_run-goes abi held n (signal_stop w) refl free in
      let ends = writer_run-stops abi n w le in
      inr (free, ground (arith, same, ends), ground (arith, same, ends))
]
