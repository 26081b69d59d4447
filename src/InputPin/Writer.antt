-- ===== src/InputPin/Writer.antt =====
-- The write thread of an input pin (`InstanceWritePipeThread` of src/VirtualStreamSinkInputPin.cpp), one
-- shared access at a time, so that `BreakConnect` can step in anywhere.
use virtual_capture_stream.Prelude.{
  ◌≢◌, ℕ, zero, suc, true, false, ◌-◌, ◌<◌, ◌≤◌, ◌≡◌, refl, ◌∙◌, List, [], ◌∷◌, Option, none, some,
  length, if◌then◌else◌, arith,
}
use virtual_capture_stream.Sample.{MediaSampleX}
use virtual_capture_stream.Wire.{Abi}
use virtual_capture_stream.InputPin.{InputPin, ref_unset}
use virtual_capture_stream.InputPin.Write.{get_next_write_buffer_sample, write_sample, drain}
use virtual_capture_stream.InputPin.Transmit.{
  write_sample-rest, write_next-front, write_next-empty, Drained, drain_sends, base_time,
  base_media_time,
}

-- Where the thread stands: at the test of the outer loop, at the first test of the inner loop, before it
-- asks for a sample, with a sample in hand, at the pause, or past its end.
pub data WriterStage : Type 0 where
  testing checking taking sleeping done : WriterStage
  holding : MediaSampleX → WriterStage

pub record Writer : Type 0 where
  pub stage : WriterStage
  pub pin : InputPin

abbrev took : Option (MediaSampleX × InputPin) → InputPin → Writer
took none p = record { stage = sleeping; pin = p }
took (some (s, q)) p = record { stage = holding s; pin = q }

abbrev write_at : Abi → WriterStage → InputPin → Writer
write_at abi testing p = record { stage = if p.write_buffering then checking else done; pin = p }
write_at abi checking p = record { stage = if p.write_buffering then taking else sleeping; pin = p }
write_at abi taking p = took (get_next_write_buffer_sample p) p
write_at abi (holding s) p = record { stage = checking; pin = write_sample abi s p }
write_at abi sleeping p = record { stage = testing; pin = p }
write_at abi done p = record { stage = done; pin = p }

-- One step of the thread.
unfoldable pub writer_step : Abi → Writer → Writer
unfolding get_next_write_buffer_sample write_sample
writer_step abi w = write_at abi w.stage w.pin

unfoldable pub writer_run : Abi → ℕ → Writer → Writer
writer_run abi zero w = w
writer_run abi (suc n) w = writer_run abi n (writer_step abi w)

-- The first thing that `BreakConnect` does to the thread.
unfoldable pub signal_stop : Writer → Writer
signal_stop w = record w { pin = record w.pin { write_buffering = false } }

-- What is left to do: the sample in hand, or the one that is about to be taken.
abbrev pub last_round : Abi → WriterStage → InputPin → InputPin
last_round abi (holding s) p = write_sample abi s p
last_round abi taking p = elim (get_next_write_buffer_sample p) [
  | none ↦ p
  | some (s, q) ↦ write_sample abi s q
]
last_round abi _ p = p

abbrev steps_left : WriterStage → ℕ
steps_left taking = 5
steps_left (holding s) = 4
steps_left checking = 3
steps_left sleeping = 2
steps_left testing = 1
steps_left done = 0

-- A step, from the stage `t` and the pin `p`, of a thread that is told to stop.
record Stops (abi : Abi) (t : WriterStage) (p : InputPin) (u : Writer) : Type 0 where
  told : u.pin.write_buffering ≡ false
  fewer : steps_left u.stage ≤ steps_left t - 1
  same_end : last_round abi u.stage u.pin ≡ last_round abi t p

taking-Stops :
    (abi : Abi) (l : List MediaSampleX) (p : InputPin)
    → p.write_buffer ≡ l
    → p.write_buffering ≡ false
    → Stops abi taking p (took (get_next_write_buffer_sample p) p)
unfolding get_next_write_buffer_sample
taking-Stops abi [] p front e =
    rw front (record { told = e; fewer = ground arith; same_end = ground (arith, front) })
taking-Stops abi (s ∷ l) p front e =
    rw front (record { told = e; fewer = ground arith; same_end = ground (arith, front) })

write_at-Stops :
    (abi : Abi) (t : WriterStage) (p : InputPin)
    → p.write_buffering ≡ false
    → Stops abi t p (write_at abi t p)
unfolding get_next_write_buffer_sample
write_at-Stops abi testing p e = record { told = e; fewer = ground arith; same_end = ground arith }
write_at-Stops abi checking p e = record { told = e; fewer = ground arith; same_end = ground arith }
write_at-Stops abi taking p e = taking-Stops abi p.write_buffer p refl e
write_at-Stops abi (holding s) p e = record {
  told = (write_sample-rest abi s p).2 ∙ e;
  fewer = ground arith;
  same_end = refl;
}
write_at-Stops abi sleeping p e = record { told = e; fewer = ground arith; same_end = refl }
write_at-Stops abi done p e = record { told = e; fewer = ground arith; same_end = refl }

ended :
    (abi : Abi) (w : Writer)
    → steps_left w.stage ≤ 0
    → (w.stage ≡ done) × (w.pin ≡ last_round abi w.stage w.pin)
ended abi w le = ground arith

writer_run-ends :
    (abi : Abi) (n : ℕ) (w : Writer)
    → w.pin.write_buffering ≡ false
    → steps_left w.stage ≤ n
    → let u = writer_run abi n w in (u.stage ≡ done) × (u.pin ≡ last_round abi w.stage w.pin)
unfolding writer_run writer_step
writer_run-ends abi zero w e le = ended abi w le
writer_run-ends abi (suc n) w e le =
    let step = write_at-Stops abi w.stage w.pin e in
    let rest = writer_run-ends abi n (writer_step abi w) step.told (omega (arith, step.fewer)) in
    (rest.0, rest.1 ∙ step.same_end)

steps_left-le : (t : WriterStage) → steps_left t ≤ 5
steps_left-le t = ground arith

-- A stop is never lost, not even before the thread's first test: wherever the thread stands when
-- `BreakConnect` tells it to stop, it ends within five steps, as long as no further sample comes in
-- and nobody else holds the pin's lock. It writes the sample that it holds, or the one that it is about to take, and leaves the others queued.
pub writer_run-stops :
    (abi : Abi) (n : ℕ) (w : Writer)
    → 5 ≤ n
    → let u = writer_run abi n (signal_stop w) in
      (u.stage ≡ done) × (u.pin ≡ last_round abi w.stage (signal_stop w).pin)
unfolding signal_stop
writer_run-stops abi n w le =
    writer_run-ends abi n (signal_stop w) refl (omega (arith, steps_left-le w.stage))

-- The steps that the thread makes for a queue, from the test of its inner loop to the pause.
abbrev pub rounds : List MediaSampleX → ℕ
rounds [] = 2
rounds (s ∷ l) = suc (suc (suc (rounds l)))

writer_run-queue :
    (abi : Abi) (l : List MediaSampleX) (fuel : ℕ) (p : InputPin)
    → p.write_buffer ≡ l
    → p.write_buffering ≡ true
    → length l < fuel
    → writer_run abi (rounds l) (record { stage = checking; pin = p })
      ≡ record { stage = sleeping; pin = drain abi fuel p }
unfolding writer_run writer_step drain get_next_write_buffer_sample
writer_run-queue abi l zero p e on lt = elim lt [ ]
writer_run-queue abi [] (suc fuel) p e on lt = ground (arith, write_next-empty abi p e)
writer_run-queue abi (s ∷ l) (suc fuel) p e on lt =
    let taken : InputPin = record p { write_buffer = l } in
    let q = write_sample abi s taken in
    let kept = write_sample-rest abi s taken in
    ground (
      arith,
      write_next-front abi p s l on e,
      writer_run-queue abi l fuel q kept.1 (kept.2 ∙ on) (omega arith),
    )

-- While no other thread steps in, the thread does for its queue, step by step, what `drain` does in one:
-- from the test of its inner loop to the pause it makes three steps for each sample and two more.
writer_run-drain :
    (abi : Abi) (fuel : ℕ) (p : InputPin)
    → p.write_buffering ≡ true
    → length p.write_buffer < fuel
    → writer_run abi (rounds p.write_buffer) (record { stage = checking; pin = p })
      ≡ record { stage = sleeping; pin = drain abi fuel p }
writer_run-drain abi fuel p on lt = writer_run-queue abi p.write_buffer fuel p refl on lt

-- While no other thread steps in, the steps of the thread send a queue, from the test of its inner loop to
-- the pause, in three steps for each sample and two more: for each sample of a connected pin, in order,
-- its header, with the pin's reference points (those of the first sample, if none were set), then its
-- data if it has any; each sample is freed once, in order, and the queue is empty then. The first sample's
-- time is not the value that marks unset points.
pub writer_run-sends :
    (abi : Abi) (s : MediaSampleX) (rest : List MediaSampleX) (p : InputPin)
    → p.connected ≡ true
    → p.write_buffering ≡ true
    → p.write_buffer ≡ s ∷ rest
    → s.time_start ≢ ref_unset
    → let w = writer_run abi (rounds (s ∷ rest)) (record { stage = checking; pin = p }) in
      (w.stage ≡ sleeping) × Drained abi (base_time p s) (base_media_time p s) (s ∷ rest) p w.pin
writer_run-sends abi s rest p on writes e n =
    rw (writer_run-queue abi (s ∷ rest) (suc (length (s ∷ rest))) p e writes (omega arith))
      (refl, drain_sends abi (suc (length (s ∷ rest))) s rest p on writes e n (omega arith))
