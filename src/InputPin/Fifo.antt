-- ===== src/InputPin/Fifo.antt =====
-- The write buffer between two threads: samples come in by `Receive`, the write thread takes them, and
-- the pin is reset, connected, disconnected and stopped in between, in any order. `BreakConnect` waits for
-- the thread to end; where it waits in vain it terminates the thread, with the sample in its hands.
use virtual_capture_stream.Prelude.{
  ℕ, Bool, true, false, not, ◌&&◌, ◌||◌, ◌==◌, ◌≡◌, refl, ap, List, [], ◌∷◌, ◌++◌, append_assoc,
  Option, none, some, if◌then◌else◌, arith,
}
use virtual_capture_stream.Win.{Os, failed, wait_object_0}
use virtual_capture_stream.Sample.{MediaSampleX, IMediaSample, Memory, new_sample}
use virtual_capture_stream.Wire.{Abi}
use virtual_capture_stream.InputPin.{InputPin, receive, reset}
use virtual_capture_stream.InputPin.Allocator.{Slot, break_connect}
use virtual_capture_stream.InputPin.Write.{get_next_write_buffer_sample, write_sample}
use virtual_capture_stream.InputPin.Transmit.{freed, write_sample-rest}

-- One step of either thread. `taking` is a round of the write thread up to the removal from the
-- queue, `writing` the rest of the round.
pub data Event : Type 0 where
  receiving : Memory → ℕ → IMediaSample → Event
  taking writing : Event
  resetting : Event
  connecting : Bool → Event
  breaking : ℕ → Slot → Event

-- A sample that the write thread is done with: it was freed, or the thread was terminated with it.
pub record Finished : Type 0 where
  pub sample : MediaSampleX
  pub is_freed : Bool

-- The pin, the sample that the write thread holds, and the history: all that came in and all that the
-- thread is done with.
pub record Traffic : Type 0 where
  pub pin : InputPin
  pub held : Option MediaSampleX
  pub received : List MediaSampleX
  pub finished : List Finished

abbrev took : Option (MediaSampleX × InputPin) → Traffic → Traffic
took none t = t
took (some (s, p)) t = record t { pin = p; held = some s }

-- The thread takes a sample only while it holds none and is told to go on.
abbrev take_round : Option MediaSampleX → Traffic → Traffic
take_round (some s) t = t
take_round none t = if t.pin.write_buffering then took (get_next_write_buffer_sample t.pin) t else t

abbrev write_round : Abi → Option MediaSampleX → Traffic → Traffic
write_round abi none t = t
write_round abi (some s) t = record t {
  pin = write_sample abi s t.pin;
  held = none;
  finished = t.finished ++ record { sample = s; is_freed = true } ∷ [];
}

abbrev drop_held : Option MediaSampleX → Traffic → Traffic
drop_held none t = t
drop_held (some s) t = record t {
  held = none;
  finished = t.finished ++ record { sample = s; is_freed = false } ∷ [];
}

-- Whether `BreakConnect` terminates the thread.
abbrev terminates : Os → ℕ → Traffic → Bool
terminates os base t =
    not (failed base || t.pin.h_thread2 == 0) && not (os.wait_reply t.pin.calls == wait_object_0)

-- A thread that ends in time has finished its round before; without a thread, or if the base class
-- refuses, nobody waits.
abbrev break_round : Os → Abi → ℕ → Slot → Traffic → Traffic
break_round os abi base s t =
    let u = write_round abi t.held t in
    if terminates os base t
    then drop_held t.held (record t { pin = (break_connect os base s t.pin).2 })
    else if failed base || t.pin.h_thread2 == 0
    then record t { pin = (break_connect os base s t.pin).2 }
    else record u { pin = (break_connect os base s u.pin).2 }

unfoldable pub traffic_step : Os → Abi → Event → Traffic → Traffic
unfolding receive reset get_next_write_buffer_sample break_connect
traffic_step os abi (receiving m base s) t = record t {
  pin = (receive os m base s t.pin).1;
  received = t.received ++ new_sample m 0 s ∷ [];
}
traffic_step os abi taking t = take_round t.held t
traffic_step os abi writing t = write_round abi t.held t
traffic_step os abi resetting t = record t { pin = (reset t.pin).1 }
traffic_step os abi (connecting b) t = record t { pin = record t.pin { connected = b } }
traffic_step os abi (breaking base s) t = break_round os abi base s t

unfoldable pub traffic_run : Os → Abi → List Event → Traffic → Traffic
traffic_run os abi [] t = t
traffic_run os abi (e ∷ es) t = traffic_run os abi es (traffic_step os abi e t)

-- The samples that the thread holds: none or one.
abbrev pub in_hand : Option MediaSampleX → List MediaSampleX
in_hand none = []
in_hand (some s) = s ∷ []

abbrev pub samples : List Finished → List MediaSampleX
samples [] = []
samples (f ∷ fs) = f.sample ∷ samples fs

-- The buffers of those that were freed.
abbrev pub freed_of : List Finished → List (Option (List ℕ))
freed_of [] = []
freed_of (f ∷ fs) = if f.is_freed then f.sample.buffer ∷ freed_of fs else freed_of fs

pub record IsOrdered (t : Traffic) : Type 0 where
  -- What came in is what the thread is done with, then what it holds, then what waits, in order.
  pub fifo : t.received ≡ samples t.finished ++ (in_hand t.held ++ t.pin.write_buffer)
  -- The buffers that were freed are those of the samples that the thread was not terminated with.
  pub freed_once : freed t.pin.calls ≡ freed_of t.finished

samples-snoc :
    (l : List Finished) (f : Finished) → samples (l ++ f ∷ []) ≡ samples l ++ f.sample ∷ []
samples-snoc [] f = refl
samples-snoc (g ∷ l) f = ap (◌∷◌ g.sample) (samples-snoc l f)

freed_of-freed :
    (l : List Finished) (s : MediaSampleX)
    → freed_of (l ++ record { sample = s; is_freed = true } ∷ []) ≡ freed_of l ++ s.buffer ∷ []
freed_of-freed [] s = refl
freed_of-freed (g ∷ l) s = ground (arith, freed_of-freed l s)

freed_of-dropped :
    (l : List Finished) (s : MediaSampleX)
    → freed_of (l ++ record { sample = s; is_freed = false } ∷ []) ≡ freed_of l
freed_of-dropped [] s = refl
freed_of-dropped (g ∷ l) s = ground (arith, freed_of-dropped l s)

receiving-IsOrdered :
    (os : Os) (abi : Abi) (m : Memory) (base : ℕ) (s : IMediaSample) (t : Traffic)
    → IsOrdered t
    → IsOrdered (traffic_step os abi (receiving m base s) t)
unfolding traffic_step receive new_sample
receiving-IsOrdered os abi m base s t h = ground (
  arith,
  append_assoc (samples t.finished) (in_hand t.held ++ t.pin.write_buffer) (new_sample m 0 s ∷ []),
  append_assoc (in_hand t.held) t.pin.write_buffer (new_sample m 0 s ∷ []),
)

taking-IsOrdered :
    (t : Traffic) (h : Option MediaSampleX) (l : List MediaSampleX)
    → t.held ≡ h
    → t.pin.write_buffer ≡ l
    → IsOrdered t
    → IsOrdered (take_round h t)
unfolding get_next_write_buffer_sample
taking-IsOrdered t (some s) l eh el h = h
taking-IsOrdered t none [] eh el h = ground arith
taking-IsOrdered t none (s ∷ rest) eh el h = ground arith

writing-IsOrdered :
    (abi : Abi) (t : Traffic) (h : Option MediaSampleX)
    → t.held ≡ h
    → IsOrdered t
    → IsOrdered (write_round abi h t)
writing-IsOrdered abi t none e h = h
writing-IsOrdered abi t (some s) e h = ground (
  arith,
  write_sample-rest abi s t.pin,
  samples-snoc t.finished (record { sample = s; is_freed = true }),
  append_assoc (samples t.finished) (s ∷ []) t.pin.write_buffer,
  freed_of-freed t.finished s,
)

dropping-IsOrdered :
    (t : Traffic) (h : Option MediaSampleX) → t.held ≡ h → IsOrdered t → IsOrdered (drop_held h t)
dropping-IsOrdered t none e h = h
dropping-IsOrdered t (some s) e h = ground (
  arith,
  samples-snoc t.finished (record { sample = s; is_freed = false }),
  append_assoc (samples t.finished) (s ∷ []) t.pin.write_buffer,
  freed_of-dropped t.finished s,
)

-- What `BreakConnect` itself leaves alone.
broken-IsOrdered :
    (os : Os) (base : ℕ) (s : Slot) (t : Traffic)
    → IsOrdered t
    → IsOrdered (record t { pin = (break_connect os base s t.pin).2 })
unfolding break_connect
broken-IsOrdered os base s t h = ground arith

if-IsOrdered :
    (b : Bool) (t u : Traffic) → IsOrdered t → IsOrdered u → IsOrdered (if b then t else u)
if-IsOrdered true t u h k = h
if-IsOrdered false t u h k = k

breaking-IsOrdered :
    (os : Os) (abi : Abi) (base : ℕ) (s : Slot) (t : Traffic)
    → IsOrdered t
    → IsOrdered (break_round os abi base s t)
breaking-IsOrdered os abi base s t h =
    let u = write_round abi t.held t in
    let broken : Traffic = record t { pin = (break_connect os base s t.pin).2 } in
    let broken_h = broken-IsOrdered os base s t h in
    if-IsOrdered (terminates os base t) (drop_held t.held broken) _
      (dropping-IsOrdered broken t.held refl broken_h)
      (if-IsOrdered (failed base || t.pin.h_thread2 == 0) broken _ broken_h
        (broken-IsOrdered os base s u (writing-IsOrdered abi t t.held refl h)))

-- One step of either thread.
traffic_step-IsOrdered :
    (os : Os) (abi : Abi) (e : Event) (t : Traffic)
    → IsOrdered t
    → IsOrdered (traffic_step os abi e t)
unfolding traffic_step
traffic_step-IsOrdered os abi (receiving m base s) t h = receiving-IsOrdered os abi m base s t h
traffic_step-IsOrdered os abi taking t h = taking-IsOrdered t t.held t.pin.write_buffer refl refl h
traffic_step-IsOrdered os abi writing t h = writing-IsOrdered abi t t.held refl h
traffic_step-IsOrdered os abi resetting t h = record { fifo = h.fifo; freed_once = h.freed_once }
traffic_step-IsOrdered os abi (connecting b) t h = record {
  fifo = h.fifo;
  freed_once = h.freed_once;
}
traffic_step-IsOrdered os abi (breaking base s) t h = breaking-IsOrdered os abi base s t h

-- In every interleaving of `Receive`, the write thread, `Reset`, pipe connections and `BreakConnect`, from a
-- state where it holds: the samples received are those that the thread is done with, the one in its hands,
-- and those that wait, in order; and every sample that the thread is done with was freed once, in order,
-- but for those in its hands when `BreakConnect` terminated it, which are never freed.
pub traffic_run-IsOrdered :
    (os : Os) (abi : Abi) (es : List Event) (t : Traffic)
    → IsOrdered t
    → IsOrdered (traffic_run os abi es t)
unfolding traffic_run
traffic_run-IsOrdered os abi [] t h = h
traffic_run-IsOrdered os abi (e ∷ es) t h =
    traffic_run-IsOrdered os abi es (traffic_step os abi e t) (traffic_step-IsOrdered os abi e t h)
