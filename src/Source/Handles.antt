-- ===== src/Source/Handles.antt =====
-- The pipes that a source filter and its pins open over the filter's life (src/VirtualStreamSource.cpp and
-- .h).
use virtual_capture_stream.Prelude.{ℕ, ◌≡◌, refl, List, [], ◌∷◌, ◌++◌, some, subst}
use virtual_capture_stream.Win.{Os}
use virtual_capture_stream.Wire.{Abi}
use virtual_capture_stream.Crt.{Crt}
use virtual_capture_stream.OutputPin.{OutputPin}
use virtual_capture_stream.OutputPin.Handles.{
  files_opened, closed_or_left, NeverNull, PinStep, PinStep-Owns,
}
use virtual_capture_stream.Sink.{FilterState}
use virtual_capture_stream.Source.{Source, RawPin, create_output_pins, stop, pause, run}
use virtual_capture_stream.Source.Life.{bare_source, delete_source}
use virtual_capture_stream.Source.PinPipes.{
  AllOwn, AllClosed, AllOwn-replaced, AllOwn-stop_pins, AllOwn-reset_pins, delete_pins-AllClosed,
}
use virtual_capture_stream.Source.Describing.{KeepsPipes, create_output_pins-KeepsPipes}

-- What is called on the filter and on its pins: `CreateOutputPins`, which the constructor and
-- `SetStreamName` call, when it returns; the states; and what is called on one pin of the list.
pub data SourceStep (os : Os) (crt : Crt) (abi : Abi) (raw : RawPin) (s : Source)
    : Source → Type 0 where
  naming :
      (fuel hr : ℕ) (name : List ℕ) (t : Source)
      → create_output_pins os crt abi raw fuel name s ≡ some (hr, t)
      → SourceStep os crt abi raw s t
  stopping : (base : ℕ × FilterState) → SourceStep os crt abi raw s (stop base s).1
  pausing : (base : ℕ × FilterState) → SourceStep os crt abi raw s (pause base s).1
  running_at : (base : ℕ × FilterState) → SourceStep os crt abi raw s (run base s).1
  on_pin :
      (l m : List OutputPin) (p q : OutputPin)
      → s.pin_list ≡ l ++ p ∷ m
      → PinStep os abi p q
      → SourceStep os crt abi raw s (record s { pin_list = l ++ q ∷ m })

pub data SourceRun (os : Os) (crt : Crt) (abi : Abi) (raw : RawPin) (s : Source)
    : Source → Type 0 where
  here : SourceRun os crt abi raw s s
  next :
      {t u : Source}
      → SourceRun os crt abi raw s t
      → SourceStep os crt abi raw t u
      → SourceRun os crt abi raw s u

SourceStep-KeepsPipes :
    (os : Os) (crt : Crt) (abi : Abi) (raw : RawPin) (s t : Source)
    → NeverNull os
    → SourceStep os crt abi raw s t
    → KeepsPipes os s
    → KeepsPipes os t
unfolding stop pause run
SourceStep-KeepsPipes os crt abi raw s _ never (naming fuel hr name t e) h =
    create_output_pins-KeepsPipes os crt abi raw fuel hr name s t never e h
SourceStep-KeepsPipes os crt abi raw s _ never (stopping base) h = record {
  own = h.own;
  pins = AllOwn-stop_pins os s.pin_list h.pins;
  gone = h.gone;
}
SourceStep-KeepsPipes os crt abi raw s _ never (pausing base) h = record {
  own = h.own;
  pins = h.pins;
  gone = h.gone;
}
SourceStep-KeepsPipes os crt abi raw s _ never (running_at base) h = record {
  own = h.own;
  pins = AllOwn-reset_pins os s.pin_list h.pins;
  gone = h.gone;
}
SourceStep-KeepsPipes os crt abi raw s _ never (on_pin l m p q e step) h = record {
  own = h.own;
  pins =
      AllOwn-replaced os l m p q (PinStep-Owns os abi p q never step) (subst (AllOwn os) e h.pins);
  gone = h.gone;
}

SourceRun-KeepsPipes :
    (os : Os) (crt : Crt) (abi : Abi) (raw : RawPin) (s : Source) {t : Source}
    → NeverNull os
    → KeepsPipes os s
    → SourceRun os crt abi raw s t
    → KeepsPipes os t
SourceRun-KeepsPipes os crt abi raw s never h here = h
SourceRun-KeepsPipes os crt abi raw s never h (next {t} {u} r step) =
    SourceStep-KeepsPipes os crt abi raw t u never step
      (SourceRun-KeepsPipes os crt abi raw s never h r)

-- Whatever is called on a filter and its pins from the filter's construction to its destruction: each
-- handle of a pipe that a pin was given has been closed once, in the order in which they were opened,
-- when the pin is gone; and so has each handle that the filter itself opened for a description, but for
-- those whose pipe refused the message mode, which are left open. `CreateFile` never gives out the null
-- handle.
pub delete_source-SourceRun :
    (os : Os) (crt : Crt) (abi : Abi) (raw : RawPin) (raw_ref : ℕ) (s : Source)
    → NeverNull os
    → SourceRun os crt abi raw (bare_source raw_ref) s
    → let gone = delete_source s in
      (gone.pin_list ≡ [])
      × AllClosed os gone.deleted
      × (files_opened os gone.calls ≡ closed_or_left os gone.calls)
unfolding delete_source
delete_source-SourceRun os crt abi raw raw_ref s never r =
    let h =
      SourceRun-KeepsPipes os crt abi raw (bare_source raw_ref) never
        (record { own = refl; pins = tt; gone = tt }) r in
    (refl, delete_pins-AllClosed os s.pin_list s.deleted h.pins h.gone, h.own)
