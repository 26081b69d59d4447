-- ===== src/Source/Describing.antt =====
-- The pipes that `CreateOutputPins` (src/VirtualStreamSource.cpp) opens and closes.
use virtual_capture_stream.Prelude.{
  ℕ, zero, suc, Bool, ◌≡◌, refl, List, [], ◌∷◌, ◌++◌, Option, none, some, arith, Bool-cases, inl,
  inr, subst, sym, ◌∙◌, true, false, if◌then◌else◌,
}
use virtual_capture_stream.Win.{Os, OsCall}
use virtual_capture_stream.Wire.{Abi}
use virtual_capture_stream.Crt.{Crt}
use virtual_capture_stream.PipeClient.{
  OpenResult, opened, not_opened, open_pipe, pipehost, client_pipe_name,
}
use virtual_capture_stream.OutputPin.Handles.{
  files_opened, closed_or_left, NeverNull, Opening, open_pipe-Opening,
}
use virtual_capture_stream.Source.{
  Source, RawPin, make_pin, read_pins, create_output_pins, delete_pins, log, bufsize, after_loop,
  close_after,
}
use virtual_capture_stream.Source.PinPipes.{
  AllOwn, AllClosed, AllOwn-append, delete_pins-AllClosed, make_pin-Owns,
}

-- The filter's own pipes, its pins, and the pins that are gone.
pub record KeepsPipes (os : Os) (s : Source) : Type 0 where
  pub own : files_opened os s.calls ≡ closed_or_left os s.calls
  pub pins : AllOwn os s.pin_list
  pub gone : AllClosed os s.deleted

-- What the loop that reads the pins does to the filter.
abbrev Reading : Os → Source → Option Source → Type 0
Reading os s none = Unit
Reading os s (some t) =
    (AllOwn os s.pin_list → AllOwn os t.pin_list)
    × (t.deleted ≡ s.deleted)
    × (files_opened os t.calls ≡ files_opened os s.calls)
    × (closed_or_left os t.calls ≡ closed_or_left os s.calls)

Reading-if :
    (os : Os) (s : Source) (b : Bool) (x y : Option Source)
    → Reading os s x
    → Reading os s y
    → Reading os s (if b then x else y)
Reading-if os s true x y h k = h
Reading-if os s false x y h k = k

Reading-trans :
    (os : Os) (s u : Source) (x : Option Source)
    → Reading os s (some u)
    → Reading os u x
    → Reading os s x
Reading-trans os s u none h k = tt
Reading-trans os s u (some t) h k = (λ own. k.0 (h.0 own), k.1 ∙ h.1, k.2 ∙ h.2, k.3 ∙ h.3)

read_pins-Reading :
    (os : Os) (crt : Crt) (abi : Abi) (raw : RawPin) (h fuel : ℕ) (s : Source)
    → Reading os s (read_pins os crt abi raw h fuel s)
unfolding read_pins
read_pins-Reading os crt abi raw h zero s = tt
read_pins-Reading os crt abi raw h (suc fuel) s =
    let t = log (OsCall.read_file h bufsize) s in
    let r = os.read_reply t.calls in
    let pin = make_pin crt abi raw r.bytes in
    let u : Source = record t { pin_list = t.pin_list ++ pin ∷ [] } in
    let more = read_pins os crt abi raw h fuel u in
    let grown : Reading os s (some u) = (
      λ own. AllOwn-append os s.pin_list (pin ∷ []) own (make_pin-Owns os crt abi raw r.bytes, tt),
      refl,
      refl,
      refl,
    ) in
    Reading-if os s _ (some t) _ (λ own. own, refl, refl, refl)
      (Reading-if os s r.success more (some u)
        (Reading-trans os s u more grown (read_pins-Reading os crt abi raw h fuel u)) grown)

abbrev Kept : Os → Option (ℕ × Source) → Type 0
Kept os none = Unit
Kept os (some (hr, t)) = KeepsPipes os t

-- The handle `g` is open, and then closed behind the last pin.
close_after-Kept :
    (os : Os) (g : ℕ) (s : Source) (x : Option Source)
    → files_opened os s.calls ≡ g ∷ closed_or_left os s.calls
    → AllOwn os s.pin_list
    → AllClosed os s.deleted
    → Reading os s x
    → Kept os (close_after g x)
close_after-Kept os g s none holds own gone r = tt
close_after-Kept os g s (some t) holds own gone r = record {
  own = ground (arith, holds, r.2, r.3);
  pins = r.0 own;
  gone = subst (AllClosed os) (sym r.1) gone;
}

after_loop-Kept :
    (os : Os) (crt : Crt) (abi : Abi) (raw : RawPin) (fuel : ℕ)
    (x : Option (OpenResult × List OsCall)) (s : Source)
    → Opening os s.calls x
    → KeepsPipes os s
    → Kept os (after_loop os crt abi raw fuel x s)
after_loop-Kept os crt abi raw fuel none s o h = tt
after_loop-Kept os crt abi raw fuel (some (not_opened, cs)) s o h = record {
  own = ground (arith, h.own, o);
  pins = h.pins;
  gone = h.gone;
}
after_loop-Kept os crt abi raw fuel (some (opened g, cs)) s o h =
    let t : Source = record s { calls = OsCall.set_named_pipe_handle_state g ∷ cs } in
    elim (Bool-cases (os.set_state_reply cs)) [
      | inl taken ↦ rw taken (
          close_after-Kept os g t (read_pins os crt abi raw g fuel t)
            (ground (arith, taken, h.own, o)) h.pins h.gone
            (read_pins-Reading os crt abi raw g fuel t))
      | inr refused ↦
          let left : KeepsPipes os t = record {
            own = ground (arith, refused, h.own, o);
            pins = h.pins;
            gone = h.gone;
          } in
          rw refused left
    ]

pub create_output_pins-KeepsPipes :
    (os : Os) (crt : Crt) (abi : Abi) (raw : RawPin) (fuel hr : ℕ) (name : List ℕ) (s t : Source)
    → NeverNull os
    → create_output_pins os crt abi raw fuel name s ≡ some (hr, t)
    → KeepsPipes os s
    → KeepsPipes os t
unfolding create_output_pins
create_output_pins-KeepsPipes os crt abi raw fuel hr name s t never e h =
    let emptied : Source = record s { pin_list = []; deleted = delete_pins s.pin_list s.deleted } in
    let empty : KeepsPipes os emptied = record {
      own = h.own;
      pins = tt;
      gone = delete_pins-AllClosed os s.pin_list s.deleted h.pins h.gone;
    } in
    let pipe = client_pipe_name pipehost name in
    subst (Kept os) e (
      after_loop-Kept os crt abi raw fuel (open_pipe os pipe 20000 fuel s.calls) emptied
        (open_pipe-Opening os pipe 20000 fuel s.calls never) empty)
