-- ===== src/Sink/PinPipes.antt =====
-- The pipes of the pins in a filter's list: what each operation on the list does to their owners
-- (src/VirtualStreamSink.cpp).
use virtual_capture_stream.Prelude.{
  ℕ, zero, suc, List, [], ◌∷◌, ◌++◌, ◌≡◌, get_elem?, ◌==◌, if◌then◌else◌, arith, Option-cases,
  Bool-cases, inl, inr, some, Bool, subst,
}
use virtual_capture_stream.Win.{Os}
use virtual_capture_stream.Crt.{Crt}
use virtual_capture_stream.InputPin.{InputPin, reset, new_input_pin}
use virtual_capture_stream.InputPin
use virtual_capture_stream.InputPin.Handles.{
  pipes_made, pipes_ended, PinOp, pin_step, NeverNull, pin_step-IsOwner, delete-ends,
}
use virtual_capture_stream.Sink.{
  Sink, SinkPin, NewPin, remove_pin, remove_pins, add_input_pin, make_input_pin, delete_pins,
  destroyed, pin_at, without, reset_pins,
}
use virtual_capture_stream.Sink.Pins.{mark}

abbrev pub at_pin : ℕ → (InputPin → InputPin) → List SinkPin → List SinkPin
at_pin a f [] = []
at_pin a f (x ∷ xs) = if x.id == a then record x { pin = f x.pin } ∷ xs else x ∷ at_pin a f xs

-- Each pin that is there has one pipe open while it has a handle.
abbrev pub AllOwn : List SinkPin → Type 0
AllOwn [] = Unit
AllOwn (x ∷ xs) = InputPin.Handles.IsOwner x.pin × AllOwn xs

-- Each pin that is gone has disconnected and closed every pipe that it made.
abbrev pub AllEnded : List SinkPin → Type 0
AllEnded [] = Unit
AllEnded (x ∷ xs) = (pipes_made x.pin.calls ≡ pipes_ended x.pin.calls) × AllEnded xs

AllOwn-append :
    (l : List SinkPin) (x : SinkPin)
    → AllOwn l
    → InputPin.Handles.IsOwner x.pin
    → AllOwn (l ++ x ∷ [])
AllOwn-append [] x h o = (o, tt)
AllOwn-append (y ∷ l) x h o = (h.0, AllOwn-append l x h.1 o)

pub AllOwn-mark : (a : ℕ) (b : Bool) (l : List SinkPin) → AllOwn l → AllOwn (mark a b l)
AllOwn-mark a b [] h = tt
AllOwn-mark a b (x ∷ xs) h = ground (arith, AllOwn-mark a b xs h.1)

pub AllOwn-reset_pins : (l : List SinkPin) → AllOwn l → AllOwn (reset_pins l)
unfolding reset
AllOwn-reset_pins [] h = tt
AllOwn-reset_pins (x ∷ xs) h = ground (arith, AllOwn-reset_pins xs h.1)

pub AllOwn-at_pin :
    (os : Os) (op : PinOp) (a : ℕ) (l : List SinkPin)
    → NeverNull os
    → AllOwn l
    → AllOwn (at_pin a (pin_step os op) l)
AllOwn-at_pin os op a [] n h = tt
AllOwn-at_pin os op a (x ∷ xs) n h = elim (Bool-cases (x.id == a)) [
  | inl here ↦
      let moved : AllOwn (record x { pin = pin_step os op x.pin } ∷ xs) =
        (pin_step-IsOwner os n op x.pin h.0, h.1) in
      rw here moved
  | inr there ↦
      let kept : AllOwn (x ∷ at_pin a (pin_step os op) xs) =
        (h.0, AllOwn-at_pin os op a xs n h.1) in
      rw there kept
]

AllOwn-without : (a : ℕ) (l : List SinkPin) → AllOwn l → AllOwn (without a l)
AllOwn-without a [] h = tt
AllOwn-without a (x ∷ xs) h = ground (arith, AllOwn-without a xs h.1)

AllOwn-pin_at :
    (a : ℕ) (l : List SinkPin) (x : SinkPin)
    → AllOwn l
    → pin_at a l ≡ some x
    → InputPin.Handles.IsOwner x.pin
AllOwn-pin_at a [] x h e = absurd (ground arith)
AllOwn-pin_at a (y ∷ l) x h e = elim (Bool-cases (y.id == a)) [
  | inl here ↦
      let same : y ≡ x = ground arith in
      subst (λ (z : SinkPin). InputPin.Handles.IsOwner z.pin) same h.0
  | inr there ↦ AllOwn-pin_at a l x h.1 (ground arith)
]

-- Construction, removal and destruction of pins.
pub add_input_pin-AllOwn :
    (crt : Crt) (n : NewPin) (s : Sink)
    → AllOwn s.pin_list
    → AllOwn (add_input_pin crt n s).1.pin_list
unfolding add_input_pin make_input_pin new_input_pin
add_input_pin-AllOwn crt n s h =
    ground (arith, AllOwn-append s.pin_list (make_input_pin crt n s) h (omega arith))

pub delete_pins-AllEnded :
    (os : Os) (l d : List SinkPin) → AllOwn l → AllEnded d → AllEnded (delete_pins os l d)
delete_pins-AllEnded os [] d h e = e
delete_pins-AllEnded os (x ∷ xs) d h e =
    delete_pins-AllEnded os xs (destroyed os x ∷ d) h.1 (delete-ends os x.pin h.0, e)

remove_pin-AllOwn :
    (os : Os) (a : ℕ) (s : Sink)
    → AllOwn s.pin_list
    → AllEnded s.deleted
    → AllOwn (remove_pin os a s).pin_list × AllEnded (remove_pin os a s).deleted
unfolding remove_pin
remove_pin-AllOwn os a s h e = elim (Option-cases (pin_at a s.pin_list)) [
  | inl missing ↦ rw (missing, remove_pin) (h, e)
  | inr (x, found) ↦
      rw (found, remove_pin)
        (
          AllOwn-without a s.pin_list h,
          (delete-ends os x.pin (AllOwn-pin_at a s.pin_list x h found), e),
        )
]

pub remove_pins-AllOwn :
    (os : Os) (fuel i : ℕ) (s : Sink)
    → AllOwn s.pin_list
    → AllEnded s.deleted
    → AllOwn (remove_pins os fuel i s).pin_list × AllEnded (remove_pins os fuel i s).deleted
unfolding remove_pins
remove_pins-AllOwn os zero i s h e = (h, e)
remove_pins-AllOwn os (suc fuel) i s h e = elim (Option-cases (get_elem? s.pin_list i)) [
  | inl past ↦ rw (past, remove_pins) (h, e)
  | inr (x, found) ↦
      let removed = remove_pin-AllOwn os x.id s h e in
      rw (found, remove_pins)
        (remove_pins-AllOwn os fuel (suc i) (remove_pin os x.id s) removed.0 removed.1)
]
