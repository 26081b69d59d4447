-- ===== src/Source/PinPipes.antt =====
-- The pipes of a source filter's pins, as the filter stops, runs, makes and destroys them.
use virtual_capture_stream.Prelude.{ℕ, ◌≡◌, refl, List, [], ◌∷◌, ◌++◌, arith}
use virtual_capture_stream.Win.{Os}
use virtual_capture_stream.Wire.{Abi}
use virtual_capture_stream.Crt.{Crt}
use virtual_capture_stream.OutputPin.{OutputPin, new_output_pin, disconnect_pipe}
use virtual_capture_stream.OutputPin
use virtual_capture_stream.OutputPin.Types.{delete_output_pin}
use virtual_capture_stream.OutputPin.Handles.{
  files_opened, files_closed, Owns, disconnect_pipe-Owns,
}
use virtual_capture_stream.Source.{RawPin, make_pin, delete_pins, stop_pins, reset_pins}

abbrev pub AllOwn : Os → List OutputPin → Type 0
AllOwn os [] = Unit
AllOwn os (p ∷ ps) = Owns os p × AllOwn os ps

-- The pins that are gone have closed each handle that they were given once.
abbrev pub AllClosed : Os → List OutputPin → Type 0
AllClosed os [] = Unit
AllClosed os (p ∷ ps) = (files_opened os p.calls ≡ files_closed p.calls) × AllClosed os ps

pub AllOwn-append :
    (os : Os) (l m : List OutputPin) → AllOwn os l → AllOwn os m → AllOwn os (l ++ m)
AllOwn-append os [] m h k = k
AllOwn-append os (p ∷ l) m h k = (h.0, AllOwn-append os l m h.1 k)

-- One pin among the others.
pub AllOwn-replaced :
    (os : Os) (l m : List OutputPin) (p q : OutputPin)
    → (Owns os p → Owns os q)
    → AllOwn os (l ++ p ∷ m)
    → AllOwn os (l ++ q ∷ m)
AllOwn-replaced os [] m p q f h = (f h.0, h.1)
AllOwn-replaced os (x ∷ l) m p q f h = (h.0, AllOwn-replaced os l m p q f h.1)

pub AllOwn-stop_pins : (os : Os) (l : List OutputPin) → AllOwn os l → AllOwn os (stop_pins l)
unfolding OutputPin.stop
AllOwn-stop_pins os [] h = tt
AllOwn-stop_pins os (p ∷ ps) h = (h.0, AllOwn-stop_pins os ps h.1)

pub AllOwn-reset_pins : (os : Os) (l : List OutputPin) → AllOwn os l → AllOwn os (reset_pins l)
unfolding OutputPin.reset
AllOwn-reset_pins os [] h = tt
AllOwn-reset_pins os (p ∷ ps) h = (h.0, AllOwn-reset_pins os ps h.1)

delete_output_pin-closed :
    (os : Os) (p : OutputPin)
    → Owns os p
    → files_opened os (delete_output_pin p).calls ≡ files_closed (delete_output_pin p).calls
unfolding delete_output_pin
delete_output_pin-closed os p h = ground (arith, disconnect_pipe-Owns os p h)

pub delete_pins-AllClosed :
    (os : Os) (l d : List OutputPin) → AllOwn os l → AllClosed os d → AllClosed os (delete_pins l d)
delete_pins-AllClosed os [] d h k = k
delete_pins-AllClosed os (p ∷ ps) d h k =
    delete_pins-AllClosed os ps (delete_output_pin p ∷ d) h.1 (delete_output_pin-closed os p h.0, k)

pub make_pin-Owns :
    (os : Os) (crt : Crt) (abi : Abi) (raw : RawPin) (msg : List ℕ)
    → Owns os (make_pin crt abi raw msg)
unfolding make_pin new_output_pin
make_pin-Owns os crt abi raw msg = refl
