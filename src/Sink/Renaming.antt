-- ===== src/Sink/Renaming.antt =====
-- `SetStreamName` of src/VirtualStreamSink.h: which of the old pins it destroys.
use virtual_capture_stream.Prelude.{
  list_laws, ℕ, zero, suc, ◌≤◌, List, [], ◌∷◌, ◌++◌, append-nil, none, some, length, length-append,
  get_elem?, ◌≡◌, ◌≢◌, refl, sym, ◌∙◌, ap, false, ◌==◌, if◌then◌else◌, arith,
}
use virtual_capture_stream.Sink.{
  Sink, SinkPin, NewPin, without, pin_at, destroyed, remove_pin, remove_pins, initialize_pipe,
  stop_server, set_stream_name, add_input_pin, make_input_pin,
}
use virtual_capture_stream.Win.{Os, failed}
use virtual_capture_stream.Crt.{Crt}

abbrev pub NotIn : ℕ → List SinkPin → Type 0
NotIn a [] = Unit
NotIn a (x ∷ xs) = (x.id ≢ a) × NotIn a xs

-- No two pins of the list have one address.
abbrev pub Distinct : List SinkPin → Type 0
Distinct [] = Unit
Distinct (x ∷ xs) = NotIn x.id xs × Distinct xs

-- The pins at the odd places, counted from 0.
abbrev pub odds : List SinkPin → List SinkPin
odds [] = []
odds (x ∷ []) = []
odds (x ∷ y ∷ r) = y ∷ odds r

-- The pins at the even places, destroyed, the last one first, in front of `d`.
abbrev pub evens_onto : Os → List SinkPin → List SinkPin → List SinkPin
evens_onto os [] d = d
evens_onto os (x ∷ []) d = destroyed os x ∷ d
evens_onto os (x ∷ y ∷ r) d = evens_onto os r (destroyed os x ∷ d)

NotIn-middle :
    (c : ℕ) (k : List SinkPin) (a : SinkPin) (t : List SinkPin)
    → NotIn c (k ++ a ∷ t)
    → (a.id ≢ c) × NotIn c (k ++ t)
NotIn-middle c [] a t h = (h.0, h.1)
NotIn-middle c (x ∷ k) a t h = let rest = NotIn-middle c k a t h.1 in (rest.0, (h.0, rest.1))

Distinct-middle :
    (k : List SinkPin) (a : SinkPin) (t : List SinkPin)
    → Distinct (k ++ a ∷ t)
    → NotIn a.id k × Distinct (k ++ t)
Distinct-middle [] a t h = (tt, h.1)
Distinct-middle (x ∷ k) a t h =
    let rest = Distinct-middle k a t h.1 in
    let front = NotIn-middle x.id k a t h.0 in (((λ e. front.0 (sym e)), rest.0), (front.1, rest.1))

pin_at-middle :
    (k : List SinkPin) (a : SinkPin) (t : List SinkPin)
    → NotIn a.id k
    → pin_at a.id (k ++ a ∷ t) ≡ some a
pin_at-middle [] a t h = ground arith
pin_at-middle (x ∷ k) a t h = ground (arith, pin_at-middle k a t h.1)

without-middle :
    (k : List SinkPin) (a : SinkPin) (t : List SinkPin)
    → NotIn a.id k
    → without a.id (k ++ a ∷ t) ≡ k ++ t
without-middle [] a t h = ground arith
without-middle (x ∷ k) a t h = ground (arith, without-middle k a t h.1)

get_elem?-middle {ℓ} :
    {A : Type ℓ} (k : List A) (a : A) (t : List A) → get_elem? (k ++ a ∷ t) (length k) ≡ some a
get_elem?-middle [] a t = refl
get_elem?-middle (x ∷ k) a t = get_elem?-middle k a t

get_elem?-past {ℓ} : {A : Type ℓ} (k : List A) (i : ℕ) → length k ≤ i → get_elem? k i ≡ none
get_elem?-past [] i h = refl
get_elem?-past (x ∷ k) zero h = absurd (omega arith)
get_elem?-past (x ∷ k) (suc i) h = get_elem?-past k i (omega arith)

-- The loop stops at the end of the list.
remove_pins-past :
    (os : Os) (fuel i : ℕ) (s : Sink) → length s.pin_list ≤ i → remove_pins os fuel i s ≡ s
unfolding remove_pins
remove_pins-past os zero i s h = refl
remove_pins-past os (suc fuel) i s h = rw (get_elem?-past s.pin_list i h, remove_pins)

-- A round of the loop in the middle of the list.
remove_pins-round :
    (os : Os) (fuel : ℕ) (k : List SinkPin) (a : SinkPin) (t : List SinkPin) (s : Sink)
    → s.pin_list ≡ k ++ a ∷ t
    → Distinct (k ++ a ∷ t)
    → remove_pins os (suc fuel) (length k) s
      ≡ remove_pins os fuel
          (suc (length k))
          (record s { pin_list = k ++ t; deleted = destroyed os a ∷ s.deleted })
unfolding remove_pins remove_pin
remove_pins-round os fuel k a t s e d =
    rw (found, remove_pins) (ap (remove_pins os fuel (suc (length k))) removed)
  where
    found : get_elem? s.pin_list (length k) ≡ some a
    found = rw e (get_elem?-middle k a t)

    apart : NotIn a.id k
    apart = (Distinct-middle k a t d).0

    there : pin_at a.id s.pin_list ≡ some a
    there = rw e (pin_at-middle k a t apart)

    left : without a.id s.pin_list ≡ k ++ t
    left = rw e (without-middle k a t apart)

    removed :
        remove_pin os a.id s ≡ record s { pin_list = k ++ t; deleted = destroyed os a ∷ s.deleted }
    removed = rw (there, left, remove_pin) refl

remove_pins-from :
    (os : Os) (rest : List SinkPin) (fuel i : ℕ) (k : List SinkPin) (s : Sink)
    → s.pin_list ≡ k ++ rest
    → i ≡ length k
    → length rest ≤ fuel
    → Distinct (k ++ rest)
    → ((remove_pins os fuel i s).pin_list ≡ k ++ odds rest)
      × ((remove_pins os fuel i s).deleted ≡ evens_onto os rest s.deleted)
remove_pins-from os [] fuel i k s e ei le d =
    rw (remove_pins-past os fuel i s (omega (arith, ap length e, ap length (append-nil k))))
      (e, refl)
remove_pins-from os (a ∷ rest) zero i k s e ei le d = absurd (omega arith)
remove_pins-from os (a ∷ []) (suc fuel) i k s e ei le d =
    rw (ei, remove_pins-round os fuel k a [] s e d)
      (rw
        (remove_pins-past os fuel (suc (length k))
          (record s { pin_list = k ++ []; deleted = destroyed os a ∷ s.deleted })
          (omega (arith, ap length (append-nil k))))
        (refl, refl))
remove_pins-from os (a ∷ b ∷ rest) (suc fuel) i k s e ei le d =
    rw (ei, remove_pins-round os fuel k a (b ∷ rest) s e d)
      (let later =
          remove_pins-from os rest fuel (suc (length k)) (k ++ b ∷ [])
            (record s { pin_list = k ++ b ∷ rest; deleted = destroyed os a ∷ s.deleted })
            (simp list_laws) (omega (arith, length-append k (b ∷ []))) (omega arith)
            (simp list_laws (Distinct-middle k a (b ∷ rest) d).1) in
        (later.0 ∙ simp list_laws, later.1))

-- The loop that is to remove every pin of a list without repetitions removes and destroys those at the
-- even places alone: the others are still in the list when it ends.
remove_pins-odds :
    (os : Os) (s : Sink)
    → Distinct s.pin_list
    → let t = remove_pins os (length s.pin_list) 0 s in
      (t.pin_list ≡ odds s.pin_list) × (t.deleted ≡ evens_onto os s.pin_list s.deleted)
remove_pins-odds os s d =
    remove_pins-from os s.pin_list (length s.pin_list) 0 [] s refl refl (omega arith) d

initialize_pipe-pins :
    (os : Os) (s : Sink)
    → let t = if s.h_pipe == 0 then initialize_pipe os s else s in
      (t.pin_list ≡ s.pin_list) × (t.deleted ≡ s.deleted)
unfolding initialize_pipe stop_server
initialize_pipe-pins os s = ground arith

-- `SetStreamName` destroys the pins at the even places of a list without repetitions alone. Those at the
-- odd places are dropped without their destructors: they are neither among the pins that the filter has
-- then, which is the single new one, nor among those that were destroyed. The new pin is constructed
-- without an error.
pub set_stream_name-odds :
    (os : Os) (crt : Crt) (n : NewPin) (name : List ℕ) (s : Sink)
    → failed n.hr ≡ false
    → Distinct s.pin_list
    → let renamed = record s { stream_name = name } in
      let t = (set_stream_name os crt n name s).1 in
      ((remove_pins os (length s.pin_list) 0 renamed).pin_list ≡ odds s.pin_list)
      × (t.deleted ≡ evens_onto os s.pin_list s.deleted)
      × (t.pin_list
          ≡ make_input_pin crt n
              (record (remove_pins os (length s.pin_list) 0 renamed) { pin_list = [] })
            ∷ [])
unfolding set_stream_name add_input_pin
set_stream_name-odds os crt n name s ok d =
    let renamed : Sink = record s { stream_name = name } in
    let (left, gone) = remove_pins-odds os renamed d in
    let emptied : Sink = record (remove_pins os (length s.pin_list) 0 renamed) { pin_list = [] } in
    let kept = initialize_pipe-pins os (add_input_pin crt n emptied).1 in
    (left, kept.1 ∙ ground (arith, ok, gone), kept.0 ∙ ground (arith, ok))
