-- ===== src/Sink/Pins.antt =====
-- The sink filter's pins as the filter graph connects, disconnects and renames
-- (src/VirtualStreamSink.cpp).
use virtual_capture_stream.Prelude.{
  ℕ, suc, ◌<◌, Bool, true, false, List, [], ◌∷◌, ◌++◌, ◌≡◌, ◌≢◌, refl, length, ◌==◌, if◌then◌else◌,
  arith, Bool-cases, inl, inr,
}
use virtual_capture_stream.Win.{Os, failed}
use virtual_capture_stream.Crt.{Crt}
use virtual_capture_stream.Sink.{
  Sink, SinkPin, NewPin, any_free, make_input_pin, add_input_pin, complete_connect, set_stream_name,
  remove_pins, initialize_pipe, new_sink,
}
use virtual_capture_stream.Sink.Renaming.{NotIn, Distinct}

-- Whether the pin at this address is connected.
abbrev pub mark : ℕ → Bool → List SinkPin → List SinkPin
mark a b [] = []
mark a b (x ∷ xs) = (if x.id == a then record x { is_connected = b } else x) ∷ mark a b xs

-- What the graph does. The base class marks a pin as connected before it calls `CompleteConnect`, and
-- takes the mark back if that fails.
pub data GraphEvent : Type 0 where
  connecting : ℕ → ℕ → NewPin → GraphEvent
  disconnecting : ℕ → GraphEvent
  renaming : List ℕ → NewPin → GraphEvent

abbrev keep_if_connected : Sink → ℕ × Sink → Sink
keep_if_connected s (hr, t) = if failed hr then s else t

unfoldable pub graph_step : Os → Crt → GraphEvent → Sink → Sink
unfolding complete_connect
graph_step os crt (connecting a base n) s =
    keep_if_connected s
      (complete_connect crt n base (record s { pin_list = mark a true s.pin_list }))
graph_step os crt (disconnecting a) s = record s { pin_list = mark a false s.pin_list }
graph_step os crt (renaming name n) s = (set_stream_name os crt n name s).1

unfoldable pub graph_run : Os → Crt → List GraphEvent → Sink → Sink
graph_run os crt [] s = s
graph_run os crt (e ∷ es) s = graph_run os crt es (graph_step os crt e s)

-- Every pin that the events construct is constructed without an error.
abbrev pub Constructs : List GraphEvent → Type 0
Constructs [] = Unit
Constructs (connecting a base n ∷ es) = (failed n.hr ≡ false) × Constructs es
Constructs (disconnecting a ∷ es) = Constructs es
Constructs (renaming name n ∷ es) = (failed n.hr ≡ false) × Constructs es

abbrev pub AllBelow : ℕ → List SinkPin → Type 0
AllBelow n [] = Unit
AllBelow n (x ∷ xs) = (x.id < n) × AllBelow n xs

-- There is a pin to connect, and no two pins share an address.
pub record IsReady (s : Sink) : Type 0 where
  pub free : any_free s.pin_list ≡ true
  pub below : AllBelow s.next_id s.pin_list
  pub distinct : Distinct s.pin_list

mark-AllBelow :
    (a : ℕ) (b : Bool) (n : ℕ) (l : List SinkPin) → AllBelow n l → AllBelow n (mark a b l)
mark-AllBelow a b n [] h = tt
mark-AllBelow a b n (x ∷ xs) h = ground (arith, mark-AllBelow a b n xs h.1)

mark-NotIn : (a : ℕ) (b : Bool) (c : ℕ) (l : List SinkPin) → NotIn c l → NotIn c (mark a b l)
mark-NotIn a b c [] h = tt
mark-NotIn a b c (x ∷ xs) h = ground (arith, mark-NotIn a b c xs h.1)

mark-Distinct : (a : ℕ) (b : Bool) (l : List SinkPin) → Distinct l → Distinct (mark a b l)
mark-Distinct a b [] h = tt
mark-Distinct a b (x ∷ xs) h = ground (arith, mark-NotIn a b x.id xs h.0, mark-Distinct a b xs h.1)

mark-free : (a : ℕ) (l : List SinkPin) → any_free l ≡ true → any_free (mark a false l) ≡ true
mark-free a [] h = h
mark-free a (x ∷ xs) h = ground (arith, mark-free a xs)

any_free-append :
    (l : List SinkPin) (x : SinkPin) → x.is_connected ≡ false → any_free (l ++ x ∷ []) ≡ true
any_free-append [] x h = ground arith
any_free-append (y ∷ l) x h = ground (arith, any_free-append l x h)

AllBelow-append :
    (n : ℕ) (l : List SinkPin) (x : SinkPin)
    → AllBelow n l
    → x.id ≡ n
    → AllBelow (suc n) (l ++ x ∷ [])
AllBelow-append n [] x h e = (omega arith, tt)
AllBelow-append n (y ∷ l) x h e = (omega arith, AllBelow-append n l x h.1 e)

NotIn-append :
    (c : ℕ) (l : List SinkPin) (x : SinkPin) → NotIn c l → x.id ≢ c → NotIn c (l ++ x ∷ [])
NotIn-append c [] x h n = (n, tt)
NotIn-append c (y ∷ l) x h n = (h.0, NotIn-append c l x h.1 n)

Distinct-append :
    (n : ℕ) (l : List SinkPin) (x : SinkPin)
    → AllBelow n l
    → x.id ≡ n
    → Distinct l
    → Distinct (l ++ x ∷ [])
Distinct-append n [] x h e d = (tt, tt)
Distinct-append n (y ∷ l) x h e d =
    (NotIn-append y.id l x d.0 (omega arith), Distinct-append n l x h.1 e d.1)

add_input_pin-IsReady :
    (crt : Crt) (n : NewPin) (s : Sink)
    → failed n.hr ≡ false
    → AllBelow s.next_id s.pin_list
    → Distinct s.pin_list
    → IsReady (add_input_pin crt n s).1
unfolding add_input_pin make_input_pin
add_input_pin-IsReady crt n s ok below distinct = elim (Bool-cases (any_free s.pin_list)) [
  | inl there ↦
      rw (there, add_input_pin) (record { free = there; below = below; distinct = distinct })
  | inr needed ↦
      rw (needed, ok, add_input_pin)
        (record {
          free = any_free-append s.pin_list (make_input_pin crt n s) refl;
          below = AllBelow-append s.next_id s.pin_list (make_input_pin crt n s) below refl;
          distinct =
              Distinct-append s.next_id s.pin_list (make_input_pin crt n s) below refl distinct;
        })
]

connecting-IsReady :
    (os : Os) (crt : Crt) (a base : ℕ) (n : NewPin) (s : Sink)
    → failed n.hr ≡ false
    → IsReady s
    → IsReady (graph_step os crt (connecting a base n) s)
unfolding graph_step
connecting-IsReady os crt a base n s ok h = elim (Bool-cases (failed base)) [
  | inl refused ↦ rw (refused, graph_step) (rw refused h)
  | inr taken ↦
      rw (taken, graph_step)
        (add_input_pin-IsReady crt n (record s { pin_list = mark a true s.pin_list }) ok
          (mark-AllBelow a true s.next_id s.pin_list h.below)
          (mark-Distinct a true s.pin_list h.distinct))
]

disconnecting-IsReady :
    (a : ℕ) (s : Sink) → IsReady s → IsReady (record s { pin_list = mark a false s.pin_list })
disconnecting-IsReady a s h = record {
  free = mark-free a s.pin_list h.free;
  below = mark-AllBelow a false s.next_id s.pin_list h.below;
  distinct = mark-Distinct a false s.pin_list h.distinct;
}

-- The pipe and its thread are made without a look at the pins.
initialize_pipe-IsReady : (os : Os) (s : Sink) → IsReady s → IsReady (initialize_pipe os s)
unfolding initialize_pipe
initialize_pipe-IsReady os s h = ground arith

set_stream_name-IsReady :
    (os : Os) (crt : Crt) (name : List ℕ) (n : NewPin) (s : Sink)
    → failed n.hr ≡ false
    → IsReady (set_stream_name os crt n name s).1
unfolding set_stream_name
set_stream_name-IsReady os crt name n s ok =
    let emptied = record (remove_pins os (length s.pin_list) 0 (record s { stream_name = name })) {
      pin_list = [];
    } in
    let filled = add_input_pin-IsReady crt n emptied ok tt tt in
    ground (arith, filled, initialize_pipe-IsReady os (add_input_pin crt n emptied).1 filled)

-- Any events keep a filter ready.
pub graph_run-IsReady :
    (os : Os) (crt : Crt) (es : List GraphEvent) (s : Sink)
    → Constructs es
    → IsReady s
    → IsReady (graph_run os crt es s)
unfolding graph_run graph_step
graph_run-IsReady os crt [] s c h = h
graph_run-IsReady os crt (connecting a base n ∷ es) s c h =
    graph_run-IsReady os crt es _ c.1 (connecting-IsReady os crt a base n s c.0 h)
graph_run-IsReady os crt (disconnecting a ∷ es) s c h =
    graph_run-IsReady os crt es _ c (disconnecting-IsReady a s h)
graph_run-IsReady os crt (renaming name n ∷ es) s c h =
    graph_run-IsReady os crt es _ c.1 (set_stream_name-IsReady os crt name n s c.0)

-- However the graph connects, disconnects and renames, the filter of the constructor always has a pin
-- that is not connected, and no two of its pins share an address, if every pin is constructed without
-- an error.
pub graph_run-new_sink :
    (os : Os) (crt : Crt) (n : NewPin) (raw : List ℕ) (es : List GraphEvent)
    → failed n.hr ≡ false
    → Constructs es
    → IsReady (graph_run os crt es (new_sink crt n raw).1)
unfolding new_sink
graph_run-new_sink os crt n raw es ok c =
    graph_run-IsReady os crt es _ c (add_input_pin-IsReady crt n _ ok tt tt)
