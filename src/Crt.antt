-- ===== src/Crt.antt =====
-- The text routines of the C runtime and ATL that the sources call: a parameter (`Crt`), with what the
-- sources rely on as predicates.
use virtual_capture_stream.Prelude.{ℕ, ◌≡◌, ◌≢◌, List, [], ◌∷◌}

pub record Crt : Type 0 where
  -- `W2A` and `A2W`.
  pub w2a : List ℕ → List ℕ
  pub a2w : List ℕ → List ℕ
  -- `_stprintf` with a text for its format and no further argument.
  pub format : List ℕ → List ℕ
  -- `%i` and `%08x`.
  pub format_int : ℕ → List ℕ
  pub format_hex8 : ℕ → List ℕ

-- No character of the text is `c`.
abbrev pub Lacks : ℕ → List ℕ → Type 0
Lacks c [] = Unit
Lacks c (x ∷ xs) = (x ≢ c) × Lacks c xs

-- A name that the two conversions and the formatting give back: it has an ANSI form without a zero
-- byte, and no conversion specification.
pub record IsPlainName (crt : Crt) (name : List ℕ) : Type 0 where
  pub converts : crt.a2w (crt.w2a name) ≡ name
  pub no_zero : Lacks 0 (crt.w2a name)
  pub formats : crt.format name ≡ name
