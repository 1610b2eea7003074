-- ===== src/Decimal/Runs.antt =====
-- lib/decimal.ts: what a scan for digits leaves, for the patterns that read a figure.
use reckon.Common.{ℕ, ◌≡◌, refl, ap, inl, inr, true, Bool-cases, [], ◌∷◌, ◌++◌, All, Text, arith}
use reckon.Decimal.Numeric.{is_digit, span_digits}
use reckon.Decimal.Printed.{IsDigit}

is_digit-IsDigit : (c : ℕ) → is_digit c ≡ true → IsDigit c
unfolding is_digit
is_digit-IsDigit c h = ground arith

-- A run of digits, with what follows it.
abbrev pub Run : Text → Text × Text → Type 0
Run v (run, rest) = (v ≡ run ++ rest) × All IsDigit run

-- A scanned run is of digits, and is what the text starts with.
pub span_digits-splits :
    (v : Text) → (v ≡ (span_digits v).0 ++ (span_digits v).1) × All IsDigit (span_digits v).0
unfolding span_digits
span_digits-splits [] = (refl, tt)
span_digits-splits (c ∷ cs) = elim (Bool-cases (is_digit c)) [
  | inl t ↦
      rw t (ap (◌∷◌ c) (span_digits-splits cs).0, (is_digit-IsDigit c t, (span_digits-splits cs).1))
  | inr f ↦ rw f (refl, tt)
]
