-- ===== src/Decimal/RoundTrip.antt =====
-- lib/decimal.ts: what `toString` prints, `from` reads back.
use reckon.Common.{
  ℕ, ◌+◌, ◌-◌, ◌≤◌, ◌<◌, ◌≡◌, ◌∙◌, ap, ◌==◌, if◌then◌else◌, [], ◌∷◌, ◌++◌, length, take, drop,
  length-append, length-drop, take-append-drop, Text, ok, arith,
}
use reckon.Common.Int.{ℤ, pos, negsuc, nat_abs, neg_ℤ, ltb_ℤ}
use reckon.Decimal.{Decimal}
use reckon.Decimal.Numeric.{value, make, from, print_nat, pad_start, to_text}
use reckon.Decimal.Printed.{
  All-drop, All-take, Prints, from-printed, length-pad_start, pad_start-Prints, point,
  print_nat-Prints, sign_text,
}

point-of-length :
    (scale : ℕ) (frac : Text)
    → length frac ≡ scale
    → (if scale == 0 then [] else b'.' ∷ frac) ≡ point frac
point-of-length scale [] h = rw (← h) (ground arith)
point-of-length scale (d ∷ ds) h = rw (← h) (ground arith)

signed-nat_abs :
    (u : ℤ) → (if ltb_ℤ u (pos 0) then neg_ℤ (pos (nat_abs u)) else pos (nat_abs u)) ≡ u
signed-nat_abs (pos n) = ground arith
signed-nat_abs (negsuc n) = ground arith

-- The digits of a figure, padded so that one stands before the point.
digits_of : Decimal → Text
digits_of d = pad_start (d.scale + 1) b'0' (print_nat (nat_abs d.units))

module _ (d : Decimal) where
  digits_of-Prints : Prints (nat_abs d.units) (digits_of d)
  unfolding digits_of
  digits_of-Prints = pad_start-Prints (d.scale + 1) _ _ (print_nat-Prints (nat_abs d.units))

  abbrev cut : ℕ
  cut = length (digits_of d) - d.scale

  long : d.scale + 1 ≤ length (digits_of d)
  unfolding digits_of
  long = length-pad_start (d.scale + 1) (print_nat (nat_abs d.units))

  length-places : length (drop cut (digits_of d)) ≡ d.scale
  length-places = omega (arith, long, length-drop cut (digits_of d))

  length-whole : 0 < length (take cut (digits_of d))
  length-whole = omega (
    arith,
    long,
    length-places,
    length-append (take cut (digits_of d)) (drop cut (digits_of d)),
    ap length (take-append-drop cut (digits_of d)),
  )

  to_text-parts :
      to_text d
      ≡ sign_text (ltb_ℤ d.units (pos 0))
        ++ (take cut (digits_of d) ++ point (drop cut (digits_of d)))
  unfolding to_text digits_of
  to_text-parts =
      ap (λ t. sign_text (ltb_ℤ d.units (pos 0)) ++ (take cut (digits_of d) ++ t))
        (point-of-length d.scale (drop cut (digits_of d)) length-places)

  make-parts : make (ltb_ℤ d.units (pos 0)) (take cut (digits_of d)) (drop cut (digits_of d)) ≡ d
  unfolding make
  make-parts = λ i. record {
    units =
        (ap (λ n. if ltb_ℤ d.units (pos 0) then neg_ℤ (pos n) else pos n) same
            ∙ signed-nat_abs d.units)
          i;
    scale = length-places i;
  }
    where
      same : value 0 (take cut (digits_of d) ++ drop cut (digits_of d)) ≡ nat_abs d.units
      same = ap (value 0) (take-append-drop cut (digits_of d)) ∙ digits_of-Prints.2

-- A figure printed is read back as it was, its places too.
pub from-to_text : (d : Decimal) → from (to_text d) ≡ ok d
from-to_text d =
    ap from (to_text-parts d)
    ∙ from-printed _ _ _ (length-whole d) (All-take (cut d) _ (digits_of-Prints d).0)
        (All-drop (cut d) _ (digits_of-Prints d).0)
    ∙ ap ok (make-parts d)
