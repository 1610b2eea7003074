-- ===== src/LineMerge/Sameness.antt =====
-- lib/line-merge.ts, same: a text that the pattern takes for a figure is one, so comparing never throws.
use mathlib.Core.List.{append-nil}
use reckon.Common.{
  ◌≡◌, ◌≢◌, refl, ap, ◌∙◌, inl, inr, Bool, true, false, ◌==◌, ==_iff, if_cases, Bool-cases, Option,
  [], ◌∷◌, ◌++◌, All, Text, text_eq, trim, ok, arith, ◌&&◌,
}
use reckon.Decimal.{Decimal, eq}
use reckon.Decimal.Numeric.{span_digits, from, make}
use reckon.Decimal.Printed.{IsDigit, sign_text, point, from-printed}
use reckon.Decimal.Runs.{Run, span_digits-splits}
use reckon.Trips.{has_text}
use reckon.LineMerge.{
  is_fraction, is_run, is_unsigned, is_figure, same_figure, same_trimmed, same, figure_fields,
  or_empty,
}

false-ne-true : false ≢ true
false-ne-true e = cc

is_run-point :
    (v : Text) (parts : Text × Text)
    → Run v parts
    → is_run parts ≡ true
    → (frac : Text) × All IsDigit frac × (b'.' ∷ v ≡ point frac)
unfolding is_run
is_run-point v ([], rest) h e = cc
is_run-point v (d ∷ ds, []) (h, hs) e = (d ∷ ds, hs, ap (◌∷◌ b'.') (h ∙ append-nil (d ∷ ds)))
is_run-point v (d ∷ ds, c ∷ cs) h e = cc

is_fraction-point :
    (v : Text) → is_fraction v ≡ true → (frac : Text) × All IsDigit frac × (v ≡ point frac)
unfolding is_fraction
is_fraction-point [] e = ([], tt, refl)
is_fraction-point (c ∷ cs) e = elim (Bool-cases (c == b'.')) [
  | inl t ↦
      let (frac, digits, is) =
        is_run-point cs (span_digits cs) (span_digits-splits cs) (rw t at e) in
      (frac, digits, ap (λ x. x ∷ cs) ((==_iff c b'.').0 t) ∙ is)
  | inr f ↦ absurd (false-ne-true (rw f at e))
]

is_unsigned-from :
    (negative : Bool) (v : Text) (parts : Text × Text)
    → Run v parts
    → is_unsigned parts ≡ true
    → (d : Decimal) × (from (sign_text negative ++ v) ≡ ok d)
unfolding is_unsigned
is_unsigned-from negative v ([], rest) h e = cc
is_unsigned-from negative v (c ∷ cs, rest) (h, hs) e =
    let (frac, digits, is) = is_fraction-point rest e in
    (
      make negative (c ∷ cs) frac,
      ap (λ t. from (sign_text negative ++ t)) (h ∙ ap (λ t. (c ∷ cs) ++ t) is)
          ∙ from-printed negative (c ∷ cs) frac (omega arith) hs digits,
    )

is_figure-from : (v : Text) → is_figure v ≡ true → (d : Decimal) × (from v ≡ ok d)
unfolding is_figure
is_figure-from [] e = cc
is_figure-from (c ∷ cs) e = elim (Bool-cases (c == b'-')) [
  | inl t ↦
      let (d, run) =
        is_unsigned-from true cs (span_digits cs) (span_digits-splits cs) (rw t at e) in
      (d, ap (λ x. from (x ∷ cs)) ((==_iff c b'-').0 t) ∙ run)
  | inr f ↦
      is_unsigned-from false (c ∷ cs) (span_digits (c ∷ cs)) (span_digits-splits (c ∷ cs))
        (rw f at e)
]

same_figure-ok :
    (x y : Text) → is_figure x ≡ true → is_figure y ≡ true → (b : Bool) × (same_figure x y ≡ ok b)
unfolding same_figure
same_figure-ok x y h k =
    let (a, ea) = is_figure-from x h in
    let (b, eb) = is_figure-from y k in (eq a b, rw ea (rw eb refl))

both_of : (a b c : Bool) → a && b && c ≡ true → (b ≡ true) × (c ≡ true)
both_of a b c e = ground arith

-- Comparing two values of a field always has an answer.
pub same-ok : (field : Text) (a b : Option Text) → (r : Bool) × (same field a b ≡ ok r)
unfolding same same_trimmed
same-ok field a b =
    let x = trim (or_empty a) in
    let y = trim (or_empty b) in
    if_cases (λ m. (r : Bool) × (m ≡ ok r))
      (has_text field figure_fields && is_figure x && is_figure y) (same_figure x y)
      (ok (text_eq x y)) (λ e. let (h, k) = both_of _ _ _ e in same_figure-ok x y h k)
      (λ e. (text_eq x y, refl))
