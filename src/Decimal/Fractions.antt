-- ===== src/Decimal/Fractions.antt =====
-- lib/decimal.ts, Ratio: every fraction made has a positive denominator, so rounding one never throws.
use reckon.Common.{
  ℕ, ◌≡◌, refl, ◌≢◌, inl, inr, Bool-cases, ok, Result-cases, ok-injective, err-ne-ok, sym, ap,
  arith,
}
use reckon.Common.Int.{ℤ, pos, negsuc, ◌*ℤ◌, ◌<ℤ◌, ltb_ℤ, eqb_ℤ, eq_of_parts}
use reckon.Common.IntLaws.{*ℤ-pos_pos, *ℤ-pos_neg, *ℤ-neg_neg}
use reckon.Decimal.{
  Decimal, Ratio, Rounding, pow10, is_negative, div_round, ratio, ratio_mul, ratio_div, ratio_add,
  ratio_round, ratio_to_big_int, div,
}
use reckon.Decimal.Rules.{div_round-ok}
use reckon.Decimal.Exact.{pow10-pos}

abbrev pub IsSound : Ratio → Type 0
IsSound r = pos 0 <ℤ r.den

pub ratio-IsSound : (d : Decimal) → IsSound (ratio d)
unfolding ratio pow10
ratio-IsSound d = omega (arith, pow10-pos d.scale)

pub ratio_mul-IsSound : (a b : Ratio) → IsSound a → IsSound b → IsSound (ratio_mul a b)
unfolding ratio_mul
ratio_mul-IsSound a b h k = *ℤ-pos_pos a.den b.den h k

pub ratio_add-IsSound : (a b : Ratio) → IsSound a → IsSound b → IsSound (ratio_add a b)
unfolding ratio_add
ratio_add-IsSound a b h k = *ℤ-pos_pos a.den b.den h k

-- What a division by anything but nothing comes to.
abbrev pub Divides : Ratio → Ratio → Type 0
Divides a b = (r : Ratio) × (ratio_div a b ≡ ok r) × IsSound r

pub ratio_div-IsSound : (a b : Ratio) → IsSound a → b.num ≢ pos 0 → Divides a b
unfolding ratio_div is_negative
ratio_div-IsSound a b h k = elim (Bool-cases (eqb_ℤ b.num (pos 0))) [
  | inl z ↦ absurd (k (eq_of_parts _ _ (ground arith)))
  | inr nz ↦ elim (Bool-cases (ltb_ℤ b.num (pos 0))) [
    | inl neg ↦ (
      record { num = a.num *ℤ b.den *ℤ negsuc 0; den = a.den *ℤ b.num *ℤ negsuc 0 },
      rw nz (rw neg),
      *ℤ-neg_neg (a.den *ℤ b.num) (negsuc 0) (*ℤ-pos_neg a.den b.num h (ground arith))
          (omega arith),
    )
    | inr pos_b ↦ (
      record { num = a.num *ℤ b.den *ℤ pos 1; den = a.den *ℤ b.num *ℤ pos 1 },
      rw nz (rw pos_b),
      *ℤ-pos_pos (a.den *ℤ b.num) (pos 1) (*ℤ-pos_pos a.den b.num h (ground arith)) (omega arith),
    )
  ]
]

div_round-total : (a b : ℤ) (mode : Rounding) → pos 0 <ℤ b → (q : ℤ) × (div_round a b mode ≡ ok q)
div_round-total a (pos b) mode h = div_round-ok a b mode (omega arith)
div_round-total a (negsuc b) mode h = absurd (omega arith)

pub ratio_to_big_int-ok :
    (r : Ratio) (mode : Rounding) → IsSound r → (q : ℤ) × (ratio_to_big_int r mode ≡ ok q)
unfolding ratio_to_big_int
ratio_to_big_int-ok r mode h = div_round-total r.num r.den mode h

pub ratio_round-ok :
    (r : Ratio) (places : ℕ) (mode : Rounding)
    → IsSound r
    → (d : Decimal) × (ratio_round r places mode ≡ ok d) × (d.scale ≡ places)
unfolding ratio_round
ratio_round-ok r places mode h =
    let (q, e) = div_round-total (r.num *ℤ pow10 places) r.den mode h in
    (record { units = q; scale = places }, rw e, refl)

pub scale-ratio_round :
    (r : Ratio) (places : ℕ) (mode : Rounding) (d : Decimal)
    → ratio_round r places mode ≡ ok d
    → d.scale ≡ places
unfolding ratio_round
scale-ratio_round r places mode d e =
    elim (Result-cases (div_round (r.num *ℤ pow10 places) r.den mode)) [
      | inl (q, eq) ↦ ap (λ (x : Decimal). x.scale) (sym (ok-injective (rw eq at e)))
      | inr (x, eq) ↦ absurd (err-ne-ok (rw eq at e))
    ]

-- The quotient of two figures rounds to any places by any rule, unless the divisor is zero.
pub div-round :
    (a b : Decimal) (places : ℕ) (mode : Rounding)
    → b.units ≢ pos 0
    → (r : Ratio) × (d : Decimal) × (div a b ≡ ok r)
      × (ratio_round r places mode ≡ ok d)
      × (d.scale ≡ places)
unfolding div
div-round a b places mode h =
    let (r, e, sound) = ratio_div-IsSound (ratio a) (ratio b) (ratio-IsSound a) (ratio_ne h) in
    let (d, e', s) = ratio_round-ok r places mode sound in (r, d, e, e', s)
  where
    ratio_ne : b.units ≢ pos 0 → (ratio b).num ≢ pos 0
    ratio_ne h = unfold ratio in h
