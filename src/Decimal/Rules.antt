-- ===== src/Decimal/Rules.antt =====
-- lib/decimal.ts, divRound: what each rounding rule comes to.
use native.Mathlib.Nat.{
  div-add-mod, mod-lt, mul-add, mul-one, div-eq_of_lt, mod-eq_of_lt, one-le-pow,
}
use reckon.Common.{
  ℕ, zero, suc, ◌+◌, ◌-◌, ◌*◌, ◌/◌, ◌%◌, ◌≤◌, ◌<◌, ◌≡◌, ◌⊎◌, inl, inr, refl, true, false, leb, ◌^◌,
  Bool-cases, arith, ok, if_cases,
}
use reckon.Common.Int.{ℤ, pos, nat_abs, neg_ℤ}
use reckon.Decimal.{
  Decimal, pow10, at, round, Rounding, half_up, half_even, down, up, goes_up, round_nat, signed,
  div_round,
}

-- `q` is `m / b` by the rule, stated with no division: between which multiples of `b` lies `m`.
abbrev pub IsRounded : Rounding → ℕ → ℕ → ℕ → Type 0
IsRounded half_up m b q = (b * q * 2 ≤ m * 2 + b) × (m * 2 < b * q * 2 + b)
IsRounded half_even m b q =
    (b * q * 2 < m * 2 + b) × (m * 2 < b * q * 2 + b)
    ⊎ (q % 2 ≡ 0) × (b * q * 2 ≤ m * 2 + b) × (m * 2 ≤ b * q * 2 + b)
IsRounded down m b q = (b * q ≤ m) × (m < b * q + b)
IsRounded up m b q = (m ≤ b * q) × (b * q < m + b)

IsRounded-up :
    (mode : Rounding) (m b q r : ℕ)
    → b * q + r ≡ m
    → r < b
    → goes_up mode q r b ≡ true
    → IsRounded mode m b (q + 1)
unfolding goes_up
IsRounded-up half_up m b q r e h t = ground (arith, mul-add b q 1, mul-one b)
IsRounded-up half_even m b q r e h t = ground (arith, mul-add b q 1, mul-one b)
IsRounded-up down m b q r e h t = cc
IsRounded-up up m b q r e h t = ground (arith, mul-add b q 1, mul-one b)

kept_down :
    (mode : Rounding) (m b q r : ℕ)
    → b * q + r ≡ m
    → r < b
    → goes_up mode q r b ≡ false
    → IsRounded mode m b q
unfolding goes_up
kept_down half_up m b q r e h t = ground arith
kept_down half_even m b q r e h t = ground arith
kept_down down m b q r e h t = omega arith
kept_down up m b q r e h t = ground arith

pub round_nat-IsRounded :
    (mode : Rounding) (m b : ℕ) → 0 < b → IsRounded mode m b (round_nat m b mode)
unfolding round_nat
round_nat-IsRounded mode m b h =
    if_cases (IsRounded mode m b) (goes_up mode (m / b) (m % b) b) (m / b + 1) (m / b)
      (IsRounded-up mode m b (m / b) (m % b) (div-add-mod m b) (mod-lt m h))
      (kept_down mode m b (m / b) (m % b) (div-add-mod m b) (mod-lt m h))

zero-div : (b : ℕ) → 0 / suc b ≡ 0
zero-div b = div-eq_of_lt (omega arith)

zero-mod : (b : ℕ) → 0 % suc b ≡ 0
zero-mod b = mod-eq_of_lt (omega arith)

round_nat-zero : (mode : Rounding) (b : ℕ) → round_nat 0 (suc b) mode ≡ 0
unfolding round_nat goes_up
round_nat-zero half_up b = ground (arith, zero-div b, zero-mod b)
round_nat-zero half_even b = ground (arith, zero-div b, zero-mod b)
round_nat-zero down b = ground (arith, zero-div b, zero-mod b)
round_nat-zero up b = ground (arith, zero-div b, zero-mod b)

-- Over a positive divisor `divRound` returns, by the rule, and rounds a credit as the mirror of
-- the charge.
pub div_round-IsRounded :
    (mode : Rounding) (m b : ℕ)
    → 0 < b
    → (q : ℕ) × IsRounded mode m b q
      × (div_round (pos m) (pos b) mode ≡ ok (pos q))
      × (div_round (neg_ℤ (pos m)) (pos b) mode ≡ ok (neg_ℤ (pos q)))
unfolding div_round
div_round-IsRounded mode m zero h = absurd (omega arith)
div_round-IsRounded mode zero (suc b) h = (
  round_nat zero (suc b) mode,
  round_nat-IsRounded mode zero (suc b) h,
  ground arith,
  rw (round_nat-zero mode b) (ground arith),
)
div_round-IsRounded mode (suc m) (suc b) h = (
  round_nat (suc m) (suc b) mode,
  round_nat-IsRounded mode (suc m) (suc b) h,
  ground arith,
  ground arith,
)

pub div_round-ok :
    (a : ℤ) (b : ℕ) (mode : Rounding) → 0 < b → (q : ℤ) × (div_round a (pos b) mode ≡ ok q)
unfolding div_round
div_round-ok a zero mode h = absurd (omega arith)
div_round-ok a (suc b) mode h = (signed _ (round_nat (nat_abs a) (suc b) mode), refl)

-- Rounding a Decimal never throws, and has the places asked for.
pub round-ok :
    (d : Decimal) (places : ℕ) (mode : Rounding)
    → (r : Decimal) × (round d places mode ≡ ok r) × (r.scale ≡ places)
unfolding round pow10
round-ok d places mode =
    let (q, e) =
      div_round-ok d.units (10 ^ (d.scale - places)) mode (one-le-pow _ 10 (omega arith)) in
    elim (Bool-cases (leb d.scale places)) [
      | inl h ↦ (record { units = at d places; scale = places }, rw h, refl)
      | inr h ↦ (record { units = q; scale = places }, rw h (rw e), refl)
    ]

-- To at least its own places, a figure is exact.
pub round-exact :
    (d : Decimal) (places : ℕ) (mode : Rounding)
    → d.scale ≤ places
    → round d places mode ≡ ok (record { units = at d places; scale = places })
unfolding round
round-exact d places mode h = ground arith
