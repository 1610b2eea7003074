-- ===== src/Pricing/Bills.antt =====
-- lib/server/valuation/pricing.ts, billedAmount: what is billed, and that it is.
use reckon.Common.{
  ℕ, zero, suc, ◌<◌, ◌≡◌, refl, sym, subst, ◌≢◌, ◌⊎◌, Option, none, some, ok, arith,
}
use reckon.Common.Int.{pos, ◌≤ℤ◌, ◌*ℤ◌}
use reckon.Decimal.{
  Decimal, Ratio, half_up, of_nat, of_int, round, max_of, ratio, ratio_mul, ratio_round,
}
use reckon.Decimal.Fractions.{
  IsSound, ratio-IsSound, ratio_mul-IsSound, ratio_div-IsSound, ratio_round-ok, ratio_to_big_int-ok,
}
use reckon.Decimal.Rules.{round-ok}
use reckon.Decimal.Least.{round-max_of}
use reckon.Decimal.Numeric.{from}
use reckon.Pricing.{
  ServiceTerms, UnitKind, hour, mile, each, to_increment, in_increments, or_zero, charge,
  billed_amount,
}

of_nat-ne : (n : ℕ) → 0 < n → (ratio (of_nat n)).num ≢ pos 0
unfolding ratio
of_nat-ne zero h e = absurd (omega arith)
of_nat-ne (suc n) h e = cc

to_increment-ok :
    (q : Ratio) (step : ℕ)
    → IsSound q
    → 0 < step
    → (r : Ratio) × (to_increment q step ≡ ok r) × IsSound r
unfolding to_increment
to_increment-ok q step h k =
    let (a, ea, sa) =
      ratio_div-IsSound (ratio_mul q (ratio (of_nat 3600))) (ratio (of_nat step))
        (ratio_mul-IsSound q _ h (ratio-IsSound (of_nat 3600))) (of_nat-ne step k) in
    let (n, en) = ratio_to_big_int-ok a half_up sa in
    let (r, er, sr) =
      ratio_div-IsSound (ratio (of_int (n *ℤ pos step))) (ratio (of_nat 3600))
        (ratio-IsSound (of_int (n *ℤ pos step))) (of_nat-ne 3600 (omega arith)) in
    (r, rw ea (rw en er), sr)

-- The increment the service is billed in, where it is a positive number of seconds.
abbrev pub HasIncrement : Option ℕ → Type 0
HasIncrement none = Unit
HasIncrement (some step) = 0 < step

in_increments-ok :
    (u : UnitKind) (step : Option ℕ) (q : Ratio)
    → HasIncrement step
    → IsSound q
    → (r : Ratio) × (in_increments u step q ≡ ok r) × IsSound r
unfolding in_increments
in_increments-ok hour none q h s = (q, refl, s)
in_increments-ok hour (some step) q h s = to_increment-ok q step s h
in_increments-ok mile step q h s = (q, refl, s)
in_increments-ok each step q h s = (q, refl, s)

-- A service with a rate bills every quantity, once its increment is positive and its minimum charge
-- reads as a figure: nothing on the way throws. What it bills has the currency's places; it is the
-- quantity in the service's increments at the rate, rounded to them, or the minimum charge, rounded
-- so too, and is below neither.
pub billed_amount-bills :
    (service : ServiceTerms) (rate : Decimal) (quantity : Ratio) (places : ℕ) (floor : Decimal)
    → from (or_zero service.minimum_charge) ≡ ok floor
    → HasIncrement service.bill_to_nearest_seconds
    → IsSound quantity
    → (q : Ratio) × (amount f b : Decimal) × (in_increments service.unit
          service.bill_to_nearest_seconds quantity
        ≡ ok q)
      × (ratio_round (ratio_mul q (ratio rate)) places half_up ≡ ok amount)
      × (round floor places half_up ≡ ok f)
      × (billed_amount service (some rate) quantity places ≡ ok (some b))
      × (b.scale ≡ places)
      × ((b ≡ amount) ⊎ (b ≡ f))
      × (amount.units ≤ℤ b.units)
      × (f.units ≤ℤ b.units)
unfolding billed_amount charge
billed_amount-bills service rate quantity places floor m h s =
    let (q, eq, sq) = in_increments-ok service.unit service.bill_to_nearest_seconds quantity h s in
    let (amount, ea, fine) =
      ratio_round-ok (ratio_mul q (ratio rate)) places half_up
        (ratio_mul-IsSound q _ sq (ratio-IsSound rate)) in
    let (f, ef, _) = round-ok floor places half_up in
    let (b, eb, scale) = round-ok (max_of amount floor) places half_up in
    let (one_of, over, above) =
      round-max_of amount floor f (subst (λ p. round floor p half_up ≡ ok f) (sym fine) ef) b
        (subst (λ p. round (max_of amount floor) p half_up ≡ ok b) (sym fine) eb) in
    (q, amount, f, b, eq, ea, ef, rw eq (rw ea (rw m (rw eb refl))), scale, one_of, over, above)
