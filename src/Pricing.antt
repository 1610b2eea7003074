-- ===== src/Pricing.antt =====
-- lib/server/valuation/pricing.ts: the price in force, the job's rate, and what a quantity bills.
pub mod Prices
pub mod Bills
pub mod Examples
use reckon.Common.{
  ℕ, ◌+◌, ◌-◌, Bool, true, false, not, ◌&&◌, ◌||◌, if◌then◌else◌, Option, none, some, List, [], ◌∷◌,
  is_some, Text, codes, text_eq, text_lt, Result, ok, ◌>>=◌,
}
use reckon.Common.Best.{pick, by_key}
use reckon.Common.Int.{ℤ, pos, ◌*ℤ◌}
use reckon.Decimal.{
  Decimal, Ratio, half_up, of_int, of_nat, add, mul, round, max_of, ratio, ratio_mul, ratio_div,
  ratio_round, ratio_to_big_int,
}
use reckon.Decimal.Numeric.{from}

pub record Price : Type 0 where
  pub service_id : Text
  pub entity_id : Option Text
  pub rate : Text
  pub additional_rate : Text
  pub effective_from : Text

pub data UnitKind : Type 0 where
  hour mile each : UnitKind

pub record ServiceTerms : Type 0 where
  pub id : Text
  pub unit : UnitKind
  pub bill_to_nearest_seconds : Option ℕ
  pub minimum_charge : Option Text

-- a === b, where either may be null.
abbrev pub id_eq : Option Text → Option Text → Bool
id_eq none none = true
id_eq none (some b) = false
id_eq (some a) none = false
id_eq (some a) (some b) = text_eq a b

-- Every client's, or this client's own.
unfoldable pub reaches_client : Option Text → Option Text → Bool
reaches_client none entity = true
reaches_client (some own) entity = id_eq (some own) entity

-- 1 for a client's own, 0 for every client's.
abbrev pub own_rank : Option Text → ℕ
own_rank none = 0
own_rank (some _) = 1

unfoldable pub fits_price : Text → Option Text → Text → Price → Bool
fits_price service_id entity_id day p =
    text_eq p.service_id service_id
    && (not (text_lt day p.effective_from) && reaches_client p.entity_id entity_id)

abbrev pub newer_price : Price → Price → Bool
newer_price p best = text_lt best.effective_from p.effective_from

unfoldable pub beats_price : Price → Price → Bool
beats_price = by_key (λ p. own_rank p.entity_id) newer_price

unfoldable pub price_on : List Price → Text → Option Text → Text → Option Price
price_on prices service_id entity_id day =
    pick (fits_price service_id entity_id day) beats_price none prices

unfoldable pub job_rate : Option Price → ℕ → Result (Option Decimal)
job_rate none heads = ok none
job_rate (some price) heads = do
  rate ← from price.rate
  additional ← from price.additional_rate
  ok (some (add rate (mul additional (of_nat (heads - 1)))))

-- A quantity of hours, rounded to the service's increment of seconds.
unfoldable pub to_increment : Ratio → ℕ → Result Ratio
to_increment q step = do
  in_steps ← ratio_div (ratio_mul q (ratio (of_nat 3600))) (ratio (of_nat step))
  steps ← ratio_to_big_int in_steps half_up
  ratio_div (ratio (of_int (steps *ℤ pos step))) (ratio (of_nat 3600))

-- Time is rounded to the service's increment; miles and counts are as they are.
unfoldable pub in_increments : UnitKind → Option ℕ → Ratio → Result Ratio
in_increments hour none q = ok q
in_increments hour (some step) q = to_increment q step
in_increments mile step q = ok q
in_increments each step q = ok q

-- `minimumCharge ?? '0'`
abbrev pub or_zero : Option Text → Text
or_zero none = codes "0"
or_zero (some v) = v

unfoldable pub charge : ServiceTerms → Decimal → Ratio → ℕ → Result Decimal
charge service rate quantity places = do
  q ← in_increments service.unit service.bill_to_nearest_seconds quantity
  amount ← ratio_round (ratio_mul q (ratio rate)) places half_up
  floor ← from (or_zero service.minimum_charge)
  round (max_of amount floor) places half_up

unfoldable pub billed_amount : ServiceTerms → Option Decimal → Ratio → ℕ → Result (Option Decimal)
billed_amount service none quantity places = ok none
billed_amount service (some rate) quantity places = do
  billed ← charge service rate quantity places
  ok (some billed)
