-- ===== src/Pay.antt =====
-- lib/server/valuation/pay.ts: the rule that pays a person, and what it pays.
pub mod Rules
pub mod Examples
use reckon.Common.{
  ℕ, Bool, true, false, not, ◌&&◌, ◌||◌, if◌then◌else◌, Option, none, some, List, is_some, Text,
  codes, text_eq, text_lt, Result, ok, ◌>>=◌,
}
use reckon.Common.Best.{pick, by_key}
use reckon.Decimal.{
  Decimal, Ratio, half_up, zero_decimal, of_nat, mul, div, is_zero, round, ratio, ratio_mul,
  ratio_div, ratio_round,
}
use reckon.Decimal.Numeric.{from}
use reckon.Pricing.{id_eq, own_rank, reaches_client, or_zero}

pub data PaysFor : Type 0 where
  time covered_time vehicle : PaysFor

pub data Method : Type 0 where
  per_hour percent fixed nothing : Method

pub record PayRule : Type 0 where
  pub service_id : Text
  pub role_id : Option Text
  pub user_id : Option Text
  pub entity_id : Option Text
  pub pays_for : PaysFor
  pub method : Method
  pub amount : Option Text
  pub effective_from : Text

pub record Payee : Type 0 where
  pub id : Text
  pub role_id : Option Text

unfoldable pub same_pays_for : PaysFor → PaysFor → Bool
same_pays_for time time = true
same_pays_for covered_time covered_time = true
same_pays_for vehicle vehicle = true
same_pays_for _ _ = false

-- Their own rule, or the rule of the role they hold.
unfoldable pub is_mine : Payee → PayRule → Bool
is_mine payee r =
    id_eq r.user_id (some payee.id) || (is_some r.role_id && id_eq r.role_id payee.role_id)

unfoldable pub fits_rule : Text → Payee → Option Text → PaysFor → Text → PayRule → Bool
fits_rule service_id payee entity_id pays_for day r =
    text_eq r.service_id service_id
    && (same_pays_for r.pays_for pays_for
        && (not (text_lt day r.effective_from)
            && (reaches_client r.entity_id entity_id && is_mine payee r)))

abbrev pub newer_rule : PayRule → PayRule → Bool
newer_rule r best = text_lt best.effective_from r.effective_from

-- A client's own rule first, then a person's own, then the newest.
unfoldable pub beats_rule : PayRule → PayRule → Bool
beats_rule = by_key (λ r. own_rank r.entity_id) (by_key (λ r. own_rank r.user_id) newer_rule)

unfoldable pub rule_on : List PayRule → Text → Payee → Option Text → PaysFor → Text → Option PayRule
rule_on rules service_id payee entity_id pays_for day =
    pick (fits_rule service_id payee entity_id pays_for day) beats_rule none rules

abbrev pub or_nothing : Option Decimal → Decimal
or_nothing none = zero_decimal
or_nothing (some line) = line

-- What each method pays, of an amount.
unfoldable pub method_pay : Method → Decimal → ℕ → Option Decimal → ℕ → Result Decimal
method_pay per_hour amount seconds line places = do
  r ← div (mul amount (of_nat seconds)) (of_nat 3600)
  ratio_round r places half_up
method_pay percent amount seconds line places = do
  r ← div (mul amount (or_nothing line)) (of_nat 100)
  ratio_round r places half_up
method_pay fixed amount seconds line places = round amount places half_up
method_pay nothing amount seconds line places = round zero_decimal places half_up

unfoldable pub time_pay : Option PayRule → ℕ → Option Decimal → ℕ → Result (Option Decimal)
time_pay none seconds line places = ok none
time_pay (some rule) seconds line places = do
  amount ← from (or_zero rule.amount)
  paid ← method_pay rule.method amount seconds line places
  ok (some paid)

unfoldable pub is_per_hour : Method → Bool
is_per_hour per_hour = true
is_per_hour _ = false

unfoldable pub vehicle_pay : Option PayRule → Option Decimal → ℕ → Result (Option Decimal)
vehicle_pay none line places = ok none
vehicle_pay (some rule) line places =
    if is_per_hour rule.method then ok none else time_pay (some rule) 0 line places

unfoldable pub is_nothing : Method → Bool
is_nothing nothing = true
is_nothing _ = false

-- A percentage of the share, where it is known.
unfoldable pub share_pay : Decimal → Option Ratio → ℕ → Result (Option Decimal)
share_pay amount none places = ok none
share_pay amount (some share) places = do
  r ← ratio_div (ratio_mul share (ratio amount)) (ratio (of_nat 100))
  paid ← ratio_round r places half_up
  ok (some paid)

unfoldable pub covered_pay : Option PayRule → Option Ratio → ℕ → Result (Option Decimal)
covered_pay none share places = ok none
covered_pay (some rule) share places = do
  zero ← round zero_decimal places half_up
  let by_amount = do
    amount ← from (or_zero rule.amount)
    if is_zero amount then ok (some zero) else share_pay amount share places
  if is_nothing rule.method then ok (some zero) else by_amount
