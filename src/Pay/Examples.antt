-- ===== src/Pay/Examples.antt =====
-- lib/server/valuation/pay.ts: a rule that pays, and what it pays.
use reckon.Common.{◌≡◌, refl, none, some, [], ◌∷◌, codes, ok, trim, trim_start, is_space}
use reckon.Common.Says.{Foremost}
use reckon.Common.Int.{pos}
use reckon.Decimal.{Decimal, Ratio}
use reckon.Decimal.Numeric.{
  from, read_sign, span_digits, is_digit, read_whole, read_fraction, read_end, make, value,
}
use reckon.Pricing.{or_zero}
use reckon.Pay.{PayRule, Payee, PaysFor, Method, rule_on, time_pay}
use reckon.Pay.Rules.{Applies, Overrides, rule_on-Foremost, time_pay-ok}

abbrev hourly : PayRule
hourly = record {
  service_id = codes "mow";
  role_id = none;
  user_id = some (codes "ana");
  entity_id = none;
  pays_for = PaysFor.time;
  method = Method.per_hour;
  amount = some (codes "21.50");
  effective_from = codes "2025-01-01";
}

abbrev ana : Payee
ana = record { id = codes "ana"; role_id = none }

abbrev pay : Decimal
pay = record { units = pos 2150; scale = 2 }

pay_reads : from (or_zero hourly.amount) ≡ ok pay
unfolding from trim trim_start is_space read_sign span_digits is_digit read_whole read_fraction
    read_end make value
pay_reads = refl

rule_on-Foremost_example :
    Foremost
      (Applies (codes "mow") ana none PaysFor.time (codes "2025-02-01"))
      Overrides
      (hourly ∷ [])
      (rule_on (hourly ∷ []) (codes "mow") ana none PaysFor.time (codes "2025-02-01"))
rule_on-Foremost_example =
    rule_on-Foremost (hourly ∷ []) (codes "mow") ana none PaysFor.time (codes "2025-02-01")

time_pay-ok_example :
    (d : Decimal) × (time_pay (some hourly) 5400 none 2 ≡ ok (some d)) × (d.scale ≡ 2)
time_pay-ok_example = time_pay-ok hourly pay 5400 none 2 pay_reads

abbrev share : Ratio
share = record { num = pos 5000; den = pos 3 }
