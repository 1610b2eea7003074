-- ===== src/PassedOn/Examples.antt =====
-- lib/passed-on.ts: a fitting bought for a job, and cable drawn from stock.
use reckon.Common.{ℕ, ◌≡◌, ◌≢◌, refl, ◌&&◌, codes, ok, none, some, true, trim, trim_start, is_space}
use reckon.Common.Int.{pos}
use reckon.Decimal.{Decimal, mul, round, half_up, ratio_round}
use reckon.Decimal.Numeric.{
  from, read_sign, span_digits, is_digit, read_whole, read_fraction, read_end, make, value,
}
use reckon.PassedOn.{
  PassedOn, Terms, FromStock, PassedLine, PassedKind, RuleSet, passed_on, from_stock, taxes_goods,
}
use reckon.PassedOn.Charged.{charge_for, TaxedBy, passed_on-Charged}
use reckon.PassedOn.Lines.{tax_due, from_stock-ok}

abbrev cents : ℕ → Decimal
cents n = record { units = pos n; scale = 2 }

ten_reads : from (codes "10.00") ≡ ok (cents 1000)
unfolding from trim trim_start is_space read_sign span_digits is_digit read_whole read_fraction
    read_end make value
ten_reads = refl

rate_reads : from (codes "7.25") ≡ ok (cents 725)
unfolding from trim trim_start is_space read_sign span_digits is_digit read_whole read_fraction
    read_end make value
rate_reads = refl

abbrev terms : Terms
terms = record {
  purchase_markup_pct = codes "10.00";
  rule_set = RuleSet.us_ca;
  site_rate_pct = some (codes "7.25");
  places = 2;
}

abbrev fitting : PassedOn
fitting = record { kind = PassedKind.bought; cost = codes "10.00"; tax_paid = codes "7.25" }

passed_on-Charged_example :
    (o : PassedLine) × (u a : Decimal) × (passed_on fitting terms ≡ ok o)
    × (o.qty ≡ codes "1")
    × (from o.unit_price ≡ ok u)
    × (ratio_round (charge_for PassedKind.bought (cents 1000) (cents 1000)) 4 half_up ≡ ok u)
    × (from o.amount ≡ ok a)
    × (ratio_round (charge_for PassedKind.bought (cents 1000) (cents 1000)) 2 half_up ≡ ok a)
    × (from o.ex_tax_cost ≡ ok (cents 1000))
    × (from o.tax_paid ≡ ok (cents 725))
    × TaxedBy PassedKind.bought RuleSet.us_ca (some (cents 725)) o.taxed
passed_on-Charged_example =
    passed_on-Charged fitting terms (cents 1000) (cents 725) (cents 1000) (some (cents 725))
      ten_reads rate_reads ten_reads rate_reads

abbrev cable : FromStock
cable = record {
  qty = codes "10.00";
  unit = codes "foot";
  cost = codes "7.25";
  tax_paid = codes "7.25";
  listed = none;
  markup_pct = codes "10.00";
  taxable = true;
}

some_drawn : (cents 1000).units ≢ pos 0
some_drawn e = cc

from_stock-ok_example :
    (o : PassedLine) × (u a : Decimal) × (from_stock cable terms ≡ ok o)
    × (from o.qty ≡ ok (cents 1000))
    × (from o.unit_price ≡ ok u)
    × (u.scale ≡ 4)
    × (from o.amount ≡ ok a)
    × (round (mul u (cents 1000)) 2 half_up ≡ ok a)
    × (from o.ex_tax_cost ≡ ok (cents 725))
    × (from o.tax_paid ≡ ok (cents 725))
    × (o.taxed ≡ tax_due (true && taxes_goods RuleSet.us_ca) (some (cents 725)))
from_stock-ok_example =
    from_stock-ok cable terms none (cents 725) (cents 1000) (cents 1000) (cents 725)
      (some (cents 725)) tt rate_reads ten_reads ten_reads rate_reads some_drawn rate_reads
