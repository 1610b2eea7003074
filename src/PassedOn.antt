-- ===== src/PassedOn.antt =====
-- lib/passed-on.ts: a line for goods, or a cost, passed on to a client, and what a tax rule taxes of it.
pub mod Lines
pub mod Charged
pub mod Examples
use reckon.Common.{
  ℕ, Bool, true, false, not, ◌&&◌, if◌then◌else◌, Option, none, some, Text, codes, is_some, Result,
  ok, ◌>>=◌,
}
use reckon.Decimal.{
  Decimal, Ratio, half_up, of_nat, mul, round, is_zero, ratio, ratio_mul, ratio_div, ratio_add,
  ratio_round,
}
use reckon.Decimal.Numeric.{from, to_text}

pub data RuleSet : Type 0 where
  us_ca flat_per_site untaxed : RuleSet

-- TAXES[rule].goods
unfoldable pub taxes_goods : RuleSet → Bool
taxes_goods us_ca = true
taxes_goods flat_per_site = true
taxes_goods untaxed = false

-- TAXES[rule].paidFor
unfoldable pub taxes_paid_for : RuleSet → Bool
taxes_paid_for us_ca = false
taxes_paid_for flat_per_site = false
taxes_paid_for untaxed = false

pub data PassedKind : Type 0 where
  bought paid_for : PassedKind

pub record PassedOn : Type 0 where
  pub kind : PassedKind
  pub cost : Text
  pub tax_paid : Text

pub record Terms : Type 0 where
  pub purchase_markup_pct : Text
  pub rule_set : RuleSet
  pub site_rate_pct : Option Text
  pub places : ℕ

pub data TaxSource : Type 0 where
  from_site no_source : TaxSource

pub record Taxed : Type 0 where
  pub taxable : Bool
  pub tax_rate_pct : Text
  pub tax_source : TaxSource
  pub needs_a_site : Bool

unfoldable pub charged_at : Bool → Decimal → Taxed
unfolding is_zero to_text
charged_at missing rate =
    if is_zero rate
    then record {
      taxable = false;
      tax_rate_pct = codes "0";
      tax_source = no_source;
      needs_a_site = missing;
    }
    else record {
      taxable = true;
      tax_rate_pct = to_text rate;
      tax_source = from_site;
      needs_a_site = missing;
    }

-- The site's rate where the rule taxes the line, and whether one is missing.
unfoldable pub taxed_at : Bool → Option Text → Result Taxed
unfolding charged_at
taxed_at false rate = ok (record {
  taxable = false;
  tax_rate_pct = codes "0";
  tax_source = no_source;
  needs_a_site = false;
})
taxed_at true none = ok (record {
  taxable = false;
  tax_rate_pct = codes "0";
  tax_source = no_source;
  needs_a_site = true;
})
taxed_at true (some pct) = do rate ← from pct; ok (charged_at false rate)

-- What a line is saved with.
pub record PassedLine : Type 0 where
  pub qty : Text
  pub unit : Text
  pub unit_price : Text
  pub amount : Text
  pub taxed : Taxed
  pub ex_tax_cost : Text
  pub tax_paid : Text

-- 1 + pct / 100
unfoldable pub markup : Decimal → Result Ratio
markup pct = do
  part ← ratio_div (ratio pct) (ratio (of_nat 100))
  ok (ratio_add part (ratio (of_nat 1)))

unfoldable pub price_of : PassedKind → Text → Text → Result Ratio
unfolding markup
price_of bought cost pct = do
  c ← from cost
  m ← from pct
  factor ← markup m
  ok (ratio_mul (ratio c) factor)
price_of paid_for cost pct = do c ← from cost; ok (ratio c)

unfoldable pub taxes_kind : PassedKind → RuleSet → Bool
unfolding taxes_goods taxes_paid_for
taxes_kind bought rule = taxes_goods rule
taxes_kind paid_for rule = taxes_paid_for rule

unfoldable pub passed_on : PassedOn → Terms → Result PassedLine
unfolding price_of taxes_kind taxed_at
passed_on line terms = do
  price ← price_of line.kind line.cost terms.purchase_markup_pct
  unit_price ← ratio_round price 4 half_up
  amount ← ratio_round price terms.places half_up
  taxed ← taxed_at (taxes_kind line.kind terms.rule_set) terms.site_rate_pct
  cost ← from line.cost
  paid ← from line.tax_paid
  ok (record {
    qty = codes "1";
    unit = codes "each";
    unit_price = to_text unit_price;
    amount = to_text amount;
    taxed = taxed;
    ex_tax_cost = to_text cost;
    tax_paid = to_text paid;
  })

pub record FromStock : Type 0 where
  pub qty : Text
  pub unit : Text
  pub cost : Text
  pub tax_paid : Text
  pub listed : Option Text
  pub markup_pct : Text
  pub taxable : Bool

unfoldable pub stock_price : FromStock → Option Text → Result Decimal
unfolding markup
stock_price line (some listed) = do price ← from listed; round price 4 half_up
stock_price line none = do
  c ← from line.cost
  q ← from line.qty
  each ← ratio_div (ratio c) (ratio q)
  m ← from line.markup_pct
  factor ← markup m
  ratio_round (ratio_mul each factor) 4 half_up

unfoldable pub from_stock : FromStock → Terms → Result PassedLine
unfolding stock_price taxes_goods taxed_at
from_stock line terms = do
  unit_price ← stock_price line line.listed
  q ← from line.qty
  amount ← round (mul unit_price q) terms.places half_up
  taxed ← taxed_at (line.taxable && taxes_goods terms.rule_set) terms.site_rate_pct
  cost ← from line.cost
  paid ← from line.tax_paid
  ok (record {
    qty = to_text q;
    unit = line.unit;
    unit_price = to_text unit_price;
    amount = to_text amount;
    taxed = taxed;
    ex_tax_cost = to_text cost;
    tax_paid = to_text paid;
  })
