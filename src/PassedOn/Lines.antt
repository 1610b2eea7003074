-- ===== src/PassedOn/Lines.antt =====
-- lib/passed-on.ts: goods drawn from stock come to a whole line, taxed by the rule and the site's rate.
use reckon.Common.{
  ◌≡◌, ◌≢◌, refl, Bool, true, false, ◌&&◌, if◌then◌else◌, Option, none, some, Text, codes, ok,
}
use reckon.Common.Int.{pos}
use reckon.Decimal.{
  Decimal, Ratio, half_up, of_nat, mul, round, is_zero, ratio, ratio_mul, ratio_add,
}
use reckon.Decimal.Numeric.{from, to_text}
use reckon.Decimal.Rules.{round-ok}
use reckon.Decimal.Fractions.{
  IsSound, ratio-IsSound, ratio_mul-IsSound, ratio_add-IsSound, ratio_div-IsSound, ratio_round-ok,
}
use reckon.Decimal.RoundTrip.{from-to_text}
use reckon.PassedOn.{
  Terms, Taxed, PassedLine, FromStock, taxed_at, charged_at, markup, stock_price, from_stock,
  taxes_goods, from_site, no_source,
}

-- A rate that is a figure, where there is one.
abbrev pub Rates : Option Text → Option Decimal → Type 0
Rates none none = Unit
Rates none (some r) = ⊥
Rates (some t) none = ⊥
Rates (some t) (some r) = from t ≡ ok r

-- Not taxed at all, or wanting a site's rate that is missing.
abbrev pub untaxed_line : Bool → Taxed
untaxed_line missing = record {
  taxable = false;
  tax_rate_pct = codes "0";
  tax_source = no_source;
  needs_a_site = missing;
}

-- How a line is taxed: at the site's rate, when the rule taxes it and the rate is not zero.
abbrev pub tax_due : Bool → Option Decimal → Taxed
tax_due false rate = untaxed_line false
tax_due true none = untaxed_line true
tax_due true (some r) = if is_zero r then untaxed_line false else record {
  taxable = true;
  tax_rate_pct = to_text r;
  tax_source = from_site;
  needs_a_site = false;
}

pub taxed_at-tax_due :
    (taxed : Bool) (pct : Option Text) (rate : Option Decimal)
    → Rates pct rate
    → taxed_at taxed pct ≡ ok (tax_due taxed rate)
unfolding taxed_at charged_at
taxed_at-tax_due false pct rate h = refl
taxed_at-tax_due true none none h = refl
taxed_at-tax_due true none (some r) h = elim h [ ]
taxed_at-tax_due true (some t) none h = elim h [ ]
taxed_at-tax_due true (some t) (some r) h = rw h refl

hundred-ne : (ratio (of_nat 100)).num ≢ pos 0
unfolding ratio
hundred-ne e = cc

markup-ok : (m : Decimal) → (f : Ratio) × (markup m ≡ ok f) × IsSound f
unfolding markup
markup-ok m =
    let (part, e, sound) =
      ratio_div-IsSound (ratio m) (ratio (of_nat 100)) (ratio-IsSound m) hundred-ne in
    (
      ratio_add part (ratio (of_nat 1)),
      rw e refl,
      ratio_add-IsSound part (ratio (of_nat 1)) sound (ratio-IsSound (of_nat 1)),
    )

stock_price-ok :
    (line : FromStock) (listed : Option Text) (price : Option Decimal) (c q m : Decimal)
    → Rates listed price
    → from line.cost ≡ ok c
    → from line.qty ≡ ok q
    → from line.markup_pct ≡ ok m
    → q.units ≢ pos 0
    → (u : Decimal) × (stock_price line listed ≡ ok u) × (u.scale ≡ 4)
unfolding stock_price
stock_price-ok line (some t) (some p) c q m el ec eq em nz =
    let (u, eu, s) = round-ok p 4 half_up in (u, rw el eu, s)
stock_price-ok line (some t) none c q m el ec eq em nz = elim el [ ]
stock_price-ok line none (some p) c q m el ec eq em nz = elim el [ ]
stock_price-ok line none none c q m el ec eq em nz =
    let (each, e, sound) = ratio_div-IsSound (ratio c) (ratio q) (ratio-IsSound c) (num_ne q nz) in
    let (f, ef, sound_f) = markup-ok m in
    let (u, eu, s) =
      ratio_round-ok (ratio_mul each f) 4 half_up (ratio_mul-IsSound each f sound sound_f) in
    (u, rw ec (rw eq (rw e (rw em (rw ef eu)))), s)
  where
    num_ne : (q : Decimal) → q.units ≢ pos 0 → (ratio q).num ≢ pos 0
    num_ne q h = unfold ratio in h

-- Goods drawn from stock, some of them, their figures and the terms' readable, come to a line that reads as drawn, at a price to four
-- places, whose amount is that price by the quantity, taxed as goods unless the material is not.
pub from_stock-ok :
    (line : FromStock) (terms : Terms) (price : Option Decimal) (c q m t : Decimal)
    (rate : Option Decimal)
    → Rates line.listed price
    → from line.cost ≡ ok c
    → from line.qty ≡ ok q
    → from line.markup_pct ≡ ok m
    → from line.tax_paid ≡ ok t
    → q.units ≢ pos 0
    → Rates terms.site_rate_pct rate
    → (o : PassedLine) × (u a : Decimal) × (from_stock line terms ≡ ok o)
      × (from o.qty ≡ ok q)
      × (from o.unit_price ≡ ok u)
      × (u.scale ≡ 4)
      × (from o.amount ≡ ok a)
      × (round (mul u q) terms.places half_up ≡ ok a)
      × (from o.ex_tax_cost ≡ ok c)
      × (from o.tax_paid ≡ ok t)
      × (o.taxed ≡ tax_due (line.taxable && taxes_goods terms.rule_set) rate)
unfolding from_stock
from_stock-ok line terms price c q m t rate el ec eq em et nz er =
    let (u, eu, s) = stock_price-ok line line.listed price c q m el ec eq em nz in
    let (a, ea, _) = round-ok (mul u q) terms.places half_up in
    (
      record {
        qty = to_text q;
        unit = line.unit;
        unit_price = to_text u;
        amount = to_text a;
        taxed = tax_due (line.taxable && taxes_goods terms.rule_set) rate;
        ex_tax_cost = to_text c;
        tax_paid = to_text t;
      },
      u,
      a,
      rw eu (rw eq (rw ea (rw (taxed_at-tax_due _ _ rate er) (rw ec (rw et refl))))),
      from-to_text q,
      from-to_text u,
      s,
      from-to_text a,
      ea,
      from-to_text c,
      from-to_text t,
      refl,
    )
