-- ===== src/PassedOn/Charged.antt =====
-- lib/passed-on.ts, passedOn: what a client is charged for what was bought or paid for them.
use reckon.Common.{
  ◌*◌, ◌^◌, ◌≡◌, ◌≢◌, ◌⊎◌, inl, inr, refl, ap, ◌∙◌, true, false, Bool-cases, Option, none, some,
  Text, codes, ok, arith,
}
use reckon.Common.Int.{pos, ◌+ℤ◌, ◌*ℤ◌, eq_of_parts}
use reckon.Common.IntLaws.{*ℤ-pos-one, *ℤ-pos_pos, pos-*}
use reckon.Decimal.{
  Decimal, Ratio, half_up, is_zero, ratio, ratio_mul, ratio_div, ratio_add, ratio_round, pow10,
}
use reckon.Decimal.Numeric.{from, to_text}
use reckon.Decimal.Fractions.{IsSound, ratio-IsSound, ratio_round-ok}
use reckon.Decimal.Exact.{pow10-pos}
use reckon.Decimal.RoundTrip.{from-to_text}
use reckon.PassedOn.{
  PassedKind, bought, paid_for, PassedOn, RuleSet, us_ca, flat_per_site, untaxed, Terms, Taxed,
  PassedLine, markup, price_of, passed_on, taxes_kind, taxes_goods, taxes_paid_for, from_site,
  no_source,
}
use reckon.PassedOn.Lines.{Rates, tax_due, taxed_at-tax_due}

-- The cost and so many hundredths of it more, as an exact fraction: cost × (100 + pct) ÷ 100.
abbrev pub marked_up : Decimal → Decimal → Ratio
marked_up c m = record {
  num = c.units *ℤ (m.units +ℤ pos (10 ^ m.scale * 100));
  den = pos (10 ^ c.scale * (10 ^ m.scale * 100));
}

-- What a client is charged: what was bought with the markup, and what was paid for them as it was.
abbrev pub charge_for : PassedKind → Decimal → Decimal → Ratio
charge_for bought c m = marked_up c m
charge_for paid_for c m = record { num = c.units; den = pos (10 ^ c.scale) }

-- No tax, or none yet for want of a site's rate.
abbrev pub IsUntaxed : Taxed → Type 0
IsUntaxed x = (x.taxable ≡ false) × (x.tax_rate_pct ≡ codes "0") × (x.tax_source ≡ no_source)

-- Taxed at the site's rate, which may be zero, or may be missing.
abbrev pub AtRate : Option Decimal → Taxed → Type 0
AtRate none x = IsUntaxed x × (x.needs_a_site ≡ true)
AtRate (some r) x =
    (x.needs_a_site ≡ false)
    × (((r.units ≡ pos 0) × IsUntaxed x)
        ⊎ ((r.units ≢ pos 0)
            × (x.taxable ≡ true)
            × (from x.tax_rate_pct ≡ ok r)
            × (x.tax_source ≡ from_site)))

-- What was paid for a client is never taxed; what was bought is, by every rule but the one that taxes nothing.
abbrev pub TaxedBy : PassedKind → RuleSet → Option Decimal → Taxed → Type 0
TaxedBy paid_for rule rate x = IsUntaxed x × (x.needs_a_site ≡ false)
TaxedBy bought untaxed rate x = IsUntaxed x × (x.needs_a_site ≡ false)
TaxedBy bought us_ca rate x = AtRate rate x
TaxedBy bought flat_per_site rate x = AtRate rate x

no_units : (d : Decimal) → is_zero d ≡ true → d.units ≡ pos 0
unfolding is_zero
no_units d z = eq_of_parts _ _ (ground arith)

some_units : (d : Decimal) → is_zero d ≡ false → d.units ≢ pos 0
unfolding is_zero
some_units d n e = let n' = rw e at n in cc

tax_due-AtRate : (rate : Option Decimal) → AtRate rate (tax_due true rate)
tax_due-AtRate none = ((refl, refl, refl), refl)
tax_due-AtRate (some r) = elim (Bool-cases (is_zero r)) [
  | inl z ↦ rw z (refl, inl (no_units r z, (refl, refl, refl)))
  | inr n ↦ rw n (refl, inr (some_units r n, refl, from-to_text r, refl))
]

taxes_kind-TaxedBy :
    (kind : PassedKind) (rule : RuleSet) (rate : Option Decimal)
    → TaxedBy kind rule rate (tax_due (taxes_kind kind rule) rate)
unfolding taxes_kind taxes_goods taxes_paid_for
taxes_kind-TaxedBy paid_for us_ca rate = ((refl, refl, refl), refl)
taxes_kind-TaxedBy paid_for flat_per_site rate = ((refl, refl, refl), refl)
taxes_kind-TaxedBy paid_for untaxed rate = ((refl, refl, refl), refl)
taxes_kind-TaxedBy bought us_ca rate = tax_due-AtRate rate
taxes_kind-TaxedBy bought flat_per_site rate = tax_due-AtRate rate
taxes_kind-TaxedBy bought untaxed rate = ((refl, refl, refl), refl)

-- 1 + pct ÷ 100 is (100 + pct) ÷ 100, exactly.
markup-hundredths :
    (m : Decimal)
    → markup m
      ≡ ok (record { num = m.units +ℤ pos (10 ^ m.scale * 100); den = pos (10 ^ m.scale * 100) })
unfolding markup ratio ratio_div ratio_add pow10
markup-hundredths m =
    let d : pos (10 ^ m.scale) *ℤ pos 100 *ℤ pos 1 ≡ pos (10 ^ m.scale * 100) =
      *ℤ-pos-one _ ∙ pos-* (10 ^ m.scale) 100 in
    let n : m.units *ℤ pos 1 *ℤ pos 1 *ℤ pos 1 ≡ m.units =
      *ℤ-pos-one _ ∙ *ℤ-pos-one _ ∙ *ℤ-pos-one m.units in
    let one : pos 1 *ℤ pos (10 ^ m.scale * 100) ≡ pos (10 ^ m.scale * 100) =
      pos-* 1 (10 ^ m.scale * 100) ∙ ap pos (omega arith) in
    rw (d, n, one, *ℤ-pos-one (pos (10 ^ m.scale * 100))) refl

marked_up-IsSound : (c m : Decimal) → IsSound (marked_up c m)
marked_up-IsSound c m =
    let hundreds =
      *ℤ-pos_pos (pos (10 ^ m.scale)) (pos 100) (omega (arith, pow10-pos m.scale)) (omega arith) in
    let below = rw (pos-* (10 ^ m.scale) 100) at hundreds in
    rw (pos-* (10 ^ c.scale) (10 ^ m.scale * 100)) at (
      *ℤ-pos_pos (pos (10 ^ c.scale)) (pos (10 ^ m.scale * 100)) (omega (arith, pow10-pos c.scale))
        below)

price_of-charge_for :
    (kind : PassedKind) (cost pct : Text) (c m : Decimal)
    → from cost ≡ ok c
    → from pct ≡ ok m
    → (price_of kind cost pct ≡ ok (charge_for kind c m)) × IsSound (charge_for kind c m)
unfolding price_of ratio ratio_mul pow10
price_of-charge_for bought cost pct c m ec em = (
  rw (ec, em, markup-hundredths m, pos-* (10 ^ c.scale) (10 ^ m.scale * 100)) refl,
  marked_up-IsSound c m,
)
price_of-charge_for paid_for cost pct c m ec em = (rw ec refl, ratio-IsSound c)

-- What was bought or paid for a client, its figures and the terms' readable, comes to one line of
-- quantity 1, whose price and amount read as what the client is charged, rounded half up to four
-- places and to the currency's: the cost and the markup for what was bought, the cost for what was
-- paid. Its cost and tax paid read as they were given. What was paid for the client is not
-- taxed, and what was bought is taxed at the site's rate, where that is known and not zero, unless the
-- operator's rule taxes nothing; a missing rate is told where it is wanted.
pub passed_on-Charged :
    (line : PassedOn) (terms : Terms) (c t m : Decimal) (rate : Option Decimal)
    → from line.cost ≡ ok c
    → from line.tax_paid ≡ ok t
    → from terms.purchase_markup_pct ≡ ok m
    → Rates terms.site_rate_pct rate
    → (o : PassedLine) × (u a : Decimal) × (passed_on line terms ≡ ok o)
      × (o.qty ≡ codes "1")
      × (from o.unit_price ≡ ok u)
      × (ratio_round (charge_for line.kind c m) 4 half_up ≡ ok u)
      × (from o.amount ≡ ok a)
      × (ratio_round (charge_for line.kind c m) terms.places half_up ≡ ok a)
      × (from o.ex_tax_cost ≡ ok c)
      × (from o.tax_paid ≡ ok t)
      × TaxedBy line.kind terms.rule_set rate o.taxed
unfolding passed_on
passed_on-Charged line terms c t m rate ec et em er =
    let (ep, sound) = price_of-charge_for line.kind line.cost terms.purchase_markup_pct c m ec em in
    let p = charge_for line.kind c m in
    let (u, eu, _) = ratio_round-ok p 4 half_up sound in
    let (a, ea, _) = ratio_round-ok p terms.places half_up sound in
    let taxed = tax_due (taxes_kind line.kind terms.rule_set) rate in
    (
      record {
        qty = codes "1";
        unit = codes "each";
        unit_price = to_text u;
        amount = to_text a;
        taxed = taxed;
        ex_tax_cost = to_text c;
        tax_paid = to_text t;
      },
      u,
      a,
      rw ep (rw eu (rw ea (rw (taxed_at-tax_due _ _ rate er) (rw ec (rw et refl))))),
      refl,
      from-to_text u,
      eu,
      from-to_text a,
      ea,
      from-to_text c,
      from-to_text t,
      taxes_kind-TaxedBy line.kind terms.rule_set rate,
    )
