-- ===== src/Tax/Said.antt =====
-- lib/server/valuation/tax.ts: the part of each taxable line, told by the answers about its site.
use reckon.Common.{
  ◌≡◌, refl, sym, ap, ◌∙◌, subst, inl, inr, not, Bool-cases, Option, none, some, is_some, ◌&&◌,
  List, [], ◌∷◌, Text, ok, ok-injective, arith,
}
use reckon.Common.Maps.{Map}
use reckon.Common.Int.{pos, ◌<ℤ◌, ◌≤ℤ◌}
use reckon.Decimal.{Decimal, Ratio, gt, of_nat, zero_decimal, ratio, ratio_mul, ratio_div}
use reckon.Decimal.Numeric.{from}
use reckon.Decimal.Exact.{lt_of_gt, le_of_not_gt, at_self, at-zero}
use reckon.Decimal.Fractions.{IsSound, ratio-IsSound, ratio_mul-IsSound, ratio_div-IsSound}
use reckon.Tax.{
  TaxLine, TaxCheck, Part, pick_field, field, or_else, parse_rate, share_of, split_part, as_of,
  earliest,
}
use reckon.Tax.Checks.{answers}
use reckon.Tax.InForce.{IsLatest}
use reckon.Tax.Parts.{Reads, Given, LineReads, gt-ne, hundred, Known, Known-split}

-- One thing of the answer in force, and of the earliest where that one is silent or there is none.
abbrev pub said : (TaxCheck → Option Text) → Option TaxCheck → Option TaxCheck → Option Text
said of none none = none
said of none (some c) = of c
said of (some f) none = of f
said of (some f) (some c) = elim (of f) [ none ↦ of c | some t ↦ some t ]

-- A share of a tax: so much of it as its rate is of the whole rate, where both are known and the
-- whole rate is more than zero.
abbrev pub ShareOf : Ratio → Option Text → Option Text → Option Ratio → Type 0
ShareOf tax none pct s = s ≡ none
ShareOf tax (some whole) none s = s ≡ none
ShareOf tax (some whole) (some pct) none = (w : Decimal) × (from whole ≡ ok w) × (w.units ≤ℤ pos 0)
ShareOf tax (some whole) (some pct) (some s) =
    (w d : Decimal) × (from whole ≡ ok w)
    × (from pct ≡ ok d)
    × (pos 0 <ℤ w.units)
    × (ratio_div (ratio_mul tax (ratio d)) (ratio w) ≡ ok s)

-- A line's part: its amount, its tax of that at its rate, the state's and the districts' shares of
-- the tax by the answers, and whether it rests on an earliest answer alone, or on none.
abbrev pub IsPartOf : Option TaxCheck → Option TaxCheck → TaxLine → Part → Type 0
IsPartOf inforce first l p =
    (from l.amount ≡ ok p.amount)
    × (p.rate ≡ l.tax_rate_pct)
    × ((r : Decimal) × (from l.tax_rate_pct ≡ ok r)
        × (ratio_div (ratio_mul (ratio p.amount) (ratio r)) (ratio (of_nat 100)) ≡ ok p.tax))
    × ShareOf p.tax (said (λ c. c.rate_pct) inforce first) (said (λ c. c.state_pct) inforce first)
        p.state
    × ShareOf p.tax (said (λ c. c.rate_pct) inforce first)
        (said (λ c. c.district_pct) inforce first) p.district
    × (p.unsplit ≡ not (is_some (said (λ c. c.rate_pct) inforce first)))
    × (p.estimated ≡ (not (is_some inforce) && is_some first))

said-pick_field :
    (of : TaxCheck → Option Text) (inforce first : Option TaxCheck)
    → pick_field of inforce first ≡ said of inforce first
unfolding pick_field field or_else
said-pick_field of none none = refl
said-pick_field of none (some c) = refl
said-pick_field of (some f) none = kept (of f)
  where
    kept : (o : Option Text) → or_else o none ≡ o
    kept none = refl
    kept (some t) = refl
said-pick_field of (some f) (some c) = chosen (of f)
  where
    chosen : (o : Option Text) → or_else o (of c) ≡ (elim o [ none ↦ of c | some t ↦ some t ])
    chosen none = refl
    chosen (some t) = refl

-- The share and whether there is a whole rate, by the texts of both rates.
abbrev Shared : Ratio → Option Text → Option Text → Type 0
Shared tax whole pct =
    (w : Option Decimal) × (s : Option Ratio) × (parse_rate whole ≡ ok w)
    × (is_some w ≡ is_some whole)
    × (share_of tax w pct ≡ ok s)
    × ShareOf tax whole pct s

share_of-ShareOf :
    (tax : Ratio) (whole pct : Option Text)
    → IsSound tax
    → Given Reads whole
    → Given Reads pct
    → Shared tax whole pct
unfolding parse_rate share_of
share_of-ShareOf tax none pct h k j = (none, none, refl, refl, refl, refl)
share_of-ShareOf tax (some whole) none h (w, e) j = (some w, none, rw e refl, refl, refl, refl)
share_of-ShareOf tax (some whole) (some pct) h (w, e) (d, e') =
    elim (Bool-cases (gt w zero_decimal)) [
      | inl g ↦
          let (r, run, sound) =
            ratio_div-IsSound (ratio_mul tax (ratio d)) (ratio w)
              (ratio_mul-IsSound tax (ratio d) h (ratio-IsSound d)) (gt-ne w g) in
          let up = lt_of_gt w zero_decimal w.scale (omega arith) (omega arith) g in
          (
            some w,
            some r,
            rw e refl,
            refl,
            rw g (rw e' (rw run refl)),
            (w, d, e, e', rw (at_self w, at-zero w.scale) at up, run),
          )
      | inr n ↦
          let low = le_of_not_gt w zero_decimal w.scale (omega arith) (omega arith) n in
          (some w, none, rw e refl, refl, rw n refl, (w, e, rw (at_self w, at-zero w.scale) at low))
    ]

pub split_part-IsPartOf :
    (l : TaxLine) (inforce first : Option TaxCheck)
    → LineReads l
    → Known inforce first
    → (p : Part) × (split_part l inforce first ≡ ok p) × IsPartOf inforce first l p
unfolding split_part
split_part-IsPartOf l inforce first ((a, ea), (r, er)) k =
    let (tax, et, sound) =
      ratio_div-IsSound (ratio_mul (ratio a) (ratio r)) (ratio (of_nat 100))
        (ratio_mul-IsSound (ratio a) (ratio r) (ratio-IsSound a) (ratio-IsSound r)) hundred in
    let of_rate = said-pick_field (λ c. c.rate_pct) inforce first in
    let of_state = said-pick_field (λ c. c.state_pct) inforce first in
    let of_district = said-pick_field (λ c. c.district_pct) inforce first in
    let whole =
      subst (Given Reads) of_rate (Known-split (λ c. c.rate_pct) (λ c h. h.1) inforce first k) in
    let (w, state, ew, same, es, is_state) = share_of-ShareOf tax _ _ sound whole (
      subst (Given Reads) of_state (Known-split (λ c. c.state_pct) (λ c h. h.2) inforce first k)) in
    let (v, district, ev, _, ed, is_district) = share_of-ShareOf tax _ _ sound whole (
      subst (Given Reads) of_district
        (Known-split (λ c. c.district_pct) (λ c h. h.3) inforce first k)) in
    let ed' =
      subst (λ x. share_of tax x (said (λ c. c.district_pct) inforce first) ≡ ok district)
        (ok-injective (sym ev ∙ ew)) ed in
    (
      record {
        amount = a;
        rate = l.tax_rate_pct;
        tax = tax;
        state = state;
        district = district;
        estimated = not (is_some inforce) && is_some first;
        unsplit = not (is_some w);
        jurisdiction = pick_field (λ c. c.jurisdiction) inforce first;
      },
      rw
          (
            ea,
            er,
            et,
            ap parse_rate of_rate ∙ ew,
            ap (share_of tax w) of_state ∙ es,
            ap (share_of tax w) of_district ∙ ed',
          )
          refl,
      (ea, refl, (r, er, et), is_state, is_district, ap not same, refl),
    )

-- The parts of some lines, one for one: each by the newest answer about its site asked by the
-- invoice's day and the earliest of all.
module _ (checks : List TaxCheck) (issued_on : Map (Option Text)) (today : Text) where
  abbrev pub IsLinePart : TaxLine → Part → Type 0
  IsLinePart l p =
      (inforce : Option TaxCheck) × IsLatest (as_of l.invoice_id issued_on today)
        (answers l.site_id checks) inforce
      × IsPartOf inforce (earliest (answers l.site_id checks)) l p

  abbrev pub AreParts : List TaxLine → List Part → Type 0
  AreParts [] [] = Unit
  AreParts [] (p ∷ ps) = ⊥
  AreParts (l ∷ ls) [] = ⊥
  AreParts (l ∷ ls) (p ∷ ps) = IsLinePart l p × AreParts ls ps
