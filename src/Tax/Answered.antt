-- ===== src/Tax/Answered.antt =====
-- lib/server/valuation/tax.ts: the parts that are added up are those the answers tell, and their shares' sums.
use reckon.Common.{
  ◌≡◌, refl, sym, ap, ◌∙◌, subst, inl, inr, Bool-cases, Option, none, some, List, [], ◌∷◌, filter,
  each, All, Bool, ℕ, Text, ok, ok-injective, Result-cases, err-ne-ok,
}
use reckon.Common.Maps.{Map}
use reckon.Decimal.{Decimal, Ratio, half_up, ratio_add, ratio_round}
use reckon.Tax.{
  TaxLine, TaxCheck, Part, as_of, in_force, earliest, part_of, split_part, known, add_all,
  add_shares, site_checks,
}
use reckon.Tax.Checks.{answers, site_checks-answers}
use reckon.Tax.InForce.{in_force-site_checks}
use reckon.Tax.Parts.{LineReads}
use reckon.Tax.Grouped.{Figures, part_at, sites_of, Known-IsLatest, answers-CheckReads, taxed_lines}
use reckon.Tax.Said.{IsLinePart, AreParts, split_part-IsPartOf}

All-filter :
    {A : Type 0} (P : A → Type 0) (p : A → Bool) (xs : List A) → All P xs → All P (filter p xs)
All-filter P p [] h = tt
All-filter P p (x ∷ xs) (h, hs) = elim (Bool-cases (p x)) [
  | inl t ↦ rw t (h, All-filter P p xs hs)
  | inr f ↦ rw f (All-filter P p xs hs)
]

module _ (checks : List TaxCheck) (issued_on : Map (Option Text)) (today : Text)
    (figures : All Figures checks) where
  part_at-IsLinePart :
      (l : TaxLine)
      → LineReads l
      → (p : Part) × (part_at checks issued_on today l ≡ ok p)
        × IsLinePart checks issued_on today l p
  unfolding part_of
  part_at-IsLinePart l h =
      let on = as_of l.invoice_id issued_on today in
      let list = site_checks l.site_id (sites_of checks) in
      let latest = in_force-site_checks on l.site_id checks in
      let same = site_checks-answers l.site_id checks in
      let (p, run, part) =
        split_part-IsPartOf l (in_force on list) (earliest (answers l.site_id checks)) h (
          Known-IsLatest on (answers l.site_id checks) (in_force on list) latest
            (answers-CheckReads l.site_id checks figures)) in
      (
        p,
        ap (λ cs. split_part l (in_force on list) (earliest cs)) same ∙ run,
        (in_force on list, latest, part),
      )

  each-AreParts :
      (ls : List TaxLine) (ps : List Part)
      → All LineReads ls
      → each (part_at checks issued_on today) ls ≡ ok ps
      → AreParts checks issued_on today ls ps
  each-AreParts [] ps h e = subst (AreParts checks issued_on today []) (ok-injective e) tt
  each-AreParts (l ∷ ls) ps (h, hs) e =
      let (p, run, part) = part_at-IsLinePart l h in
      elim (Result-cases (each (part_at checks issued_on today) ls)) [
        | inl (qs, rest) ↦
            subst (AreParts checks issued_on today (l ∷ ls))
              (ok-injective (rw rest at (rw run at e))) (part, each-AreParts ls qs hs rest)
        | inr (x, rest) ↦ absurd (err-ne-ok (rw rest at (rw run at e)))
      ]

  -- The parts of an invoice's taxable lines are those the answers tell.
  pub taxed_lines-AreParts :
      (id : Text) (lines : List TaxLine) (ps : List Part)
      → All LineReads lines
      → each (part_at checks issued_on today) (taxed_lines id lines) ≡ ok ps
      → AreParts checks issued_on today (taxed_lines id lines) ps
  taxed_lines-AreParts id lines ps h e =
      each-AreParts (taxed_lines id lines) ps (All-filter LineReads _ lines h) e

-- The sum of the shares that are known, from one on.
abbrev pub total_from : Ratio → List (Option Ratio) → Ratio
total_from a [] = a
total_from a (none ∷ rs) = total_from a rs
total_from a (some r ∷ rs) = total_from (ratio_add a r) rs

-- Shares add up to nothing known where none is, and else to the sum of those that are, rounded half up.
abbrev pub AddUpTo : ℕ → List (Option Ratio) → Option Decimal → Type 0
AddUpTo places [] o = o ≡ none
AddUpTo places (none ∷ rs) o = AddUpTo places rs o
AddUpTo places (some r ∷ rs) o =
    (d : Decimal) × (o ≡ some d) × (ratio_round (total_from r rs) places half_up ≡ ok d)

add_all-total_from : (a : Ratio) (rs : List (Option Ratio)) → add_all a (known rs) ≡ total_from a rs
unfolding add_all known
add_all-total_from a [] = refl
add_all-total_from a (none ∷ rs) = add_all-total_from a rs
add_all-total_from a (some r ∷ rs) = add_all-total_from (ratio_add a r) rs

pub add_shares-AddUpTo :
    (places : ℕ) (rs : List (Option Ratio)) (o : Option Decimal)
    → add_shares (known rs) places ≡ ok o
    → AddUpTo places rs o
unfolding add_shares known
add_shares-AddUpTo places [] o e = sym (ok-injective e)
add_shares-AddUpTo places (none ∷ rs) o e = add_shares-AddUpTo places rs o e
add_shares-AddUpTo places (some r ∷ rs) o e =
    elim (Result-cases (ratio_round (add_all r (known rs)) places half_up)) [
      | inl (d, run) ↦ (
        d,
        sym (ok-injective (rw run at e)),
        ap (λ x. ratio_round x places half_up) (sym (add_all-total_from r rs)) ∙ run,
      )
      | inr (x, run) ↦ absurd (err-ne-ok (rw run at e))
    ]
