-- ===== src/Tax/Grouped.antt =====
-- lib/server/valuation/tax.ts: the parts of each invoice are those of its own taxable lines.
use mathlib.Core.List.{append_assoc, append-nil}
use reckon.Common.{
  ◌≡◌, refl, sym, ap, ◌∙◌, subst, inl, inr, true, Bool-cases, ◌&&◌, if◌then◌else◌, Option, none,
  some, List, [], ◌∷◌, ◌++◌, filter, All, is_some, each, Text, text_eq, text_eq_iff, Result, ok,
}
use reckon.Common.Maps.{Map, get, get-put, IsMap, put-IsMap}
use reckon.Common.Sorting.{sort_by-All}
use reckon.Tax.{
  TaxLine, TaxCheck, Part, or_none, add_to, by_site, asked_before, sort_each, site_checks, as_of,
  in_force, earliest, part_of, collect,
}
use reckon.Tax.Checks.{about, answers, site_checks-answers}
use reckon.Tax.InForce.{IsLatest, in_force-site_checks, All-middle}
use reckon.Tax.Parts.{Reads, Given, LineReads, CheckReads, Known, IsFair, split_part-ok}

-- An answer whose figures are numbers, where it has them.
abbrev pub Figures : TaxCheck → Type 0
Figures c = Given Reads c.rate_pct × Given Reads c.state_pct × Given Reads c.district_pct

about-CheckReads :
    (id : Text) (checks : List TaxCheck) → All Figures checks → All CheckReads (about id checks)
about-CheckReads id [] h = tt
about-CheckReads id (c ∷ cs) ((rate, state, district), hs) =
    elim (Bool-cases (is_some c.rate_pct)) [
      | inl r ↦ elim (Bool-cases (text_eq c.site_id id)) [
        | inl e ↦ rw (r, e) ((r, rate, state, district), about-CheckReads id cs hs)
        | inr e ↦ rw (r, e) (about-CheckReads id cs hs)
      ]
      | inr r ↦ rw r (about-CheckReads id cs hs)
    ]

pub answers-CheckReads :
    (site : Option Text) (checks : List TaxCheck)
    → All Figures checks
    → All CheckReads (answers site checks)
answers-CheckReads none checks h = tt
answers-CheckReads (some []) checks h = tt
answers-CheckReads (some (c ∷ cs)) checks h =
    sort_by-All asked_before CheckReads (about (c ∷ cs) checks) (about-CheckReads (c ∷ cs) checks h)

pub Known-IsLatest :
    (on : Text) (cs : List TaxCheck) (o : Option TaxCheck)
    → IsLatest on cs o
    → All CheckReads cs
    → Known o (earliest cs)
unfolding earliest
Known-IsLatest on [] none h k = tt
Known-IsLatest on [] (some r) ([], after, e, asked, older, later) k = cc
Known-IsLatest on [] (some r) (b ∷ before, after, e, asked, older, later) k = cc
Known-IsLatest on (c ∷ cs) none h (k, ks) = k
Known-IsLatest on (c ∷ cs) (some r) (before, after, e, asked, older, later) (k, ks) =
    (All-middle CheckReads before after r (subst (All CheckReads) e (k, ks)), k)

abbrev pub sites_of : List TaxCheck → Map (List TaxCheck)
sites_of checks = sort_each (by_site [] checks)

-- An invoice's taxable lines, in order.
abbrev pub taxed_lines : Text → List TaxLine → List TaxLine
taxed_lines id lines = filter (λ l. l.taxable && text_eq l.invoice_id id) lines

-- A line's part, by these answers.
abbrev pub part_at : List TaxCheck → Map (Option Text) → Text → TaxLine → Result Part
part_at checks issued_on today l = part_of l (sites_of checks) issued_on today

part_of-ok :
    (checks : List TaxCheck) (issued_on : Map (Option Text)) (today : Text) (l : TaxLine)
    → All Figures checks
    → LineReads l
    → (p : Part) × (part_at checks issued_on today l ≡ ok p) × IsFair p
unfolding part_of
part_of-ok checks issued_on today l figures h =
    let list = site_checks l.site_id (sites_of checks) in
    let on = as_of l.invoice_id issued_on today in
    split_part-ok l (in_force on list) (earliest list) h (
      subst (λ cs. Known (in_force on list) (earliest cs))
        (sym (site_checks-answers l.site_id checks))
        (Known-IsLatest on (answers l.site_id checks) (in_force on list)
          (in_force-site_checks on l.site_id checks) (answers-CheckReads l.site_id checks figures)))

-- What a key holds once more is added to it.
unfoldable pub grown : {A : Type 0} → Option (List A) → List A → Option (List A)
grown o [] = o
grown o (x ∷ xs) = some (or_none o ++ x ∷ xs)

grown-append :
    {A : Type 0} (o : Option (List A)) (xs ys : List A) → grown (grown o xs) ys ≡ grown o (xs ++ ys)
unfolding grown
grown-append o [] ys = refl
grown-append o (x ∷ xs) [] = ap (λ zs. some (or_none o ++ x ∷ zs)) (sym (append-nil xs))
grown-append o (x ∷ xs) (y ∷ ys) = ap some (append_assoc (or_none o) (x ∷ xs) (y ∷ ys))

get-add_to :
    {A : Type 0} (k j : Text) (x : A) (m : Map (List A))
    → get j (add_to k x m) ≡ grown (get j m) (if text_eq k j then x ∷ [] else [])
unfolding add_to grown
get-add_to k j x m = elim (Bool-cases (text_eq k j)) [
  | inl e ↦
      rw (get-put k j (or_none (get k m) ++ x ∷ []) m, e)
        (ap (λ i. some (or_none (get i m) ++ x ∷ [])) ((text_eq_iff k j).0 e))
  | inr e ↦ rw (get-put k j (or_none (get k m) ++ x ∷ []) m, e) refl
]

add_to-IsMap : {A : Type 0} (k : Text) (x : A) (m : Map (List A)) → IsMap m → IsMap (add_to k x m)
unfolding add_to
add_to-IsMap k x m h = put-IsMap k (or_none (get k m) ++ x ∷ []) m h

module _ (checks : List TaxCheck) (issued_on : Map (Option Text)) (today : Text) where
  -- What an invoice holds once lines are met: its own lines' parts are added, in their order.
  abbrev pub Grows : List TaxLine → Option (List Part) → Option (List Part) → Text → Type 0
  Grows lines before after id =
      (qs : List Part) × (each (part_at checks issued_on today) (taxed_lines id lines) ≡ ok qs)
      × (after ≡ grown before qs)
      × All IsFair qs

  Grows-cons :
      (l : TaxLine) (ls : List TaxLine) (p : Part) (before after : Option (List Part)) (id : Text)
      → l.taxable ≡ true
      → part_at checks issued_on today l ≡ ok p
      → IsFair p
      → Grows ls (grown before (if text_eq l.invoice_id id then p ∷ [] else [])) after id
      → Grows (l ∷ ls) before after id
  unfolding grown part_of
  Grows-cons l ls p before after id t e fair (qs, run, grows, fairs) =
      elim (Bool-cases (text_eq l.invoice_id id)) [
        | inl y ↦ (
          p ∷ qs,
          rw (t, y, e, run) refl,
          (rw y at grows) ∙ grown-append before (p ∷ []) qs,
          (fair, fairs),
        )
        | inr n ↦ (qs, rw (t, n, run) refl, rw n at grows, fairs)
      ]

  -- A line that is taxed adds its part to its invoice's.
  collect-cons :
      (l : TaxLine) (ls : List TaxLine) (p : Part) (m : Map (List Part))
      → l.taxable ≡ true
      → part_at checks issued_on today l ≡ ok p
      → collect m (l ∷ ls) (sites_of checks) issued_on today
        ≡ collect (add_to l.invoice_id p m) ls (sites_of checks) issued_on today
  unfolding collect
  collect-cons l ls p m t e = simp (t, e)

  pub collect-ok :
      (lines : List TaxLine) (m : Map (List Part))
      → All Figures checks
      → All LineReads lines
      → (parts : Map (List Part)) × (collect m lines (sites_of checks) issued_on today ≡ ok parts)
        × ((id : Text) → Grows lines (get id m) (get id parts) id)
        × (IsMap m → IsMap parts)
  unfolding collect grown
  collect-ok [] m figures h = (m, refl, λ id. ([], refl, refl, tt), λ g. g)
  collect-ok (l ∷ ls) m figures (h, hs) = elim (Bool-cases l.taxable) [
    | inr n ↦
        let (parts, run, grows, once) = collect-ok ls m figures hs in
        (parts, rw n run, λ id. rw n (grows id), once)
    | inl t ↦
        let (p, e, fair) = part_of-ok checks issued_on today l figures h in
        let (parts, run, grows, once) = collect-ok ls (add_to l.invoice_id p m) figures hs in
        (
          parts,
          collect-cons l ls p m t e ∙ run,
          λ id. Grows-cons l ls p (get id m) (get id parts) id t e fair (
              subst (λ o. Grows ls o (get id parts) id) (get-add_to l.invoice_id id p m)
                (grows id)),
          λ g. once (add_to-IsMap l.invoice_id p m g),
        )
  ]
