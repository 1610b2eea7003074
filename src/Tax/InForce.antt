-- ===== src/Tax/InForce.antt =====
-- lib/server/valuation/tax.ts: the answer in force on a day, and the earliest.
use mathlib.Core.List.{reverse-cons}
use reckon.Common.{
  ◌≤◌, ◌≡◌, refl, sym, ap, subst, inl, inr, Bool, true, false, Bool-cases, if◌then◌else◌, Option,
  none, some, List, [], ◌∷◌, ◌++◌, find, reverse, All, Text, arith,
}
use reckon.Common.Sorting.{IsOrder, IsSorted, sort_by-IsSorted}
use reckon.Tax.{TaxCheck, asked_before, sort_each, by_site, site_checks, asked_by, in_force}
use reckon.Tax.Checks.{about, answers, site_checks-answers}

asked_before-IsOrder : IsOrder asked_before
unfolding asked_before
asked_before-IsOrder = record { asymm = λ a b h. ground arith; trans = λ a b c h k. ground arith }

answers-IsSorted :
    (site : Option Text) (checks : List TaxCheck) → IsSorted asked_before (answers site checks)
answers-IsSorted none checks = tt
answers-IsSorted (some []) checks = tt
answers-IsSorted (some (c ∷ cs)) checks =
    sort_by-IsSorted asked_before asked_before-IsOrder (about (c ∷ cs) checks)

-- The answer is the newest of those asked by the day: none after it was asked
-- by then, and none before it is newer.
abbrev pub IsLatest : Text → List TaxCheck → Option TaxCheck → Type 0
IsLatest on cs none = All (λ c. asked_by on c ≡ false) cs
IsLatest on cs (some r) =
    (before : List TaxCheck) × (after : List TaxCheck) × (cs ≡ before ++ r ∷ after)
    × (asked_by on r ≡ true)
    × All (λ (c : TaxCheck). c.checked_at ≤ r.checked_at) before
    × All (λ c. asked_by on c ≡ false) after

find-append {ℓ} :
    {A : Type ℓ} (p : A → Bool) (xs ys : List A)
    → find p (xs ++ ys) ≡ (elim (find p xs) [ none ↦ find p ys | some r ↦ some r ])
find-append p [] ys = refl
find-append p (x ∷ xs) ys = elim (Bool-cases (p x)) [
  | inl e ↦ rw e refl
  | inr e ↦ rw (e, find-append p xs ys) refl
]

pub All-middle {ℓ κ} :
    {A : Type ℓ} (P : A → Type κ) (xs ys : List A) (r : A) → All P (xs ++ r ∷ ys) → P r
All-middle P [] ys r (h, hs) = h
All-middle P (x ∷ xs) ys r (h, hs) = All-middle P xs ys r hs

not_later : (c r : TaxCheck) → asked_before r c ≡ false → c.checked_at ≤ r.checked_at
unfolding asked_before
not_later c r h = ground arith

in_force-cons :
    (on : Text) (c : TaxCheck) (cs : List TaxCheck)
    → in_force on (c ∷ cs)
      ≡ (elim (in_force on cs) [ none ↦ if asked_by on c then some c else none | some r ↦ some r ])
unfolding in_force
in_force-cons on c cs = rw (reverse-cons c cs) (find-append (asked_by on) (reverse cs) (c ∷ []))

in_force-nil : (on : Text) → in_force on [] ≡ none
unfolding in_force
in_force-nil on = refl

in_force-IsLatest :
    (on : Text) (cs : List TaxCheck) → IsSorted asked_before cs → IsLatest on cs (in_force on cs)
in_force-IsLatest on [] h = subst (IsLatest on []) (sym (in_force-nil on)) tt
in_force-IsLatest on (c ∷ cs) (h, hs) =
    subst (IsLatest on (c ∷ cs)) (sym (in_force-cons on c cs))
      (longer (in_force on cs) (in_force-IsLatest on cs hs))
  where
    longer :
        (o : Option TaxCheck)
        → IsLatest on cs o
        → IsLatest on
            (c ∷ cs)
            (elim o [ none ↦ if asked_by on c then some c else none | some r ↦ some r ])
    longer none k = elim (Bool-cases (asked_by on c)) [
      | inl e ↦ rw e ([], cs, refl, e, tt, k)
      | inr e ↦ rw e (e, k)
    ]
    longer (some r) (before, after, e, asked, older, later) = (
      c ∷ before,
      after,
      ap (λ xs. c ∷ xs) e,
      asked,
      (
        not_later c r (
            All-middle (λ y. asked_before y c ≡ false) before after r
              (subst (All (λ y. asked_before y c ≡ false)) e h)),
        older,
      ),
      later,
    )

pub in_force-site_checks :
    (on : Text) (site : Option Text) (checks : List TaxCheck)
    → IsLatest on
        (answers site checks)
        (in_force on (site_checks site (sort_each (by_site [] checks))))
in_force-site_checks on site checks =
    subst (λ cs. IsLatest on (answers site checks) (in_force on cs))
      (sym (site_checks-answers site checks))
      (in_force-IsLatest on (answers site checks) (answers-IsSorted site checks))
