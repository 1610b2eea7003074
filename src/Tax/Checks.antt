-- ===== src/Tax/Checks.antt =====
-- lib/server/valuation/tax.ts: which answers a line is split by.
use mathlib.Core.List.{append_assoc, append-nil}
use reckon.Common.{
  ◌≡◌, refl, sym, ap, ◌∙◌, inl, inr, Bool, true, false, Bool-cases, ◌&&◌, if◌then◌else◌, Option,
  none, some, List, [], ◌∷◌, ◌++◌, filter, is_some, Text, text_eq, text_eq_iff,
}
use reckon.Common.Maps.{Map, get, get-put}
use reckon.Common.Sorting.{sort_by}
use reckon.Tax.{TaxCheck, or_none, add_to, by_site, asked_before, sort_each, site_checks}

pub get-add_to :
    {A : Type 0} (k j : Text) (x : A) (m : Map (List A))
    → or_none (get j (add_to k x m)) ≡ or_none (get j m) ++ (if text_eq k j then x ∷ [] else [])
unfolding add_to
get-add_to k j x m = elim (Bool-cases (text_eq k j)) [
  | inl e ↦
      rw (get-put k j (or_none (get k m) ++ x ∷ []) m, e)
        (ap (λ i. or_none (get i m) ++ x ∷ []) ((text_eq_iff k j).0 e))
  | inr e ↦
      rw (get-put k j (or_none (get k m) ++ x ∷ []) m, e) (sym (append-nil (or_none (get j m))))
]

-- The rated answers about a site, in the order they are listed.
abbrev pub about : Text → List TaxCheck → List TaxCheck
about id checks = filter (λ c. is_some c.rate_pct && text_eq c.site_id id) checks

by_site-about :
    (id : Text) (sites : Map (List TaxCheck)) (cs : List TaxCheck)
    → or_none (get id (by_site sites cs)) ≡ or_none (get id sites) ++ about id cs
unfolding by_site
by_site-about id sites [] = sym (append-nil (or_none (get id sites)))
by_site-about id sites (c ∷ cs) = elim (Bool-cases (is_some c.rate_pct)) [
  | inl e ↦ rw e (
      by_site-about id (add_to c.site_id c sites) cs
      ∙ ap (λ xs. xs ++ about id cs) (get-add_to c.site_id id c sites)
      ∙ append_assoc (or_none (get id sites)) (if text_eq c.site_id id then c ∷ [] else [])
          (about id cs)
      ∙ ap (λ xs. or_none (get id sites) ++ xs) (one (text_eq c.site_id id)))
  | inr e ↦ rw e (by_site-about id sites cs)
]
  where
    one :
        (b : Bool)
        → (if b then c ∷ [] else []) ++ about id cs ≡ (if b then c ∷ about id cs else about id cs)
    one true = refl
    one false = refl

sort_each-get :
    (id : Text) (m : Map (List TaxCheck))
    → or_none (get id (sort_each m)) ≡ sort_by asked_before (or_none (get id m))
unfolding sort_each get sort_by
sort_each-get id [] = refl
sort_each-get id ((k, cs) ∷ m) = elim (Bool-cases (text_eq k id)) [
  | inl e ↦ rw e refl
  | inr e ↦ rw e (sort_each-get id m)
]

-- The answers that a line's site has: those about it that have a rate, oldest first.
abbrev pub answers : Option Text → List TaxCheck → List TaxCheck
answers none checks = []
answers (some []) checks = []
answers (some (c ∷ cs)) checks = sort_by asked_before (about (c ∷ cs) checks)

-- The map of the answers by their sites, each site's sorted, gives for a line's
-- site the answers about that site that have a rate, oldest first, and none for
-- a line without a site.
pub site_checks-answers :
    (site : Option Text) (checks : List TaxCheck)
    → site_checks site (sort_each (by_site [] checks)) ≡ answers site checks
unfolding site_checks
site_checks-answers none checks = refl
site_checks-answers (some []) checks = refl
site_checks-answers (some (c ∷ cs)) checks =
    sort_each-get (c ∷ cs) (by_site [] checks)
    ∙ ap (sort_by asked_before) (by_site-about (c ∷ cs) [] checks)
