-- ===== src/TripWrite/Outcomes.antt =====
-- lib/server/trip-write.ts, legsFor: the service a trip bills as, or why it is refused.
use reckon.Common.{
  ◌≡◌, refl, if_cases, Option, none, some, List, [], ◌∷◌, any, length, Text, text_eq, text_eq_iff,
  ◌≢◌, ◌⊎◌, inl, inr, arith,
}
use reckon.Common.Says.{Says, Says-if, Says-no}
use reckon.Trips.{Leg}
use reckon.Trips.Legs.{is_set}
use reckon.TripWrite.{
  MileService, service, why, the_only, mile_service_for, LegsFor, assigned, refused, bill_as,
}

-- A client is named.
abbrev pub IsNamed : Option Text → Type 0
IsNamed none = ⊥
IsNamed (some []) = ⊥
IsNamed (some (c ∷ cs)) = Unit

-- Some leg has a client.
abbrev pub ForSomeone : List Leg → Type 0
ForSomeone [] = ⊥
ForSomeone (l ∷ ls) = IsNamed l.entity_id ⊎ ForSomeone ls

abbrev pub IsOneOf : Text → List Text → Type 0
IsOneOf s [] = ⊥
IsOneOf s (u ∷ us) = (u ≡ s) ⊎ IsOneOf s us

abbrev pub Unasked : Option Text → Type 0
Unasked asked = (asked ≡ none) ⊎ (asked ≡ some [])

-- The service charged by the mile that was asked for, or the only one where none was asked for.
abbrev pub IsService : List Text → Option Text → Text → Type 0
IsService services asked s =
    ((asked ≡ some s) × (s ≢ []) × IsOneOf s services) ⊎ (Unasked asked × (services ≡ s ∷ []))

-- The one asked for is not charged by the mile, or none was asked for and there is not exactly one.
abbrev pub NoService : List Text → Option Text → Type 0
NoService services asked =
    ((s : Text) × (asked ≡ some s) × (s ≢ []) × (¬ IsOneOf s services))
    ⊎ (Unasked asked × (length services ≢ 1))

-- What the legs bill as: nothing exactly where none has a client; else the service, or
-- a refusal where there is none.
abbrev pub Outcome : List Text → Option Text → List Leg → LegsFor → Type 0
Outcome services asked legs (assigned ls none) = (ls ≡ legs) × (¬ ForSomeone legs)
Outcome services asked legs (assigned ls (some s)) =
    (ls ≡ legs) × ForSomeone legs × IsService services asked s
Outcome services asked legs (refused w) = ForSomeone legs × NoService services asked

is_set-Says : (o : Option Text) → Says (is_set o) (IsNamed o)
is_set-Says none = (λ e. absurd cc, λ k. elim k [ ])
is_set-Says (some []) = (λ e. absurd cc, λ k. elim k [ ])
is_set-Says (some (c ∷ cs)) = (λ e. tt, λ k. refl)

pub any-ForSomeone : (ls : List Leg) → Says (any (λ l. is_set l.entity_id) ls) (ForSomeone ls)
any-ForSomeone [] = (λ e. absurd cc, λ k. elim k [ ])
any-ForSomeone (l ∷ ls) = Says-if _ _ (is_set-Says l.entity_id) (any-ForSomeone ls)

any-IsOneOf : (s : Text) (us : List Text) → Says (any (λ u. text_eq u s) us) (IsOneOf s us)
any-IsOneOf s [] = (λ e. absurd cc, λ k. elim k [ ])
any-IsOneOf s (u ∷ us) = Says-if _ _ (text_eq_iff u s) (any-IsOneOf s us)

abbrev pub Answered : List Text → Option Text → MileService → Type 0
Answered services asked (service s) = IsService services asked s
Answered services asked (why w) = NoService services asked

the_only-Answered :
    (services : List Text) (asked : Option Text)
    → Unasked asked
    → Answered services asked (the_only services)
unfolding the_only
the_only-Answered [] asked h = inr (h, λ e. omega (arith, e))
the_only-Answered (s ∷ []) asked h = inr (h, refl)
the_only-Answered (s ∷ u ∷ us) asked h = inr (h, λ e. omega (arith, e))

pub mile_service_for-Answered :
    (services : List Text) (asked : Option Text)
    → Answered services asked (mile_service_for services asked)
unfolding mile_service_for
mile_service_for-Answered services none = the_only-Answered services none (inl refl)
mile_service_for-Answered services (some []) = the_only-Answered services (some []) (inr refl)
mile_service_for-Answered services (some (c ∷ cs)) =
    let there = any-IsOneOf (c ∷ cs) services in
    if_cases (Answered services (some (c ∷ cs))) (any (λ s. text_eq s (c ∷ cs)) services) _ _
      (λ t. inl (refl, λ e. cc, there.0 t)) (λ f. inl (c ∷ cs, refl, λ e. cc, Says-no _ there f))

pub bill_as-Outcome :
    (services : List Text) (asked : Option Text) (legs : List Leg) (m : MileService)
    → ForSomeone legs
    → Answered services asked m
    → Outcome services asked legs (bill_as legs m)
unfolding bill_as
bill_as-Outcome services asked legs (service s) k h = (refl, k, h)
bill_as-Outcome services asked legs (why w) k h = (k, h)
