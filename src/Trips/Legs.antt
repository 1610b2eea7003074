-- ===== src/Trips/Legs.antt =====
-- lib/trip-legs.ts, legsOf and withRoute: the legs of a trip, and Google's route in place of estimates.
pub mod Totals
use reckon.Common.{
  ℕ, zero, suc, ◌+◌, ◌-◌, Bool, true, false, not, ◌&&◌, ◌||◌, ltb, ◌==◌, if◌then◌else◌, Option,
  none, some, List, [], ◌∷◌, ◌++◌, map, find, length, is_some, Text, text_eq, Result, ok, ◌>>=◌,
}
use reckon.Trips.{
  Visit, Stop, Drive, LegRule, house_to_a, a_to_b, b_to_house, round_trip, split, unassigned,
  chosen, Leg, Party, caused_by, shares,
}

-- Neither null nor empty.
abbrev pub is_set : Option Text → Bool
is_set none = false
is_set (some []) = false
is_set (some (c ∷ cs)) = true

abbrev pub all_visits : List Stop → List Visit
all_visits [] = []
all_visits (s ∷ ss) = s ++ all_visits ss

-- The site of the client's first visit that names one.
unfoldable pub site_of : List Stop → Text → Option Text
site_of stops entity =
    elim (find (λ v. text_eq v.entity_id entity && is_set v.site_id) (all_visits stops)) [
      | none ↦ none
      | some v ↦ v.site_id
    ]

-- stops[i], and no visits out of range.
abbrev pub stop_at : List Stop → ℕ → Stop
stop_at [] i = []
stop_at (s ∷ ss) zero = s
stop_at (s ∷ ss) (suc i) = stop_at ss i

-- Who drive `i` is for.
unfoldable pub who_of : List Stop → ℕ → Drive → List Party
unfolding site_of caused_by
who_of stops i d = elim d.to [
  | none ↦ caused_by (stop_at stops (if i == length stops then length stops - 1 else i))
  | some given ↦ map (λ entity. record { entity_id = entity; site_id = site_of stops entity }) given
]

unfoldable pub rule_of : List Stop → ℕ → Drive → List Party → LegRule
rule_of stops i d who =
    if is_some d.to
    then chosen
    else if length who == 0
    then unassigned
    else if ltb 1 (length who)
    then split
    else if length stops == 1
    then round_trip
    else if i == 0
    then house_to_a
    else if i == length stops
    then b_to_house
    else a_to_b

abbrev pub first_or_empty : List Text → Text
first_or_empty [] = []
first_or_empty (t ∷ ts) = t

-- A leg for each party, with its part of the miles.
unfoldable pub party_legs : ℕ → LegRule → List Party → List Text → List Leg
party_legs i rule [] parts = []
party_legs i rule (w ∷ ws) [] = []
party_legs i rule (w ∷ ws) (m ∷ ms) =
    record { drive = i; entity_id = some w.entity_id; site_id = w.site_id; rule = rule; miles = m }
    ∷ party_legs i rule ws ms

unfoldable pub legs_for : ℕ → Drive → LegRule → List Party → Result (List Leg)
unfolding shares party_legs
legs_for i d rule [] = do
  parts ← shares d.miles 1
  ok (
      record {
        drive = i;
        entity_id = none;
        site_id = none;
        rule = rule;
        miles = first_or_empty parts;
      }
      ∷ [])
legs_for i d rule (w ∷ ws) = do
  parts ← shares d.miles (suc (length ws))
  ok (party_legs i rule (w ∷ ws) parts)

-- The legs of the drives from number `i` on.
unfoldable pub drive_legs : List Stop → ℕ → List Drive → Result (List Leg)
unfolding legs_for who_of rule_of
drive_legs stops i [] = ok []
drive_legs stops i (d ∷ ds) = do
  here ← legs_for i d (rule_of stops i d (who_of stops i d)) (who_of stops i d)
  rest ← drive_legs stops (suc i) ds
  ok (here ++ rest)

unfoldable pub legs_of : List Stop → List Drive → Result (List Leg)
unfolding drive_legs
legs_of [] drives = ok []
legs_of (s ∷ ss) drives =
    if length drives == length (s ∷ ss) + 1 then drive_legs (s ∷ ss) 0 drives else ok []

-- A drive with Google's miles, where they are neither missing nor empty.
abbrev pub routed : Drive → Text → Drive
routed d [] = d
routed d (c ∷ cs) =
    if d.estimated then record { miles = c ∷ cs; to = d.to; estimated = false } else d

unfoldable pub with_miles : List Drive → List Text → List Drive
with_miles [] ms = []
with_miles (d ∷ ds) [] = d ∷ ds
with_miles (d ∷ ds) (m ∷ ms) = routed d m ∷ with_miles ds ms

unfoldable pub with_route : List Drive → Option (List Text) → List Drive
unfolding with_miles
with_route drives none = drives
with_route drives (some route) = with_miles drives route
