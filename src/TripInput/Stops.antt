-- ===== src/TripInput/Stops.antt =====
-- lib/server/trip-input.ts: the stops of a trip, and who each was for.
use reckon.Common.{
  ℕ, Bool, not, ◌&&◌, ◌||◌, ltb, ◌==◌, if◌then◌else◌, Option, none, some, List, [], ◌∷◌, ◌++◌,
  length, map, any, is_some, Text, codes,
}
use reckon.Trips.{Visit, has_text}
use reckon.TripInput.Values.{Value, property, members_of, is_truthy, is_true, items_of, id, text}
use reckon.TripInput.Steps.{Checked, no, Verdict, fine, wrong, read_each}

pub record StopInput : Type 0 where
  pub site_id : Option Text
  pub address : Option Text
  pub visits : List Visit

-- A visit as it is read, before its client is known to be there.
pub record Parsed : Type 0 where
  pub entity_id : Option Text
  pub site_id : Option Text
  pub asked_there : Bool

-- v ? id(v) : null
unfoldable pub id_if_set : Value → Option Text
unfolding is_truthy id
id_if_set v = if is_truthy v then id v else none

unfoldable pub text_if_set : Value → ℕ → Option Text
unfolding is_truthy text
text_if_set v cap = if is_truthy v then text v cap else none

unfoldable pub parse_visit : Value → Parsed
unfolding id_if_set id is_true property members_of
parse_visit v =
    let c = members_of v in
    record {
      entity_id = id (property (codes "entity_id") c);
      site_id = id_if_set (property (codes "site_id") c);
      asked_there = is_true (property (codes "asked_there") c);
    }

-- v.entityId === null || (v.siteId === null && siteId !== null)
unfoldable pub is_unnamed : Option Text → Parsed → Bool
is_unnamed site v = not (is_some v.entity_id) || not (is_some v.site_id) && is_some site

-- The visits with a client, as all have that are not refused.
unfoldable pub named : List Parsed → List Visit
named [] = []
named (v ∷ vs) = visit v.entity_id ++ named vs
  where
    visit : Option Text → List Visit
    visit none = []
    visit (some entity) =
        record { entity_id = entity; site_id = v.site_id; asked_there = v.asked_there } ∷ []

-- A client named twice at one stop is there once: the first time.
unfoldable pub once : List Text → List Visit → List Visit
once seen [] = []
once seen (v ∷ vs) =
    let again = once seen vs in
    let first = v ∷ once (v.entity_id ∷ seen) vs in
    if has_text v.entity_id seen then again else first

abbrev pub both_or_neither : Bool → Bool → Bool
both_or_neither a b = if a then b else not b

unfoldable pub stop_of : Option Text → Option Text → Option (List Value) → Verdict StopInput
unfolding parse_visit is_unnamed named once
stop_of site address none =
    if both_or_neither (is_some site) (is_some address)
    then wrong (codes "A stop is a site, or an address -- one of the two.")
    else wrong (codes "Who each stop was for.")
stop_of site address (some visits) =
    let parsed = map parse_visit visits in
    if both_or_neither (is_some site) (is_some address)
    then wrong (codes "A stop is a site, or an address -- one of the two.")
    else if any (is_unnamed site) parsed
    then wrong (codes "Who each stop was for, by their ids.")
    else fine (record { site_id = site; address = address; visits = once [] (named parsed) })

unfoldable pub read_stop : Value → Verdict StopInput
unfolding id_if_set text_if_set stop_of property members_of items_of
read_stop raw =
    let s = members_of raw in
    stop_of (id_if_set (property (codes "site_id") s))
      (text_if_set (property (codes "address") s) 200) (items_of (property (codes "clients") s))

-- Up to 25 stops, and at least one.
unfoldable pub read_stops : Option (List Value) → Checked (List StopInput)
unfolding read_each read_stop no
read_stops none errors =
    ([], no (codes "stops") (codes "Where it went: a stop at least, and at most 25.") errors)
read_stops (some raws) errors =
    if length raws == 0 || ltb 25 (length raws)
    then ([], no (codes "stops") (codes "Where it went: a stop at least, and at most 25.") errors)
    else read_each (codes "stops") read_stop raws errors

abbrev pub clients_of : List StopInput → List Text
clients_of [] = []
clients_of (s ∷ ss) = map (λ v. v.entity_id) s.visits ++ clients_of ss
