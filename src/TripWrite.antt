-- ===== src/TripWrite.antt =====
-- lib/server/trip-write.ts, with what it takes from trip-worth.ts, trips.ts and site-drive.ts: the legs, the
-- service and the rows of a trip that is written. What the database holds of a service, a site or the
-- business is an argument, and so are the ids it gives to the stops.
pub mod Outcomes
pub mod Written
pub mod Examples
use reckon.Common.{
  ℕ, suc, ◌+◌, Bool, true, false, ltb, ◌==◌, if◌then◌else◌, Option, none, some, List, [], ◌∷◌, ◌++◌,
  map, any, find, length, is_some, Text, codes, text_eq, Result, ok, ◌>>=◌,
}
use reckon.Trips.{Visit, Drive, Leg, LegRule, Stop}
use reckon.Trips.Legs.{legs_of, with_route, is_set}
use reckon.TripInput.{StopInput, TripInput}
use reckon.TripInput.Legs.{visits_of}
use reckon.Routes.{Waypoint, place, address}

-- The service asked for or the only one by the mile, or why there is none.
pub data MileService : Type 0 where
  service : Text → MileService
  why : Text → MileService

unfoldable pub the_only : List Text → MileService
the_only [] =
    why (codes "Nothing is charged by the mile yet: give one a price in Settings → Travel.")
the_only (s ∷ []) = service s
the_only (s ∷ t ∷ ts) = why (codes "Which service its miles bill as.")

unfoldable pub mile_service_for : List Text → Option Text → MileService
unfolding the_only text_eq
mile_service_for services none = the_only services
mile_service_for services (some []) = the_only services
mile_service_for services (some (c ∷ cs)) =
    if any (λ s. text_eq s (c ∷ cs)) services
    then service (c ∷ cs)
    else why (codes "That service is not charged by the mile.")

pub data LegsFor : Type 0 where
  assigned : List Leg → Option Text → LegsFor
  refused : Text → LegsFor

unfoldable pub bill_as : List Leg → MileService → LegsFor
bill_as legs (service s) = assigned legs (some s)
bill_as legs (why w) = refused w

-- The drives, with Google's route in place of the estimates when there are any.
unfoldable pub drives_for : TripInput → Option (List Text) → List Drive
unfolding with_route
drives_for trip route =
    if any (λ d. d.estimated) trip.drives then with_route trip.drives route else trip.drives

unfoldable pub legs_for : List Text → Option (List Text) → TripInput → Result LegsFor
unfolding drives_for mile_service_for bill_as
legs_for services route trip = do
  legs ← legs_of (visits_of trip.stops) (drives_for trip route)
  ok (
      if any (λ l. is_set l.entity_id) legs
      then bill_as legs (mile_service_for services trip.service_id)
      else assigned legs none)

pub record StopRow : Type 0 where
  pub seq : ℕ
  pub site_id : Option Text
  pub address : Option Text

pub record ClientRow : Type 0 where
  pub trip_stop_id : Text
  pub entity_id : Text
  pub site_id : Option Text
  pub asked_there : Bool

pub record LegRow : Type 0 where
  pub seq : ℕ
  pub miles : Text
  pub entity_id : Option Text
  pub site_id : Option Text
  pub rule : LegRule
  pub service_id : Option Text
  pub to_stop_id : Option Text

-- The stops from number `i` on.
unfoldable pub stop_rows : ℕ → List StopInput → List StopRow
stop_rows i [] = []
stop_rows i (s ∷ ss) =
    record { seq = i + 1; site_id = s.site_id; address = s.address } ∷ stop_rows (suc i) ss

abbrev pub client_row : Text → Visit → ClientRow
client_row id v = record {
  trip_stop_id = id;
  entity_id = v.entity_id;
  site_id = v.site_id;
  asked_there = v.asked_there;
}

-- Who each stop was for, under the stop's id: `ids i` is that of stop `i`.
unfoldable pub client_rows : (ℕ → Text) → ℕ → List StopInput → List ClientRow
client_rows ids i [] = []
client_rows ids i (s ∷ ss) = map (client_row (ids i)) s.visits ++ client_rows ids (suc i) ss

unfoldable pub leg_row : (ℕ → Text) → ℕ → Option Text → ℕ → Leg → LegRow
leg_row ids stops service_id k l = record {
  seq = k + 1;
  miles = l.miles;
  entity_id = l.entity_id;
  site_id = l.site_id;
  rule = l.rule;
  service_id = if is_set l.entity_id then service_id else none;
  to_stop_id = if ltb l.drive stops then some (ids l.drive) else none;
}

unfoldable pub leg_rows : (ℕ → Text) → ℕ → Option Text → ℕ → List Leg → List LegRow
unfolding leg_row
leg_rows ids stops service_id k [] = []
leg_rows ids stops service_id k (l ∷ ls) =
    leg_row ids stops service_id k l ∷ leg_rows ids stops service_id (suc k) ls

-- Where Google gave a business or a site an id, and its address.
pub record SiteRow : Type 0 where
  pub id : Text
  pub place_id : Option Text
  pub street : Text
  pub city : Text
  pub region : Option Text
  pub postcode : Text

unfoldable pub base_of : Option (Option Text × Option Text) → Option Waypoint
base_of none = none
base_of (some (place_id, at)) = by_place place_id at
  where
    by_place : Option Text → Option Text → Option Waypoint
    by_place (some (c ∷ cs)) at = some (place (c ∷ cs))
    by_place (some []) (some (c ∷ cs)) = some (address (c ∷ cs))
    by_place (some []) (some []) = none
    by_place (some []) none = none
    by_place none (some (c ∷ cs)) = some (address (c ∷ cs))
    by_place none (some []) = none
    by_place none none = none

abbrev pub or_empty : Option Text → Text
or_empty none = []
or_empty (some t) = t

unfoldable pub site_at : SiteRow → Waypoint
site_at s = by_place s.place_id
  where
    written : Waypoint
    written = address (
        s.street
        ++ codes ", "
        ++ s.city
        ++ codes ", "
        ++ or_empty s.region
        ++ codes " "
        ++ s.postcode)

    by_place : Option Text → Waypoint
    by_place none = written
    by_place (some []) = written
    by_place (some (c ∷ cs)) = place (c ∷ cs)

-- address ? { address } : base
unfoldable pub end_at : Option Waypoint → Option Text → Option Waypoint
end_at base none = base
end_at base (some []) = base
end_at base (some (c ∷ cs)) = some (address (c ∷ cs))

unfoldable pub site_found : Option SiteRow → Option Waypoint
unfolding site_at
site_found none = none
site_found (some s) = some (site_at s)

-- sites.find((x) => x.id === s.siteId)
unfoldable pub site_of : List SiteRow → Option Text → Option SiteRow
unfolding text_eq
site_of sites none = none
site_of sites (some id) = find (λ x. text_eq x.id id) sites

unfoldable pub stop_at : List SiteRow → StopInput → Option Waypoint
unfolding end_at site_found site_of
stop_at sites s = end_at (site_found (site_of sites s.site_id)) s.address

unfoldable pub and_rest : Waypoint → Option (List Waypoint) → Option (List Waypoint)
and_rest w none = none
and_rest w (some ws) = some (w ∷ ws)

-- all.every((w) => w !== null) ? all : null
unfoldable pub every : List (Option Waypoint) → Option (List Waypoint)
unfolding and_rest
every [] = some []
every (none ∷ ws) = none
every (some w ∷ ws) = and_rest w (every ws)

unfoldable pub waypoints_of :
    Option (Option Text × Option Text) → List SiteRow → TripInput → Option (List Waypoint)
unfolding every end_at stop_at base_of
waypoints_of operator sites trip =
    let base = base_of operator in
    every (
      end_at base trip.start_address ∷ map (stop_at sites) trip.stops
      ++ end_at base trip.end_address ∷ [])
