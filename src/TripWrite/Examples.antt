-- ===== src/TripWrite/Examples.antt =====
-- lib/server/trip-write.ts: the trip to one address and back, written, and asked of a straight road.
use reckon.Common.{◌≡◌, refl, true, Option, none, some, List, [], ◌∷◌, length, Text, codes}
use reckon.Common.Maps.{get}
use reckon.TripInput.Examples.{any_day, body, trip, read_trip-body}
use reckon.Routes.{Waypoint, place, address, fresh, route_miles}
use reckon.Routes.Examples.{straight, mile, straight-Answers, none_asked}
use reckon.TripWrite.{
  waypoints_of, and_rest, every, end_at, stop_at, site_found, site_at, site_of, base_of,
}
use reckon.TripWrite.Written.{route_miles-drives}

abbrev business : Option (Option Text × Option Text)
business = some (some (codes "base"), none)

abbrev places : List Waypoint
places = place (codes "base") ∷ address (codes "1 Main St") ∷ place (codes "base") ∷ []

waypoints_of-trip : waypoints_of business [] trip ≡ some places
unfolding waypoints_of and_rest every end_at stop_at site_found site_at site_of base_of
waypoints_of-trip = refl

nothing_kept : fresh straight 5 (get (straight.stringify places) none_asked) ≡ none
unfolding fresh get
nothing_kept = refl

route_miles-drives_example :
    (miles : List Text) × ((route_miles straight true places 5 6 none_asked).0 ≡ some miles)
    × (length miles ≡ length trip.drives)
route_miles-drives_example =
    route_miles-drives straight mile straight-Answers any_day body trip business [] places 5 6
      none_asked read_trip-body waypoints_of-trip nothing_kept
