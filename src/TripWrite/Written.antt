-- ===== src/TripWrite/Written.antt =====
-- lib/server/trip-write.ts: what is written of an accepted trip, with Google's route or without.
use reckon.Common.{
  ℕ, suc, ◌+◌, ◌≡◌, refl, ap, ◌∙◌, subst, Bool, true, Option, none, some, List, [], ◌∷◌, ◌++◌, map,
  length, length-append, All, Text, arith,
}
use reckon.Common.Maps.{Map, get}
use reckon.Trips.{Drive}
use reckon.TripInput.Values.{Members}
use reckon.TripInput.{StopInput, TripInput, accepted, read_trip}
use reckon.TripInput.Legs.{IsHundredths, read_trip-IsTrip}
use reckon.Routes.{Waypoint, GoogleLeg, Host, Kept, fresh, route_miles}
use reckon.Routes.Pieces.{Answers, each_drive, length-each_drive, drive_miles, route_miles-each}
use reckon.TripWrite.{and_rest, every, end_at, stop_at, base_of, SiteRow, waypoints_of}

-- Drives that are each so many hundredths of a mile.
abbrev AreMiles : List Drive → Type 0
AreMiles ds = All (λ (d : Drive). IsHundredths d.miles) ds

-- Google's miles, where there is an answer.
abbrev pub miles_of : Option (List Text) → List Text
miles_of none = []
miles_of (some ms) = ms

abbrev Ready : ℕ → List Drive → Type 0
Ready n ds = AreMiles ds × (length ds ≡ n)

-- As many places as so many, where there are any.
abbrev Places : ℕ → Option (List Waypoint) → Type 0
Places n none = Unit
Places n (some ps) = length ps ≡ n

and_rest-Places :
    (w : Waypoint) (n : ℕ) (o : Option (List Waypoint)) → Places n o → Places (suc n) (and_rest w o)
unfolding and_rest
and_rest-Places w n none h = tt
and_rest-Places w n (some ps) h = ap suc h

every-Places : (ws : List (Option Waypoint)) → Places (length ws) (every ws)
unfolding every
every-Places [] = refl
every-Places (none ∷ ws) = tt
every-Places (some w ∷ ws) = and_rest-Places w (length ws) (every ws) (every-Places ws)

length-map :
    (f : StopInput → Option Waypoint) (stops : List StopInput) → length (map f stops) ≡ length stops
length-map f [] = refl
length-map f (s ∷ ss) = ap suc (length-map f ss)

-- A trip goes from where it starts by each of its stops to where it ends.
waypoints_of-Places :
    (operator : Option (Option Text × Option Text)) (sites : List SiteRow) (t : TripInput)
    → Places (length t.stops + 2) (waypoints_of operator sites t)
unfolding waypoints_of
waypoints_of-Places operator sites t =
    let base = base_of operator in
    let visited = map (stop_at sites) t.stops in
    let ends : List (Option Waypoint) = end_at base t.end_address ∷ [] in
    subst (λ n. Places n (every (end_at base t.start_address ∷ visited ++ ends)))
      (omega (arith, length-append visited ends, length-map (stop_at sites) t.stops))
      (every-Places (end_at base t.start_address ∷ visited ++ ends))

-- With Google answering each request with a leg from each place to the next,
-- the key there, and nothing less than a day old kept of it, an accepted trip
-- whose places are all known is told Google's miles for exactly as many drives
-- as were sent.
pub route_miles-drives :
    (host : Host) (leg : Waypoint → Waypoint → GoogleLeg) (answers : Answers host leg)
    (parses : Text → Bool) (body : Members) (t : TripInput)
    (operator : Option (Option Text × Option Text)) (sites : List SiteRow) (points : List Waypoint)
    (now later : ℕ) (asked : Map (Kept (List Text)))
    → read_trip parses (some body) ≡ accepted t
    → waypoints_of operator sites t ≡ some points
    → fresh host now (get (host.stringify points) asked) ≡ none
    → (miles : List Text) × ((route_miles host true points now later asked).0 ≡ some miles)
      × (length miles ≡ length t.drives)
route_miles-drives host leg answers parses body t operator sites points now later asked e known
      none_kept =
    let trip = read_trip-IsTrip parses body t e in
    let (one, _, _) = trip.4 in
    let (count, _) = trip.5 in
    let places = subst (Places (length t.stops + 2)) known (waypoints_of-Places operator sites t) in
    let (first, again) =
      route_miles-each host leg answers points now later later later asked (omega (arith, places))
        none_kept (omega arith) in
    (
      each_drive (drive_miles host leg answers) points,
      ap (λ r. r.0) first,
      length-each_drive (drive_miles host leg answers) points ∙ omega (arith, places, count),
    )
