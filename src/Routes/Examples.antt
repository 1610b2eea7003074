-- ===== src/Routes/Examples.antt =====
-- lib/server/routes.ts: a trip of thirteen places on a road where every drive is a mile, asked in two pieces.
use reckon.Common.{
  ◌≤◌, ◌≡◌, refl, true, false, none, some, List, [], ◌∷◌, length, Text, codes, arith,
}
use reckon.Common.Maps.{Map, get}
use reckon.Routes.{Waypoint, GoogleLeg, Kept, Host, fresh, route_miles}
use reckon.Routes.Pieces.{Answers, each_drive, told, route_miles-each}
use reckon.Routes.Bounds.{route_miles-le}

abbrev pub mile : Waypoint → Waypoint → GoogleLeg
mile p q = record { distance_meters = some 1609; duration = none }

abbrev names : List Waypoint → Text
names [] = []
names (Waypoint.place t ∷ ps) = t
names (Waypoint.address t ∷ ps) = t

-- The host, answering a leg from each place to the next.
abbrev pub straight : Host
straight = record {
  fetch = λ piece timed. some (each_drive mile piece);
  is_seconds = λ d. false;
  miles_of = λ metres. codes "1.0";
  minutes_of = λ d. 0;
  stringify = names;
}

pub straight-Answers : Answers straight mile
straight-Answers piece h = refl

abbrev at : Text → Waypoint
at t = Waypoint.place t

abbrev points : List Waypoint
points =
    at (codes "a")
    ∷ at (codes "b")
    ∷ at (codes "c")
    ∷ at (codes "d")
    ∷ at (codes "e")
    ∷ at (codes "f")
    ∷ at (codes "g")
    ∷ at (codes "h")
    ∷ at (codes "i")
    ∷ at (codes "j")
    ∷ at (codes "k")
    ∷ at (codes "l")
    ∷ at (codes "m")
    ∷ []

abbrev pub none_asked : Map (Kept (List Text))
none_asked = []

nothing_kept : fresh straight 5 (get (straight.stringify points) none_asked) ≡ none
unfolding fresh get
nothing_kept = refl

route_miles-each_example :
    (route_miles straight true points 5 6 [] ≡ told straight mile straight-Answers points 6 [])
    × (route_miles straight true points 90 91 (told straight mile straight-Answers points 6 []).1
        ≡ told straight mile straight-Answers points 6 [])
route_miles-each_example =
    route_miles-each straight mile straight-Answers points 5 6 90 91 [] (omega arith) nothing_kept
      (omega arith)

route_miles-le_example : length (route_miles straight true points 5 6 []).1 ≤ 500
route_miles-le_example = route_miles-le straight true points 5 6 [] (omega arith)
