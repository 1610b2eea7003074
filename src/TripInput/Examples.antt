-- ===== src/TripInput/Examples.antt =====
-- lib/server/trip-input.ts: a trip to one address and back, for one client, and one with nothing in it.
use reckon.Common.{
  ℕ, ◌≡◌, refl, Bool, true, false, none, some, List, [], ◌∷◌, Text, codes, ok, text_eq, trim,
  trim_start, is_space,
}
use reckon.Common.Maps.{get, put}
use reckon.Common.Sorting.{total}
use reckon.Decimal.Numeric.{value, span_digits, is_digit, print_nat, emit}
use reckon.Trips.{Drive, Leg}
use reckon.Trips.Legs.{legs_of}
use reckon.Trips.Legs.Totals.{Driven, Bills}
use reckon.TripInput.Values.{
  Value, string, array, object, no_items, item, Members, no_members, member, items, property,
  members_of, is_absent, is_truthy, is_true, text_of, items_of, matches, is_hex, is_dash, is_uuid,
  is_day, between, is_places, is_point, is_amount_split, is_amount, is_miles, is_odometer, lower,
  uuid_text, id, capped, text, without_commas,
}
use reckon.TripInput.{
  TripInput, accepted, no, require, optional, day, odometer, reading, tenths, check_readings, go_on,
  read_each, id_if_set, text_if_set, parse_visit, is_unnamed, named, once, stop_of, read_stop,
  read_stops, and_given, given_to, hand, to_of, trimmed, give, drive_of, read_drive, read_drives,
  at_most, optional_id, optional_text, optional_reading, read_body, answer, read_trip,
}
use reckon.TripInput.Legs.{read_trip-Bills, visits_of}

abbrev ann : Text
ann = codes "aaaaaaaa-aaaa-4aaa-8aaa-aaaaaaaaaaaa"

abbrev drive_sent : Value
drive_sent = object (member (codes "miles") (string (codes " 12.5 ")) no_members)

abbrev stop_sent : Value
stop_sent = object (
    member (codes "address") (string (codes "1 Main St")) (
      member (codes "clients")
        (array (item (object (member (codes "entity_id") (string ann) no_members)) no_items))
        no_members))

abbrev pub body : Members
body = member (codes "client_uuid") (string ann) (
    member (codes "travelled_on") (string (codes "2026-10-07")) (
      member (codes "driven_by") (string ann) (
        member (codes "odometer_start") (string (codes "1,000")) (
          member (codes "odometer_end") (string (codes "1025.0")) (
            member (codes "stops") (array (item stop_sent no_items)) (
              member (codes "drives") (array (item drive_sent (item drive_sent no_items)))
                no_members))))))

abbrev drive_read : Drive
drive_read = record { miles = codes "12.5"; to = none; estimated = false }

abbrev pub trip : TripInput
trip = record {
  client_uuid = some ann;
  travelled_on = some (codes "2026-10-07");
  driven_by = some ann;
  vehicle_id = none;
  service_id = none;
  start_address = none;
  end_address = none;
  odometer_start = some (codes "1000");
  odometer_end = some (codes "1025.0");
  note = none;
  stops =
      record {
        site_id = none;
        address = some (codes "1 Main St");
        visits = record { entity_id = ann; site_id = none; asked_there = false } ∷ [];
      }
      ∷ [];
  drives = drive_read ∷ drive_read ∷ [];
}

-- Every day of the form asked for is taken for one here.
abbrev pub any_day : Text → Bool
any_day t = true

pub read_trip-body : read_trip any_day (some body) ≡ accepted trip
unfolding read_trip answer read_body optional_id optional_text optional_reading at_most read_drives
    read_drive drive_of give trimmed to_of hand given_to and_given read_stops read_stop stop_of once
    named is_unnamed parse_visit text_if_set id_if_set read_each go_on check_readings tenths reading
    odometer day optional require no put get text_eq trim trim_start is_space value span_digits
    is_digit print_nat emit items property members_of is_absent is_truthy is_true text_of items_of
    matches is_hex is_dash is_uuid is_day between is_places is_point is_amount_split is_amount
    is_miles is_odometer lower uuid_text id capped text without_commas
read_trip-body = refl

read_trip-Bills_example :
    (ws : List ℕ) × (legs : List Leg) × Driven trip.drives ws
    × (legs_of (visits_of trip.stops) trip.drives ≡ ok legs)
    × Bills legs (total (λ w. w) ws)
read_trip-Bills_example = read_trip-Bills any_day body trip read_trip-body
