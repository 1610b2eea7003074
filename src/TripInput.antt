-- ===== src/TripInput.antt =====
-- lib/server/trip-input.ts: a trip as the form sends it, read and checked before anything is written.
pub mod Values
pub mod Steps
pub mod Stops
pub mod Drives
pub mod Forms
pub mod Checks
pub mod Parts
pub mod Accepted
pub mod Legs
pub mod Examples
unfoldable pub use Steps.*
unfoldable pub use Stops.*
unfoldable pub use Drives.*
use reckon.Common.{
  ℕ, ◌+◌, ◌*◌, ◌-◌, Bool, true, false, not, ◌&&◌, ◌||◌, ltb, leb, ◌==◌, if◌then◌else◌, Option, none,
  some, List, [], ◌∷◌, ◌++◌, length, map, any, is_some, Text, codes, text_eq, trim,
}
use reckon.Common.Maps.{Map, get, put}
use reckon.Decimal.Numeric.{value, span_digits, print_nat}
use reckon.Trips.{Visit, Drive, has_text}
use reckon.TripInput.Values.{
  Value, undefined, null, boolean, number, string, array, object, items, Members, property,
  members_of, is_absent, is_truthy, is_true, text_of, items_of, is_day, is_miles, is_odometer, id,
  text, without_commas,
}

-- The three that are always asked for are taken on trust, by `!`, at the end.
pub record TripInput : Type 0 where
  pub client_uuid : Option Text
  pub travelled_on : Option Text
  pub driven_by : Option Text
  pub vehicle_id : Option Text
  pub service_id : Option Text
  pub start_address : Option Text
  pub end_address : Option Text
  pub odometer_start : Option Text
  pub odometer_end : Option Text
  pub note : Option Text
  pub stops : List StopInput
  pub drives : List Drive

pub data Answer : Type 0 where
  accepted : TripInput → Answer
  refused : Map Text → Answer

-- typeof v === 'string' && DAY.test(v) && !Number.isNaN(Date.parse(v)), where `parses` is Date.parse's part.
unfoldable pub day : (Text → Bool) → Option Text → Option Text
unfolding is_day
day parses none = none
day parses (some t) = if is_day t && parses t then some t else none

unfoldable pub odometer : Option Text → Option Text
unfolding is_odometer without_commas
odometer none = none
odometer (some t) = if is_odometer (without_commas t) then some (without_commas t) else none

-- A reading in tenths: the whole miles, and the digit after the point.
unfoldable pub tenths : Text × Text → ℕ
unfolding value
tenths (whole, []) = value 0 whole * 10
tenths (whole, p ∷ []) = value 0 whole * 10
tenths (whole, p ∷ d ∷ rest) = value 0 whole * 10 + (d - b'0')

unfoldable pub reading : Text → ℕ
unfolding tenths span_digits
reading t = tenths (span_digits t)

-- Both readings or neither, and the last no less than the first.
unfoldable pub check_readings : Option Text → Option Text → Map Text → Map Text
unfolding no reading get
check_readings none none errors = errors
check_readings none (some e) errors =
    if is_some (get (codes "odometer_start") errors)
    then errors
    else no (codes "odometer_start") (codes "Both readings, or neither.") errors
check_readings (some s) none errors =
    if is_some (get (codes "odometer_start") errors)
    then errors
    else no (codes "odometer_end") (codes "Both readings, or neither.") errors
check_readings (some s) (some e) errors =
    if ltb (reading e) (reading s)
    then no (codes "odometer_end") (codes "Less than it read when the trip left.") errors
    else errors

-- `At most ${cap} characters.`
unfoldable pub at_most : ℕ → Text
unfolding print_nat
at_most cap = codes "At most " ++ print_nat cap ++ codes " characters."

unfoldable pub optional_id : Members → Text → Checked (Option Text)
unfolding optional id property
optional_id body field =
    optional field (codes "That is not one of ours.") (property field body)
      (id (property field body))

unfoldable pub optional_text : Members → Text → ℕ → Checked (Option Text)
unfolding optional at_most text property
optional_text body field cap =
    optional field (at_most cap) (property field body) (text (property field body) cap)

-- `reading`
unfoldable pub optional_reading : Members → Text → Checked (Option Text)
unfolding optional odometer text_of property
optional_reading body field =
    optional field (codes "Miles on the odometer, to a tenth at most.") (property field body)
      (odometer (text_of (property field body)))

unfoldable pub read_body : (Text → Bool) → Members → Checked TripInput
unfolding require optional_id optional_text optional_reading day check_readings read_stops
    read_drives id property
read_body parses body = do
  client_uuid ←
      require (codes "client_uuid") (codes "Expected the id it was made with.")
        (id (property (codes "client_uuid") body))
  travelled_on ←
      require (codes "travelled_on") (codes "Which day it was driven.")
        (day parses (text_of (property (codes "travelled_on") body)))
  driven_by ←
      require (codes "driven_by") (codes "Who drove.") (id (property (codes "driven_by") body))
  vehicle_id ← optional_id body (codes "vehicle_id")
  service_id ← optional_id body (codes "service_id")
  start_address ← optional_text body (codes "start_address") 200
  end_address ← optional_text body (codes "end_address") 200
  note ← optional_text body (codes "note") 500
  odometer_start ← optional_reading body (codes "odometer_start")
  odometer_end ← optional_reading body (codes "odometer_end")
  _ ← λ errors. (tt, check_readings odometer_start odometer_end errors)
  stops ← read_stops (items_of (property (codes "stops") body))
  drives ← read_drives stops (items_of (property (codes "drives") body))
  pure (record {
    client_uuid = client_uuid;
    travelled_on = travelled_on;
    driven_by = driven_by;
    vehicle_id = vehicle_id;
    service_id = service_id;
    start_address = start_address;
    end_address = end_address;
    odometer_start = odometer_start;
    odometer_end = odometer_end;
    note = note;
    stops = stops;
    drives = drives;
  })

unfoldable pub answer : TripInput × Map Text → Answer
answer (trip, []) = accepted trip
answer (trip, e ∷ errors) = refused (e ∷ errors)

unfoldable pub read_trip : (Text → Bool) → Option Members → Answer
unfolding read_body answer
read_trip parses none = refused ((codes "trip", codes "Expected a trip.") ∷ [])
read_trip parses (some body) = answer (read_body parses body [])
