-- ===== src/TripInput/Accepted.antt =====
-- lib/server/trip-input.ts: a trip that is accepted is whole.
use reckon.Common.{
  ℕ, ◌+◌, ◌≤◌, ◌≡◌, ◌∙◌, Bool, false, ◌||◌, ltb, ◌==◌, ==_iff, if_cases, Option, none, some, List,
  [], length, All, Text, codes, arith,
}
use reckon.Common.Maps.{Map}
use reckon.Trips.{Drive}
use reckon.TripInput.Values.{Value, Members, property, items_of, text_of, id}
use reckon.TripInput.{
  StopInput, TripInput, Checked, require, optional, day, check_readings, read_stop, read_stops,
  clients_of, read_drive, read_drives, optional_id, optional_text, optional_reading, read_body,
}
use reckon.TripInput.Checks.{
  Ensures, Ensures-require, Ensures-optional, Ensures-Readings, Ensures-Each, Readings, Held, no-ne,
}
use reckon.TripInput.Forms.{IsId, IsDay, IdIfAny, id-IsId, day-IsDay}
use reckon.TripInput.Parts.{IsStop, IsDrive, read_stop-IsStop, read_drive-IsDrive}

-- From 1 to 25 stops.
abbrev pub AreStops : List StopInput → Type 0
AreStops stops = (1 ≤ length stops) × (length stops ≤ 25) × All IsStop stops

-- A drive more than stops, each to clients of the trip.
abbrev pub AreDrives : List StopInput → List Drive → Type 0
AreDrives stops drives =
    (length drives ≡ length stops + 1) × All (IsDrive (clients_of stops)) drives

-- A trip whose ids and day have their form, with its readings, stops and drives.
abbrev pub IsTrip : (Text → Bool) → TripInput → Type 0
IsTrip parses t =
    Held IsId t.client_uuid
    × Held (IsDay parses) t.travelled_on
    × Held IsId t.driven_by
    × Readings t.odometer_start t.odometer_end
    × AreStops t.stops
    × AreDrives t.stops t.drives
    × IdIfAny t.vehicle_id
    × IdIfAny t.service_id

counted : (n : ℕ) → (n == 0 || ltb 25 n) ≡ false → (1 ≤ n) × (n ≤ 25)
counted n e = ground arith

Ensures-stops : (raws : Option (List Value)) → Ensures (read_stops raws) AreStops
unfolding read_stops
Ensures-stops none errors e = absurd (no-ne _ _ errors e)
Ensures-stops (some raws) errors r =
    if_cases (λ (r : List StopInput × Map Text). r.1 ≡ [] → (errors ≡ []) × AreStops r.0)
      (length raws == 0 || ltb 25 (length raws)) _ _ (λ _ e. absurd (no-ne _ _ errors e))
      (λ few e.
        let (clean, all) =
          Ensures-Each IsStop (codes "stops") read_stop read_stop-IsStop raws errors e in
        let (one, most) = counted (length raws) few in
        (clean, (omega (arith, one, all.0), omega (arith, most, all.0), all.1)))
      r

Ensures-drives :
    (stops : List StopInput) (raws : Option (List Value))
    → Ensures (read_drives stops raws) (AreDrives stops)
unfolding read_drives
Ensures-drives stops none errors e = absurd (no-ne _ _ errors e)
Ensures-drives stops (some raws) errors r =
    if_cases (λ (r : List Drive × Map Text). r.1 ≡ [] → (errors ≡ []) × AreDrives stops r.0)
      (length raws == length stops + 1) _ _
      (λ more e.
        let (clean, all) =
          Ensures-Each (IsDrive (clients_of stops)) (codes "drives") (read_drive (clients_of stops))
            (read_drive-IsDrive (clients_of stops)) raws errors e in
        (clean, (all.0 ∙ (==_iff (length raws) (length stops + 1)).0 more, all.1)))
      (λ _ e. absurd (no-ne _ _ errors e)) r

-- An optional field keeps what was refused before it.
abbrev Keeps : Checked (Option Text) → Type 0
Keeps m = (errors : Map Text) → (m errors).1 ≡ [] → errors ≡ []

Keeps-optional :
    (field why : Text) (v : Value) (read : Option Text) → Keeps (optional field why v read)
Keeps-optional field why v none errors e =
    (Ensures-optional (λ _. Unit) field why v none tt errors e).0
Keeps-optional field why v (some t) errors e =
    (Ensures-optional (λ _. Unit) field why v (some t) tt errors e).0

Ensures-id : (body : Members) (field : Text) → Ensures (optional_id body field) IdIfAny
unfolding optional_id
Ensures-id body field = Ensures-optional IsId _ _ _ _ (id-IsId (property field body))

Keeps-text : (body : Members) (field : Text) (cap : ℕ) → Keeps (optional_text body field cap)
unfolding optional_text
Keeps-text body field cap errors e = Keeps-optional _ _ _ _ errors e

Keeps-reading : (body : Members) (field : Text) → Keeps (optional_reading body field)
unfolding optional_reading
Keeps-reading body field errors e = Keeps-optional _ _ _ _ errors e

-- What is refused after each step of the reading.
module _ (parses : Text → Bool) (body : Members) (errors : Map Text) where
  abbrev client : Option Text × Map Text
  client =
      require (codes "client_uuid") (codes "Expected the id it was made with.")
        (id (property (codes "client_uuid") body)) errors

  abbrev travelled : Option Text × Map Text
  travelled =
      require (codes "travelled_on") (codes "Which day it was driven.")
        (day parses (text_of (property (codes "travelled_on") body))) client.1

  abbrev driver : Option Text × Map Text
  driver =
      require (codes "driven_by") (codes "Who drove.") (id (property (codes "driven_by") body))
        travelled.1

  abbrev vehicle : Option Text × Map Text
  vehicle = optional_id body (codes "vehicle_id") driver.1

  abbrev service : Option Text × Map Text
  service = optional_id body (codes "service_id") vehicle.1

  abbrev notes : Option Text × Map Text
  notes =
      optional_text body (codes "note") 500
        (optional_text body (codes "end_address") 200
          (optional_text body (codes "start_address") 200 service.1).1).1

  abbrev left : Option Text × Map Text
  left = optional_reading body (codes "odometer_start") notes.1

  abbrev back : Option Text × Map Text
  back = optional_reading body (codes "odometer_end") left.1

  abbrev readings_checked : Map Text
  readings_checked = check_readings left.0 back.0 back.1

  abbrev stopped : List StopInput × Map Text
  stopped = read_stops (items_of (property (codes "stops") body)) readings_checked

  notes-Keeps : notes.1 ≡ [] → service.1 ≡ []
  notes-Keeps e =
      Keeps-text body (codes "start_address") 200 _
        (Keeps-text body (codes "end_address") 200 _ (Keeps-text body (codes "note") 500 _ e))

  pub Ensures-body :
      (read_body parses body errors).1 ≡ []
      → (errors ≡ []) × IsTrip parses (read_body parses body errors).0
  unfolding read_body
  Ensures-body e =
      let (e6, drives) =
        Ensures-drives stopped.0 (items_of (property (codes "drives") body)) stopped.1 e in
      let (e5, stops) =
        Ensures-stops (items_of (property (codes "stops") body)) readings_checked e6 in
      let (e4, readings) = Ensures-Readings left.0 back.0 back.1 e5 in
      let e3 = notes-Keeps (
        Keeps-reading body (codes "odometer_start") notes.1
          (Keeps-reading body (codes "odometer_end") left.1 e4)) in
      let (es, billed) = Ensures-id body (codes "service_id") vehicle.1 e3 in
      let (ev, driven) = Ensures-id body (codes "vehicle_id") driver.1 es in
      let (e2, drove) =
        Ensures-require IsId _ _ (id (property (codes "driven_by") body))
          (id-IsId (property (codes "driven_by") body)) travelled.1 ev in
      let (e1, on) =
        Ensures-require (IsDay parses) _ _
          (day parses (text_of (property (codes "travelled_on") body)))
          (day-IsDay parses (text_of (property (codes "travelled_on") body))) client.1 e2 in
      let (e0, made) =
        Ensures-require IsId _ _ (id (property (codes "client_uuid") body))
          (id-IsId (property (codes "client_uuid") body)) errors e1 in
      (e0, (made, on, drove, readings, stops, drives, driven, billed))
