-- ===== src/TripInput/Drives.antt =====
-- lib/server/trip-input.ts: the drives of a trip, and who each is given to.
use reckon.Common.{
  ◌+◌, Bool, ◌==◌, if◌then◌else◌, Option, none, some, List, [], ◌∷◌, length, Text, codes, trim,
}
use reckon.Trips.{Drive, has_text}
use reckon.TripInput.Values.{
  Value, undefined, null, boolean, number, string, array, object, items, property, members_of,
  is_true, text_of, is_miles,
}
use reckon.TripInput.Steps.{Checked, no, Verdict, fine, wrong, read_each}
use reckon.TripInput.Stops.{StopInput, clients_of}

-- One name before those that follow, if it is a client's and they all are.
unfoldable pub and_given : List Text → Option Text → Option (List Text) → Option (List Text)
and_given clients none rest = none
and_given clients (some e) none = none
and_given clients (some e) (some es) = if has_text e clients then some (e ∷ es) else none

-- typeof e === 'string' && clients.has(e), for each
unfoldable pub given_to : List Text → List Value → Option (List Text)
unfolding and_given text_of
given_to clients [] = some []
given_to clients (v ∷ vs) = and_given clients (text_of v) (given_to clients vs)

-- Who a drive is given to by hand: nobody said, these, or none of ours.
pub data Given : Type 0 where
  by_rule not_ours : Given
  by_hand : List Text → Given

unfoldable pub hand : Option (List Text) → Given
hand none = not_ours
hand (some es) = by_hand es

unfoldable pub to_of : List Text → Value → Given
unfolding given_to hand items
to_of clients null = by_rule
to_of clients undefined = by_rule
to_of clients (array vs) = hand (given_to clients (items vs))
to_of clients (boolean b) = not_ours
to_of clients (number n) = not_ours
to_of clients (string t) = not_ours
to_of clients (object ms) = not_ours

-- typeof d.miles === 'string' ? d.miles.trim() : ''
unfoldable pub trimmed : Option Text → Text
unfolding trim
trimmed none = []
trimmed (some t) = trim t

unfoldable pub give : Text → Bool → Given → Verdict Drive
give m estimated by_rule = fine (record { miles = m; to = none; estimated = estimated })
give m estimated (by_hand es) = fine (record { miles = m; to = some es; estimated = estimated })
give m estimated not_ours = wrong (codes "A drive is given to someone the trip was for.")

unfoldable pub drive_of : Text → Given → Bool → Verdict Drive
unfolding is_miles give
drive_of m to estimated =
    if is_miles m
    then give m estimated to
    else wrong (codes "Miles, to a hundredth at most, for every drive.")

unfoldable pub read_drive : List Text → Value → Verdict Drive
unfolding drive_of trimmed to_of property members_of text_of is_true
read_drive clients raw =
    let d = members_of raw in
    drive_of (trimmed (text_of (property (codes "miles") d)))
      (to_of clients (property (codes "to") d)) (is_true (property (codes "estimated") d))

-- One drive more than there are stops.
unfoldable pub read_drives : List StopInput → Option (List Value) → Checked (List Drive)
unfolding read_each read_drive no
read_drives stops none errors = (
  [],
  no (codes "drives") (codes "The miles of each drive: one more than there are stops.") errors,
)
read_drives stops (some raws) errors =
    if length raws == length stops + 1
    then read_each (codes "drives") (read_drive (clients_of stops)) raws errors
    else (
      [],
      no (codes "drives") (codes "The miles of each drive: one more than there are stops.") errors,
    )
