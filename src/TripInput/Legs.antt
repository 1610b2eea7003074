-- ===== src/TripInput/Legs.antt =====
-- lib/server/trip-input.ts with lib/trip-legs.ts: an accepted trip bills the miles that were sent.
use reckon.Common.{
  ℕ, ◌+◌, ◌-◌, ◌*◌, ◌^◌, ◌≤◌, ◌<◌, ◌≡◌, refl, ap, ◌∙◌, subst, inl, inr, Bool, true, false,
  Bool-cases, ◌&&◌, ◌==◌, ==_iff, some, List, [], ◌∷◌, ◌++◌, length, All, map, Text, arith, ok,
}
use mathlib.Core.List.{append-nil}
use reckon.Common.Maps.{Map}
use reckon.Common.Sorting.{total}
use reckon.Common.Int.{pos}
use reckon.Common.IntLaws.{pos-*}
use reckon.Decimal.{Decimal, half_up, round, at, pow10}
use reckon.Decimal.Numeric.{from, make, value, span_digits}
use reckon.Decimal.Printed.{IsDigit, point, from-printed}
use reckon.Decimal.Rules.{round-exact}
use reckon.Decimal.Runs.{Run, span_digits-splits}
use reckon.Trips.{Drive, Leg, Stop}
use reckon.Trips.Shares.{hundredths}
use reckon.Trips.Legs.{legs_of}
use reckon.Trips.Legs.Totals.{Driven, Bills, legs_of-Bills}
use reckon.TripInput.Values.{
  Members, between, is_places, is_point, is_amount_split, is_amount, is_miles,
}
use reckon.TripInput.{StopInput, TripInput, accepted, answer, read_body, read_trip, clients_of}
use reckon.TripInput.Parts.{IsDrive}
use reckon.TripInput.Accepted.{IsTrip, Ensures-body}

accepted-injective : (a b : TripInput) → accepted a ≡ accepted b → a ≡ b
accepted-injective a b e = cc

answer-IsTrip :
    (parses : Text → Bool) (r : TripInput × Map Text) (t : TripInput)
    → (r.1 ≡ [] → IsTrip parses r.0)
    → answer r ≡ accepted t
    → IsTrip parses t
unfolding answer
answer-IsTrip parses (trip, []) t h e = subst (IsTrip parses) (accepted-injective trip t e) (h refl)
answer-IsTrip parses (trip, x ∷ errors) t h e = cc

pub read_trip-IsTrip :
    (parses : Text → Bool) (body : Members) (t : TripInput)
    → read_trip parses (some body) ≡ accepted t
    → IsTrip parses t
unfolding read_trip
read_trip-IsTrip parses body t e =
    answer-IsTrip parses (read_body parses body []) t (λ h. (Ensures-body parses body [] h).1) e

-- Text that is so many hundredths, to the places it has.
abbrev pub IsHundredths : Text → Type 0
IsHundredths m = (w : ℕ) × (x : Decimal) × (from m ≡ ok x) × (round x 2 half_up ≡ ok (hundredths w))

made :
    (whole frac : Text)
    → length frac ≤ 2
    → (w : ℕ) × (round (make false whole frac) 2 half_up ≡ ok (hundredths w))
unfolding make at pow10
made whole frac h =
    let d : Decimal = record { units = pos (value 0 (whole ++ frac)); scale = length frac } in
    (
      value 0 (whole ++ frac) * 10 ^ (2 - length frac),
      round-exact d 2 half_up h ∙ ap (λ u. ok (record { units = u; scale = 2 })) (pos-* _ _),
    )

is_places-point :
    (v : Text) (most : ℕ) (parts : Text × Text)
    → Run v parts
    → is_places most parts ≡ true
    → (frac : Text) × All IsDigit frac × (b'.' ∷ v ≡ point frac) × (length frac ≤ most)
unfolding is_places between
is_places-point v most ([], []) h e = ground (arith, e)
is_places-point v most (d ∷ ds, []) (h, hs) e =
    (d ∷ ds, hs, ap (◌∷◌ b'.') (h ∙ append-nil (d ∷ ds)), ground (arith, e))
is_places-point v most (frac, c ∷ cs) h e = cc

is_point-point :
    (v : Text) (most : ℕ)
    → is_point most v ≡ true
    → (frac : Text) × All IsDigit frac × (v ≡ point frac) × (length frac ≤ most)
unfolding is_point
is_point-point [] most e = ([], tt, refl, omega arith)
is_point-point (c ∷ cs) most e = elim (Bool-cases (c == b'.')) [
  | inl t ↦
      let (frac, digits, is, short) =
        is_places-point cs most (span_digits cs) (span_digits-splits cs) (rw t at e) in
      (frac, digits, ap (λ x. x ∷ cs) ((==_iff c b'.').0 t) ∙ is, short)
  | inr f ↦ let no : false ≡ true = rw f at e in cc
]

both_of : (a b : Bool) → (a && b) ≡ true → (a ≡ true) × (b ≡ true)
both_of a b e = ground arith

some_of : (most n : ℕ) → between 1 most n ≡ true → 0 < n
unfolding between
some_of most n e = ground arith

is_amount-IsHundredths :
    (v : Text) (most : ℕ) (parts : Text × Text)
    → Run v parts
    → is_amount_split most 2 parts ≡ true
    → IsHundredths v
unfolding is_amount_split
is_amount-IsHundredths v most (whole, rest) (h, hs) e =
    let (long, short) = both_of _ _ e in
    let (frac, digits, is, places) = is_point-point rest 2 short in
    let (w, rounds) = made whole frac places in
    (
      w,
      make false whole frac,
      ap from (h ∙ ap (λ t. whole ++ t) is)
          ∙ from-printed false whole frac (some_of most (length whole) long) hs digits,
      rounds,
    )

-- Miles of the form asked for are so many hundredths.
pub is_miles-IsHundredths : (m : Text) → is_miles m ≡ true → IsHundredths m
unfolding is_miles is_amount
is_miles-IsHundredths m e = is_amount-IsHundredths m 4 (span_digits m) (span_digits-splits m) e

drives-Driven :
    (clients : List Text) (ds : List Drive)
    → All (IsDrive clients) ds
    → (ws : List ℕ) × Driven ds ws
drives-Driven clients [] h = ([], tt)
drives-Driven clients (d ∷ ds) (h, hs) =
    let (w, x, reads, rounds) = is_miles-IsHundredths d.miles h.0 in
    let (ws, driven) = drives-Driven clients ds hs in (w ∷ ws, ((x, reads, rounds), driven))

abbrev pub visits_of : List StopInput → List Stop
visits_of stops = map (λ s. s.visits) stops

pub length-visits_of : (stops : List StopInput) → length (visits_of stops) ≡ length stops
length-visits_of [] = refl
length-visits_of (s ∷ ss) = omega (arith, length-visits_of ss)

pub legs-Bills :
    (stops : List Stop) (ds : List Drive) (ws : List ℕ)
    → 1 ≤ length stops
    → Driven ds ws
    → length ds ≡ length stops + 1
    → (legs : List Leg) × (legs_of stops ds ≡ ok legs) × Bills legs (total (λ w. w) ws)
legs-Bills [] ds ws one h e = absurd (omega arith)
legs-Bills (s ∷ ss) ds ws one h e = legs_of-Bills s ss ds ws h e

-- A trip that is accepted can be assigned: each of its drives is so many
-- hundredths of a mile, its legs are worked out, and what they print adds up to
-- those hundredths.
pub read_trip-Bills :
    (parses : Text → Bool) (body : Members) (t : TripInput)
    → read_trip parses (some body) ≡ accepted t
    → (ws : List ℕ) × (legs : List Leg) × Driven t.drives ws
      × (legs_of (visits_of t.stops) t.drives ≡ ok legs)
      × Bills legs (total (λ w. w) ws)
read_trip-Bills parses body t e =
    let trip = read_trip-IsTrip parses body t e in
    let (one, _, _) = trip.4 in
    let (count, drives) = trip.5 in
    let (ws, driven) = drives-Driven (clients_of t.stops) t.drives drives in
    let (legs, run, bills) =
      legs-Bills (visits_of t.stops) t.drives ws (omega (arith, one, length-visits_of t.stops))
        driven (omega (arith, count, length-visits_of t.stops)) in
    (ws, legs, driven, run, bills)
