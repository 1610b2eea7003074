-- ===== src/Routes.antt =====
-- lib/server/routes.ts: a trip's miles by Google's route, asked in pieces, and what was asked before.
-- What Google answers, how a number prints and JSON.stringify are parameters; a moment is epoch ms.
pub mod Pieces
pub mod Bounds
pub mod Examples
use reckon.Common.{
  ℕ, zero, suc, ◌+◌, ◌-◌, Bool, true, false, not, ◌&&◌, ltb, leb, ◌==◌, if◌then◌else◌, Option, none,
  some, List, [], ◌∷◌, ◌++◌, map, take, drop, length, Text,
}
use reckon.Common.Maps.{Map, get, put, delete}

pub data Waypoint : Type 0 where
  place address : Text → Waypoint

-- A leg as Google says it.
pub record GoogleLeg : Type 0 where
  pub distance_meters : Option ℕ
  pub duration : Option Text

-- A leg as it is read: its seconds are a text, where they were asked for and said.
pub record Leg : Type 0 where
  pub metres : ℕ
  pub seconds : Option Text

pub record Drive : Type 0 where
  pub miles : Text
  pub minutes : ℕ

pub record Kept (A : Type 0) : Type 0 where
  pub answer : A
  pub at : ℕ

-- The most places between the first and the last of one request.
abbrev pub most_between : ℕ
most_between = 10

abbrev pub day_ms : ℕ
day_ms = 86400000

abbrev pub or_zero : Option ℕ → ℕ
or_zero none = 0
or_zero (some n) = n

-- What the code takes from outside: Google's answer to a request, none when it gives none in time; whether
-- a duration is a number of seconds; (metres / 1609.344).toFixed(1); and Math.round(parseFloat(d) / 60).
pub record Host : Type 0 where
  pub fetch : List Waypoint → Bool → Option (List GoogleLeg)
  pub is_seconds : Text → Bool
  pub miles_of : ℕ → Text
  pub minutes_of : Text → ℕ
  pub stringify : List Waypoint → Text

module _ (host : Host) where
  unfoldable pub seconds_of : Bool → Option Text → Option Text
  seconds_of timed none = none
  seconds_of timed (some d) = if timed && host.is_seconds d then some d else none

  unfoldable pub read_leg : Bool → GoogleLeg → Leg
  unfolding seconds_of
  read_leg timed l = record {
    metres = or_zero l.distance_meters;
    seconds = seconds_of timed l.duration;
  }

  -- A leg for each drive of the piece, or no answer at all.
  unfoldable pub one_for_each : ℕ → List Leg → Option (List Leg)
  one_for_each points legs = if length legs == points - 1 then some legs else none

  unfoldable pub legs_of : List Waypoint → Bool → Option (List Leg)
  unfolding one_for_each read_leg
  legs_of piece timed = read (host.fetch piece timed)
    where
      read : Option (List GoogleLeg) → Option (List Leg)
      read none = none
      read (some legs) = one_for_each (length piece) (map (read_leg timed) legs)

  -- More miles after those of the first pieces.
  unfoldable pub and_more : Option (List Leg) → Option (List Text) → Option (List Text)
  and_more none rest = none
  and_more (some legs) none = none
  and_more (some legs) (some miles) = some (map (λ l. host.miles_of l.metres) legs ++ miles)

  -- The loop over the pieces: `points` are those from `from` on, and the next piece starts where this one ends.
  unfoldable pub ask_pieces : ℕ → List Waypoint → Option (List Text)
  unfolding legs_of and_more
  ask_pieces zero points = some []
  ask_pieces (suc fuel) points =
      let rest = ask_pieces fuel (drop (most_between + 1) points) in
      if ltb 0 (length points - 1)
      then and_more (legs_of (take (most_between + 2) points) false) rest
      else some []

  -- The oldest answer goes once there are 500.
  unfoldable pub make_room : {A : Type 0} → Map (Kept A) → Map (Kept A)
  unfolding delete
  make_room [] = []
  make_room ((k, a) ∷ m) =
      if leb 500 (length ((k, a) ∷ m)) then delete k ((k, a) ∷ m) else (k, a) ∷ m

  unfoldable pub keep : {A : Type 0} → Text → A → ℕ → Map (Kept A) → Map (Kept A)
  unfolding make_room put
  keep k a now m = put k (record { answer = a; at = now }) (make_room m)

  -- An answer kept for less than a day.
  unfoldable pub fresh : {A : Type 0} → ℕ → Option (Kept A) → Option A
  fresh now none = none
  fresh now (some k) = if ltb (now - k.at) day_ms then some k.answer else none

  unfoldable pub keep_all :
      List Waypoint
      → ℕ
      → Option (List Text)
      → Map (Kept (List Text))
      → Option (List Text) × Map (Kept (List Text))
  unfolding keep
  keep_all points now none asked = (none, asked)
  keep_all points now (some miles) asked =
      if length miles == length points - 1
      then (some miles, keep (host.stringify points) miles now asked)
      else (none, asked)

  -- A kept answer, or what asking gives.
  unfoldable pub or_ask :
      {A : Type 0} → Option A → Option A × Map (Kept A) → Map (Kept A) → Option A × Map (Kept A)
  or_ask (some a) new before = (some a, before)
  or_ask none new before = new

  -- `routeMiles`, with the key or without, at one moment and answered at a later one.
  unfoldable pub route_miles :
      Bool
      → List Waypoint
      → ℕ
      → ℕ
      → Map (Kept (List Text))
      → Option (List Text) × Map (Kept (List Text))
  unfolding ask_pieces keep_all or_ask fresh get
  route_miles has_key points now later asked =
      if not has_key
      then (none, asked)
      else if ltb (length points) 2
      then (none, asked)
      else or_ask (fresh now (get (host.stringify points) asked))
          (keep_all points later (ask_pieces (length points) points) asked) asked

  unfoldable pub drive_there : Option (List Leg) → Option Drive
  drive_there none = none
  drive_there (some []) = none
  drive_there (some (there ∷ [])) = none
  drive_there (some (there ∷ back ∷ legs)) = with_minutes there.seconds
    where
      with_minutes : Option Text → Option Drive
      with_minutes none = none
      with_minutes (some s) = some (record {
        miles = host.miles_of (there.metres + back.metres);
        minutes = host.minutes_of s;
      })

  unfoldable pub keep_drive :
      Text → ℕ → Option Drive → Map (Kept Drive) → Option Drive × Map (Kept Drive)
  unfolding keep
  keep_drive k now none driven = (none, driven)
  keep_drive k now (some d) driven = (some d, keep k d now driven)

  -- `roundTrip`: from the business to a place and back, as one request of two legs.
  unfoldable pub round_trip :
      Bool → Waypoint → Waypoint → ℕ → ℕ → Map (Kept Drive) → Option Drive × Map (Kept Drive)
  unfolding legs_of drive_there keep_drive or_ask fresh get
  round_trip has_key base there now later driven =
      let k = host.stringify (base ∷ there ∷ []) in
      if not has_key
      then (none, driven)
      else or_ask (fresh now (get k driven))
          (keep_drive k later (drive_there (legs_of (base ∷ there ∷ base ∷ []) true)) driven) driven
