-- ===== src/Timers.antt =====
-- lib/timers.ts: the timers still running, in localStorage, and the entry one becomes when it stops.
-- `today_in` is lib/format.ts's todayIn and `iso` is Date.prototype.toISOString, both on epoch ms.
pub mod Kept
pub mod Examples
use reckon.Common.{
  ℕ, suc, ◌+◌, ◌≤◌, ◌<◌, max, Bool, true, false, not, ltb, if◌then◌else◌, Option, none, some, List,
  [], ◌∷◌, ◌++◌, map, filter, any, Text, text_eq,
}
use reckon.Common.Sorting.{sort_by}
use reckon.Queue.{Crew, Entry, one, team}

pub record Running : Type 0 where
  pub id : Text
  pub started_at : ℕ
  pub crew : Crew
  pub worked_by : Option Text
  pub crew_ids : Option (List Text)
  pub entity_id : Option Text
  pub site_id : Option Text
  pub service_id : Text
  pub billable : Bool
  pub note : Option Text

-- An element of the stored array: a timer with all it needs, or anything else.
pub data Row : Type 0 where
  timer : Running → Row
  other : Row

-- What is stored under the key, parsed: an array, or nothing that reads as one.
pub data Stored : Type 0 where
  rows : List Row → Stored
  unreadable : Stored

unfoldable pub timers_of : List Row → List Running
timers_of [] = []
timers_of (timer t ∷ rs) = t ∷ timers_of rs
timers_of (other ∷ rs) = timers_of rs

unfoldable pub read : Stored → List Running
unfolding timers_of
read (rows rs) = timers_of rs
read unreadable = []

-- A store that blocks writing keeps what it had.
unfoldable pub write : Bool → Stored → List Running → Stored
write true s ts = s
write false s ts = rows (map timer ts)

unfoldable pub starts_before : Running → Running → Bool
starts_before a b = ltb a.started_at b.started_at

unfoldable pub running : Stored → List Running
unfolding read starts_before sort_by
running s = sort_by starts_before (read s)

-- A timer asked for, with the id made for it and the moment.
abbrev pub begun : Text → ℕ → Running → Running
begun id now t = record {
  id = id;
  started_at = now;
  crew = t.crew;
  worked_by = t.worked_by;
  crew_ids = t.crew_ids;
  entity_id = t.entity_id;
  site_id = t.site_id;
  service_id = t.service_id;
  billable = t.billable;
  note = t.note;
}

-- The store after a call, and the timers it returns.
unfoldable pub start : Bool → Text → ℕ → Running → Stored → Stored × List Running
unfolding write read running
start blocked id now t s =
    let after = write blocked s (read s ++ begun id now t ∷ []) in (after, running after)

unfoldable pub drop : Bool → Text → Stored → Stored × List Running
unfolding write read running text_eq
drop blocked id s =
    let after = write blocked s (filter (λ t. not (text_eq t.id id)) (read s)) in
    (after, running after)

unfoldable pub moved : Text → ℕ → Running → Running
unfolding text_eq
moved id started_at t = if text_eq t.id id then begun t.id started_at t else t

-- null when the start is not before now, or there is no such timer.
unfoldable pub move_start : Bool → Text → ℕ → ℕ → Stored → Stored × Option (List Running)
unfolding write read running moved text_eq
move_start blocked id started_at now s =
    let after = write blocked s (map (moved id started_at) (read s)) in
    if not (ltb started_at now)
    then (s, none)
    else if not (any (λ t. text_eq t.id id) (read s))
    then (s, none)
    else (after, some (running after))

abbrev pub worker_of : Crew → Option Text → Option Text
worker_of team who = none
worker_of one who = who

abbrev pub team_of : Crew → Option (List Text) → Option (List Text)
team_of team ids = ids
team_of one ids = none

unfoldable pub to_entry : (Text → ℕ → Text) → (ℕ → Text) → Running → Text → Text → ℕ → Entry
to_entry today_in iso t created_by zone now = record {
  client_uuid = t.id;
  worked_on = today_in zone t.started_at;
  started_at = some (iso t.started_at);
  ended_at = some (iso (max now (t.started_at + 1)));
  zone = some zone;
  minutes = none;
  crew = t.crew;
  worked_by = worker_of t.crew t.worked_by;
  crew_ids = team_of t.crew t.crew_ids;
  created_by = created_by;
  entity_id = t.entity_id;
  site_id = t.site_id;
  service_id = t.service_id;
  billable = some t.billable;
  note = t.note;
}
