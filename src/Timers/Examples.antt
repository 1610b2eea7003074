-- ===== src/Timers/Examples.antt =====
-- lib/timers.ts: two timers running, beside a row that is not one.
use reckon.Common.{
  ℕ, ◌≡◌, refl, ◌≤◌, ◌<◌, ◌⊎◌, any, filter, not, List, [], ◌∷◌, ◌++◌, Text, codes, text_eq, none,
  some, true, false,
}
use reckon.Queue.{Crew}
use reckon.Timers.{
  Running, Row, Stored, timer, rows, read, begun, start, drop, move_start, timers_of,
}
use reckon.Timers.Kept.{
  Lists, Fresh, Distinct, start-Lists, drop-Lists, move_start-AreMoved, AreMoved,
}

abbrev job : Text → ℕ → Running
job id at = record {
  id = id;
  started_at = at;
  crew = Crew.one;
  worked_by = none;
  crew_ids = none;
  entity_id = none;
  site_id = none;
  service_id = codes "mow";
  billable = true;
  note = none;
}

abbrev stored : Stored
stored = rows (timer (job (codes "b") 20) ∷ Row.other ∷ timer (job (codes "a") 10) ∷ [])

apart : Distinct (read stored)
unfolding read timers_of text_eq
apart = ((refl, tt), (tt, tt))

new : Fresh (codes "c") (read stored)
unfolding read timers_of text_eq
new = (refl, (refl, tt))

start-Lists_example :
    (read (start false (codes "c") 30 (job [] 0) stored).0
      ≡ read stored ++ begun (codes "c") 30 (job [] 0) ∷ [])
    × Distinct (read (start false (codes "c") 30 (job [] 0) stored).0)
    × Lists
        (start false (codes "c") 30 (job [] 0) stored).1
        (read (start false (codes "c") 30 (job [] 0) stored).0)
start-Lists_example = start-Lists (codes "c") 30 (job [] 0) stored apart new

drop-Lists_example :
    (read (drop false (codes "a") stored).0
      ≡ filter (λ t. not (text_eq t.id (codes "a"))) (read stored))
    × Fresh (codes "a") (read (drop false (codes "a") stored).0)
    × Distinct (read (drop false (codes "a") stored).0)
    × Lists (drop false (codes "a") stored).1 (read (drop false (codes "a") stored).0)
drop-Lists_example = drop-Lists (codes "a") stored apart

move_start-AreMoved_example :
    ((move_start false (codes "a") 5 30 stored ≡ (stored, none))
      × ((30 ≤ 5) ⊎ (any (λ t. text_eq t.id (codes "a")) (read stored) ≡ false)))
    ⊎ ((after : Stored) × (shown : List Running) × (move_start false (codes "a") 5 30 stored
          ≡ (after, some shown))
        × (5 < 30)
        × (any (λ t. text_eq t.id (codes "a")) (read stored) ≡ true)
        × AreMoved (codes "a") 5 (read stored) (read after)
        × Distinct (read after)
        × Lists shown (read after))
move_start-AreMoved_example = move_start-AreMoved (codes "a") 5 30 stored apart
