-- ===== src/LineHistory/Examples.antt =====
-- lib/line-history.ts: a line that is added, and then changed in two fields by one save.
use mathlib.Core.List.{Perm}
use reckon.Common.{Option, none, some, List, [], ◌∷◌, All, Text, codes}
use reckon.TripInput.Values.{Value}
use reckon.LineHistory.{HistoryRow, events_of}
use reckon.LineHistory.Events.{changes_in, changes_made, InOrder}
use reckon.LineHistory.Saves.{AllApart, events_of-perm}

abbrev row : Text → Text → HistoryRow
row f at = record {
  field = f;
  old_value = none;
  new_value = some (codes "5");
  changed_by = some (codes "ann");
  changed_at = at;
  made_at = none;
}

abbrev rows : List HistoryRow
rows =
    row (codes "(added)") (codes "10:00")
    ∷ row (codes "amount") (codes "11:00")
    ∷ row (codes "qty") (codes "11:00")
    ∷ []

-- Nothing is parsed here.
abbrev unread : Text → Option Value
unread t = none

events_of-perm_example :
    Perm (changes_in (events_of unread rows)) (changes_made unread rows)
    × All (InOrder unread) (events_of unread rows)
    × AllApart (events_of unread rows)
events_of-perm_example = events_of-perm unread rows
