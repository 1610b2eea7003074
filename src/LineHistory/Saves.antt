-- ===== src/LineHistory/Saves.antt =====
-- lib/line-history.ts: one save is one event, and what is told of each change.
use mathlib.Core.List.{Perm}
use reckon.Common.{
  ◌≡◌, subst, Bool, false, if_cases, Option, List, [], ◌∷◌, ◌++◌, map, any, All, Text, text_eq,
}
use reckon.TripInput.Values.{Value}
use reckon.LineHistory.{
  HistoryRow, Change, When, HistoryEvent, added, changed, removed, when_of, change_of, is_removed,
  same_save, join, push_change, is_field, json, added_mark, deleted_mark, add_row, add_rows,
  in_form_order, events_of,
}
use reckon.LineHistory.Events.{
  changes_in, changes_made, all_rows, in_form_order-perm, InOrder, in_form_order-InOrder,
}

-- Two events that follow each other are not two changes of one save.
abbrev pub Apart : HistoryEvent → HistoryEvent → Type 0
Apart (changed v cs) (changed w ds) = same_save v w ≡ false
Apart (changed v cs) (added w x again) = Unit
Apart (changed v cs) (removed w x) = Unit
Apart (added v x again) e = Unit
Apart (removed v x) e = Unit

abbrev pub AllApart : List HistoryEvent → Type 0
AllApart [] = Unit
AllApart (e ∷ []) = Unit
AllApart (e ∷ f ∷ es) = Apart e f × AllApart (f ∷ es)

abbrev HeadApart : HistoryEvent → List HistoryEvent → Type 0
HeadApart e [] = Unit
HeadApart e (f ∷ es) = Apart e f

AllApart-cons :
    (e : HistoryEvent) (es : List HistoryEvent) → HeadApart e es → AllApart es → AllApart (e ∷ es)
AllApart-cons e [] h k = tt
AllApart-cons e (f ∷ es) h k = (h, k)

-- What a change holds does not matter to whether it is of the same save.
Apart-changed :
    (e : HistoryEvent) (v : When) (cs ds : List Change)
    → Apart e (changed v cs)
    → Apart e (changed v ds)
Apart-changed (added w x again) v cs ds h = tt
Apart-changed (removed w x) v cs ds h = tt
Apart-changed (changed w es) v cs ds h = h

join-AllApart : (w : When) (c : Change) (e : HistoryEvent) → AllApart (join w c e)
unfolding join
join-AllApart w c (added v was again) = (tt, tt)
join-AllApart w c (removed v was) = (tt, tt)
join-AllApart w c (changed v cs) = if_cases AllApart (same_save v w) _ _ (λ _. tt) (λ n. (n, tt))

join-HeadApart :
    (e : HistoryEvent) (w : When) (c : Change) (f : HistoryEvent)
    → Apart e f
    → HeadApart e (join w c f)
unfolding join
join-HeadApart e w c (added v was again) h = h
join-HeadApart e w c (removed v was) h = h
join-HeadApart e w c (changed v cs) h =
    if_cases (HeadApart e) (same_save v w) _ _ (λ _. Apart-changed e v cs (cs ++ c ∷ []) h) (λ _. h)

push_change-HeadApart :
    (e : HistoryEvent) (w : When) (c : Change) (f : HistoryEvent) (es : List HistoryEvent)
    → Apart e f
    → HeadApart e (push_change w c (f ∷ es))
unfolding push_change
push_change-HeadApart e w c f [] h = join-HeadApart e w c f h
push_change-HeadApart e w c f (g ∷ es) h = h

push_change-AllApart :
    (w : When) (c : Change) (es : List HistoryEvent) → AllApart es → AllApart (push_change w c es)
unfolding push_change
push_change-AllApart w c [] h = tt
push_change-AllApart w c (e ∷ []) h = join-AllApart w c e
push_change-AllApart w c (e ∷ f ∷ es) (h, hs) =
    AllApart-cons e (push_change w c (f ∷ es)) (push_change-HeadApart e w c f es h)
      (push_change-AllApart w c (f ∷ es) hs)

-- An event that is apart from any other, at the end.
append-AllApart :
    (x : HistoryEvent) (es : List HistoryEvent)
    → ((e : HistoryEvent) → Apart e x)
    → AllApart es
    → AllApart (es ++ x ∷ [])
append-AllApart x [] h k = tt
append-AllApart x (e ∷ []) h k = (h e, tt)
append-AllApart x (e ∷ f ∷ es) h (k, ks) = (k, append-AllApart x (f ∷ es) h ks)

Apart-added : (w : When) (v : Value) (again : Bool) (e : HistoryEvent) → Apart e (added w v again)
Apart-added w v again (added u x y) = tt
Apart-added w v again (removed u x) = tt
Apart-added w v again (changed u cs) = tt

Apart-removed : (w : When) (v : Value) (e : HistoryEvent) → Apart e (removed w v)
Apart-removed w v (added u x y) = tt
Apart-removed w v (removed u x) = tt
Apart-removed w v (changed u cs) = tt

module _ (parse : Text → Option Value) where
  add_row-AllApart :
      (es : List HistoryEvent) (r : HistoryRow) → AllApart es → AllApart (add_row parse es r)
  unfolding add_row
  add_row-AllApart es r h =
      if_cases AllApart (text_eq r.field added_mark) _ _
        (λ _.
          append-AllApart _ es
            (Apart-added (when_of r) (json parse r.new_value) (any is_removed es)) h)
        (λ _.
          if_cases AllApart (text_eq r.field deleted_mark) _ _
            (λ _. append-AllApart _ es (Apart-removed (when_of r) (json parse r.old_value)) h)
            (λ _.
              if_cases AllApart (is_field r) _ _
                (λ _. push_change-AllApart (when_of r) (change_of r) es h) (λ _. h)))

  add_rows-AllApart :
      (es : List HistoryEvent) (rows : List HistoryRow)
      → AllApart es
      → AllApart (add_rows parse es rows)
  unfolding add_rows
  add_rows-AllApart es [] h = h
  add_rows-AllApart es (r ∷ rs) h =
      add_rows-AllApart (add_row parse es r) rs (add_row-AllApart es r h)

  in_form_order-Apart :
      (e f : HistoryEvent) → Apart e f → Apart (in_form_order parse e) (in_form_order parse f)
  unfolding in_form_order
  in_form_order-Apart (added w v again) f h = tt
  in_form_order-Apart (removed w v) f h = tt
  in_form_order-Apart (changed w cs) (added u x again) h = tt
  in_form_order-Apart (changed w cs) (removed u x) h = tt
  in_form_order-Apart (changed w cs) (changed u ds) h = h

  map-AllApart : (es : List HistoryEvent) → AllApart es → AllApart (map (in_form_order parse) es)
  map-AllApart [] h = tt
  map-AllApart (e ∷ []) h = tt
  map-AllApart (e ∷ f ∷ es) (h, hs) = (in_form_order-Apart e f h, map-AllApart (f ∷ es) hs)

  -- The events tell every change of a field that a person set or sees billed,
  -- each once and no other; a change's fields stand in the order of the form; and
  -- two events that follow each other are not two changes of one save.
  pub events_of-perm :
      (rows : List HistoryRow)
      → Perm (changes_in (events_of parse rows)) (changes_made parse rows)
        × All (InOrder parse) (events_of parse rows)
        × AllApart (events_of parse rows)
  unfolding events_of
  events_of-perm rows = (
    subst (Perm (changes_in (map (in_form_order parse) (add_rows parse [] rows))))
        (all_rows parse [] rows) (in_form_order-perm parse (add_rows parse [] rows)),
    in_form_order-InOrder parse (add_rows parse [] rows),
    map-AllApart (add_rows parse [] rows) (add_rows-AllApart [] rows tt),
  )
