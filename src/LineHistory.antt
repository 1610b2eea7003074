-- ===== src/LineHistory.antt =====
-- lib/line-history.ts: a line's history, from the rows that are kept of it, as the events a person reads.
pub mod Events
pub mod Saves
pub mod Examples
use reckon.Common.{
  ℕ, suc, ◌+◌, Bool, true, false, ◌&&◌, ltb, ◌==◌, if◌then◌else◌, Option, none, some, List, [], ◌∷◌,
  ◌++◌, map, any, Text, codes, text_eq,
}
use reckon.Common.Sorting.{sort_by}
use reckon.Trips.{has_text}
use reckon.TripInput.Values.{
  Value, array, object, no_members, undefined, null, boolean, number, string,
}

pub record HistoryRow : Type 0 where
  pub field : Text
  pub old_value : Option Text
  pub new_value : Option Text
  pub changed_by : Option Text
  pub changed_at : Text
  pub made_at : Option Text

-- The fields that a person set or sees billed, in the order a form has them.
abbrev pub fields : List Text
fields =
    codes "description"
    ∷ codes "qty"
    ∷ codes "unit_price"
    ∷ codes "amount"
    ∷ codes "tax_rate_pct"
    ∷ codes "site_id"
    ∷ codes "bought_from"
    ∷ codes "ex_tax_cost"
    ∷ codes "tax_paid"
    ∷ codes "paid_by"
    ∷ codes "receipt"
    ∷ []

pub record Change : Type 0 where
  pub field : Text
  pub before : Option Text
  pub after : Option Text

-- Who did it, when it arrived, and when it was made where that was on a phone.
pub record When : Type 0 where
  pub who : Option Text
  pub at : Text
  pub made_at : Option Text

pub data HistoryEvent : Type 0 where
  added : When → Value → Bool → HistoryEvent
  changed : When → List Change → HistoryEvent
  removed : When → Value → HistoryEvent

abbrev pub when_of : HistoryRow → When
when_of r = record { who = r.changed_by; at = r.changed_at; made_at = r.made_at }

abbrev pub change_of : HistoryRow → Change
change_of r = record { field = r.field; before = r.old_value; after = r.new_value }

abbrev pub is_removed : HistoryEvent → Bool
is_removed (added w v again) = false
is_removed (changed w cs) = false
is_removed (removed w v) = true

unfoldable pub same_option : Option Text → Option Text → Bool
unfolding text_eq
same_option none none = true
same_option none (some b) = false
same_option (some a) none = false
same_option (some a) (some b) = text_eq a b

-- Rows of one moment against one person are of one save.
unfoldable pub same_save : When → When → Bool
unfolding same_option text_eq
same_save w v = text_eq w.at v.at && same_option w.who v.who

-- A change, into the last event where that is of the same save, and else as its own.
unfoldable pub join : When → Change → HistoryEvent → List HistoryEvent
unfolding same_save
join w c (added v was again) = added v was again ∷ changed w (c ∷ []) ∷ []
join w c (removed v was) = removed v was ∷ changed w (c ∷ []) ∷ []
join w c (changed v cs) =
    if same_save v w then changed v (cs ++ c ∷ []) ∷ [] else changed v cs ∷ changed w (c ∷ []) ∷ []

unfoldable pub push_change : When → Change → List HistoryEvent → List HistoryEvent
unfolding join
push_change w c [] = changed w (c ∷ []) ∷ []
push_change w c (e ∷ []) = join w c e
push_change w c (e ∷ f ∷ es) = e ∷ push_change w c (f ∷ es)

-- What is parsed where it is an object, and one without a field where it is not.
unfoldable pub record_or_empty : Option Value → Value
record_or_empty (some (object ms)) = object ms
record_or_empty (some (array vs)) = array vs
record_or_empty (some undefined) = object no_members
record_or_empty (some null) = object no_members
record_or_empty (some (boolean b)) = object no_members
record_or_empty (some (number n)) = object no_members
record_or_empty (some (string t)) = object no_members
record_or_empty none = object no_members

abbrev pub text_or_empty : Option Text → Text
text_or_empty none = codes "{}"
text_or_empty (some t) = t

abbrev pub is_field : HistoryRow → Bool
is_field r = has_text r.field fields

abbrev pub added_mark : Text
added_mark = codes "(added)"

abbrev pub deleted_mark : Text
deleted_mark = codes "(deleted)"

-- `parse` is JSON.parse, none where it throws.
module _ (parse : Text → Option Value) where
  unfoldable pub json : Option Text → Value
  unfolding record_or_empty
  json v = record_or_empty (parse (text_or_empty v))

  unfoldable pub add_row : List HistoryEvent → HistoryRow → List HistoryEvent
  unfolding json push_change text_eq
  add_row events r =
      if text_eq r.field added_mark
      then events ++ added (when_of r) (json r.new_value) (any is_removed events) ∷ []
      else if text_eq r.field deleted_mark
      then events ++ removed (when_of r) (json r.old_value) ∷ []
      else if is_field r
      then push_change (when_of r) (change_of r) events
      else events

  unfoldable pub add_rows : List HistoryEvent → List HistoryRow → List HistoryEvent
  unfolding add_row
  add_rows events [] = events
  add_rows events (r ∷ rs) = add_rows (add_row events r) rs

  -- order.indexOf, of a field that is one of them.
  unfoldable pub index_of : Text → List Text → ℕ
  index_of t [] = 0
  index_of t (u ∷ us) = let rest = index_of t us in if text_eq u t then 0 else suc rest

  unfoldable pub form_before : Change → Change → Bool
  unfolding index_of
  form_before a b = ltb (index_of a.field fields) (index_of b.field fields)

  unfoldable pub in_form_order : HistoryEvent → HistoryEvent
  unfolding form_before sort_by
  in_form_order (added w v again) = added w v again
  in_form_order (changed w cs) = changed w (sort_by form_before cs)
  in_form_order (removed w v) = removed w v

  -- `eventsOf`
  unfoldable pub events_of : List HistoryRow → List HistoryEvent
  unfolding add_rows in_form_order
  events_of rows = map in_form_order (add_rows [] rows)
