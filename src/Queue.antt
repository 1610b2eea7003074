-- ===== src/Queue.antt =====
-- lib/queue.ts: the capture queue on the phone. A store is an IndexedDB object store: rows by key, in
-- the order of their keys, each transaction whole or not at all.
pub mod Flush
pub mod Stores
pub mod Kept
pub mod Examples
use reckon.Common.{
  ℕ, suc, ◌+◌, ◌-◌, Bool, true, false, not, ltb, ◌==◌, if◌then◌else◌, Option, none, some, List, [],
  ◌∷◌, map, filter, length, is_some, Text, text_eq, text_lt,
}
use reckon.Common.Sorting.{sort_by}

pub data Crew : Type 0 where
  one team : Crew

pub record Entry : Type 0 where
  pub client_uuid : Text
  pub worked_on : Text
  pub started_at : Option Text
  pub ended_at : Option Text
  pub zone : Option Text
  pub minutes : Option ℕ
  pub crew : Crew
  pub worked_by : Option Text
  pub crew_ids : Option (List Text)
  pub created_by : Text
  pub entity_id : Option Text
  pub site_id : Option Text
  pub service_id : Text
  pub billable : Option Bool
  pub note : Option Text

-- A form's fields, by name.
abbrev pub Fields : Type 0
Fields = List (Text × Text)

pub record LineEntry : Type 0 where
  pub client_uuid : Text
  pub invoice_id : Text
  pub fields : Fields
  pub made_at : Option Text

pub record DraftEntry : Type 0 where
  pub client_uuid : Text
  pub entity_id : Text
  pub who : Text

pub data Act : Type 0 where
  change remove restore : Act

pub record ChangeEntry : Type 0 where
  pub line_id : Text
  pub invoice_id : Text
  pub act : Act
  pub version : ℕ
  pub base : Fields
  pub fields : Fields
  pub force : Bool
  pub made_at : Text

pub record TripEntry : Type 0 where
  pub key : Text
  pub trip_id : Option Text
  pub body : Fields

-- Why the server refused a row, in its own words.
pub record Refusal : Type 0 where
  pub status : ℕ
  pub detail : Text
  pub errors : Option Fields

pub record Queued (P : Type 0) : Type 0 where
  pub entry : P
  pub queued_at : ℕ
  pub refused : Option Refusal

module _ {P : Type 0} (key : P → Text) where
  abbrev pub key_of : Queued P → Text
  key_of q = key q.entry

  -- store.put
  unfoldable pub put : Queued P → List (Queued P) → List (Queued P)
  put q [] = q ∷ []
  put q (r ∷ rs) =
      let later = put q rs in
      if text_eq (key_of r) (key_of q)
      then q ∷ rs
      else if text_lt (key_of q) (key_of r)
      then q ∷ r ∷ rs
      else r ∷ later

  -- store.delete
  unfoldable pub delete : Text → List (Queued P) → List (Queued P)
  delete k [] = []
  delete k (r ∷ rs) = let rest = delete k rs in if text_eq (key_of r) k then rest else r ∷ rest

  -- store.get
  unfoldable pub get : Text → List (Queued P) → Option (Queued P)
  get k [] = none
  get k (r ∷ rs) = let rest = get k rs in if text_eq (key_of r) k then some r else rest

  -- What a settled row becomes: the row it was marked as, or nothing.
  unfoldable pub write_back : Queued P → Option (Queued P) → List (Queued P) → List (Queued P)
  write_back q none rows = delete (key_of q) rows
  write_back q (some next) rows = put next rows

  unfoldable pub settle_copy :
      Queued P → Option (Queued P) → List (Queued P) → Option (Queued P) → List (Queued P)
  settle_copy q next rows none = rows
  settle_copy q next rows (some got) =
      if got.queued_at == q.queued_at then write_back q next rows else rows

  -- `settleIn`: only the copy that was posted is settled; one queued again since stays as it is.
  unfoldable pub settle : Queued P → Option (Queued P) → List (Queued P) → List (Queued P)
  settle q next rows = settle_copy q next rows (get (key_of q) rows)

abbrev pub queued_before : {P : Type 0} → Queued P → Queued P → Bool
queued_before a b = ltb a.queued_at b.queued_at

-- `all`, `allDrafts` and the like: every row, oldest first.
unfoldable pub oldest_first : {P : Type 0} → List (Queued P) → List (Queued P)
oldest_first rows = sort_by queued_before rows

unfoldable pub waits : {P : Type 0} → Queued P → Bool
waits q = not (is_some q.refused)

-- The five stores.
pub record Phone : Type 0 where
  pub queue : List (Queued Entry)
  pub lines : List (Queued LineEntry)
  pub drafts : List (Queued DraftEntry)
  pub changes : List (Queued ChangeEntry)
  pub trips : List (Queued TripEntry)

abbrev pub entry_key : Entry → Text
entry_key e = e.client_uuid

abbrev pub line_key : LineEntry → Text
line_key l = l.client_uuid

abbrev pub draft_key : DraftEntry → Text
draft_key d = d.client_uuid

abbrev pub change_key : ChangeEntry → Text
change_key c = c.line_id

abbrev pub trip_key : TripEntry → Text
trip_key t = t.key

-- A row as it is written: nothing refused.
abbrev pub fresh_row : {P : Type 0} → P → ℕ → Queued P
fresh_row e now = record { entry = e; queued_at = now; refused = none }

unfoldable pub enqueue : Entry → ℕ → Phone → Phone
enqueue e now p = record p { queue = put entry_key (fresh_row e now) p.queue }

unfoldable pub enqueue_line : LineEntry → ℕ → Phone → Phone
enqueue_line l now p = record p { lines = put line_key (fresh_row l now) p.lines }

unfoldable pub enqueue_draft : DraftEntry → ℕ → Phone → Phone
enqueue_draft d now p = record p { drafts = put draft_key (fresh_row d now) p.drafts }

unfoldable pub enqueue_trip : TripEntry → ℕ → Phone → Phone
enqueue_trip t now p = record p { trips = put trip_key (fresh_row t now) p.trips }

-- A second change keeps the save and the fields that the first began from, while that one waits.
unfoldable pub began_from : ChangeEntry → Option (Queued ChangeEntry) → ChangeEntry
began_from c none = c
began_from c (some had) =
    if is_some had.refused
    then c
    else record c { version = had.entry.version; base = had.entry.base }

unfoldable pub enqueue_change : ChangeEntry → Bool → ℕ → Phone → Phone
enqueue_change c fresh now p =
    let had = if fresh then none else get change_key c.line_id p.changes in
    record p { changes = put change_key (fresh_row (began_from c had) now) p.changes }

unfoldable pub discard : Text → Phone → Phone
discard k p = record p { queue = delete entry_key k p.queue }

unfoldable pub discard_line : Text → Phone → Phone
discard_line k p = record p { lines = delete line_key k p.lines }

unfoldable pub discard_change : Text → Phone → Phone
discard_change k p = record p { changes = delete change_key k p.changes }

unfoldable pub discard_trip : Text → Phone → Phone
discard_trip k p = record p { trips = delete trip_key k p.trips }

-- `linesHeld` of one draft.
unfoldable pub lines_held : Text → Phone → List (Queued LineEntry)
lines_held invoice_id p =
    filter (λ (q : Queued LineEntry). text_eq q.entry.invoice_id invoice_id) (oldest_first p.lines)

unfoldable pub discard_lines : List (Queued LineEntry) → Phone → Phone
discard_lines [] p = p
discard_lines (q ∷ qs) p = discard_lines qs (discard_line q.entry.client_uuid p)

-- Lets go of a draft started here, and of the lines on it.
unfoldable pub discard_draft : Text → Phone → Phone
discard_draft k p =
    let cleared = discard_lines (lines_held k p) p in
    record cleared { drafts = delete draft_key k cleared.drafts }

pub record Held : Type 0 where
  pub waiting : ℕ
  pub refused : List (Queued Entry)

unfoldable pub held : Phone → Held
held p = record {
  waiting = length (filter waits (oldest_first p.queue));
  refused = filter (λ (q : Queued Entry). is_some q.refused) (oldest_first p.queue);
}

unfoldable pub waiting_count : Phone → ℕ
waiting_count p =
    (held p).waiting
    + length (filter waits (oldest_first p.drafts))
    + length (filter waits (oldest_first p.lines))
    + length (filter waits (oldest_first p.changes))
    + length (filter waits (oldest_first p.trips))
