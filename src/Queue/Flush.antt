-- ===== src/Queue/Flush.antt =====
-- lib/queue.ts, postOne and post: what waits is posted, and settled by what the server answers. What
-- the network answers, and what else is done on the phone meanwhile, is a parameter: one exchange for
-- each request made.
use reckon.Common.{
  ℕ, ◌+◌, Bool, true, false, not, ◌&&◌, ◌||◌, leb, ◌==◌, if◌then◌else◌, Option, none, some, List,
  [], ◌∷◌, ◌++◌, filter, any, length, Text, text_eq,
}
use reckon.Queue.{
  Entry, LineEntry, DraftEntry, ChangeEntry, TripEntry, Queued, Refusal, Phone, settle,
  oldest_first, waits, entry_key, line_key, draft_key, change_key, trip_key, enqueue, enqueue_line,
  enqueue_draft, enqueue_change, enqueue_trip, discard, discard_line, discard_draft, discard_change,
  discard_trip,
}

-- A response: its status, whether it is a problem document, and the refusal that `reason` reads of it.
pub record Response : Type 0 where
  pub status : ℕ
  pub problem : Bool
  pub why : Refusal

pub data Reply : Type 0 where
  no_connection : Reply
  replied : Response → Reply

pub data Posted : Type 0 where
  sent refused again offline : Posted

-- `r.ok`
unfoldable pub is_ok : Response → Bool
is_ok r = leb 200 r.status && leb r.status 299

-- Something else is not: the session, the moment or the server.
unfoldable pub worth_another_go : ℕ → Bool
worth_another_go status =
    status == 401 || (status == 403 || (status == 408 || (status == 429 || leb 500 status)))

unfoldable pub response_comes_to : Response → Posted
unfolding is_ok worth_another_go
response_comes_to r =
    if is_ok r
    then sent
    else if (r.status == 403) && r.problem
    then refused
    else if worth_another_go r.status
    then again
    else refused

unfoldable pub comes_to : Reply → Posted
unfolding response_comes_to
comes_to no_connection = offline
comes_to (replied r) = response_comes_to r

-- What a person does on the phone, with the clock where a row is written.
pub data Done : Type 0 where
  enqueues : Entry → ℕ → Done
  enqueues_line : LineEntry → ℕ → Done
  enqueues_draft : DraftEntry → ℕ → Done
  enqueues_change : ChangeEntry → Bool → ℕ → Done
  enqueues_trip : TripEntry → ℕ → Done
  discards discards_line discards_draft discards_change discards_trip : Text → Done

unfoldable pub does : Done → Phone → Phone
does (enqueues e now) p = enqueue e now p
does (enqueues_line l now) p = enqueue_line l now p
does (enqueues_draft d now) p = enqueue_draft d now p
does (enqueues_change c fresh now) p = enqueue_change c fresh now p
does (enqueues_trip t now) p = enqueue_trip t now p
does (discards k) p = discard k p
does (discards_line k) p = discard_line k p
does (discards_draft k) p = discard_draft k p
does (discards_change k) p = discard_change k p
does (discards_trip k) p = discard_trip k p

unfoldable pub does_all : List Done → Phone → Phone
does_all [] p = p
does_all (d ∷ ds) p = does_all ds (does d p)

-- One request: what is done while it is out, its reply, and what is done once it is settled.
pub record Exchange : Type 0 where
  pub meanwhile : List Done
  pub reply : Reply
  pub afterwards : List Done

-- What is posted.
pub data Request : Type 0 where
  time : Entry → Request
  draft : DraftEntry → Request
  line : LineEntry → Request
  change : ChangeEntry → Request
  trip : TripEntry → Request

-- The phone, the requests made and what each came to, the two counts of `Flushed`, and whether the
-- connection was lost.
pub record Run : Type 0 where
  pub phone : Phone
  pub requests : List (Request × Posted)
  pub sent_count : ℕ
  pub refused_count : ℕ
  pub stopped : Bool

abbrev pub counts_sent : Posted → ℕ
counts_sent sent = 1
counts_sent _ = 0

abbrev pub counts_refused : Posted → ℕ
counts_refused refused = 1
counts_refused _ = 0

abbrev pub is_offline : Posted → Bool
is_offline offline = true
is_offline _ = false

abbrev pub why_of : Reply → Option Refusal
why_of no_connection = none
why_of (replied r) = some r.why

-- The exchange of each request, by how many were made before it.
abbrev pub Network : Type 0
Network = ℕ → Exchange

module _ {P : Type 0} (request : P → Request)
    (settle_on : Queued P → Option (Queued P) → Phone → Phone) where
  -- `done`, `refuse` or neither.
  unfoldable pub settle_as : Queued P → Posted → Reply → Phone → Phone
  settle_as q sent reply p = settle_on q none p
  settle_as q refused reply p = settle_on q (some (record q { refused = why_of reply })) p
  settle_as q again reply p = p
  settle_as q offline reply p = p

  -- One row posted, counted and settled.
  unfoldable pub post_row : Queued P → Exchange → Run → Run
  post_row q x r =
      let posted = comes_to x.reply in
      record {
        phone = does_all x.afterwards (settle_as q posted x.reply (does_all x.meanwhile r.phone));
        requests = r.requests ++ (request q.entry, posted) ∷ [];
        sent_count = r.sent_count + counts_sent posted;
        refused_count = r.refused_count + counts_refused posted;
        stopped = is_offline posted;
      }

  -- The rows of one store in turn, until the connection is lost.
  unfoldable pub post_rows : Network → List (Queued P) → Run → Run
  post_rows net [] r = r
  post_rows net (q ∷ qs) r =
      let next = post_row q (net (length r.requests)) r in
      let rest = post_rows net qs next in if next.stopped then next else rest

unfoldable pub settle_entry : Queued Entry → Option (Queued Entry) → Phone → Phone
settle_entry q next p = record p { queue = settle entry_key q next p.queue }

unfoldable pub settle_draft : Queued DraftEntry → Option (Queued DraftEntry) → Phone → Phone
settle_draft q next p = record p { drafts = settle draft_key q next p.drafts }

unfoldable pub settle_line : Queued LineEntry → Option (Queued LineEntry) → Phone → Phone
settle_line q next p = record p { lines = settle line_key q next p.lines }

unfoldable pub settle_change : Queued ChangeEntry → Option (Queued ChangeEntry) → Phone → Phone
settle_change q next p = record p { changes = settle change_key q next p.changes }

unfoldable pub settle_trip : Queued TripEntry → Option (Queued TripEntry) → Phone → Phone
settle_trip q next p = record p { trips = settle trip_key q next p.trips }

abbrev pub idle_run : Phone → Run
idle_run p = record { phone = p; requests = []; sent_count = 0; refused_count = 0; stopped = false }

unfoldable pub post_time : Network → Run → Run
post_time net r = post_rows time settle_entry net (filter waits (oldest_first r.phone.queue)) r

unfoldable pub post_drafts : Network → Run → Run
post_drafts net r = post_rows draft settle_draft net (filter waits (oldest_first r.phone.drafts)) r

-- A line for a draft that has not arrived waits for it.
unfoldable pub may_go : Phone → Queued LineEntry → Bool
may_go p q =
    waits q
    && not
        (any (λ (d : Queued DraftEntry). text_eq d.entry.client_uuid q.entry.invoice_id) p.drafts)

unfoldable pub post_lines : Network → Run → Run
post_lines net r =
    post_rows line settle_line net (filter (may_go r.phone) (oldest_first r.phone.lines)) r

unfoldable pub post_changes : Network → Run → Run
post_changes net r =
    post_rows change settle_change net (filter waits (oldest_first r.phone.changes)) r

unfoldable pub post_trips : Network → Run → Run
post_trips net r = post_rows trip settle_trip net (filter waits (oldest_first r.phone.trips)) r

-- The next store, unless the connection was lost.
abbrev pub and_then : Run → (Run → Run) → Run
and_then r next = if r.stopped then r else next r

-- Time, then drafts, then lines, then changes, then trips.
unfoldable pub post : Network → Phone → Run
post net p =
    let r1 = post_time net (idle_run p) in
    let r2 = and_then r1 (post_drafts net) in
    let r3 = and_then r2 (post_lines net) in
    let r4 = and_then r3 (post_changes net) in and_then r4 (post_trips net)
