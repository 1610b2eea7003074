-- ===== src/Queue/Kept.antt =====
-- lib/queue.ts: nothing in the queue is thrown away.
use reckon.Common.{◌≡◌, ◌⊎◌, Bool, true, false, Option, any, All, Text, text_eq}
use reckon.Queue.{Queued, Phone, entry_key}
use reckon.Queue.Flush.{Posted, sent, Done, Exchange, Request, Run, post_row}
use reckon.Queue.Stores.{has}

-- What is done discards no time entry under `k`.
abbrev pub Spares : Text → Done → Type 0
Spares k (Done.discards j) = text_eq j k ≡ false
Spares k (Done.enqueues e now) = Unit
Spares k (Done.enqueues_line l now) = Unit
Spares k (Done.enqueues_draft d now) = Unit
Spares k (Done.enqueues_change c f now) = Unit
Spares k (Done.enqueues_trip t now) = Unit
Spares k (Done.discards_line j) = Unit
Spares k (Done.discards_draft j) = Unit
Spares k (Done.discards_change j) = Unit
Spares k (Done.discards_trip j) = Unit

abbrev pub SparesAll : Text → Exchange → Type 0
SparesAll k x = All (Spares k) x.meanwhile × All (Spares k) x.afterwards

abbrev pub holds : Text → Phone → Bool
holds k p = has entry_key k p.queue

-- A request that was the entry under `k`, and that the server took.
abbrev pub is_sent : Text → Request × Posted → Bool
is_sent k (Request.time e, sent) = text_eq e.client_uuid k
is_sent k _ = false

-- The entry is still on the phone, or the server has it.
abbrev pub Safe : Text → Run → Type 0
Safe k r = (holds k r.phone ≡ true) ⊎ (any (is_sent k) r.requests ≡ true)

-- A step of any store's loop keeps the entry safe.
abbrev KeepsSafe :
    {P : Type 0} → (P → Request) → (Queued P → Option (Queued P) → Phone → Phone) → Text → Type 0
KeepsSafe {P} request settle_on k =
    (q : Queued P) (x : Exchange) (r : Run)
    → SparesAll k x
    → Safe k r
    → Safe k (post_row request settle_on q x r)
