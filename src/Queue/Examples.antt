-- ===== src/Queue/Examples.antt =====
-- lib/queue.ts: an entry posted while the session has ended, and one queued again meanwhile.
use reckon.Common.{[], ◌∷◌, codes, none, some, true, false}
use reckon.Queue.{Entry, Crew, Phone, fresh_row}
use reckon.Queue.Flush.{Reply, Network, Done}

abbrev entry : Entry
entry = record {
  client_uuid = codes "e1";
  worked_on = codes "2025-05-01";
  started_at = none;
  ended_at = none;
  zone = none;
  minutes = some 30;
  crew = Crew.one;
  worked_by = none;
  crew_ids = none;
  created_by = codes "ana";
  entity_id = some (codes "ann");
  site_id = none;
  service_id = codes "mow";
  billable = some true;
  note = none;
}

abbrev phone : Phone
phone = record { queue = fresh_row entry 5 ∷ []; lines = []; drafts = []; changes = []; trips = [] }

-- Every post is answered by a server that asks for a new session, and meanwhile the entry is queued again.
abbrev signed_out : Network
signed_out n = record {
  meanwhile = Done.enqueues entry 9 ∷ [];
  reply = Reply.replied (record {
    status = 401;
    problem = false;
    why = record { status = 401; detail = []; errors = none };
  });
  afterwards = Done.discards (codes "e2") ∷ [];
}
