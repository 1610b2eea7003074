-- ===== src/Entries/Examples.antt =====
-- lib/server/valuation/entries.ts: two entries on a retainer of one hour.
use reckon.Common.{
  ℕ, ◌≡◌, refl, min, List, [], ◌∷◌, Text, codes, ok, none, some, true, trim, trim_start, is_space,
}
use reckon.Common.Sorting.{total, sort_by}
use reckon.Common.Int.{pos, ◌*ℤ◌}
use reckon.Decimal.{Order, equal, mul, round, to_big_int, at, pow10}
use reckon.Decimal.Numeric.{
  from, read_sign, span_digits, is_digit, read_whole, read_fraction, read_end, make, value,
}
use reckon.Entries.{
  Entry, Agreement, Covers, Drawn, Crew, Allotment, agreement_for, pool_seconds, drawn_before,
  draw_in_order,
}
use reckon.Common.Says.{Foremost}
use reckon.Entries.Hits.{Covering}
use reckon.Entries.Agreements.{Supersedes, of_hit, OnItsLine, agreement_for-Foremost}
use reckon.Entries.Pools.{Covered, entry_seconds, draw_in_order-Covered}

abbrev entry : Text → ℕ → Entry
entry id seconds = record {
  id = id;
  entity_id = some (codes "ann");
  site_id = none;
  service_id = codes "mow";
  worked_on = codes "2025-05-01";
  seconds = seconds;
  billable = true;
  crew = Crew.one;
  worked_by = none;
  crew_ids = [];
  created_at = 0;
}

abbrev covers : Covers
covers = record {
  service_id = codes "mow";
  allotment = Allotment.capped;
  included_hours = some (codes "1");
  overage = none;
}

abbrev retainer : Agreement
retainer = record {
  id = codes "r1";
  entity_id = codes "ann";
  site_id = none;
  starts_on = codes "2025-01-01";
  ends_on = none;
  services = covers ∷ [];
  periods = [];
}

agreement_for-Foremost_example :
    Foremost
      (Covering (codes "ann") (entry (codes "e1") 2700))
      Supersedes
      (retainer ∷ [])
      (of_hit (agreement_for (entry (codes "e1") 2700) (retainer ∷ [])))
    × OnItsLine (entry (codes "e1") 2700) (agreement_for (entry (codes "e1") 2700) (retainer ∷ []))
agreement_for-Foremost_example =
    agreement_for-Foremost (entry (codes "e1") 2700) (retainer ∷ []) (codes "ann") refl

abbrev drawn : List Drawn
drawn =
    record { e = entry (codes "e1") 2700; s = covers }
    ∷ record { e = entry (codes "e2") 2700; s = covers }
    ∷ []

one_hour : pool_seconds covers ≡ ok (pos 3600)
unfolding pool_seconds from trim trim_start is_space read_sign span_digits is_digit read_whole
    read_fraction read_end make value to_big_int round mul at pow10 ◌*ℤ◌
one_hour = refl

-- A collation under which every two days tie.
abbrev ties : Text → Text → Order
ties a b = equal

draw_in_order-Covered_example :
    (cs : List (Text × ℕ)) × (draw_in_order ties drawn ≡ ok cs)
    × (total (λ c. c.1) cs ≡ min 3600 (total entry_seconds drawn))
    × Covered (sort_by (drawn_before ties) drawn) cs
draw_in_order-Covered_example = draw_in_order-Covered ties 3600 drawn (one_hour, (one_hour, tt))
