-- ===== src/Entries.antt =====
-- lib/server/valuation/entries.ts: which retainer covers a time entry, and how much of it.
pub mod Hits
pub mod Agreements
pub mod Pools
pub mod Worths
pub mod Examples
use reckon.Common.{
  ℕ, zero, suc, ◌+◌, ◌-◌, Bool, true, false, not, ◌&&◌, ◌||◌, ltb, ◌==◌, if◌then◌else◌, Option,
  none, some, List, [], ◌∷◌, ◌++◌, map, find, any, is_some, Text, codes, text_eq, text_lt, text_le,
  Result, ok, ◌>>=◌,
}
use reckon.Common.Best.{pick}
use reckon.Common.Maps.{Map, get, put}
use reckon.Common.Sorting.{sort_by}
use reckon.Common.Int.{ℤ, pos, pos_part, ◌-ℤ◌, ltb_ℤ}
use reckon.Decimal.{Decimal, Order, less, equal, greater, half_up, of_nat, mul, to_big_int}
use reckon.Decimal.Numeric.{from}
use reckon.Pricing.{id_eq, or_zero, own_rank}

pub data Crew : Type 0 where
  one team : Crew

pub record Entry : Type 0 where
  pub id : Text
  pub entity_id : Option Text
  pub site_id : Option Text
  pub service_id : Text
  pub worked_on : Text
  pub seconds : ℕ
  pub billable : Bool
  pub crew : Crew
  pub worked_by : Option Text
  pub crew_ids : List Text
  -- Its moment, in milliseconds.
  pub created_at : ℕ

pub data Allotment : Type 0 where
  capped unlimited : Allotment

pub data Overage : Type 0 where
  bill no_charge deny : Overage

pub record Covers : Type 0 where
  pub service_id : Text
  pub allotment : Allotment
  pub included_hours : Option Text
  pub overage : Option Overage

pub record Period : Type 0 where
  pub id : Text
  pub period_start : Text
  pub period_end : Text
  pub amount : Text
  pub given : Bool

pub record Agreement : Type 0 where
  pub id : Text
  pub entity_id : Text
  pub site_id : Option Text
  pub starts_on : Text
  pub ends_on : Option Text
  pub services : List Covers
  pub periods : List Period

-- An agreement with what it covers of the entry's service.
pub record Hit : Type 0 where
  pub a : Agreement
  pub s : Covers

unfoldable pub runs_on : Agreement → Text → Bool
runs_on a day =
    not (text_lt day a.starts_on)
    && elim a.ends_on [ none ↦ true | some last ↦ not (text_lt last day) ]

-- The client's, and the client's whole or this site's.
unfoldable pub is_held : Text → Option Text → Agreement → Bool
is_held client site a =
    text_eq a.entity_id client && elim a.site_id [ none ↦ true | some own ↦ id_eq (some own) site ]

abbrev pub to_hit : Agreement → Option Covers → Option Hit
to_hit a none = none
to_hit a (some s) = some (record { a = a; s = s })

unfoldable pub hit_of : Text → Entry → Agreement → Option Hit
hit_of client e a =
    if is_held client e.site_id a && runs_on a e.worked_on
    then to_hit a (find (λ x. text_eq x.service_id e.service_id) a.services)
    else none

abbrev pub add_hit : Option Hit → List Hit → List Hit
add_hit none rest = rest
add_hit (some h) rest = h ∷ rest

-- The agreements that the entry could fall under, in order.
unfoldable pub hits : Text → Entry → List Agreement → List Hit
hits client e [] = []
hits client e (a ∷ as') = add_hit (hit_of client e a) (hits client e as')

-- A site's own first, then the latest to start.
unfoldable pub beats_hit : Hit → Hit → Bool
beats_hit h best =
    (is_some h.a.site_id && not (is_some best.a.site_id))
    || ((own_rank h.a.site_id == own_rank best.a.site_id) && text_lt best.a.starts_on h.a.starts_on)

unfoldable pub best_hit : Option Text → Entry → List Agreement → Option Hit
best_hit none e agreements = none
best_hit (some client) e agreements = pick (λ _. true) beats_hit none (hits client e agreements)

unfoldable pub agreement_for : Entry → List Agreement → Option Hit
unfolding best_hit
agreement_for e agreements = best_hit e.entity_id e agreements

pub record Coverage : Type 0 where
  pub agreement_id : Option Text
  pub period_id : Option Text
  pub period_charge : Option Decimal
  pub overage : Option Overage
  -- None while the pool cannot be drawn.
  pub covered_seconds : Option ℕ

abbrev pub not_covered : Coverage
not_covered = record {
  agreement_id = none;
  period_id = none;
  period_charge = none;
  overage = none;
  covered_seconds = some 0;
}

-- An entry that draws on a pool.
pub record Drawn : Type 0 where
  pub e : Entry
  pub s : Covers

-- The two maps that the loop fills: each entry's coverage, and each pool's entries.
pub record Ledger : Type 0 where
  pub found : List (Text × Coverage)
  pub by_pool : List (Text × List Drawn)

abbrev pub or_empty : Option (List Drawn) → List Drawn
or_empty none = []
or_empty (some ds) = ds

unfoldable pub add_to_pool : Text → Drawn → List (Text × List Drawn) → List (Text × List Drawn)
unfolding put get
add_to_pool key d pools = put key (or_empty (get key pools) ++ d ∷ []) pools

unfoldable pub period_of : Agreement → Text → Option Period
period_of a day = find (λ p. text_le p.period_start day && text_le day p.period_end) a.periods

abbrev pub charge_of : Option Period → Result (Option Decimal)
charge_of none = ok none
charge_of (some p) = do amount ← from p.amount; ok (some amount)

-- What is known of a covered entry before its pool is drawn.
unfoldable pub coverage_of : Entry → Hit → Option Period → Option Decimal → Coverage
coverage_of e hit period charge = record {
  agreement_id = some hit.a.id;
  period_id = elim period [ none ↦ none | some p ↦ some p.id ];
  period_charge = charge;
  overage = hit.s.overage;
  covered_seconds = elim hit.s.allotment [ capped ↦ none | unlimited ↦ some e.seconds ];
}

unfoldable pub pool_for :
    Entry → Hit → Option Period → List (Text × List Drawn) → List (Text × List Drawn)
pool_for e hit none pools = pools
pool_for e hit (some p) pools = elim hit.s.allotment [
  | unlimited ↦ pools
  | capped ↦ add_to_pool (p.id ++ codes ":" ++ e.service_id) (record { e = e; s = hit.s }) pools
]

-- One entry of the first loop.
unfoldable pub cover_hit : Entry → Option Hit → Ledger → Result Ledger
cover_hit e none l = ok (record l { found = put e.id not_covered l.found })
cover_hit e (some hit) l = do
  let period = period_of hit.a e.worked_on
  charge ← charge_of period
  ok (record {
    found = put e.id (coverage_of e hit period charge) l.found;
    by_pool = pool_for e hit period l.by_pool;
  })

unfoldable pub cover_entries : List Agreement → List Entry → Ledger → Result Ledger
cover_entries agreements [] l = ok l
cover_entries agreements (e ∷ es) l = do
  next ← cover_hit e (if e.billable then agreement_for e agreements else none) l
  cover_entries agreements es next

-- The seconds a capped pool holds.
unfoldable pub pool_seconds : Covers → Result ℤ
pool_seconds s = do
  hours ← from (or_zero s.included_hours)
  to_big_int (mul hours (of_nat 3600)) half_up

abbrev min_ℤ : ℤ → ℤ → ℤ
min_ℤ a b = if ltb_ℤ b a then b else a

-- Math.max(Math.min(seconds, pool - before), 0)
unfoldable pub covered_of : ℕ → ℤ → ℕ → ℕ
covered_of seconds pool before = pos_part (min_ℤ (pos seconds) (pool -ℤ pos before))

-- The seconds that a pool's entries are covered for, in the order given, `before` already drawn.
unfoldable pub draw_pool : ℕ → List Drawn → Result (List (Text × ℕ))
draw_pool before [] = ok []
draw_pool before (d ∷ ds) = do
  pool ← pool_seconds d.s
  rest ← draw_pool (before + d.e.seconds) ds
  ok ((d.e.id, covered_of d.e.seconds pool before) ∷ rest)

-- `c.coveredSeconds = …`, on the coverage that `found` holds.
unfoldable pub set_covered : Text → ℕ → List (Text × Coverage) → List (Text × Coverage)
set_covered id n [] = []
set_covered id n ((j, c) ∷ m) =
    let rest = set_covered id n m in
    if text_eq j id then (j, record c { covered_seconds = some n }) ∷ m else (j, c) ∷ rest

unfoldable pub set_all : List (Text × ℕ) → List (Text × Coverage) → List (Text × Coverage)
set_all [] found = found
set_all ((id, n) ∷ rest) found = set_all rest (set_covered id n found)

abbrev pub by_day : Order → Bool → Bool
by_day less tie = true
by_day greater tie = false
by_day equal tie = tie

-- `locale_compare` is String.prototype.localeCompare, which the host's locale data defines.
module _ (locale_compare : Text → Text → Order) where
  -- The order the work was done in: by day, then by when it was entered, then by id.
  unfoldable pub drawn_before : Drawn → Drawn → Bool
  drawn_before x y = by_day (locale_compare x.e.worked_on y.e.worked_on) (
      ltb x.e.created_at y.e.created_at
      || ((x.e.created_at == y.e.created_at) && text_lt x.e.id y.e.id))

  unfoldable pub draw_in_order : List Drawn → Result (List (Text × ℕ))
  draw_in_order ds = draw_pool 0 (sort_by drawn_before ds)

  unfoldable pub draw_pools :
      List (Text × List Drawn) → List (Text × Coverage) → Result (List (Text × Coverage))
  draw_pools [] found = ok found
  draw_pools ((key, ds) ∷ pools) found = do
    drawn ← draw_in_order ds
    draw_pools pools (set_all drawn found)

  unfoldable pub coverage : List Entry → List Agreement → Result (List (Text × Coverage))
  coverage entries agreements = do
    l ← cover_entries agreements entries (record { found = []; by_pool = [] })
    draw_pools l.by_pool l.found
