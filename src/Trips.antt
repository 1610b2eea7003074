-- ===== src/Trips.antt =====
-- lib/trip-legs.ts: a trip's legs, each to whoever caused it.
pub mod Shares
pub mod Legs
pub mod Places
pub mod Examples
use reckon.Common.{
  ℕ, zero, suc, ◌+◌, ◌-◌, Bool, true, false, not, ◌&&◌, ◌||◌, ltb, ◌==◌, if◌then◌else◌, Option,
  none, some, List, [], ◌∷◌, ◌++◌, map, any, length, is_some, Text, codes, text_eq, Result, ok, err,
  ◌>>=◌,
}
use reckon.Common.Int.{pos}
use reckon.Decimal.{Decimal, half_up, down, of_nat, add, sub, mul, gt, round, div, ratio_round}
use reckon.Decimal.Numeric.{from, to_text, to_fixed}

pub record Visit : Type 0 where
  pub entity_id : Text
  pub site_id : Option Text
  pub asked_there : Bool

-- A place the trip stopped, and who it was for there.
abbrev pub Stop : Type 0
Stop = List Visit

pub record Drive : Type 0 where
  pub miles : Text
  -- Who it was given to by hand; none while the rule decides.
  pub to : Option (List Text)
  pub estimated : Bool

pub data LegRule : Type 0 where
  house_to_a a_to_b b_to_house round_trip split unassigned chosen : LegRule

pub record Leg : Type 0 where
  pub drive : ℕ
  pub entity_id : Option Text
  pub site_id : Option Text
  pub rule : LegRule
  pub miles : Text

-- Who a leg goes to.
pub record Party : Type 0 where
  pub entity_id : Text
  pub site_id : Option Text

abbrev pub has_text : Text → List Text → Bool
has_text t ts = any (λ u. text_eq u t) ts

-- Everyone a stop was for who asked before the driver left, once each.
unfoldable pub caused_from : List Text → List Visit → List Party
caused_from seen [] = []
caused_from seen (v ∷ vs) =
    let skipped = caused_from seen vs in
    let kept =
      record { entity_id = v.entity_id; site_id = v.site_id }
      ∷ caused_from (v.entity_id ∷ seen) vs in
    if v.asked_there || has_text v.entity_id seen then skipped else kept

unfoldable pub caused_by : Stop → List Party
unfolding caused_from
caused_by stop = caused_from [] stop

-- 0.01
abbrev pub hundredth : Decimal
hundredth = record { units = pos 1; scale = 2 }

-- The parts in turn, while there is some left over.
unfoldable pub deal : ℕ → Decimal → Decimal → List Decimal
deal zero each left = []
deal (suc ways) each left =
    let larger = add each hundredth ∷ deal ways each (sub left hundredth) in
    let plain = each ∷ deal ways each left in if gt left (of_nat 0) then larger else plain

-- The parts as figures: `whole` to the hundredth, in `ways` parts.
unfoldable pub share_figures : Decimal → ℕ → Result (List Decimal)
share_figures whole ways = do
  r ← div whole (of_nat ways)
  each ← ratio_round r 2 down
  ok (deal ways each (sub whole (mul each (of_nat ways))))

-- Each part printed to the hundredth.
unfoldable pub print_all : List Decimal → Result (List Text)
print_all [] = ok []
print_all (d ∷ ds) = do t ← to_fixed d 2 half_up; ts ← print_all ds; ok (t ∷ ts)

unfoldable pub shares : Text → ℕ → Result (List Text)
shares miles ways = do
  m ← from miles
  whole ← round m 2 half_up
  parts ← share_figures whole ways
  print_all parts
