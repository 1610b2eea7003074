-- ===== src/Stock.antt =====
-- lib/stock-draw.ts: how stock is drawn off the shelf and costed.
pub mod Fifo
pub mod Draws
pub mod Examples
use reckon.Common.{
  ℕ, zero, suc, Bool, true, false, if◌then◌else◌, Option, none, some, List, [], ◌∷◌, map, find,
  Text, Result, ok, err, Thrown, type_error, ◌>>=◌,
}
use reckon.Common.Int.{ℤ, pos, eqb_ℤ}
use reckon.Decimal.{
  Decimal, Ratio, half_up, zero_decimal, of_nat, add, sub, eq, gt, is_zero, min_of, round, ratio,
  ratio_mul, ratio_div, ratio_add, ratio_round,
}
use reckon.Decimal.Numeric.{from, to_text, Figure, decimal, string, read}

pub data Costing : Type 0 where
  average oldest_first : Costing

pub record ShelfLot : Type 0 where
  pub id : Text
  pub qty_received : Text
  pub qty_remaining : Text
  pub ex_tax_cost : Text
  pub tax_paid : Text

-- The lots with something left, oldest first, and what all of it is worth.
pub record Shelf : Type 0 where
  pub lots : List ShelfLot
  pub ex_tax_worth : Text
  pub tax_worth : Text

pub record Take : Type 0 where
  pub lot_id : Text
  pub qty : Decimal

pub record Draw : Type 0 where
  pub takes : List Take
  pub ex_tax_cost : Decimal
  pub tax_paid : Decimal

pub data Drawn : Type 0 where
  draws : Draw → Drawn
  short : Decimal → Drawn

-- A lot with how much of it is meant.
pub record Part : Type 0 where
  pub lot : ShelfLot
  pub qty : Figure

unfoldable pub on_hand_from : Decimal → List ShelfLot → Result Decimal
on_hand_from n [] = ok n
on_hand_from n (l ∷ ls) = do left ← from l.qty_remaining; on_hand_from (add n left) ls

unfoldable pub on_hand_of : Shelf → Result Decimal
unfolding on_hand_from
on_hand_of shelf = on_hand_from zero_decimal shelf.lots

receipt_share : (ShelfLot → Text) → Part → Result Ratio
receipt_share total p = do
  cost ← from (total p.lot)
  qty ← read p.qty
  received ← from p.lot.qty_received
  ratio_div (ratio_mul (ratio cost) (ratio qty)) (ratio received)

receipt_cost_from : (ShelfLot → Text) → Ratio → List Part → Result Ratio
unfolding receipt_share
receipt_cost_from total n [] = ok n
receipt_cost_from total n (p ∷ ps) = do
  share ← receipt_share total p
  receipt_cost_from total (ratio_add n share) ps

unfoldable pub receipt_cost : List Part → (ShelfLot → Text) → Result Ratio
unfolding receipt_cost_from
receipt_cost parts total = receipt_cost_from total (ratio (of_nat 0)) parts

-- All of what is left of each lot.
unfoldable pub remains : List ShelfLot → List Part
remains = map (λ l. record { lot = l; qty = string l.qty_remaining })

-- What comes off one lot.
pub record Off : Type 0 where
  pub lot : ShelfLot
  pub qty : Decimal

-- The loop over the lots, `left` still wanted: a lot that gives nothing is passed over.
unfoldable pub take_oldest : Decimal → List ShelfLot → Result (List Off)
take_oldest left [] = ok []
take_oldest left (lot ∷ lots) =
    let loop = (do
      remaining ← from lot.qty_remaining
      let take = min_of left remaining
      let skipped = take_oldest left lots
      let taken = do
        rest ← take_oldest (sub left take) lots
        ok (record { lot = lot; qty = take } ∷ rest)
      if is_zero take then skipped else taken) in
    if is_zero left then ok [] else loop

unfoldable pub takes_of : List Off → List Take
takes_of = map (λ o. record { lot_id = o.lot.id; qty = o.qty })

unfoldable pub parts_of : List Off → List Part
parts_of = map (λ o. record { lot = o.lot; qty = decimal o.qty })

-- qty × worth / on hand, to four places.
unfoldable pub average_cost : Text → Decimal → Decimal → Result Decimal
average_cost worth want on_hand = do
  w ← from worth
  cost ← ratio_div (ratio_mul (ratio w) (ratio want)) (ratio on_hand)
  ratio_round cost 4 half_up

-- What the receipts say, scaled by what the shelf is worth over what all its receipts say.
unfoldable pub scaled_cost :
    Shelf → Text → (ShelfLot → Text) → List Off → Decimal → Decimal → Result Decimal
scaled_cost shelf worth total off want on_hand = do
  every ← receipt_cost (remains shelf.lots) total
  let by_average = average_cost worth want on_hand
  let by_receipts = do
    some_of ← receipt_cost (parts_of off) total
    w ← from worth
    cost ← ratio_div (ratio_mul some_of (ratio w)) every
    ratio_round cost 4 half_up
  if eqb_ℤ every.num (pos 0) then by_average else by_receipts

unfoldable pub cost_of :
    Costing → Shelf → Text → (ShelfLot → Text) → List Off → Decimal → Decimal → Result Decimal
cost_of average shelf worth total off want on_hand = average_cost worth want on_hand
cost_of oldest_first shelf worth total off want on_hand =
    scaled_cost shelf worth total off want on_hand

-- A draw of what the loop took, at these two costs.
unfoldable pub priced : List Off → Result Decimal → Result Decimal → Result Drawn
priced off ex_tax tax = do
  ex_tax_cost ← ex_tax
  tax_paid ← tax
  ok (draws (record { takes = takes_of off; ex_tax_cost = ex_tax_cost; tax_paid = tax_paid }))

-- All of a worth, to four places.
unfoldable pub whole_cost : Text → Result Decimal
whole_cost worth = do w ← from worth; round w 4 half_up

-- The draw that empties the shelf takes all of its worth.
unfoldable pub all_worth : Shelf → List Off → Result Drawn
all_worth shelf off = priced off (whole_cost shelf.ex_tax_worth) (whole_cost shelf.tax_worth)

unfoldable pub some_worth : Costing → Shelf → List Off → Decimal → Decimal → Result Drawn
some_worth costing shelf off want on_hand =
    priced off (cost_of costing shelf shelf.ex_tax_worth (λ l. l.ex_tax_cost) off want on_hand)
      (cost_of costing shelf shelf.tax_worth (λ l. l.tax_paid) off want on_hand)

-- The draw of a figure already read.
unfoldable pub draw : Shelf → Decimal → Costing → Result Drawn
draw shelf want costing = do
  on_hand ← on_hand_of shelf
  let enough = do
    off ← take_oldest want shelf.lots
    if eq want on_hand then all_worth shelf off else some_worth costing shelf off want on_hand
  if gt want on_hand then ok (short on_hand) else enough

unfoldable pub draw_from : Shelf → Text → Costing → Result Drawn
draw_from shelf qty costing = do want ← from qty; draw shelf want costing

pub record UnitCost : Type 0 where
  pub ex_tax : Decimal
  pub tax_paid : Decimal

-- The first lot with something left.
unfoldable pub first_left : List ShelfLot → Result ShelfLot
first_left [] = err type_error
first_left (l ∷ ls) = do
  remaining ← from l.qty_remaining
  let later = first_left ls
  if gt remaining zero_decimal then ok l else later

unfoldable pub unit_average : Text → Decimal → Result Decimal
unit_average worth on_hand = do
  w ← from worth
  cost ← ratio_div (ratio w) (ratio on_hand)
  ratio_round cost 4 half_up

unfoldable pub unit_scaled : Shelf → Text → (ShelfLot → Text) → Decimal → Result Decimal
unit_scaled shelf worth total on_hand = do
  every ← receipt_cost (remains shelf.lots) total
  let by_average = unit_average worth on_hand
  let by_receipt = do
    first ← first_left shelf.lots
    t ← from (total first)
    received ← from first.qty_received
    one ← ratio_div (ratio t) (ratio received)
    w ← from worth
    cost ← ratio_div (ratio_mul one (ratio w)) every
    ratio_round cost 4 half_up
  if eqb_ℤ every.num (pos 0) then by_average else by_receipt

unfoldable pub unit_cost_of : Costing → Shelf → Text → (ShelfLot → Text) → Decimal → Result Decimal
unit_cost_of average shelf worth total on_hand = unit_average worth on_hand
unit_cost_of oldest_first shelf worth total on_hand = unit_scaled shelf worth total on_hand

unfoldable pub unit_cost : Shelf → Costing → Result (Option UnitCost)
unit_cost shelf costing = do
  on_hand ← on_hand_of shelf
  let costed = do
    ex_tax ← unit_cost_of costing shelf shelf.ex_tax_worth (λ l. l.ex_tax_cost) on_hand
    tax_paid ← unit_cost_of costing shelf shelf.tax_worth (λ l. l.tax_paid) on_hand
    ok (some (record { ex_tax = ex_tax; tax_paid = tax_paid }))
  if is_zero on_hand then ok none else costed

-- A line drawn from stock.
pub record StockLine : Type 0 where
  pub qty : Text
  pub ex_tax_cost : Text
  pub tax_paid : Text

pub record Redraw : Type 0 where
  pub ex_tax_cost : Decimal
  pub tax_paid : Decimal
  pub takes : List Take
  pub back : Decimal

pub data Redrawn : Type 0 where
  redraws : Redraw → Redrawn
  short : Decimal → Redrawn

-- A line's cost with more added to it, to four places.
unfoldable pub added_cost : Decimal → Text → Result Decimal
added_cost more had = do h ← from had; round (add more h) 4 half_up

unfoldable pub draw_more : StockLine → Drawn → Result Redrawn
draw_more line (short d) = ok (Redrawn.short d)
draw_more line (draws more) = do
  ex_tax_cost ← added_cost more.ex_tax_cost line.ex_tax_cost
  tax_paid ← added_cost more.tax_paid line.tax_paid
  ok (
      redraws (record {
        ex_tax_cost = ex_tax_cost;
        tax_paid = tax_paid;
        takes = more.takes;
        back = zero_decimal;
      }))

-- The line's own cost, of `want` of the `had` on it.
unfoldable pub kept_cost : Decimal → Decimal → Text → Result Decimal
kept_cost had want total = do
  t ← from total
  cost ← ratio_div (ratio_mul (ratio t) (ratio want)) (ratio had)
  ratio_round cost 4 half_up

unfoldable pub put_back : StockLine → Decimal → Decimal → Result Redrawn
put_back line had want = do
  ex_tax_cost ← kept_cost had want line.ex_tax_cost
  tax_paid ← kept_cost had want line.tax_paid
  ok (
      redraws (record {
        ex_tax_cost = ex_tax_cost;
        tax_paid = tax_paid;
        takes = [];
        back = sub had want;
      }))

unfoldable pub change_draw : Shelf → StockLine → Text → Costing → Result Redrawn
change_draw shelf line qty costing = do
  had ← from line.qty
  want ← from qty
  let more = do drawn ← draw_from shelf (to_text (sub want had)) costing; draw_more line drawn
  if gt want had then more else put_back line had want
