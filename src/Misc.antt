-- ===== src/Misc.antt =====
-- lib/server/valuation/misc.ts: hours as shown, what a trip leg bills and pays, and what a material is
-- worth.
pub mod Examples
use reckon.Common.{
  ℕ, Bool, true, false, not, ◌||◌, if◌then◌else◌, Option, none, some, List, [], ◌∷◌, Text, Result,
  ok, ◌>>=◌,
}
use reckon.Decimal.{
  Decimal, Ratio, half_up, zero_decimal, of_nat, round, ratio, ratio_mul, ratio_div, ratio_round,
}
use reckon.Decimal.Numeric.{from, to_fixed}
use reckon.Pricing.{Price, ServiceTerms, price_on, job_rate, billed_amount}
use reckon.Pay.{PayRule, Payee, PaysFor, rule_on, vehicle_pay}
use reckon.Stock.{Shelf, Costing, UnitCost, on_hand_of, unit_cost}
use reckon.PassedOn.{markup}

-- Seconds as hours to the hundredth.
unfoldable pub hours_of : ℕ → Result Text
hours_of seconds = do
  hours ← ratio_div (ratio (of_nat seconds)) (ratio (of_nat 3600))
  d ← ratio_round hours 2 half_up
  to_fixed d 2 half_up

pub record LegTerms : Type 0 where
  pub service_id : Option Text
  pub entity_id : Option Text
  pub miles : Text

pub record LegWorth : Type 0 where
  pub rate : Option Decimal
  pub billed : Option Decimal

-- An id that is there, and not empty.
abbrev pub id_set : Option Text → Option Text
id_set none = none
id_set (some []) = none
id_set (some (c ∷ cs)) = some (c ∷ cs)

abbrev pub service_for : (Text → Option ServiceTerms) → Option Text → Option ServiceTerms
service_for services none = none
service_for services (some id) = services id

unfoldable pub leg_charge :
    LegTerms → Text → List Price → ℕ → Option Text → Option ServiceTerms → Result LegWorth
unfolding price_on job_rate billed_amount
leg_charge leg travelled_on prices places none service = ok (record { rate = none; billed = none })
leg_charge leg travelled_on prices places (some id) none =
    ok (record { rate = none; billed = none })
leg_charge leg travelled_on prices places (some id) (some service) = do
  rate ← job_rate (price_on prices id leg.entity_id travelled_on) 1
  miles ← from leg.miles
  billed ← billed_amount service rate (ratio miles) places
  ok (record { rate = rate; billed = billed })

unfoldable pub leg_worth :
    LegTerms → Text → (Text → Option ServiceTerms) → List Price → ℕ → Result LegWorth
unfolding leg_charge
leg_worth leg travelled_on services prices places =
    leg_charge leg travelled_on prices places (id_set leg.service_id)
      (service_for services (id_set leg.service_id))

-- What the leg pays the owner for the vehicle; nothing for the business's own, or for a leg of nobody's.
unfoldable pub owner_pay :
    Option Text
    → Option Text
    → Option Decimal
    → Text
    → Option Payee
    → List PayRule
    → ℕ
    → Decimal
    → Result (Option Decimal)
unfolding rule_on vehicle_pay
owner_pay service client billed travelled_on none rules places nil = ok (some nil)
owner_pay service none billed travelled_on (some owner) rules places nil = ok (some nil)
owner_pay none (some client) billed travelled_on (some owner) rules places nil = ok none
owner_pay (some service) (some client) billed travelled_on (some owner) rules places nil =
    vehicle_pay (rule_on rules service owner (some client) PaysFor.vehicle travelled_on) billed
      places

-- `vehicle` is none where the trip does not say, and its owner none where it is the business's.
unfoldable pub leg_vehicle_pay :
    LegTerms
    → Option Decimal
    → Text
    → Option (Option Payee)
    → List PayRule
    → ℕ
    → Result (Option Decimal)
unfolding owner_pay
leg_vehicle_pay leg billed travelled_on none rules places = ok none
leg_vehicle_pay leg billed travelled_on (some owner) rules places = do
  nil ← round zero_decimal places half_up
  owner_pay (id_set leg.service_id) (id_set leg.entity_id) billed travelled_on owner rules places
      nil

pub record MaterialWorth : Type 0 where
  pub on_hand : Decimal
  pub ex_tax : Option Decimal
  pub tax_paid : Option Decimal
  pub price : Option Decimal

abbrev pub ex_tax_of : Option UnitCost → Option Decimal
ex_tax_of none = none
ex_tax_of (some c) = some c.ex_tax

abbrev pub tax_paid_of : Option UnitCost → Option Decimal
tax_paid_of none = none
tax_paid_of (some c) = some c.tax_paid

-- The price listed, or the cost marked up, to four places.
unfoldable pub material_price : Option Text → Option UnitCost → Text → Result (Option Decimal)
unfolding markup
material_price (some listed) cost pct = do d ← from listed; ok (some d)
material_price none none pct = ok none
material_price none (some cost) pct = do
  m ← from pct
  factor ← markup m
  d ← ratio_round (ratio_mul (ratio cost.ex_tax) factor) 4 half_up
  ok (some d)

unfoldable pub material_worth : Shelf → Costing → Text → Option Text → Result MaterialWorth
unfolding material_price on_hand_of unit_cost
material_worth shelf costing markup_pct listed = do
  on_hand ← on_hand_of shelf
  cost ← unit_cost shelf costing
  price ← material_price listed cost markup_pct
  ok (record {
    on_hand = on_hand;
    ex_tax = ex_tax_of cost;
    tax_paid = tax_paid_of cost;
    price = price;
  })
