-- ===== src/TripWorth.antt =====
-- lib/server/trip-worth.ts, tripWorth: what a trip's legs bill, and what each pays for the vehicle. The
-- catalogue, the currency's places, the people and the vehicle are what the database holds.
pub mod Kept
pub mod Examples
use reckon.Common.{
  ℕ, Bool, true, false, ◌&&◌, if◌then◌else◌, Option, none, some, List, [], ◌∷◌, map, filter, any,
  find, is_some, Text, text_eq, Result, ok, ◌>>=◌,
}
use reckon.Decimal.{Decimal, half_up, zero_decimal, sub, round}
use reckon.Decimal.Numeric.{Summand, numeric, nothing, sum, to_text, to_fixed}
use reckon.Pricing.{Price, ServiceTerms, id_eq}
use reckon.Pay.{PayRule, Payee, PaysFor, Method, rule_on, same_pays_for}
use reckon.Misc.{LegTerms, LegWorth, id_set, leg_worth, leg_vehicle_pay}
use reckon.Trips.{Leg}
use reckon.Trips.Legs.{is_set}

-- What the figures are worked out from.
pub record Catalogue : Type 0 where
  pub services : Text → Option ServiceTerms
  pub prices : List Price
  pub rules : List PayRule
  pub people : List Payee
  pub places : ℕ

-- A leg's figures as text, its rule, and whether it is a client's.
pub record LegFigures : Type 0 where
  pub billed : Option Text
  pub paid : Option Text
  pub rate : Option Text
  pub rule : Option PayRule
  pub to_client : Bool

pub record RuleSaid : Type 0 where
  pub pays_for : PaysFor
  pub method : Method
  pub amount : Option Text

pub record TripWorth : Type 0 where
  pub legs : List (Option Text × Option Text)
  pub rate : Option Text
  pub rule : Option RuleSaid
  pub billed : Option Text
  pub paid : Option Text
  pub kept : Option Text

abbrev pub role_of : Option Payee → Option Text
role_of none = none
role_of (some p) = p.role_id

unfoldable pub payee_for : List Payee → Option Text → Option Payee
unfolding text_eq
payee_for people none = none
payee_for people (some id) =
    some (record { id = id; role_id = role_of (find (λ p. text_eq p.id id) people) })

-- The owner of the trip's vehicle, `vehicle` being whose it is where the trip says which.
unfoldable pub owner_of : List Payee → Option (Option Text) → Option Payee
unfolding payee_for
owner_of people none = none
owner_of people (some owner_id) = payee_for people (id_set owner_id)

-- vehicle ? { owner } : null
abbrev pub vehicle_with : Option (Option Text) → Option Payee → Option (Option Payee)
vehicle_with none owner = none
vehicle_with (some _) owner = some owner

unfoldable pub rule_for :
    Catalogue → Text → Option Payee → Option Text → Option Text → Option PayRule
unfolding rule_on
rule_for c day none client service = none
rule_for c day (some owner) none service = none
rule_for c day (some owner) (some client) none = none
rule_for c day (some owner) (some client) (some service) =
    rule_on c.rules service owner (some client) PaysFor.vehicle day

unfoldable pub fixed : Option Decimal → ℕ → Result (Option Text)
unfolding to_fixed
fixed none places = ok none
fixed (some d) places = do t ← to_fixed d places half_up; ok (some t)

abbrev pub printed : Option Decimal → Option Text
printed none = none
printed (some d) = some (to_text d)

-- Decimal.ZERO.round(places), as a leg of nobody's bills
unfoldable pub billed_or_nil : Bool → Option Decimal → ℕ → Result (Option Decimal)
billed_or_nil true billed places = ok billed
billed_or_nil false billed places = do nil ← round zero_decimal places half_up; ok (some nil)

unfoldable pub leg_figures :
    Catalogue → Text → Option (Option Text) → Option Text → Leg → Result LegFigures
unfolding leg_worth leg_vehicle_pay owner_of rule_for fixed billed_or_nil
leg_figures c day vehicle service_id l = do
  let to_client = is_set l.entity_id
  let leg : LegTerms = record {
    service_id = if to_client then service_id else none;
    entity_id = l.entity_id;
    miles = l.miles;
  }
  let owner = owner_of c.people vehicle
  w ← leg_worth leg day c.services c.prices c.places
  billed ← billed_or_nil to_client w.billed c.places
  paid ← leg_vehicle_pay leg billed day (vehicle_with vehicle owner) c.rules c.places
  billed_text ← fixed billed c.places
  paid_text ← fixed paid c.places
  ok (record {
    billed = billed_text;
    paid = paid_text;
    rate = if to_client then printed w.rate else none;
    rule = rule_for c day owner (id_set l.entity_id) (id_set service_id);
    to_client = to_client;
  })

unfoldable pub all_figures :
    Catalogue → Text → Option (Option Text) → Option Text → List Leg → Result (List LegFigures)
unfolding leg_figures
all_figures c day vehicle service_id [] = ok []
all_figures c day vehicle service_id (l ∷ ls) = do
  f ← leg_figures c day vehicle service_id l
  fs ← all_figures c day vehicle service_id ls
  ok (f ∷ fs)

abbrev pub same_text : Option Text → Option Text → Bool
same_text none none = true
same_text none (some b) = false
same_text (some a) none = false
same_text (some a) (some b) = text_eq a b

abbrev pub summand : Option Text → Summand
summand none = nothing
summand (some t) = numeric t

-- legs.every((l) => l.billed !== null) ? sum(...) : null, of either figure
unfoldable pub sum_if_all : List (Option Text) → Result (Option Decimal)
unfolding sum
sum_if_all ts =
    if any (λ t. if is_some t then false else true) ts
    then ok none
    else (do total ← sum (map summand ts); ok (some total))

-- sum(legs.map((l) => l.paid)), where the trip says its vehicle
unfoldable pub paid_total : Option (Option Text) → List LegFigures → Result (Option Decimal)
unfolding sum_if_all
paid_total none figures = ok none
paid_total (some _) figures = sum_if_all (map (λ (f : LegFigures). f.paid) figures)

unfoldable pub kept_of : Option Decimal → Option Decimal → ℕ → Result (Option Text)
unfolding to_fixed sub
kept_of none paid places = ok none
kept_of (some billed) none places = ok none
kept_of (some billed) (some paid) places = do
  t ← to_fixed (sub billed paid) places half_up
  ok (some t)

-- The three totals: billed, paid for the vehicle and kept.
unfoldable pub totals :
    ℕ → Option (Option Text) → List LegFigures → Result (Option Text × Option Text × Option Text)
unfolding sum_if_all paid_total fixed kept_of
totals places vehicle figures = do
  billed ← sum_if_all (map (λ (f : LegFigures). f.billed) figures)
  paid ← paid_total vehicle figures
  billed_text ← fixed billed places
  paid_text ← fixed paid places
  kept ← kept_of billed paid places
  ok (billed_text, paid_text, kept)

-- The rate where every client's leg has the one, as it may be none.
unfoldable pub one_rate : List (Option Text) → Option Text
unfolding text_eq
one_rate [] = none
one_rate (r ∷ rs) = if any (λ s. if same_text r s then false else true) rs then none else r

unfoldable pub same_method : Method → Method → Bool
same_method Method.per_hour Method.per_hour = true
same_method Method.percent Method.percent = true
same_method Method.fixed Method.fixed = true
same_method Method.nothing Method.nothing = true
same_method _ _ = false

-- Whether two rules are one. Of two alike in everything the first is always chosen, so that a leg's
-- rule is the same row wherever it is the same in everything.
unfoldable pub same_rule : Option PayRule → Option PayRule → Bool
unfolding same_method same_pays_for text_eq
same_rule none none = true
same_rule none (some b) = false
same_rule (some a) none = false
same_rule (some a) (some b) =
    text_eq a.service_id b.service_id
    && same_text a.role_id b.role_id
    && same_text a.user_id b.user_id
    && same_text a.entity_id b.entity_id
    && same_pays_for a.pays_for b.pays_for
    && same_method a.method b.method
    && same_text a.amount b.amount
    && text_eq a.effective_from b.effective_from

unfoldable pub said : Option PayRule → Option RuleSaid
said none = none
said (some r) = some (record { pays_for = r.pays_for; method = r.method; amount = r.amount })

-- The rule where every client's leg has the one.
unfoldable pub one_rule : List (Option PayRule) → Option RuleSaid
unfolding same_rule said
one_rule [] = none
one_rule (r ∷ rs) = if any (λ s. if same_rule r s then false else true) rs then none else said r

-- `tripWorth`
unfoldable pub trip_worth :
    Catalogue → Text → Option (Option Text) → Option Text → List Leg → Result TripWorth
unfolding all_figures totals one_rate one_rule
trip_worth c day vehicle service_id legs = do
  figures ← all_figures c day vehicle service_id legs
  (billed, paid, kept) ← totals c.places vehicle figures
  let ours : List LegFigures = filter (λ (f : LegFigures). f.to_client) figures
  ok (record {
    legs = map (λ (f : LegFigures). (f.billed, f.paid)) figures;
    rate = one_rate (map (λ (f : LegFigures). f.rate) ours);
    rule = one_rule (map (λ (f : LegFigures). f.rule) ours);
    billed = billed;
    paid = paid;
    kept = kept;
  })
