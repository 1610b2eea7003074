-- ===== src/Entries/Worths.antt =====
-- lib/server/valuation/entries.ts, worth: what each entry bills, earns and pays.
use reckon.Common.{
  ℕ, zero, suc, ◌+◌, ◌-◌, ◌*◌, Bool, true, false, not, ◌&&◌, ◌==◌, ltb, if◌then◌else◌, Option, none,
  some, List, [], ◌∷◌, filter, length, map, is_some, Text, text_eq, Result, ok, err, type_error,
  ◌>>=◌,
}
use reckon.Decimal.{
  Decimal, Ratio, half_up, zero_decimal, of_nat, add, round, ratio, ratio_mul, ratio_div, ratio_add,
  ratio_round,
}
use reckon.Pricing.{
  Price, ServiceTerms, UnitKind, hour, mile, each, price_on, job_rate, billed_amount,
}
use reckon.Pay.{PayRule, Payee, PaysFor, rule_on, time_pay, covered_pay}
use reckon.Decimal.{Order}
use reckon.Entries.{Crew, Entry, Agreement, Coverage, Overage, coverage}
use reckon.Common.Maps.{get, put}
use reckon.Trips.{has_text}

pub record Person : Type 0 where
  pub payee : Payee
  pub active : Bool

pub record Context : Type 0 where
  pub services : Text → Option ServiceTerms
  pub prices : List Price
  pub rules : List PayRule
  pub people : List Person
  pub agreements : List Agreement
  pub places : ℕ

pub record PersonPay : Type 0 where
  pub user_id : Text
  pub covered_seconds : Option ℕ
  pub time_paid : Option Decimal
  pub covered_paid : Option Decimal
  pub paid : Option Decimal
  pub time_rule : Option PayRule
  pub covered_rule : Option PayRule

pub record Worth : Type 0 where
  pub entry_id : Text
  pub heads : ℕ
  pub rate : Option Decimal
  pub covered_seconds : Option ℕ
  pub billed_seconds : Option ℕ
  pub billed : Option Decimal
  pub covered_share : Option Decimal
  pub earned : Option Decimal
  pub paid : Option Decimal
  pub people : List PersonPay
  pub coverage : Coverage

unfoldable pub team : List Person → List Person
team people = filter (λ p. p.active && is_some p.payee.role_id) people

unfoldable pub crew_of : Context → Entry → List Person
unfolding team
crew_of ctx e =
    if length e.crew_ids == 0
    then team ctx.people
    else filter (λ p. has_text p.payee.id e.crew_ids) ctx.people

unfoldable pub heads_on : Context → Entry → Crew → ℕ
unfolding crew_of
heads_on ctx e Crew.team = length (crew_of ctx e)
heads_on ctx e Crew.one = 1

abbrev pub heads_of : Context → Entry → ℕ
heads_of ctx e = heads_on ctx e e.crew

abbrev pub id_is : Option Text → Text → Bool
id_is none id = false
id_is (some a) id = text_eq a id

unfoldable pub payees_on : Context → Entry → Crew → List Person
unfolding crew_of
payees_on ctx e Crew.team = crew_of ctx e
payees_on ctx e Crew.one = filter (λ p. id_is e.worked_by p.payee.id) ctx.people

-- `covered.get(e.id)!`
abbrev pub coverage_for : Option Coverage → Result Coverage
coverage_for none = err type_error
coverage_for (some c) = ok c

abbrev pub or_zero_seconds : Option ℕ → ℕ
or_zero_seconds none = 0
or_zero_seconds (some n) = n

-- A period's covered person-seconds, with an entry's added to them.
unfoldable pub add_seconds : Option Text → ℕ → ℕ → List (Text × ℕ) → List (Text × ℕ)
unfolding put get
add_seconds none seconds heads m = m
add_seconds (some period) zero heads m = m
add_seconds (some period) (suc n) heads m =
    put period (or_zero_seconds (get period m) + suc n * heads) m

unfoldable pub person_seconds :
    Context → List (Text × Coverage) → List Entry → List (Text × ℕ) → Result (List (Text × ℕ))
unfolding add_seconds heads_on get
person_seconds ctx covered [] m = ok m
person_seconds ctx covered (e ∷ es) m = do
  c ← coverage_for (get e.id covered)
  person_seconds ctx covered es
      (add_seconds c.period_id (or_zero_seconds c.covered_seconds) (heads_of ctx e) m)

-- e.seconds - c.coveredSeconds, no more than which is ever covered.
abbrev pub uncovered : Entry → Option ℕ → Option ℕ
uncovered e none = none
uncovered e (some n) = some (e.seconds - n)

abbrev pub is_no_charge : Option Overage → Bool
is_no_charge (some Overage.no_charge) = true
is_no_charge _ = false

-- One of it, or the seconds as hours.
unfoldable pub quantity_of : UnitKind → ℕ → Result Ratio
quantity_of each seconds = ok (ratio (of_nat 1))
quantity_of hour seconds = ratio_div (ratio (of_nat seconds)) (ratio (of_nat 3600))
quantity_of mile seconds = ratio_div (ratio (of_nat seconds)) (ratio (of_nat 3600))

unfoldable pub billed_of :
    Option ServiceTerms
    → Option Decimal
    → Coverage
    → Option ℕ
    → ℕ
    → Decimal
    → Result (Option Decimal)
unfolding quantity_of billed_amount
billed_of service rate c none places nil = ok none
billed_of none rate c (some seconds) places nil = ok none
billed_of (some service) rate c (some zero) places nil = ok (some nil)
billed_of (some service) rate c (some (suc n)) places nil =
    let charged = (do
      quantity ← quantity_of service.unit (suc n)
      billed_amount service rate quantity places) in
    if is_some c.agreement_id && is_no_charge c.overage then ok (some nil) else charged

-- One person's part of the period's charge, for these covered seconds of all the period's.
unfoldable pub share_each : Option ℕ → Option Decimal → ℕ → Result (Option Ratio)
share_each none charge all = ok none
share_each (some zero) charge all = ok none
share_each (some (suc n)) none all = ok none
share_each (some (suc n)) (some charge) zero = ok none
share_each (some (suc n)) (some charge) (suc all) = do
  r ← ratio_div (ratio_mul (ratio charge) (ratio (of_nat (suc n)))) (ratio (of_nat (suc all)))
  ok (some r)

abbrev pub is_positive : Option ℕ → Bool
is_positive none = false
is_positive (some n) = ltb 0 n

abbrev pub add_known : Option Decimal → Option Decimal → Option Decimal
add_known none b = none
add_known (some a) none = none
add_known (some a) (some b) = some (add a b)

abbrev pub period_total : Option Text → List (Text × ℕ) → ℕ
period_total none m = 0
period_total (some period) m = or_zero_seconds (get period m)

unfoldable pub person_pay :
    Context → Entry → Coverage → Option Decimal → Option Ratio → Decimal → Person → Result PersonPay
unfolding rule_on time_pay covered_pay
person_pay ctx e c billed share nil p = do
  let seconds = uncovered e c.covered_seconds
  let time_rule =
      if is_positive seconds
      then rule_on ctx.rules e.service_id p.payee e.entity_id PaysFor.time e.worked_on
      else none
  let covered_rule =
      if is_positive c.covered_seconds
      then rule_on ctx.rules e.service_id p.payee e.entity_id PaysFor.covered_time e.worked_on
      else none
  time_paid ←
      if is_positive seconds
      then time_pay time_rule (or_zero_seconds seconds) billed ctx.places
      else ok (some nil)
  covered_paid ←
      if is_positive c.covered_seconds
      then covered_pay covered_rule share ctx.places
      else ok (some nil)
  ok (record {
    user_id = p.payee.id;
    covered_seconds = c.covered_seconds;
    time_paid = time_paid;
    covered_paid = covered_paid;
    paid = add_known time_paid covered_paid;
    time_rule = time_rule;
    covered_rule = covered_rule;
  })

unfoldable pub people_pay :
    Context
    → Entry
    → Coverage
    → Option Decimal
    → Option Ratio
    → Decimal
    → List Person
    → Result (List PersonPay)
unfolding person_pay
people_pay ctx e c billed share nil [] = ok []
people_pay ctx e c billed share nil (p ∷ ps) = do
  pay ← person_pay ctx e c billed share nil p
  rest ← people_pay ctx e c billed share nil ps
  ok (pay ∷ rest)

-- The pay that is known, added to `total`; none where nobody's is.
unfoldable pub add_paid : Decimal → List (Option Decimal) → Decimal
add_paid total [] = total
add_paid total (none ∷ ps) = add_paid total ps
add_paid total (some d ∷ ps) = add_paid (add total d) ps

abbrev pub known_paid : Decimal → List (Option Decimal) → Option Decimal
known_paid nil ps = if length (filter is_some ps) == 0 then none else some (add_paid nil ps)

unfoldable pub share_total : Option Ratio → ℕ → ℕ → Result (Option Decimal)
share_total none heads places = ok none
share_total (some share) heads places = do
  d ← ratio_round (ratio_mul share (ratio (of_nat heads))) places half_up
  ok (some d)

-- Billed, and the covered share where any of it was covered.
unfoldable pub earned_of :
    Option Decimal → Option ℕ → Option Ratio → ℕ → ℕ → Result (Option Decimal)
earned_of none covered share heads places = ok none
earned_of (some billed) covered share heads places =
    if not (is_positive covered) then ok (some billed) else earned_share billed share heads places
  where
    earned_share : Decimal → Option Ratio → ℕ → ℕ → Result (Option Decimal)
    earned_share billed none heads places = ok none
    earned_share billed (some share) heads places = do
      d ←
          ratio_round (ratio_add (ratio_mul share (ratio (of_nat heads))) (ratio billed)) places
            half_up
      ok (some d)

unfoldable pub entry_worth : Context → List (Text × ℕ) → Decimal → Entry → Coverage → Result Worth
unfolding heads_on payees_on billed_of share_each people_pay share_total earned_of price_on job_rate
entry_worth ctx periods nil e c = do
  let heads = heads_of ctx e
  rate ← job_rate (price_on ctx.prices e.service_id e.entity_id e.worked_on) heads
  let seconds = uncovered e c.covered_seconds
  billed ← billed_of (ctx.services e.service_id) rate c seconds ctx.places nil
  share ← share_each c.covered_seconds c.period_charge (period_total c.period_id periods)
  people ← people_pay ctx e c billed share nil (payees_on ctx e e.crew)
  covered_share ← share_total share heads ctx.places
  earned ← earned_of billed c.covered_seconds share heads ctx.places
  ok (record {
    entry_id = e.id;
    heads = heads;
    rate = rate;
    covered_seconds = c.covered_seconds;
    billed_seconds = seconds;
    billed = billed;
    covered_share = covered_share;
    earned = earned;
    paid = known_paid nil (map (λ p. p.paid) people);
    people = people;
    coverage = c;
  })

unfoldable pub worth_of :
    Context
    → List (Text × Coverage)
    → List (Text × ℕ)
    → Decimal
    → List Entry
    → List (Text × Worth)
    → Result (List (Text × Worth))
unfolding entry_worth put get
worth_of ctx covered periods nil [] out = ok out
worth_of ctx covered periods nil (e ∷ es) out = do
  c ← coverage_for (get e.id covered)
  w ← entry_worth ctx periods nil e c
  worth_of ctx covered periods nil es (put e.id w out)

unfoldable pub worth : (Text → Text → Order) → List Entry → Context → Result (List (Text × Worth))
unfolding coverage person_seconds worth_of
worth locale_compare entries ctx = do
  covered ← coverage locale_compare entries ctx.agreements
  periods ← person_seconds ctx covered entries []
  nil ← round zero_decimal ctx.places half_up
  worth_of ctx covered periods nil entries []
