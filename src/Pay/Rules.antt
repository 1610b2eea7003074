-- ===== src/Pay/Rules.antt =====
-- lib/server/valuation/pay.ts: which rule pays, and that a rule that reaches someone pays a figure.
use reckon.Common.{
  ℕ, ◌≡◌, refl, ◌⊎◌, false, Option, none, some, List, Text, text_lt, text_lt_asymm, text_lt_cotrans,
  text_eq_iff, is_some, true, ok,
}
use reckon.Common.Best.{IsRank, by_key-IsRank, pick-Picks}
use reckon.Common.Says.{
  Says, Says-and, Says-or, Says-not, Says-itself, OwnFirst, AlikeOwned, Foremost, Foremost-Picks,
}
use reckon.Decimal.{Decimal, Ratio, half_up, of_nat, mul, is_zero, zero_decimal}
use reckon.Decimal.Fractions.{IsSound, div-round}
use reckon.Decimal.Rules.{round-ok}
use reckon.Decimal.Numeric.{from}
use reckon.Pricing.{or_zero}
use reckon.Pricing.Prices.{id_eq-Says, reaches_client-Says, by_owner-Says}
use reckon.Pay.{
  PayRule, Payee, PaysFor, same_pays_for, is_mine, Method, per_hour, percent, fixed, nothing,
  fits_rule, beats_rule, newer_rule, rule_on, or_nothing, method_pay, time_pay, is_nothing,
  covered_pay,
}

newer_rule-IsRank : IsRank newer_rule
newer_rule-IsRank = record {
  asymm = λ a b h. text_lt_asymm b.effective_from a.effective_from h;
  trans = λ a b c h k. text_lt_cotrans c.effective_from b.effective_from a.effective_from k h;
}

beats_rule-IsRank : IsRank beats_rule
unfolding beats_rule
beats_rule-IsRank = by_key-IsRank _ _ (by_key-IsRank _ newer_rule newer_rule-IsRank)

-- The person's own rule, or that of the role they hold.
abbrev pub ReachesPerson : Payee → PayRule → Type 0
ReachesPerson payee r =
    (r.user_id ≡ some payee.id) ⊎ ((is_some r.role_id ≡ true) × (r.role_id ≡ payee.role_id))

-- A rule for the service and the kind of pay, started by the day, every client's or this client's, that
-- reaches the person.
abbrev pub Applies : Text → Payee → Option Text → PaysFor → Text → PayRule → Type 0
Applies service_id payee client pays_for day r =
    (r.service_id ≡ service_id)
    × ((r.pays_for ≡ pays_for)
        × ((text_lt day r.effective_from ≡ false)
            × (((r.entity_id ≡ none) ⊎ (r.entity_id ≡ client)) × ReachesPerson payee r)))

-- A client's own before every client's, then a person's own before a role's, then the later to start.
abbrev pub Overrides : PayRule → PayRule → Type 0
Overrides a b =
    OwnFirst a.entity_id b.entity_id
    ⊎ AlikeOwned a.entity_id b.entity_id
      × (OwnFirst a.user_id b.user_id
          ⊎ AlikeOwned a.user_id b.user_id × (text_lt b.effective_from a.effective_from ≡ true))

same_pays_for-Says : (a b : PaysFor) → Says (same_pays_for a b) (a ≡ b)
unfolding same_pays_for
same_pays_for-Says PaysFor.time PaysFor.time = (λ e. refl, λ e. refl)
same_pays_for-Says PaysFor.time PaysFor.covered_time = (λ e. absurd cc, λ e. absurd cc)
same_pays_for-Says PaysFor.time PaysFor.vehicle = (λ e. absurd cc, λ e. absurd cc)
same_pays_for-Says PaysFor.covered_time PaysFor.time = (λ e. absurd cc, λ e. absurd cc)
same_pays_for-Says PaysFor.covered_time PaysFor.covered_time = (λ e. refl, λ e. refl)
same_pays_for-Says PaysFor.covered_time PaysFor.vehicle = (λ e. absurd cc, λ e. absurd cc)
same_pays_for-Says PaysFor.vehicle PaysFor.time = (λ e. absurd cc, λ e. absurd cc)
same_pays_for-Says PaysFor.vehicle PaysFor.covered_time = (λ e. absurd cc, λ e. absurd cc)
same_pays_for-Says PaysFor.vehicle PaysFor.vehicle = (λ e. refl, λ e. refl)

is_mine-Says : (payee : Payee) (r : PayRule) → Says (is_mine payee r) (ReachesPerson payee r)
unfolding is_mine
is_mine-Says payee r =
    Says-or _ _ (id_eq-Says r.user_id (some payee.id))
      (Says-and _ _ (Says-itself (is_some r.role_id)) (id_eq-Says r.role_id payee.role_id))

fits_rule-Says :
    (service_id : Text) (payee : Payee) (client : Option Text) (pays_for : PaysFor) (day : Text)
    (r : PayRule)
    → Says
        (fits_rule service_id payee client pays_for day r)
        (Applies service_id payee client pays_for day r)
unfolding fits_rule
fits_rule-Says service_id payee client pays_for day r =
    Says-and _ _ (text_eq_iff r.service_id service_id) (
      Says-and _ _ (same_pays_for-Says r.pays_for pays_for) (
        Says-and _ _ (Says-not _)
          (Says-and _ _ (reaches_client-Says r.entity_id client) (is_mine-Says payee r))))

beats_rule-Says : (a b : PayRule) → Says (beats_rule a b) (Overrides a b)
unfolding beats_rule
beats_rule-Says a b =
    by_owner-Says (λ r. r.entity_id)
      (by_owner-Says (λ r. r.user_id) (λ a b. Says-itself (newer_rule a b))) a b

-- The rule that pays is one for the service and the kind of pay, started by the day, every client's or
-- this client's, and the person's own or their role's, and no other such rule overrides it: a client's
-- own overrides every client's, then a person's own a role's, then the later to start; of equals it is
-- the first in the list. There is none exactly where no rule is such.
pub rule_on-Foremost :
    (rules : List PayRule) (service_id : Text) (payee : Payee) (client : Option Text)
    (pays_for : PaysFor) (day : Text)
    → Foremost
        (Applies service_id payee client pays_for day)
        Overrides
        rules
        (rule_on rules service_id payee client pays_for day)
unfolding rule_on
rule_on-Foremost rules service_id payee client pays_for day =
    Foremost-Picks (fits_rule-Says service_id payee client pays_for day) beats_rule-Says rules _
      (pick-Picks (fits_rule service_id payee client pays_for day) beats_rule-IsRank rules)

method_pay-ok :
    (m : Method) (amount : Decimal) (seconds : ℕ) (line : Option Decimal) (places : ℕ)
    → (d : Decimal) × (method_pay m amount seconds line places ≡ ok d) × (d.scale ≡ places)
unfolding method_pay
method_pay-ok per_hour amount seconds line places =
    let (r, d, e, e', s) =
      div-round (mul amount (of_nat seconds)) (of_nat 3600) places half_up (λ h. cc) in
    (d, rw e e', s)
method_pay-ok percent amount seconds line places =
    let (r, d, e, e', s) =
      div-round (mul amount (or_nothing line)) (of_nat 100) places half_up (λ h. cc) in
    (d, rw e e', s)
method_pay-ok fixed amount seconds line places = round-ok amount places half_up
method_pay-ok nothing amount seconds line places = round-ok zero_decimal places half_up

-- A rule whose amount reads as a figure pays one, to the currency's places, by every method.
pub time_pay-ok :
    (rule : PayRule) (amount : Decimal) (seconds : ℕ) (line : Option Decimal) (places : ℕ)
    → from (or_zero rule.amount) ≡ ok amount
    → (d : Decimal) × (time_pay (some rule) seconds line places ≡ ok (some d)) × (d.scale ≡ places)
unfolding time_pay
time_pay-ok rule amount seconds line places e =
    let (d, e', s) = method_pay-ok rule.method amount seconds line places in (d, rw e (rw e'), s)

-- What covered time pays: a figure unless the rule is a percentage of a charge not known yet.
abbrev pub PaysCovered : PayRule → Decimal → Option Ratio → ℕ → Type 0
PaysCovered rule amount share places =
    ((share ≡ none)
      × (is_zero amount ≡ false)
      × (is_nothing rule.method ≡ false)
      × (covered_pay (some rule) share places ≡ ok none))
    ⊎ ((d : Decimal) × (covered_pay (some rule) share places ≡ ok (some d)) × (d.scale ≡ places))

-- The share of a charge, where it is known, is a sound fraction.
abbrev SoundShare : Option Ratio → Type 0
SoundShare none = Unit
SoundShare (some share) = IsSound share
