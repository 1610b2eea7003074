-- ===== src/Tax.antt =====
-- lib/server/valuation/tax.ts: the tax that each invoice collects, split between the state and the
-- districts by what CDTFA answered about each line's site. A moment is epoch ms, a day its text.
pub mod Checks
pub mod InForce
pub mod Parts
pub mod Said
pub mod Answered
pub mod Grouped
pub mod Invoices
pub mod Splits
pub mod Examples
use reckon.Common.{
  ℕ, Bool, true, false, not, ◌&&◌, if◌then◌else◌, ltb, Option, none, some, List, [], ◌∷◌, ◌++◌, map,
  filter, find, reverse, length, is_some, Text, text_lt, Result, ok, ◌>>=◌,
}
use reckon.Common.Maps.{Map, get, put}
use reckon.Common.Sorting.{sort_by}
use reckon.Decimal.{
  Decimal, Ratio, half_up, of_nat, zero_decimal, gt, round, ratio, ratio_mul, ratio_div, ratio_add,
  ratio_round,
}
use reckon.Decimal.Numeric.{from, sum, figure}
use reckon.TaxRounding.{TaxRounding, RatedTax, round_tax}

pub record TaxLine : Type 0 where
  pub invoice_id : Text
  pub amount : Text
  pub taxable : Bool
  pub tax_rate_pct : Text
  pub site_id : Option Text

-- One answer about a site, and the day it was asked.
pub record TaxCheck : Type 0 where
  pub site_id : Text
  pub checked_on : Text
  pub checked_at : ℕ
  pub rate_pct : Option Text
  pub state_pct : Option Text
  pub district_pct : Option Text
  pub jurisdiction : Option Text

pub record InvoiceTax : Type 0 where
  pub invoice_id : Text
  pub jurisdiction : Option Text
  pub measure : Decimal
  pub tax : Decimal
  pub state_tax : Option Decimal
  pub district_tax : Option Decimal
  pub estimated_lines : ℕ
  pub lines_without_a_split : ℕ

pub record Part : Type 0 where
  pub amount : Decimal
  pub rate : Text
  pub tax : Ratio
  pub state : Option Ratio
  pub district : Option Ratio
  pub estimated : Bool
  pub unsplit : Bool
  pub jurisdiction : Option Text

abbrev pub or_none {ℓ} : {A : Type ℓ} → Option (List A) → List A
or_none none = []
or_none (some xs) = xs

-- `[...(map.get(k) ?? []), x]`, kept at `k`.
unfoldable pub add_to : {A : Type 0} → Text → A → Map (List A) → Map (List A)
unfolding get put
add_to k x m = put k (or_none (get k m) ++ x ∷ []) m

-- The checks that have a rate, by their sites.
unfoldable pub by_site : Map (List TaxCheck) → List TaxCheck → Map (List TaxCheck)
unfolding add_to
by_site sites [] = sites
by_site sites (c ∷ cs) = by_site (if is_some c.rate_pct then add_to c.site_id c sites else sites) cs

unfoldable pub asked_before : TaxCheck → TaxCheck → Bool
asked_before a b = ltb a.checked_at b.checked_at

unfoldable pub sort_each : Map (List TaxCheck) → Map (List TaxCheck)
unfolding asked_before sort_by
sort_each [] = []
sort_each ((k, cs) ∷ m) = (k, sort_by asked_before cs) ∷ sort_each m

-- (l.siteId && bySite.get(l.siteId)) || []
unfoldable pub site_checks : Option Text → Map (List TaxCheck) → List TaxCheck
unfolding get
site_checks none sites = []
site_checks (some []) sites = []
site_checks (some (c ∷ cs)) sites = or_none (get (c ∷ cs) sites)

-- issuedOn.get(invoiceId) ?? today
unfoldable pub as_of : Text → Map (Option Text) → Text → Text
unfolding get
as_of invoice_id issued_on today = day (get invoice_id issued_on)
  where
    day : Option (Option Text) → Text
    day none = today
    day (some none) = today
    day (some (some on)) = on

unfoldable pub asked_by : Text → TaxCheck → Bool
unfolding text_lt
asked_by on c = not (text_lt on c.checked_on)

-- The newest check on or before the day.
unfoldable pub in_force : Text → List TaxCheck → Option TaxCheck
unfolding asked_by
in_force on checks = find (asked_by on) (reverse checks)

unfoldable pub earliest : List TaxCheck → Option TaxCheck
earliest [] = none
earliest (c ∷ cs) = some c

unfoldable pub field : (TaxCheck → Option Text) → Option TaxCheck → Option Text
field of none = none
field of (some c) = of c

-- left ?? right
unfoldable pub or_else : Option Text → Option Text → Option Text
or_else none right = right
or_else (some t) right = some t

-- Field by field, the answer in force and failing it the earliest.
unfoldable pub pick_field :
    (TaxCheck → Option Text) → Option TaxCheck → Option TaxCheck → Option Text
unfolding field or_else
pick_field of inforce first = or_else (field of inforce) (field of first)

unfoldable pub parse_rate : Option Text → Result (Option Decimal)
parse_rate none = ok none
parse_rate (some rate) = do d ← from rate; ok (some d)

-- `can && pct !== null ? tax.mul(pct).div(splitOf) : null`
unfoldable pub share_of : Ratio → Option Decimal → Option Text → Result (Option Ratio)
share_of tax none pct = ok none
share_of tax (some rate) none = ok none
share_of tax (some rate) (some pct) = if gt rate zero_decimal then share else ok none
  where
    share : Result (Option Ratio)
    share = do d ← from pct; r ← ratio_div (ratio_mul tax (ratio d)) (ratio rate); ok (some r)

-- A line's tax, and its split by the answer in force and the earliest there is.
unfoldable pub split_part : TaxLine → Option TaxCheck → Option TaxCheck → Result Part
unfolding pick_field parse_rate share_of
split_part l inforce first = do
  line_amount ← from l.amount
  line_rate ← from l.tax_rate_pct
  tax ← ratio_div (ratio_mul (ratio line_amount) (ratio line_rate)) (ratio (of_nat 100))
  split ← parse_rate (pick_field (λ c. c.rate_pct) inforce first)
  state ← share_of tax split (pick_field (λ c. c.state_pct) inforce first)
  district ← share_of tax split (pick_field (λ c. c.district_pct) inforce first)
  ok (record {
    amount = line_amount;
    rate = l.tax_rate_pct;
    tax = tax;
    state = state;
    district = district;
    estimated = not (is_some inforce) && is_some first;
    unsplit = not (is_some split);
    jurisdiction = pick_field (λ c. c.jurisdiction) inforce first;
  })

-- One taxable line's part, by what is known of its site on the invoice's day.
unfoldable pub part_of : TaxLine → Map (List TaxCheck) → Map (Option Text) → Text → Result Part
unfolding site_checks as_of in_force earliest split_part
part_of l sites issued_on today =
    let list = site_checks l.site_id sites in
    split_part l (in_force (as_of l.invoice_id issued_on today) list) (earliest list)

-- The parts of each invoice, in the order of its lines.
unfoldable pub collect :
    Map (List Part)
    → List TaxLine
    → Map (List TaxCheck)
    → Map (Option Text)
    → Text
    → Result (Map (List Part))
unfolding add_to part_of
collect parts [] sites issued_on today = ok parts
collect parts (l ∷ ls) sites issued_on today =
    let rest = collect parts ls sites issued_on today in
    if l.taxable
    then (do
      p ← part_of l sites issued_on today
      collect (add_to l.invoice_id p parts) ls sites issued_on today)
    else rest

-- The values that are known.
unfoldable pub known {ℓ} : {A : Type ℓ} → List (Option A) → List A
known [] = []
known (none ∷ xs) = known xs
known (some x ∷ xs) = x ∷ known xs

-- .reduce((a, b) => a.add(b)) from `a` on
unfoldable pub add_all : Ratio → List Ratio → Ratio
add_all a [] = a
add_all a (b ∷ bs) = add_all (ratio_add a b) bs

unfoldable pub add_shares : List Ratio → ℕ → Result (Option Decimal)
unfolding add_all
add_shares [] places = ok none
add_shares (a ∷ bs) places = do d ← ratio_round (add_all a bs) places half_up; ok (some d)

-- names.sort().at(-1) ?? null
unfoldable pub last_name : List Text → Option Text
unfolding sort_by text_lt
last_name names = at_end (reverse (sort_by text_lt names))
  where
    at_end : List Text → Option Text
    at_end [] = none
    at_end (n ∷ ns) = some n

abbrev pub rated_part : Part → RatedTax
rated_part p = record { rate = p.rate; tax = p.tax }

-- taxed ?? Decimal.ZERO.round(places)
unfoldable pub or_zero : Option Decimal → ℕ → Result Decimal
or_zero none places = round zero_decimal places half_up
or_zero (some d) places = ok d

unfoldable pub tax_of_invoice : Text → List Part → TaxRounding → ℕ → Result InvoiceTax
unfolding known add_shares last_name or_zero round_tax sum
tax_of_invoice invoice_id ps rounding places = do
  total ← sum (map (λ p. figure p.amount) ps)
  measured ← round total places half_up
  taxed ← round_tax (map rated_part ps) rounding places
  collected ← or_zero taxed places
  of_state ← add_shares (known (map (λ p. p.state) ps)) places
  of_district ← add_shares (known (map (λ p. p.district) ps)) places
  ok (record {
    invoice_id = invoice_id;
    jurisdiction = last_name (known (map (λ p. p.jurisdiction) ps));
    measure = measured;
    tax = collected;
    state_tax = of_state;
    district_tax = of_district;
    estimated_lines = length (filter (λ p. p.estimated) ps);
    lines_without_a_split = length (filter (λ p. p.unsplit) ps);
  })

unfoldable pub each_invoice :
    Map InvoiceTax → Map (List Part) → TaxRounding → ℕ → Result (Map InvoiceTax)
unfolding tax_of_invoice put
each_invoice out [] rounding places = ok out
each_invoice out ((k, ps) ∷ parts) rounding places = do
  t ← tax_of_invoice k ps rounding places
  each_invoice (put k t out) parts rounding places

unfoldable pub invoice_tax :
    List TaxLine
    → List TaxCheck
    → Map (Option Text)
    → Text
    → TaxRounding
    → ℕ
    → Result (Map InvoiceTax)
unfolding by_site sort_each collect each_invoice
invoice_tax lines checks issued_on today rounding places = do
  parts ← collect [] lines (sort_each (by_site [] checks)) issued_on today
  each_invoice [] parts rounding places
