-- ===== src/TaxRounding.antt =====
-- lib/tax-rounding.ts and lib/draft-totals.ts: the tax on an invoice's lines, rounded by line or by
-- rate, and what a draft comes to.
pub mod Totals
pub mod Answers
pub mod Examples
use reckon.Common.{
  ℕ, Bool, true, false, not, if◌then◌else◌, Option, none, some, List, [], ◌∷◌, map, filter, any,
  Text, text_eq, Result, ok, ◌>>=◌,
}
use reckon.Decimal.{
  Decimal, Ratio, Rounding, half_up, of_nat, zero_decimal, add, round, ratio, ratio_mul, ratio_div,
  ratio_add, ratio_round,
}
use reckon.Decimal.Numeric.{from, to_text, to_fixed, sum, Summand, numeric}

pub data Scope : Type 0 where
  by_invoice by_line : Scope

pub record TaxRounding : Type 0 where
  pub scope : Scope
  pub method : Rounding

-- A line's rate, and its exact tax.
pub record RatedTax : Type 0 where
  pub rate : Text
  pub tax : Ratio

-- The fractions in turn, each rounded.
unfoldable pub round_all : List Ratio → ℕ → Rounding → Result (List Decimal)
round_all [] places method = ok []
round_all (t ∷ ts) places method = do
  d ← ratio_round t places method
  ds ← round_all ts places method
  ok (d ∷ ds)

-- .reduce((a, b) => a.add(b).round(places)) from `a` on
unfoldable pub add_rounded : Decimal → List Decimal → ℕ → Result Decimal
add_rounded a [] places = ok a
add_rounded a (b ∷ bs) places = do next ← round (add a b) places half_up; add_rounded next bs places

-- The figures added up; none of them is nothing.
unfoldable pub reduce : List Decimal → ℕ → Result (Option Decimal)
unfolding add_rounded
reduce [] places = ok none
reduce (d ∷ ds) places = do total ← add_rounded d ds places; ok (some total)

-- The map from a rate to the tax at it, in the order the rates are first met.
abbrev pub ByRate : Type 0
ByRate = List (Text × Ratio)

-- byRate.set(rate, had ? had.add(tax) : tax)
unfoldable pub add_at : Text → Ratio → ByRate → ByRate
unfolding text_eq
add_at rate tax [] = (rate, tax) ∷ []
add_at rate tax ((r, had) ∷ rest) =
    let further = add_at rate tax rest in
    if text_eq r rate then (r, ratio_add had tax) ∷ rest else (r, had) ∷ further

-- The rate as the column holds it.
unfoldable pub rate_key : Text → Result Text
rate_key rate = do d ← from rate; r ← round d 4 half_up; ok (to_text r)

unfoldable pub by_rate : ByRate → List RatedTax → Result ByRate
unfolding add_at rate_key
by_rate rates [] = ok rates
by_rate rates (l ∷ ls) = do key ← rate_key l.rate; by_rate (add_at key l.tax rates) ls

unfoldable pub round_scoped : Scope → Rounding → List RatedTax → ℕ → Result (Option Decimal)
unfolding round_all reduce by_rate
round_scoped by_line method lines places = do
  taxes ← round_all (map (λ l. l.tax) lines) places method
  reduce taxes places
round_scoped by_invoice method lines places = do
  rates ← by_rate [] lines
  taxes ← round_all (map (λ p. p.1) rates) places method
  reduce taxes places

unfoldable pub round_tax : List RatedTax → TaxRounding → ℕ → Result (Option Decimal)
unfolding round_scoped
round_tax [] rounding places = ok none
round_tax (l ∷ ls) rounding places = round_scoped rounding.scope rounding.method (l ∷ ls) places

pub record Totalled : Type 0 where
  pub kind : Text
  pub amount : Text
  pub taxable : Bool
  pub rate : Text

pub record DraftTotals : Type 0 where
  pub untaxed : Text
  pub tax : Text
  pub due : Text
  pub untaxed_kinds : List Text
  pub taxed_kinds : List Text

-- [...new Set(kinds)], after the kinds `seen`.
unfoldable pub distinct : List Text → List Text → List Text
unfolding text_eq
distinct seen [] = []
distinct seen (k ∷ ks) =
    let met = distinct seen ks in
    let fresh = distinct (k ∷ seen) ks in if any (λ s. text_eq s k) seen then met else k ∷ fresh

-- A line's tax, exactly: its amount by its rate over a hundred.
unfoldable pub rated : List Totalled → Result (List RatedTax)
rated [] = ok []
rated (l ∷ ls) = do
  amount ← from l.amount
  rate ← from l.rate
  tax ← ratio_div (ratio_mul (ratio amount) (ratio rate)) (ratio (of_nat 100))
  rest ← rated ls
  ok (record { rate = l.rate; tax = tax } ∷ rest)

abbrev pub or_nothing : Option Decimal → Decimal
or_nothing none = zero_decimal
or_nothing (some d) = d

abbrev pub amounts : List Totalled → List Summand
amounts ls = map (λ l. numeric l.amount) ls

abbrev pub kinds : List Totalled → List Text
kinds ls = map (λ l. l.kind) ls

unfoldable pub draft_totals : List Totalled → TaxRounding → ℕ → Result DraftTotals
unfolding rated round_tax distinct sum
draft_totals lines rounding places = do
  untaxed ← sum (amounts (filter (λ l. not l.taxable) lines))
  measure ← sum (amounts (filter (λ l. l.taxable) lines))
  taxes ← rated (filter (λ l. l.taxable) lines)
  tax ← round_tax taxes rounding places
  untaxed_text ← to_fixed untaxed places half_up
  tax_text ← to_fixed (or_nothing tax) places half_up
  due ← to_fixed (add (add untaxed measure) (or_nothing tax)) places half_up
  ok (record {
    untaxed = untaxed_text;
    tax = tax_text;
    due = due;
    untaxed_kinds = distinct [] (kinds (filter (λ l. not l.taxable) lines));
    taxed_kinds = distinct [] (kinds (filter (λ l. l.taxable) lines));
  })
