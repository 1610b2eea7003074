-- ===== src/TaxRounding/Answers.antt =====
-- lib/tax-rounding.ts: rounding answers whatever the rule, of lines whose rates are numbers.
use reckon.Common.{
  ℕ, ◌≡◌, refl, Bool-cases, inl, inr, none, some, List, [], ◌∷◌, map, All, Text, text_eq, Result,
  ok,
}
use reckon.Common.Int.{ℤ}
use reckon.Decimal.{Decimal, Ratio, Rounding, half_up}
use reckon.Decimal.Numeric.{from, to_text}
use reckon.Decimal.Rules.{round-ok}
use reckon.Decimal.Fractions.{IsSound, ratio_add-IsSound}
use reckon.TaxRounding.{
  Scope, by_line, by_invoice, TaxRounding, RatedTax, ByRate, add_at, rate_key, by_rate, reduce,
  round_scoped, round_tax,
}
use reckon.TaxRounding.Totals.{figures, figure_of, sum_ℤ, round_all-ok, reduce-sum, taxes-IsSound}

-- A line whose rate is a number and whose tax is a fraction over a positive whole.
abbrev pub IsRated : RatedTax → Type 0
IsRated l = ((d : Decimal) × (from l.rate ≡ ok d)) × IsSound l.tax

rate_key-ok :
    (rate : Text) → ((d : Decimal) × (from rate ≡ ok d)) → (key : Text) × (rate_key rate ≡ ok key)
unfolding rate_key
rate_key-ok rate (d, e) = let (r, er, s) = round-ok d 4 half_up in (to_text r, rw e (rw er refl))

abbrev Sound : ByRate → Type 0
Sound rates = All IsSound (map (λ p. p.1) rates)

add_at-Sound :
    (rate : Text) (tax : Ratio) (rates : ByRate)
    → IsSound tax
    → Sound rates
    → Sound (add_at rate tax rates)
unfolding add_at
add_at-Sound rate tax [] h k = (h, tt)
add_at-Sound rate tax ((r, had) ∷ rest) h (k, ks) = elim (Bool-cases (text_eq r rate)) [
  | inl e ↦ rw e (ratio_add-IsSound had tax k h, ks)
  | inr e ↦ rw e (k, add_at-Sound rate tax rest h ks)
]

by_rate-ok :
    (rates : ByRate) (ls : List RatedTax)
    → Sound rates
    → All IsRated ls
    → (out : ByRate) × (by_rate rates ls ≡ ok out) × Sound out
unfolding by_rate
by_rate-ok rates [] h k = (rates, refl, h)
by_rate-ok rates (l ∷ ls) h ((reads, sound), ks) =
    let (key, e) = rate_key-ok l.rate reads in
    let (out, run, hs) =
      by_rate-ok (add_at key l.tax rates) ls (add_at-Sound key l.tax rates sound h) ks in
    (out, rw e run, hs)

abbrev Answers : {A : Type 0} → Result A → Type 0
Answers {A} r = (a : A) × (r ≡ ok a)

reduce-ok : (us : List ℤ) (places : ℕ) → Answers (reduce (figures us places) places)
unfolding reduce
reduce-ok [] places = (none, refl)
reduce-ok (u ∷ us) places = (some (figure_of (sum_ℤ u us) places), reduce-sum u us places)

taxes : (ls : List RatedTax) → All IsRated ls → All (λ l. IsSound l.tax) ls
taxes [] h = tt
taxes (l ∷ ls) ((reads, sound), hs) = (sound, taxes ls hs)

round_scoped-ok :
    (scope : Scope) (method : Rounding) (ls : List RatedTax) (places : ℕ)
    → All IsRated ls
    → Answers (round_scoped scope method ls places)
unfolding round_scoped
round_scoped-ok by_line method ls places h =
    let (us, rounds, run) =
      round_all-ok (map (λ l. l.tax) ls) places method (taxes-IsSound ls (taxes ls h)) in
    let (o, e) = reduce-ok us places in (o, rw run e)
round_scoped-ok by_invoice method ls places h =
    let (rates, er, sound) = by_rate-ok [] ls tt h in
    let (us, rounds, run) = round_all-ok (map (λ p. p.1) rates) places method sound in
    let (o, e) = reduce-ok us places in (o, rw er (rw run e))

-- The tax on lines whose rates are numbers and whose taxes are fractions over a
-- positive whole is always answered, by either scope and any method.
pub round_tax-ok :
    (ls : List RatedTax) (rounding : TaxRounding) (places : ℕ)
    → All IsRated ls
    → Answers (round_tax ls rounding places)
unfolding round_tax
round_tax-ok [] rounding places h = (none, refl)
round_tax-ok (l ∷ ls) rounding places h =
    round_scoped-ok rounding.scope rounding.method (l ∷ ls) places h
