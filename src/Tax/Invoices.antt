-- ===== src/Tax/Invoices.antt =====
-- lib/server/valuation/tax.ts, taxOfInvoice: the split of an invoice's parts.
use reckon.Common.{
  ℕ, ◌+◌, ◌≤◌, ◌≡◌, refl, false, Option, none, some, List, [], ◌∷◌, map, filter, length, ◌&&◌, All,
  Text, ok, arith,
}
use reckon.Decimal.{Decimal, Ratio, half_up, add, zero_decimal, ratio_add}
use reckon.Decimal.Numeric.{figure, sum, sum_from, add_summand}
use reckon.Decimal.Rules.{round-ok}
use reckon.Decimal.Fractions.{IsSound, ratio_add-IsSound, ratio_round-ok}
use reckon.TaxRounding.{TaxRounding}
use reckon.TaxRounding.Answers.{IsRated, round_tax-ok}
use reckon.Tax.{
  Part, InvoiceTax, known, add_all, add_shares, or_zero, rated_part, tax_of_invoice, last_name,
}
use reckon.Tax.Answered.{AddUpTo, add_shares-AddUpTo}
use reckon.Tax.Parts.{Given, IsFair}

sum_from-figures :
    (ps : List Part) (d : Decimal)
    → (total : Decimal) × (sum_from d (map (λ (p : Part). figure p.amount) ps) ≡ ok total)
unfolding sum_from add_summand
sum_from-figures [] d = (d, refl)
sum_from-figures (p ∷ ps) d = sum_from-figures ps (add d p.amount)

known-All :
    {A : Type 0} (P : A → Type 0) (xs : List (Option A)) → All (Given P) xs → All P (known xs)
unfolding known
known-All P [] h = tt
known-All P (none ∷ xs) (h, hs) = known-All P xs hs
known-All P (some x ∷ xs) (h, hs) = (h, known-All P xs hs)

add_all-IsSound :
    (a : Ratio) (bs : List Ratio) → IsSound a → All IsSound bs → IsSound (add_all a bs)
unfolding add_all
add_all-IsSound a [] h k = h
add_all-IsSound a (b ∷ bs) h (k, ks) =
    add_all-IsSound (ratio_add a b) bs (ratio_add-IsSound a b h k) ks

add_shares-ok :
    (rs : List Ratio) (places : ℕ)
    → All IsSound rs
    → (o : Option Decimal) × (add_shares rs places ≡ ok o)
unfolding add_shares
add_shares-ok [] places h = (none, refl)
add_shares-ok (a ∷ bs) places (h, hs) =
    let (d, e, s) = ratio_round-ok (add_all a bs) places half_up (add_all-IsSound a bs h hs) in
    (some d, rw e refl)

or_zero-ok : (o : Option Decimal) (places : ℕ) → (d : Decimal) × (or_zero o places ≡ ok d)
unfolding or_zero
or_zero-ok none places = let (d, e, s) = round-ok zero_decimal places half_up in (d, e)
or_zero-ok (some d) places = (d, refl)

fair_states :
    (ps : List Part) → All IsFair ps → All (Given IsSound) (map (λ (p : Part). p.state) ps)
fair_states [] h = tt
fair_states (p ∷ ps) (h, hs) = (h.1, fair_states ps hs)

fair_districts :
    (ps : List Part) → All IsFair ps → All (Given IsSound) (map (λ (p : Part). p.district) ps)
fair_districts [] h = tt
fair_districts (p ∷ ps) (h, hs) = (h.2, fair_districts ps hs)

fair_rates : (ps : List Part) → All IsFair ps → All IsRated (map rated_part ps)
fair_rates [] h = tt
fair_rates (p ∷ ps) (h, hs) = ((h.3, h.0), fair_rates ps hs)

-- Two tests that no element passes both are passed by no more than there are.
counts-le :
    (ps : List Part)
    → All IsFair ps
    → length (filter (λ p. p.estimated) ps) + length (filter (λ p. p.unsplit) ps) ≤ length ps
counts-le [] h = omega arith
counts-le (p ∷ ps) (h, hs) = ground (arith, h.4, counts-le ps hs)

-- What the split of some parts is: the state's tax the sum of their shares for the state, the
-- districts' of theirs, and a count of those that rest on an earliest answer alone and of those without
-- a split, no part being both.
abbrev pub IsSplitOf : List Part → ℕ → InvoiceTax → Type 0
IsSplitOf ps places t =
    AddUpTo places (map (λ (p : Part). p.state) ps) t.state_tax
    × AddUpTo places (map (λ (p : Part). p.district) ps) t.district_tax
    × (t.estimated_lines ≡ length (filter (λ p. p.estimated) ps))
    × (t.lines_without_a_split ≡ length (filter (λ p. p.unsplit) ps))
    × All (λ p. (p.estimated && p.unsplit) ≡ false) ps
    × (t.estimated_lines + t.lines_without_a_split ≤ length ps)

All-exclusive : (ps : List Part) → All IsFair ps → All (λ p. (p.estimated && p.unsplit) ≡ false) ps
All-exclusive [] h = tt
All-exclusive (p ∷ ps) (h, hs) = (h.4, All-exclusive ps hs)

-- The split of an invoice's parts, and how many of its lines it could not be sure of.
abbrev pub IsTaxed : Text → List Part → TaxRounding → ℕ → Option InvoiceTax → Type 0
IsTaxed id ps rounding places o =
    (t : InvoiceTax) × (tax_of_invoice id ps rounding places ≡ ok t)
    × (o ≡ some t)
    × IsSplitOf ps places t

pub tax_of_invoice-ok :
    (id : Text) (ps : List Part) (rounding : TaxRounding) (places : ℕ)
    → All IsFair ps
    → (t : InvoiceTax) × (tax_of_invoice id ps rounding places ≡ ok t) × IsSplitOf ps places t
unfolding tax_of_invoice sum
tax_of_invoice-ok id ps rounding places h =
    let (total, et) = sum_from-figures ps zero_decimal in
    let (measured, em, sm) = round-ok total places half_up in
    let (taxed, ex) = round_tax-ok (map rated_part ps) rounding places (fair_rates ps h) in
    let (collected, ec) = or_zero-ok taxed places in
    let (of_state, es) =
      add_shares-ok (known (map (λ p. p.state) ps)) places
        (known-All IsSound _ (fair_states ps h)) in
    let (of_district, ed) =
      add_shares-ok (known (map (λ p. p.district) ps)) places
        (known-All IsSound _ (fair_districts ps h)) in
    (
      record {
        invoice_id = id;
        jurisdiction = last_name (known (map (λ p. p.jurisdiction) ps));
        measure = measured;
        tax = collected;
        state_tax = of_state;
        district_tax = of_district;
        estimated_lines = length (filter (λ p. p.estimated) ps);
        lines_without_a_split = length (filter (λ p. p.unsplit) ps);
      },
      rw (et, em, ex, ec, es, ed) refl,
      (
        add_shares-AddUpTo places (map (λ p. p.state) ps) of_state es,
        add_shares-AddUpTo places (map (λ p. p.district) ps) of_district ed,
        refl,
        refl,
        All-exclusive ps h,
        counts-le ps h,
      ),
    )
