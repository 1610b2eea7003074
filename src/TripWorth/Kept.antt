-- ===== src/TripWorth/Kept.antt =====
-- lib/server/trip-worth.ts: what is kept of a trip is what it bills less what it pays.
use reckon.Common.{
  ℕ, ◌≤◌, ◌≡◌, refl, sym, ap, ◌∙◌, inl, inr, true, false, Bool-cases, if◌then◌else◌, Option, some,
  List, [], ◌∷◌, map, filter, any, is_some, Text, text_eq, text_eq_iff, ok, err, type_error,
  err-ne-ok, trim, trim_start, arith,
}
use reckon.Common.Int.{ℤ, pos, ◌+ℤ◌, ◌-ℤ◌}
use reckon.Decimal.{Decimal, half_up, zero_decimal, at, add, sub}
use reckon.Decimal.Numeric.{
  numeric, sum, sum_from, add_summand, from, to_text, to_fixed, read_whole, read_sign, span_digits,
}
use reckon.Decimal.RoundTrip.{from-to_text}
use reckon.Decimal.Rules.{round-exact}
use reckon.Decimal.Exact.{at-add, at-sub, at_self, at-zero, scale-add-le, scale-sub-le}
use reckon.TaxRounding.Totals.{figure_of, sum_ℤ}
use reckon.Trips.{Leg}
use reckon.TripWorth.{
  Catalogue, LegFigures, TripWorth, all_figures, trip_worth, one_rate, one_rule, summand,
  sum_if_all, paid_total, fixed, kept_of, totals,
}

from-empty : from [] ≡ err type_error
unfolding from trim trim_start read_sign span_digits read_whole
from-empty = refl

-- A figure printed is never empty.
to_text-ne : (d : Decimal) → text_eq (to_text d) [] ≡ false
to_text-ne d = elim (Bool-cases (text_eq (to_text d) [])) [
  | inr f ↦ f
  | inl t ↦ absurd (
      err-ne-ok
        (sym from-empty ∙ ap from (sym ((text_eq_iff (to_text d) []).0 t)) ∙ from-to_text d))
]

-- What adding up printed figures of so many units comes to.
sum_from-printed :
    (us : List ℤ) (places : ℕ) (d : Decimal)
    → d.scale ≤ places
    → (total : Decimal) × (sum_from d (map (λ u. numeric (to_text (figure_of u places))) us)
        ≡ ok total)
      × (total.scale ≤ places)
      × (at total places ≡ sum_ℤ (at d places) us)
unfolding sum_from add_summand
sum_from-printed [] places d h = (d, refl, h, refl)
sum_from-printed (u ∷ us) places d h =
    let f = figure_of u places in
    let (total, run, scale, sums) =
      sum_from-printed us places (add d f) (scale-add-le d f places h (omega arith)) in
    (
      total,
      rw (to_text-ne f) (rw (from-to_text f) run),
      scale,
      sums
          ∙ ap (λ a. sum_ℤ a us)
              (at-add d f places h (omega arith) ∙ ap (λ b. at d places +ℤ b) (at_self f)),
    )

-- Legs whose figures print so many units each.
abbrev pub BilledAs : List LegFigures → List ℤ → ℕ → Type 0
BilledAs figures us places =
    map (λ (f : LegFigures). f.billed) figures ≡ map (λ u. some (to_text (figure_of u places))) us

abbrev pub PaidAs : List LegFigures → List ℤ → ℕ → Type 0
PaidAs figures us places =
    map (λ (f : LegFigures). f.paid) figures ≡ map (λ u. some (to_text (figure_of u places))) us

abbrev printed_all : List ℤ → ℕ → List (Option Text)
printed_all us places = map (λ u. some (to_text (figure_of u places))) us

none_missing :
    (us : List ℤ) (places : ℕ)
    → any (λ t. if is_some t then false else true) (printed_all us places) ≡ false
none_missing [] places = refl
none_missing (u ∷ us) places = none_missing us places

summands :
    (us : List ℤ) (places : ℕ)
    → map summand (printed_all us places) ≡ map (λ u. numeric (to_text (figure_of u places))) us
summands [] places = refl
summands (u ∷ us) places =
    ap (λ xs. numeric (to_text (figure_of u places)) ∷ xs) (summands us places)

-- A total of printed figures, to their places.
abbrev Totals : List ℤ → ℕ → Decimal → Type 0
Totals us places d = (d.scale ≤ places) × (at d places ≡ sum_ℤ (pos 0) us)

sum_if_all-Totals :
    (us : List ℤ) (places : ℕ)
    → (d : Decimal) × (sum_if_all (printed_all us places) ≡ ok (some d)) × Totals us places d
unfolding sum_if_all sum
sum_if_all-Totals us places =
    let (d, run, scale, sums) = sum_from-printed us places zero_decimal (omega arith) in
    (
      d,
      rw (none_missing us places, summands us places, run) refl,
      (scale, sums ∙ ap (λ a. sum_ℤ a us) (at-zero places)),
    )

to_fixed-Totals :
    (d : Decimal) (u : ℤ) (places : ℕ)
    → d.scale ≤ places
    → at d places ≡ u
    → to_fixed d places half_up ≡ ok (to_text (figure_of u places))
unfolding to_fixed
to_fixed-Totals d u places h e =
    rw (round-exact d places half_up h) (ap (λ z. ok (to_text (figure_of z places))) e)

totals-kept :
    (places : ℕ) (owner : Option Text) (figures : List LegFigures) (bills pays : List ℤ)
    → BilledAs figures bills places
    → PaidAs figures pays places
    → totals places (some owner) figures
      ≡ ok (
        some (to_text (figure_of (sum_ℤ (pos 0) bills) places)),
        some (to_text (figure_of (sum_ℤ (pos 0) pays) places)),
        some (to_text (figure_of (sum_ℤ (pos 0) bills -ℤ sum_ℤ (pos 0) pays) places)),
      )
unfolding totals paid_total fixed kept_of
totals-kept places owner figures bills pays eb ep =
    let (b, run_b, (scale_b, sum_b)) = sum_if_all-Totals bills places in
    let (p, run_p, (scale_p, sum_p)) = sum_if_all-Totals pays places in
    let kept =
      to_fixed-Totals (sub b p) (sum_ℤ (pos 0) bills -ℤ sum_ℤ (pos 0) pays) places
        (scale-sub-le b p places scale_b scale_p)
        (at-sub b p places scale_b scale_p
          ∙ (ap (λ x. x -ℤ at p places) sum_b ∙ ap (λ y. sum_ℤ (pos 0) bills -ℤ y) sum_p)) in
    rw
      (
        eb,
        ep,
        run_b,
        run_p,
        to_fixed-Totals b _ places scale_b sum_b,
        to_fixed-Totals p _ places scale_p sum_p,
        kept,
      )
      refl

-- Where every leg's figures are worked out and printed to the currency's places
-- and the trip says its vehicle, the trip bills the sum of what its legs bill,
-- pays the sum of what they pay, and keeps the one less the other, each printed
-- to the currency's places.
pub trip_worth-kept :
    (c : Catalogue) (day : Text) (owner service_id : Option Text) (legs : List Leg)
    (figures : List LegFigures) (bills pays : List ℤ)
    → all_figures c day (some owner) service_id legs ≡ ok figures
    → BilledAs figures bills c.places
    → PaidAs figures pays c.places
    → (w : TripWorth) × (trip_worth c day (some owner) service_id legs ≡ ok w)
      × (w.billed ≡ some (to_text (figure_of (sum_ℤ (pos 0) bills) c.places)))
      × (w.paid ≡ some (to_text (figure_of (sum_ℤ (pos 0) pays) c.places)))
      × (w.kept ≡ some (to_text (figure_of (sum_ℤ (pos 0) bills -ℤ sum_ℤ (pos 0) pays) c.places)))
unfolding trip_worth
trip_worth-kept c day owner service_id legs figures bills pays e eb ep =
    let ours = filter (λ (f : LegFigures). f.to_client) figures in
    (
      record {
        legs = map (λ (f : LegFigures). (f.billed, f.paid)) figures;
        rate = one_rate (map (λ (f : LegFigures). f.rate) ours);
        rule = one_rule (map (λ (f : LegFigures). f.rule) ours);
        billed = some (to_text (figure_of (sum_ℤ (pos 0) bills) c.places));
        paid = some (to_text (figure_of (sum_ℤ (pos 0) pays) c.places));
        kept = some (to_text (figure_of (sum_ℤ (pos 0) bills -ℤ sum_ℤ (pos 0) pays) c.places));
      },
      rw (e, totals-kept c.places owner figures bills pays eb ep) refl,
      refl,
      refl,
      refl,
    )
