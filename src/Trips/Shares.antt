-- ===== src/Trips/Shares.antt =====
-- lib/trip-legs.ts, shares: the parts come to the whole.
use reckon.Common.{
  ℕ, zero, suc, ◌+◌, ◌-◌, ◌*◌, ◌≤◌, ◌<◌, ◌≡◌, refl, ◌∙◌, ap, ◌⊎◌, inl, inr, true, false, Bool-cases,
  List, [], ◌∷◌, length, All, arith, Text, ok,
}
use reckon.Common.Int.{pos, ◌≤ℤ◌, +ℤ_parts, -ℤ_parts, eq_of_parts, ltb_ℤ, eqb_ℤ}
use reckon.Common.IntLaws.{pos-*}
use reckon.Common.Sorting.{total}
use reckon.Decimal.{
  Decimal, half_up, down, at, add, sub, mul, gt, of_nat, round, div, ratio, ratio_div, ratio_round,
  pow10, is_negative,
}
use reckon.Decimal.Exact.{
  at-add, at-sub, at_self, lt_of_gt, le_of_not_gt, scale-add-le, scale-sub-le, at-zero,
}
use reckon.Decimal.Rules.{div_round-IsRounded, round-exact}
use reckon.Decimal.Numeric.{from, to_text, to_fixed}
use reckon.Decimal.RoundTrip.{from-to_text}
use reckon.Trips.{deal, hundredth, share_figures, print_all, shares}

-- A figure of so many hundredths.
abbrev pub hundredths : ℕ → Decimal
hundredths u = record { units = pos u; scale = 2 }

abbrev Counts : Decimal → ℕ → Type 0
Counts d u = (d.scale ≤ 2) × (at d 2 ≡ pos u)

-- Figures, and how many hundredths each is.
abbrev AllCount : List Decimal → List ℕ → Type 0
AllCount [] [] = Unit
AllCount [] (u ∷ us) = ⊥
AllCount (d ∷ ds) [] = ⊥
AllCount (d ∷ ds) (u ∷ us) = Counts d u × AllCount ds us

-- So many parts, each `each` or one hundredth more, that together are `ways` times `each` and `over`.
abbrev pub AreShares : ℕ → ℕ → ℕ → List ℕ → Type 0
AreShares ways each over us =
    (length us ≡ ways)
    × (total (λ u. u) us ≡ ways * each + over)
    × All (λ u. (u ≡ each) ⊎ (u ≡ each + 1)) us

Counts-next : (d : Decimal) (u : ℕ) → Counts d u → Counts (add d hundredth) (u + 1)
Counts-next d u (h, e) = (
  scale-add-le d hundredth 2 h (omega arith),
  at-add d hundredth 2 h (omega arith)
      ∙ eq_of_parts _ _ (rw (e, at_self hundredth) (omega (arith, +ℤ_parts (pos u) (pos 1)))),
)

Counts-last : (d : Decimal) (u : ℕ) → Counts d (suc u) → Counts (sub d hundredth) u
Counts-last d u (h, e) = (
  scale-sub-le d hundredth 2 h (omega arith),
  at-sub d hundredth 2 h (omega arith)
      ∙ eq_of_parts _ _ (rw (e, at_self hundredth) (omega (arith, -ℤ_parts (pos (suc u)) (pos 1)))),
)

gt-zero : (d : Decimal) (u : ℕ) → Counts d (suc u) → gt d (of_nat 0) ≡ true
gt-zero d u (h, e) = elim (Bool-cases (gt d (of_nat 0))) [
  | inl t ↦ t
  | inr f ↦
      let low : pos (suc u) ≤ℤ pos 0 =
        rw (e, at-zero 2) at (le_of_not_gt d (of_nat 0) 2 h (omega arith) f) in
      absurd (omega arith)
]

not_gt-zero : (d : Decimal) → Counts d 0 → gt d (of_nat 0) ≡ false
not_gt-zero d (h, e) = elim (Bool-cases (gt d (of_nat 0))) [
  | inr f ↦ f
  | inl t ↦
      let high = rw (e, at-zero 2) at (lt_of_gt d (of_nat 0) 2 h (omega arith) t) in
      absurd (omega arith)
]

deal-AreShares :
    (ways over each : ℕ) (e left : Decimal)
    → Counts e each
    → Counts left over
    → over ≤ ways
    → (us : List ℕ) × AllCount (deal ways e left) us × AreShares ways each over us
unfolding deal
deal-AreShares zero over each e left ce cl h = ([], tt, (refl, omega arith, tt))
deal-AreShares (suc ways) zero each e left ce cl h =
    let (us, counts, shared) = deal-AreShares ways zero each e left ce cl (omega arith) in
    (
      each ∷ us,
      rw (not_gt-zero left cl) (ce, counts),
      (ap suc shared.0, omega (arith, shared.1), (inl refl, shared.2)),
    )
deal-AreShares (suc ways) (suc over) each e left ce cl h =
    let (us, counts, shared) =
      deal-AreShares ways over each e (sub left hundredth) ce (Counts-last left over cl)
        (omega arith) in
    (
      (each + 1) ∷ us,
      rw (gt-zero left over cl) (Counts-next e each ce, counts),
      (ap suc shared.0, omega (arith, shared.1), (inr refl, shared.2)),
    )

not_negative : (n : ℕ) → ltb_ℤ (pos n) (pos 0) ≡ false
not_negative n = ground arith

not_zero : (n : ℕ) → eqb_ℤ (pos (suc n)) (pos 0) ≡ false
not_zero n = ground arith

div_ways :
    (w n : ℕ)
    → div (hundredths w) (of_nat (suc n)) ≡ ok (record { num = pos w; den = pos (100 * suc n) })
unfolding div ratio ratio_div is_negative pow10
div_ways w n = rw (not_negative (suc n)) (
    rw (not_zero n) (
      rw (pos-* w 1, pos-* 100 (suc n))
        (rw (pos-* (w * 1) 1, pos-* (100 * suc n) 1) (ground arith))))

-- Each part before what is left over: the whole hundredths that go into `ways` parts.
each_share :
    (w n : ℕ)
    → (q : ℕ) × (ratio_round (record { num = pos w; den = pos (100 * suc n) }) 2 down
        ≡ ok (hundredths q))
      × (suc n * q ≤ w)
      × (w < suc n * q + suc n)
unfolding ratio_round pow10
each_share w n =
    let (q, rounded, run, _) = div_round-IsRounded down (w * 100) (100 * suc n) (omega arith) in
    (q, rw (pos-* w 100) (rw run), omega (arith, rounded.0), omega (arith, rounded.1))

Counts-left :
    (w n q : ℕ)
    → suc n * q ≤ w
    → Counts (sub (hundredths w) (mul (hundredths q) (of_nat (suc n)))) (w - suc n * q)
unfolding mul
Counts-left w n q h = (
  scale-sub-le (hundredths w) _ 2 (omega arith) (omega arith),
  at-sub (hundredths w) _ 2 (omega arith) (omega arith)
      ∙ eq_of_parts _ _ (
          rw (at_self (hundredths w), pos-* q (suc n), at_self (hundredths (q * suc n)))
            (omega (arith, -ℤ_parts (pos w) (pos (q * suc n))))),
)

share_figures-AreShares :
    (w n : ℕ)
    → (parts : List Decimal) × (us : List ℕ) × (q : ℕ) × (share_figures (hundredths w) (suc n)
        ≡ ok parts)
      × AllCount parts us
      × AreShares (suc n) q (w - suc n * q) us
      × (suc n * q ≤ w)
unfolding share_figures
share_figures-AreShares w n =
    let (q, run, low, high) = each_share w n in
    let (us, counts, shared) =
      deal-AreShares (suc n) (w - suc n * q) q (hundredths q) _
        (omega arith, at_self (hundredths q)) (Counts-left w n q low) (omega arith) in
    (_, us, q, rw (div_ways w n) (rw run), counts, shared, low)

-- Parts printed to the hundredth, and what they read back as.
abbrev pub Read : List Text → List ℕ → Type 0
Read [] [] = Unit
Read [] (u ∷ us) = ⊥
Read (t ∷ ts) [] = ⊥
Read (t ∷ ts) (u ∷ us) = (from t ≡ ok (hundredths u)) × Read ts us

print_all-Read :
    (ds : List Decimal) (us : List ℕ)
    → AllCount ds us
    → (ts : List Text) × (print_all ds ≡ ok ts) × Read ts us
unfolding print_all to_fixed
print_all-Read [] [] h = ([], refl, tt)
print_all-Read [] (u ∷ us) h = elim h [ ]
print_all-Read (d ∷ ds) [] h = elim h [ ]
print_all-Read (d ∷ ds) (u ∷ us) ((h, e), hs) =
    let (ts, run, read) = print_all-Read ds us hs in
    let exact = round-exact d 2 half_up h ∙ ap (λ n. ok (record { units = n; scale = 2 })) e in
    (to_text (hundredths u) ∷ ts, rw exact (rw run), (from-to_text (hundredths u), read))

-- A drive's miles that read as a figure, not negative, are to the hundredth given in as many parts as asked for: printed figures that
-- add up to the whole and are never more than a hundredth apart.
pub shares-AreShares :
    (miles : Text) (d : Decimal) (w n : ℕ)
    → from miles ≡ ok d
    → round d 2 half_up ≡ ok (hundredths w)
    → (ts : List Text) × (us : List ℕ) × (q : ℕ) × (shares miles (suc n) ≡ ok ts)
      × Read ts us
      × (length us ≡ suc n)
      × (total (λ u. u) us ≡ w)
      × All (λ u. (u ≡ q) ⊎ (u ≡ q + 1)) us
unfolding shares
shares-AreShares miles d w n e r =
    let (parts, us, q, run, counts, shared, low) = share_figures-AreShares w n in
    let (ts, printed, read) = print_all-Read parts us counts in
    (ts, us, q, rw e (rw r (rw run printed)), read, shared.0, omega (arith, shared.1), shared.2)
