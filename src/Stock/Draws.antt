-- ===== src/Stock/Draws.antt =====
-- lib/stock-draw.ts: what a draw answers, for each amount asked for.
use reckon.Common.{
  ℕ, ◌≤◌, ◌≡◌, refl, sym, ◌∙◌, inl, inr, true, false, List, [], ◌∷◌, Result, ok, Bool-cases, arith,
  ok-injective, err-ne-ok, err, if◌then◌else◌, if_cases,
}
use reckon.Common.Int.{ℤ, pos, ◌+ℤ◌, ◌≤ℤ◌, ◌<ℤ◌, +ℤ_parts, eq_of_parts}
use reckon.Common.IntLaws.{+ℤ_assoc}
use reckon.Decimal.{Decimal, at, add, gt, eq, round, half_up, zero_decimal}
use reckon.Decimal.Exact.{at-add, at-zero, scale-add-le, lt_of_gt, le_of_not_gt, ne_of_not_eq}
use reckon.Decimal.Rules.{round-ok}
use reckon.Decimal.Numeric.{from}
use reckon.Stock.{
  ShelfLot, Shelf, Off, Draw, Drawn, draws, Costing, on_hand_from, on_hand_of, takes_of, draw,
  priced, whole_cost, all_worth, some_worth,
}
use reckon.Stock.Fifo.{IsStocked, stock_on, total_off, Fifo, take_oldest-Fifo}

-- A figure read off the shelf: it is what the lots hold.
abbrev pub Holds : ℕ → Decimal → ℤ → Type 0
Holds s d total = (d.scale ≤ s) × (at d s ≡ total)

on_hand_from-stock :
    (s : ℕ) (n : Decimal) (lots : List ShelfLot) (k : IsStocked s lots)
    → n.scale ≤ s
    → (h : Decimal) × (on_hand_from n lots ≡ ok h) × Holds s h (at n s +ℤ stock_on s lots k)
unfolding on_hand_from
on_hand_from-stock s n [] k hn =
    (n, refl, (hn, eq_of_parts _ _ (omega (arith, +ℤ_parts (at n s) (pos 0)))))
on_hand_from-stock s n (l ∷ ls) ((d, e, hd, hp), ks) hn =
    let (h, run, holds) = on_hand_from-stock s (add n d) ls ks (scale-add-le n d s hn hd) in
    (h, rw e run, (holds.0, holds.1 ∙ regrouped))
  where
    regrouped : at (add n d) s +ℤ stock_on s ls ks ≡ at n s +ℤ (at d s +ℤ stock_on s ls ks)
    regrouped = rw (at-add n d s hn hd) (+ℤ_assoc _ _ _)

pub on_hand_of-stock :
    (s : ℕ) (shelf : Shelf) (k : IsStocked s shelf.lots)
    → (h : Decimal) × (on_hand_of shelf ≡ ok h) × Holds s h (stock_on s shelf.lots k)
unfolding on_hand_of
on_hand_of-stock s shelf k =
    let (h, run, holds) = on_hand_from-stock s zero_decimal shelf.lots k (omega arith) in
    (h, run, (holds.0, holds.1 ∙ drop_zero))
  where
    drop_zero : at zero_decimal s +ℤ stock_on s shelf.lots k ≡ stock_on s shelf.lots k
    drop_zero =
        rw (at-zero s) (eq_of_parts _ _ (omega (arith, +ℤ_parts (pos 0) (stock_on s shelf.lots k))))

-- An answer with a cost worked out is a draw of what the loop took.
abbrev TakesOff : List Off → Drawn → Type 0
TakesOff off answer = (r : Draw) × (answer ≡ draws r) × (r.takes ≡ takes_of off)

priced-TakesOff :
    (off : List Off) (ex_tax tax : Result Decimal) (answer : Drawn)
    → priced off ex_tax tax ≡ ok answer
    → TakesOff off answer
unfolding priced
priced-TakesOff off (ok a) (ok b) answer e = (_, sym (ok-injective e), refl)
priced-TakesOff off (ok a) (err x) answer e = absurd (err-ne-ok e)
priced-TakesOff off (err x) tax answer e = absurd (err-ne-ok e)

module _ (s : ℕ) (shelf : Shelf) (k : IsStocked s shelf.lots) (want : Decimal) (costing : Costing)
    (fine : want.scale ≤ s) where
  -- Asked for more than there is, a draw answers how much there is, and takes nothing.
  pub draw_short :
      stock_on s shelf.lots k <ℤ at want s
      → (h : Decimal) × (draw shelf want costing ≡ ok (Drawn.short h))
        × (at h s ≡ stock_on s shelf.lots k)
  unfolding draw
  draw_short more =
      let (h, run, holds) = on_hand_of-stock s shelf k in
      elim (Bool-cases (gt want h)) [
        | inl t ↦ (h, rw run (rw t), holds.1)
        | inr f ↦
            let low = le_of_not_gt want h s fine holds.0 f in
            absurd
              (let low' : at want s ≤ℤ stock_on s shelf.lots k = rw holds.1 at low in omega arith)
      ]

  -- Otherwise, whatever the costing, an answer is a draw that takes exactly what was asked for,
  -- oldest lots first.
  pub draw-Fifo :
      {answer : Drawn}
      → pos 0 ≤ℤ at want s
      → at want s ≤ℤ stock_on s shelf.lots k
      → draw shelf want costing ≡ ok answer
      → (off : List Off) × (r : Draw) × (answer ≡ draws r)
        × (r.takes ≡ takes_of off)
        × (total_off s off ≡ at want s)
        × Fifo s off shelf.lots
  unfolding draw all_worth some_worth
  draw-Fifo {answer} nonneg enough answered =
      let (h, run, holds) = on_hand_of-stock s shelf k in
      let (off, took, total, fifo) = take_oldest-Fifo s want shelf.lots k fine nonneg enough in
      elim (Bool-cases (gt want h)) [
        | inl t ↦
            let high = lt_of_gt want h s fine holds.0 t in
            absurd
              (let high' : stock_on s shelf.lots k <ℤ at want s = rw holds.1 at high in omega arith)
        | inr f ↦
            let shown : (if eq want h
                  then all_worth shelf off
                  else some_worth costing shelf off want h)
                ≡ ok answer =
              rw (run, f, took) at answered in
            let (r, is_draw, same) =
              if_cases (λ x. x ≡ ok answer → TakesOff off answer) (eq want h) _ _
                (λ _. priced-TakesOff off _ _ answer) (λ _. priced-TakesOff off _ _ answer) shown in
            (off, r, is_draw, same, total, fifo)
      ]

  -- The draw that empties the shelf takes all of its worth, whatever the costing.
  pub draw_all :
      (w t : Decimal)
      → pos 0 ≤ℤ at want s
      → at want s ≡ stock_on s shelf.lots k
      → from shelf.ex_tax_worth ≡ ok w
      → from shelf.tax_worth ≡ ok t
      → (r : Draw) × (draw shelf want costing ≡ ok (draws r))
        × (round w 4 half_up ≡ ok r.ex_tax_cost)
        × (round t 4 half_up ≡ ok r.tax_paid)
  unfolding draw all_worth priced whole_cost
  draw_all w t nonneg same ew et =
      let (h, run, holds) = on_hand_of-stock s shelf k in
      let (off, took, total, fifo) =
        take_oldest-Fifo s want shelf.lots k fine nonneg (rw same (omega arith)) in
      let (rw', ew', _) = round-ok w 4 half_up in
      let (rt, et', _) = round-ok t 4 half_up in
      (
        record { takes = takes_of off; ex_tax_cost = rw'; tax_paid = rt },
        rw run (
            rw (not_more h holds)
              (rw took (rw (all_of h holds) (rw ew (rw ew' (rw et (rw et'))))))),
        ew',
        et',
      )
    where
      not_more : (h : Decimal) → Holds s h (stock_on s shelf.lots k) → gt want h ≡ false
      not_more h holds = elim (Bool-cases (gt want h)) [
        | inl t ↦ absurd (
            let high : at want s <ℤ at want s =
              rw (holds.1 ∙ sym same) at (lt_of_gt want h s fine holds.0 t) in
            omega arith)
        | inr f ↦ f
      ]

      all_of : (h : Decimal) → Holds s h (stock_on s shelf.lots k) → eq want h ≡ true
      all_of h holds = elim (Bool-cases (eq want h)) [
        | inl t ↦ t
        | inr f ↦ absurd (ne_of_not_eq want h s fine holds.0 f (same ∙ sym holds.1))
      ]
