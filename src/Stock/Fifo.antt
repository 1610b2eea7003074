-- ===== src/Stock/Fifo.antt =====
-- lib/stock-draw.ts: a draw takes its quantity off the oldest lots first.
use reckon.Common.{
  ℕ, ◌≤◌, ◌≡◌, refl, inl, inr, sym, true, false, List, [], ◌∷◌, ok, Bool-cases, arith,
}
use reckon.Common.Int.{ℤ, pos, ◌+ℤ◌, ◌-ℤ◌, ◌≤ℤ◌, ◌<ℤ◌, +ℤ_parts, -ℤ_parts, eq_of_parts}
use reckon.Decimal.{Decimal, at, sub, gt, is_zero, min_of}
use reckon.Decimal.Exact.{
  at-sub, at_of_zero, at_pos, lt_of_gt, le_of_not_gt, is_zero-sub_self, scale-sub-le,
}
use reckon.Common.IntLaws.{le_of-zero-+ℤ, -ℤ-le, -ℤ-nonneg}
use reckon.Decimal.Numeric.{from}
use reckon.Stock.{ShelfLot, Off, take_oldest}

-- Each lot's remaining quantity reads as a figure that is not negative, to at most `s` places.
abbrev pub IsStocked : ℕ → List ShelfLot → Type 0
IsStocked s [] = Unit
IsStocked s (l ∷ ls) =
    ((d : Decimal) × (from l.qty_remaining ≡ ok d) × (d.scale ≤ s) × (pos 0 ≤ℤ at d s))
    × IsStocked s ls

-- What is on those lots, in units of `10 ^ -s`.
abbrev pub stock_on : (s : ℕ) (lots : List ShelfLot) → IsStocked s lots → ℤ
stock_on s [] k = pos 0
stock_on s (l ∷ ls) (k, ks) = at k.0 s +ℤ stock_on s ls ks

abbrev pub total_off : ℕ → List Off → ℤ
total_off s [] = pos 0
total_off s (o ∷ os) = at o.qty s +ℤ total_off s os

-- Oldest first: every lot before the last one drawn from is emptied or was empty, nothing is taken
-- from a lot twice or out of order, and no lot gives more than it holds.
pub data Fifo (s : ℕ) : List Off → List ShelfLot → Type 0 where
  none_off : {ls : List ShelfLot} → Fifo s [] ls
  last :
      {l : ShelfLot} {q d : Decimal} {ls : List ShelfLot}
      → from l.qty_remaining ≡ ok d
      → pos 0 <ℤ at q s
      → at q s ≤ℤ at d s
      → Fifo s (record { lot = l; qty = q } ∷ []) (l ∷ ls)
  emptied :
      {l : ShelfLot} {q d : Decimal} {os : List Off} {ls : List ShelfLot}
      → from l.qty_remaining ≡ ok d
      → pos 0 <ℤ at q s
      → at q s ≡ at d s
      → Fifo s os ls
      → Fifo s (record { lot = l; qty = q } ∷ os) (l ∷ ls)
  empty :
      {l : ShelfLot} {d : Decimal} {os : List Off} {ls : List ShelfLot}
      → from l.qty_remaining ≡ ok d
      → at d s ≡ pos 0
      → Fifo s os ls
      → Fifo s os (l ∷ ls)

take_oldest-zero :
    (left : Decimal) (lots : List ShelfLot) → is_zero left ≡ true → take_oldest left lots ≡ ok []
unfolding take_oldest
take_oldest-zero left [] h = refl
take_oldest-zero left (l ∷ ls) h = rw h

-- What a run of the loop comes to.
abbrev pub Served : ℕ → Decimal → List ShelfLot → Type 0
Served s left lots =
    (off : List Off) × (take_oldest left lots ≡ ok off)
    × (total_off s off ≡ at left s)
    × Fifo s off lots

module _ (s : ℕ) (left d : Decimal) (l : ShelfLot) (ls : List ShelfLot)
    (e : from l.qty_remaining ≡ ok d) (hs : left.scale ≤ s) (hd : d.scale ≤ s)
    (wanted : is_zero left ≡ false) (hl : pos 0 ≤ℤ at left s) (hp : pos 0 ≤ℤ at d s) where
  last_lot : gt left d ≡ false → Served s left (l ∷ ls)
  unfolding take_oldest min_of
  last_lot f = (
    record { lot = l; qty = left } ∷ [],
    rw (wanted, e)
        (rw f (rw wanted (rw (take_oldest-zero (sub left left) ls (is_zero-sub_self left))))),
    eq_of_parts _ _ (omega (arith, +ℤ_parts (at left s) (pos 0))),
    last e (at_pos left s wanted hl) (le_of_not_gt left d s hs hd f),
  )

  empty_lot : gt left d ≡ true → is_zero d ≡ true → Served s left ls → Served s left (l ∷ ls)
  unfolding take_oldest min_of
  empty_lot t z (off, run, total, fifo) =
      (off, rw (wanted, e) (rw t (rw z run)), total, empty e (at_of_zero d s z) fifo)

  emptied_lot :
      gt left d ≡ true → is_zero d ≡ false → Served s (sub left d) ls → Served s left (l ∷ ls)
  unfolding take_oldest min_of
  emptied_lot t nz (off, run, total, fifo) = (
    record { lot = l; qty = d } ∷ off,
    rw (wanted, e) (rw t (rw nz (rw run))),
    added_back,
    emptied e (at_pos d s nz hp) refl fifo,
  )
    where
      added_back : at d s +ℤ total_off s off ≡ at left s
      added_back =
          rw (total, at-sub left d s hs hd)
            (eq_of_parts _ _ (
              omega
                (arith, +ℤ_parts (at d s) (at left s -ℤ at d s), -ℤ_parts (at left s) (at d s))))

-- Where there is enough on the shelf the loop returns, takes exactly what was wanted, and takes it
-- oldest first.
pub take_oldest-Fifo :
    (s : ℕ) (left : Decimal) (lots : List ShelfLot) (k : IsStocked s lots)
    → left.scale ≤ s
    → pos 0 ≤ℤ at left s
    → at left s ≤ℤ stock_on s lots k
    → Served s left lots
unfolding take_oldest
take_oldest-Fifo s left [] k hs hl h = ([], refl, eq_of_parts _ _ (omega arith), none_off)
take_oldest-Fifo s left (l ∷ ls) ((d, e, hd, hp), ks) hs hl h = elim (Bool-cases (is_zero left)) [
  | inl z ↦ ([], rw z, sym (at_of_zero left s z), none_off)
  | inr wanted ↦ elim (Bool-cases (gt left d)) [
    | inr f ↦ last_lot s left d l ls e hs hd wanted hl hp f
    | inl t ↦ elim (Bool-cases (is_zero d)) [
      | inl z ↦
          empty_lot s left d l ls e hs hd wanted hl hp t z
            (take_oldest-Fifo s left ls ks hs hl (le_of-zero-+ℤ _ _ _ (at_of_zero d s z) h))
      | inr nz ↦ emptied_lot s left d l ls e hs hd wanted hl hp t nz (
          take_oldest-Fifo s (sub left d) ls ks (scale-sub-le left d s hs hd)
            (rw (at-sub left d s hs hd) (-ℤ-nonneg _ _ (lt_of_gt left d s hs hd t)))
            (rw (at-sub left d s hs hd) (-ℤ-le _ _ _ h)))
    ]
  ]
]
