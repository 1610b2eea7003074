-- ===== src/Decimal/Least.antt =====
-- lib/decimal.ts: a figure that is not above another of so many places does not round above it there.
use native.Mathlib.Nat.{mul-le-mul_right, mul_comm}
use reckon.Common.{
  ℕ, zero, suc, ◌-◌, ◌*◌, ◌^◌, ◌≤◌, ◌<◌, ◌≡◌, refl, sym, ◌∙◌, subst, ◌⊎◌, inl, inr, leb, leb→le,
  not_leb→lt, Bool-cases, Result, ok, err, ◌>>=◌, ok-injective, err-ne-ok, true, false, arith,
}
use reckon.Common.Int.{ℤ, pos, negsuc, neg_ℤ, ◌≤ℤ◌, ◌<ℤ◌, ◌*ℤ◌}
use reckon.Common.IntLaws.{*ℤ-pos_parts}
use reckon.Decimal.{Decimal, half_up, at, div_round, round, pow10, lt, max_of}
use reckon.Decimal.Rules.{IsRounded, div_round-IsRounded, round-exact}
use reckon.Decimal.Exact.{pow10-pos, at_self, le_of_not_lt, lt_of_lt}

-- A quotient that rounds half up is no more than a multiple that its dividend is no more than.
quotient_le : (m b q n : ℕ) → 0 < b → IsRounded half_up m b q → m ≤ n * b → q ≤ n
quotient_le m b q n pos_b r h = elim (Bool-cases (leb q n)) [
  | inl t ↦ leb→le q n t
  | inr f ↦
      let past : suc n * b ≤ q * b = mul-le-mul_right b (omega (arith, not_leb→lt q n f)) in
      absurd (omega (arith, past, mul_comm b q))
]

quotient_ge : (m b q n : ℕ) → 0 < b → IsRounded half_up m b q → n * b ≤ m → n ≤ q
quotient_ge m b q n pos_b r h = elim (Bool-cases (leb n q)) [
  | inl t ↦ leb→le n q t
  | inr f ↦
      let past : suc q * b ≤ n * b = mul-le-mul_right b (omega (arith, not_leb→lt n q f)) in
      absurd (omega (arith, past, mul_comm b q))
]

div_round_le :
    (a c q : ℤ) (b : ℕ) → 0 < b → div_round a (pos b) half_up ≡ ok q → a ≤ℤ c *ℤ pos b → q ≤ℤ c
div_round_le (pos m) (pos k) q b h e le =
    let (n, r, run, _) = div_round-IsRounded half_up m b h in
    let few = quotient_le m b n k h r (omega (arith, *ℤ-pos_parts (pos k) b)) in
    subst (λ (x : ℤ). x ≤ℤ pos k) (ok-injective (sym run ∙ e)) (omega (arith, few))
div_round_le (pos m) (negsuc k) q b h e le =
    let some_of : 1 * b ≤ suc k * b = mul-le-mul_right b (omega arith) in
    absurd (omega (arith, *ℤ-pos_parts (negsuc k) b, some_of))
div_round_le (negsuc m) (pos k) q b h e le =
    let (n, r, _, run) = div_round-IsRounded half_up (suc m) b h in
    subst (λ (x : ℤ). x ≤ℤ pos k) (ok-injective (sym run ∙ e)) (below n)
  where
    below : (n : ℕ) → neg_ℤ (pos n) ≤ℤ pos k
    below zero = omega arith
    below (suc n) = omega arith
div_round_le (negsuc m) (negsuc k) q b h e le =
    let (n, r, _, run) = div_round-IsRounded half_up (suc m) b h in
    let many = quotient_ge (suc m) b n (suc k) h r (omega (arith, *ℤ-pos_parts (negsuc k) b)) in
    subst (λ (x : ℤ). x ≤ℤ negsuc k) (ok-injective (sym run ∙ e)) (below n many)
  where
    below : (n : ℕ) → suc k ≤ n → neg_ℤ (pos n) ≤ℤ negsuc k
    below zero h = absurd (omega arith)
    below (suc n) h = omega arith

div_round_ge :
    (a c q : ℤ) (b : ℕ) → 0 < b → div_round a (pos b) half_up ≡ ok q → c *ℤ pos b ≤ℤ a → c ≤ℤ q
div_round_ge (pos m) (pos k) q b h e le =
    let (n, r, run, _) = div_round-IsRounded half_up m b h in
    let many = quotient_ge m b n k h r (omega (arith, *ℤ-pos_parts (pos k) b)) in
    subst (λ (x : ℤ). pos k ≤ℤ x) (ok-injective (sym run ∙ e)) (omega (arith, many))
div_round_ge (pos m) (negsuc k) q b h e le =
    let (n, r, run, _) = div_round-IsRounded half_up m b h in
    subst (λ (x : ℤ). negsuc k ≤ℤ x) (ok-injective (sym run ∙ e)) (omega arith)
div_round_ge (negsuc m) (pos k) q b h e le = absurd (omega (arith, *ℤ-pos_parts (pos k) b))
div_round_ge (negsuc m) (negsuc k) q b h e le =
    let (n, r, _, run) = div_round-IsRounded half_up (suc m) b h in
    let few = quotient_le (suc m) b n (suc k) h r (omega (arith, *ℤ-pos_parts (negsuc k) b)) in
    subst (λ (x : ℤ). negsuc k ≤ℤ x) (ok-injective (sym run ∙ e)) (above n few)
  where
    above : (n : ℕ) → n ≤ suc k → negsuc k ≤ℤ neg_ℤ (pos n)
    above zero h = omega arith
    above (suc n) h = omega arith

-- A figure that has the places already and one that is not below it, or not above it: what the other rounds to
-- there is on the same side of it.
module _ (amount floor f : Decimal) (run : round floor amount.scale half_up ≡ ok f) where
  round_side :
      (P : ℤ → Type 0)
      → (leb floor.scale amount.scale ≡ true → P (at floor amount.scale))
      → ((q : ℤ)
          → leb floor.scale amount.scale ≡ false
          → div_round floor.units (pos (10 ^ (floor.scale - amount.scale))) half_up ≡ ok q
          → P q)
      → P f.units
  unfolding round pow10
  round_side P exact coarser = elim (Bool-cases (leb floor.scale amount.scale)) [
    | inl t ↦ subst (λ (d : Decimal). P d.units) (ok-injective (rw t at run)) (exact t)
    | inr n ↦
        by_units n (div_round floor.units (pos (10 ^ (floor.scale - amount.scale))) half_up) refl
          (rw n at run)
  ]
    where
      by_units :
          leb floor.scale amount.scale ≡ false
          → (r : Result ℤ)
          → div_round floor.units (pos (10 ^ (floor.scale - amount.scale))) half_up ≡ r
          → (do units ← r; ok (record { units = units; scale = amount.scale })) ≡ ok f
          → P f.units
      by_units n (ok q) k e = subst (λ (d : Decimal). P d.units) (ok-injective e) (coarser q n k)
      by_units n (err x) k e = absurd (err-ne-ok e)

  round_le : lt amount floor ≡ false → f.units ≤ℤ amount.units
  unfolding at pow10
  round_le h =
      round_side (λ u. u ≤ℤ amount.units)
        (λ t. rw (at_self amount) at (
          le_of_not_lt amount floor amount.scale (omega arith) (leb→le floor.scale amount.scale t)
            h))
        (λ q n k.
          let fine = not_leb→lt floor.scale amount.scale n in
          let le = le_of_not_lt amount floor floor.scale (omega (arith, fine)) (omega arith) h in
          div_round_le floor.units amount.units q (10 ^ (floor.scale - amount.scale))
            (pow10-pos (floor.scale - amount.scale)) k (rw (at_self floor) at le))

  round_ge : lt amount floor ≡ true → amount.units ≤ℤ f.units
  unfolding at pow10
  round_ge h =
      round_side (λ u. amount.units ≤ℤ u)
        (λ t.
          let up =
            lt_of_lt amount floor amount.scale (omega arith) (leb→le floor.scale amount.scale t)
              h in
          rw (at_self amount) at (le_of_lt (at amount amount.scale) (at floor amount.scale) up))
        (λ q n k.
          let fine = not_leb→lt floor.scale amount.scale n in
          let up = lt_of_lt amount floor floor.scale (omega (arith, fine)) (omega arith) h in
          div_round_ge floor.units amount.units q (10 ^ (floor.scale - amount.scale))
            (pow10-pos (floor.scale - amount.scale)) k
            (rw (at_self floor) at (le_of_lt (at amount floor.scale) (at floor floor.scale) up)))
    where
      le_of_lt : (x y : ℤ) → x <ℤ y → x ≤ℤ y
      le_of_lt x y h = omega arith

  -- The greater of the two, rounded, is one of them rounded, and is below neither.
  pub round-max_of :
      (b : Decimal)
      → round (max_of amount floor) amount.scale half_up ≡ ok b
      → ((b ≡ amount) ⊎ (b ≡ f)) × (amount.units ≤ℤ b.units) × (f.units ≤ℤ b.units)
  unfolding max_of
  round-max_of b eb = elim (Bool-cases (lt amount floor)) [
    | inl t ↦
        let same = ok-injective (sym run ∙ (rw t at eb)) in
        (
          inr (sym same),
          subst (λ (d : Decimal). amount.units ≤ℤ d.units) same (round_ge t),
          subst (λ (d : Decimal). f.units ≤ℤ d.units) same (omega arith),
        )
    | inr n ↦
        let exact = round-exact amount amount.scale half_up (omega arith) in
        let kept : amount ≡ record { units = at amount amount.scale; scale = amount.scale } =
          λ i. record { units = sym (at_self amount) i; scale = amount.scale } in
        let same = kept ∙ ok-injective (sym exact ∙ (rw n at eb)) in
        (
          inl (sym same),
          subst (λ (d : Decimal). amount.units ≤ℤ d.units) same (omega arith),
          subst (λ (d : Decimal). f.units ≤ℤ d.units) same (round_le n),
        )
  ]
