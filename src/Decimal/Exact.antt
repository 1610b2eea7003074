-- ===== src/Decimal/Exact.antt =====
-- lib/decimal.ts: at any scale fine enough for both, figures add, subtract and compare as the
-- integers they are there.
use native.Mathlib.Nat.{pow-suc, one-le-pow, mul-le-mul_right}
use reckon.Common.{
  ℕ, zero, suc, ◌+◌, ◌-◌, ◌*◌, ◌^◌, ◌≤◌, ◌<◌, max, ◌≡◌, refl, sym, ap, ◌∙◌, true, false, arith,
  if_cases, ltb→lt, ◌≢◌,
}
use reckon.Common.Int.{
  ℤ, pos, negsuc, ◌+ℤ◌, ◌-ℤ◌, ◌*ℤ◌, ◌≤ℤ◌, ◌<ℤ◌, ltb_ℤ, eqb_ℤ, eq_of_parts, -ℤ_parts,
}
use reckon.Common.IntLaws.{
  *ℤ-pos_assoc, *ℤ-pos-one, *ℤ-pos_parts, +ℤ-*ℤ-pos, -ℤ-*ℤ-pos, *ℤ-pos_mono_lt,
}
use reckon.Decimal.{
  Decimal, Order, less, equal, greater, at, add, sub, cmp, eq, gt, lt, is_zero, min_of, is_less,
  is_equal, is_greater, zero_decimal, pow10, max_of,
}

pub pow10-add : (m n : ℕ) → 10 ^ (m + n) ≡ 10 ^ m * 10 ^ n
pow10-add m zero = ground (arith, pow-suc 10 0)
pow10-add m (suc n) =
    let shift : m + suc n ≡ suc (m + n) = omega arith in
    ap (λ t. 10 ^ t) shift
    ∙ omega (arith, pow10-add m n, pow-suc 10 (m + n), ap (λ (t : ℕ). 10 ^ m * t) (pow-suc 10 n))

pub pow10-pos : (n : ℕ) → 0 < 10 ^ n
pow10-pos n = one-le-pow n 10 (omega arith)

abbrev scaled : ℤ → ℕ → Decimal
scaled u s = record { units = u; scale = s }

-- What is true of a figure's units at a coarser scale carries to a finer one.
at-at : (d : Decimal) (s t : ℕ) → d.scale ≤ s → s ≤ t → at d s *ℤ pos (10 ^ (t - s)) ≡ at d t
unfolding at pow10
at-at d s t h k =
    *ℤ-pos_assoc d.units (10 ^ (s - d.scale)) (10 ^ (t - s))
    ∙ ap (λ n. d.units *ℤ pos n)
        (sym (pow10-add (s - d.scale) (t - s)) ∙ ap (λ n. 10 ^ n) (omega arith))

pub at_self : (d : Decimal) → at d d.scale ≡ d.units
unfolding at pow10
at_self d =
    let same : d.scale - d.scale ≡ 0 = omega arith in
    ap (λ n. d.units *ℤ pos (10 ^ n)) same ∙ *ℤ-pos-one d.units

module _ (a b : Decimal) (s : ℕ) (ha : a.scale ≤ s) (hb : b.scale ≤ s) where
  -- At any scale that holds both figures, `add` is the sum of the integers.
  pub at-add : at (add a b) s ≡ at a s +ℤ at b s
  unfolding add at pow10
  at-add =
      let m = max a.scale b.scale in
      +ℤ-*ℤ-pos (at a m) (at b m) (10 ^ (s - m)) ∙ (λ i.
        at-at a m s (omega arith) (omega arith) i +ℤ at-at b m s (omega arith) (omega arith) i)

  pub at-sub : at (sub a b) s ≡ at a s -ℤ at b s
  unfolding sub at pow10
  at-sub =
      let m = max a.scale b.scale in
      -ℤ-*ℤ-pos (at a m) (at b m) (10 ^ (s - m)) ∙ (λ i.
        at-at a m s (omega arith) (omega arith) i -ℤ at-at b m s (omega arith) (omega arith) i)

module _ (a b : Decimal) (m s : ℕ) (ha : a.scale ≤ m) (hb : b.scale ≤ m) (hm : m ≤ s) where
  lt-at : at a m <ℤ at b m → at a s <ℤ at b s
  lt-at h =
      rw (← at-at a m s ha hm, ← at-at b m s hb hm)
        (*ℤ-pos_mono_lt _ _ (10 ^ (s - m)) (pow10-pos (s - m)) h)

  eq-at : at a m ≡ at b m → at a s ≡ at b s
  eq-at h = rw (← at-at a m s ha hm, ← at-at b m s hb hm, h)

-- What an order of two figures says of their units at a common scale.
abbrev pub Says : Order → ℤ → ℤ → Type 0
Says less x y = x <ℤ y
Says equal x y = x ≡ y
Says greater x y = y <ℤ x

-- `cmp` decides the order of the two figures at every scale that holds both.
pub cmp-Says :
    (a b : Decimal) (s : ℕ) → a.scale ≤ s → b.scale ≤ s → Says (cmp a b) (at a s) (at b s)
unfolding cmp
cmp-Says a b s ha hb =
    let m = max a.scale b.scale in
    if_cases (λ o. Says o (at a s) (at b s)) (ltb_ℤ (at a m) (at b m)) less _
      (λ t. lt-at a b m s (omega arith) (omega arith) (omega arith) (ltb→lt _ _ t))
      λ f.
        if_cases (λ o. Says o (at a s) (at b s)) (ltb_ℤ (at b m) (at a m)) greater equal
          (λ t. lt-at b a m s (omega arith) (omega arith) (omega arith) (ltb→lt _ _ t))
          λ g.
            eq-at a b m s (omega arith) (omega arith) (omega arith) (eq_of_parts _ _ (ground arith))

Says-greater : (o : Order) (x y : ℤ) → Says o x y → is_greater o ≡ true → y <ℤ x
Says-greater less x y h t = cc
Says-greater equal x y h t = cc
Says-greater greater x y h t = h

Says-not_greater : (o : Order) (x y : ℤ) → Says o x y → is_greater o ≡ false → x ≤ℤ y
Says-not_greater less x y h t = omega arith
Says-not_greater equal x y h t = rw h (omega arith)
Says-not_greater greater x y h t = cc

Says-equal : (o : Order) (x y : ℤ) → Says o x y → is_equal o ≡ true → x ≡ y
Says-equal less x y h t = cc
Says-equal equal x y h t = h
Says-equal greater x y h t = cc

Says-not_less : (o : Order) (x y : ℤ) → Says o x y → is_less o ≡ false → y ≤ℤ x
Says-not_less less x y h t = cc
Says-not_less equal x y h t = rw h (omega arith)
Says-not_less greater x y h t = omega arith

Says-less : (o : Order) (x y : ℤ) → Says o x y → is_less o ≡ true → x <ℤ y
Says-less less x y h t = h
Says-less equal x y h t = cc
Says-less greater x y h t = cc

lt_irrefl : (x : ℤ) → ¬ (x <ℤ x)
lt_irrefl x h = omega arith

Says-not_equal : (o : Order) (x y : ℤ) → Says o x y → is_equal o ≡ false → x ≢ y
Says-not_equal less x y h t e = lt_irrefl y (rw e at h)
Says-not_equal equal x y h t e = cc
Says-not_equal greater x y h t e = lt_irrefl y (rw e at h)

module _ (a b : Decimal) (s : ℕ) (ha : a.scale ≤ s) (hb : b.scale ≤ s) where
  pub lt_of_gt : gt a b ≡ true → at b s <ℤ at a s
  unfolding gt
  lt_of_gt = Says-greater (cmp a b) _ _ (cmp-Says a b s ha hb)

  pub le_of_not_gt : gt a b ≡ false → at a s ≤ℤ at b s
  unfolding gt
  le_of_not_gt = Says-not_greater (cmp a b) _ _ (cmp-Says a b s ha hb)

  pub le_of_not_lt : lt a b ≡ false → at b s ≤ℤ at a s
  unfolding lt
  le_of_not_lt = Says-not_less (cmp a b) _ _ (cmp-Says a b s ha hb)

  pub lt_of_lt : lt a b ≡ true → at a s <ℤ at b s
  unfolding lt
  lt_of_lt = Says-less (cmp a b) _ _ (cmp-Says a b s ha hb)

  pub eq_of_eq : eq a b ≡ true → at a s ≡ at b s
  unfolding eq
  eq_of_eq = Says-equal (cmp a b) _ _ (cmp-Says a b s ha hb)

  pub ne_of_not_eq : eq a b ≡ false → at a s ≢ at b s
  unfolding eq
  ne_of_not_eq = Says-not_equal (cmp a b) _ _ (cmp-Says a b s ha hb)

  pub max_of_le : (at a s ≤ℤ at (max_of a b) s) × (at b s ≤ℤ at (max_of a b) s)
  unfolding max_of
  max_of_le =
      if_cases (λ d. (at a s ≤ℤ at d s) × (at b s ≤ℤ at d s)) (lt a b) b a
        (λ t. let k = lt_of_lt t in (omega arith, omega arith))
        λ f. let k = le_of_not_lt f in (omega arith, k)

  pub min_of_le : (at (min_of a b) s ≤ℤ at a s) × (at (min_of a b) s ≤ℤ at b s)
  unfolding min_of
  min_of_le =
      if_cases (λ d. (at d s ≤ℤ at a s) × (at d s ≤ℤ at b s)) (gt a b) b a
        (λ t. let k = lt_of_gt t in (omega arith, omega arith))
        λ f. let k = le_of_not_gt f in (omega arith, k)

zero_scaled : (k : ℕ) → pos 0 *ℤ pos k ≡ pos 0
zero_scaled k = eq_of_parts _ _ (omega (arith, *ℤ-pos_parts (pos 0) k))

-- A figure is zero exactly where its units are, at every scale.
pub at_of_zero : (d : Decimal) (s : ℕ) → is_zero d ≡ true → at d s ≡ pos 0
unfolding is_zero at pow10
at_of_zero d s h =
    let none_left : d.units ≡ pos 0 = eq_of_parts _ _ (ground arith) in
    rw none_left (zero_scaled (10 ^ (s - d.scale)))

pub at-zero : (s : ℕ) → at zero_decimal s ≡ pos 0
unfolding at pow10
at-zero s = zero_scaled (10 ^ (s - 0))

le_one_suc : (n : ℕ) → 1 ≤ suc n
le_one_suc n = omega arith

minus_self : (x : ℤ) → eqb_ℤ (x -ℤ x) (pos 0) ≡ true
minus_self x =
    let gone : x -ℤ x ≡ pos 0 = eq_of_parts _ _ (omega (arith, -ℤ_parts x x)) in rw gone refl

-- A figure that is not zero, and not negative, is positive at every scale.
scaled-pos :
    (u : ℤ) (k : ℕ) → 0 < k → eqb_ℤ u (pos 0) ≡ false → pos 0 ≤ℤ u *ℤ pos k → pos 0 <ℤ u *ℤ pos k
scaled-pos (pos zero) k h z p = cc
scaled-pos (pos (suc n)) k h z p =
    omega (arith, *ℤ-pos_parts (pos (suc n)) k, mul-le-mul_right k (le_one_suc n))
scaled-pos (negsuc n) k h z p =
    absurd (omega (arith, *ℤ-pos_parts (negsuc n) k, mul-le-mul_right k (le_one_suc n)))

pub at_pos : (d : Decimal) (s : ℕ) → is_zero d ≡ false → pos 0 ≤ℤ at d s → pos 0 <ℤ at d s
unfolding is_zero at pow10
at_pos d s = scaled-pos d.units (10 ^ (s - d.scale)) (pow10-pos (s - d.scale))

-- What is taken from itself leaves nothing.
pub is_zero-sub_self : (d : Decimal) → is_zero (sub d d) ≡ true
unfolding is_zero sub
is_zero-sub_self d = minus_self (at d (max d.scale d.scale))

pub scale-add-le : (a b : Decimal) (s : ℕ) → a.scale ≤ s → b.scale ≤ s → (add a b).scale ≤ s
unfolding add
scale-add-le a b s h k = omega arith

pub scale-sub-le : (a b : Decimal) (s : ℕ) → a.scale ≤ s → b.scale ≤ s → (sub a b).scale ≤ s
unfolding sub
scale-sub-le a b s h k = omega arith

pub scale-max_of-le : (a b : Decimal) (s : ℕ) → a.scale ≤ s → b.scale ≤ s → (max_of a b).scale ≤ s
unfolding max_of
scale-max_of-le a b s h k = if_cases (λ d. d.scale ≤ s) (lt a b) b a (λ _. k) (λ _. h)
