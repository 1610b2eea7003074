-- ===== src/Common/IntLaws.antt =====
-- The laws of the integers that scaled figures need: through the two parts, by linear arithmetic
-- over products.
use Prim.Native.Nat.{ℕ, zero, suc, ◌+◌, ◌*◌, ◌<◌}
use mathlib.Core.Path.{◌≡◌, ap}
use native.Mathlib.Nat.{mul-le-mul_right, mul-lt-mul_of_pos_right}
use native.Mathlib.Omega.{arith}
use reckon.Common.Int.{
  ℤ, pos, negsuc, pos_part, neg_part, ◌+ℤ◌, ◌-ℤ◌, ◌*ℤ◌, ◌≤ℤ◌, ◌<ℤ◌, +ℤ_parts, -ℤ_parts, *ℤ_parts,
  eq_of_parts,
}

-- Scaled by a number, an integer's two parts are scaled.
pub *ℤ-pos_parts :
    (a : ℤ) (k : ℕ)
    → pos_part (a *ℤ pos k) + neg_part a * k ≡ neg_part (a *ℤ pos k) + pos_part a * k
*ℤ-pos_parts a k = omega (arith, *ℤ_parts a (pos k))

pub *ℤ-pos_assoc : (a : ℤ) (j k : ℕ) → a *ℤ pos j *ℤ pos k ≡ a *ℤ pos (j * k)
*ℤ-pos_assoc a j k = eq_of_parts _ _ (
    omega (
      arith,
      ap (λ (t : ℕ). t * k) (*ℤ-pos_parts a j),
      *ℤ-pos_parts (a *ℤ pos j) k,
      *ℤ-pos_parts a (j * k),
    ))

pub *ℤ-pos-one : (a : ℤ) → a *ℤ pos 1 ≡ a
*ℤ-pos-one a = eq_of_parts _ _ (omega (arith, *ℤ-pos_parts a 1))

pub +ℤ-*ℤ-pos : (a b : ℤ) (k : ℕ) → (a +ℤ b) *ℤ pos k ≡ a *ℤ pos k +ℤ b *ℤ pos k
+ℤ-*ℤ-pos a b k = eq_of_parts _ _ (
    omega (
      arith,
      ap (λ (t : ℕ). t * k) (+ℤ_parts a b),
      *ℤ-pos_parts (a +ℤ b) k,
      +ℤ_parts (a *ℤ pos k) (b *ℤ pos k),
      *ℤ-pos_parts a k,
      *ℤ-pos_parts b k,
    ))

pub -ℤ-*ℤ-pos : (a b : ℤ) (k : ℕ) → (a -ℤ b) *ℤ pos k ≡ a *ℤ pos k -ℤ b *ℤ pos k
-ℤ-*ℤ-pos a b k = eq_of_parts _ _ (
    omega (
      arith,
      ap (λ (t : ℕ). t * k) (-ℤ_parts a b),
      *ℤ-pos_parts (a -ℤ b) k,
      -ℤ_parts (a *ℤ pos k) (b *ℤ pos k),
      *ℤ-pos_parts a k,
      *ℤ-pos_parts b k,
    ))

-- Scaling keeps the order, strictly where the factor is positive.
pub *ℤ-pos_mono_le : (a b : ℤ) (k : ℕ) → a ≤ℤ b → a *ℤ pos k ≤ℤ b *ℤ pos k
*ℤ-pos_mono_le a b k h = omega (arith, mul-le-mul_right k h, *ℤ-pos_parts a k, *ℤ-pos_parts b k)

pub *ℤ-pos_mono_lt : (a b : ℤ) (k : ℕ) → 0 < k → a <ℤ b → a *ℤ pos k <ℤ b *ℤ pos k
*ℤ-pos_mono_lt a b k pos_k h =
    omega (arith, mul-lt-mul_of_pos_right h pos_k, *ℤ-pos_parts a k, *ℤ-pos_parts b k)

pub le_of-zero-+ℤ : (x d y : ℤ) → d ≡ pos 0 → x ≤ℤ d +ℤ y → x ≤ℤ y
le_of-zero-+ℤ x d y e h = let h' : x ≤ℤ pos 0 +ℤ y = rw e at h in omega (arith, +ℤ_parts (pos 0) y)

pub -ℤ-le : (x d y : ℤ) → x ≤ℤ d +ℤ y → x -ℤ d ≤ℤ y
-ℤ-le x d y h = omega (arith, +ℤ_parts d y, -ℤ_parts x d)

pub -ℤ-nonneg : (x d : ℤ) → d <ℤ x → pos 0 ≤ℤ x -ℤ d
-ℤ-nonneg x d h = omega (arith, -ℤ_parts x d)

pub +ℤ_assoc : (a b c : ℤ) → a +ℤ b +ℤ c ≡ a +ℤ (b +ℤ c)
+ℤ_assoc a b c =
    eq_of_parts _ _
      (omega (arith, +ℤ_parts a b, +ℤ_parts (a +ℤ b) c, +ℤ_parts b c, +ℤ_parts a (b +ℤ c)))

-- The sign of a product.
pub *ℤ-pos_pos : (a b : ℤ) → pos 0 <ℤ a → pos 0 <ℤ b → pos 0 <ℤ a *ℤ b
*ℤ-pos_pos (pos zero) b h k = absurd (omega arith)
*ℤ-pos_pos (pos (suc a)) (pos zero) h k = absurd (omega arith)
*ℤ-pos_pos (pos (suc a)) (pos (suc b)) h k = omega (arith, *ℤ_parts (pos (suc a)) (pos (suc b)))
*ℤ-pos_pos (pos (suc a)) (negsuc b) h k = absurd (omega arith)
*ℤ-pos_pos (negsuc a) b h k = absurd (omega arith)

pub *ℤ-pos_neg : (a b : ℤ) → pos 0 <ℤ a → b <ℤ pos 0 → a *ℤ b <ℤ pos 0
*ℤ-pos_neg (pos zero) b h k = absurd (omega arith)
*ℤ-pos_neg (pos (suc a)) (pos b) h k = absurd (omega arith)
*ℤ-pos_neg (pos (suc a)) (negsuc b) h k = omega (arith, *ℤ_parts (pos (suc a)) (negsuc b))
*ℤ-pos_neg (negsuc a) b h k = absurd (omega arith)

pub *ℤ-neg_neg : (a b : ℤ) → a <ℤ pos 0 → b <ℤ pos 0 → pos 0 <ℤ a *ℤ b
*ℤ-neg_neg (pos a) b h k = absurd (omega arith)
*ℤ-neg_neg (negsuc a) (pos b) h k = absurd (omega arith)
*ℤ-neg_neg (negsuc a) (negsuc b) h k = omega (arith, *ℤ_parts (negsuc a) (negsuc b))

pub pos-* : (a b : ℕ) → pos a *ℤ pos b ≡ pos (a * b)
pos-* a b = eq_of_parts _ _ (omega (arith, *ℤ_parts (pos a) (pos b)))
