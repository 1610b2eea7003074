-- ===== src/Common/Sorting.antt =====
-- Array.prototype.sort: stable, by a strict order.
use mathlib.Core.List.{List, [], ◌∷◌, Perm}
use mathlib.Core.List.Perm
use mathlib.Core.Path.{◌≡◌, refl, ap, ◌∙◌}
use mathlib.Core.Bool.{Bool, true, false}
use mathlib.Core.Logic.{inl, inr}
use Prim.Native.Nat.{ℕ, ◌+◌}
use native.Mathlib.Omega.{arith}
use reckon.Common.Tests.{if◌then◌else◌, Bool-cases}
use reckon.Common.Lists.{All}

-- The order in which a comparison lists its elements: "not before" is transitive.
pub record IsOrder {A : Type 0} (before : A → A → Bool) : Type 0 where
  pub asymm : (a b : A) → before a b ≡ true → before b a ≡ false
  pub trans : (a b c : A) → before b a ≡ false → before c b ≡ false → before c a ≡ false

abbrev pub total : {A : Type 0} → (A → ℕ) → List A → ℕ
total f [] = 0
total f (x ∷ xs) = f x + total f xs

module _ {A : Type 0} (before : A → A → Bool) where
  -- `x` goes ahead of the first element that is not before it.
  unfoldable pub insert_by : A → List A → List A
  insert_by x [] = x ∷ []
  insert_by x (y ∷ ys) = let rest = insert_by x ys in if before y x then y ∷ rest else x ∷ y ∷ ys

  unfoldable pub sort_by : List A → List A
  unfolding insert_by
  sort_by [] = []
  sort_by (x ∷ xs) = insert_by x (sort_by xs)

  insert_by-perm : (x : A) (ys : List A) → Perm (insert_by x ys) (x ∷ ys)
  unfolding insert_by
  insert_by-perm x [] = Perm.refl (x ∷ [])
  insert_by-perm x (y ∷ ys) = elim (Bool-cases (before y x)) [
    | inl t ↦ rw t (Perm.trans (Perm.cons y (insert_by-perm x ys)) (Perm.swap x y ys))
    | inr f ↦ rw f (Perm.refl (x ∷ y ∷ ys))
  ]

  -- Sorting loses nothing and adds nothing.
  pub sort_by-perm : (xs : List A) → Perm (sort_by xs) xs
  unfolding sort_by
  sort_by-perm [] = Perm.refl []
  sort_by-perm (x ∷ xs) = Perm.trans (insert_by-perm x (sort_by xs)) (Perm.cons x (sort_by-perm xs))

  -- No element stands before one that comes ahead of it.
  abbrev pub IsSorted : List A → Type 0
  IsSorted [] = Unit
  IsSorted (x ∷ xs) = All (λ y. before y x ≡ false) xs × IsSorted xs

  insert_by-All : (P : A → Type 0) (x : A) (ys : List A) → P x → All P ys → All P (insert_by x ys)
  unfolding insert_by
  insert_by-All P x [] h hs = (h, tt)
  insert_by-All P x (y ∷ ys) h (k, ks) = elim (Bool-cases (before y x)) [
    | inl t ↦ rw t (k, insert_by-All P x ys h ks)
    | inr f ↦ rw f (h, (k, ks))
  ]

  pub sort_by-All : (P : A → Type 0) (xs : List A) → All P xs → All P (sort_by xs)
  unfolding sort_by
  sort_by-All P [] h = tt
  sort_by-All P (x ∷ xs) (h, hs) = insert_by-All P x (sort_by xs) h (sort_by-All P xs hs)

  module _ (order : IsOrder before) where
    not_before :
        (x y : A) (ys : List A)
        → before y x ≡ false
        → All (λ z. before z y ≡ false) ys
        → All (λ z. before z x ≡ false) ys
    not_before x y [] h k = tt
    not_before x y (z ∷ zs) h (k, ks) = (order.trans x y z h k, not_before x y zs h ks)

    insert_by-IsSorted : (x : A) (ys : List A) → IsSorted ys → IsSorted (insert_by x ys)
    unfolding insert_by
    insert_by-IsSorted x [] h = (tt, tt)
    insert_by-IsSorted x (y ∷ ys) (h, hs) = elim (Bool-cases (before y x)) [
      | inl t ↦ rw t (
        insert_by-All (λ z. before z y ≡ false) x ys (order.asymm y x t) h,
        insert_by-IsSorted x ys hs,
      )
      | inr f ↦ rw f ((f, not_before x y ys f h), (h, hs))
    ]

    pub sort_by-IsSorted : (xs : List A) → IsSorted (sort_by xs)
    unfolding sort_by
    sort_by-IsSorted [] = tt
    sort_by-IsSorted (x ∷ xs) = insert_by-IsSorted x (sort_by xs) (sort_by-IsSorted xs)

  insert_by-total : (f : A → ℕ) (x : A) (ys : List A) → total f (insert_by x ys) ≡ f x + total f ys
  unfolding insert_by
  insert_by-total f x [] = refl
  insert_by-total f x (y ∷ ys) = elim (Bool-cases (before y x)) [
    | inl t ↦ rw t (omega (arith, insert_by-total f x ys))
    | inr r ↦ rw r
  ]

  -- A total over the list does not depend on its order.
  pub sort_by-total : (f : A → ℕ) (xs : List A) → total f (sort_by xs) ≡ total f xs
  unfolding sort_by
  sort_by-total f [] = refl
  sort_by-total f (x ∷ xs) =
      insert_by-total f x (sort_by xs) ∙ ap (λ n. f x + n) (sort_by-total f xs)
