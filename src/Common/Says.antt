-- ===== src/Common/Says.antt =====
-- What a Boolean test says, as a statement of its own, and the best of a list told by such statements.
use mathlib.Core.Path.{◌≡◌, refl}
use mathlib.Core.Logic.{◌⊎◌, inl, inr, ◌↔◌}
use mathlib.Core.Bool.{Bool, true, false, not, ◌&&◌, ◌||◌}
use mathlib.Core.Option.{Option, none, some}
use mathlib.Core.List.{List, [], ◌∷◌, ◌++◌}
use reckon.Common.Tests.{if◌then◌else◌, is_some}
use reckon.Common.Lists.{All}
use reckon.Common.Strings.{Text}
use reckon.Common.Best.{Loses, Yields, Picks}

abbrev pub Says : Bool → Type 0 → Type 0
Says b P = (b ≡ true) ↔ P

pub Says-and : {P Q : Type 0} (a b : Bool) → Says a P → Says b Q → Says (a && b) (P × Q)
Says-and true b h k = (λ e. (h.0 refl, k.0 e), λ pq. k.1 pq.1)
Says-and false b h k = (λ e. absurd (cc), λ pq. h.1 pq.0)

pub Says-or : {P Q : Type 0} (a b : Bool) → Says a P → Says b Q → Says (a || b) (P ⊎ Q)
Says-or true b h k = (λ e. inl (h.0 refl), λ pq. refl)
Says-or false b h k =
    (λ e. inr (k.0 e), λ pq. elim pq [ inl p ↦ absurd (let x = h.1 p in cc) | inr q ↦ k.1 q ])

pub Says-if :
    {P Q : Type 0} (a b : Bool) → Says a P → Says b Q → Says (if a then true else b) (P ⊎ Q)
Says-if true b h k = Says-or true b h k
Says-if false b h k = Says-or false b h k

pub Says-not : (a : Bool) → Says (not a) (a ≡ false)
Says-not true = (λ e. absurd cc, λ e. absurd cc)
Says-not false = (λ e. refl, λ e. refl)

pub Says-no : {P : Type 0} (b : Bool) → Says b P → b ≡ false → ¬ P
Says-no b h e p = let x = h.1 p in cc

pub Says-itself : (b : Bool) → Says b (b ≡ true)
Says-itself b = (λ e. e, λ e. e)

-- One of two that has an owner, where the other is everyone's.
abbrev pub OwnFirst : Option Text → Option Text → Type 0
OwnFirst a b = (is_some a ≡ true) × (b ≡ none)

-- Both have an owner, or neither has.
abbrev pub AlikeOwned : Option Text → Option Text → Type 0
AlikeOwned a b = is_some a ≡ is_some b

-- The best of a list, the first of its like: it fits, and what else fits does not outrank it.
module _ {A : Type 0} (Fits : A → Type 0) (Outranks : A → A → Type 0) where
  abbrev pub Foremost : List A → Option A → Type 0
  Foremost xs none = All (λ x. ¬ Fits x) xs
  Foremost xs (some r) =
      (before : List A) × (after : List A) × (xs ≡ before ++ r ∷ after)
      × Fits r
      × All (λ x. (¬ Fits x) ⊎ Outranks r x) before
      × All (λ x. (¬ Fits x) ⊎ (¬ Outranks x r)) after

module _ {A : Type 0} {fits : A → Bool} {beats : A → A → Bool} {Fits : A → Type 0}
    {Outranks : A → A → Type 0} (fit : (x : A) → Says (fits x) (Fits x))
    (rank : (x y : A) → Says (beats x y) (Outranks x y)) where
  All-unfit : (xs : List A) → All (λ x. fits x ≡ false) xs → All (λ x. ¬ Fits x) xs
  All-unfit [] h = tt
  All-unfit (x ∷ xs) (h, hs) = (Says-no (fits x) (fit x) h, All-unfit xs hs)

  All-Loses :
      (r : A) (xs : List A) → All (Loses fits beats r) xs → All (λ x. (¬ Fits x) ⊎ Outranks r x) xs
  All-Loses r [] h = tt
  All-Loses r (x ∷ xs) (inl n, hs) = (inl (Says-no (fits x) (fit x) n), All-Loses r xs hs)
  All-Loses r (x ∷ xs) (inr w, hs) = (inr ((rank r x).0 w), All-Loses r xs hs)

  All-Yields :
      (r : A) (xs : List A)
      → All (Yields fits beats r) xs
      → All (λ x. (¬ Fits x) ⊎ (¬ Outranks x r)) xs
  All-Yields r [] h = tt
  All-Yields r (x ∷ xs) (inl n, hs) = (inl (Says-no (fits x) (fit x) n), All-Yields r xs hs)
  All-Yields r (x ∷ xs) (inr l, hs) = (inr (Says-no (beats x r) (rank x r) l), All-Yields r xs hs)

  -- A pick by tests is the best by what the tests say.
  pub Foremost-Picks :
      (xs : List A) (o : Option A) → Picks fits beats xs o → Foremost Fits Outranks xs o
  Foremost-Picks xs none h = All-unfit xs h
  Foremost-Picks xs (some r) (before, after, e, f, ls, ys) =
      (before, after, e, (fit r).0 f, All-Loses r before ls, All-Yields r after ys)
