-- ===== src/Common/Best.antt =====
-- The loops that keep the best element met so far: the first of the highest rank.
use mathlib.Core.List.{append_assoc, append-nil}
use mathlib.Core.Path.{◌≡◌, refl, sym, ap, ◌∙◌, subst}
use mathlib.Core.Logic.{◌⊎◌, inl, inr}
use mathlib.Core.Bool.{Bool, true, false, ◌&&◌, ◌||◌}
use mathlib.Core.Option.{Option, none, some}
use mathlib.Core.List.{List, [], ◌∷◌, ◌++◌}
use Prim.Native.Nat.{ℕ}
use native.Mathlib.Omega.{arith}
use reckon.Common.Tests.{ltb, ◌==◌, if◌then◌else◌, Bool-cases}
use reckon.Common.Lists.{All, All-append}

module _ {A : Type 0} (fits : A → Bool) (beats : A → A → Bool) where
  -- The best so far, once `x` is met.
  unfoldable pub better_of : A → Option A → Option A
  better_of x none = some x
  better_of x (some b) = if beats x b then some x else some b

  -- for (const x of xs) { if (!fits(x)) continue; if (!best || beats(x, best)) best = x; }
  unfoldable pub pick : Option A → List A → Option A
  unfolding better_of
  pick best [] = best
  pick best (x ∷ xs) = pick (if fits x then better_of x best else best) xs

  -- What stands before the pick loses to it, and what stands after it does not win.
  abbrev pub Loses : A → A → Type 0
  Loses r x = (fits x ≡ false) ⊎ (beats r x ≡ true)

  abbrev pub Yields : A → A → Type 0
  Yields r x = (fits x ≡ false) ⊎ (beats x r ≡ false)

  -- `r` is the first of the highest rank among those that fit.
  abbrev pub IsBest : List A → A → Type 0
  IsBest xs r =
      (before : List A) × (after : List A) × (xs ≡ before ++ r ∷ after)
      × (fits r ≡ true)
      × All (Loses r) before
      × All (Yields r) after

  -- What a loop answers: the best, or that none fits.
  abbrev pub Picks : List A → Option A → Type 0
  Picks xs none = All (λ x. fits x ≡ false) xs
  Picks xs (some r) = IsBest xs r

-- A strict rank: one of two does not beat the other, and not winning is transitive.
pub record IsRank {A : Type 0} (beats : A → A → Bool) : Type 0 where
  pub asymm : (a b : A) → beats a b ≡ true → beats b a ≡ false
  pub trans : (a b c : A) → beats b a ≡ false → beats c b ≡ false → beats c a ≡ false

module _ {A : Type 0} (fits : A → Bool) {beats : A → A → Bool} (rank : IsRank beats) where
  open rank use {asymm, trans}

  beats_over : (a b c : A) → beats c b ≡ true → beats a b ≡ false → beats c a ≡ true
  beats_over a b c h k = elim (Bool-cases (beats c a)) [
    | inl t ↦ t
    | inr f ↦ let no : beats c b ≡ false = trans b a c k f in cc
  ]

  Loses-over :
      (x b : A) (xs : List A)
      → beats x b ≡ true
      → All (Loses fits beats b) xs
      → All (Loses fits beats x) xs
  Loses-over x b [] h l = tt
  Loses-over x b (y ∷ ys) h (inl f, ls) = (inl f, Loses-over x b ys h ls)
  Loses-over x b (y ∷ ys) h (inr w, ls) =
      (inr (beats_over y b x h (asymm b y w)), Loses-over x b ys h ls)

  Yields-over :
      (x b : A) (xs : List A)
      → beats x b ≡ true
      → All (Yields fits beats b) xs
      → All (Loses fits beats x) xs
  Yields-over x b [] h l = tt
  Yields-over x b (y ∷ ys) h (inl f, ls) = (inl f, Yields-over x b ys h ls)
  Yields-over x b (y ∷ ys) h (inr w, ls) = (inr (beats_over y b x h w), Yields-over x b ys h ls)

  none_fit : (xs : List A) (x : A) → All (λ y. fits y ≡ false) xs → All (Loses fits beats x) xs
  none_fit [] x h = tt
  none_fit (y ∷ ys) x (h, hs) = (inl h, none_fit ys x hs)

  snoc :
      (seen : List A) (b x : A)
      → Yields fits beats b x
      → IsBest fits beats seen b
      → IsBest fits beats (seen ++ x ∷ []) b
  snoc seen b x y (before, after, e, f, ls, ys) = (
    before,
    after ++ x ∷ [],
    ap (λ l. l ++ x ∷ []) e ∙ append_assoc before (b ∷ after) (x ∷ []),
    f,
    ls,
    All-append (Yields fits beats b) after (x ∷ []) ys (y, tt),
  )

  won :
      (seen : List A) (b x : A)
      → fits x ≡ true
      → beats x b ≡ true
      → IsBest fits beats seen b
      → IsBest fits beats (seen ++ x ∷ []) x
  won seen b x f h (before, after, e, _, ls, ys) = (
    seen,
    [],
    refl,
    f,
    subst (All (Loses fits beats x)) (sym e) (
        All-append (Loses fits beats x) before (b ∷ after) (Loses-over x b before h ls)
          (inr h, Yields-over x b after h ys)),
    tt,
  )

  pick_step :
      (seen : List A) (best : Option A) (x : A)
      → Picks fits beats seen best
      → Picks fits beats (seen ++ x ∷ []) (if fits x then better_of fits beats x best else best)
  pick_step seen none x h = elim (Bool-cases (fits x)) [
    | inl t ↦ rw t (unfold better_of in (seen, [], refl, t, none_fit seen x h, tt))
    | inr f ↦ rw f (All-append (λ y. fits y ≡ false) seen (x ∷ []) h (f, tt))
  ]
  pick_step seen (some b) x h = elim (Bool-cases (fits x)) [
    | inr f ↦ rw f (snoc seen b x (inl f) h)
    | inl t ↦ rw t (
        unfold better_of in
        (elim (Bool-cases (beats x b)) [
          | inl w ↦ rw w (won seen b x t w h)
          | inr l ↦ rw l (snoc seen b x (inr l) h)
        ]))
  ]

  pick_from :
      (seen : List A) (best : Option A) (xs : List A)
      → Picks fits beats seen best
      → Picks fits beats (seen ++ xs) (pick fits beats best xs)
  unfolding pick
  pick_from seen best [] h = rw (append-nil seen) h
  pick_from seen best (x ∷ xs) h =
      subst
        (λ l.
          Picks fits beats l
            (pick fits beats (if fits x then better_of fits beats x best else best) xs))
        (append_assoc seen (x ∷ []) xs) (pick_from (seen ++ x ∷ []) _ xs (pick_step seen best x h))

  -- The loop answers the first of the highest rank, or that none fits.
  pub pick-Picks : (xs : List A) → Picks fits beats xs (pick fits beats none xs)
  pick-Picks xs = pick_from [] none xs tt

-- A rank by a number first, and by another rank between equals.
module _ {A : Type 0} (key : A → ℕ) (later : A → A → Bool) where
  unfoldable pub by_key : A → A → Bool
  by_key a b = ltb (key b) (key a) || ((key a == key b) && later a b)

  pub by_key-IsRank : IsRank later → IsRank by_key
  unfolding by_key
  by_key-IsRank r = record {
    asymm = λ a b h. ground (arith, r.asymm a b);
    trans = λ a b c h k. ground (arith, r.trans a b c);
  }
