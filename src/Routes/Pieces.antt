-- ===== src/Routes/Pieces.antt =====
-- lib/server/routes.ts: asked in pieces, a trip has the miles of each of its drives, each once.
use reckon.Common.{
  ℕ, zero, suc, ◌-◌, ◌≤◌, ◌<◌, ◌≡◌, refl, sym, ap, ◌∙◌, inl, inr, true, false, Bool-cases, ltb,
  lt→ltb, ==_iff, Option, none, some, List, [], ◌∷◌, ◌++◌, map, take, drop, length, length-drop,
  Text, text_eq_refl, arith,
}
use reckon.Common.Maps.{Map, get, get-put}
use reckon.Routes.{
  Waypoint, GoogleLeg, Leg, Kept, Host, legs_of, one_for_each, read_leg, and_more, ask_pieces,
  keep_all, keep, or_ask, fresh, route_miles, or_zero,
}

-- What is said of each drive between one place and the next.
abbrev pub each_drive : {A : Type 0} → (Waypoint → Waypoint → A) → List Waypoint → List A
each_drive f [] = []
each_drive f (p ∷ []) = []
each_drive f (p ∷ q ∷ ps) = f p q ∷ each_drive f (q ∷ ps)

pub length-each_drive :
    {A : Type 0} (f : Waypoint → Waypoint → A) (ps : List Waypoint)
    → length (each_drive f ps) ≡ length ps - 1
length-each_drive f [] = refl
length-each_drive f (p ∷ []) = refl
length-each_drive f (p ∷ q ∷ ps) = omega (arith, length-each_drive f (q ∷ ps))

map-each_drive :
    {A B : Type 0} (g : A → B) (f : Waypoint → Waypoint → A) (ps : List Waypoint)
    → map g (each_drive f ps) ≡ each_drive (λ p q. g (f p q)) ps
map-each_drive g f [] = refl
map-each_drive g f (p ∷ []) = refl
map-each_drive g f (p ∷ q ∷ ps) = ap (λ xs. g (f p q) ∷ xs) (map-each_drive g f (q ∷ ps))

each_drive-none : {A : Type 0} (f : Waypoint → Waypoint → A) (n : ℕ) → each_drive f (drop n []) ≡ []
each_drive-none f zero = refl
each_drive-none f (suc n) = refl

-- Two pieces that share the place between them have every drive once.
each_drive-split :
    {A : Type 0} (f : Waypoint → Waypoint → A) (n : ℕ) (ps : List Waypoint)
    → each_drive f (take (suc n) ps) ++ each_drive f (drop n ps) ≡ each_drive f ps
each_drive-split f n [] = each_drive-none f n
each_drive-split f zero (p ∷ ps) = refl
each_drive-split f (suc n) (p ∷ []) = each_drive-none f n
each_drive-split f (suc n) (p ∷ q ∷ ps) = ap (λ xs. f p q ∷ xs) (each_drive-split f n (q ∷ ps))

each_drive-few :
    {A : Type 0} (f : Waypoint → Waypoint → A) (ps : List Waypoint)
    → length ps ≤ 1
    → each_drive f ps ≡ []
each_drive-few f [] h = refl
each_drive-few f (p ∷ []) h = refl
each_drive-few f (p ∷ q ∷ ps) h = absurd (omega (arith, h))

length-take-le : (n : ℕ) (ps : List Waypoint) → 2 ≤ n → 2 ≤ length ps → 2 ≤ length (take n ps)
length-take-le zero ps h k = absurd (omega arith)
length-take-le (suc zero) ps h k = absurd (omega arith)
length-take-le (suc (suc n)) [] h k = absurd (omega (arith, k))
length-take-le (suc (suc n)) (p ∷ []) h k = absurd (omega (arith, k))
length-take-le (suc (suc n)) (p ∷ q ∷ ps) h k = omega arith

-- What Google's documentation says of an answer: a leg from each place to the next, for what the leg says.
abbrev pub Answers : Host → (Waypoint → Waypoint → GoogleLeg) → Type 0
Answers host leg =
    (piece : List Waypoint)
    → 2 ≤ length piece
    → host.fetch piece false ≡ some (each_drive leg piece)

module _ (host : Host) (leg : Waypoint → Waypoint → GoogleLeg) (answers : Answers host leg) where
  abbrev pub drive_miles : Waypoint → Waypoint → Text
  drive_miles p q = host.miles_of (or_zero (leg p q).distance_meters)

  legs_of-each :
      (piece : List Waypoint)
      → 2 ≤ length piece
      → legs_of host piece false ≡ some (each_drive (λ p q. read_leg host false (leg p q)) piece)
  unfolding legs_of one_for_each
  legs_of-each piece h =
      rw (answers piece h, map-each_drive (read_leg host false) leg piece)
        (rw ((==_iff _ _).1 (length-each_drive (λ p q. read_leg host false (leg p q)) piece)) refl)

  ask_pieces-each :
      (fuel : ℕ) (points : List Waypoint)
      → length points ≤ fuel
      → ask_pieces host fuel points ≡ some (each_drive drive_miles points)
  unfolding ask_pieces and_more read_leg
  ask_pieces-each zero points h = ap some (sym (each_drive-few drive_miles points (omega arith)))
  ask_pieces-each (suc fuel) points h = elim (Bool-cases (ltb 0 (length points - 1))) [
    | inr few ↦ rw few (ap some (sym (each_drive-few drive_miles points (ground arith))))
    | inl more ↦
        rw
          (
            more,
            legs_of-each (take 12 points) (length-take-le 12 points (omega arith) (ground arith)),
            ask_pieces-each fuel (drop 11 points) (omega (arith, length-drop 11 points)),
          )
          (ap some (
            ap (λ xs. xs ++ each_drive drive_miles (drop 11 points))
              (map-each_drive (λ (l : Leg). host.miles_of l.metres)
                (λ p q. read_leg host false (leg p q)) (take 12 points))
            ∙ each_drive-split drive_miles 11 points))
  ]

  -- What a trip is told, and what is kept of it.
  abbrev pub told :
      List Waypoint → ℕ → Map (Kept (List Text)) → Option (List Text) × Map (Kept (List Text))
  told points later asked = (
    some (each_drive drive_miles points),
    keep host (host.stringify points) (each_drive drive_miles points) later asked,
  )

  keep_all-each :
      (points : List Waypoint) (later : ℕ) (asked : Map (Kept (List Text)))
      → keep_all host points later (some (each_drive drive_miles points)) asked
        ≡ told points later asked
  unfolding keep_all
  keep_all-each points later asked = rw ((==_iff _ _).1 (length-each_drive drive_miles points)) refl

  fresh-keep :
      (points : List Waypoint) (later again : ℕ) (asked : Map (Kept (List Text)))
      → again - later < 86400000
      → fresh host again (get (host.stringify points) (told points later asked).1)
        ≡ some (each_drive drive_miles points)
  unfolding keep fresh
  fresh-keep points later again asked h =
      rw
        (
          get-put (host.stringify points) (host.stringify points) _ _,
          text_eq_refl (host.stringify points),
        )
        (let young : ltb (again - later) 86400000 ≡ true = lt→ltb (again - later) 86400000 h in
          rw young refl)

  -- With Google answering each request with a leg from each place to the next,
  -- and the key there, a trip of two places or more, of which nothing less than a
  -- day old is kept, is told the miles of each of its drives once and in order, as
  -- Google says them of that drive alone, however many pieces it is asked in;
  -- asked again within a day, it is told the same and nothing kept changes.
  pub route_miles-each :
      (points : List Waypoint) (now later again last : ℕ) (asked : Map (Kept (List Text)))
      → 2 ≤ length points
      → fresh host now (get (host.stringify points) asked) ≡ none
      → again - later < 86400000
      → (route_miles host true points now later asked ≡ told points later asked)
        × (route_miles host true points again last (told points later asked).1
            ≡ told points later asked)
  unfolding route_miles or_ask
  route_miles-each points now later again last asked h none_kept soon =
      let many : ltb (length points) 2 ≡ false = ground (arith, h) in
      (
        rw (many, none_kept, ask_pieces-each (length points) points (omega arith))
            (keep_all-each points later asked),
        rw (many, fresh-keep points later again asked soon) refl,
      )
