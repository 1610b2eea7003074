-- ===== src/Routes/Bounds.antt =====
-- lib/server/routes.ts: no more than 500 answers are kept.
use reckon.Common.{
  ℕ, suc, ◌-◌, ◌≤◌, inl, inr, Bool, Bool-cases, not, ltb, leb, ◌==◌, if_cases, Option, none, some,
  List, [], ◌∷◌, length, Text, text_eq, text_eq_refl, arith,
}
use reckon.Common.Maps.{Map, get, put, delete}
use reckon.Routes.{
  Waypoint, Kept, Host, make_room, keep, keep_all, or_ask, fresh, route_miles, ask_pieces,
}

length-put-le : {V : Type 0} (k : Text) (v : V) (m : Map V) → length (put k v m) ≤ suc (length m)
unfolding put
length-put-le k v [] = omega arith
length-put-le k v ((j, w) ∷ m) = elim (Bool-cases (text_eq j k)) [
  | inl e ↦ rw e (omega arith)
  | inr e ↦ rw e (omega (arith, length-put-le k v m))
]

length-delete-le : {V : Type 0} (k : Text) (m : Map V) → length (delete k m) ≤ length m
unfolding delete
length-delete-le k [] = omega arith
length-delete-le k ((j, w) ∷ m) = elim (Bool-cases (text_eq j k)) [
  | inl e ↦ rw e (omega (arith, length-delete-le k m))
  | inr e ↦ rw e (omega (arith, length-delete-le k m))
]

delete-head-le :
    {V : Type 0} (k : Text) (v : V) (m : Map V) → length (delete k ((k, v) ∷ m)) ≤ length m
unfolding delete
delete-head-le k v m = rw (text_eq_refl k) (length-delete-le k m)

module _ (host : Host) where
  length-make_room-le :
      {A : Type 0} (m : Map (Kept A)) → length m ≤ 500 → length (make_room host m) ≤ 499
  unfolding make_room
  length-make_room-le [] h = omega arith
  length-make_room-le ((k, a) ∷ m) h = elim (Bool-cases (leb 500 (suc (length m)))) [
    | inl full ↦ rw full (omega (arith, delete-head-le k a m))
    | inr room ↦ rw room (ground arith)
  ]

  length-keep-le :
      {A : Type 0} (k : Text) (a : A) (now : ℕ) (m : Map (Kept A))
      → length m ≤ 500
      → length (keep host k a now m) ≤ 500
  unfolding keep
  length-keep-le k a now m h = omega (
    arith,
    length-put-le k (record { answer = a; at = now }) (make_room host m),
    length-make_room-le m h,
  )

  keep_all-le :
      (points : List Waypoint) (now : ℕ) (answer : Option (List Text))
      (asked : Map (Kept (List Text)))
      → length asked ≤ 500
      → length (keep_all host points now answer asked).1 ≤ 500
  unfolding keep_all
  keep_all-le points now none asked h = h
  keep_all-le points now (some miles) asked h =
      if_cases (λ (r : Option (List Text) × Map (Kept (List Text))). length r.1 ≤ 500)
        (length miles == length points - 1) _ _
        (λ _. length-keep-le (host.stringify points) miles now asked h) (λ _. h)

  or_ask-le :
      {A : Type 0} (kept : Option A) (new : Option A × Map (Kept A)) (before : Map (Kept A))
      → length before ≤ 500
      → length new.1 ≤ 500
      → length (or_ask host kept new before).1 ≤ 500
  unfolding or_ask
  or_ask-le none new before h k = k
  or_ask-le (some a) new before h k = h

  -- Whatever is asked, with the key or without, and whatever Google answers, no
  -- more than 500 answers are kept if no more were.
  pub route_miles-le :
      (has_key : Bool) (points : List Waypoint) (now later : ℕ) (asked : Map (Kept (List Text)))
      → length asked ≤ 500
      → length (route_miles host has_key points now later asked).1 ≤ 500
  unfolding route_miles
  route_miles-le has_key points now later asked h =
      if_cases (λ (r : Option (List Text) × Map (Kept (List Text))). length r.1 ≤ 500) (not has_key)
        _ _ (λ _. h)
        (λ _.
          if_cases (λ (r : Option (List Text) × Map (Kept (List Text))). length r.1 ≤ 500)
            (ltb (length points) 2) _ _ (λ _. h)
            (λ _.
              or_ask-le (fresh host now (get (host.stringify points) asked)) _ asked h
                (keep_all-le points later (ask_pieces host (length points) points) asked h)))
