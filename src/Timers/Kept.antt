-- ===== src/Timers/Kept.antt =====
-- lib/timers.ts: no timer is lost, and each has an id of its own.
use mathlib.Core.List.{Perm}
use reckon.Common.{
  ℕ, ◌≤◌, ◌<◌, ◌≡◌, refl, ap, ◌∙◌, inl, inr, ◌⊎◌, true, false, not, Bool-cases, ltb, ltb→lt, none,
  some, List, [], ◌∷◌, ◌++◌, map, filter, any, All, Text, text_eq, text_eq_refl, eq_of_text_eq,
  arith,
}
use reckon.Common.Sorting.{IsOrder, IsSorted, sort_by-perm, sort_by-IsSorted}
use reckon.Timers.{
  Running, Stored, timer, timers_of, read, write, starts_before, running, begun, start, drop, moved,
  move_start,
}

starts_before-IsOrder : IsOrder starts_before
unfolding starts_before
starts_before-IsOrder = record { asymm = λ a b h. ground arith; trans = λ a b c h k. ground arith }

-- What is listed: the timers stored, the earliest started first.
abbrev pub Lists : List Running → List Running → Type 0
Lists shown ts = Perm shown ts × IsSorted starts_before shown

-- What is listed is what is stored, and earliest first.
pub running-Lists : (s : Stored) → Lists (running s) (read s)
unfolding running
running-Lists s = (
  sort_by-perm starts_before (read s),
  sort_by-IsSorted starts_before starts_before-IsOrder (read s),
)

timers_of-map : (ts : List Running) → timers_of (map timer ts) ≡ ts
unfolding timers_of
timers_of-map [] = refl
timers_of-map (t ∷ ts) = ap (◌∷◌ t) (timers_of-map ts)

read-write : (s : Stored) (ts : List Running) → read (write false s ts) ≡ ts
unfolding read write
read-write s ts = timers_of-map ts

-- No timer of that id.
abbrev pub Fresh : Text → List Running → Type 0
Fresh id ts = All (λ t. text_eq t.id id ≡ false) ts

-- Ids of their own, so that a stop cannot end another timer.
abbrev pub Distinct : List Running → Type 0
Distinct [] = Unit
Distinct (t ∷ ts) = Fresh t.id ts × Distinct ts

text_eq_comm : (a b : Text) → text_eq a b ≡ false → text_eq b a ≡ false
text_eq_comm a b h = elim (Bool-cases (text_eq b a)) [
  | inr f ↦ f
  | inl t ↦ let e : text_eq a b ≡ true = rw (eq_of_text_eq b a t) (text_eq_refl a) in cc
]

Fresh-append :
    (id : Text) (ts : List Running) (t : Running)
    → Fresh id ts
    → text_eq t.id id ≡ false
    → Fresh id (ts ++ t ∷ [])
Fresh-append id [] t h k = (k, tt)
Fresh-append id (u ∷ us) t (h, hs) k = (h, Fresh-append id us t hs k)

Distinct-append :
    (ts : List Running) (t : Running) → Distinct ts → Fresh t.id ts → Distinct (ts ++ t ∷ [])
Distinct-append [] t d f = (tt, tt)
Distinct-append (u ∷ us) t (d, ds) (f, fs) =
    (Fresh-append u.id us t d (text_eq_comm u.id t.id f), Distinct-append us t ds fs)

Fresh-filter :
    (id gone : Text) (ts : List Running)
    → Fresh id ts
    → Fresh id (filter (λ t. not (text_eq t.id gone)) ts)
Fresh-filter id gone [] h = tt
Fresh-filter id gone (u ∷ us) (h, hs) = elim (Bool-cases (text_eq u.id gone)) [
  | inl t ↦ rw t (Fresh-filter id gone us hs)
  | inr f ↦ rw f (h, Fresh-filter id gone us hs)
]

Distinct-filter :
    (gone : Text) (ts : List Running)
    → Distinct ts
    → Distinct (filter (λ t. not (text_eq t.id gone)) ts)
Distinct-filter gone [] h = tt
Distinct-filter gone (u ∷ us) (h, hs) = elim (Bool-cases (text_eq u.id gone)) [
  | inl t ↦ rw t (Distinct-filter gone us hs)
  | inr f ↦ rw f (Fresh-filter u.id gone us h, Distinct-filter gone us hs)
]

gone-Fresh :
    (gone : Text) (ts : List Running) → Fresh gone (filter (λ t. not (text_eq t.id gone)) ts)
gone-Fresh gone [] = tt
gone-Fresh gone (u ∷ us) = elim (Bool-cases (text_eq u.id gone)) [
  | inl t ↦ rw t (gone-Fresh gone us)
  | inr f ↦ rw f (f, gone-Fresh gone us)
]

moved-id : (id : Text) (at : ℕ) (t : Running) → (moved id at t).id ≡ t.id
unfolding moved
moved-id id at t = elim (Bool-cases (text_eq t.id id)) [ inl e ↦ rw e refl | inr e ↦ rw e refl ]

Fresh-moved :
    (own id : Text) (at : ℕ) (ts : List Running) → Fresh own ts → Fresh own (map (moved id at) ts)
Fresh-moved own id at [] h = tt
Fresh-moved own id at (u ∷ us) (h, hs) =
    (ap (λ x. text_eq x own) (moved-id id at u) ∙ h, Fresh-moved own id at us hs)

Distinct-moved :
    (id : Text) (at : ℕ) (ts : List Running) → Distinct ts → Distinct (map (moved id at) ts)
Distinct-moved id at [] h = tt
Distinct-moved id at (u ∷ us) (h, hs) =
    (rw (moved-id id at u) (Fresh-moved u.id id at us h), Distinct-moved id at us hs)

-- Where the store can be written and the ids in it are distinct, starting a timer under a new id
-- leaves every timer that was running, adds the one, started now, keeps the ids distinct, and lists
-- them all, earliest first.
pub start-Lists :
    (id : Text) (now : ℕ) (t : Running) (s : Stored)
    → Distinct (read s)
    → Fresh id (read s)
    → (read (start false id now t s).0 ≡ read s ++ begun id now t ∷ [])
      × Distinct (read (start false id now t s).0)
      × Lists (start false id now t s).1 (read (start false id now t s).0)
unfolding start
start-Lists id now t s d f =
    let e = read-write s (read s ++ begun id now t ∷ []) in
    (
      e,
      rw e (Distinct-append (read s) (begun id now t) d f),
      running-Lists (write false s (read s ++ begun id now t ∷ [])),
    )

-- Where the store can be written and the ids in it are distinct, dropping a timer leaves none of its
-- id and every other as it was, in the order stored, and lists them earliest first.
pub drop-Lists :
    (id : Text) (s : Stored)
    → Distinct (read s)
    → (read (drop false id s).0 ≡ filter (λ t. not (text_eq t.id id)) (read s))
      × Fresh id (read (drop false id s).0)
      × Distinct (read (drop false id s).0)
      × Lists (drop false id s).1 (read (drop false id s).0)
unfolding drop
drop-Lists id s d =
    let e = read-write s (filter (λ t. not (text_eq t.id id)) (read s)) in
    (
      e,
      rw e (gone-Fresh id (read s)),
      rw e (Distinct-filter id (read s) d),
      running-Lists (write false s (filter (λ t. not (text_eq t.id id)) (read s))),
    )

-- One timer after a move: the one of the id starts then and is else the same, and any other is as it was.
abbrev pub IsMoved : Text → ℕ → Running → Running → Type 0
IsMoved id at t u =
    ((t.id ≡ id)
      × (u ≡ record {
        id = t.id;
        started_at = at;
        crew = t.crew;
        worked_by = t.worked_by;
        crew_ids = t.crew_ids;
        entity_id = t.entity_id;
        site_id = t.site_id;
        service_id = t.service_id;
        billable = t.billable;
        note = t.note;
      }))
    ⊎ ((text_eq t.id id ≡ false) × (u ≡ t))

-- The timers after a move, one for one.
abbrev pub AreMoved : Text → ℕ → List Running → List Running → Type 0
AreMoved id at [] [] = Unit
AreMoved id at [] (u ∷ us) = ⊥
AreMoved id at (t ∷ ts) [] = ⊥
AreMoved id at (t ∷ ts) (u ∷ us) = IsMoved id at t u × AreMoved id at ts us

moved-IsMoved : (id : Text) (at : ℕ) (t : Running) → IsMoved id at t (moved id at t)
unfolding moved
moved-IsMoved id at t = elim (Bool-cases (text_eq t.id id)) [
  | inl e ↦ inl (eq_of_text_eq t.id id e, rw e refl)
  | inr n ↦ inr (n, rw n refl)
]

map-AreMoved : (id : Text) (at : ℕ) (ts : List Running) → AreMoved id at ts (map (moved id at) ts)
map-AreMoved id at [] = tt
map-AreMoved id at (t ∷ ts) = (moved-IsMoved id at t, map-AreMoved id at ts)

-- Where the store can be written and the ids in it are distinct, moving a start to a moment that is
-- not past, or of no timer, changes nothing and says so; to one that is, of a timer there is, it stores
-- as many timers in the same order, with distinct ids: those of that id start at the moment and are else
-- the same, every other is as it was; and it lists what is stored, earliest first.
pub move_start-AreMoved :
    (id : Text) (at now : ℕ) (s : Stored)
    → Distinct (read s)
    → ((move_start false id at now s ≡ (s, none))
        × ((now ≤ at) ⊎ (any (λ t. text_eq t.id id) (read s) ≡ false)))
      ⊎ ((after : Stored) × (shown : List Running) × (move_start false id at now s
            ≡ (after, some shown))
          × (at < now)
          × (any (λ t. text_eq t.id id) (read s) ≡ true)
          × AreMoved id at (read s) (read after)
          × Distinct (read after)
          × Lists shown (read after))
unfolding move_start
move_start-AreMoved id at now s d = elim (Bool-cases (ltb at now)) [
  | inr late ↦ inl (rw late refl, inl (ground arith))
  | inl past ↦ elim (Bool-cases (any (λ t. text_eq t.id id) (read s))) [
    | inr absent ↦ inl (rw past (rw absent refl), inr absent)
    | inl there ↦
        let after = write false s (map (moved id at) (read s)) in
        let e = read-write s (map (moved id at) (read s)) in
        inr (
          after,
          running after,
          rw past (rw there refl),
          ltb→lt at now past,
          there,
          rw e (map-AreMoved id at (read s)),
          rw e (Distinct-moved id at (read s) d),
          running-Lists after,
        )
  ]
]
