-- ===== src/Entries/Hits.antt =====
-- lib/server/valuation/entries.ts, agreementFor: which agreements an entry could fall under, and by which line.
use reckon.Common.{
  ◌≡◌, refl, subst, ◌⊎◌, inl, inr, Bool, true, false, not, ◌&&◌, Bool-cases, is_some, Option, none,
  some, List, [], ◌∷◌, find, Text, text_eq, text_eq_iff, text_lt,
}
use reckon.Common.Says.{Says, Says-and, Says-not, Says-no}
use reckon.Pricing.{id_eq}
use reckon.Pricing.Prices.{id_eq-Says}
use reckon.Entries.{Entry, Covers, Agreement, Hit, runs_on, is_held, to_hit, hit_of}

-- Some line names the service.
abbrev pub Names : Text → List Covers → Type 0
Names service_id [] = ⊥
Names service_id (s ∷ ss) = (s.service_id ≡ service_id) ⊎ Names service_id ss

-- The line is the first that names the service.
abbrev pub FirstNamed : Text → List Covers → Covers → Type 0
FirstNamed service_id [] c = ⊥
FirstNamed service_id (s ∷ ss) c =
    ((s.service_id ≡ service_id) × (c ≡ s))
    ⊎ ((¬ (s.service_id ≡ service_id)) × FirstNamed service_id ss c)

-- The client's, whole or of the entry's site.
abbrev pub IsTheirs : Text → Option Text → Agreement → Type 0
IsTheirs client site a =
    (a.entity_id ≡ client)
    × ((a.site_id ≡ none) ⊎ ((is_some a.site_id ≡ true) × (a.site_id ≡ site)))

-- Started by the day, and not ended before it.
abbrev pub IsRunning : Text → Agreement → Type 0
IsRunning day a =
    (text_lt day a.starts_on ≡ false)
    × ((a.ends_on ≡ none) ⊎ ((last : Text) × (a.ends_on ≡ some last) × (text_lt last day ≡ false)))

-- An agreement that an entry of the client could fall under.
abbrev pub Covering : Text → Entry → Agreement → Type 0
Covering client e a =
    (IsTheirs client e.site_id a × IsRunning e.worked_on a) × Names e.service_id a.services

find-Says :
    (service_id : Text) (ss : List Covers)
    → Says (is_some (find (λ x. text_eq x.service_id service_id) ss)) (Names service_id ss)
find-Says service_id [] = (λ e. absurd cc, λ n. elim n [ ])
find-Says service_id (s ∷ ss) = elim (Bool-cases (text_eq s.service_id service_id)) [
  | inl y ↦ rw y (λ e. inl ((text_eq_iff s.service_id service_id).0 y), λ n. refl)
  | inr n ↦
      let (there, back) = find-Says service_id ss in
      rw n (
        λ e. inr (there e),
        λ k. elim k [
          | inl y ↦ absurd (Says-no _ (text_eq_iff s.service_id service_id) n y)
          | inr k ↦ back k
        ],
      )
]

find-FirstNamed :
    (service_id : Text) (ss : List Covers) (c : Covers)
    → find (λ x. text_eq x.service_id service_id) ss ≡ some c
    → FirstNamed service_id ss c
find-FirstNamed service_id [] c e = absurd cc
find-FirstNamed service_id (s ∷ ss) c e = elim (Bool-cases (text_eq s.service_id service_id)) [
  | inl y ↦ inl ((text_eq_iff s.service_id service_id).0 y, let e' = rw y at e in cc)
  | inr n ↦ inr (
    Says-no _ (text_eq_iff s.service_id service_id) n,
    find-FirstNamed service_id ss c (rw n at e),
  )
]

is_held-Says :
    (client : Text) (site : Option Text) (a : Agreement)
    → Says (is_held client site a) (IsTheirs client site a)
unfolding is_held
is_held-Says client site a = Says-and _ _ (text_eq_iff a.entity_id client) (whose a.site_id)
  where
    whose :
        (o : Option Text)
        → Says
            (elim o [ none ↦ true | some own ↦ id_eq (some own) site ])
            ((o ≡ none) ⊎ ((is_some o ≡ true) × (o ≡ site)))
    whose none = (λ e. inl refl, λ r. refl)
    whose (some own) =
        let (there, back) = id_eq-Says (some own) site in
        (λ e. inr (refl, there e), λ r. elim r [ inl e ↦ absurd cc | inr e ↦ back e.1 ])

runs_on-Says : (a : Agreement) (day : Text) → Says (runs_on a day) (IsRunning day a)
unfolding runs_on
runs_on-Says a day = Says-and _ _ (Says-not _) (until a.ends_on)
  where
    until :
        (o : Option Text)
        → Says
            (elim o [ none ↦ true | some last ↦ not (text_lt last day) ])
            ((o ≡ none) ⊎ ((last : Text) × (o ≡ some last) × (text_lt last day ≡ false)))
    until none = (λ e. inl refl, λ r. refl)
    until (some last) =
        let (there, back) = Says-not (text_lt last day) in
        (
          λ e. inr (last, refl, there e),
          λ r. elim r [
            | inl e ↦ absurd cc
            | inr (l, same, e) ↦ back (subst (λ t. text_lt t day ≡ false) (cc) e)
          ],
        )

abbrev pub is_covering : Text → Entry → Agreement → Bool
is_covering client e a = is_some (hit_of client e a)

is_some-to_hit : (a : Agreement) (o : Option Covers) → is_some (to_hit a o) ≡ is_some o
is_some-to_hit a none = refl
is_some-to_hit a (some s) = refl

pub hit_of-Says :
    (client : Text) (e : Entry) (a : Agreement)
    → Says (is_covering client e a) (Covering client e a)
unfolding hit_of
hit_of-Says client e a =
    let named = find-Says e.service_id a.services in
    let theirs = Says-and _ _ (is_held-Says client e.site_id a) (runs_on-Says a e.worked_on) in
    let both = Says-and _ _ theirs named in
    elim (Bool-cases (is_held client e.site_id a && runs_on a e.worked_on)) [
      | inl t ↦ rw t (rw (is_some-to_hit a _) (rw t at both))
      | inr f ↦ rw f (rw f at both)
    ]

pub hit_of-a :
    (client : Text) (e : Entry) (a : Agreement) (h : Hit)
    → hit_of client e a ≡ some h
    → (h.a ≡ a) × FirstNamed e.service_id h.a.services h.s
unfolding hit_of
hit_of-a client e a h k = elim (Bool-cases (is_held client e.site_id a && runs_on a e.worked_on)) [
  | inr f ↦ absurd (let x = rw f at k in cc)
  | inl t ↦ found (find (λ x. text_eq x.service_id e.service_id) a.services) refl (rw t at k)
]
  where
    found :
        (o : Option Covers)
        → find (λ x. text_eq x.service_id e.service_id) a.services ≡ o
        → to_hit a o ≡ some h
        → (h.a ≡ a) × FirstNamed e.service_id h.a.services h.s
    found none f k = absurd cc
    found (some s) f k =
        let same : record { a = a; s = s } ≡ h = cc in
        subst (λ (h : Hit). (h.a ≡ a) × FirstNamed e.service_id h.a.services h.s) same
          (refl, find-FirstNamed e.service_id a.services s f)
