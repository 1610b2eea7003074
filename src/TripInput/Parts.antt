-- ===== src/TripInput/Parts.antt =====
-- lib/server/trip-input.ts: a stop and a drive that are read are what the rule can assign.
use reckon.Common.{
  ◌≡◌, refl, subst, inl, inr, Bool, true, false, Bool-cases, not, ◌&&◌, ◌||◌, if◌then◌else◌,
  if_cases, Option, none, some, List, [], ◌∷◌, All, map, any, is_some, Option-cases, Text, codes,
  arith,
}
use reckon.Trips.{Visit, Drive, has_text}
use reckon.TripInput.Values.{
  Value, undefined, null, boolean, number, string, array, object, items, text_of, is_true, is_miles,
  property, members_of, items_of, id,
}
use reckon.TripInput.Forms.{IsId, IdIfAny, id-IsId, id_if_set-IsId}
use reckon.TripInput.{
  StopInput, fine, wrong, Parsed, parse_visit, is_unnamed, named, once, id_if_set, text_if_set,
  both_or_neither, stop_of, read_stop, given_to, Given, by_rule, not_ours, by_hand, and_given, hand,
  give, to_of, drive_of, read_drive, trimmed,
}

-- No client is there twice, nor among those seen.
abbrev pub AreOnce : List Text → List Visit → Type 0
AreOnce seen [] = Unit
AreOnce seen (v ∷ vs) = (has_text v.entity_id seen ≡ false) × AreOnce (v.entity_id ∷ seen) vs

once-AreOnce : (seen : List Text) (vs : List Visit) → AreOnce seen (once seen vs)
unfolding once
once-AreOnce seen [] = tt
once-AreOnce seen (v ∷ vs) = elim (Bool-cases (has_text v.entity_id seen)) [
  | inl t ↦ rw t (once-AreOnce seen vs)
  | inr f ↦ rw f (f, once-AreOnce (v.entity_id ∷ seen) vs)
]

once-All :
    (P : Visit → Type 0) (seen : List Text) (vs : List Visit) → All P vs → All P (once seen vs)
unfolding once
once-All P seen [] h = tt
once-All P seen (v ∷ vs) (h, hs) = elim (Bool-cases (has_text v.entity_id seen)) [
  | inl t ↦ rw t (once-All P seen vs hs)
  | inr f ↦ rw f (h, once-All P (v.entity_id ∷ seen) vs hs)
]

-- At a stop that is a site, each visit names a site.
abbrev pub NamesSite : Option Text → Visit → Type 0
NamesSite site v = (is_some site && not (is_some v.site_id)) ≡ false

none_of : (a b : Bool) → (if a then true else b) ≡ false → (a ≡ false) × (b ≡ false)
none_of true b e = cc
none_of false b e = (refl, e)

no_site : (a b c : Bool) → (a || b && c) ≡ false → (c && b) ≡ false
no_site a b c e = ground arith

named-NamesSite :
    (site : Option Text) (parsed : List Parsed)
    → any (is_unnamed site) parsed ≡ false
    → All (NamesSite site) (named parsed)
unfolding named is_unnamed
named-NamesSite site [] e = tt
named-NamesSite site (v ∷ vs) e =
    let (here, there) = none_of (is_unnamed site v) (any (is_unnamed site) vs) e in
    elim (Option-cases v.entity_id) [
      | inl n ↦ rw n (named-NamesSite site vs there)
      | inr (entity, y) ↦ rw y (
        no_site (not (is_some v.entity_id)) (not (is_some v.site_id)) (is_some site) here,
        named-NamesSite site vs there,
      )
    ]

-- A visit is of a client with an id, and at a site with one where it names any.
abbrev pub HasIds : Visit → Type 0
HasIds v = IsId v.entity_id × IdIfAny v.site_id

named-HasIds : (vs : List Value) → All HasIds (named (map parse_visit vs))
unfolding named parse_visit
named-HasIds [] = tt
named-HasIds (v ∷ vs) =
    let entity = property (codes "entity_id") (members_of v) in
    let rest = named-HasIds vs in
    elim (Option-cases (id entity)) [
      | inl n ↦ rw n rest
      | inr (e, y) ↦ rw y (
        (
          subst IdIfAny y (id-IsId entity),
          id_if_set-IsId (property (codes "site_id") (members_of v)),
        ),
        rest,
      )
    ]

-- A stop is a site or an address, and its visits are each of one client, once, each with its ids.
abbrev pub IsStop : StopInput → Type 0
IsStop s =
    (is_some s.site_id ≡ not (is_some s.address))
    × AreOnce [] s.visits
    × All (NamesSite s.site_id) s.visits
    × IdIfAny s.site_id
    × All HasIds s.visits

wrong-ne-fine : {A : Type 0} (why : Text) (a : A) → wrong why ≡ fine a → ⊥
wrong-ne-fine why a e = cc

fine-injective : {A : Type 0} (a b : A) → fine a ≡ fine b → a ≡ b
fine-injective a b e = cc

one_of : (a b : Bool) → both_or_neither a b ≡ false → a ≡ not b
one_of true true e = cc
one_of true false e = refl
one_of false true e = refl
one_of false false e = cc

stop_of-IsStop :
    (site address : Option Text) (visits : Option (List Value)) (s : StopInput)
    → IdIfAny site
    → stop_of site address visits ≡ fine s
    → IsStop s
unfolding stop_of
stop_of-IsStop site address none s known =
    if_cases (λ v. v ≡ fine s → IsStop s) (both_or_neither (is_some site) (is_some address)) _ _
      (λ _ e. absurd (wrong-ne-fine _ s e)) (λ _ e. absurd (wrong-ne-fine _ s e))
stop_of-IsStop site address (some visits) s known =
    if_cases (λ v. v ≡ fine s → IsStop s) (both_or_neither (is_some site) (is_some address)) _ _
      (λ _ e. absurd (wrong-ne-fine _ s e))
      (λ one.
        if_cases (λ v. v ≡ fine s → IsStop s) (any (is_unnamed site) (map parse_visit visits)) _ _
          (λ _ e. absurd (wrong-ne-fine _ s e))
          (λ unnamed e.
            let read : StopInput = record {
              site_id = site;
              address = address;
              visits = once [] (named (map parse_visit visits));
            } in
            subst IsStop (fine-injective read s e) (
              one_of (is_some site) (is_some address) one,
              once-AreOnce [] (named (map parse_visit visits)),
              once-All (NamesSite site) [] (named (map parse_visit visits))
                  (named-NamesSite site (map parse_visit visits) unnamed),
              known,
              once-All HasIds [] (named (map parse_visit visits)) (named-HasIds visits),
            )))

pub read_stop-IsStop : (raw : Value) (s : StopInput) → read_stop raw ≡ fine s → IsStop s
unfolding read_stop
read_stop-IsStop raw s e =
    let m = members_of raw in
    stop_of-IsStop (id_if_set (property (codes "site_id") m))
      (text_if_set (property (codes "address") m) 200) (items_of (property (codes "clients") m)) s
      (id_if_set-IsId (property (codes "site_id") m)) e

-- Who a drive was given to by hand.
abbrev pub hands : Option (List Text) → List Text
hands none = []
hands (some es) = es

-- Miles of the pattern's form, given by the rule or to clients of the trip.
abbrev pub IsDrive : List Text → Drive → Type 0
IsDrive clients d = (is_miles d.miles ≡ true) × All (λ e. has_text e clients ≡ true) (hands d.to)

and_given-All :
    (clients : List Text) (t : Option Text) (rest : Option (List Text))
    → All (λ e. has_text e clients ≡ true) (hands rest)
    → All (λ e. has_text e clients ≡ true) (hands (and_given clients t rest))
unfolding and_given
and_given-All clients none rest h = tt
and_given-All clients (some e) none h = tt
and_given-All clients (some e) (some es) h = elim (Bool-cases (has_text e clients)) [
  | inl y ↦ rw y (y, h)
  | inr n ↦ rw n tt
]

given_to-All :
    (clients : List Text) (vs : List Value)
    → All (λ e. has_text e clients ≡ true) (hands (given_to clients vs))
unfolding given_to
given_to-All clients [] = tt
given_to-All clients (v ∷ vs) =
    and_given-All clients (text_of v) (given_to clients vs) (given_to-All clients vs)

abbrev handed : Given → List Text
handed by_rule = []
handed not_ours = []
handed (by_hand es) = es

hand-All :
    (clients : List Text) (o : Option (List Text))
    → All (λ e. has_text e clients ≡ true) (hands o)
    → All (λ e. has_text e clients ≡ true) (handed (hand o))
unfolding hand
hand-All clients none h = tt
hand-All clients (some es) h = h

to_of-All :
    (clients : List Text) (v : Value)
    → All (λ e. has_text e clients ≡ true) (handed (to_of clients v))
unfolding to_of
to_of-All clients (array vs) =
    hand-All clients (given_to clients (items vs)) (given_to-All clients (items vs))
to_of-All clients null = tt
to_of-All clients undefined = tt
to_of-All clients (boolean b) = tt
to_of-All clients (number n) = tt
to_of-All clients (string t) = tt
to_of-All clients (object ms) = tt

give-IsDrive :
    (clients : List Text) (m : Text) (estimated : Bool) (to : Given) (d : Drive)
    → is_miles m ≡ true
    → All (λ e. has_text e clients ≡ true) (handed to)
    → give m estimated to ≡ fine d
    → IsDrive clients d
unfolding give
give-IsDrive clients m estimated by_rule d h k e =
    let read : Drive = record { miles = m; to = none; estimated = estimated } in
    subst (IsDrive clients) (fine-injective read d e) (h, k)
give-IsDrive clients m estimated (by_hand es) d h k e =
    let read : Drive = record { miles = m; to = some es; estimated = estimated } in
    subst (IsDrive clients) (fine-injective read d e) (h, k)
give-IsDrive clients m estimated not_ours d h k e = absurd (wrong-ne-fine _ d e)

drive_of-IsDrive :
    (clients : List Text) (m : Text) (to : Given) (estimated : Bool) (d : Drive)
    → All (λ e. has_text e clients ≡ true) (handed to)
    → drive_of m to estimated ≡ fine d
    → IsDrive clients d
unfolding drive_of
drive_of-IsDrive clients m to estimated d k =
    if_cases (λ v. v ≡ fine d → IsDrive clients d) (is_miles m) _ _
      (λ h e. give-IsDrive clients m estimated to d h k e) (λ _ e. absurd (wrong-ne-fine _ d e))

pub read_drive-IsDrive :
    (clients : List Text) (raw : Value) (d : Drive)
    → read_drive clients raw ≡ fine d
    → IsDrive clients d
unfolding read_drive
read_drive-IsDrive clients raw d e =
    let m = members_of raw in
    drive_of-IsDrive clients (trimmed (text_of (property (codes "miles") m)))
      (to_of clients (property (codes "to") m)) (is_true (property (codes "estimated") m)) d
      (to_of-All clients (property (codes "to") m)) e
