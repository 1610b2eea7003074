-- ===== src/Trips/Legs/Totals.antt =====
-- lib/trip-legs.ts, legsOf: a trip bills the miles that were driven.
use reckon.Common.{
  ℕ, suc, ◌+◌, ◌≡◌, refl, ap, ◌∙◌, List, [], ◌∷◌, ◌++◌, map, length, arith, Text, ok, Option,
  ==_iff,
}
use reckon.Common.Sorting.{total}
use reckon.Decimal.{Decimal, half_up, round}
use reckon.Decimal.Numeric.{from}
use reckon.Trips.{Stop, Drive, LegRule, Leg, Party}
use reckon.Trips.Shares.{hundredths, Read, shares-AreShares}
use reckon.Trips.Legs.{who_of, rule_of, party_legs, legs_for, drive_legs, legs_of}

-- Drives whose miles are so many hundredths each.
abbrev pub Driven : List Drive → List ℕ → Type 0
Driven [] [] = Unit
Driven [] (w ∷ ws) = ⊥
Driven (d ∷ ds) [] = ⊥
Driven (d ∷ ds) (w ∷ ws) =
    ((x : Decimal) × (from d.miles ≡ ok x) × (round x 2 half_up ≡ ok (hundredths w))) × Driven ds ws

abbrev pub leg_miles : List Leg → List Text
leg_miles legs = map (λ l. l.miles) legs

-- Legs that read as so many hundredths, `w` in all.
abbrev pub Bills : List Leg → ℕ → Type 0
Bills legs w = (us : List ℕ) × Read (leg_miles legs) us × (total (λ u. u) us ≡ w)

Read-append :
    (as' bs : List Leg) (us vs : List ℕ)
    → Read (leg_miles as') us
    → Read (leg_miles bs) vs
    → Read (leg_miles (as' ++ bs)) (us ++ vs)
Read-append [] bs [] vs h k = k
Read-append [] bs (u ∷ us) vs h k = elim h [ ]
Read-append (a ∷ as') bs [] vs h k = elim h [ ]
Read-append (a ∷ as') bs (u ∷ us) vs (h, hs) k = (h, Read-append as' bs us vs hs k)

total-append : (us vs : List ℕ) → total (λ u. u) (us ++ vs) ≡ total (λ u. u) us + total (λ u. u) vs
total-append [] vs = omega arith
total-append (u ∷ us) vs = omega (arith, total-append us vs)

Bills-append : (as' bs : List Leg) (v w : ℕ) → Bills as' v → Bills bs w → Bills (as' ++ bs) (v + w)
Bills-append as' bs v w (us, h, e) (vs, k, f) =
    (us ++ vs, Read-append as' bs us vs h k, omega (arith, total-append us vs))

party_legs-Read :
    (i : ℕ) (rule : LegRule) (who : List Party) (ts : List Text) (us : List ℕ)
    → Read ts us
    → length us ≡ length who
    → Read (leg_miles (party_legs i rule who ts)) us
unfolding party_legs
party_legs-Read i rule [] [] [] h e = tt
party_legs-Read i rule [] [] (u ∷ us) h e = elim h [ ]
party_legs-Read i rule [] (t ∷ ts) [] h e = elim h [ ]
party_legs-Read i rule [] (t ∷ ts) (u ∷ us) h e = absurd (omega arith)
party_legs-Read i rule (w ∷ ws) [] [] h e = absurd (omega arith)
party_legs-Read i rule (w ∷ ws) [] (u ∷ us) h e = elim h [ ]
party_legs-Read i rule (w ∷ ws) (t ∷ ts) [] h e = elim h [ ]
party_legs-Read i rule (w ∷ ws) (t ∷ ts) (u ∷ us) (h, hs) e =
    (h, party_legs-Read i rule ws ts us hs (omega arith))

one-Bills :
    (leg : Text → Leg)
    → ((t : Text) → (leg t).miles ≡ t)
    → (ts : List Text) (us : List ℕ) → Read ts us
    → length us ≡ 1
    → (t : Text) × (ts ≡ t ∷ []) × Bills (leg t ∷ []) (total (λ u. u) us)
one-Bills leg same [] [] h e = absurd (omega arith)
one-Bills leg same [] (u ∷ us) h e = elim h [ ]
one-Bills leg same (t ∷ ts) [] h e = elim h [ ]
one-Bills leg same (t ∷ []) (u ∷ []) (h, hs) e =
    (t, refl, (u ∷ [], (ap from (same t) ∙ h, tt), refl))
one-Bills leg same (t ∷ []) (u ∷ v ∷ us) h e = absurd (omega arith)
one-Bills leg same (t ∷ s ∷ ts) (u ∷ []) (h, hs) e = elim hs [ ]
one-Bills leg same (t ∷ s ∷ ts) (u ∷ v ∷ us) h e = absurd (omega arith)

-- The legs of one drive bill its miles.
legs_for-Bills :
    (i : ℕ) (d : Drive) (rule : LegRule) (who : List Party) (w : ℕ) (x : Decimal)
    → from d.miles ≡ ok x
    → round x 2 half_up ≡ ok (hundredths w)
    → (legs : List Leg) × (legs_for i d rule who ≡ ok legs) × Bills legs w
unfolding legs_for
legs_for-Bills i d rule [] w x e r =
    let (ts, us, _, run, read, len, sum, _) = shares-AreShares d.miles x w 0 e r in
    let (t, one, bills) =
      one-Bills
        (λ t. record {
          drive = i;
          entity_id = Option.none;
          site_id = Option.none;
          rule = rule;
          miles = t;
        })
        (λ t. refl) ts us read len in
    (
      record { drive = i; entity_id = Option.none; site_id = Option.none; rule = rule; miles = t }
          ∷ [],
      rw run (rw one refl),
      rw sum at bills,
    )
legs_for-Bills i d rule (p ∷ ps) w x e r =
    let (ts, us, _, run, read, len, sum, _) = shares-AreShares d.miles x w (length ps) e r in
    (_, rw run refl, (us, party_legs-Read i rule (p ∷ ps) ts us read len, sum))

drive_legs-Bills :
    (stops : List Stop) (i : ℕ) (ds : List Drive) (ws : List ℕ)
    → Driven ds ws
    → (legs : List Leg) × (drive_legs stops i ds ≡ ok legs) × Bills legs (total (λ w. w) ws)
unfolding drive_legs
drive_legs-Bills stops i [] [] h = ([], refl, ([], tt, refl))
drive_legs-Bills stops i [] (w ∷ ws) h = elim h [ ]
drive_legs-Bills stops i (d ∷ ds) [] h = elim h [ ]
drive_legs-Bills stops i (d ∷ ds) (w ∷ ws) ((x, e, r), hs) =
    let (here, run, bills) =
      legs_for-Bills i d (rule_of stops i d (who_of stops i d)) (who_of stops i d) w x e r in
    let (rest, run_rest, bills_rest) = drive_legs-Bills stops (suc i) ds ws hs in
    (
      here ++ rest,
      rw run (rw run_rest refl),
      Bills-append here rest w (total (λ w. w) ws) bills bills_rest,
    )

-- A finished trip, with a stop and one drive more than stops, each of miles that read as a figure and
-- are not negative, has legs whose printed miles add up to
-- the miles driven, each drive taken to the hundredth, whoever its drives were for or given to.
pub legs_of-Bills :
    (s : Stop) (ss : List Stop) (ds : List Drive) (ws : List ℕ)
    → Driven ds ws
    → length ds ≡ length (s ∷ ss) + 1
    → (legs : List Leg) × (legs_of (s ∷ ss) ds ≡ ok legs) × Bills legs (total (λ w. w) ws)
unfolding legs_of
legs_of-Bills s ss ds ws h e =
    let (legs, run, bills) = drive_legs-Bills (s ∷ ss) 0 ds ws h in
    (legs, rw ((==_iff (length ds) (length (s ∷ ss) + 1)).1 e) run, bills)
