-- ===== src/TripInput/Checks.antt =====
-- lib/server/trip-input.ts: what each step has read when it leaves nothing refused.
use reckon.Common.{
  suc, ◌≤◌, ◌≡◌, ◌≢◌, refl, ap, true, ltb, if◌then◌else◌, if_cases, Option, none, some, List, [],
  ◌∷◌, length, All, is_some, Text, text_eq, codes, arith,
}
use reckon.Common.Maps.{Map, get, put}
use reckon.TripInput.Values.{Value, is_absent}
use reckon.TripInput.{
  Checked, pure, ◌>>=◌, no, require, optional, reading, check_readings, Verdict, fine, wrong, go_on,
  read_each,
}

-- A step that has refused nothing, and nothing before it, has read a value of the kind.
abbrev pub Ensures : {A : Type 0} → Checked A → (A → Type 0) → Type 0
Ensures m P = (errors : Map Text) → (m errors).1 ≡ [] → (errors ≡ []) × P (m errors).0

pub Ensures-pure : {A : Type 0} (P : A → Type 0) (a : A) → P a → Ensures (pure a) P
Ensures-pure P a h errors e = (e, h)

pub Ensures-bind :
    {A B : Type 0} (P : A → Type 0) (Q : B → Type 0) (m : Checked A) (next : A → Checked B)
    → Ensures m P
    → ((a : A) → Ensures (next a) (λ b. P a → Q b))
    → Ensures (m >>= next) Q
Ensures-bind P Q m next h k errors e =
    let (none_before, q) = k (m errors).0 (m errors).1 e in
    let (none_at_all, p) = h errors none_before in (none_at_all, q p)

put-ne : (field why : Text) (errors : Map Text) → put field why errors ≢ []
unfolding put
put-ne field why [] e = cc
put-ne field why ((k, v) ∷ m) e =
    if_cases (λ x. x ≢ []) (text_eq k field) ((field, why) ∷ m) ((k, v) ∷ put field why m)
      (λ _ h. cc) (λ _ h. cc) e

set-ne : (field : Text) (errors : Map Text) → is_some (get field errors) ≡ true → errors ≢ []
unfolding get
set-ne field [] h e = cc
set-ne field (x ∷ m) h e = cc

-- Refusing is kept: there is then something refused.
pub no-ne : (field why : Text) (errors : Map Text) → no field why errors ≢ []
unfolding no
no-ne field why errors =
    if_cases (λ m. m ≢ []) (is_some (get field errors)) errors (put field why errors)
      (set-ne field errors) (λ _. put-ne field why errors)

-- What holds of a value when there is one.
abbrev pub Given : (Text → Type 0) → Option Text → Type 0
Given P none = Unit
Given P (some t) = P t

-- There is a value, and it is of the kind.
abbrev pub Held : (Text → Type 0) → Option Text → Type 0
Held P none = ⊥
Held P (some t) = P t

pub Ensures-require :
    (P : Text → Type 0) (field why : Text) (o : Option Text)
    → Given P o
    → Ensures (require field why o) (Held P)
unfolding require
Ensures-require P field why none h errors e = absurd (no-ne field why errors e)
Ensures-require P field why (some a) h errors e = (e, h)

pub Ensures-optional :
    (P : Text → Type 0) (field why : Text) (v : Value) (read : Option Text)
    → Given P read
    → Ensures (optional field why v read) (Given P)
unfolding optional require
Ensures-optional P field why v none h errors =
    if_cases
      (λ (c : Checked (Option Text)). (c errors).1 ≡ [] → (errors ≡ []) × Given P (c errors).0)
      (is_absent v) (pure none) (require field why none) (λ _ e. (e, tt))
      (λ _ e. absurd (no-ne field why errors e))
Ensures-optional P field why v (some t) h errors =
    if_cases
      (λ (c : Checked (Option Text)). (c errors).1 ≡ [] → (errors ≡ []) × Given P (c errors).0)
      (is_absent v) (pure none) (require field why (some t)) (λ _ e. (e, tt)) (λ _ e. (e, h))

-- Neither reading, or both and the last no less than the first.
abbrev pub Readings : Option Text → Option Text → Type 0
Readings none none = Unit
Readings none (some e) = ⊥
Readings (some s) none = ⊥
Readings (some s) (some e) = reading s ≤ reading e

-- Nothing of one reading alone goes through: it was refused before, or is now.
one_reading :
    (field why : Text) (errors : Map Text)
    → (if is_some (get (codes "odometer_start") errors) then errors else no field why errors) ≢ []
one_reading field why errors =
    if_cases (λ m. m ≢ []) (is_some (get (codes "odometer_start") errors)) errors
      (no field why errors) (set-ne (codes "odometer_start") errors) (λ _. no-ne field why errors)

pub Ensures-Readings :
    (s e : Option Text)
    → Ensures (λ errors. (tt, check_readings s e errors)) (λ (_ : Unit). Readings s e)
unfolding check_readings
Ensures-Readings none none errors h = (h, tt)
Ensures-Readings none (some e) errors h =
    absurd (one_reading (codes "odometer_start") (codes "Both readings, or neither.") errors h)
Ensures-Readings (some s) none errors h =
    absurd (one_reading (codes "odometer_end") (codes "Both readings, or neither.") errors h)
Ensures-Readings (some s) (some e) errors h =
    if_cases (λ m. m ≡ [] → (errors ≡ []) × (reading s ≤ reading e)) (ltb (reading e) (reading s)) _
      errors (λ _ k. absurd (no-ne _ _ errors k)) (λ f k. (k, ground arith)) h

-- Elements read one for one, each of a kind.
abbrev pub Each : {A : Type 0} → (A → Type 0) → List Value → List A → Type 0
Each P raws as' = (length as' ≡ length raws) × All P as'

Ensures-element :
    {A : Type 0} (P : A → Type 0) (field : Text) (raws : List Value) (rest : List A × Map Text)
    (errors : Map Text) (v : Verdict A)
    → ((a : A) → v ≡ fine a → P a)
    → (rest.1 ≡ [] → (errors ≡ []) × Each P raws rest.0)
    → (x : Value) → (go_on field v rest errors).1 ≡ []
    → (errors ≡ []) × Each P (x ∷ raws) (go_on field v rest errors).0
unfolding go_on
Ensures-element P field raws rest errors (fine a) h k x e =
    let (none_before, all) = k e in (none_before, (ap suc all.0, (h a refl, all.1)))
Ensures-element P field raws rest errors (wrong why) h k x e = absurd (no-ne field why errors e)

pub Ensures-Each :
    {A : Type 0} (P : A → Type 0) (field : Text) (read : Value → Verdict A)
    → ((raw : Value) (a : A) → read raw ≡ fine a → P a)
    → (raws : List Value) → Ensures (read_each field read raws) (Each P raws)
unfolding read_each
Ensures-Each P field read h [] errors e = (e, (refl, tt))
Ensures-Each P field read h (raw ∷ raws) errors e =
    Ensures-element P field raws (read_each field read raws errors) errors (read raw) (h raw)
      (Ensures-Each P field read h raws errors) raw e
