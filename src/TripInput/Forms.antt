-- ===== src/TripInput/Forms.antt =====
-- lib/server/trip-input.ts: the form of an id and of a day that a request gives, read off the text itself.
use reckon.Common.{
  ℕ, zero, suc, ◌≤◌, ◌≡◌, refl, ap, sym, ◌∙◌, ◌⊎◌, inl, inr, Bool, true, ◌&&◌, Bool-cases, if_cases,
  Option, none, some, List, [], ◌∷◌, ◌++◌, map, length, replicate, All, Text, arith,
}
use reckon.Decimal.Numeric.{is_digit}
use reckon.TripInput.Values.{
  Value, matches, is_dash, is_hex, is_uuid, is_day, lower, uuid_text, text_of, id, is_truthy,
}
use reckon.TripInput.{day, id_if_set}
use reckon.TripInput.Checks.{Given}

abbrev pub IsDigit : ℕ → Type 0
IsDigit c = (b'0' ≤ c) × (c ≤ b'9')

-- A digit, or a letter a to f in lower case.
abbrev pub IsLowHex : ℕ → Type 0
IsLowHex c = IsDigit c ⊎ ((b'a' ≤ c) × (c ≤ b'f'))

-- So many characters of a kind.
abbrev pub Run : (ℕ → Type 0) → ℕ → Text → Type 0
Run P n t = (length t ≡ n) × All P t

-- 8, 4, 4, 4 and 12 such characters, between hyphens.
abbrev pub IsId : Text → Type 0
IsId t =
    (a b c d e : Text) × (t ≡ a ++ b'-' ∷ (b ++ b'-' ∷ (c ++ b'-' ∷ (d ++ b'-' ∷ e))))
    × Run IsLowHex 8 a
    × Run IsLowHex 4 b
    × Run IsLowHex 4 c
    × Run IsLowHex 4 d
    × Run IsLowHex 12 e

-- 4, 2 and 2 digits, between hyphens, of a date that there is.
abbrev pub IsDay : (Text → Bool) → Text → Type 0
IsDay parses t =
    (y m d : Text) × (t ≡ y ++ b'-' ∷ (m ++ b'-' ∷ d))
    × Run IsDigit 4 y
    × Run IsDigit 2 m
    × Run IsDigit 2 d
    × (parses t ≡ true)

module _ (f : ℕ → ℕ) (p : ℕ → Bool) (P : ℕ → Type 0) (sound : (c : ℕ) → p c ≡ true → P (f c)) where
  -- What stands for so many characters of a class, then for the rest.
  matches-Run :
      (n : ℕ) (ps : List (ℕ → Bool)) (v : Text)
      → matches (replicate n p ++ ps) v ≡ true
      → (a rest : Text) × (map f v ≡ a ++ map f rest) × Run P n a × (matches ps rest ≡ true)
  unfolding matches
  matches-Run zero ps v h = ([], v, refl, (refl, tt), h)
  matches-Run (suc n) ps [] h = cc
  matches-Run (suc n) ps (c ∷ cs) h = elim (Bool-cases (p c)) [
    | inr no_match ↦ absurd (let k = rw no_match at h in cc)
    | inl y ↦
        let (a, rest, e, (many, all), k) = matches-Run n ps cs (rw y at h) in
        (f c ∷ a, rest, ap (λ t. f c ∷ t) e, (ap suc many, (sound c y, all)), k)
  ]

  matches-Run_end : (n : ℕ) (v : Text) → matches (replicate n p) v ≡ true → Run P n (map f v)
  unfolding matches
  matches-Run_end zero [] h = (refl, tt)
  matches-Run_end zero (c ∷ cs) h = cc
  matches-Run_end (suc n) [] h = cc
  matches-Run_end (suc n) (c ∷ cs) h = elim (Bool-cases (p c)) [
    | inr no_match ↦ absurd (let k = rw no_match at h in cc)
    | inl y ↦ let (many, all) = matches-Run_end n cs (rw y at h) in (ap suc many, (sound c y, all))
  ]

matches-dash :
    (f : ℕ → ℕ) (ps : List (ℕ → Bool)) (v : Text)
    → matches (is_dash ∷ ps) v ≡ true
    → (rest : Text) × (map f v ≡ f b'-' ∷ map f rest) × (matches ps rest ≡ true)
unfolding matches is_dash
matches-dash f ps [] h = cc
matches-dash f ps (c ∷ cs) h = elim (Bool-cases (is_dash c)) [
  | inr no_match ↦ absurd (let k = rw no_match at h in cc)
  | inl y ↦ let same : c ≡ b'-' = ground arith in (cs, ap (λ x. f x ∷ map f cs) same, rw y at h)
]

hex-IsLowHex : (c : ℕ) → is_hex c ≡ true → IsLowHex (lower c)
unfolding is_hex is_digit lower
hex-IsLowHex c h = ground arith

is_digit-IsDigit : (c : ℕ) → is_digit c ≡ true → IsDigit c
unfolding is_digit
is_digit-IsDigit c h = ground arith

then_run : (a : Text) {v r x : Text} → v ≡ a ++ r → r ≡ x → v ≡ a ++ x
then_run a e k = e ∙ ap (λ t. a ++ t) k

is_uuid-IsId : (v : Text) → is_uuid v ≡ true → IsId (map lower v)
unfolding is_uuid lower
is_uuid-IsId v h =
    let run = matches-Run lower is_hex IsLowHex hex-IsLowHex in
    let four = replicate 4 is_hex in
    let (a, r, e1, ra, h1) =
      run 8 (is_dash ∷ four ++ is_dash ∷ four ++ is_dash ∷ four ++ is_dash ∷ replicate 12 is_hex) v
        h in
    let (r', e2, h2) =
      matches-dash lower (four ++ is_dash ∷ four ++ is_dash ∷ four ++ is_dash ∷ replicate 12 is_hex)
        r h1 in
    let (b, s, e3, rb, h3) =
      run 4 (is_dash ∷ four ++ is_dash ∷ four ++ is_dash ∷ replicate 12 is_hex) r' h2 in
    let (s', e4, h4) =
      matches-dash lower (four ++ is_dash ∷ four ++ is_dash ∷ replicate 12 is_hex) s h3 in
    let (c, t, e5, rc, h5) = run 4 (is_dash ∷ four ++ is_dash ∷ replicate 12 is_hex) s' h4 in
    let (t', e6, h6) = matches-dash lower (four ++ is_dash ∷ replicate 12 is_hex) t h5 in
    let (d, u, e7, rd, h7) = run 4 (is_dash ∷ replicate 12 is_hex) t' h6 in
    let (u', e8, h8) = matches-dash lower (replicate 12 is_hex) u h7 in
    let last = matches-Run_end lower is_hex IsLowHex hex-IsLowHex 12 u' h8 in
    let fourth = then_run d e7 e8 in
    let third = then_run c e5 (e6 ∙ ap (λ z. b'-' ∷ z) fourth) in
    let second = then_run b e3 (e4 ∙ ap (λ z. b'-' ∷ z) third) in
    let whole = then_run a e1 (e2 ∙ ap (λ z. b'-' ∷ z) second) in
    (a, b, c, d, map lower u', whole, ra, rb, rc, rd, last)

as_it_is : (v : Text) → map (λ c. c) v ≡ v
as_it_is [] = refl
as_it_is (c ∷ cs) = ap (λ t. c ∷ t) (as_it_is cs)

is_day-IsDay :
    (parses : Text → Bool) (v : Text) → is_day v ≡ true → parses v ≡ true → IsDay parses v
unfolding is_day
is_day-IsDay parses v h there =
    let run = matches-Run (λ c. c) is_digit IsDigit is_digit-IsDigit in
    let two = replicate 2 is_digit in
    let (y, r, e1, ry, h1) = run 4 (is_dash ∷ two ++ is_dash ∷ two) v h in
    let (r', e2, h2) = matches-dash (λ c. c) (two ++ is_dash ∷ two) r h1 in
    let (m, s, e3, rm, h3) = run 2 (is_dash ∷ two) r' h2 in
    let (s', e4, h4) = matches-dash (λ c. c) two s h3 in
    let last = matches-Run_end (λ c. c) is_digit IsDigit is_digit-IsDigit 2 s' h4 in
    let whole = then_run y e1 (e2 ∙ ap (λ z. b'-' ∷ z) (then_run m e3 e4)) in
    (y, m, map (λ c. c) s', sym (as_it_is v) ∙ whole, ry, rm, last, there)

uuid_text-IsId : (o : Option Text) → Given IsId (uuid_text o)
unfolding uuid_text
uuid_text-IsId none = tt
uuid_text-IsId (some t) =
    if_cases (Given IsId) (is_uuid t) (some (map lower t)) none (is_uuid-IsId t) (λ _. tt)

pub id-IsId : (v : Value) → Given IsId (id v)
unfolding id
id-IsId v = uuid_text-IsId (text_of v)

-- An id, where there is any.
abbrev pub IdIfAny : Option Text → Type 0
IdIfAny o = Given IsId o

pub id_if_set-IsId : (v : Value) → Given IsId (id_if_set v)
unfolding id_if_set
id_if_set-IsId v = if_cases (Given IsId) (is_truthy v) (id v) none (λ _. id-IsId v) (λ _. tt)

pub day-IsDay : (parses : Text → Bool) (o : Option Text) → Given (IsDay parses) (day parses o)
unfolding day
day-IsDay parses none = tt
day-IsDay parses (some t) =
    if_cases (Given (IsDay parses)) (is_day t && parses t) (some t) none
      (λ h.
        let both : (is_day t ≡ true) × (parses t ≡ true) = ground arith in
        is_day-IsDay parses t both.0 both.1)
      (λ _. tt)
