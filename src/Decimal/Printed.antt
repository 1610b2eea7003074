-- ===== src/Decimal/Printed.antt =====
-- lib/decimal.ts: the digits that `toString` prints, and how `from` reads a sign, digits and places.
use mathlib.Core.List.{reverse-cons, reverse-reverse, append_assoc, append-nil}
use reckon.Common.{
  ℕ, zero, suc, ◌+◌, ◌-◌, ◌*◌, ◌/◌, ◌%◌, ◌≤◌, ◌<◌, ◌≡◌, refl, sym, ◌∙◌, subst, inl, inr, Bool, true,
  false, ltb, if◌then◌else◌, Bool-cases, [], ◌∷◌, ◌++◌, reverse, length, take, drop, replicate,
  length-append, length-replicate, All, All-append, All-replicate, Text, is_space, trim_start, trim,
  ok, arith,
}
use reckon.Decimal.Numeric.{
  is_digit, value, span_digits, read_sign, make, read_end, read_fraction, read_whole, from, emit,
  print_nat, pad_start,
}

abbrev pub IsDigit : ℕ → Type 0
IsDigit c = (b'0' ≤ c) × (c ≤ b'9')

value-append : (a : ℕ) (xs ys : Text) → value a (xs ++ ys) ≡ value (value a xs) ys
unfolding value
value-append a [] ys = refl
value-append a (x ∷ xs) ys = value-append (a * 10 + (x - b'0')) xs ys

value-zeros : (k : ℕ) (xs : Text) → value 0 (replicate k b'0' ++ xs) ≡ value 0 xs
unfolding value
value-zeros zero xs = refl
value-zeros (suc k) xs = value-zeros k xs

-- What the digits of a number are: digits, at least one, and that number.
abbrev pub Prints : ℕ → Text → Type 0
Prints n ds = All IsDigit ds × (0 < length ds) × (value 0 ds ≡ n)

Prints-digit : (n : ℕ) → n < 10 → Prints n ((b'0' + n % 10) ∷ [])
unfolding value
Prints-digit n h = (omega arith, omega arith, omega arith)

Prints-snoc : (n : ℕ) (ds : Text) → Prints (n / 10) ds → Prints n (ds ++ (b'0' + n % 10) ∷ [])
unfolding value
Prints-snoc n ds (digits, some_of, same) = (
  All-append IsDigit ds _ digits (omega arith),
  omega (arith, length-append ds ((b'0' + n % 10) ∷ [])),
  value-append 0 ds _ ∙ rw same (omega arith),
)

emit-Prints :
    (fuel n : ℕ) (acc : Text) → n < fuel → (ds : Text) × (emit fuel n acc ≡ ds ++ acc) × Prints n ds
unfolding emit
emit-Prints zero n acc h = absurd (omega arith)
emit-Prints (suc fuel) n acc h = elim (Bool-cases (ltb n 10)) [
  | inl small ↦ ((b'0' + n % 10) ∷ [], rw small, Prints-digit n (ground arith))
  | inr large ↦
      let (ds, run, prints) = emit-Prints fuel (n / 10) ((b'0' + n % 10) ∷ acc) (ground arith) in
      (
        ds ++ (b'0' + n % 10) ∷ [],
        rw large (run ∙ sym (append_assoc ds _ acc)),
        Prints-snoc n ds prints,
      )
]

pub print_nat-Prints : (n : ℕ) → Prints n (print_nat n)
unfolding print_nat
print_nat-Prints n =
    let (ds, run, prints) = emit-Prints (suc n) n [] (omega arith) in
    subst (Prints n) (sym (run ∙ append-nil ds)) prints

pub pad_start-Prints : (k n : ℕ) (ds : Text) → Prints n ds → Prints n (pad_start k b'0' ds)
unfolding pad_start
pad_start-Prints k n ds (digits, some_of, same) = (
  All-append IsDigit _ ds (All-replicate IsDigit (k - length ds) b'0' (omega arith)) digits,
  omega (arith, length-append (replicate (k - length ds) b'0') ds),
  value-zeros (k - length ds) ds ∙ same,
)

pub length-pad_start : (k : ℕ) (ds : Text) → k ≤ length (pad_start k b'0' ds)
unfolding pad_start
length-pad_start k ds = omega (
  arith,
  length-append (replicate (k - length ds) b'0') ds,
  length-replicate {A = ℕ} (k - length ds) b'0',
)

-- The scanner stops where the digits do.
abbrev Stops : Text → Type 0
Stops [] = Unit
Stops (c ∷ cs) = is_digit c ≡ false

is_digit-true : (c : ℕ) → IsDigit c → is_digit c ≡ true
unfolding is_digit
is_digit-true c h = ground arith

span_digits-append :
    (ds rest : Text) → All IsDigit ds → Stops rest → span_digits (ds ++ rest) ≡ (ds, rest)
unfolding span_digits
span_digits-append [] [] h s = refl
span_digits-append [] (c ∷ cs) h s = rw s
span_digits-append (d ∷ ds) rest (h, hs) s = rw (is_digit-true d h, span_digits-append ds rest hs s)

pub All-take : (n : ℕ) (xs : Text) → All IsDigit xs → All IsDigit (take n xs)
All-take zero xs h = tt
All-take (suc n) [] h = tt
All-take (suc n) (x ∷ xs) (h, hs) = (h, All-take n xs hs)

pub All-drop : (n : ℕ) (xs : Text) → All IsDigit xs → All IsDigit (drop n xs)
All-drop zero xs h = h
All-drop (suc n) [] h = tt
All-drop (suc n) (x ∷ xs) (h, hs) = All-drop n xs hs

-- What `toString` prints holds no white space.
abbrev NotSpace : ℕ → Type 0
NotSpace c = is_space c ≡ false

IsDigit-NotSpace : (c : ℕ) → IsDigit c → NotSpace c
unfolding is_space
IsDigit-NotSpace c h = ground arith

All-digits : (ds : Text) → All IsDigit ds → All NotSpace ds
All-digits [] h = tt
All-digits (d ∷ ds) (h, hs) = (IsDigit-NotSpace d h, All-digits ds hs)

All-reverse : (xs : Text) → All NotSpace xs → All NotSpace (reverse xs)
All-reverse [] h = tt
All-reverse (x ∷ xs) (h, hs) =
    rw (reverse-cons x xs) (All-append NotSpace (reverse xs) (x ∷ []) (All-reverse xs hs) (h, tt))

trim_start-id : (v : Text) → All NotSpace v → trim_start v ≡ v
unfolding trim_start
trim_start-id [] h = refl
trim_start-id (c ∷ cs) (h, hs) = rw h

trim-id : (v : Text) → All NotSpace v → trim v ≡ v
unfolding trim
trim-id v h =
    rw (trim_start-id v h, trim_start-id (reverse v) (All-reverse v h)) (reverse-reverse v)

-- The sign that `toString` prints is the one that is read.
abbrev pub sign_text : Bool → Text
sign_text negative = if negative then b'-' ∷ [] else []

sign_text-NotSpace : (b : Bool) → All NotSpace (sign_text b)
unfolding is_space
sign_text-NotSpace true = (refl, tt)
sign_text-NotSpace false = tt

read_sign-digit : (d : ℕ) (cs : Text) → IsDigit d → read_sign (d ∷ cs) ≡ (false, d ∷ cs)
unfolding read_sign
read_sign-digit d cs h = ground arith

read_sign-sign_text :
    (b : Bool) (d : ℕ) (cs : Text) → IsDigit d → read_sign (sign_text b ++ d ∷ cs) ≡ (b, d ∷ cs)
unfolding read_sign
read_sign-sign_text true d cs h = refl
read_sign-sign_text false d cs h = read_sign-digit d cs h

-- The point and the places, where there are any.
abbrev pub point : Text → Text
point [] = []
point (d ∷ ds) = b'.' ∷ d ∷ ds

point-Stops : (frac : Text) → Stops (point frac)
unfolding is_digit
point-Stops [] = tt
point-Stops (d ∷ ds) = refl

point-NotSpace : (frac : Text) → All IsDigit frac → All NotSpace (point frac)
unfolding is_space
point-NotSpace [] h = tt
point-NotSpace (d ∷ ds) h = (refl, All-digits (d ∷ ds) h)

span_digits-All : (ds : Text) → All IsDigit ds → span_digits ds ≡ (ds, [])
span_digits-All ds h =
    subst (λ v. span_digits v ≡ (ds, [])) (append-nil ds) (span_digits-append ds [] h tt)

read_fraction-point :
    (b : Bool) (whole frac : Text)
    → All IsDigit frac
    → read_fraction b whole (point frac) ≡ ok (make b whole frac)
unfolding read_fraction read_end
read_fraction-point b whole [] h = refl
read_fraction-point b whole (d ∷ ds) h = rw (span_digits-All (d ∷ ds) h)

printed-NotSpace :
    (b : Bool) (whole frac : Text)
    → All IsDigit whole
    → All IsDigit frac
    → All NotSpace (sign_text b ++ (whole ++ point frac))
printed-NotSpace b whole frac hw hf =
    All-append NotSpace (sign_text b) (whole ++ point frac) (sign_text-NotSpace b)
      (All-append NotSpace whole (point frac) (All-digits whole hw) (point-NotSpace frac hf))

-- A sign, digits and the places after a point are read as they stand.
pub from-printed :
    (b : Bool) (whole frac : Text)
    → 0 < length whole
    → All IsDigit whole
    → All IsDigit frac
    → from (sign_text b ++ (whole ++ point frac)) ≡ ok (make b whole frac)
unfolding from read_whole
from-printed b [] frac p hw hf = absurd (omega arith)
from-printed b (d ∷ whole) frac p (h, hw) hf =
    rw (trim-id _ (printed-NotSpace b (d ∷ whole) frac (h, hw) hf)) (
      rw (read_sign-sign_text b d (whole ++ point frac) h) (
        rw (span_digits-append (d ∷ whole) (point frac) (h, hw) (point-Stops frac))
          (read_fraction-point b (d ∷ whole) frac hf)))
