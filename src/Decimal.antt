-- ===== src/Decimal.antt =====
-- lib/decimal.ts: exact decimals, fractions, and the rounding that leads from one to the other.
pub mod Numeric
pub mod Rules
pub mod Fractions
pub mod Printed
pub mod RoundTrip
pub mod Runs
pub mod Examples
pub mod Exact
pub mod Least
use reckon.Common.{
  ℕ, zero, suc, ◌+◌, ◌-◌, ◌*◌, ◌/◌, ◌%◌, ◌^◌, max, Bool, true, false, not, ◌&&◌, ◌||◌, ltb, leb,
  ◌==◌, if◌then◌else◌, Option, none, some, List, [], ◌∷◌, Result, ok, err, Thrown, range_error,
  ◌>>=◌,
}
use reckon.Common.Int.{ℤ, pos, negsuc, nat_abs, neg_ℤ, ◌+ℤ◌, ◌-ℤ◌, ◌*ℤ◌, ltb_ℤ, eqb_ℤ}

pub data Rounding : Type 0 where
  half_up half_even down up : Rounding

-- `units / 10 ^ scale`
pub record Decimal : Type 0 where
  pub units : ℤ
  pub scale : ℕ

-- `num / den`
pub record Ratio : Type 0 where
  pub num : ℤ
  pub den : ℤ

unfoldable pub pow10 : ℕ → ℤ
pow10 n = pos (10 ^ n)

unfoldable pub is_negative : ℤ → Bool
is_negative a = ltb_ℤ a (pos 0)

-- Whether the quotient `q` with remainder `r` goes up by one.
unfoldable pub goes_up : Rounding → ℕ → ℕ → ℕ → Bool
goes_up up q r b = ltb 0 r
goes_up down q r b = false
goes_up half_up q r b = ltb b (r * 2) || ((r * 2) == b)
goes_up half_even q r b = ltb b (r * 2) || (((r * 2) == b) && ((q % 2) == 1))

-- The rounded quotient of two magnitudes.
unfoldable pub round_nat : ℕ → ℕ → Rounding → ℕ
unfolding goes_up
round_nat m b mode = let q = m / b in let r = m % b in if goes_up mode q r b then q + 1 else q

unfoldable pub signed : Bool → ℕ → ℤ
signed negative q = if negative then neg_ℤ (pos q) else pos q

-- `b` is a positive divisor, or the division throws.
unfoldable pub div_round : ℤ → ℤ → Rounding → Result ℤ
unfolding signed is_negative
div_round a (pos zero) mode = err range_error
div_round a (negsuc b) mode = err range_error
div_round a (pos (suc b)) mode = ok (signed (is_negative a) (round_nat (nat_abs a) (suc b) mode))

-- A Decimal of a whole number: a bigint, or a safe integer.
abbrev pub of_int : ℤ → Decimal
of_int n = record { units = n; scale = 0 }

abbrev pub of_nat : ℕ → Decimal
of_nat n = of_int (pos n)

abbrev pub zero_decimal : Decimal
zero_decimal = of_nat 0

unfoldable pub at : Decimal → ℕ → ℤ
unfolding pow10
at d scale = d.units *ℤ pow10 (scale - d.scale)

unfoldable pub add : Decimal → Decimal → Decimal
add a b = let s = max a.scale b.scale in record { units = at a s +ℤ at b s; scale = s }

unfoldable pub sub : Decimal → Decimal → Decimal
sub a b = let s = max a.scale b.scale in record { units = at a s -ℤ at b s; scale = s }

unfoldable pub mul : Decimal → Decimal → Decimal
mul a b = record { units = a.units *ℤ b.units; scale = a.scale + b.scale }

unfoldable pub neg : Decimal → Decimal
neg a = record { units = neg_ℤ a.units; scale = a.scale }

unfoldable pub round : Decimal → ℕ → Rounding → Result Decimal
unfolding pow10
round d places mode =
    if leb d.scale places then ok (record { units = at d places; scale = places }) else do
      units ← div_round d.units (pow10 (d.scale - places)) mode
      ok (record { units = units; scale = places })

unfoldable pub to_big_int : Decimal → Rounding → Result ℤ
to_big_int d mode = do rounded ← round d 0 mode; ok rounded.units

-- The order of two figures: -1, 0 or 1 in the source.
pub data Order : Type 0 where
  less equal greater : Order

unfoldable pub cmp : Decimal → Decimal → Order
cmp a b =
    let s = max a.scale b.scale in
    if ltb_ℤ (at a s) (at b s) then less else if ltb_ℤ (at b s) (at a s) then greater else equal

abbrev pub is_less : Order → Bool
is_less less = true
is_less equal = false
is_less greater = false

abbrev pub is_equal : Order → Bool
is_equal less = false
is_equal equal = true
is_equal greater = false

abbrev pub is_greater : Order → Bool
is_greater less = false
is_greater equal = false
is_greater greater = true

unfoldable pub eq : Decimal → Decimal → Bool
eq a b = is_equal (cmp a b)

unfoldable pub gt : Decimal → Decimal → Bool
gt a b = is_greater (cmp a b)

unfoldable pub lt : Decimal → Decimal → Bool
lt a b = is_less (cmp a b)

unfoldable pub is_zero : Decimal → Bool
is_zero d = eqb_ℤ d.units (pos 0)

unfoldable pub max_of : Decimal → Decimal → Decimal
max_of a b = if lt a b then b else a

unfoldable pub min_of : Decimal → Decimal → Decimal
min_of a b = if gt a b then b else a

unfoldable pub ratio : Decimal → Ratio
unfolding pow10
ratio d = record { num = d.units; den = pow10 d.scale }

unfoldable pub ratio_mul : Ratio → Ratio → Ratio
ratio_mul a b = record { num = a.num *ℤ b.num; den = a.den *ℤ b.den }

unfoldable pub ratio_div : Ratio → Ratio → Result Ratio
unfolding is_negative
ratio_div a b =
    if eqb_ℤ b.num (pos 0)
    then err range_error
    else let sign = if is_negative b.num then negsuc 0 else pos 1 in
      ok (record { num = a.num *ℤ b.den *ℤ sign; den = a.den *ℤ b.num *ℤ sign })

unfoldable pub ratio_add : Ratio → Ratio → Ratio
ratio_add a b = record { num = a.num *ℤ b.den +ℤ b.num *ℤ a.den; den = a.den *ℤ b.den }

unfoldable pub ratio_round : Ratio → ℕ → Rounding → Result Decimal
unfolding pow10
ratio_round r places mode = do
  units ← div_round (r.num *ℤ pow10 places) r.den mode
  ok (record { units = units; scale = places })

unfoldable pub ratio_to_big_int : Ratio → Rounding → Result ℤ
ratio_to_big_int r mode = div_round r.num r.den mode

-- `Decimal.div`: an exact fraction.
unfoldable pub div : Decimal → Decimal → Result Ratio
div a b = ratio_div (ratio a) (ratio b)
