-- ===== src/Decimal/Numeric.antt =====
-- lib/decimal.ts: NUMERIC strings read and printed, and the sum of a column of them.
use reckon.Common.{
  ℕ, zero, suc, ◌+◌, ◌-◌, ◌*◌, ◌/◌, ◌%◌, Bool, true, false, ◌&&◌, ltb, leb, ◌==◌, if◌then◌else◌,
  List, [], ◌∷◌, ◌++◌, length, take, drop, replicate, Text, trim, text_eq, Result, ok, err,
  type_error, ◌>>=◌,
}
use reckon.Common.Int.{pos, nat_abs, neg_ℤ, ltb_ℤ}
use reckon.Decimal.{Decimal, Rounding, round, add, zero_decimal}

unfoldable pub is_digit : ℕ → Bool
is_digit c = leb b'0' c && leb c b'9'

-- BigInt of a run of digits, after `acc`.
unfoldable pub value : ℕ → Text → ℕ
value acc [] = acc
value acc (c ∷ cs) = value (acc * 10 + (c - b'0')) cs

-- The longest run of digits, and what follows it.
unfoldable pub span_digits : Text → Text × Text
unfolding is_digit
span_digits [] = ([], [])
span_digits (c ∷ cs) =
    let (run, rest) = span_digits cs in if is_digit c then (c ∷ run, rest) else ([], c ∷ cs)

-- The optional sign: whether it is a minus, and what follows.
unfoldable pub read_sign : Text → Bool × Text
read_sign [] = (false, [])
read_sign (c ∷ cs) =
    if c == b'-' then (true, cs) else if c == b'+' then (false, cs) else (false, c ∷ cs)

unfoldable pub make : Bool → Text → Text → Decimal
unfolding value
make negative whole frac =
    let units = pos (value 0 (whole ++ frac)) in
    record { units = if negative then neg_ℤ units else units; scale = length frac }

unfoldable pub read_end : Bool → Text → Text × Text → Result Decimal
unfolding make
read_end negative whole (frac, []) = ok (make negative whole frac)
read_end negative whole (frac, c ∷ cs) = err type_error

-- The optional point with its digits, at the end of the text.
unfoldable pub read_fraction : Bool → Text → Text → Result Decimal
unfolding read_end
read_fraction negative whole [] = ok (make negative whole [])
read_fraction negative whole (c ∷ cs) =
    if c == b'.' then read_end negative whole (span_digits cs) else err type_error

unfoldable pub read_whole : Bool → Text × Text → Result Decimal
unfolding read_fraction
read_whole negative ([], rest) = err type_error
read_whole negative (c ∷ cs, rest) = read_fraction negative (c ∷ cs) rest

-- `Decimal.from` of a string.
unfoldable pub from : Text → Result Decimal
unfolding read_whole
from v = let (negative, rest) = read_sign (trim v) in read_whole negative (span_digits rest)

-- The digits of `n`, before `acc`: fuel above `n` is enough.
unfoldable pub emit : ℕ → ℕ → Text → Text
emit zero n acc = acc
emit (suc fuel) n acc =
    let digit = b'0' + n % 10 in
    let rest = emit fuel (n / 10) (digit ∷ acc) in if ltb n 10 then digit ∷ acc else rest

-- BigInt.toString of what is not negative.
unfoldable pub print_nat : ℕ → Text
unfolding emit
print_nat n = emit (suc n) n []

unfoldable pub pad_start : ℕ → ℕ → Text → Text
pad_start n c s = replicate (n - length s) c ++ s

-- `Decimal.toString`
unfoldable pub to_text : Decimal → Text
unfolding print_nat pad_start
to_text d =
    let digits = pad_start (d.scale + 1) b'0' (print_nat (nat_abs d.units)) in
    let whole = take (length digits - d.scale) digits in
    let frac = if d.scale == 0 then [] else b'.' ∷ drop (length digits - d.scale) digits in
    (if ltb_ℤ d.units (pos 0) then b'-' ∷ [] else []) ++ (whole ++ frac)

unfoldable pub to_fixed : Decimal → ℕ → Rounding → Result Text
unfolding round to_text
to_fixed d places mode = do rounded ← round d places mode; ok (to_text rounded)

-- What `sum` adds up: figures, NUMERIC strings, or null and undefined.
pub data Summand : Type 0 where
  figure : Decimal → Summand
  numeric : Text → Summand
  nothing : Summand

unfoldable pub add_summand : Decimal → Summand → Result Decimal
unfolding from add text_eq
add_summand total (figure d) = ok (add total d)
add_summand total (numeric v) = if text_eq v [] then ok total else do d ← from v; ok (add total d)
add_summand total nothing = ok total

unfoldable pub sum_from : Decimal → List Summand → Result Decimal
unfolding add_summand
sum_from total [] = ok total
sum_from total (x ∷ xs) = do next ← add_summand total x; sum_from next xs

unfoldable pub sum : List Summand → Result Decimal
unfolding sum_from
sum xs = sum_from zero_decimal xs

unfoldable pub sum_money : List Summand → ℕ → Result Text
unfolding sum to_fixed
sum_money xs places = do total ← sum xs; to_fixed total places Rounding.half_up

-- What the operations take besides a Decimal: a NUMERIC string.
pub data Figure : Type 0 where
  decimal : Decimal → Figure
  string : Text → Figure

unfoldable pub read : Figure → Result Decimal
read (decimal d) = ok d
read (string v) = from v
