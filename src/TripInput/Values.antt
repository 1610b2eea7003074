-- ===== src/TripInput/Values.antt =====
-- lib/server/trip-input.ts: what a request's body holds, and the patterns and readers of single fields.
use reckon.Common.{
  ℕ, ◌+◌, Bool, true, false, not, ◌&&◌, ◌||◌, leb, ◌==◌, if◌then◌else◌, Option, none, some, List,
  [], ◌∷◌, ◌++◌, filter, length, replicate, map, Text, text_eq, trim,
}
use reckon.Decimal.{Decimal, is_zero}
use reckon.Decimal.Numeric.{is_digit, span_digits}

-- A value of a parsed body; `undefined` is what a key that is not there reads as.
mutual
  pub data Value : Type 0 where
    undefined null : Value
    boolean : Bool → Value
    number : Decimal → Value
    string : Text → Value
    array : Items → Value
    object : Members → Value

  pub data Items : Type 0 where
    no_items : Items
    item : Value → Items → Items

  pub data Members : Type 0 where
    no_members : Members
    member : Text → Value → Members → Members

unfoldable pub items : Items → List Value
items no_items = []
items (item v vs) = v ∷ items vs

-- body[field]
unfoldable pub property : Text → Members → Value
unfolding text_eq
property field no_members = undefined
property field (member k v ms) = let rest = property field ms in if text_eq k field then v else rest

-- (raw && typeof raw === 'object' ? raw : {}): an array has none of the keys that are read.
unfoldable pub members_of : Value → Members
members_of (object ms) = ms
members_of undefined = no_members
members_of null = no_members
members_of (boolean b) = no_members
members_of (number n) = no_members
members_of (string t) = no_members
members_of (array vs) = no_members

-- v === null || v === undefined || v === ''
unfoldable pub is_absent : Value → Bool
is_absent undefined = true
is_absent null = true
is_absent (string []) = true
is_absent (string (c ∷ cs)) = false
is_absent (boolean b) = false
is_absent (number n) = false
is_absent (array vs) = false
is_absent (object ms) = false

-- Whether a condition takes the value: of numbers, zero alone is not taken.
unfoldable pub is_truthy : Value → Bool
unfolding is_zero
is_truthy undefined = false
is_truthy null = false
is_truthy (boolean b) = b
is_truthy (number n) = not (is_zero n)
is_truthy (string []) = false
is_truthy (string (c ∷ cs)) = true
is_truthy (array vs) = true
is_truthy (object ms) = true

-- v === true
unfoldable pub is_true : Value → Bool
is_true (boolean b) = b
is_true undefined = false
is_true null = false
is_true (number n) = false
is_true (string t) = false
is_true (array vs) = false
is_true (object ms) = false

-- The text of a string, and none for anything else.
unfoldable pub text_of : Value → Option Text
text_of (string t) = some t
text_of undefined = none
text_of null = none
text_of (boolean b) = none
text_of (number n) = none
text_of (array vs) = none
text_of (object ms) = none

-- The items of an array, and none for anything else.
unfoldable pub items_of : Value → Option (List Value)
unfolding items
items_of (array vs) = some (items vs)
items_of undefined = none
items_of null = none
items_of (boolean b) = none
items_of (number n) = none
items_of (string t) = none
items_of (object ms) = none

-- A text of one character for each class, in turn.
unfoldable pub matches : List (ℕ → Bool) → Text → Bool
matches [] [] = true
matches [] (c ∷ cs) = false
matches (p ∷ ps) [] = false
matches (p ∷ ps) (c ∷ cs) = let rest = matches ps cs in if p c then rest else false

unfoldable pub is_dash : ℕ → Bool
is_dash c = c == b'-'

-- [0-9a-f], in either case
unfoldable pub is_hex : ℕ → Bool
unfolding is_digit
is_hex c = is_digit c || leb b'a' c && leb c b'f' || leb b'A' c && leb c b'F'

-- UUID
unfoldable pub is_uuid : Text → Bool
unfolding matches is_hex is_dash
is_uuid v =
    matches
      (replicate 8 is_hex
        ++ is_dash ∷ replicate 4 is_hex
        ++ is_dash ∷ replicate 4 is_hex
        ++ is_dash ∷ replicate 4 is_hex
        ++ is_dash ∷ replicate 12 is_hex)
      v

-- DAY
unfoldable pub is_day : Text → Bool
unfolding matches is_digit is_dash
is_day v =
    matches
      (replicate 4 is_digit ++ is_dash ∷ replicate 2 is_digit ++ is_dash ∷ replicate 2 is_digit) v

unfoldable pub between : ℕ → ℕ → ℕ → Bool
between low high n = leb low n && leb n high

-- \d{1,most}$
unfoldable pub is_places : ℕ → Text × Text → Bool
unfolding between
is_places most (frac, []) = between 1 most (length frac)
is_places most (frac, c ∷ cs) = false

-- (\.\d{1,most})?$
unfoldable pub is_point : ℕ → Text → Bool
unfolding is_places span_digits
is_point most [] = true
is_point most (c ∷ cs) = if c == b'.' then is_places most (span_digits cs) else false

unfoldable pub is_amount_split : ℕ → ℕ → Text × Text → Bool
unfolding is_point between
is_amount_split most places (whole, rest) = between 1 most (length whole) && is_point places rest

-- ^\d{1,most}(\.\d{1,places})?$
unfoldable pub is_amount : ℕ → ℕ → Text → Bool
unfolding is_amount_split span_digits
is_amount most places v = is_amount_split most places (span_digits v)

-- MILES
unfoldable pub is_miles : Text → Bool
unfolding is_amount
is_miles v = is_amount 4 2 v

-- ODOMETER
unfoldable pub is_odometer : Text → Bool
unfolding is_amount
is_odometer v = is_amount 8 1 v

-- A letter A to Z in lower case, as an id has no other.
unfoldable pub lower : ℕ → ℕ
lower c = if leb b'A' c && leb c b'Z' then c + 32 else c

unfoldable pub uuid_text : Option Text → Option Text
unfolding is_uuid lower
uuid_text none = none
uuid_text (some t) = if is_uuid t then some (map lower t) else none

-- `id`
unfoldable pub id : Value → Option Text
unfolding uuid_text text_of
id v = uuid_text (text_of v)

unfoldable pub capped : Option Text → ℕ → Option Text
unfolding between trim
capped none cap = none
capped (some t) cap = if between 1 cap (length (trim t)) then some (trim t) else none

-- `text`: trimmed, not empty, and no longer than the cap.
unfoldable pub text : Value → ℕ → Option Text
unfolding capped text_of
text v cap = capped (text_of v) cap

-- v.replace(/,/g, '')
unfoldable pub without_commas : Text → Text
without_commas t = filter (λ c. not (c == b',')) t
