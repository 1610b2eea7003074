-- ===== src/TripInput/Steps.antt =====
-- lib/server/trip-input.ts: a step of the reading, and what it refuses.
use reckon.Common.{if◌then◌else◌, Option, none, some, List, [], ◌∷◌, is_some, Text}
use reckon.Common.Maps.{Map, get, put}
use reckon.TripInput.Values.{Value, is_absent}

-- A step of the reading: its value, and the refusals so far.
abbrev pub Checked : Type 0 → Type 0
Checked A = Map Text → A × Map Text

abbrev pub pure : {A : Type 0} → A → Checked A
pure a errors = (a, errors)

infixl 5 ◌>>=◌
abbrev pub ◌>>=◌ : {A B : Type 0} → Checked A → (A → Checked B) → Checked B
(m >>= next) errors = let (a, after) = m errors in next a after

-- errors[field] ??= why
unfoldable pub no : Text → Text → Map Text → Map Text
unfolding get put
no field why errors = if is_some (get field errors) then errors else put field why errors

-- value ?? no(field, why)
unfoldable pub require : {A : Type 0} → Text → Text → Option A → Checked (Option A)
unfolding no
require field why none errors = (none, no field why errors)
require field why (some a) errors = (some a, errors)

-- A field that may be left out, and else is read.
unfoldable pub optional : Text → Text → Value → Option Text → Checked (Option Text)
unfolding require is_absent
optional field why v read = if is_absent v then pure none else require field why read

-- One element of a list: read, or why the whole list is refused.
pub data Verdict (A : Type 0) : Type 0 where
  fine : A → Verdict A
  wrong : Text → Verdict A

-- One read goes on with the rest; one that is wrong ends the loop, and is refused.
unfoldable pub go_on :
    {A : Type 0} → Text → Verdict A → List A × Map Text → Map Text → List A × Map Text
unfolding no
go_on field (fine a) (rest, after) errors = (a ∷ rest, after)
go_on field (wrong why) (rest, after) errors = ([], no field why errors)

-- for (const raw of raws) { ...; if (wrong) { no(field, why); break; } out.push(...) }
unfoldable pub read_each : {A : Type 0} → Text → (Value → Verdict A) → List Value → Checked (List A)
unfolding go_on
read_each field read [] errors = ([], errors)
read_each field read (raw ∷ raws) errors =
    go_on field (read raw) (read_each field read raws errors) errors
