-- ===== src/SignIn.antt =====
-- lib/server/sign-in-limit.ts: wrong passwords, counted for each client address. A moment is epoch ms.
pub mod Counts
pub mod Waits
pub mod Examples
use reckon.Common.{
  ℕ, ◌+◌, ◌-◌, ◌*◌, ◌/◌, Bool, true, false, ltb, leb, if◌then◌else◌, Option, none, some, List, [],
  ◌∷◌, ◌++◌, filter, length, Text,
}
use reckon.Common.Maps.{Map, get, put, delete, keys}

abbrev pub window_ms : ℕ
window_ms = 15 * 60 * 1000

abbrev pub max_failures : ℕ
max_failures = 5

-- The moments of an address's wrong passwords, oldest first.
abbrev pub Failures : Type 0
Failures = Map (List ℕ)

abbrev pub failures_of : Option (List ℕ) → List ℕ
failures_of none = []
failures_of (some times) = times

unfoldable pub within_window : ℕ → ℕ → Bool
within_window now at = ltb (now - at) window_ms

-- What `recent` answers.
unfoldable pub recent : Text → ℕ → Failures → List ℕ
unfolding within_window get
recent address now failures = filter (within_window now) (failures_of (get address failures))

unfoldable pub keep : Text → List ℕ → Failures → Failures
unfolding put delete
keep address [] failures = delete address failures
keep address (at ∷ times) failures = put address (at ∷ times) failures

-- What `recent` leaves: only the failures that it answers, and no key for none.
unfoldable pub forget_old : Text → ℕ → Failures → Failures
unfolding recent keep
forget_old address now failures = keep address (recent address now failures) failures

unfoldable pub seconds_left : ℕ → List ℕ → ℕ
seconds_left now [] = 0
seconds_left now (first ∷ rest) =
    if leb max_failures (length (first ∷ rest)) then (first + window_ms - now + 999) / 1000 else 0

-- `waitFor`: the seconds until the address may try again.
unfoldable pub wait_for : Text → ℕ → Failures → ℕ
unfolding recent seconds_left
wait_for address now failures = seconds_left now (recent address now failures)

unfoldable pub forget_all : List Text → ℕ → Failures → Failures
unfolding forget_old
forget_all [] now failures = failures
forget_all (k ∷ ks) now failures = forget_all ks now (forget_old k now failures)

-- Addresses that never come back do not stay for ever.
unfoldable pub sweep : ℕ → Failures → Failures
unfolding forget_all keys
sweep now failures =
    let swept = forget_all (keys failures) now failures in
    if ltb 1000 (length failures) then swept else failures

unfoldable pub record_failure : Text → ℕ → Failures → Failures
unfolding sweep forget_old recent put
record_failure address now failures =
    sweep now
      (put address (recent address now failures ++ now ∷ []) (forget_old address now failures))

unfoldable pub clear_failures : Text → Failures → Failures
unfolding delete
clear_failures address failures = delete address failures
