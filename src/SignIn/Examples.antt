-- ===== src/SignIn/Examples.antt =====
-- lib/server/sign-in-limit.ts: five wrong passwords from one address, and one from another.
use reckon.Common.{
  ◌≡◌, refl, ◌+◌, ◌≤◌, List, [], ◌∷◌, Text, codes, All, length, arith, filter, text_eq,
}
use reckon.Common.Maps.{get, put, delete, keys}
use reckon.SignIn.{
  Failures, failures_of, within_window, recent, keep, forget_old, seconds_left, wait_for,
  forget_all, sweep, record_failure, clear_failures, window_ms,
}
use reckon.SignIn.Counts.{
  Attempt, failed, cleared, asked, attempt, attempts, history, attempts-history,
}
use reckon.SignIn.Waits.{IsWait, wait_for-ends, wait_for-IsWait}

abbrev here : Text
here = codes "::1"

abbrev there : Text
there = codes "10.0.0.2"

abbrev tried : List Attempt
tried =
    failed here 1000
    ∷ failed there 1500
    ∷ failed here 2000
    ∷ asked here 2000
    ∷ cleared there
    ∷ failed here 700000
    ∷ failed here 800000
    ∷ failed here 850000
    ∷ []

abbrev table : Failures
table = (here, 1000 ∷ 2000 ∷ 700000 ∷ 800000 ∷ 850000 ∷ []) ∷ []

attempts-tried : attempts tried [] ≡ table
unfolding attempts attempt record_failure clear_failures forget_old forget_all sweep keep recent
    within_window get put delete keys text_eq
attempts-tried = refl

wait_for-tried : wait_for here 860000 table ≡ 41
unfolding wait_for recent within_window seconds_left get text_eq
wait_for-tried = refl

attempts-history_example :
    recent here 901500 (attempts tried []) ≡ filter (within_window 901500) (history here tried [])
attempts-history_example = attempts-history tried here 901500 (
  omega arith,
  (
    omega arith,
    (omega arith, (omega arith, (omega arith, (omega arith, (omega arith, omega arith))))),
  ),
)

failures_of-table : All (λ at. at ≤ 860000) (failures_of (get here table))
unfolding get text_eq
failures_of-table = (omega arith, (omega arith, (omega arith, (omega arith, (omega arith, tt)))))

wait_for-ends_example : wait_for here (860000 + window_ms) table ≡ 0
wait_for-ends_example = wait_for-ends here 860000 table failures_of-table

wait_for-IsWait_example : IsWait (length (recent here 860000 table)) (wait_for here 860000 table)
wait_for-IsWait_example = wait_for-IsWait here 860000 table failures_of-table
