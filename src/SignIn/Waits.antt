-- ===== src/SignIn/Waits.antt =====
-- lib/server/sign-in-limit.ts: how long an address waits.
use reckon.Common.{
  ℕ, ◌+◌, ◌-◌, ◌≤◌, ◌<◌, ◌≡◌, refl, ◌⊎◌, inl, inr, Bool, true, false, Bool-cases, leb, List, [],
  ◌∷◌, All, filter, length, Text, arith,
}
use reckon.Common.Maps.{get}
use reckon.SignIn.{
  window_ms, max_failures, Failures, failures_of, within_window, recent, seconds_left, wait_for,
}

within_window-outside : (now at : ℕ) → at ≤ now → within_window (now + window_ms) at ≡ false
unfolding within_window
within_window-outside now at h = ground arith

filter-outside :
    (now : ℕ) (times : List ℕ)
    → All (λ at. at ≤ now) times
    → filter (within_window (now + window_ms)) times ≡ []
filter-outside now [] h = refl
filter-outside now (t ∷ ts) (h, hs) =
    rw (within_window-outside now t h, filter-outside now ts hs) refl

-- An address whose wrong passwords are all in the past may try again once a
-- window has passed, however many they were.
pub wait_for-ends :
    (address : Text) (now : ℕ) (m : Failures)
    → All (λ at. at ≤ now) (failures_of (get address m))
    → wait_for address (now + window_ms) m ≡ 0
unfolding wait_for recent seconds_left
wait_for-ends address now m h = rw (filter-outside now (failures_of (get address m)) h) refl

within_window-lt : (now at : ℕ) → within_window now at ≡ true → now - at < window_ms
unfolding within_window
within_window-lt now at e = ground arith

-- Every element that `filter` leaves has passed the test.
filter-All :
    (now : ℕ) (times : List ℕ) → All (λ at. now - at < window_ms) (filter (within_window now) times)
filter-All now [] = tt
filter-All now (t ∷ ts) = elim (Bool-cases (within_window now t)) [
  | inl e ↦ rw e (within_window-lt now t e, filter-All now ts)
  | inr e ↦ rw e (filter-All now ts)
]

All-filter : (P : ℕ → Type 0) (p : ℕ → Bool) (times : List ℕ) → All P times → All P (filter p times)
All-filter P p [] h = tt
All-filter P p (t ∷ ts) (h, hs) = elim (Bool-cases (p t)) [
  | inl e ↦ rw e (h, All-filter P p ts hs)
  | inr e ↦ rw e (All-filter P p ts hs)
]

-- Whether an address with these recent failures may try, and the bound on its wait.
pub IsWait : ℕ → ℕ → Type 0
IsWait failures seconds =
    (failures < max_failures) × (seconds ≡ 0)
    ⊎ (max_failures ≤ failures) × (0 < seconds) × (seconds ≤ 900)

seconds_left-IsWait :
    (now : ℕ) (times : List ℕ)
    → All (λ at. now - at < window_ms) times
    → All (λ at. at ≤ now) times
    → IsWait (length times) (seconds_left now times)
unfolding seconds_left IsWait
seconds_left-IsWait now [] h g = inl (omega arith, refl)
seconds_left-IsWait now (t ∷ ts) (h, hs) (g, gs) =
    elim (Bool-cases (leb max_failures (length (t ∷ ts)))) [
      | inl e ↦ rw e (inr (ground arith, omega arith, omega arith))
      | inr e ↦ rw e (inl (ground arith, refl))
    ]

-- An address whose wrong passwords are all in the past waits exactly when
-- five of them or more are in the last window, and then from a second to 900 of
-- them, fifteen minutes.
pub wait_for-IsWait :
    (address : Text) (now : ℕ) (m : Failures)
    → All (λ at. at ≤ now) (failures_of (get address m))
    → IsWait (length (recent address now m)) (wait_for address now m)
unfolding wait_for recent
wait_for-IsWait address now m h =
    seconds_left-IsWait now _ (filter-All now (failures_of (get address m)))
      (All-filter (λ at. at ≤ now) (within_window now) (failures_of (get address m)) h)
