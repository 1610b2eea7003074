-- ===== src/SignIn/Counts.antt =====
-- lib/server/sign-in-limit.ts: what the table keeps of an address is its failures of the last window.
use reckon.Common.{
  ℕ, ◌≤◌, ◌≡◌, refl, sym, ap, ◌∙◌, inl, inr, Bool, false, Bool-cases, if◌then◌else◌, if_cases, List,
  [], ◌∷◌, ◌++◌, filter, Text, text_eq, text_eq_iff, arith,
}
use reckon.Common.Maps.{get, put, keys, get-put, get-delete}
use reckon.SignIn.{
  Failures, failures_of, within_window, recent, keep, forget_old, forget_all, sweep, record_failure,
  clear_failures,
}

-- What is asked of the table: a wrong password, one that was right, or how long to wait.
pub data Attempt : Type 0 where
  failed : Text → ℕ → Attempt
  cleared : Text → Attempt
  asked : Text → ℕ → Attempt

-- The table after an attempt: `waitFor` forgets what is old, too.
unfoldable pub attempt : Attempt → Failures → Failures
unfolding record_failure clear_failures forget_old
attempt (failed address now) failures = record_failure address now failures
attempt (cleared address) failures = clear_failures address failures
attempt (asked address now) failures = forget_old address now failures

unfoldable pub attempts : List Attempt → Failures → Failures
unfolding attempt
attempts [] failures = failures
attempts (a ∷ as') failures = attempts as' (attempt a failures)

-- Every failure of an address since its last right password, after those before.
abbrev pub history : Text → List Attempt → List ℕ → List ℕ
history address [] before = before
history address (failed a now ∷ as') before =
    history address as' (if text_eq a address then before ++ now ∷ [] else before)
history address (cleared a ∷ as') before =
    history address as' (if text_eq a address then [] else before)
history address (asked a now ∷ as') before = history address as' before

-- Attempts in the order of their moments, from `now` to no later than `until`.
abbrev pub InOrder : ℕ → List Attempt → ℕ → Type 0
InOrder now [] until = now ≤ until
InOrder now (failed a t ∷ as') until = (now ≤ t) × InOrder t as' until
InOrder now (cleared a ∷ as') until = InOrder now as' until
InOrder now (asked a t ∷ as') until = (now ≤ t) × InOrder t as' until

InOrder-le : (now until : ℕ) (as' : List Attempt) → InOrder now as' until → now ≤ until
InOrder-le now until [] h = h
InOrder-le now until (failed a t ∷ as') (h, hs) = omega (arith, InOrder-le t until as' hs)
InOrder-le now until (cleared a ∷ as') h = InOrder-le now until as' h
InOrder-le now until (asked a t ∷ as') (h, hs) = omega (arith, InOrder-le t until as' hs)

-- What is old stays old.
within_window-later :
    (now later at : ℕ) → now ≤ later → within_window now at ≡ false → within_window later at ≡ false
unfolding within_window
within_window-later now later at h e = ground arith

filter-filter :
    (now later : ℕ) (times : List ℕ)
    → now ≤ later
    → filter (within_window later) (filter (within_window now) times)
      ≡ filter (within_window later) times
filter-filter now later [] h = refl
filter-filter now later (t ∷ ts) h = elim (Bool-cases (within_window now t)) [
  | inl e ↦ rw (e, filter-filter now later ts h) refl
  | inr e ↦ rw (e, within_window-later now later t h e, filter-filter now later ts h) refl
]

filter-append {ℓ} :
    {A : Type ℓ} (p : A → Bool) (xs ys : List A) → filter p (xs ++ ys) ≡ filter p xs ++ filter p ys
filter-append p [] ys = refl
filter-append p (x ∷ xs) ys = elim (Bool-cases (p x)) [
  | inl e ↦ rw (e, filter-append p xs ys) refl
  | inr e ↦ rw (e, filter-append p xs ys) refl
]

get-keep :
    (a j : Text) (times : List ℕ) (m : Failures)
    → failures_of (get j (keep a times m)) ≡ (if text_eq a j then times else failures_of (get j m))
unfolding keep
get-keep a j [] m = elim (Bool-cases (text_eq a j)) [
  | inl e ↦ rw (get-delete a j m, e) refl
  | inr e ↦ rw (get-delete a j m, e) refl
]
get-keep a j (t ∷ ts) m = elim (Bool-cases (text_eq a j)) [
  | inl e ↦ rw (get-put a j (t ∷ ts) m, e) refl
  | inr e ↦ rw (get-put a j (t ∷ ts) m, e) refl
]

-- The table forgets nothing that is in the window, now or later.
recent-forget_old :
    (a j : Text) (now later : ℕ) (m : Failures)
    → now ≤ later
    → recent j later (forget_old a now m) ≡ recent j later m
unfolding recent forget_old
recent-forget_old a j now later m h = elim (Bool-cases (text_eq a j)) [
  | inl e ↦
      rw (get-keep a j (recent a now m) m, e)
        (rw (ap (λ k. get k m) ((text_eq_iff a j).0 e))
          (filter-filter now later (failures_of (get j m)) h))
  | inr e ↦ rw (get-keep a j (recent a now m) m, e) refl
]

recent-forget_all :
    (ks : List Text) (j : Text) (now later : ℕ) (m : Failures)
    → now ≤ later
    → recent j later (forget_all ks now m) ≡ recent j later m
unfolding forget_all
recent-forget_all [] j now later m h = refl
recent-forget_all (k ∷ ks) j now later m h =
    recent-forget_all ks j now later (forget_old k now m) h ∙ recent-forget_old k j now later m h

recent-sweep :
    (j : Text) (now later : ℕ) (m : Failures)
    → now ≤ later
    → recent j later (sweep now m) ≡ recent j later m
unfolding sweep
recent-sweep j now later m h =
    if_cases (λ x. recent j later x ≡ recent j later m) _ _ _
      (λ _. recent-forget_all (keys m) j now later m h) (λ _. refl)

-- What a failure adds to what is recent, for its own address alone.
recent-record_failure :
    (a j : Text) (now later : ℕ) (m : Failures)
    → now ≤ later
    → recent j later (record_failure a now m) ≡ (
        if text_eq a j
        then recent j later m ++ filter (within_window later) (now ∷ [])
        else recent j later m)
unfolding record_failure recent
recent-record_failure a j now later m h = recent-sweep j now later _ h ∙ added
  where
    added : recent j later (put a (recent a now m ++ now ∷ []) (forget_old a now m)) ≡ (
        if text_eq a j
        then recent j later m ++ filter (within_window later) (now ∷ [])
        else recent j later m)
    added = elim (Bool-cases (text_eq a j)) [
      | inl e ↦
          rw (get-put a j (recent a now m ++ now ∷ []) (forget_old a now m), e)
            (filter-append (within_window later) (recent a now m) (now ∷ [])
              ∙ ap (λ xs. xs ++ filter (within_window later) (now ∷ []))
                  (filter-filter now later (failures_of (get a m)) h
                    ∙ ap (λ k. filter (within_window later) (failures_of (get k m)))
                        ((text_eq_iff a j).0 e)))
      | inr e ↦
          rw (get-put a j (recent a now m ++ now ∷ []) (forget_old a now m), e)
            (recent-forget_old a j now later m h)
    ]

recent-clear_failures :
    (a j : Text) (now : ℕ) (m : Failures)
    → recent j now (clear_failures a m) ≡ (if text_eq a j then [] else recent j now m)
unfolding recent clear_failures
recent-clear_failures a j now m = elim (Bool-cases (text_eq a j)) [
  | inl e ↦ rw (get-delete a j m, e) refl
  | inr e ↦ rw (get-delete a j m, e) refl
]

recent-empty : (j : Text) (now : ℕ) → recent j now [] ≡ []
unfolding recent get
recent-empty j now = refl

-- What an attempt leaves of the recent failures of an address, at a later moment.
recent-attempts :
    (as' : List Attempt) (j : Text) (before : List ℕ) (m : Failures) (now until : ℕ)
    → InOrder now as' until
    → recent j until m ≡ filter (within_window until) before
    → recent j until (attempts as' m) ≡ filter (within_window until) (history j as' before)
unfolding attempts attempt
recent-attempts [] j before m now until h e = e
recent-attempts (failed a t ∷ as') j before m now until (h, hs) e =
    recent-attempts as' j (if text_eq a j then before ++ t ∷ [] else before) (record_failure a t m)
      t until hs (recent-record_failure a j t until m (InOrder-le t until as' hs) ∙ same)
  where
    same :
        (if text_eq a j
          then recent j until m ++ filter (within_window until) (t ∷ [])
          else recent j until m)
        ≡ filter (within_window until) (if text_eq a j then before ++ t ∷ [] else before)
    same = elim (Bool-cases (text_eq a j)) [
      | inl y ↦ rw (y, e) (sym (filter-append (within_window until) before (t ∷ [])))
      | inr n ↦ rw n e
    ]
recent-attempts (cleared a ∷ as') j before m now until hs e =
    recent-attempts as' j (if text_eq a j then [] else before) (clear_failures a m) now until hs
      (recent-clear_failures a j until m ∙ same)
  where
    same :
        (if text_eq a j then [] else recent j until m)
        ≡ filter (within_window until) (if text_eq a j then [] else before)
    same = elim (Bool-cases (text_eq a j)) [ inl y ↦ rw y refl | inr n ↦ rw n e ]
recent-attempts (asked a t ∷ as') j before m now until (h, hs) e =
    recent-attempts as' j before (forget_old a t m) t until hs
      (recent-forget_old a j t until m (InOrder-le t until as' hs) ∙ e)

-- After any sequence of wrong passwords, right ones and questions, of any
-- addresses and in the order of their moments, on an empty table, what the
-- table holds of the last window for an address is what a full record of its
-- wrong passwords since its last right one holds of it: neither forgetting nor
-- sweeping loses a failure that counts.
pub attempts-history :
    (as' : List Attempt) (address : Text) (now : ℕ)
    → InOrder 0 as' now
    → recent address now (attempts as' []) ≡ filter (within_window now) (history address as' [])
attempts-history as' address now h =
    recent-attempts as' address [] [] 0 now h (recent-empty address now)
