-- ===== src/Queue/Stores.antt =====
-- lib/queue.ts: the laws of a store.
use reckon.Common.{
  ◌≡◌, Bool, true, false, ◌==◌, if_cases, Option, none, some, List, [], ◌∷◌, is_some, Text, text_eq,
  text_eq_refl, text_eq_iff, arith,
}
use reckon.Queue.{Queued, put, delete, get, settle, settle_copy, write_back}

module _ {P : Type 0} (key : P → Text) where
  -- Whether a store holds a row under a key.
  abbrev pub has : Text → List (Queued P) → Bool
  has k rows = is_some (get key k rows)

  -- A row written is there, whatever was under its key.
  pub has-put_self :
      (q : Queued P) (rows : List (Queued P)) → has (key q.entry) (put key q rows) ≡ true
  unfolding get put
  has-put_self q [] = rw (text_eq_refl (key q.entry))
  has-put_self q (r ∷ rs) = ground (arith, text_eq_refl (key q.entry), has-put_self q rs)

  -- A write takes no other row away.
  pub has-put :
      (q : Queued P) (k : Text) (rows : List (Queued P))
      → has k rows ≡ true
      → has k (put key q rows) ≡ true
  unfolding get put
  has-put q k [] h = cc
  has-put q k (r ∷ rs) h = ground (
    arith,
    text_eq_iff (key r.entry) (key q.entry),
    text_eq_iff (key r.entry) k,
    text_eq_iff (key q.entry) k,
    has-put q k rs,
  )

  pub has-delete :
      (j k : Text) (rows : List (Queued P))
      → text_eq j k ≡ false
      → has k rows ≡ true
      → has k (delete key j rows) ≡ true
  unfolding get delete
  has-delete j k [] n h = cc
  has-delete j k (r ∷ rs) n h = ground (
    arith,
    text_eq_iff (key r.entry) j,
    text_eq_iff (key r.entry) k,
    text_eq_iff j k,
    has-delete j k rs,
  )

  settle_copy-P :
      (Q : List (Queued P) → Type 0) (q : Queued P) (next : Option (Queued P))
      (rows : List (Queued P)) (o : Option (Queued P))
      → Q rows
      → Q (write_back key q next rows)
      → Q (settle_copy key q next rows o)
  unfolding settle_copy
  settle_copy-P Q q next rows none h k = h
  settle_copy-P Q q next rows (some got) h k =
      if_cases Q (got.queued_at == q.queued_at) (write_back key q next rows) rows (λ _. k) (λ _. h)

  -- Settling one row takes no other row away.
  pub has-settle_other :
      (q : Queued P) (next : Option (Queued P)) (k : Text) (rows : List (Queued P))
      → text_eq (key q.entry) k ≡ false
      → has k rows ≡ true
      → has k (settle key q next rows) ≡ true
  unfolding settle write_back
  has-settle_other q none k rows n h =
      settle_copy-P (λ l. has k l ≡ true) q none rows _ h (has-delete (key q.entry) k rows n h)
  has-settle_other q (some next) k rows n h =
      settle_copy-P (λ l. has k l ≡ true) q (some next) rows _ h (has-put next k rows h)

  -- A row marked as refused is kept.
  pub has-settle_refused :
      (q next : Queued P) (k : Text) (rows : List (Queued P))
      → has k rows ≡ true
      → has k (settle key q (some next) rows) ≡ true
  unfolding settle write_back
  has-settle_refused q next k rows h =
      settle_copy-P (λ l. has k l ≡ true) q (some next) rows _ h (has-put next k rows h)
