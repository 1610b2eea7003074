-- ===== src/LineHistory/Events.antt =====
-- lib/line-history.ts: every change is told once, in the order of the form, and a save's changes together.
use mathlib.Core.List.{append_assoc, append-nil, Perm, perm-append_left_iff, perm-append_right_iff}
use mathlib.Core.List.Perm
use reckon.Common.{
  ◌≡◌, refl, sym, ap, ◌∙◌, inl, inr, Bool, true, false, Bool-cases, if◌then◌else◌, if_cases, Option,
  List, [], ◌∷◌, ◌++◌, map, filter, All, Text, text_eq, not, ◌&&◌, arith,
}
use reckon.Common.Sorting.{IsOrder, IsSorted, sort_by-perm, sort_by-IsSorted}
use reckon.TripInput.Values.{Value}
use reckon.LineHistory.{
  HistoryRow, Change, When, HistoryEvent, added, changed, removed, when_of, change_of, same_save,
  join, push_change, is_field, added_mark, deleted_mark, add_row, add_rows, form_before,
  in_form_order,
}

-- Every change that the events tell, in their order.
abbrev pub changes_in : List HistoryEvent → List Change
changes_in [] = []
changes_in (added w v again ∷ es) = changes_in es
changes_in (removed w v ∷ es) = changes_in es
changes_in (changed w cs ∷ es) = cs ++ changes_in es

changes_in-append :
    (es fs : List HistoryEvent) → changes_in (es ++ fs) ≡ changes_in es ++ changes_in fs
changes_in-append [] fs = refl
changes_in-append (added w v again ∷ es) fs = changes_in-append es fs
changes_in-append (removed w v ∷ es) fs = changes_in-append es fs
changes_in-append (changed w cs ∷ es) fs =
    ap (λ xs. cs ++ xs) (changes_in-append es fs)
    ∙ sym (append_assoc cs (changes_in es) (changes_in fs))

changes_in-join :
    (w : When) (c : Change) (e : HistoryEvent)
    → changes_in (join w c e) ≡ changes_in (e ∷ []) ++ c ∷ []
unfolding join
changes_in-join w c (added v was again) = refl
changes_in-join w c (removed v was) = refl
changes_in-join w c (changed v cs) =
    if_cases (λ es. changes_in es ≡ (cs ++ []) ++ c ∷ []) (same_save v w) _ _
      (λ _. append_assoc cs (c ∷ []) [] ∙ ap (λ xs. xs ++ c ∷ []) (sym (append-nil cs)))
      (λ _. ap (λ xs. xs ++ c ∷ []) (sym (append-nil cs)))

changes_in-push_change :
    (w : When) (c : Change) (es : List HistoryEvent)
    → changes_in (push_change w c es) ≡ changes_in es ++ c ∷ []
unfolding push_change
changes_in-push_change w c [] = refl
changes_in-push_change w c (e ∷ []) = changes_in-join w c e
changes_in-push_change w c (added v was again ∷ f ∷ es) = changes_in-push_change w c (f ∷ es)
changes_in-push_change w c (removed v was ∷ f ∷ es) = changes_in-push_change w c (f ∷ es)
changes_in-push_change w c (changed v cs ∷ f ∷ es) =
    ap (λ xs. cs ++ xs) (changes_in-push_change w c (f ∷ es))
    ∙ sym (append_assoc cs (changes_in (f ∷ es)) (c ∷ []))

-- The rows that are changes of a field a person set or sees billed.
abbrev pub is_change : HistoryRow → Bool
is_change r = not (text_eq r.field added_mark) && not (text_eq r.field deleted_mark) && is_field r

module _ (parse : Text → Option Value) where
  one_row :
      (es : List HistoryEvent) (r : HistoryRow)
      → changes_in (add_row parse es r)
        ≡ changes_in es ++ (if is_change r then change_of r ∷ [] else [])
  unfolding add_row
  one_row es r = elim (Bool-cases (text_eq r.field added_mark)) [
    | inl a ↦ rw a (changes_in-append es _)
    | inr na ↦ elim (Bool-cases (text_eq r.field deleted_mark)) [
      | inl d ↦ rw (na, d) (changes_in-append es _)
      | inr nd ↦ elim (Bool-cases (is_field r)) [
        | inl f ↦ rw (na, nd, f) (changes_in-push_change (when_of r) (change_of r) es)
        | inr nf ↦ rw (na, nd, nf) (sym (append-nil (changes_in es)))
      ]
    ]
  ]

  -- The changes that rows make, in their order.
  abbrev pub changes_made : List HistoryRow → List Change
  changes_made rows = map change_of (filter is_change rows)

  pub all_rows :
      (es : List HistoryEvent) (rows : List HistoryRow)
      → changes_in (add_rows parse es rows) ≡ changes_in es ++ changes_made rows
  unfolding add_rows
  all_rows es [] = sym (append-nil (changes_in es))
  all_rows es (r ∷ rs) =
      all_rows (add_row parse es r) rs
      ∙ ap (λ xs. xs ++ changes_made rs) (one_row es r)
      ∙ append_assoc (changes_in es) (if is_change r then change_of r ∷ [] else [])
          (changes_made rs)
      ∙ ap (λ xs. changes_in es ++ xs) (one (is_change r))
    where
      one :
          (b : Bool)
          → (if b then change_of r ∷ [] else []) ++ changes_made rs
            ≡ map change_of (if b then r ∷ filter is_change rs else filter is_change rs)
      one true = refl
      one false = refl

  pub in_form_order-perm :
      (es : List HistoryEvent) → Perm (changes_in (map (in_form_order parse) es)) (changes_in es)
  unfolding in_form_order
  in_form_order-perm [] = Perm.refl []
  in_form_order-perm (added w v again ∷ es) = in_form_order-perm es
  in_form_order-perm (removed w v ∷ es) = in_form_order-perm es
  in_form_order-perm (changed w cs ∷ es) =
      Perm.trans
        ((perm-append_right_iff (changes_in (map (in_form_order parse) es))).1
          (sort_by-perm (form_before parse) cs))
        ((perm-append_left_iff cs).1 (in_form_order-perm es))

  form_before-IsOrder : IsOrder (form_before parse)
  unfolding form_before
  form_before-IsOrder = record { asymm = λ a b h. ground arith; trans = λ a b c h k. ground arith }

  -- A change's fields stand in the order of the form.
  abbrev pub InOrder : HistoryEvent → Type 0
  InOrder (added w v again) = Unit
  InOrder (removed w v) = Unit
  InOrder (changed w cs) = IsSorted (form_before parse) cs

  pub in_form_order-InOrder : (es : List HistoryEvent) → All InOrder (map (in_form_order parse) es)
  unfolding in_form_order
  in_form_order-InOrder [] = tt
  in_form_order-InOrder (added w v again ∷ es) = (tt, in_form_order-InOrder es)
  in_form_order-InOrder (removed w v ∷ es) = (tt, in_form_order-InOrder es)
  in_form_order-InOrder (changed w cs ∷ es) =
      (sort_by-IsSorted (form_before parse) form_before-IsOrder cs, in_form_order-InOrder es)
