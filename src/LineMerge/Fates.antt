-- ===== src/LineMerge/Fates.antt =====
-- lib/line-merge.ts, merge: what becomes of each field.
use reckon.Common.{
  ◌≡◌, refl, ◌∙◌, inl, inr, Bool, true, false, not, ◌&&◌, ◌||◌, Bool-cases, Option, none, some,
  List, [], ◌∷◌, ◌++◌, All, Text, text_eq, text_eq_refl, arith, ok,
}
use reckon.Trips.{has_text}
use reckon.LineMerge.{
  merged_fields, Fields, or_empty, same, Side, from_phone, from_server, Merge, set, mine,
  settle_field, merge_field, merge_from, merge,
}
use reckon.LineMerge.Sameness.{same-ok}

-- What a merge has for a field: its value, the side it was taken from, whether it collided.
abbrev pub Has : Merge → Text → Option Text → Option Side → Bool → Type 0
Has m f value side collides =
    (m.fields f ≡ value) × (m.origin f ≡ side) × (has_text f m.collided ≡ collides)

-- What a field comes to, by whether the phone moved it, the server did, and the two agree.
abbrev pub Fate : Bool → Bool → Bool → Option Text → Option Text → Merge → Text → Type 0
Fate false false agree own theirs m f = Has m f theirs none false
Fate true false agree own theirs m f = Has m f (some (or_empty own)) (some from_phone) false
Fate false true agree own theirs m f = Has m f theirs (some from_server) false
Fate true true true own theirs m f = Has m f (some (or_empty own)) (some from_phone) false
Fate true true false own theirs m f = Has m f theirs none true

-- A field merged: kept by neither side, one or both, against what it began as.
abbrev pub Merged : Fields → Fields → Fields → Merge → Text → Type 0
Merged base phone server m f =
    (phone_kept server_kept agree : Bool) × (same f (mine base phone f) (base f) ≡ ok phone_kept)
    × (same f (server f) (base f) ≡ ok server_kept)
    × (same f (mine base phone f) (server f) ≡ ok agree)
    × Fate (not phone_kept) (not server_kept) agree (mine base phone f) (server f) m f

has_text-snoc :
    (f g : Text) (ts : List Text) → has_text f (ts ++ g ∷ []) ≡ has_text f ts || text_eq g f
has_text-snoc f g [] = elim (Bool-cases (text_eq g f)) [ inl t ↦ rw t refl | inr e ↦ rw e refl ]
has_text-snoc f g (t ∷ ts) = elim (Bool-cases (text_eq t f)) [
  | inl e ↦ rw e refl
  | inr e ↦ rw e (has_text-snoc f g ts)
]

set-same {ℓ} : {A : Type ℓ} (o : Text → Option A) (f : Text) (v : A) → set o f v f ≡ some v
set-same o f v = rw (text_eq_refl f) refl

set-other {ℓ} :
    {A : Type ℓ} (o : Text → Option A) (f g : Text) (v : A)
    → text_eq f g ≡ false
    → set o f v g ≡ o g
set-other o f g v e = rw e refl

-- Settling a field leaves what the others come to.
settle_field-other :
    (f g : Text) (own value : Option Text) (side : Option Side) (collides p s a : Bool) (m : Merge)
    → text_eq f g ≡ false
    → Has m g value side collides
    → Has (settle_field f own p s a m) g value side collides
unfolding settle_field
settle_field-other f g own value side collides true true false m e (v, o, c) =
    (v, o, has_text-snoc g f m.collided ∙ rw (c, e) (or-false collides))
  where
    or-false : (b : Bool) → b || false ≡ b
    or-false true = refl
    or-false false = refl
settle_field-other f g own value side collides true true true m e (v, o, c) =
    (set-other m.fields f g (or_empty own) e ∙ v, set-other m.origin f g from_phone e ∙ o, c)
settle_field-other f g own value side collides true false a m e (v, o, c) =
    (set-other m.fields f g (or_empty own) e ∙ v, set-other m.origin f g from_phone e ∙ o, c)
settle_field-other f g own value side collides false true a m e (v, o, c) =
    (v, set-other m.origin f g from_server e ∙ o, c)
settle_field-other f g own value side collides false false a m e h = h

settle_field-Fate :
    (f : Text) (own theirs : Option Text) (p s a : Bool) (m : Merge)
    → Has m f theirs none false
    → Fate p s a own theirs (settle_field f own p s a m) f
unfolding settle_field
settle_field-Fate f own theirs true true false m (v, o, c) =
    (v, o, has_text-snoc f f m.collided ∙ rw (c, text_eq_refl f) refl)
settle_field-Fate f own theirs true true true m (v, o, c) =
    (set-same m.fields f (or_empty own), set-same m.origin f from_phone, c)
settle_field-Fate f own theirs true false a m (v, o, c) =
    (set-same m.fields f (or_empty own), set-same m.origin f from_phone, c)
settle_field-Fate f own theirs false true a m (v, o, c) = (v, set-same m.origin f from_server, c)
settle_field-Fate f own theirs false false a m h = h

-- Fields all different, and different from one that is settled.
abbrev pub is_apart : Text → List Text → Bool
is_apart f [] = true
is_apart f (g ∷ gs) = not (text_eq f g) && not (text_eq g f) && is_apart f gs

abbrev are_apart : List Text → Bool
are_apart [] = true
are_apart (f ∷ fs) = is_apart f fs && are_apart fs

module _ (base phone server : Fields) where
  merge_field-ok :
      (f : Text) (m : Merge)
      → (p s a : Bool) × (same f (mine base phone f) (base f) ≡ ok p)
        × (same f (server f) (base f) ≡ ok s)
        × (same f (mine base phone f) (server f) ≡ ok a)
        × (merge_field base phone server f m
            ≡ ok (settle_field f (mine base phone f) (not p) (not s) a m))
  unfolding merge_field
  merge_field-ok f m =
      let (p, ep) = same-ok f (mine base phone f) (base f) in
      let (s, es) = same-ok f (server f) (base f) in
      let (a, ea) = same-ok f (mine base phone f) (server f) in
      (p, s, a, ep, es, ea, rw ep (rw es (rw ea refl)))

-- What a field came to, it still comes to.
Fate-kept :
    (p s a : Bool) (own theirs : Option Text) (m r : Merge) (f : Text)
    → ((value : Option Text) (side : Option Side) (collides : Bool)
        → Has m f value side collides
        → Has r f value side collides)
    → Fate p s a own theirs m f
    → Fate p s a own theirs r f
Fate-kept false false a own theirs m r f kept h = kept _ _ _ h
Fate-kept true false a own theirs m r f kept h = kept _ _ _ h
Fate-kept false true a own theirs m r f kept h = kept _ _ _ h
Fate-kept true true true own theirs m r f kept h = kept _ _ _ h
Fate-kept true true false own theirs m r f kept h = kept _ _ _ h

-- What a merge holds before a field's turn: the server's value, taken from neither side.
abbrev Untouched : Fields → Merge → List Text → Type 0
Untouched server m fs = All (λ f. Has m f (server f) none false) fs

module _ (base phone server : Fields) where
  Untouched-settle :
      (f : Text) (own : Option Text) (p s a : Bool) (m : Merge) (fs : List Text)
      → is_apart f fs ≡ true
      → Untouched server m fs
      → Untouched server (settle_field f own p s a m) fs
  Untouched-settle f own p s a m [] e h = tt
  Untouched-settle f own p s a m (g ∷ gs) e (h, hs) = (
    settle_field-other f g own (server g) none false p s a m (ground arith) h,
    Untouched-settle f own p s a m gs (ground arith) hs,
  )

  merge_from-Merged :
      (fs : List Text) (m : Merge)
      → are_apart fs ≡ true
      → Untouched server m fs
      → (r : Merge) × (merge_from base phone server fs m ≡ ok r)
        × All (Merged base phone server r) fs
        × ((g : Text) (value : Option Text) (side : Option Side) (collides : Bool)
            → is_apart g fs ≡ true
            → Has m g value side collides
            → Has r g value side collides)
  unfolding merge_from
  merge_from-Merged [] m e h = (m, refl, tt, λ g value side collides e h. h)
  merge_from-Merged (f ∷ fs) m e (h, hs) =
      let own = mine base phone f in
      let (p, s, a, ep, es, ea, step) = merge_field-ok base phone server f m in
      let next = settle_field f own (not p) (not s) a m in
      let (r, run, merged, kept) =
        merge_from-Merged fs next (ground arith)
          (Untouched-settle f own (not p) (not s) a m fs (ground arith) hs) in
      let fate = settle_field-Fate f own (server f) (not p) (not s) a m h in
      (
        r,
        rw step run,
        (
          (
            p,
            s,
            a,
            ep,
            es,
            ea,
            Fate-kept (not p) (not s) a own (server f) next r f
                (λ v d c. kept f v d c (ground arith)) fate,
          ),
          merged,
        ),
        λ g value side collides e h.
            kept g value side collides (ground arith)
              (settle_field-other f g own value side collides (not p) (not s) a m (ground arith) h),
      )

merged_fields-apart : are_apart merged_fields ≡ true
unfolding text_eq
merged_fields-apart = refl

-- A merge always comes to a line, in which each merged field is the server's where neither side or
-- only the server moved it, the phone's where only the phone did or both agree, and otherwise the
-- server's and among the collided; a field that is not merged is the server's.
pub merge-Merged :
    (base phone server : Fields)
    → (r : Merge) × (merge base phone server ≡ ok r)
      × All (Merged base phone server r) merged_fields
      × ((g : Text) → is_apart g merged_fields ≡ true → r.fields g ≡ server g)
unfolding merge
merge-Merged base phone server =
    let start : Merge = record { fields = server; origin = λ f. none; collided = [] } in
    let clean : (f : Text) → Has start f (server f) none false = λ f. (refl, refl, refl) in
    let (r, run, merged, kept) =
      merge_from-Merged base phone server merged_fields start merged_fields-apart
        (clean _, (clean _, (clean _, (clean _, (clean _, (clean _, (clean _, tt))))))) in
    (r, run, merged, λ g e. (kept g (server g) none false e (clean g)).0)
