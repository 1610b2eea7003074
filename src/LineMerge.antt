-- ===== src/LineMerge.antt =====
-- lib/line-merge.ts: a change made on a phone, merged with what the server has, field by field.
pub mod Sameness
pub mod Fates
pub mod Examples
use reckon.Common.{
  ℕ, Bool, true, false, not, ◌&&◌, ◌==◌, if◌then◌else◌, Option, none, some, List, [], ◌∷◌, ◌++◌,
  any, Text, codes, text_eq, trim, Result, ok, ◌>>=◌,
}
use reckon.Decimal.{eq}
use reckon.Decimal.Numeric.{span_digits, from}
use reckon.Trips.{has_text}

abbrev pub merged_fields : List Text
merged_fields =
    codes "description"
    ∷ codes "qty"
    ∷ codes "site_id"
    ∷ codes "bought_from"
    ∷ codes "ex_tax_cost"
    ∷ codes "tax_paid"
    ∷ codes "paid_by"
    ∷ []

abbrev pub figure_fields : List Text
figure_fields = codes "qty" ∷ codes "ex_tax_cost" ∷ codes "tax_paid" ∷ []

-- A JavaScript object of strings: what it has under each key.
abbrev pub Fields : Type 0
Fields = Text → Option Text

abbrev pub or_empty : Option Text → Text
or_empty none = []
or_empty (some v) = v

-- Digits, at least one, and nothing after them.
unfoldable pub is_run : Text × Text → Bool
is_run ([], rest) = false
is_run (d ∷ ds, []) = true
is_run (d ∷ ds, c ∷ cs) = false

-- (\.\d+)?$
unfoldable pub is_fraction : Text → Bool
unfolding span_digits is_run
is_fraction [] = true
is_fraction (c ∷ cs) = if c == b'.' then is_run (span_digits cs) else false

-- \d+(\.\d+)?$
unfoldable pub is_unsigned : Text × Text → Bool
unfolding is_fraction
is_unsigned ([], rest) = false
is_unsigned (d ∷ ds, rest) = is_fraction rest

-- /^-?\d+(\.\d+)?$/
unfoldable pub is_figure : Text → Bool
unfolding is_unsigned span_digits
is_figure [] = false
is_figure (c ∷ cs) =
    if c == b'-' then is_unsigned (span_digits cs) else is_unsigned (span_digits (c ∷ cs))

unfoldable pub same_figure : Text → Text → Result Bool
same_figure x y = do a ← from x; b ← from y; ok (eq a b)

-- `same`, of two values trimmed.
unfoldable pub same_trimmed : Text → Text → Text → Result Bool
unfolding same_figure is_figure text_eq
same_trimmed field x y =
    if has_text field figure_fields && is_figure x && is_figure y
    then same_figure x y
    else ok (text_eq x y)

unfoldable pub same : Text → Option Text → Option Text → Result Bool
unfolding same_trimmed trim
same field a b = same_trimmed field (trim (or_empty a)) (trim (or_empty b))

pub data Side : Type 0 where
  from_phone from_server : Side

pub record Merge : Type 0 where
  pub fields : Fields
  pub origin : Text → Option Side
  pub collided : List Text

-- object[key] = v
abbrev pub set {ℓ} : {A : Type ℓ} → (Text → Option A) → Text → A → Text → Option A
set object key v k = if text_eq key k then some v else object k

-- phone[f] ?? base[f]
unfoldable pub mine : Fields → Fields → Text → Option Text
mine base phone f = elim (phone f) [ none ↦ base f | some v ↦ some v ]

-- A field, by whether the phone moved it, the server did, and the two agree.
unfoldable pub settle_field : Text → Option Text → Bool → Bool → Bool → Merge → Merge
settle_field f value true true false m = record {
  fields = m.fields;
  origin = m.origin;
  collided = m.collided ++ f ∷ [];
}
settle_field f value true true true m = record {
  fields = set m.fields f (or_empty value);
  origin = set m.origin f from_phone;
  collided = m.collided;
}
settle_field f value true false agree m = record {
  fields = set m.fields f (or_empty value);
  origin = set m.origin f from_phone;
  collided = m.collided;
}
settle_field f value false true agree m = record {
  fields = m.fields;
  origin = set m.origin f from_server;
  collided = m.collided;
}
settle_field f value false false agree m = m

unfoldable pub merge_field : Fields → Fields → Fields → Text → Merge → Result Merge
unfolding mine same settle_field
merge_field base phone server f m = do
  phone_kept ← same f (mine base phone f) (base f)
  server_kept ← same f (server f) (base f)
  agree ← same f (mine base phone f) (server f)
  ok (settle_field f (mine base phone f) (not phone_kept) (not server_kept) agree m)

unfoldable pub merge_from : Fields → Fields → Fields → List Text → Merge → Result Merge
unfolding merge_field
merge_from base phone server [] m = ok m
merge_from base phone server (f ∷ fs) m = do
  next ← merge_field base phone server f m
  merge_from base phone server fs next

unfoldable pub merge : Fields → Fields → Fields → Result Merge
unfolding merge_from
merge base phone server =
    merge_from base phone server merged_fields
      (record { fields = server; origin = λ f. none; collided = [] })
