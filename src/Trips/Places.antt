-- ===== src/Trips/Places.antt =====
-- lib/trip-legs.ts, places and estimates. `lower` is String.prototype.toLowerCase.
use reckon.Common.{
  Bool, true, false, if◌then◌else◌, Option, none, some, [], ◌∷◌, ◌++◌, Text, codes, text_lt, trim,
  is_space, Result, ok, ◌>>=◌, ◌≡◌, refl, Bool-cases, inl, inr, text_lt_asymm, eq_of_not_lt,
}
use reckon.Decimal.{half_up, of_nat, div, ratio_round}
use reckon.Decimal.Numeric.{from, to_fixed}

pub data Place : Type 0 where
  base : Place
  site : Text → Place
  address : Text → Place

-- Each run of white space becomes one space; `within` while in a run.
unfoldable pub collapse : Bool → Text → Text
unfolding is_space
collapse within [] = []
collapse within (c ∷ cs) =
    let in_run = collapse true cs in
    let out = collapse false cs in
    if is_space c then if within then in_run else b' ' ∷ in_run else c ∷ out

unfoldable pub place_key : (Text → Text) → Place → Text
unfolding collapse trim
place_key lower base = codes "base"
place_key lower (site s) = codes "site:" ++ s
place_key lower (address a) = codes "address:" ++ collapse false (lower (trim a))

-- [a, b].sort().join(' ~ ')
unfoldable pub join_sorted : Text → Text → Text
unfolding text_lt
join_sorted a b = if text_lt b a then b ++ codes " ~ " ++ a else a ++ codes " ~ " ++ b

unfoldable pub drive_key : (Text → Text) → Place → Place → Text
unfolding place_key join_sorted
drive_key lower a b = join_sorted (place_key lower a) (place_key lower b)

pub data EstimateFrom : Type 0 where
  google last by_site : EstimateFrom

pub record Estimate : Type 0 where
  pub miles : Text
  pub origin : EstimateFrom
  pub on : Option Text

-- How a drive was last driven.
pub record Known : Type 0 where
  pub miles : Text
  pub on : Text

-- The site, when the drive is between the base and it, and otherwise the empty key.
unfoldable pub site_between : Place → Place → Text
site_between base (site s) = s
site_between (site s) base = s
site_between base base = []
site_between base (address a) = []
site_between (site s) (site t) = []
site_between (site s) (address a) = []
site_between (address a) b = []

abbrev pub from_last : Known → Result (Option Estimate)
from_last k = do
  d ← from k.miles
  miles ← to_fixed d 1 half_up
  ok (some (record { miles = miles; origin = last; on = some k.on }))

abbrev pub half_of : Text → Result (Option Estimate)
half_of round = do
  d ← from round
  r ← div d (of_nat 2)
  half ← ratio_round r 1 half_up
  miles ← to_fixed half 1 half_up
  ok (some (record { miles = miles; origin = by_site; on = none }))

abbrev pub from_round_trip : Option Text → Result (Option Estimate)
from_round_trip none = ok none
from_round_trip (some []) = ok none
from_round_trip (some (c ∷ cs)) = half_of (c ∷ cs)

unfoldable pub from_known : Option Known → Option Text → Result (Option Estimate)
from_known none round = from_round_trip round
from_known (some k) round = from_last k

-- What a drive most likely was: `known` by drive key, `round_trips` by site.
unfoldable pub estimate :
    (Text → Text)
    → Place
    → Place
    → (Text → Option Known)
    → (Text → Option Text)
    → Result (Option Estimate)
unfolding drive_key site_between from_known
estimate lower from_place to_place known round_trips =
    from_known (known (drive_key lower from_place to_place))
      (round_trips (site_between from_place to_place))

join_sorted_comm : (a b : Text) → join_sorted a b ≡ join_sorted b a
unfolding join_sorted
join_sorted_comm a b = elim (Bool-cases (text_lt a b)) [
  | inl t ↦ rw (t, text_lt_asymm a b t) refl
  | inr f ↦ elim (Bool-cases (text_lt b a)) [
    | inl t ↦ rw (f, t) refl
    | inr g ↦ rw (eq_of_not_lt a b f g) refl
  ]
]

drive_key_comm : (lower : Text → Text) (a b : Place) → drive_key lower a b ≡ drive_key lower b a
unfolding drive_key
drive_key_comm lower a b = join_sorted_comm (place_key lower a) (place_key lower b)

site_between_comm : (a b : Place) → site_between a b ≡ site_between b a
unfolding site_between
site_between_comm base base = refl
site_between_comm base (site s) = refl
site_between_comm base (address a) = refl
site_between_comm (site s) base = refl
site_between_comm (site s) (site t) = refl
site_between_comm (site s) (address a) = refl
site_between_comm (address a) base = refl
site_between_comm (address a) (site s) = refl
site_between_comm (address a) (address b) = refl

-- What a drive between two places is estimated at does not depend on which way it is driven.
pub estimate_comm :
    (lower : Text → Text) (a b : Place) (known : Text → Option Known)
    (round_trips : Text → Option Text)
    → estimate lower a b known round_trips ≡ estimate lower b a known round_trips
unfolding estimate
estimate_comm lower a b known round_trips =
    rw (drive_key_comm lower a b, site_between_comm a b) refl
