-- ===== src/Trips/Examples.antt =====
-- lib/trip-legs.ts: a trip of two drives, and its miles shared.
use reckon.Common.{
  ℕ, ◌≡◌, refl, ◌⊎◌, ◌+◌, List, [], ◌∷◌, length, All, Text, codes, ok, Option, none, some, false,
  trim, trim_start, is_space,
}
use reckon.Common.Int.{pos, ◌*ℤ◌}
use reckon.Common.Sorting.{total}
use reckon.Decimal.{Decimal, round, half_up, at, pow10}
use reckon.Decimal.Numeric.{
  from, read_sign, span_digits, is_digit, read_whole, read_fraction, read_end, make, value,
}
use reckon.Trips.{Stop, Drive, Leg, shares}
use reckon.Trips.Shares.{hundredths, Read, shares-AreShares}
use reckon.Trips.Legs.{legs_of}
use reckon.Trips.Legs.Totals.{Bills, legs_of-Bills}
use reckon.Trips.Places.{Place, Known, estimate, estimate_comm}

abbrev tenths : ℕ → Decimal
tenths n = record { units = pos n; scale = 1 }

ten_reads : from (codes "10.0") ≡ ok (tenths 100)
unfolding from trim trim_start is_space read_sign span_digits is_digit read_whole read_fraction
    read_end make value
ten_reads = refl

ten_rounds : round (tenths 100) 2 half_up ≡ ok (hundredths 1000)
unfolding round at pow10 ◌*ℤ◌
ten_rounds = refl

shares-AreShares_example :
    (ts : List Text) × (us : List ℕ) × (q : ℕ) × (shares (codes "10.0") 3 ≡ ok ts)
    × Read ts us
    × (length us ≡ 3)
    × (total (λ u. u) us ≡ 1000)
    × All (λ u. (u ≡ q) ⊎ (u ≡ q + 1)) us
shares-AreShares_example = shares-AreShares (codes "10.0") (tenths 100) 1000 2 ten_reads ten_rounds

abbrev stop : Stop
stop =
    record { entity_id = codes "ann"; site_id = some (codes "yard"); asked_there = false }
    ∷ record { entity_id = codes "bob"; site_id = none; asked_there = false }
    ∷ []

abbrev drive : Drive
drive = record { miles = codes "10.0"; to = none; estimated = false }

legs_of-Bills_example :
    (legs : List Leg) × (legs_of (stop ∷ []) (drive ∷ drive ∷ []) ≡ ok legs)
    × Bills legs (total (λ w. w) (1000 ∷ 1000 ∷ []))
legs_of-Bills_example =
    legs_of-Bills stop [] (drive ∷ drive ∷ []) (1000 ∷ 1000 ∷ [])
      ((tenths 100, ten_reads, ten_rounds), ((tenths 100, ten_reads, ten_rounds), tt)) refl

abbrev last_driven : Text → Option Known
last_driven key = some (record { miles = codes "4.2"; on = codes "2025-05-01" })

abbrev no_round_trip : Text → Option Text
no_round_trip key = none

estimate_comm_example :
    estimate (λ t. t) Place.base (Place.site (codes "yard")) last_driven no_round_trip
    ≡ estimate (λ t. t) (Place.site (codes "yard")) Place.base last_driven no_round_trip
estimate_comm_example =
    estimate_comm (λ t. t) Place.base (Place.site (codes "yard")) last_driven no_round_trip
