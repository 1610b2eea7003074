-- ===== src/Tax/Parts.antt =====
-- lib/server/valuation/tax.ts: the part of one line. No figure that is read throws, and a split never divides by nothing.
use reckon.Common.{
  ◌≡◌, refl, ap, ◌≢◌, inl, inr, true, false, Bool-cases, not, ◌&&◌, Option, none, some, is_some,
  Text, ok, arith,
}
use reckon.Common.Int.{pos, pos_part}
use reckon.Decimal.{Decimal, Ratio, gt, of_nat, zero_decimal, ratio, ratio_mul}
use reckon.Decimal.Numeric.{from}
use reckon.Decimal.Exact.{lt_of_gt, at_self, at-zero}
use reckon.Decimal.Fractions.{IsSound, ratio-IsSound, ratio_mul-IsSound, ratio_div-IsSound}
use reckon.Tax.{
  TaxLine, TaxCheck, Part, pick_field, field, or_else, parse_rate, share_of, split_part,
}

-- A text that is a number.
abbrev pub Reads : Text → Type 0
Reads t = (d : Decimal) × (from t ≡ ok d)

-- What holds of a value when there is one.
abbrev pub Given {ℓ} : {A : Type ℓ} → (A → Type 0) → Option A → Type 0
Given P none = Unit
Given P (some a) = P a

abbrev pub LineReads : TaxLine → Type 0
LineReads l = Reads l.amount × Reads l.tax_rate_pct

-- An answer that has a rate, and whose figures are numbers.
abbrev pub CheckReads : TaxCheck → Type 0
CheckReads c =
    (is_some c.rate_pct ≡ true)
    × Given Reads c.rate_pct
    × Given Reads c.state_pct
    × Given Reads c.district_pct

-- The answers a line is split by: none at all, the earliest alone, or one in force besides.
abbrev pub Known : Option TaxCheck → Option TaxCheck → Type 0
Known none none = Unit
Known none (some c) = CheckReads c
Known (some f) none = ⊥
Known (some f) (some c) = CheckReads f × CheckReads c

-- A part whose fractions can be added and rounded, and which is not estimated and unsplit at once.
abbrev pub IsFair : Part → Type 0
IsFair p =
    IsSound p.tax
    × Given IsSound p.state
    × Given IsSound p.district
    × Reads p.rate
    × ((p.estimated && p.unsplit) ≡ false)

abbrev Parses : Option Text → Type 0
Parses o = (s : Option Decimal) × (parse_rate o ≡ ok s) × (is_some s ≡ is_some o)

parse_rate-ok : (o : Option Text) → Given Reads o → Parses o
unfolding parse_rate
parse_rate-ok none h = (none, refl, refl)
parse_rate-ok (some t) (d, e) = (some d, rw e refl, refl)

pub gt-ne : (d : Decimal) → gt d zero_decimal ≡ true → (ratio d).num ≢ pos 0
unfolding ratio
gt-ne d h z =
    let up = lt_of_gt d zero_decimal d.scale (omega arith) (omega arith) h in
    let up' = rw (at_self d, z, at-zero d.scale) at up in omega (arith, up')

abbrev Shares : Ratio → Option Decimal → Option Text → Type 0
Shares tax split pct = (r : Option Ratio) × (share_of tax split pct ≡ ok r) × Given IsSound r

share_of-ok :
    (tax : Ratio) (split : Option Decimal) (pct : Option Text)
    → IsSound tax
    → Given Reads pct
    → Shares tax split pct
unfolding share_of
share_of-ok tax none pct h k = (none, refl, tt)
share_of-ok tax (some rate) none h k = (none, refl, tt)
share_of-ok tax (some rate) (some pct) h (d, e) = elim (Bool-cases (gt rate zero_decimal)) [
  | inl g ↦
      let (r, run, sound) =
        ratio_div-IsSound (ratio_mul tax (ratio d)) (ratio rate)
          (ratio_mul-IsSound tax (ratio d) h (ratio-IsSound d)) (gt-ne rate g) in
      (some r, rw g (rw e (rw run refl)), sound)
  | inr n ↦ (none, rw n refl, tt)
]

Given-or_else :
    (P : Text → Type 0) (a b : Option Text) → Given P a → Given P b → Given P (or_else a b)
unfolding or_else
Given-or_else P none b h k = k
Given-or_else P (some t) b h k = h

Given-pick_field :
    (of : TaxCheck → Option Text) (inforce first : Option TaxCheck)
    → Given (λ c. Given Reads (of c)) inforce
    → Given (λ c. Given Reads (of c)) first
    → Given Reads (pick_field of inforce first)
unfolding pick_field field
Given-pick_field of none none h k = Given-or_else Reads none none h k
Given-pick_field of none (some c) h k = Given-or_else Reads none (of c) h k
Given-pick_field of (some f) none h k = Given-or_else Reads (of f) none h k
Given-pick_field of (some f) (some c) h k = Given-or_else Reads (of f) (of c) h k

pub hundred : (ratio (of_nat 100)).num ≢ pos 0
unfolding ratio
hundred e = let k : 100 ≡ 0 = ap pos_part e in omega (arith, k)

-- Of a line without an answer nothing is split; of one with an answer, the rate is known.
abbrev Disjoint : (inforce first : Option TaxCheck) (split : Option Decimal) → Type 0
Disjoint inforce first split =
    ((not (is_some inforce) && is_some first) && not (is_some split)) ≡ false

is_some-pick_rate :
    (inforce first : Option TaxCheck) (split : Option Decimal)
    → Known inforce first
    → is_some split ≡ is_some (pick_field (λ c. c.rate_pct) inforce first)
    → Disjoint inforce first split
unfolding pick_field field or_else
is_some-pick_rate none none split k e = refl
is_some-pick_rate (some f) none split k e = refl
is_some-pick_rate (some f) (some c) split k e = refl
is_some-pick_rate none (some c) split k e = rw (e, k.0) refl

pub Known-split :
    (of : TaxCheck → Option Text) (h : (c : TaxCheck) → CheckReads c → Given Reads (of c))
    (inforce first : Option TaxCheck)
    → Known inforce first
    → Given Reads (pick_field of inforce first)
Known-split of h none none k = Given-pick_field of none none tt tt
Known-split of h none (some c) k = Given-pick_field of none (some c) tt (h c k)
Known-split of h (some f) none k = elim k [ ]
Known-split of h (some f) (some c) (kf, kc) =
    Given-pick_field of (some f) (some c) (h f kf) (h c kc)

-- A line whose texts are numbers has a part, whatever is known of its site.
pub split_part-ok :
    (l : TaxLine) (inforce first : Option TaxCheck)
    → LineReads l
    → Known inforce first
    → (p : Part) × (split_part l inforce first ≡ ok p) × IsFair p
unfolding split_part
split_part-ok l inforce first (amount, rate) k =
    let (a, ea) = amount in
    let (r, er) = rate in
    let (tax, et, sound) =
      ratio_div-IsSound (ratio_mul (ratio a) (ratio r)) (ratio (of_nat 100))
        (ratio_mul-IsSound (ratio a) (ratio r) (ratio-IsSound a) (ratio-IsSound r)) hundred in
    let (split, es, same) =
      parse_rate-ok (pick_field (λ c. c.rate_pct) inforce first)
        (Known-split (λ c. c.rate_pct) (λ c h. h.1) inforce first k) in
    let (state, est, sound_state) =
      share_of-ok tax split (pick_field (λ c. c.state_pct) inforce first) sound
        (Known-split (λ c. c.state_pct) (λ c h. h.2) inforce first k) in
    let (district, ed, sound_district) =
      share_of-ok tax split (pick_field (λ c. c.district_pct) inforce first) sound
        (Known-split (λ c. c.district_pct) (λ c h. h.3) inforce first k) in
    (
      record {
        amount = a;
        rate = l.tax_rate_pct;
        tax = tax;
        state = state;
        district = district;
        estimated = not (is_some inforce) && is_some first;
        unsplit = not (is_some split);
        jurisdiction = pick_field (λ c. c.jurisdiction) inforce first;
      },
      rw (ea, er, et, es, est, ed) refl,
      (sound, sound_state, sound_district, rate, is_some-pick_rate inforce first split k same),
    )
