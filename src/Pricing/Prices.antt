-- ===== src/Pricing/Prices.antt =====
-- lib/server/valuation/pricing.ts, priceOn: which price is in force.
use mathlib.Core.Option.{some-injective}
use reckon.Common.{
  ◌≡◌, refl, ap, ◌⊎◌, inl, inr, Bool, true, false, ltb, ◌==◌, Option, none, some, List, Text,
  text_eq_iff, text_lt, text_lt_asymm, text_lt_cotrans,
}
use reckon.Common.Best.{IsRank, by_key, by_key-IsRank, pick-Picks}
use reckon.Common.Says.{
  Says, Says-and, Says-or, Says-not, Says-itself, OwnFirst, AlikeOwned, Foremost, Foremost-Picks,
}
use reckon.Pricing.{
  Price, id_eq, reaches_client, own_rank, fits_price, beats_price, newer_price, price_on,
}

-- Text that is later in the order of `<` ranks higher.
newer_price-IsRank : IsRank newer_price
newer_price-IsRank = record {
  asymm = λ a b h. text_lt_asymm b.effective_from a.effective_from h;
  trans = λ a b c h k. text_lt_cotrans c.effective_from b.effective_from a.effective_from k h;
}

beats_price-IsRank : IsRank beats_price
unfolding beats_price
beats_price-IsRank = by_key-IsRank _ newer_price newer_price-IsRank

pub id_eq-Says : (a b : Option Text) → Says (id_eq a b) (a ≡ b)
id_eq-Says none none = (λ e. refl, λ e. refl)
id_eq-Says none (some b) = (λ e. absurd cc, λ e. absurd cc)
id_eq-Says (some a) none = (λ e. absurd cc, λ e. absurd cc)
id_eq-Says (some a) (some b) =
    (λ e. ap some ((text_eq_iff a b).0 e), λ e. (text_eq_iff a b).1 (some-injective a b e))

-- Every client's, or the very client's.
abbrev pub Reaches : Option Text → Option Text → Type 0
Reaches whose client = (whose ≡ none) ⊎ (whose ≡ client)

pub reaches_client-Says :
    (whose client : Option Text) → Says (reaches_client whose client) (Reaches whose client)
unfolding reaches_client
reaches_client-Says none client = (λ e. inl refl, λ e. refl)
reaches_client-Says (some own) client =
    let (there, back) = id_eq-Says (some own) client in
    (λ e. inr (there e), λ r. elim r [ inl e ↦ absurd cc | inr e ↦ back e ])

-- A rank by whose something is: an owner's own first, and by the other rank among the alike.
module _ {A : Type 0} (own : A → Option Text) {later : A → A → Bool} {Later : A → A → Type 0}
    (rank : (a b : A) → Says (later a b) (Later a b)) where
  abbrev pub Owned : A → A → Type 0
  Owned a b = OwnFirst (own a) (own b) ⊎ AlikeOwned (own a) (own b) × Later a b

  pub by_owner-Says : (a b : A) → Says (by_key (λ x. own_rank (own x)) later a b) (Owned a b)
  unfolding by_key
  by_owner-Says a b =
      Says-or _ _ (first (own a) (own b)) (Says-and _ _ (alike (own a) (own b)) (rank a b))
    where
      first : (x y : Option Text) → Says (ltb (own_rank y) (own_rank x)) (OwnFirst x y)
      first none none = (λ e. absurd cc, λ o. absurd (let e = o.0 in cc))
      first none (some y) = (λ e. absurd cc, λ o. absurd (let e = o.0 in cc))
      first (some x) none = (λ e. (refl, refl), λ o. refl)
      first (some x) (some y) = (λ e. absurd cc, λ o. absurd (let e = o.1 in cc))

      alike : (x y : Option Text) → Says (own_rank x == own_rank y) (AlikeOwned x y)
      alike none none = (λ e. refl, λ e. refl)
      alike none (some y) = (λ e. absurd cc, λ e. absurd cc)
      alike (some x) none = (λ e. absurd cc, λ e. absurd cc)
      alike (some x) (some y) = (λ e. refl, λ e. refl)

-- A price of the service, started by the day, and every client's or this client's.
abbrev pub InForce : Text → Option Text → Text → Price → Type 0
InForce service_id client day p =
    (p.service_id ≡ service_id)
    × ((text_lt day p.effective_from ≡ false) × ((p.entity_id ≡ none) ⊎ (p.entity_id ≡ client)))

-- A client's own before every client's, and of two alike the one that started later.
abbrev pub Precedes : Price → Price → Type 0
Precedes a b =
    OwnFirst a.entity_id b.entity_id
    ⊎ AlikeOwned a.entity_id b.entity_id × (text_lt b.effective_from a.effective_from ≡ true)

fits_price-Says :
    (service_id : Text) (client : Option Text) (day : Text) (p : Price)
    → Says (fits_price service_id client day p) (InForce service_id client day p)
unfolding fits_price
fits_price-Says service_id client day p =
    Says-and _ _ (text_eq_iff p.service_id service_id)
      (Says-and _ _ (Says-not _) (reaches_client-Says p.entity_id client))

beats_price-Says : (a b : Price) → Says (beats_price a b) (Precedes a b)
unfolding beats_price
beats_price-Says a b = by_owner-Says (λ p. p.entity_id) (λ a b. Says-itself (newer_price a b)) a b

-- The price in force is one of the service's, started by the day, every client's or this client's,
-- and no other such price precedes it: a client's own precedes every client's, and then the one that
-- started later; of equals it is the first in the list. There is none exactly where no price is such.
pub price_on-Foremost :
    (prices : List Price) (service_id : Text) (client : Option Text) (day : Text)
    → Foremost
        (InForce service_id client day)
        Precedes
        prices
        (price_on prices service_id client day)
unfolding price_on
price_on-Foremost prices service_id client day =
    Foremost-Picks (fits_price-Says service_id client day) beats_price-Says prices _
      (pick-Picks (fits_price service_id client day) beats_price-IsRank prices)
