-- ===== src/Entries/Agreements.antt =====
-- lib/server/valuation/entries.ts, agreementFor: the agreement an entry falls under, of all there are.
use reckon.Common.{
  ◌≡◌, refl, ap, sym, ◌∙◌, subst, ◌⊎◌, inl, inr, Bool, true, not, ◌&&◌, ◌||◌, ◌==◌, Bool-cases,
  Option-cases, if_cases, is_some, Option, none, some, List, [], ◌∷◌, Text, text_lt, text_lt_asymm,
  text_lt_cotrans, arith,
}
use reckon.Common.Best.{IsRank, better_of, pick, pick-Picks}
use reckon.Common.Says.{
  Says, Says-and, Says-or, Says-itself, OwnFirst, AlikeOwned, Foremost, Foremost-Picks,
}
use reckon.Pricing.{own_rank}
use reckon.Entries.{Entry, Agreement, Hit, hit_of, hits, beats_hit, best_hit, agreement_for}
use reckon.Entries.Hits.{FirstNamed, Covering, is_covering, hit_of-Says, hit_of-a}

-- A site's own before the client's whole, and of two alike the one that started later.
abbrev pub Supersedes : Agreement → Agreement → Type 0
Supersedes a b =
    OwnFirst a.site_id b.site_id
    ⊎ AlikeOwned a.site_id b.site_id × (text_lt b.starts_on a.starts_on ≡ true)

beats_agreement : Agreement → Agreement → Bool
beats_agreement a b =
    (is_some a.site_id && not (is_some b.site_id))
    || ((own_rank a.site_id == own_rank b.site_id) && text_lt b.starts_on a.starts_on)

beats_agreement-IsRank : IsRank beats_agreement
unfolding beats_agreement
beats_agreement-IsRank = record {
  asymm = λ a b h. ground (arith, text_lt_asymm b.starts_on a.starts_on);
  trans = λ a b c h k. ground (arith, text_lt_cotrans c.starts_on b.starts_on a.starts_on);
}

beats_agreement-Says : (a b : Agreement) → Says (beats_agreement a b) (Supersedes a b)
unfolding beats_agreement
beats_agreement-Says a b =
    Says-or _ _ (first a.site_id b.site_id)
      (Says-and _ _ (alike a.site_id b.site_id) (Says-itself _))
  where
    first : (x y : Option Text) → Says (is_some x && not (is_some y)) (OwnFirst x y)
    first none y = (λ e. absurd cc, λ o. absurd (let e = o.0 in cc))
    first (some x) none = (λ e. (refl, refl), λ o. refl)
    first (some x) (some y) = (λ e. absurd cc, λ o. absurd (let e = o.1 in cc))

    alike : (x y : Option Text) → Says (own_rank x == own_rank y) (AlikeOwned x y)
    alike none none = (λ e. refl, λ e. refl)
    alike none (some y) = (λ e. absurd cc, λ e. absurd cc)
    alike (some x) none = (λ e. absurd cc, λ e. absurd cc)
    alike (some x) (some y) = (λ e. refl, λ e. refl)

-- The agreement of a hit.
abbrev pub of_hit : Option Hit → Option Agreement
of_hit none = none
of_hit (some h) = some h.a

of_hit-better_of :
    (h : Hit) (best : Option Hit)
    → of_hit (better_of (λ _. true) beats_hit h best)
      ≡ better_of (λ _. true) beats_agreement h.a (of_hit best)
unfolding better_of beats_hit beats_agreement
of_hit-better_of h none = refl
of_hit-better_of h (some b) = elim (Bool-cases (beats_hit h b)) [
  | inl y ↦ rw y refl
  | inr n ↦ rw n refl
]

-- The best of the hits is the best of the agreements that are hit.
of_hit-pick :
    (client : Text) (e : Entry) (best : Option Hit) (agreements : List Agreement)
    → of_hit (pick (λ _. true) beats_hit best (hits client e agreements))
      ≡ pick (is_covering client e) beats_agreement (of_hit best) agreements
unfolding pick hits
of_hit-pick client e best [] = refl
of_hit-pick client e best (a ∷ as') = elim (Option-cases (hit_of client e a)) [
  | inl n ↦ rw n (of_hit-pick client e best as')
  | inr (h, k) ↦
      let (same, _) = hit_of-a client e a h k in
      rw k (
        of_hit-pick client e (better_of (λ _. true) beats_hit h best) as'
        ∙ ap (λ o. pick (is_covering client e) beats_agreement o as')
            (of_hit-better_of h best
              ∙ ap (λ x. better_of (λ _. true) beats_agreement x (of_hit best)) same))
]

-- The line of a hit is the first of its agreement that names the entry's service.
abbrev pub OnItsLine : Entry → Option Hit → Type 0
OnItsLine e none = Unit
OnItsLine e (some h) = FirstNamed e.service_id h.a.services h.s

better_of-OnItsLine :
    (e : Entry) (h : Hit) (best : Option Hit)
    → OnItsLine e (some h)
    → OnItsLine e best
    → OnItsLine e (better_of (λ _. true) beats_hit h best)
unfolding better_of
better_of-OnItsLine e h none n k = n
better_of-OnItsLine e h (some b) n k =
    if_cases (OnItsLine e) (beats_hit h b) (some h) (some b) (λ _. n) (λ _. k)

pick-OnItsLine :
    (client : Text) (e : Entry) (best : Option Hit) (agreements : List Agreement)
    → OnItsLine e best
    → OnItsLine e (pick (λ _. true) beats_hit best (hits client e agreements))
unfolding pick hits
pick-OnItsLine client e best [] n = n
pick-OnItsLine client e best (a ∷ as') n = elim (Option-cases (hit_of client e a)) [
  | inl k ↦ rw k (pick-OnItsLine client e best as' n)
  | inr (h, k) ↦
      let (_, line) = hit_of-a client e a h k in
      let next = better_of (λ _. true) beats_hit h best in
      rw k (pick-OnItsLine client e next as' (better_of-OnItsLine e h best line n))
]

best_hit-Foremost :
    (e : Entry) (agreements : List Agreement) (client : Text)
    → Foremost
        (Covering client e)
        Supersedes
        agreements
        (of_hit (best_hit (some client) e agreements))
      × OnItsLine e (best_hit (some client) e agreements)
unfolding best_hit
best_hit-Foremost e agreements client = (
  subst (Foremost (Covering client e) Supersedes agreements)
      (sym (of_hit-pick client e none agreements))
      (Foremost-Picks (hit_of-Says client e) beats_agreement-Says agreements _
        (pick-Picks (is_covering client e) beats_agreement-IsRank agreements)),
  pick-OnItsLine client e none agreements tt,
)

-- The agreement an entry of a client falls under is one of the client's, whole or of the entry's site,
-- started by the day worked and not ended before it, that has a line for the service, and no other such
-- agreement supersedes it: a site's own supersedes the client's whole, and then the later to start; of
-- equals it is the first in the list. The line is the first for the service. There is none exactly where
-- no agreement is such.
pub agreement_for-Foremost :
    (e : Entry) (agreements : List Agreement) (client : Text)
    → e.entity_id ≡ some client
    → Foremost (Covering client e) Supersedes agreements (of_hit (agreement_for e agreements))
      × OnItsLine e (agreement_for e agreements)
unfolding agreement_for
agreement_for-Foremost e agreements client h =
    subst
      (λ o.
        Foremost (Covering client e) Supersedes agreements (of_hit (best_hit o e agreements))
        × OnItsLine e (best_hit o e agreements))
      (sym h) (best_hit-Foremost e agreements client)
