-- ===== src/Doko/Balance.antt =====
-- Doppelkopf: the points of a game (apps/duell-web/src/doko.js: result).
-- What the seats with points above and below zero get, all together.
use cads_agent_marketplace.Common.{
  Bool, List, Option, [], arith, false, if◌then◌else◌, list_eq, map, nat_eq, none, some, true, ℕ,
  ◌*◌, ◌+◌, ◌<◌, ◌==◌, ◌||◌, ◌∷◌, ◌≡◌, ◌≢◌,
}
use cads_agent_marketplace.Common.Int.{neg_part, negsuc, pos, pos_part, ℤ, ◌+ℤ◌, ◌-ℤ◌}
use cads_agent_marketplace.Doko.Cards.{Card, card_eq, led_eq, rank_eq, rule_eq, suit_eq}
use cads_agent_marketplace.Doko.Parties.{parties}
use cads_agent_marketplace.Doko.Score.{all_points, minus, re_value, result}
use cads_agent_marketplace.Doko.State.{State, party_eq}

abbrev pub gains : List ℤ → ℕ
gains [] = 0
gains (v ∷ vs) = pos_part v + gains vs

abbrev pub losses : List ℤ → ℕ
losses [] = 0
losses (v ∷ vs) = neg_part v + losses vs

-- Re is one seat that plays alone, or two different seats.
abbrev pub IsFair : Bool → List (Option ℕ) → Type 0
IsFair true (some a ∷ []) = a < 4
IsFair false (some a ∷ some b ∷ []) = (a < 4) × ((b < 4) × (a ≢ b))
IsFair _ _ = ⊥

minus-parts : (v : ℤ) → (pos_part (minus v) ≡ neg_part v) × (neg_part (minus v) ≡ pos_part v)
unfolding ◌-ℤ◌
minus-parts (pos n) = ground arith
minus-parts (negsuc n) = ground arith

triple-parts :
    (v : ℤ)
    → (pos_part (v +ℤ (v +ℤ v)) ≡ 3 * pos_part v) × (neg_part (v +ℤ (v +ℤ v)) ≡ 3 * neg_part v)
unfolding ◌+ℤ◌
triple-parts (pos n) = ground arith
triple-parts (negsuc n) = ground arith

pair-balance :
    (a b : ℕ) (v w : ℤ)
    → a < 4
    → b < 4
    → a ≢ b
    → pos_part w ≡ neg_part v
    → neg_part w ≡ pos_part v
    → gains (map (λ i. if (a == i) || ((b == i) || false) then v else w) (0 ∷ 1 ∷ 2 ∷ 3 ∷ []))
      ≡ losses (map (λ i. if (a == i) || ((b == i) || false) then v else w) (0 ∷ 1 ∷ 2 ∷ 3 ∷ []))
pair-balance a b v w h k ne e f = ground arith

lone-balance :
    (a : ℕ) (t w : ℤ)
    → a < 4
    → pos_part t ≡ 3 * neg_part w
    → neg_part t ≡ 3 * pos_part w
    → gains (map (λ i. if a == i then t else w) (0 ∷ 1 ∷ 2 ∷ 3 ∷ []))
      ≡ losses (map (λ i. if a == i then t else w) (0 ∷ 1 ∷ 2 ∷ 3 ∷ []))
lone-balance a t w h e f = ground arith

points-balance :
    (alone silent : Bool) (res : List (Option ℕ)) (v : ℤ)
    → IsFair alone res
    → gains (all_points (record { re_seats = res; alone = alone; silent = silent }) v)
      ≡ losses (all_points (record { re_seats = res; alone = alone; silent = silent }) v)
points-balance true silent (some a ∷ []) v h =
    let (mp, mn) = minus-parts v in
    let (tp, tn) = triple-parts v in
    lone-balance a (v +ℤ (v +ℤ v)) (minus v) h (omega arith) (omega arith)
points-balance false silent (some a ∷ some b ∷ []) v (h, (k, ne)) =
    let (mp, mn) = minus-parts v in pair-balance a b v (minus v) h k ne mp mn
points-balance true silent [] v h = absurd h
points-balance true silent (none ∷ rs) v h = absurd h
points-balance true silent (some a ∷ r ∷ rs) v h = absurd h
points-balance false silent [] v h = absurd h
points-balance false silent (none ∷ rs) v h = absurd h
points-balance false silent (some a ∷ []) v h = absurd h
points-balance false silent (some a ∷ none ∷ rs) v h = absurd h
points-balance false silent (some a ∷ some b ∷ r ∷ rs) v h = absurd h

-- Where Re is one seat that plays alone or two different seats, of the seats below 4, the points of
-- the four seats balance: what some of them win the others lose.
pub result-balance :
    (s : State) (hands : List (List Card))
    → IsFair (parties s hands).alone (parties s hands).re_seats
    → gains (result s hands).points ≡ losses (result s hands).points
unfolding result
result-balance s hands h =
    let ps = parties s hands in points-balance ps.alone ps.silent ps.re_seats (re_value s hands) h
