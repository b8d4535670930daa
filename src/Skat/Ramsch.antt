-- ===== src/Skat/Ramsch.antt =====
-- Skat: the score of a Ramsch, and the score of any game
-- (apps/duell-web/src/skat.js: ramschResult, result).
use cads_agent_marketplace.Common.{
  List, Option, [], filter, get_elem?, if◌then◌else◌, leb, length, list_eq, map, nat_eq, none, some,
  ℕ, ◌+◌, ◌==◌, ◌∷◌,
}
use cads_agent_marketplace.Common.Int.{pos, ℤ}
use cads_agent_marketplace.Skat.Apply.{taken_cards}
use cads_agent_marketplace.Skat.Cards.{Card, card_eq, eyes, is_null, rank_eq, suit_eq}
use cads_agent_marketplace.Skat.Score.{
  Deal, RamschScore, Score, declarer_result, game_score, minus, or_empty, passed_out_score,
  ramsch_score, taken_by_seat,
}
use cads_agent_marketplace.Skat.State.{Contract, State, Taken, hand_size, rule_eq}
use cads_agent_marketplace.Skat.Strength.{led_eq}

-- The points of a seat's own tricks, and their number.
abbrev pub own_eyes : List Taken → ℕ → ℕ
own_eyes ts seat = eyes (taken_cards (taken_by_seat seat ts))

abbrev pub seat_tricks : List Taken → ℕ → ℕ
seat_tricks ts seat = length (taken_by_seat seat ts)

abbrev pub last_taken : List Taken → Option Taken
last_taken [] = none
last_taken (t ∷ []) = some t
last_taken (t ∷ u ∷ ts) = last_taken (u ∷ ts)

-- The skat goes to whoever takes the last trick.
abbrev pub skat_bonus : Option Taken → Deal → ℕ → ℕ
skat_bonus none full seat = 0
skat_bonus (some t) full seat = if t.winner == seat then eyes (or_empty full.skat) else 0

unfoldable pub ramsch_eyes : State → Deal → ℕ → ℕ
ramsch_eyes s full seat = own_eyes s.tricks seat + skat_bonus (last_taken s.tricks) full seat

abbrev pub three_seats : List ℕ
three_seats = 0 ∷ 1 ∷ 2 ∷ []

-- `n.indexOf(HAND)`
abbrev pub marches : List Taken → List ℕ → Option ℕ
marches ts [] = none
marches ts (seat ∷ more) = if seat_tricks ts seat == hand_size then some seat else marches ts more

abbrev pub max3 : ℕ → ℕ → ℕ → ℕ
max3 a b c = if leb a b then if leb b c then c else b else if leb a c then c else a

unfoldable pub ramsch_points : Option ℕ → (ℕ → ℕ) → ℕ → ℤ
ramsch_points (some march) e seat = if seat == march then pos 120 else pos 0
ramsch_points none e seat = if e seat == max3 (e 0) (e 1) (e 2) then minus (e seat) else pos 0

unfoldable pub ramsch_result : State → Deal → RamschScore
unfolding ramsch_eyes ramsch_points
ramsch_result s full =
    let e = ramsch_eyes s full in
    let march = marches s.tricks three_seats in
    let points = map (ramsch_points march e) three_seats in
    record {
      durchmarsch = march;
      losers = elim march [
        | some m ↦ []
        | none ↦ filter (λ seat. e seat == max3 (e 0) (e 1) (e 2)) three_seats
      ];
      points = points;
      list = points;
      seat_eyes = map e three_seats;
      tricks = map (seat_tricks s.tricks) three_seats;
    }

-- Except for a Null, the source throws if the declarer has no hand in the deal.
abbrev pub declarer_score : Option (List Card) → State → Deal → ℕ → Contract → Option Score
declarer_score (some h) s full d c = some (game_score (declarer_result s full d c))
declarer_score none s full d c =
    if is_null c.game then some (game_score (declarer_result s full d c)) else none

abbrev pub result_in : Option Contract → Option ℕ → State → Deal → Option Score
result_in none d s full = none
result_in (some c) none s full =
    if c.ramsch then some (ramsch_score (ramsch_result s full)) else none
result_in (some c) (some d) s full =
    if c.ramsch
    then some (ramsch_score (ramsch_result s full))
    else declarer_score (get_elem? full.hands d) s full d c

-- `result`: `none` where the source reads a contract, a declarer or a hand that is not there.
unfoldable pub result : State → Deal → Option Score
unfolding declarer_result ramsch_result
result s full =
    if s.passed_out then some passed_out_score else result_in s.contract s.declarer s full
