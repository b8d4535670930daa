-- ===== src/Bauernskat/Scenarios.antt =====
-- Bauernskat: tests of the definitions, and games at which the theorems are applied.
use cads_agent_marketplace.Common.{
  List, [], arith, contains, get_elem?, length, list_eq, nat_eq, none, refl, some, true, ◌↔◌, ◌∷◌,
  ◌≡◌,
}
use cads_agent_marketplace.Bauernskat.Apply.{apply, is_new, turn_move}
use cads_agent_marketplace.Bauernskat.Auto.{Stands, auto-Stands}
use cads_agent_marketplace.Bauernskat.Bids.{worth-bids}
use cads_agent_marketplace.Bauernskat.Moves.{act, actions, auto, declare_of}
use cads_agent_marketplace.Bauernskat.Once.{IsOnce, OutcomeOnce}
use cads_agent_marketplace.Bauernskat.Score.{Deal, Score, cards_of, result, worth}
use cads_agent_marketplace.Bauernskat.Secrecy.{IsOk, apply-reveals, may_open}
use cads_agent_marketplace.Bauernskat.Seen.{apply-IsOnce}
use cads_agent_marketplace.Bauernskat.State.{
  Pile, Spot, State, declaring, kontra_rule, played, reveals, row_of, rule_eq, start, tops, turn,
  visible,
}
use cads_agent_marketplace.Skat.Cards.{
  ace, card, card_eq, clubs, grand, hearts, jack, rank_eq, spades, suit_eq, suit_game, ten,
}
use cads_agent_marketplace.Skat.Moves.{longest}
use cads_agent_marketplace.Skat.State.{bids}
use cads_agent_marketplace.Skat.Strength.{is_trump, led_eq}

abbrev opening : State
opening = start (kontra_rule ∷ []) (some 0)

abbrev first_spot : Spot
first_spot = record { seat = 1; i = 3 }

face_up : get_elem? (row_of opening 1) 3 ≡ some (record { top = none; under = true })
unfolding start
face_up = refl

sixteen : length (reveals opening) ≡ 16
unfolding start reveals
sixteen = refl

apply-reveals_example :
    IsOk (apply opening (some (record { seat = 1; move = turn_move 3 (some (card spades ace)) })))
    ↔ ((may_open (reveals opening) first_spot ≡ true) × (is_new opening (card spades ace) ≡ true))
apply-reveals_example =
    apply-reveals opening first_spot (record { top = none; under = true }) (card spades ace)
      (omega arith) face_up

opening-IsOnce : IsOnce opening
unfolding start visible played
opening-IsOnce d = omega arith

apply-IsOnce_example :
    OutcomeOnce
      (apply opening (some (record { seat = 1; move = turn_move 3 (some (card spades ace)) })))
apply-IsOnce_example =
    apply-IsOnce opening (some (record { seat = 1; move = turn_move 3 (some (card spades ace)) }))
      opening-IsOnce

worth-bids_example :
    contains bids (worth grand (card clubs jack ∷ card spades jack ∷ []) 70 9).value ≡ true
worth-bids_example = worth-bids grand (card clubs jack ∷ card spades jack ∷ []) 70 9

-- The declarer, seat 1, has announced hearts.
abbrev hearts_game : State
hearts_game = record opening { contract = some (suit_game hearts) }

abbrev a_deal : Deal
a_deal = record {
  hands = none;
  stacks =
      (record { up = card spades ace; down = card spades ten } ∷ [])
      ∷ (record { up = card hearts ace; down = card clubs jack } ∷ [])
      ∷ [];
}

-- A deal without stacks: the cards are read in a game of hearts, and not in a Null.
no_stacks : result hearts_game (record a_deal { stacks = [] }) ≡ none
unfolding start result cards_of
no_stacks = refl

-- A declarer who sees one jack and two spades.
abbrev declarer_row : List Pile
declarer_row =
    record { top = some (card clubs jack); under = true }
    ∷ record { top = some (card spades ace); under = true }
    ∷ record { top = some (card spades ten); under = true }
    ∷ []

abbrev to_declare : State
to_declare = record opening { phase = declaring; stacks = [] ∷ declarer_row ∷ [] }

auto-Stands_example : Stands (act 1 (declare_of (suit_game spades))) (actions to_declare 1)
unfolding start auto turn tops longest is_trump
auto-Stands_example = auto-Stands to_declare 1 (act 1 (declare_of (suit_game spades))) refl
