-- ===== src/Skat/Contract.antt =====
-- Skat: which announcements are valid (apps/duell-web/src/skat.js: nullValue, checkContract,
-- declareOptions).
use cads_agent_marketplace.Common.{
  Bool, List, Option, [], false, if◌then◌else◌, leb, ltb, none, not, some, true, ℕ, ◌&&◌, ◌++◌,
  ◌||◌, ◌∷◌,
}
use cads_agent_marketplace.Skat.Bidding.{
  Reason, game_reason, hand_reason, null_reason, ouvert_reason, overbid_reason, schwarz_reason,
}
use cads_agent_marketplace.Skat.Cards.{
  Game, clubs, diamonds, grand, hearts, is_null, null_game, spades, suit_game,
}
use cads_agent_marketplace.Skat.State.{
  Contract, Move, State, declare_move, null_hand, null_ouvert, null_ouvert_hand, null_plain,
}

-- `nullValue`
unfoldable pub null_value : Bool → Bool → ℕ
null_value hand ouvert =
    if ouvert
    then if hand then null_ouvert_hand else null_ouvert
    else if hand
    then null_hand
    else null_plain

abbrev pub bool_beq : Bool → Bool → Bool
bool_beq true b = b
bool_beq false b = not b

-- `checkContract`: `none` where the announcement is valid.
unfoldable pub check_contract : State → Option Game → Bool → Bool → Bool → Bool → Option Reason
unfolding null_value
check_contract s none hand schneider schwarz ouvert = some game_reason
check_contract s (some g) hand schneider schwarz ouvert =
    if bool_beq hand s.picked_up
    then some hand_reason
    else if is_null g
    then if schneider || schwarz
      then some null_reason
      else if ltb (null_value hand ouvert) s.bid.value
      then some overbid_reason
      else none
    else if (schneider || schwarz || ouvert) && not hand
    then some hand_reason
    else if schwarz && not schneider
    then some schwarz_reason
    else if ouvert && not schwarz
    then some ouvert_reason
    else none

-- The contract that a valid announcement makes.
abbrev pub contract_of : Game → Bool → Bool → Bool → Bool → Contract
contract_of g hand schneider schwarz ouvert = record {
  game = g;
  hand = hand;
  schneider = not (is_null g) && schneider;
  schwarz = not (is_null g) && schwarz;
  ouvert = ouvert;
  ramsch = false;
}

-- The announcements of one suit game or of Grand.
abbrev pub options_for : Bool → Game → List Move
options_for hand g =
    declare_move (some g) hand false false false
    ∷ (if hand
        then declare_move (some g) true true false false
          ∷ declare_move (some g) true true true false
          ∷ declare_move (some g) true true true true
          ∷ []
        else [])

abbrev pub null_option : State → Bool → Bool → List Move
null_option s hand ouvert =
    if leb s.bid.value (null_value hand ouvert)
    then declare_move (some null_game) hand false false ouvert ∷ []
    else []

-- `declareOptions`
unfoldable pub declare_options : State → List Move
unfolding null_value
declare_options s =
    let hand = not s.picked_up in
    options_for hand (suit_game clubs)
    ++ (options_for hand (suit_game spades)
        ++ (options_for hand (suit_game hearts)
            ++ (options_for hand (suit_game diamonds)
                ++ (options_for hand grand
                    ++ (null_option s hand false ++ null_option s hand true)))))
