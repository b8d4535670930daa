-- ===== src/Turns/Scenarios.antt =====
-- Turn games: tests, and a game at which the theorems are applied (apps/duell-web/src/turns.js).
use cads_agent_marketplace.Common.{
  List, Option, [], arith, false, if◌then◌else◌, length, list_beq, list_eq, nat_eq, none, refl,
  some, ℕ, ◌++◌, ◌==◌, ◌∷◌, ◌≡◌, ◌≤◌,
}
use cads_agent_marketplace.Common.Int.{pos}
use cads_agent_marketplace.Turns.Answer.{Filters, Prompt, whose}
use cads_agent_marketplace.Turns.Base64.{btoa}
use cads_agent_marketplace.Turns.Check.{ok_answer, widget_ok}
use cads_agent_marketplace.Turns.Engine.{Card, Game, moves, play, stored_all, text_of}
use cads_agent_marketplace.Turns.Played.{HasSteadyEnd, IsRead, IsStored, moves-IsRead, play-moves}
use cads_agent_marketplace.Turns.Seal.{seal}
use cads_agent_marketplace.Turns.Seal.RoundTrip.{IsJson}
use cads_agent_marketplace.Turns.Value.{Value, number}

-- Texts are left as they are.
abbrev plain : Filters
plain = record {
  clean = λ t n. t;
  fold = λ t. t;
  is_space = λ c. c == b' ';
  joined_bytes = λ vs. length vs;
}

-- A prompt for a number from 0 to 2.
abbrev ask : Prompt (Unit {0})
ask = record {
  w = whose;
  n = 0;
  min = 0;
  max = 0;
  sum = 0;
  step = 1;
  rounds = 0;
  keys = 0;
  bytes = none;
  least = none;
  loose = false;
  same = false;
  one_word = false;
  check = none;
  ok_moves = λ v m. false;
  ok_now = λ v now. false;
  ok_list = λ v. false;
  before = λ d m. [];
  max_of = none;
  from = none;
  bad = none;
}

abbrev two_turns : Game (Unit {0})
two_turns = record {
  turns = (ask ∷ []) ∷ (ask ∷ []) ∷ [];
  ends = none;
  legacy = none;
  store = none;
  snap = none;
  wish = false;
  gate_from = false;
  gate_at = none;
  close_mark = none;
}

abbrev new_card : Card (Unit {0})
new_card = record { deck = record { seed = 7; rest = tt }; o = none; q = [] }

-- The first turn, and its text.
abbrev first : List Value
first = text_of (number (pos 1) ∷ []) ∷ []

abbrev first_text : List ℕ
first_text = b'[' ∷ b'[' ∷ b'1' ∷ b']' ∷ b']' ∷ []

abbrev print_first : Value → List ℕ
print_first v = first_text

abbrev parse_first : List ℕ → Option Value
parse_first bs = if list_beq ⦃e = nat_eq⦄ bs first_text then some (text_of first) else none

abbrev second_card : Card (Unit {0})
second_card = record new_card { q = seal print_first first 7 }

first-IsJson : IsJson print_first parse_first (text_of first)
first-IsJson = record { read = refl; bytes = omega arith; written = cc }

-- "QfHft-8"
sealed_text : seal print_first first 7 ≡ b'Q' ∷ b'f' ∷ b'H' ∷ b'f' ∷ b't' ∷ b'-' ∷ b'8' ∷ []
unfolding seal btoa
sealed_text = refl

played_first :
    play plain parse_first two_turns print_first new_card (number (pos 1) ∷ []) 0 ≡ some second_card
unfolding play ok_answer widget_ok
played_first = refl

too_big : play plain parse_first two_turns print_first new_card (number (pos 3) ∷ []) 0 ≡ none
unfolding play ok_answer widget_ok
too_big = refl

no_moves : moves plain parse_first two_turns new_card ≡ []
unfolding moves
no_moves = refl

first-IsStored : IsStored plain two_turns
unfolding IsStored
first-IsStored t xs = refl

first-HasSteadyEnd : HasSteadyEnd plain two_turns
unfolding HasSteadyEnd
first-HasSteadyEnd o o' d m = refl

-- The moves that the next card holds: those of the new card, and the first turn.
first_moves-IsJson : IsJson print_first parse_first (
    text_of (
      stored_all two_turns 0
        (moves plain parse_first two_turns new_card ++ (number (pos 1) ∷ []) ∷ [])))
unfolding moves
first_moves-IsJson = first-IsJson

second_short : length second_card.q ≤ 900
unfolding seal btoa
second_short = omega arith

play-moves_example :
    moves plain parse_first two_turns second_card
    ≡ moves plain parse_first two_turns new_card ++ (number (pos 1) ∷ []) ∷ []
play-moves_example =
    play-moves plain print_first parse_first two_turns new_card (number (pos 1) ∷ []) 0
      first-IsStored first-HasSteadyEnd refl played_first first_moves-IsJson second_short

moves-IsRead_example :
    IsRead plain two_turns none second_card.deck two_turns.turns []
      (moves plain parse_first two_turns second_card)
moves-IsRead_example = moves-IsRead plain parse_first two_turns second_card
