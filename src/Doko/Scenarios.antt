-- ===== src/Doko/Scenarios.antt =====
-- Doppelkopf: tests of the definitions, and games at which the theorems are applied
-- (apps/duell-web/src/doko.js).
use cads_agent_marketplace.Common.{
  List, [], arith, contains, false, length, list_eq, nat_eq, none, refl, some, zero, ℕ, ◌&&◌, ◌∷◌,
  ◌≡◌,
}
use cads_agent_marketplace.Doko.Apply.{Action, Outcome, apply, ok, play_card, reserve}
use cads_agent_marketplace.Doko.Audit.{deck, follows_ok}
use cads_agent_marketplace.Doko.Balance.{gains, losses, result-balance}
use cads_agent_marketplace.Doko.Cards.{
  Card, Play, ace, best_from, best_index, card, card_eq, clubs, diamonds, dulle, follows, heart_ten,
  hearts, is_trump, jack, led_eq, legal_cards, nine, normal, power, queen, rank_eq, rule_eq, spades,
  suit_eq, trick_winner, trumps,
}
use cads_agent_marketplace.Doko.Follow.{legal_cards-audit}
use cads_agent_marketplace.Doko.Moves.{act}
use cads_agent_marketplace.Doko.Parties.{Counts, met, parties, target}
use cads_agent_marketplace.Doko.Played.{apply-IsTwice}
use cads_agent_marketplace.Doko.Score.{result}
use cads_agent_marketplace.Doko.State.{
  Levels, State, begin, gesund, kontra, party_eq, playing, start,
}
use cads_agent_marketplace.Doko.Twice.{IsTwice, OutcomeTwice}
use cads_agent_marketplace.Doko.Winner.{met-exclusive}

abbrev opening : State
opening = start (dulle ∷ []) 3

-- All four are healthy, and seat 0 leads.
abbrev say_gesund : ℕ → Action
say_gesund seat = act seat (reserve gesund)

abbrev after_action : Outcome → State
after_action (ok s) = s
after_action _ = opening

abbrev begun : State
begun = begin normal none opening

four_healthy :
    (after_action (
      apply
        (after_action (
          apply
            (after_action
              (apply (after_action (apply opening (some (say_gesund 0)))) (some (say_gesund 1))))
            (some (say_gesund 2))))
        (some (say_gesund 3)))).phase
    ≡ playing
unfolding apply start
four_healthy = refl

abbrev two_tens : List Play
two_tens =
    record { seat = 0; card = heart_ten }
    ∷ record { seat = 1; card = card clubs queen }
    ∷ record { seat = 2; card = heart_ten }
    ∷ record { seat = 3; card = card diamonds nine }
    ∷ []

first_ten : trick_winner normal two_tens [] ≡ some 0
unfolding trick_winner best_index best_from follows is_trump trumps power
first_ten = refl

second_ten : trick_winner normal two_tens (dulle ∷ []) ≡ some 2
unfolding trick_winner best_index best_from follows is_trump trumps power
second_ten = refl

deck_size : length deck ≡ 48
unfolding deck
deck_size = refl

abbrev led_card : Play
led_card = record { seat = 0; card = card spades ace }

abbrev small_hand : List Card
small_hand = card spades nine ∷ card clubs ace ∷ card hearts jack ∷ []

legal_cards-audit_example :
    contains (legal_cards normal (led_card ∷ []) small_hand) (card clubs ace) ≡ (
      contains small_hand (card clubs ace)
      && follows_ok normal small_hand (some led_card.card) (card clubs ace))
legal_cards-audit_example = legal_cards-audit normal led_card [] small_hand (card clubs ace)

begun-IsTwice : IsTwice begun
unfolding start
begun-IsTwice c = omega arith

apply-IsTwice_example :
    OutcomeTwice (apply begun (some (act 0 (play_card (some (card spades ace))))))
apply-IsTwice_example =
    apply-IsTwice begun (some (act 0 (play_card (some (card spades ace))))) begun-IsTwice

-- Two players with a Club Queen each.
abbrev two_hands : List (List Card)
two_hands = (card clubs queen ∷ []) ∷ (card clubs nine ∷ []) ∷ (card clubs queen ∷ []) ∷ [] ∷ []

different : (zero ≡ 2) → ⊥
different e = cc

result-balance_example :
    gains (result begun two_hands).points ≡ losses (result begun two_hands).points
unfolding parties start
result-balance_example = result-balance begun two_hands (omega arith, (omega arith, different))

abbrev close_game : Counts
close_game = record { re_eyes = 121; kontra_eyes = 119; re_tricks = 6; kontra_tricks = 6 }

abbrev both_called : Levels
both_called = record { re_level = some 0; kontra_level = some 0 }

met-exclusive_example : met kontra both_called close_game ≡ false
unfolding target
met-exclusive_example =
    met-exclusive both_called close_game
      (record {
        eyes_sum = refl;
        tricks_sum = refl;
        re_none = λ e. absurd (omega arith);
        kontra_none = λ e. absurd (omega arith);
      })
      refl
