-- ===== src/Skat/Scenarios.antt =====
-- Skat: tests of the definitions, and games at which the theorems are applied.
use cads_agent_marketplace.Common.{
  All, List, Option, [], arith, contains, distinct, false, get_elem?, if◌then◌else◌, length,
  list_eq, map, nat_eq, none, refl, some, true, ℕ, ◌*◌, ◌++◌, ◌+◌, ◌<◌, ◌==◌, ◌↔◌, ◌∷◌, ◌≡◌, ◌≤◌,
  ◌⊎◌,
}
use cads_agent_marketplace.Skat.Apply.{apply, lay, play, played, taken_cards}
use cads_agent_marketplace.Skat.Audit.{
  all_tricks, audit, audit_deck, audit_hands, audit_push, audit_trick, joined,
}
use cads_agent_marketplace.Skat.Audit.Cards.{IsDeck, audit-IsDeck}
use cads_agent_marketplace.Skat.Audit.Honest.{HonestFrom, audit-Honest}
use cads_agent_marketplace.Skat.Auto.{auto-IsOk}
use cads_agent_marketplace.Skat.Bidding.{apply_bid}
use cads_agent_marketplace.Skat.Cards.{
  Card, ace, card, card_eq, clubs, deck, diamonds, eight, eyes, hearts, jack, king, nine, null_game,
  queen, rank_eq, seven, spades, suit_eq, suit_game, ten,
}
use cads_agent_marketplace.Skat.Contract.{check_contract, null_value}
use cads_agent_marketplace.Skat.Explain.{Explained, explain, explain-trick_winner}
use cads_agent_marketplace.Skat.Invariant.{apply-Valid}
use cads_agent_marketplace.Skat.Legal.{actions-IsOk}
use cads_agent_marketplace.Skat.Legal.Hand.{Holds}
use cads_agent_marketplace.Skat.Legal.Offers.{IsOk}
use cads_agent_marketplace.Skat.Moves.{act, actions, auto}
use cads_agent_marketplace.Skat.Ramsch.{
  last_taken, marches, ramsch_eyes, ramsch_result, three_seats,
}
use cads_agent_marketplace.Skat.Score.{
  Deal, Worth, declarer_eyes, declarer_result, game_worth, minus, or_empty, raise_overbid, twelve,
}
use cads_agent_marketplace.Skat.Scoring.{
  Settled, declarer_result-Settled, declarer_result-null_won, declarer_result-won, own_tricks,
  raise_overbid-covers,
}
use cads_agent_marketplace.Skat.Scoring.Ramsch.{is_top, ramsch_eyes-total, ramsch_result-loser}
use cads_agent_marketplace.Skat.Scoring.Values.{game_worth-bids}
use cads_agent_marketplace.Skat.State.{
  Action, Contract, Move, State, Taken, bid_move, bids, declare_move, is_seat, kontra_rule,
  pass_move, play_move, rule_eq, start, turn,
}
use cads_agent_marketplace.Skat.Strength.{
  Play, is_trump, led_eq, may_play, power, suit_of, tops, trick_winner,
}
use cads_agent_marketplace.Skat.Termination.{run, run-start_bound}
use cads_agent_marketplace.Skat.Termination.Measure.{measure}
use cads_agent_marketplace.Skat.Valid.{IsValid, OutcomeValid}
use cads_agent_marketplace.Skat.Winner.{Beaten, trick_winner-Beats}

deck_size : (eyes deck ≡ 120) × (length deck ≡ 32) × (distinct deck ≡ true)
unfolding eyes deck
deck_size = (refl, refl, refl)

bids_ends : (contains bids 18 ≡ true) × (contains bids 264 ≡ true) × (contains bids 19 ≡ false)
unfolding bids
bids_ends = (refl, refl, refl)

abbrev says : ℕ → Move → Option Action
says seat m = some (act seat m)

-- Seat 2 bids 18, seats 1 and 0 pass, seat 2 announces clubs without the skat, seat 1 leads.
abbrev opening : State
opening = start (kontra_rule ∷ []) (some 0)

abbrev first_moves : List (Option Action)
first_moves =
    says 2 (bid_move 18)
    ∷ says 1 pass_move
    ∷ says 0 pass_move
    ∷ says 2 (declare_move (some (suit_game clubs)) true false false false)
    ∷ says 1 (play_move (some (card hearts ace)))
    ∷ []

abbrev or_opening : Option State → State
or_opening none = opening
or_opening (some s) = s

abbrev one_card : State
one_card = or_opening (run opening first_moves)

one_card_reached : run opening first_moves ≡ some one_card
unfolding run apply start apply_bid bids check_contract play deck played lay
one_card_reached = refl

one_card-IsValid : IsValid one_card
one_card-IsValid =
    (run-start_bound (kontra_rule ∷ []) (some 0) first_moves one_card one_card_reached).0

-- The ten cards of the declarer, seat 2, who is to answer the ace of hearts.
abbrev declarer_hand : List Card
declarer_hand =
    card clubs jack
    ∷ card spades jack
    ∷ card clubs ace
    ∷ card clubs ten
    ∷ card clubs king
    ∷ card clubs seven
    ∷ card hearts ten
    ∷ card hearts seven
    ∷ card spades ace
    ∷ card diamonds ace
    ∷ []

declarer-Holds : Holds one_card 2 declarer_hand
unfolding run apply start apply_bid bids check_contract play deck played lay
declarer-Holds = record {
  known = refl;
  unplayed = refl;
  ten = λ p. (refl, refl);
  own_open = λ o e m. cc;
  other_open = λ o e m. cc;
}

declarer_asked : is_seat (turn one_card) 2 ≡ true
unfolding run apply start apply_bid bids check_contract play deck played lay turn
declarer_asked = refl

apply-Valid_example : OutcomeValid (apply one_card (says 2 (play_move (some (card hearts seven)))))
apply-Valid_example =
    apply-Valid one_card (says 2 (play_move (some (card hearts seven)))) one_card-IsValid

actions-IsOk_example :
    All (λ a. IsOk (apply one_card (some a))) (actions one_card 2 (some declarer_hand))
actions-IsOk_example = actions-IsOk one_card 2 declarer_hand one_card-IsValid declarer-Holds

auto-IsOk_example :
    (m : Move) × (auto one_card 2 (some declarer_hand) ≡ some m)
    × IsOk (apply one_card (some (act 2 m)))
auto-IsOk_example =
    auto-IsOk one_card 2 declarer_hand one_card-IsValid declarer-Holds tt declarer_asked

run-start_bound_example : IsValid one_card × (5 + measure one_card ≤ 1828)
run-start_bound_example =
    run-start_bound (kontra_rule ∷ []) (some 0) first_moves one_card one_card_reached

-- Hearts is led, a ten is added, and a small trump takes the trick.
abbrev lead_ace : Play
lead_ace = record { seat = 1; card = card hearts ace }

abbrev two_more : List Play
two_more =
    record { seat = 2; card = card hearts ten } ∷ record { seat = 0; card = card clubs seven } ∷ []

trick_winner-Beats_example :
    (i : ℕ) × (w : Play) × (get_elem? (lead_ace ∷ two_more) i ≡ some w)
    × (trick_winner (suit_game clubs) (lead_ace ∷ two_more) ≡ some w.seat)
    × Beaten
        (suit_game clubs)
        (suit_of (suit_game clubs) (card hearts ace))
        w.card
        (lead_ace ∷ two_more)
trick_winner-Beats_example = trick_winner-Beats (suit_game clubs) lead_ace two_more

trump_wins : trick_winner (suit_game clubs) (lead_ace ∷ two_more) ≡ some 0
unfolding trick_winner power suit_of
trump_wins = refl

-- The contracts of the bills: clubs by hand, and a Null by hand.
abbrev clubs_hand : Contract
clubs_hand = record {
  game = suit_game clubs;
  hand = true;
  schneider = false;
  schwarz = false;
  ouvert = false;
  ramsch = false;
}

abbrev null_by_hand : Contract
null_by_hand = record clubs_hand { game = null_game }

abbrev a_deal : Deal
a_deal = record {
  hands =
      (map (card spades) (ten ∷ king ∷ queen ∷ nine ∷ eight ∷ seven ∷ [])
        ++ map (card diamonds) (queen ∷ jack ∷ nine ∷ eight ∷ []))
      ∷ (map (card hearts) (ace ∷ king ∷ queen ∷ jack ∷ nine ∷ eight ∷ [])
          ++ (map (card clubs) (queen ∷ nine ∷ eight ∷ []) ++ card diamonds king ∷ []))
      ∷ declarer_hand
      ∷ [];
  skat = some (card diamonds ten ∷ card diamonds seven ∷ []);
  pushed = none;
}

declarer_result-won_example :
    let de = declarer_eyes one_card a_deal 2 in
    let n = own_tricks one_card 2 in
    ((declarer_result one_card a_deal 2 clubs_hand).won ≡ true) ↔ (
      ((61 ≤ de) × (clubs_hand.schneider ≡ true → 90 ≤ de) × (clubs_hand.schwarz ≡ true → 10 ≤ n))
      × (one_card.bid.value
          ≤ (game_worth (tops clubs_hand.game (twelve a_deal 2)) clubs_hand de n).value))
declarer_result-won_example = declarer_result-won one_card a_deal 2 clubs_hand refl

declarer_result-null_won_example : ((declarer_result one_card a_deal 2 null_by_hand).won ≡ true) ↔ (
    (own_tricks one_card 2 ≡ 0)
    × (one_card.bid.value ≤ null_value null_by_hand.hand null_by_hand.ouvert))
declarer_result-null_won_example = declarer_result-null_won one_card a_deal 2 null_by_hand refl

declarer_result-Settled_example :
    let g = declarer_result one_card a_deal 2 clubs_hand in
    (one_card.bid.value ≤ g.value) × Settled g.won 2 g.value g.points g.list
declarer_result-Settled_example = declarer_result-Settled one_card a_deal 2 clubs_hand (omega arith)

game_worth-bids_example :
    contains bids (game_worth (tops clubs_hand.game declarer_hand) clubs_hand 75 6).value ≡ true
game_worth-bids_example = game_worth-bids clubs_hand declarer_hand 75 6 refl

abbrev small_worth : Worth
small_worth = record { base = 12; value = 36; won = true; lines = [] }

raise_overbid-covers_example :
    ((40 ≤ small_worth.value) × (raise_overbid small_worth 40 ≡ small_worth))
    ⊎ ((small_worth.value < 40)
        × ((raise_overbid small_worth 40).won ≡ false)
        × (40 ≤ (raise_overbid small_worth 40).value)
        × ((raise_overbid small_worth 40).value < 40 + small_worth.base)
        × ((k : ℕ) × ((raise_overbid small_worth 40).value ≡ k * small_worth.base)))
raise_overbid-covers_example = raise_overbid-covers small_worth 40 (omega arith)

at_table : one_card.passed_out ≡ false
unfolding run apply start apply_bid bids check_contract play deck played lay
at_table = refl

said : one_card.contract ≡ some clubs_hand
unfolding run apply start apply_bid bids check_contract play deck played lay
said = refl

-- The game so far, with the cards of the deal.
deal_clean : audit one_card a_deal ≡ some []
unfolding run apply start apply_bid bids check_contract play deck played lay audit audit_trick
    audit_deck audit_push may_play suit_of
deal_clean = refl

audit-Honest_example :
    (audit one_card a_deal ≡ some [])
    ↔ HonestFrom (audit_hands one_card a_deal) (suit_game clubs) (all_tricks one_card)
audit-Honest_example = audit-Honest one_card a_deal clubs_hand at_table said

audit-IsDeck_example : IsDeck (joined a_deal.hands ++ or_empty a_deal.skat)
audit-IsDeck_example = audit-IsDeck one_card a_deal clubs_hand at_table said deal_clean

explain-trick_winner_example :
    (r : Explained) × (explain (suit_game clubs) (lead_ace ∷ two_more) ≡ some r)
    × (trick_winner (suit_game clubs) (lead_ace ∷ two_more) ≡ some r.seat)
    × (get_elem? (lead_ace ∷ two_more) r.win ≡ some (record { seat = r.seat; card = r.card }))
    × ((r.with_trump ≡ true) ↔ (
        (is_trump (suit_game clubs) r.card ≡ true)
        × (is_trump (suit_game clubs) (card hearts ace) ≡ false)))
explain-trick_winner_example = explain-trick_winner (suit_game clubs) lead_ace two_more

-- A Ramsch after one trick.
abbrev one_trick : Taken
one_trick = record { lead = 1; cards = lead_ace ∷ two_more; winner = 0 }

abbrev ramsch_state : State
ramsch_state = record one_card { tricks = one_trick ∷ [] }

ramsch_eyes-total_example :
    ramsch_eyes ramsch_state a_deal 0
      + ramsch_eyes ramsch_state a_deal 1
      + ramsch_eyes ramsch_state a_deal 2
    ≡ eyes (taken_cards ramsch_state.tricks) + eyes (or_empty a_deal.skat)
ramsch_eyes-total_example = ramsch_eyes-total ramsch_state a_deal one_trick (omega arith, tt) refl

-- A whole Ramsch, with the cards of the deck in their order.
abbrev tricks_of : List Card → List Taken
tricks_of (a ∷ b ∷ c ∷ cs) =
    record {
      lead = 0;
      cards =
          record { seat = 0; card = a }
          ∷ record { seat = 1; card = b }
          ∷ record { seat = 2; card = c }
          ∷ [];
      winner = if eyes (a ∷ []) == 11 then 0 else 2;
    }
    ∷ tricks_of cs
tricks_of _ = []

abbrev two_aside : Deal
two_aside = record a_deal { skat = some (card diamonds eight ∷ card diamonds seven ∷ []) }

abbrev last_trick : Taken
last_trick = record {
  lead = 0;
  cards =
      record { seat = 0; card = card diamonds queen }
      ∷ record { seat = 1; card = card diamonds jack }
      ∷ record { seat = 2; card = card diamonds nine }
      ∷ [];
  winner = 2;
}

abbrev all_taken : State
all_taken = record one_card { tricks = tricks_of deck }

at_seats : All (λ t. t.winner < 3) all_taken.tricks
unfolding deck eyes
at_seats = ground arith

taken_last : last_taken all_taken.tricks ≡ some last_trick
unfolding deck eyes
taken_last = refl

all_points : eyes (taken_cards all_taken.tricks) + eyes (or_empty two_aside.skat) ≡ 120
unfolding deck eyes
all_points = refl

no_march : marches all_taken.tricks three_seats ≡ none
unfolding deck eyes
no_march = refl

ramsch_result-loser_example :
    let e = ramsch_eyes all_taken two_aside in
    (seat : ℕ) × (seat < 3)
    × (40 ≤ e seat)
    × (is_top e seat ≡ true)
    × (get_elem? (ramsch_result all_taken two_aside).points seat ≡ some (minus (e seat)))
ramsch_result-loser_example =
    ramsch_result-loser all_taken two_aside last_trick at_seats taken_last all_points no_march
