-- ===== src/Bauernskat/Moves.antt =====
-- Bauernskat: the offered moves and the move for an absent player
-- (apps/duell-web/src/bauernskat.js: power, games, actions, cmp, auto).
-- Higher wins. The positions are below 12 in every list that is searched, so no `-` is cut off.
use cads_agent_marketplace.Common.{
  List, Option, [], false, filter, if◌then◌else◌, index_of, leb, length, list_eq, map, nat_eq, none,
  not, some, true, ℕ, ◌&&◌, ◌++◌, ◌-◌, ◌==◌, ◌∷◌,
}
use cads_agent_marketplace.Bauernskat.Apply.{
  Action, Move, declare_move, is_empty, kontra_move, kontra_ok, play_move, re_move,
}
use cads_agent_marketplace.Bauernskat.State.{
  Phase, State, declaring, has, null_rule, playing, rule_eq, tops, turn,
}
use cads_agent_marketplace.Common.Int.{negsuc, pos, ℤ}
use cads_agent_marketplace.Skat.Apply.{table_cards}
use cads_agent_marketplace.Skat.Cards.{
  Card, Game, card_eq, clubs, diamonds, grand, hearts, jack, null_game, rank_beq, rank_eq,
  rank_eyes, spades, suit_eq, suit_game,
}
use cads_agent_marketplace.Skat.Moves.{Key, card_name, led_or, longest, sort_by}
use cads_agent_marketplace.Skat.State.{is_seat}
use cads_agent_marketplace.Skat.Strength.{
  Led, Play, is_trump, led_eq, may_play, plain, plain_order, trump_order,
}

unfoldable pub strength : Game → Card → Led → ℤ
strength g c led =
    if is_trump g c
    then pos (100 - index_of (trump_order g) c)
    else if not (plain c.suit == led)
    then negsuc 0
    else pos (50 - index_of (plain_order g) c.rank)

abbrev pub act : ℕ → Move → Action
act seat m = record { seat = seat; move = m }

-- `games`
abbrev pub games : State → List Game
games s =
    suit_game clubs
    ∷ suit_game spades
    ∷ suit_game hearts
    ∷ suit_game diamonds
    ∷ grand
    ∷ (if has s null_rule then null_game ∷ [] else [])

abbrev pub declare_of : Game → Move
declare_of g = declare_move (some g)

abbrev pub play_of : Card → Move
play_of c = play_move (some c)

-- The cards that a seat may play.
abbrev pub playable : State → Game → ℕ → List Card
playable s g seat =
    let avail = tops s seat in filter (λ c. may_play g avail c (table_cards s.trick)) avail

abbrev pub plays_in : Option Game → State → ℕ → List Move
plays_in none s seat = []
plays_in (some g) s seat = map play_of (playable s g seat)

abbrev pub play_moves : State → ℕ → List Move
play_moves s seat =
    if is_seat s.next seat && is_empty s.flip then plays_in s.contract s seat else []

abbrev pub kontra_moves : State → ℕ → List Move
kontra_moves s seat =
    (if kontra_ok s seat false then kontra_move ∷ [] else [])
    ++ (if kontra_ok s seat true then re_move ∷ [] else [])

abbrev pub moves_in : Phase → State → ℕ → List Move
moves_in declaring s seat = if seat == s.declarer then map declare_of (games s) else []
moves_in playing s seat = play_moves s seat ++ kontra_moves s seat
moves_in _ s seat = []

-- `actions`
unfoldable pub actions : State → ℕ → List Action
actions s seat = map (act seat) (moves_in s.phase s seat)

abbrev pub weakness : Game → List Play → Card → Key
weakness g table c = record {
  strength = strength g c (led_or g table c);
  points = rank_eyes c.rank;
  name = card_name c;
}

abbrev pub first_card : List Card → Option Move
first_card [] = none
first_card (c ∷ cs) = some (play_of c)

-- Grand with three or four jacks, else the suit with most trumps.
abbrev pub best_game : List Card → Game
best_game mine =
    if leb 3 (length (filter (λ c. rank_beq c.rank jack) mine))
    then grand
    else suit_game (longest mine)

abbrev pub auto_play : Option Game → State → ℕ → Option Move
auto_play none s seat = none
auto_play (some g) s seat =
    first_card (sort_by (weakness g (table_cards s.trick)) (playable s g seat))

abbrev pub auto_in : Phase → State → ℕ → Option Move
auto_in declaring s seat = some (declare_of (best_game (tops s seat)))
auto_in playing s seat = if is_empty s.flip then auto_play s.contract s seat else none
auto_in _ s seat = none

abbrev pub option_act : ℕ → Option Move → Option Action
option_act seat none = none
option_act seat (some m) = some (act seat m)

-- `auto`
unfoldable pub auto : State → ℕ → Option Action
auto s seat = if is_seat (turn s) seat then option_act seat (auto_in s.phase s seat) else none
