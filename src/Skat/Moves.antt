-- ===== src/Skat/Moves.antt =====
-- Skat: the moves that are offered, and the move that is made for a player who is away
-- (apps/duell-web/src/skat.js: actions, cmp, longest, auto).
use cads_agent_marketplace.Common.{
  Bool, List, Option, [], false, filter, if◌then◌else◌, length, ltb, map, nat_eq, none, not, some,
  take, true, ℕ, ◌&&◌, ◌*◌, ◌++◌, ◌+◌, ◌==◌, ◌||◌, ◌∷◌,
}
use cads_agent_marketplace.Common.Int.{ltb_ℤ, pos, ℤ}
use cads_agent_marketplace.Skat.Apply.{kontra_ok, table_cards}
use cads_agent_marketplace.Skat.Bidding.{bid_seat, is_fore_stage}
use cads_agent_marketplace.Skat.Cards.{
  Card, Game, Rank, Suit, ace, card_eq, clubs, diamonds, eight, hearts, jack, king, nine, queen,
  rank_beq, rank_eq, rank_eyes, seven, spades, suit_eq, suit_game, ten,
}
use cads_agent_marketplace.Skat.Contract.{check_contract, declare_options}
use cads_agent_marketplace.Skat.State.{
  Action, Ask, Auction, Contract, Move, Phase, State, ask_bid, bid_move, bidding, bids,
  declare_move, declaring, hold_move, is_seat, kontra_move, over, pass_move, pickup_move, play_move,
  playing, push_move, pushing, re_move, rule_eq, show_move, showing, skat_open, turn,
}
use cads_agent_marketplace.Skat.Strength.{Led, Play, is_trump, led_eq, may_play, power, suit_of}

abbrev pub act : ℕ → Move → Action
act seat m = record { seat = seat; move = m }

-- The values that may be named next: Forehand alone may only open at 18.
unfoldable pub open_bids : Auction → List ℕ
open_bids b = filter (λ v. ltb b.value v && (not (is_fore_stage b.stage) || v == 18)) bids

abbrev pub asked_moves : Ask → Auction → List Move
asked_moves ask_bid b = map bid_move (open_bids b)
asked_moves _ b = hold_move ∷ []

unfoldable pub bid_moves : State → ℕ → List Move
unfolding open_bids
bid_moves s seat = if bid_seat s.bid seat then asked_moves s.bid.ask s.bid ++ pass_move ∷ [] else []

abbrev pub given : Option (List Card) → List Card
given none = []
given (some cs) = cs

-- The cards of the hand that may be played.
abbrev pub playable : Option Contract → State → List Card → List Card
playable none s hand = []
playable (some k) s hand = filter (λ c. may_play k.game hand c (table_cards s.trick)) hand

abbrev pub play_of : Card → Move
play_of c = play_move (some c)

abbrev pub kontra_moves : State → ℕ → List Move
kontra_moves s seat =
    (if kontra_ok s seat false then kontra_move ∷ [] else [])
    ++ (if kontra_ok s seat true then re_move ∷ [] else [])

-- In a game that is played there is a contract; without one the source throws.
unfoldable pub play_moves : State → ℕ → List Card → List Move
play_moves s seat hand =
    (if is_seat s.next seat then map play_of (playable s.contract s hand) else [])
    ++ kontra_moves s seat

abbrev pub moves_in : Phase → State → ℕ → List Card → List Move
moves_in bidding s seat hand = bid_moves s seat
moves_in skat_open s seat hand =
    if is_seat s.declarer seat then pickup_move ∷ declare_options s else []
moves_in pushing s seat hand = if is_seat s.declarer seat then push_move ∷ [] else []
moves_in declaring s seat hand = if is_seat s.declarer seat then declare_options s else []
moves_in showing s seat hand =
    if is_seat s.declarer seat then show_move (some (map some hand)) ∷ [] else []
moves_in playing s seat hand = play_moves s seat hand
moves_in over s seat hand = []

-- `actions`; a hand that is not given is empty.
unfoldable pub actions : State → ℕ → Option (List Card) → List Action
unfolding bid_moves play_moves
actions s seat hand = map (act seat) (moves_in s.phase s seat (given hand))

-- What `cmp` compares: the strength, the points, and the card's name by its character codes.
pub record Key : Type 0 where
  pub strength : ℤ
  pub points : ℕ
  pub name : ℕ

abbrev pub suit_code : Suit → ℕ
suit_code clubs = b'C'
suit_code spades = b'S'
suit_code hearts = b'H'
suit_code diamonds = b'D'

abbrev pub rank_code : Rank → ℕ
rank_code ace = b'A'
rank_code ten = b'T'
rank_code king = b'K'
rank_code queen = b'Q'
rank_code jack = b'J'
rank_code nine = b'9'
rank_code eight = b'8'
rank_code seven = b'7'

abbrev pub card_name : Card → ℕ
card_name c = suit_code c.suit * 256 + rank_code c.rank

-- `cmp(a, b) < 0`
abbrev pub key_less : Key → Key → Bool
key_less a b =
    if ltb_ℤ a.strength b.strength
    then true
    else if ltb_ℤ b.strength a.strength
    then false
    else if ltb a.points b.points
    then true
    else if ltb b.points a.points
    then false
    else ltb a.name b.name

-- A stable sort by the key.
unfoldable pub insert_by : (Card → Key) → Card → List Card → List Card
insert_by key c [] = c ∷ []
insert_by key c (d ∷ ds) = if key_less (key d) (key c) then d ∷ insert_by key c ds else c ∷ d ∷ ds

unfoldable pub sort_by : (Card → Key) → List Card → List Card
unfolding insert_by
sort_by key [] = []
sort_by key (c ∷ cs) = insert_by key c (sort_by key cs)

abbrev pub push_key : Card → Key
push_key c = record {
  strength = if rank_beq c.rank jack then pos 1 else pos 0;
  points = rank_eyes c.rank;
  name = card_name c;
}

-- `led || suitOf(game, c)`
abbrev pub led_or : Game → List Play → Card → Led
led_or g [] c = suit_of g c
led_or g (x ∷ xs) c = suit_of g x.card

abbrev pub play_key : Game → List Play → Card → Key
play_key g table c = record {
  strength = power g c (led_or g table c);
  points = rank_eyes c.rank;
  name = card_name c;
}

abbrev pub trumps_in : Game → List Card → ℕ
trumps_in g hand = length (filter (is_trump g) hand)

-- The loop of `longest`: `most` starts at -1, so the first suit is always taken.
abbrev pub longer : List Card → List Suit → Suit → ℕ → Suit
longer hand [] best most = best
longer hand (s ∷ ss) best most =
    let n = trumps_in (suit_game s) hand in
    longer hand ss (if ltb most n then s else best) (if ltb most n then n else most)

unfoldable pub longest : List Card → Suit
longest hand =
    longer hand (spades ∷ hearts ∷ diamonds ∷ []) clubs (trumps_in (suit_game clubs) hand)

abbrev pub auto_declare : State → List Card → Option Move
auto_declare s hand =
    let g = some (suit_game (longest hand)) in
    let down = not s.picked_up in
    elim (check_contract s g down false false false) [
      | none ↦ some (declare_move g down false false false)
      | some e ↦ none
    ]

abbrev pub first_play : List Card → Option Move
first_play [] = none
first_play (c ∷ cs) = some (play_of c)

unfoldable pub auto_play : Option Contract → State → List Card → Option Move
unfolding sort_by
auto_play none s hand = none
auto_play (some k) s hand =
    first_play (sort_by (play_key k.game (table_cards s.trick)) (playable (some k) s hand))

abbrev pub auto_in : Phase → State → List Card → Option Move
auto_in bidding s hand = some pass_move
auto_in skat_open s hand = auto_declare s hand
auto_in declaring s hand = auto_declare s hand
auto_in pushing s hand = some push_move
auto_in showing s hand = some (show_move (some (map some hand)))
auto_in playing s hand = auto_play s.contract s hand
auto_in over s hand = none

-- `auto`; the cards that it pushes are `auto_pushed`.
unfoldable pub auto : State → ℕ → Option (List Card) → Option Move
unfolding turn longest auto_play
auto s seat hand = if is_seat (turn s) seat then auto_in s.phase s (given hand) else none

unfoldable pub auto_pushed : List Card → List Card
unfolding sort_by
auto_pushed hand = take 2 (sort_by push_key hand)
