-- ===== src/Skat/Apply.antt =====
-- Skat: what an action does to the state
-- (apps/duell-web/src/skat.js: playedBy, kontraOk, kontraLate, played, play, apply).
use cads_agent_marketplace.Common.{
  Bool, List, Option, [], all, contains, false, filter, if◌then◌else◌, leb, length, ltb, nat_eq,
  none, not, set_size, some, suc, true, ℕ, ◌%◌, ◌&&◌, ◌++◌, ◌+◌, ◌==◌, ◌||◌, ◌∷◌,
}
use cads_agent_marketplace.Skat.Bidding.{
  Outcome, Reason, action, apply_bid, card_reason, cards_reason, done_already, fail, game_reason,
  kontra_reason, ok, open_reason, thrown, turn_reason, twice_reason,
}
use cads_agent_marketplace.Skat.Cards.{Card, Game, card_eq, deck, is_null, rank_eq, suit_eq}
use cads_agent_marketplace.Skat.Contract.{check_contract, contract_of}
use cads_agent_marketplace.Skat.State.{
  Action, Contract, Move, Phase, State, Taken, Trick, bidding, declare_move, declaring, forehand,
  hand_size, has, is_seat, kontra_move, kontra_rule, over, pickup_move, play_move, playing,
  push_move, pushing, re_move, rule_eq, seats, show_move, showing, skat_open, turn,
}
use cads_agent_marketplace.Skat.Strength.{Play, led_eq, may_play, trick_winner}

abbrev pub cards_of_seat : ℕ → List Play → ℕ
cards_of_seat seat [] = 0
cards_of_seat seat (x ∷ xs) =
    if x.seat == seat then suc (cards_of_seat seat xs) else cards_of_seat seat xs

abbrev pub taken_by : ℕ → List Taken → ℕ
taken_by seat [] = 0
taken_by seat (t ∷ ts) = cards_of_seat seat t.cards + taken_by seat ts

-- The cards of the trick on the table, empty where there is none.
abbrev pub table_cards : Option Trick → List Play
table_cards none = []
table_cards (some t) = t.cards

-- `playedBy`
unfoldable pub played_by : State → ℕ → ℕ
played_by s seat = taken_by seat s.tricks + cards_of_seat seat (table_cards s.trick)

abbrev pub is_playing : Phase → Bool
is_playing playing = true
is_playing _ = false

abbrev pub normal_contract : Option Contract → Bool
normal_contract none = false
normal_contract (some c) = not c.ramsch

-- The guard that `kontraOk` and `kontraLate` share.
abbrev pub kontra_open : State → Bool
kontra_open s = has s kontra_rule && (is_playing s.phase && normal_contract s.contract)

-- `kontraOk` for "kontra" (`re` false) and for "re" (`re` true)
unfoldable pub kontra_ok : State → ℕ → Bool → Bool
kontra_ok s seat false =
    kontra_open s && (s.kontra == 0 && (not (is_seat s.declarer seat) && played_by s seat == 0))
kontra_ok s seat true =
    kontra_open s && (s.kontra == 1 && (is_seat s.declarer seat && leb (played_by s seat) 1))

abbrev pub is_kontra : Move → Bool
is_kontra kontra_move = true
is_kontra _ = false

-- `kontraLate`
unfoldable pub kontra_late : State → Action → Bool
kontra_late s a =
    is_kontra a.move && (kontra_open s && (leb 1 s.kontra && not (is_seat s.declarer a.seat)))

abbrev pub play_cards : List Play → List Card
play_cards [] = []
play_cards (x ∷ xs) = x.card ∷ play_cards xs

abbrev pub taken_cards : List Taken → List Card
taken_cards [] = []
taken_cards (t ∷ ts) = play_cards t.cards ++ taken_cards ts

-- `played`
unfoldable pub played : State → List Card
played s = taken_cards s.tricks ++ play_cards (table_cards s.trick)

-- Whether a card of the open hand breaks it: the declarer must follow suit from what is left of it,
-- and nobody else may play a card that it holds.
abbrev pub open_broken : State → Game → ℕ → Card → List Card → Bool
open_broken s g seat c hand =
    let left = filter (λ x. not (contains (played s) x)) hand in
    if is_seat s.declarer seat
    then not (may_play g left c (table_cards s.trick))
    else contains left c

abbrev pub breaks_in : Option (List Card) → State → Game → ℕ → Card → Bool
breaks_in none s g seat c = false
breaks_in (some hand) s g seat c = open_broken s g seat c hand

abbrev pub breaks_open : State → Game → ℕ → Card → Bool
breaks_open s g seat c = breaks_in s.open_hand s g seat c

abbrev pub is_declarer : State → ℕ → Bool
is_declarer s w = is_seat s.declarer w

-- The trick is full and `w` has taken it.
unfoldable pub close_trick : State → Game → Trick → ℕ → State
close_trick s g t w =
    let tricks = s.tricks ++ record { lead = t.lead; cards = t.cards; winner = w } ∷ [] in
    if length tricks == hand_size || (is_null g && is_declarer s w)
    then record s { tricks = tricks; phase = over; trick = none; next = none }
    else record s { tricks = tricks; trick = some (record { lead = w; cards = [] }); next = some w }

abbrev pub close_won : Option ℕ → State → Game → Trick → Outcome
close_won none s g t = thrown
close_won (some w) s g t = ok (close_trick s g t w)

-- The card lies on the table.
unfoldable pub lay : State → Game → Trick → ℕ → Card → Outcome
lay s g t seat c =
    let cards = t.cards ++ record { seat = seat; card = c } ∷ [] in
    let t' = record t { cards = cards } in
    if ltb (length cards) seats
    then ok (record s { trick = some t'; next = some ((seat + 1) % 3) })
    else close_won (trick_winner g cards) s g t'

abbrev pub lay_on : Option Trick → State → Game → ℕ → Card → Outcome
lay_on none s g seat c = thrown
lay_on (some t) s g seat c = lay s g t seat c

-- `play`, once the card is known to be one
abbrev pub play_card : State → Game → ℕ → Card → Outcome
play_card s g seat c =
    if not (contains deck c)
    then fail card_reason
    else if contains (played s) c
    then fail twice_reason
    else if breaks_open s g seat c
    then fail open_reason
    else lay_on s.trick s g seat c

abbrev pub play_in : Option Contract → State → ℕ → Option Card → Outcome
play_in none s seat c = thrown
play_in (some k) s seat none = fail card_reason
play_in (some k) s seat (some c) = play_card s k.game seat c

-- `play`
unfoldable pub play : State → ℕ → Option Card → Outcome
play s seat c = play_in s.contract s seat c

-- The cards of a message, if all of them are cards.
abbrev pub all_cards : List (Option Card) → Option (List Card)
all_cards [] = some []
all_cards (none ∷ cs) = none
all_cards (some c ∷ cs) = elim (all_cards cs) [ none ↦ none | some ds ↦ some (c ∷ ds) ]

-- The open hand of a message: ten different cards.
unfoldable pub shown : Option (List (Option Card)) → Option (List Card)
shown none = none
shown (some cs) = if not (length cs == hand_size) then none else elim (all_cards cs) [
  | none ↦ none
  | some ds ↦ if all (contains deck) ds && set_size ds == hand_size then some ds else none
]

-- The announcement has been checked, with the reason against it if there is one.
abbrev pub declare_checked :
    Option Reason → State → Option Game → Bool → Bool → Bool → Bool → Outcome
declare_checked (some e) s g hand schneider schwarz ouvert = fail e
declare_checked none s none hand schneider schwarz ouvert = fail game_reason
declare_checked none s (some g) hand schneider schwarz ouvert =
    let lead = forehand s.dealer in
    ok (record s {
      contract = some (contract_of g hand schneider schwarz ouvert);
      phase = if ouvert then showing else playing;
      next = some lead;
      trick = some (record { lead = lead; cards = [] });
    })

abbrev pub apply_declare : State → Option Game → Bool → Bool → Bool → Bool → Outcome
apply_declare s g hand schneider schwarz ouvert =
    declare_checked (check_contract s g hand schneider schwarz ouvert) s g hand schneider schwarz
      ouvert

abbrev pub show_checked : Option (List Card) → State → Outcome
show_checked none s = fail cards_reason
show_checked (some ds) s = ok (record s { open_hand = some ds; phase = playing })

abbrev pub apply_show : State → Option (List (Option Card)) → Outcome
apply_show s cs = show_checked (shown cs) s

abbrev pub turn_dispatch : Phase → Move → State → ℕ → Outcome
turn_dispatch skat_open pickup_move s seat = ok (record s { picked_up = true; phase = pushing })
turn_dispatch pushing push_move s seat = ok (record s { pushed = true; phase = declaring })
turn_dispatch skat_open (declare_move g hand schneider schwarz ouvert) s seat =
    apply_declare s g hand schneider schwarz ouvert
turn_dispatch declaring (declare_move g hand schneider schwarz ouvert) s seat =
    apply_declare s g hand schneider schwarz ouvert
turn_dispatch showing (show_move cs) s seat = apply_show s cs
turn_dispatch playing (play_move c) s seat = play s seat c
turn_dispatch _ _ s seat = fail action

abbrev pub apply_kontra : State → ℕ → Bool → Outcome
apply_kontra s seat re =
    if not (kontra_ok s seat re)
    then fail kontra_reason
    else ok (record s { kontra = suc s.kontra })

abbrev pub on_turn : State → Action → Outcome
on_turn s a =
    if not (is_seat (turn s) a.seat)
    then fail turn_reason
    else turn_dispatch s.phase a.move s a.seat

abbrev pub in_game : Move → State → Action → Outcome
in_game kontra_move s a = apply_kontra s a.seat false
in_game re_move s a = apply_kontra s a.seat true
in_game _ s a = on_turn s a

abbrev pub phase_dispatch : Phase → State → Action → Outcome
phase_dispatch over s a = fail done_already
phase_dispatch bidding s a = apply_bid s a
phase_dispatch _ s a = in_game a.move s a

-- `apply`: a message that is no action object is `none`.
unfoldable pub apply : State → Option Action → Outcome
unfolding turn
apply s none = fail action
apply s (some a) = phase_dispatch s.phase s a
