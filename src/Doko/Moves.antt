-- ===== src/Doko/Moves.antt =====
-- Doppelkopf: the offered moves, the move for an absent player, the explanation of a trick and the
-- audit (apps/duell-web/src/doko.js: actions, weakest, auto, explain, audit).
use cads_agent_marketplace.Common.{
  Bool, List, Option, [], contains, filter, get_elem?, if◌then◌else◌, index_of, leb, length,
  list_eq, ltb, map, nat_eq, none, not, option_beq, some, suc, zero, ℕ, ◌&&◌, ◌*◌, ◌++◌, ◌+◌, ◌==◌,
  ◌||◌, ◌∷◌,
}
use cads_agent_marketplace.Common.Int.{ltb_ℤ, ℤ}
use cads_agent_marketplace.Doko.Apply.{Action, Move, call_word, play_card, reserve}
use cads_agent_marketplace.Doko.Calls.{call_ok, club_queen, level_of, own_party}
use cads_agent_marketplace.Doko.Cards.{
  Card, Kind, Led, Play, Rank, Rule, Solo, Suit, ace, best_index, buben, card_eq, clubs, damen,
  diamonds, eyes, fleischlos, follows, hearts, herz, is_trump, jack, karo, king, kreuz, led_eq,
  legal_cards, nine, pik, power, queen, rank_eq, rule_eq, solo, spades, suit_eq, ten, trump,
}
use cads_agent_marketplace.Doko.State.{
  Party, Phase, Saying, State, Word, alone, asking, gesund, k30, k60, k90, kontra, kontra_word,
  marry, over, party_eq, playing, questions, re, re_word, schwarz, turn, vorbehalt,
}

abbrev pub solos : List Solo
solos = damen ∷ buben ∷ fleischlos ∷ kreuz ∷ pik ∷ herz ∷ karo ∷ []

abbrev pub act : ℕ → Move → Action
act seat m = record { seat = seat; move = m }

abbrev pub queens_held : List Card → ℕ
queens_held hand = length (filter (λ c. c == club_queen) hand)

abbrev pub question_moves : List Card → List Saying
question_moves hand = map alone solos ++ (if queens_held hand == 2 then marry ∷ [] else [])

-- The first of equal cards only.
abbrev pub firsts : List Card → List Card → List Card
firsts before [] = []
firsts before (c ∷ cs) =
    let rest = firsts (c ∷ before) cs in if contains before c then rest else c ∷ rest

abbrev pub level_word : Party → ℕ → Word
level_word re zero = re_word
level_word kontra zero = kontra_word
level_word p (suc zero) = k90
level_word p (suc (suc zero)) = k60
level_word p (suc (suc (suc zero))) = k30
level_word p _ = schwarz

abbrev pub next_level : Option ℕ → ℕ
next_level none = 0
next_level (some l) = suc l

abbrev pub call_move : Option Party → State → ℕ → List Move
call_move none s seat = []
call_move (some p) s seat =
    let lvl = next_level (level_of s.level p) in
    if leb lvl 4 && call_ok s seat p lvl then call_word (some p) (level_word p lvl) ∷ [] else []

abbrev pub play_moves : State → ℕ → List Card → List Move
play_moves s seat hand =
    if option_beq (turn s) (some seat)
    then map (λ c. play_card (some c)) (firsts [] (legal_cards s.kind s.trick.cards hand))
    else []

abbrev pub moves_in : Phase → State → ℕ → List Card → List Move
moves_in asking s seat hand = if s.ask == seat then reserve gesund ∷ reserve vorbehalt ∷ [] else []
moves_in questions s seat hand = if s.ask == seat then map reserve (question_moves hand) else []
moves_in playing s seat hand = play_moves s seat hand ++ call_move (own_party s seat hand) s seat
moves_in over s seat hand = []

-- `actions`
unfoldable pub actions : State → ℕ → List Card → List Action
actions s seat hand = map (act seat) (moves_in s.phase s seat hand)

-- The order of `weakest`: strength in the trick, then the eyes, then the name of the card.
abbrev pub suit_code : Suit → ℕ
suit_code clubs = b'C'
suit_code spades = b'S'
suit_code hearts = b'H'
suit_code diamonds = b'D'

abbrev pub rank_code : Rank → ℕ
rank_code ace = b'A'
rank_code ten = b'T'
rank_code king = b'K'
rank_code queen = b'Q'
rank_code jack = b'J'
rank_code nine = b'9'

abbrev pub name_no : Card → ℕ
name_no c = suit_code c.suit * 256 + rank_code c.rank

abbrev pub led_for : Kind → List Play → Card → Led
led_for kind [] c = follows kind c
led_for kind (x ∷ xs) c = follows kind x.card

abbrev pub strength : Kind → List Play → Card → ℤ
strength kind trick c = power kind c (led_for kind trick c)

abbrev pub weaker : Kind → List Play → Card → Card → Bool
weaker kind trick c d =
    let x = strength kind trick c in
    let y = strength kind trick d in
    ltb_ℤ x y
    || (not (ltb_ℤ y x)
        && (ltb (eyes c) (eyes d) || (not (ltb (eyes d) (eyes c)) && ltb (name_no c) (name_no d))))

abbrev pub weakest_of : Kind → List Play → Card → List Card → Card
weakest_of kind trick c [] = c
weakest_of kind trick c (d ∷ ds) = weakest_of kind trick (if weaker kind trick d c then d else c) ds

abbrev pub weakest : Kind → List Play → List Card → Option Card
weakest kind trick [] = none
weakest kind trick (c ∷ cs) = some (weakest_of kind trick c cs)

-- The solo with the most trumps in the hand, the first of equal ones.
abbrev pub trumps_held : List Card → Solo → ℕ
trumps_held hand v = length (filter (is_trump (solo v)) hand)

abbrev pub most_trumps : List Card → Solo → List Solo → Solo
most_trumps hand best [] = best
most_trumps hand best (v ∷ vs) =
    most_trumps hand (if ltb (trumps_held hand best) (trumps_held hand v) then v else best) vs

abbrev pub best_reservation : List Card → Saying
best_reservation hand =
    if queens_held hand == 2 then marry else alone (most_trumps hand damen solos)

abbrev pub card_move : Option Card → Option Move
card_move none = none
card_move (some c) = some (play_card (some c))

abbrev pub auto_in : Phase → State → List Card → Option Move
auto_in asking s hand = some (reserve gesund)
auto_in questions s hand = some (reserve (best_reservation hand))
auto_in playing s hand =
    card_move (weakest s.kind s.trick.cards (firsts [] (legal_cards s.kind s.trick.cards hand)))
auto_in over s hand = none

abbrev pub option_act : ℕ → Option Move → Option Action
option_act seat none = none
option_act seat (some m) = some (act seat m)

-- `auto`
unfoldable pub auto : State → ℕ → List Card → Option Action
auto s seat hand =
    if option_beq (turn s) (some seat) then option_act seat (auto_in s.phase s hand) else none

-- `explain`
pub data Why : Type 0 where
  high first_twin dulle_twin by_trump : Why

pub data How : Type 0 where
  leads follows_suit trumps_in throws_off : How

abbrev pub how_after : Kind → Led → Card → How
how_after kind led c =
    if follows kind c == led
    then follows_suit
    else if is_trump kind c
    then trumps_in
    else throws_off

abbrev pub how_rest : Kind → Led → List Play → List How
how_rest kind led [] = []
how_rest kind led (x ∷ xs) = how_after kind led x.card ∷ how_rest kind led xs

abbrev pub why_won : Kind → Led → Card → ℕ → List Card → Why
why_won kind led w i cards =
    if leb 2 (length (filter (λ c. c == w) cards))
    then (if index_of cards w == i then first_twin else dulle_twin)
    else if not (led == trump) && is_trump kind w
    then by_trump
    else high

pub record Explained : Type 0 where
  pub led : Led
  pub win : ℕ
  pub seat : ℕ
  pub winning_card : Card
  pub why : Why
  pub hows : List How

abbrev pub explained_at : Option Play → ℕ → Kind → Play → List Play → Option Explained
explained_at none i kind x xs = none
explained_at (some w) i kind x xs =
    let led = follows kind x.card in
    some (record {
      led = led;
      win = i;
      seat = w.seat;
      winning_card = w.card;
      why = why_won kind led w.card i (map (λ y. y.card) (x ∷ xs));
      hows = leads ∷ how_rest kind led xs;
    })

abbrev pub explain_from : Option ℕ → Kind → Play → List Play → Option Explained
explain_from none kind x xs = none
explain_from (some i) kind x xs = explained_at (get_elem? (x ∷ xs) i) i kind x xs

unfoldable pub explain : Kind → List Play → List Rule → Option Explained
explain kind [] rs = none
explain kind (x ∷ xs) rs = explain_from (best_index kind (x ∷ xs) rs) kind x xs
