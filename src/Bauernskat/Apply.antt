-- ===== src/Bauernskat/Apply.antt =====
-- Bauernskat: what an action does to the state
-- (apps/duell-web/src/bauernskat.js: kontraOk, games, apply, turnUp, play).
use cads_agent_marketplace.Common.{
  Bool, List, Option, [], all, any, contains, false, get_elem?, if◌then◌else◌, leb, length, ltb,
  nat_eq, none, not, set, some, suc, true, ℕ, ◌&&◌, ◌++◌, ◌-◌, ◌==◌, ◌||◌, ◌∷◌,
}
use cads_agent_marketplace.Bauernskat.State.{
  Phase, Pile, Spot, State, dealing, declaring, has, is_bare, kontra_rule, null_rule, over, played,
  played_by, playing, row_of, rule_eq, tops, turn, visible,
}
use cads_agent_marketplace.Skat.Apply.{table_cards}
use cads_agent_marketplace.Skat.Cards.{
  Card, Game, card_eq, deck, grand, is_null, null_game, rank_eq, suit_eq, suit_game,
}
use cads_agent_marketplace.Skat.State.{Trick, is_seat}
use cads_agent_marketplace.Skat.Strength.{led_eq, may_play, trick_winner}

pub data Reason : Type 0 where
  action_reason done_reason turn_reason kontra_reason game_reason : Reason
  flip_reason card_reason follow_reason : Reason

-- `thrown` is a JavaScript exception.
pub data Outcome : Type 0 where
  ok : State → Outcome
  fail : Reason → Outcome
  thrown : Outcome

-- A card that is none of the deck, and a game that is none, is `none`.
pub data Move : Type 0 where
  turn_move : ℕ → Option Card → Move
  declare_move : Option Game → Move
  play_move : Option Card → Move
  kontra_move re_move other_move : Move

pub record Action : Type 0 where
  pub seat : ℕ
  pub move : Move

abbrev pub is_playing : Phase → Bool
is_playing playing = true
is_playing _ = false

abbrev pub is_given : Option Game → Bool
is_given none = false
is_given (some g) = true

abbrev pub kontra_open : State → Bool
kontra_open s = has s kontra_rule && (is_playing s.phase && is_given s.contract)

-- `kontraOk` for "kontra" (`re` false) and for "re" (`re` true)
unfoldable pub kontra_ok : State → ℕ → Bool → Bool
kontra_ok s seat false =
    kontra_open s && (s.kontra == 0 && (not (s.declarer == seat) && played_by s seat == 0))
kontra_ok s seat true =
    kontra_open s && (s.kontra == 1 && (s.declarer == seat && leb (played_by s seat) 1))

-- `games(s).indexOf(a.game) >= 0`
abbrev pub in_games : State → Option Game → Bool
in_games s none = false
in_games s (some null_game) = has s null_rule
in_games s (some grand) = true
in_games s (some (suit_game u)) = true

abbrev pub declare : State → Option Game → Outcome
declare s g =
    if not (in_games s g)
    then fail game_reason
    else ok (record s {
      contract = g;
      phase = playing;
      next = some s.declarer;
      trick = some (record { lead = s.declarer; cards = [] });
    })

abbrev pub same_spot : Spot → Spot → Bool
same_spot f g = f.seat == g.seat && f.i == g.i

-- The last entry for the spot goes.
abbrev pub remove_spot : Spot → List Spot → List Spot
remove_spot f [] = []
remove_spot f (g ∷ gs) =
    let rest = remove_spot f gs in
    if any (same_spot f) gs then g ∷ rest else if same_spot f g then gs else g ∷ gs

abbrev pub set_pile : State → Spot → Pile → List (List Pile)
set_pile s f x = set s.stacks f.seat (set (row_of s f.seat) f.i x)

abbrev pub all_show : List (List Pile) → Bool
all_show rows = all (λ row. all (λ x. not (is_bare x)) row) rows

-- A card of the face-up row shows; the last one ends the deal.
abbrev pub turn_dealt : State → Spot → Pile → Card → Outcome
turn_dealt s f x c =
    let stacks = set_pile s f (record x { top = some c }) in
    if not (is_bare x)
    then fail turn_reason
    else ok (record s { stacks = stacks; phase = if all_show stacks then declaring else dealing })

-- A face-down card shows whose turn has come.
abbrev pub turn_flipped : State → Spot → Card → Outcome
turn_flipped s f c =
    if not (any (same_spot f) s.flip)
    then fail turn_reason
    else ok (record s {
      flip = remove_spot f s.flip;
      stacks = set_pile s f (record { top = some c; under = false });
    })

abbrev pub turn_in_phase : Phase → State → Spot → Pile → Card → Outcome
turn_in_phase dealing s f x c = turn_dealt s f x c
turn_in_phase playing s f x c = turn_flipped s f c
turn_in_phase _ s f x c = fail turn_reason

-- `isCard` holds, and the card has not been seen.
abbrev pub is_new : State → Card → Bool
is_new s c = contains deck c && (not (contains (visible s) c) && not (contains (played s) c))

abbrev pub turn_card : State → Spot → Option Pile → Option Card → Outcome
turn_card s f none c = fail turn_reason
turn_card s f (some x) none = fail turn_reason
turn_card s f (some x) (some c) =
    if not (is_new s c) then fail turn_reason else turn_in_phase s.phase s f x c

-- `turnUp`
unfoldable pub turn_up : State → Spot → Option Card → Outcome
turn_up s f c = turn_card s f (get_elem? (row_of s f.seat) f.i) c

-- The last stack of the row that shows the card.
abbrev pub shows : Card → Pile → Bool
shows c x = elim x.top [ none ↦ false | some d ↦ d == c ]

abbrev pub last_shown : Card → List Pile → Option ℕ
last_shown c [] = none
last_shown c (x ∷ xs) =
    let rest = last_shown c xs in
    elim rest [ some j ↦ some (suc j) | none ↦ if shows c x then some 0 else none ]

abbrev pub flips_in_row : ℕ → ℕ → List Pile → List Spot
flips_in_row seat i [] = []
flips_in_row seat i (x ∷ xs) =
    let rest = flips_in_row seat (suc i) xs in
    if is_bare x && x.under then record { seat = seat; i = i } ∷ rest else rest

abbrev pub flips_in_rows : ℕ → List (List Pile) → List Spot
flips_in_rows seat [] = []
flips_in_rows seat (row ∷ rows) = flips_in_row seat 0 row ++ flips_in_rows (suc seat) rows

abbrev pub close_trick : Option ℕ → State → Game → Trick → Outcome
close_trick none s g t = thrown
close_trick (some w) s g t =
    let tricks = s.tricks ++ record { lead = t.lead; cards = t.cards; winner = w } ∷ [] in
    if length tricks == 16 || (is_null g && w == s.declarer)
    then ok (record s { tricks = tricks; phase = over; trick = none; next = none })
    else ok (record s {
      tricks = tricks;
      flip = s.flip ++ flips_in_rows 0 s.stacks;
      trick = some (record { lead = w; cards = [] });
      next = some w;
    })

abbrev pub bared : Option Pile → State → Spot → List (List Pile)
bared none s f = s.stacks
bared (some x) s f = set_pile s f (record x { top = none })

-- The card leaves its stack and lies in the trick.
abbrev pub lay : State → Game → Trick → ℕ → ℕ → Card → Outcome
lay s g t seat i c =
    let spot : Spot = record { seat = seat; i = i } in
    let stacks = bared (get_elem? (row_of s seat) i) s spot in
    let cards = t.cards ++ record { seat = seat; card = c } ∷ [] in
    let t' = record t { cards = cards } in
    let s' = record s { stacks = stacks; trick = some t' } in
    if ltb (length cards) 2
    then ok (record s' { next = some (1 - seat) })
    else close_trick (trick_winner g cards) s' g t'

abbrev pub lay_on : Option Trick → State → Game → ℕ → ℕ → Card → Outcome
lay_on none s g seat i c = thrown
lay_on (some t) s g seat i c = lay s g t seat i c

abbrev pub play_shown : Option ℕ → State → Game → ℕ → Card → Outcome
play_shown none s g seat c = fail card_reason
play_shown (some i) s g seat c =
    if not (may_play g (tops s seat) c (table_cards s.trick))
    then fail follow_reason
    else lay_on s.trick s g seat i c

abbrev pub play_card : State → Game → ℕ → Option Card → Outcome
play_card s g seat none = fail card_reason
play_card s g seat (some c) =
    if not (contains deck c) || contains (played s) c
    then fail card_reason
    else play_shown (last_shown c (row_of s seat)) s g seat c

abbrev pub is_empty : List Spot → Bool
is_empty [] = true
is_empty (f ∷ fs) = false

abbrev pub play_in : Option Game → State → ℕ → Option Card → Outcome
play_in none s seat c = thrown
play_in (some g) s seat c = if not (is_empty s.flip) then fail flip_reason else play_card s g seat c

-- `play`
unfoldable pub play : State → ℕ → Option Card → Outcome
play s seat c = play_in s.contract s seat c

abbrev pub turn_dispatch : Phase → Move → State → ℕ → Outcome
turn_dispatch declaring (declare_move g) s seat = declare s g
turn_dispatch playing (play_move c) s seat = play s seat c
turn_dispatch _ _ s seat = fail action_reason

abbrev pub apply_kontra : State → ℕ → Bool → Outcome
apply_kontra s seat re =
    if not (kontra_ok s seat re)
    then fail kontra_reason
    else ok (record s { kontra = suc s.kontra })

abbrev pub move_dispatch : Move → State → ℕ → Outcome
move_dispatch (turn_move i c) s seat = turn_up s (record { seat = seat; i = i }) c
move_dispatch kontra_move s seat = apply_kontra s seat false
move_dispatch re_move s seat = apply_kontra s seat true
move_dispatch m s seat =
    if not (is_seat (turn s) seat) then fail turn_reason else turn_dispatch s.phase m s seat

abbrev pub phase_dispatch : Phase → State → Action → Outcome
phase_dispatch over s a = fail done_reason
phase_dispatch _ s a = move_dispatch a.move s a.seat

-- `apply`: a message that is no action object is `none`.
unfoldable pub apply : State → Option Action → Outcome
unfolding turn_up play
apply s none = fail action_reason
apply s (some a) = if not (ltb a.seat 2) then fail action_reason else phase_dispatch s.phase s a
