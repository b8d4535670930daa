-- ===== src/Bauernskat/State.antt =====
-- Bauernskat: the public state, and what may be opened
-- (apps/duell-web/src/bauernskat.js: start, tops, played, playedBy, visible, turn, done, reveals).
use cads_agent_marketplace.Common.{
  Bool, Eq, List, Option, [], arith, contains, false, filter, get_elem?, if◌then◌else◌, map, nat_eq,
  none, some, suc, true, zero, ℕ, ◌%◌, ◌++◌, ◌+◌, ◌↔◌, ◌∷◌, ◌≡◌,
}
use cads_agent_marketplace.Skat.Apply.{
  cards_of_seat, play_cards, table_cards, taken_by, taken_cards,
}
use cads_agent_marketplace.Skat.Cards.{Card, Game, card_eq, rank_eq, suit_eq}
use cads_agent_marketplace.Skat.State.{Taken, Trick}
use cads_agent_marketplace.Skat.Strength.{led_eq}

pub data Rule : Type 0 where
  null_rule kontra_rule : Rule

abbrev pub rule_beq : Rule → Rule → Bool
rule_beq null_rule null_rule = true
rule_beq kontra_rule kontra_rule = true
rule_beq null_rule kontra_rule = false
rule_beq kontra_rule null_rule = false

pub rule_beq_iff : (r q : Rule) → (rule_beq r q ≡ true) ↔ (r ≡ q)
rule_beq_iff r q = ground arith

instance abbrev pub rule_eq : Eq Rule
rule_eq = record { beq = rule_beq; beq_iff = rule_beq_iff }

-- `rules`
unfoldable pub rules : List Rule → List Rule
rules r = filter (λ k. contains r k) (null_rule ∷ kontra_rule ∷ [])

pub data Phase : Type 0 where
  dealing declaring playing over : Phase

-- A stack: the card one sees on it, and whether its face-down card still lies there.
pub record Pile : Type 0 where
  pub top : Option Card
  pub under : Bool

-- Stack `i` of a seat.
pub record Spot : Type 0 where
  pub seat : ℕ
  pub i : ℕ

-- The flags of a contract are always false here, so a contract is its game.
pub record State : Type 0 where
  pub house : List Rule
  pub kontra : ℕ
  pub dealer : ℕ
  pub phase : Phase
  pub declarer : ℕ
  pub contract : Option Game
  pub stacks : List (List Pile)
  pub flip : List Spot
  pub trick : Option Trick
  pub tricks : List Taken
  pub next : Option ℕ

abbrev pub forehand : ℕ → ℕ
forehand dealer = (dealer + 1) % 2

abbrev pub new_row : ℕ → List Pile
new_row zero = []
new_row (suc n) = record { top = none; under = true } ∷ new_row n

-- `start`: a dealer that is no number is seat 0.
unfoldable pub start : List Rule → Option ℕ → State
unfolding rules
start house dealer_opt =
    let dealer : ℕ = elim dealer_opt [ none ↦ 0 | some d ↦ (d % 2 + 2) % 2 ] in
    record {
      house = rules house;
      kontra = 0;
      dealer = dealer;
      phase = dealing;
      declarer = forehand dealer;
      contract = none;
      stacks = new_row 8 ∷ new_row 8 ∷ [];
      flip = [];
      trick = none;
      tricks = [];
      next = none;
    }

unfoldable pub has : State → Rule → Bool
has s k = contains s.house k

-- A state has a row for each of the two seats; a row that is missing is empty.
abbrev pub or_no_row : Option (List Pile) → List Pile
or_no_row none = []
or_no_row (some row) = row

abbrev pub row_of : State → ℕ → List Pile
row_of s seat = or_no_row (get_elem? s.stacks seat)

abbrev pub if_some : Option Card → List Card
if_some none = []
if_some (some c) = c ∷ []

abbrev pub row_tops : List Pile → List Card
row_tops [] = []
row_tops (x ∷ xs) = if_some x.top ++ row_tops xs

-- `tops`
unfoldable pub tops : State → ℕ → List Card
tops s seat = row_tops (row_of s seat)

-- `played`, `playedBy`, `visible`
unfoldable pub played : State → List Card
played s = taken_cards s.tricks ++ play_cards (table_cards s.trick)

unfoldable pub played_by : State → ℕ → ℕ
played_by s seat = taken_by seat s.tricks + cards_of_seat seat (table_cards s.trick)

unfoldable pub visible : State → List Card
unfolding tops
visible s = tops s 0 ++ tops s 1

-- `turn`: `none` where the source answers -1.
abbrev pub turn_in : Phase → State → Option ℕ
turn_in declaring s = some s.declarer
turn_in playing s = s.next
turn_in _ s = none

unfoldable pub turn : State → Option ℕ
turn s = turn_in s.phase s

unfoldable pub done : State → Bool
done s = elim s.phase [ over ↦ true | _ ↦ false ]

-- A card that may be opened now: of the face-up row (`up`), or face-down.
pub record Reveal : Type 0 where
  pub spot : Spot
  pub up : Bool

abbrev pub is_bare : Pile → Bool
is_bare x = elim x.top [ none ↦ true | some c ↦ false ]

abbrev pub up_in_row : ℕ → ℕ → List Pile → List Reveal
up_in_row seat i [] = []
up_in_row seat i (x ∷ xs) =
    let rest = up_in_row seat (suc i) xs in
    if is_bare x then record { spot = record { seat = seat; i = i }; up = true } ∷ rest else rest

abbrev pub up_in_rows : ℕ → List (List Pile) → List Reveal
up_in_rows seat [] = []
up_in_rows seat (row ∷ rows) = up_in_row seat 0 row ++ up_in_rows (suc seat) rows

abbrev pub face_down : Spot → Reveal
face_down f = record { spot = f; up = false }

abbrev pub reveals_in : Phase → State → List Reveal
reveals_in dealing s = up_in_rows 0 s.stacks
reveals_in playing s = map face_down s.flip
reveals_in _ s = []

unfoldable pub reveals : State → List Reveal
reveals s = reveals_in s.phase s
