-- ===== src/Bauernskat/Audit.antt =====
-- Bauernskat: was everything legal? (apps/duell-web/src/bauernskat.js: audit).
use cads_agent_marketplace.Common.{
  Bool, List, Option, [], all, contains, false, get_elem?, if◌then◌else◌, length, list_eq, map,
  nat_eq, none, not, option_beq, set, set_size, some, true, ℕ, ◌&&◌, ◌++◌, ◌==◌, ◌∷◌,
}
use cads_agent_marketplace.Bauernskat.Score.{Deal, Placed, cards_of}
use cads_agent_marketplace.Bauernskat.State.{Pile, State, if_some, row_of, rule_eq}
use cads_agent_marketplace.Skat.Apply.{table_cards}
use cads_agent_marketplace.Skat.Cards.{Card, Game, card_eq, deck, rank_eq, suit_eq}
use cads_agent_marketplace.Skat.Strength.{Play, led_eq, may_play}

pub data Blame : Type 0 where
  wrong_deck wrong_stack not_in_hand not_followed : Blame

-- `none` stands for the seat -1.
pub record Fault : Type 0 where
  pub seat : Option ℕ
  pub why : Blame

-- A stack as the deal shows it: the card on top, and the card below.
pub record Stack : Type 0 where
  pub top : Option Card
  pub under : Bool
  pub down : Card

-- The next step, unless the source has thrown.
abbrev pub then_next {ℓ κ} : {A : Type ℓ} → {B : Type κ} → Option A → (A → Option B) → Option B
then_next none f = none
then_next (some a) f = f a

abbrev pub all_cards : Deal → Option (List Card)
all_cards full =
    then_next (cards_of full 0)
      (λ first. then_next (cards_of full 1) (λ other. some (first ++ other)))

abbrev pub is_deck : List Card → Bool
is_deck cs = length cs == 32 && (set_size cs == 32 && all (contains deck) cs)

-- What lay open must be what the deal says. The rows of the state have eight piles each; the source
-- throws for a card that lay open where the deal has no stack.
abbrev pub is_other : Card → Card → Bool
is_other c d = not (c == d)

abbrev pub top_fault : ℕ → Option Card → Bool → Option Placed → Option (List Fault)
top_fault seat none under y = some []
top_fault seat (some c) under none = none
top_fault seat (some c) under (some y) = some (
    if is_other c (if under then y.up else y.down)
    then record { seat = some seat; why = wrong_stack } ∷ []
    else [])

abbrev pub both_faults : Option (List Fault) → Option (List Fault) → Option (List Fault)
both_faults k l = then_next k (λ xs. then_next l (λ ys. some (xs ++ ys)))

abbrev pub row_faults : ℕ → List Pile → List Placed → Option (List Fault)
row_faults seat [] ys = some []
row_faults seat (x ∷ xs) [] =
    both_faults (top_fault seat x.top x.under none) (row_faults seat xs [])
row_faults seat (x ∷ xs) (y ∷ ys) =
    both_faults (top_fault seat x.top x.under (some y)) (row_faults seat xs ys)

abbrev pub seat_faults : ℕ → State → Deal → Option (List Fault)
seat_faults seat s full = then_next (get_elem? full.stacks seat) (row_faults seat (row_of s seat))

abbrev pub stack_faults : State → Deal → Option (List Fault)
stack_faults s full = both_faults (seat_faults 0 s full) (seat_faults 1 s full)

abbrev pub stack_of : Placed → Stack
stack_of y = record { top = some y.up; under = true; down = y.down }

-- The stacks while the tricks are played again, and the faults that were found.
pub record Check : Type 0 where
  pub rows : List (List Stack)
  pub faults : List Fault

abbrev pub open_cards : List Stack → List Card
open_cards [] = []
open_cards (x ∷ xs) = if_some x.top ++ open_cards xs

abbrev pub bare_if : Card → Stack → Stack
bare_if c x = if option_beq x.top (some c) then record x { top = none } else x

abbrev pub play_fault : Bool → ℕ → List Fault
play_fault follows seat =
    if follows then [] else record { seat = some seat; why = not_followed } ∷ []

abbrev pub card_in_row : List Stack → Game → List Play → Play → Check → Check
card_in_row row g before y k =
    let avail = open_cards row in
    if contains avail y.card
    then record {
      rows = set k.rows y.seat (map (bare_if y.card) row);
      faults = k.faults ++ play_fault (may_play g avail y.card before) y.seat;
    }
    else record k { faults = k.faults ++ record { seat = some y.seat; why = not_in_hand } ∷ [] }

-- The source throws for a seat without stacks.
abbrev pub check_card : Game → List Play → Play → Check → Option Check
check_card g before y k =
    then_next (get_elem? k.rows y.seat) (λ row. some (card_in_row row g before y k))

abbrev pub check_cards : Game → List Play → List Play → Check → Option Check
check_cards g before [] k = some k
check_cards g before (y ∷ ys) k =
    then_next (check_card g before y k) (check_cards g (before ++ y ∷ []) ys)

-- After a full trick the cards below show.
abbrev pub show_below : Stack → Stack
show_below x = elim x.top [
  | none ↦ if x.under then record x { top = some x.down; under = false } else x
  | some c ↦ x
]

abbrev pub full_trick : List Play → Check → Check
full_trick cards k =
    if length cards == 2 then record k { rows = map (map show_below) k.rows } else k

abbrev pub check_trick : Game → List Play → Check → Option Check
check_trick g cards k = then_next (check_cards g [] cards k) (λ t. some (full_trick cards t))

abbrev pub check_tricks : Game → List (List Play) → Check → Option Check
check_tricks g [] k = some k
check_tricks g (t ∷ ts) k = then_next (check_trick g t k) (check_tricks g ts)

abbrev pub play_faults : Game → State → Deal → Option (List Fault)
play_faults g s full =
    let tricks = map (λ t. t.cards) s.tricks ++ table_cards s.trick ∷ [] in
    let start_rows = map (map stack_of) full.stacks in
    then_next (check_tricks g tricks (record { rows = start_rows; faults = [] }))
      (λ k. some k.faults)

abbrev pub audit_cards : Game → State → Deal → List Card → Option (List Fault)
audit_cards g s full cards =
    if is_deck cards
    then both_faults (stack_faults s full) (play_faults g s full)
    else some (record { seat = none; why = wrong_deck } ∷ [])

abbrev pub audit_game : Game → State → Deal → Option (List Fault)
audit_game g s full = then_next (all_cards full) (audit_cards g s full)

abbrev pub audit_in : Option Game → State → Deal → Option (List Fault)
audit_in none s full = some []
audit_in (some g) s full = audit_game g s full

-- `audit`: `none` where the source throws; a trick without cards finds nothing. What is shown are cards,
-- by their type: a text that is no card, which the source refuses as a wrong deck, is not modelled.
unfoldable pub audit : State → Deal → Option (List Fault)
audit s full = audit_in s.contract s full
