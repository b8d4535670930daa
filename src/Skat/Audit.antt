-- ===== src/Skat/Audit.antt =====
-- Skat: the check after the hand, when the cards of all seats are shown
-- (apps/duell-web/src/skat.js: audit).
pub mod Honest
pub mod Cards
use cads_agent_marketplace.Common.{
  Bool, List, Option, [], all, contains, erase, false, filter, get_elem?, if◌then◌else◌, length,
  nat_eq, none, not, set, set_size, some, true, ℕ, ◌&&◌, ◌++◌, ◌==◌, ◌||◌, ◌∷◌,
}
use cads_agent_marketplace.Common.Int.{pos}
use cads_agent_marketplace.Skat.Apply.{table_cards}
use cads_agent_marketplace.Skat.Cards.{Card, Game, card, card_eq, deck, rank_eq, suit_eq}
use cads_agent_marketplace.Skat.Moves.{Key, card_name, sort_by}
use cads_agent_marketplace.Skat.Score.{Deal, or_empty, twelve}
use cads_agent_marketplace.Skat.State.{Contract, State, Taken, rule_eq}
use cads_agent_marketplace.Skat.Strength.{Play, led_eq, may_play}

-- What is wrong, and whose fault it is: the seat -1 of the source is `none`.
pub data Why : Type 0 where
  deck_why pushed_why hand_why open_why not_in_hand_why follow_why : Why

pub record Bad : Type 0 where
  pub seat : Option ℕ
  pub why : Why

-- The hands as far as they are checked (`hands`), and what was found (`out`).
pub record Checked : Type 0 where
  pub hands : List (List Card)
  pub out : List Bad

abbrev pub bad_if : Bool → Option ℕ → Why → List Bad
bad_if wrong seat why = if wrong then record { seat = seat; why = why } ∷ [] else []

-- The next check, unless the source has thrown.
abbrev pub and_then : Option Checked → (Checked → Option Checked) → Option Checked
and_then none next = none
and_then (some k) next = next k

abbrev pub joined : List (List Card) → List Card
joined [] = []
joined (h ∷ hs) = h ++ joined hs

-- All cards of the deal must be the deck. The last test is `isCard`: it holds of every card, and the
-- texts that are none are not modelled.
abbrev pub no_deck : List Card → Bool
no_deck cards =
    not (length cards == 32) || (not (set_size cards == 32) || not (all (contains deck) cards))

unfoldable pub audit_deck : Deal → Checked
audit_deck full = record {
  hands = full.hands;
  out = bad_if (no_deck (joined full.hands ++ or_empty full.skat)) none deck_why;
}

abbrev pub hand_of : Option ℕ → List (List Card) → Option (List Card)
hand_of none hands = none
hand_of (some d) hands = get_elem? hands d

abbrev pub set_hand : Option ℕ → List (List Card) → List Card → List (List Card)
set_hand none hands h = hands
set_hand (some d) hands h = set hands d h

-- The pushed cards must be two of the declarer's twelve.
abbrev pub wrong_push : List Card → List Card → Bool
wrong_push twelve push =
    not (length push == 2) || (not (set_size push == 2) || not (all (contains twelve) push))

abbrev pub push_checked : Option (List Card) → State → Deal → Checked → Option Checked
push_checked none s full k = none
push_checked (some h) s full k =
    let twelve = h ++ or_empty full.skat in
    let push = or_empty full.pushed in
    some (record {
      hands = set_hand s.declarer k.hands (filter (λ c. not (contains push c)) twelve);
      out = k.out ++ bad_if (wrong_push twelve push) s.declarer pushed_why;
    })

unfoldable pub audit_push : State → Deal → Checked → Option Checked
audit_push s full k =
    if s.picked_up
    then push_checked (hand_of s.declarer k.hands) s full k
    else some (record k {
      out = k.out ++ bad_if (not (length (or_empty full.pushed) == 0)) s.declarer hand_why;
    })

-- The order of `sort`: by the names of the cards.
abbrev pub name_key : Card → Key
name_key c = record { strength = pos 0; points = 0; name = card_name c }

abbrev pub same_cards : List Card → List Card → Bool
same_cards [] [] = true
same_cards [] (d ∷ ds) = false
same_cards (c ∷ cs) [] = false
same_cards (c ∷ cs) (d ∷ ds) = c == d && same_cards cs ds

abbrev pub open_checked : Option (List Card) → List Card → State → Checked → Option Checked
open_checked none o s k = none
open_checked (some h) o s k = some (record k {
  out =
      k.out
      ++ bad_if (not (same_cards (sort_by name_key h) (sort_by name_key o))) s.declarer open_why;
})

abbrev pub open_in : Option (List Card) → State → Checked → Option Checked
open_in none s k = some k
open_in (some o) s k = open_checked (hand_of s.declarer k.hands) o s k

unfoldable pub audit_open : State → Checked → Option Checked
unfolding sort_by
audit_open s k = open_in s.open_hand s k

-- One card: if it is in the hand it must follow suit, and leaves the hand.
abbrev pub card_held : Bool → List Card → Game → List Play → Play → Checked → Checked
card_held false h g before x k = record k {
  out = k.out ++ record { seat = some x.seat; why = not_in_hand_why } ∷ [];
}
card_held true h g before x k = record {
  hands = set k.hands x.seat (erase h x.card);
  out = k.out ++ bad_if (not (may_play g h x.card before)) (some x.seat) follow_why;
}

abbrev pub card_checked : Option (List Card) → Game → List Play → Play → Checked → Option Checked
card_checked none g before x k = none
card_checked (some h) g before x k = some (card_held (contains h x.card) h g before x k)

abbrev pub audit_card : Game → List Play → Play → Checked → Option Checked
audit_card g before x k = card_checked (get_elem? k.hands x.seat) g before x k

-- The cards of one trick; `before` are those that are checked.
unfoldable pub audit_trick : Game → List Play → List Play → Checked → Option Checked
audit_trick g before [] k = some k
audit_trick g before (x ∷ xs) k =
    and_then (audit_card g before x k) (audit_trick g (before ++ x ∷ []) xs)

unfoldable pub audit_tricks : Game → List (List Play) → Checked → Option Checked
unfolding audit_trick
audit_tricks g [] k = some k
audit_tricks g (t ∷ ts) k = and_then (audit_trick g [] t k) (audit_tricks g ts)

abbrev pub cards_of_tricks : List Taken → List (List Play)
cards_of_tricks [] = []
cards_of_tricks (t ∷ ts) = t.cards ∷ cards_of_tricks ts

abbrev pub if_any : List Play → List (List Play)
if_any [] = []
if_any (x ∷ xs) = (x ∷ xs) ∷ []

unfoldable pub all_tricks : State → List (List Play)
all_tricks s = cards_of_tricks s.tricks ++ if_any (table_cards s.trick)

-- The hands with which the play begins.
unfoldable pub audit_hands : State → Deal → Option Checked
unfolding audit_deck audit_push audit_open
audit_hands s full = and_then (audit_push s full (audit_deck full)) (audit_open s)

abbrev pub found : Option Checked → Option (List Bad)
found none = none
found (some k) = some k.out

abbrev pub audit_in : Option Contract → State → Deal → Option (List Bad)
audit_in none s full = some []
audit_in (some c) s full =
    found (and_then (audit_hands s full) (audit_tricks c.game (all_tricks s)))

-- `audit`: `none` where the source reads a hand that is not there.
unfoldable pub audit : State → Deal → Option (List Bad)
unfolding audit_hands audit_tricks all_tricks
audit s full = if s.passed_out then some [] else audit_in s.contract s full
