-- ===== src/Skat/Audit/Cards.antt =====
-- Skat: what an empty audit says of the cards that are shown.
use cads_agent_marketplace.Common.{
  Bool, Bool-cases, List, Option, [], arith, contains, distinct, false, if◌then◌else◌, inl, inr,
  length, length-distinct_le, list_eq, nat_eq, none, not, set_size, set_size-distinct, some, sym,
  true, ◌++◌, ◌==◌, ◌∙◌, ◌∷◌, ◌≡◌, ◌≤◌,
}
use cads_agent_marketplace.Skat.Audit.{
  Checked, all_tricks, and_then, audit, audit_deck, audit_hands, audit_open, audit_push, bad_if,
  deck_why, found, hand_of, hand_why, joined, no_deck, open_checked, open_in, push_checked,
}
use cads_agent_marketplace.Skat.Audit.Honest.{
  HonestFrom, IsClean, append-left, audit-Honest, bad_if-right,
}
use cads_agent_marketplace.Skat.Cards.{
  Card, Game, Rank, Suit, card, card_eq, clubs, deck, diamonds, hearts, rank_eq, spades, suit_eq,
}
use cads_agent_marketplace.Skat.Score.{Deal, or_empty}
use cads_agent_marketplace.Skat.State.{Contract, State, rule_eq}
use cads_agent_marketplace.Skat.Strength.{Play, led_eq}

-- A check that adds to what was found before is clean only if nothing was found before.
open_checked-IsClean :
    (h : Option (List Card)) (o : List Card) (s : State) (k : Checked)
    → IsClean (open_checked h o s k)
    → k.out ≡ []
open_checked-IsClean none o s k c = absurd c
open_checked-IsClean (some h) o s k c = (append-left k.out _ c).0

open-IsClean :
    (o : Option (List Card)) (s : State) (k : Checked) → IsClean (open_in o s k) → k.out ≡ []
open-IsClean none s k c = c
open-IsClean (some o) s k c = open_checked-IsClean (hand_of s.declarer k.hands) o s k c

push_checked-IsClean :
    (h : Option (List Card)) (s : State) (full : Deal) (k : Checked)
    → IsClean (push_checked h s full k)
    → k.out ≡ []
push_checked-IsClean none s full k c = absurd c
push_checked-IsClean (some h) s full k c = (append-left k.out _ c).0

push-IsClean : (s : State) (full : Deal) (k : Checked) → IsClean (audit_push s full k) → k.out ≡ []
unfolding audit_push
push-IsClean s full k = by_flag s.picked_up
  where
    by_flag :
        (b : Bool)
        → IsClean (
            if b
            then push_checked (hand_of s.declarer k.hands) s full k
            else some (record k {
              out = k.out ++ bad_if (not (length (or_empty full.pushed) == 0)) s.declarer hand_why;
            }))
        → k.out ≡ []
    by_flag true d = push_checked-IsClean (hand_of s.declarer k.hands) s full k d
    by_flag false d = (append-left k.out _ d).0

IsClean-before :
    (o : Option Checked) (next : Checked → Option Checked)
    → ((k : Checked) → IsClean (next k) → k.out ≡ [])
    → IsClean (and_then o next)
    → IsClean o
IsClean-before none next f c = c
IsClean-before (some k) next f c = f k c

from-IsClean :
    (o : Option Checked) (g : Game) (ts : List (List Play)) → HonestFrom o g ts → IsClean o
from-IsClean none g ts h = h
from-IsClean (some k) g ts h = h.0

deck-contains : (s : Suit) (r : Rank) → contains deck (card s r) ≡ true
unfolding deck
deck-contains clubs r = ground arith
deck-contains spades r = ground arith
deck-contains hearts r = ground arith
deck-contains diamonds r = ground arith

-- Different cards with the size of the deck leave out no card: one more would be too many.
no_card-missing :
    (cards : List Card) (c : Card)
    → length cards ≡ 32
    → distinct cards ≡ true
    → contains cards c ≡ true
unfolding deck
no_card-missing cards c size once = elim (Bool-cases (contains cards c)) [
  | inl found ↦ found
  | inr missing ↦
      let more : distinct (c ∷ cards) ≡ true = ground arith in
      let fits : length (c ∷ cards) ≤ length deck =
        length-distinct_le (c ∷ cards) deck more (λ d h. deck-contains d.suit d.rank) in
      absurd (omega (arith, fits, size))
]

-- The cards are the whole deck: 32 different cards, and every card is among them.
abbrev pub IsDeck : List Card → Type 0
IsDeck cards =
    (length cards ≡ 32) × (distinct cards ≡ true) × ((c : Card) → contains cards c ≡ true)

no_deck-IsDeck : (cards : List Card) → no_deck cards ≡ false → IsDeck cards
no_deck-IsDeck cards e =
    let size : length cards ≡ 32 = ground arith in
    let differ : set_size cards ≡ 32 = ground arith in
    let once = set_size-distinct cards (differ ∙ sym size) in
    (size, once, λ c. no_card-missing cards c size once)

hands-IsDeck :
    (s : State) (full : Deal)
    → IsClean (audit_hands s full)
    → IsDeck (joined full.hands ++ or_empty full.skat)
unfolding audit_hands audit_deck audit_open
hands-IsDeck s full c =
    let after_push =
      IsClean-before (audit_push s full (audit_deck full)) (audit_open s)
        (λ k. open-IsClean s.open_hand s k) c in
    no_deck-IsDeck (joined full.hands ++ or_empty full.skat) (
      bad_if-right (no_deck (joined full.hands ++ or_empty full.skat)) none deck_why
        (push-IsClean s full (audit_deck full) after_push))

-- An audit of a game that was played, and that finds nothing, has seen the whole deck, if what is shown
-- are cards: the hands and the skat are 32 different cards, and no card of the game is missing.
pub audit-IsDeck :
    (s : State) (full : Deal) (c : Contract)
    → s.passed_out ≡ false
    → s.contract ≡ some c
    → audit s full ≡ some []
    → IsDeck (joined full.hands ++ or_empty full.skat)
audit-IsDeck s full c p e clean =
    hands-IsDeck s full (
      from-IsClean (audit_hands s full) c.game (all_tricks s) ((audit-Honest s full c p e).0 clean))
