-- ===== src/Skat/Legal/Hand.antt =====
-- Skat: the hand of a seat, and the cards that may be laid from it or laid open.
-- The hand of a seat that has not been played yet, and that fits an open hand.
use cads_agent_marketplace.Common.{
  &&-left, Bool-cases, List, Option, [], all, all-at, any-same, ap, arith, contains, distinct,
  distinct-set_size, false, filter, inl, inr, length, length-append, length-map, ltb, map, nat_eq,
  none, not, refl, set_size, some, true, ℕ, ◌%◌, ◌++◌, ◌+◌, ◌<◌, ◌==◌, ◌∙◌, ◌∷◌, ◌≡◌,
}
use cads_agent_marketplace.Skat.Apply.{all_cards, breaks_in, lay, played, shown, table_cards}
use cads_agent_marketplace.Skat.Cards.{Card, Game, card_eq, deck, rank_eq, suit_eq}
use cads_agent_marketplace.Skat.Invariant.Table.{trick_winner-seat}
use cads_agent_marketplace.Skat.Legal.Offers.{IsOk}
use cads_agent_marketplace.Skat.State.{State, Trick, is_seat, rule_eq, seats, showing}
use cads_agent_marketplace.Skat.Strength.{Play, led_eq, may_play, suit_of}
use cads_agent_marketplace.Skat.Valid.Parts.{InOrder, InOrder-snoc}

pub record Holds (s : State) (seat : ℕ) (hand : List Card) : Type 0 where
  pub known : all (contains deck) hand ≡ true
  pub unplayed : all (λ c. not (contains (played s) c)) hand ≡ true
  pub ten : s.phase ≡ showing → (length hand ≡ 10) × (distinct hand ≡ true)
  pub own_open :
      (o : List Card)
      → s.open_hand ≡ some o
      → is_seat s.declarer seat ≡ true
      → (c : Card) → contains (filter (λ x. not (contains (played s) x)) o) c ≡ contains hand c
  pub other_open :
      (o : List Card)
      → s.open_hand ≡ some o
      → is_seat s.declarer seat ≡ false
      → all (λ c. not (contains (filter (λ x. not (contains (played s) x)) o) c)) hand ≡ true

may_play-same :
    (g : Game) (xs ys : List Card) (c : Card) (table : List Play)
    → ((a : Card) → contains xs a ≡ contains ys a)
    → may_play g xs c table ≡ may_play g ys c table
unfolding may_play
may_play-same g xs ys c [] h = h c
may_play-same g xs ys c (x ∷ table) h =
    rw (h c, any-same (λ d. suit_of g d == suit_of g x.card) xs ys h)

pub may_play-contains :
    (g : Game) (hand : List Card) (c : Card) (table : List Play)
    → may_play g hand c table ≡ true
    → contains hand c ≡ true
unfolding may_play
may_play-contains g hand c [] h = h
may_play-contains g hand c (x ∷ table) h = &&-left _ _ h

pub lay-IsOk :
    (s : State) (g : Game) (t : Trick) (seat : ℕ) (c : Card)
    → t.lead < 3
    → InOrder t.lead t.cards
    → seat ≡ (t.lead + length t.cards) % 3
    → IsOk (lay s g t seat c)
unfolding lay
lay-IsOk s g t seat c b o e =
    let x : Play = record { seat = seat; card = c } in
    let laid = t.cards ++ x ∷ [] in
    elim (Bool-cases (ltb (length laid) seats)) [
      | inl few ↦ rw few tt
      | inr full ↦
          let (w, won, in_range) =
            trick_winner-seat g t.lead laid b (InOrder-snoc t.lead t.cards x b o e)
              (omega (arith, length-append t.cards (x ∷ []))) in
          rw (full, won) tt
    ]

pub open_kept :
    (o : Option (List Card)) (s : State) (g : Game) (seat : ℕ) (hand : List Card) (d : Card)
    → s.open_hand ≡ o
    → Holds s seat hand
    → may_play g hand d (table_cards s.trick) ≡ true
    → breaks_in o s g seat d ≡ false
open_kept none s g seat hand d e h m = refl
open_kept (some o) s g seat hand d e h m = elim (Bool-cases (is_seat s.declarer seat)) [
  | inl own ↦
      rw own (ap not (may_play-same g _ hand d (table_cards s.trick) (h.own_open o e own) ∙ m))
  | inr other ↦ rw other (
      ground (
        arith,
        all-at (λ c. not (contains (filter (λ x. not (contains (played s) x)) o) c)) hand d
            (h.other_open o e other) (may_play-contains g hand d (table_cards s.trick) m),
      ))
]

-- A hand of ten different cards passes the test of an open hand.
all_cards-some : (cs : List Card) → all_cards (map some cs) ≡ some cs
all_cards-some [] = refl
all_cards-some (c ∷ cs) = rw (all_cards-some cs)

pub shown-hand :
    (cs : List Card)
    → length cs ≡ 10
    → distinct cs ≡ true
    → all (contains deck) cs ≡ true
    → shown (some (map some cs)) ≡ some cs
unfolding shown
shown-hand cs n d k =
    let ten : length (map some cs) ≡ 10 = length-map cs some ∙ n in
    let enough : set_size cs ≡ 10 = distinct-set_size cs d ∙ n in
    rw (ten, all_cards-some cs) (rw (k, enough))
