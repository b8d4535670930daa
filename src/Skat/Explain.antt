-- ===== src/Skat/Explain.antt =====
-- Skat: the explanation of a trick (apps/duell-web/src/skat.js: explain).
use mathlib.Core.Path.{subst}
use cads_agent_marketplace.Common.{
  Bool, Bool-cases, List, Option, [], arith, false, get_elem?, if◌then◌else◌, inl, inr, nat_eq,
  none, not, refl, some, sym, true, ℕ, ◌&&◌, ◌==◌, ◌↔◌, ◌∷◌, ◌≡◌,
}
use cads_agent_marketplace.Skat.Cards.{Card, Game, card_eq, rank_eq, suit_eq}
use cads_agent_marketplace.Skat.Invariant.Table.{best_from-lt, get_elem?-some}
use cads_agent_marketplace.Skat.State.{rule_eq}
use cads_agent_marketplace.Skat.Strength.{
  Led, Play, best_from, best_index, is_trump, led_eq, suit_of, trick_winner, trump, trump_order,
}
use cads_agent_marketplace.Skat.Winner.{seat_at-some}

pub data How : Type 0 where
  lead_card follow_card trump_card off_card : How

pub record Answer : Type 0 where
  pub seat : ℕ
  pub card : Card
  pub how : How

-- `by_trump` is the reason "trump", and its opposite the reason "high".
pub record Explained : Type 0 where
  pub led : Led
  pub win : ℕ
  pub seat : ℕ
  pub card : Card
  pub with_trump : Bool
  pub plays : List Answer
  pub order : List Card

abbrev pub how_in : Game → Led → Card → How
how_in g led c =
    if suit_of g c == led then follow_card else if is_trump g c then trump_card else off_card

abbrev pub answers : Game → Led → List Play → List Answer
answers g led [] = []
answers g led (x ∷ xs) =
    record { seat = x.seat; card = x.card; how = how_in g led x.card } ∷ answers g led xs

abbrev pub explained : Game → Led → ℕ → List Answer → Option Play → Option Explained
explained g led i plays none = none
explained g led i plays (some w) = some (record {
  led = led;
  win = i;
  seat = w.seat;
  card = w.card;
  with_trump = not (led == trump) && is_trump g w.card;
  plays = plays;
  order = trump_order g;
})

-- `explain`: there is nothing to explain without cards.
unfoldable pub explain : Game → List Play → Option Explained
unfolding best_from suit_of
explain g [] = none
explain g (x ∷ xs) =
    let led = suit_of g x.card in
    let i = best_from g led x 0 1 xs in
    explained g led i (record { seat = x.seat; card = x.card; how = lead_card } ∷ answers g led xs)
      (get_elem? (x ∷ xs) i)

trump_taken :
    (g : Game) (first taken : Card)
    → ((not (suit_of g first == trump) && is_trump g taken) ≡ true)
      ↔ ((is_trump g taken ≡ true) × (is_trump g first ≡ false))
unfolding suit_of
trump_taken g first taken = elim (Bool-cases (is_trump g first)) [
  | inl high ↦ rw high (ground arith)
  | inr low ↦ rw low (ground arith)
]

-- A trick that is not empty is explained. The explanation names the card that takes the trick, and that
-- card's seat is the winner; and it says that the card is a trump exactly where a trump takes a trick
-- that was led in a plain suit.
pub explain-trick_winner :
    (g : Game) (x : Play) (xs : List Play)
    → (r : Explained) × (explain g (x ∷ xs) ≡ some r)
      × (trick_winner g (x ∷ xs) ≡ some r.seat)
      × (get_elem? (x ∷ xs) r.win ≡ some (record { seat = r.seat; card = r.card }))
      × ((r.with_trump ≡ true) ↔ ((is_trump g r.card ≡ true) × (is_trump g x.card ≡ false)))
unfolding explain trick_winner best_index suit_of
explain-trick_winner g x xs =
    let led = suit_of g x.card in
    let r = best_from g led x 0 1 xs in
    let plays = record { seat = x.seat; card = x.card; how = lead_card } ∷ answers g led xs in
    let (w, at) =
      get_elem?-some (x ∷ xs) r (omega (arith, best_from-lt g led x 0 1 xs (omega arith))) in
    (
      _,
      subst (λ o. explained g led r plays o ≡ explained g led r plays (some w)) (sym at) refl,
      seat_at-some (x ∷ xs) r at,
      at,
      trump_taken g x.card w.card,
    )
