-- ===== src/Skat/Invariant/Table.antt =====
-- Skat: an empty table, and a card laid on it.
use mathlib.Core.Path.{subst}
use cads_agent_marketplace.Common.{
  All-of_nil, Bool-cases, List, [], ap, arith, distinct, get_elem?, inl, inr, length, nat_eq, refl,
  some, suc, sym, zero, ℕ, ◌+◌, ◌<◌, ◌∙◌, ◌∷◌, ◌≡◌,
}
use cads_agent_marketplace.Common.Int.{ltb_ℤ}
use cads_agent_marketplace.Skat.Apply.{played, table_cards}
use cads_agent_marketplace.Skat.Cards.{Game, card_eq, rank_eq, suit_eq}
use cads_agent_marketplace.Skat.State.{Contract, State, forehand, rule_eq}
use cads_agent_marketplace.Skat.Strength.{
  Led, Play, best_from, led_eq, power, suit_of, trick_winner,
}
use cads_agent_marketplace.Skat.Valid.{IsTable}
use cads_agent_marketplace.Skat.Valid.Parts.{Chain, InOrder, seat_bound}
use cads_agent_marketplace.Skat.Winner.{seat_at-some}

played-nil : (s : State) → s.tricks ≡ [] → table_cards s.trick ≡ [] → played s ≡ []
unfolding played
played-nil s e f = rw (e, f)

-- Forehand leads to the first trick of a game with contract `c`.
pub opening-IsTable :
    (s : State) (c : Contract)
    → s.dealer < 3
    → s.tricks ≡ []
    → s.contract ≡ some c
    → s.trick ≡ some (record { lead = forehand s.dealer; cards = [] })
    → s.next ≡ some (forehand s.dealer)
    → IsTable s c (record { lead = forehand s.dealer; cards = [] })
opening-IsTable s c b none_yet ec et en = record {
  contract_eq = ec;
  trick_eq = et;
  next_eq = rw en (ap some (omega arith));
  few = omega arith;
  lead_seat = omega arith;
  order = tt;
  taken = All-of_nil _ s.tricks none_yet;
  chain = subst (λ ts. Chain (forehand s.dealer) ts (forehand s.dealer)) (sym none_yet) refl;
  unfinished = ground (arith, ap length none_yet);
  fresh = ap distinct (played-nil s none_yet (ap table_cards et)) ∙ refl;
}

-- The winner's place lies within the trick.
pub best_from-lt :
    (g : Game) (led : Led) (top : Play) (best i : ℕ) (xs : List Play)
    → best < i
    → best_from g led top best i xs < i + length xs
unfolding best_from
best_from-lt g led top best i [] h = omega arith
best_from-lt g led top best i (x ∷ xs) h =
    elim (Bool-cases (ltb_ℤ (power g top.card led) (power g x.card led))) [
      | inl wins ↦ ground (arith, best_from-lt g led x i (suc i) xs)
      | inr loses ↦ ground (arith, best_from-lt g led top best (suc i) xs)
    ]

pub get_elem?-some :
    (xs : List Play) (i : ℕ) → i < length xs → (x : Play) × (get_elem? xs i ≡ some x)
get_elem?-some [] i h = elim h [ ]
get_elem?-some (x ∷ xs) zero h = (x, refl)
get_elem?-some (x ∷ xs) (suc i) h = get_elem?-some xs i (omega arith)

-- A trick that has a card has a winner, and it is one of the seats that played.
pub trick_winner-seat :
    (g : Game) (k : ℕ) (xs : List Play)
    → k < 3
    → InOrder k xs
    → 0 < length xs
    → (w : ℕ) × (trick_winner g xs ≡ some w) × (w < 3)
unfolding trick_winner
trick_winner-seat g k [] b h p = elim p [ ]
trick_winner-seat g k (x ∷ xs) b h p =
    let i = best_from g (suit_of g x.card) x 0 1 xs in
    let (y, e) =
      get_elem?-some (x ∷ xs) i (ground (arith, best_from-lt g (suit_of g x.card) x 0 1 xs)) in
    (y.seat, seat_at-some (x ∷ xs) i e, seat_bound k (x ∷ xs) i b h e)
