-- ===== src/Skat/Winner.antt =====
-- Skat: who takes a trick (apps/duell-web/src/skat.js: bestIndex, trickWinner) by the rules.
pub mod Rules
use mathlib.Core.Path.{subst}
use cads_agent_marketplace.Common.{
  All, Bool-cases, List, [], ap, arith, false, get_elem?, inl, inr, refl, some, suc, sym, true, ℕ,
  ◌-◌, ◌∙◌, ◌∷◌, ◌≡◌, ◌≤◌, ◌⊎◌,
}
use cads_agent_marketplace.Common.Int.{ltb_ℤ, pos, ◌≤ℤ◌}
use cads_agent_marketplace.Skat.Cards.{Card, Game, card}
use cads_agent_marketplace.Skat.Strength.{
  Led, Play, best_from, power, seat_at, suit_of, trick_winner,
}
use cads_agent_marketplace.Skat.Winner.Rules.{Beats, lead_counts, power-Beats, power-injective}

pub seat_at-some :
    (xs : List Play) (i : ℕ) {y : Play}
    → get_elem? xs i ≡ some y
    → seat_at xs (some i) ≡ some y.seat
seat_at-some xs i e = rw (e, seat_at)

-- What the loop has chosen: the card at place `r`, which no card seen from `i` on outdoes.
record IsBest (g : Game) (led : Led) (top : Play) (best i : ℕ) (xs : List Play) (r : ℕ)
    : Type 0 where
  chosen : Play
  placed : ((r ≡ best) × (chosen ≡ top)) ⊎ ((i ≤ r) × (get_elem? xs (r - i) ≡ some chosen))
  above_top : power g top.card led ≤ℤ power g chosen.card led
  above_all : All (λ x. power g x.card led ≤ℤ power g chosen.card led) xs

get-here : (x : Play) (xs : List Play) (r i : ℕ) → r ≡ i → get_elem? (x ∷ xs) (r - i) ≡ some x
get-here x xs r i e = let z : r - i ≡ 0 = omega arith in rw z

get-shift :
    (x : Play) (xs : List Play) (r i : ℕ) {y : Play}
    → suc i ≤ r
    → get_elem? xs (r - suc i) ≡ some y
    → get_elem? (x ∷ xs) (r - i) ≡ some y
get-shift x xs r i h e = let z : r - i ≡ suc (r - suc i) = omega arith in rw z e

best_from-IsBest :
    (g : Game) (led : Led) (top : Play) (best i : ℕ) (xs : List Play)
    → IsBest g led top best i xs (best_from g led top best i xs)
unfolding best_from
best_from-IsBest g led top best i [] = record {
  chosen = top;
  placed = inl (refl, refl);
  above_top = omega arith;
  above_all = tt;
}
best_from-IsBest g led top best i (x ∷ xs) =
    elim (Bool-cases (ltb_ℤ (power g top.card led) (power g x.card led))) [
      | inl wins ↦ rw wins (took wins (best_from-IsBest g led x i (suc i) xs))
      | inr loses ↦ rw loses (kept loses (best_from-IsBest g led top best (suc i) xs))
    ]
  where
    took :
        {r : ℕ}
        → ltb_ℤ (power g top.card led) (power g x.card led) ≡ true
        → IsBest g led x i (suc i) xs r
        → IsBest g led top best i (x ∷ xs) r
    took {r} wins q = record {
      chosen = q.chosen;
      placed = elim q.placed [
        | inl (at, same) ↦ inr (omega arith, get-here x xs r i at ∙ ap some (sym same))
        | inr (later, at) ↦ inr (omega arith, get-shift x xs r i later at)
      ];
      above_top = ground (arith, q.above_top);
      above_all = (q.above_top, q.above_all);
    }

    kept :
        {r : ℕ}
        → ltb_ℤ (power g top.card led) (power g x.card led) ≡ false
        → IsBest g led top best (suc i) xs r
        → IsBest g led top best i (x ∷ xs) r
    kept {r} loses q = record {
      chosen = q.chosen;
      placed = elim q.placed [
        | inl found ↦ inl found
        | inr (later, at) ↦ inr (omega arith, get-shift x xs r i later at)
      ];
      above_top = q.above_top;
      above_all = (ground (arith, q.above_top), q.above_all);
    }

-- Every card of a trick is the winner's or beaten by it.
abbrev pub Beaten : Game → Led → Card → List Play → Type 0
Beaten g led w = All (λ x. (x.card ≡ w) ⊎ Beats g led w x.card)

All-Beaten :
    (g : Game) (led : Led) (w : Card) (xs : List Play)
    → pos 0 ≤ℤ power g w led
    → All (λ x. power g x.card led ≤ℤ power g w led) xs
    → Beaten g led w xs
All-Beaten g led w [] h a = tt
All-Beaten g led w (x ∷ xs) h a = (
  elim (Bool-cases (ltb_ℤ (power g x.card led) (power g w led))) [
    | inl less ↦ inr (power-Beats g led w x.card less)
    | inr same ↦ inl (sym (power-injective g led w x.card h (ground (arith, a.0))))
  ],
  All-Beaten g led w xs h a.1,
)

-- The trick goes to the seat of one of its cards, and that card beats every other card of the trick
-- by the rules, whatever was led.
pub trick_winner-Beats :
    (g : Game) (first : Play) (rest : List Play)
    → (i : ℕ) × (w : Play) × (get_elem? (first ∷ rest) i ≡ some w)
      × (trick_winner g (first ∷ rest) ≡ some w.seat)
      × Beaten g (suit_of g first.card) w.card (first ∷ rest)
unfolding trick_winner
trick_winner-Beats g first rest =
    let led = suit_of g first.card in
    let r = best_from g led first 0 1 rest in
    let q = best_from-IsBest g led first 0 1 rest in
    let whole : r - 0 ≡ r = omega arith in
    let at : get_elem? (first ∷ rest) r ≡ some q.chosen =
      subst (λ k. get_elem? (first ∷ rest) k ≡ some q.chosen) whole
        (elim q.placed [
          | inl (here, same) ↦ get-here first rest r 0 here ∙ ap some (sym same)
          | inr (later, there) ↦ get-shift first rest r 0 later there
        ]) in
    (
      r,
      q.chosen,
      at,
      seat_at-some (first ∷ rest) r at,
      All-Beaten g led q.chosen.card (first ∷ rest)
          (omega (arith, lead_counts g first.card, q.above_top)) (q.above_top, q.above_all),
    )
