-- ===== src/Bauernskat/Layout.antt =====
-- The places of a deal of Bauernskat (apps/duell-web/src/bauernskat.js: layout).
use cads_agent_marketplace.Common.{
  List, [], distinct, list_eq, nat_eq, refl, suc, true, zero, ℕ, ◌++◌, ◌+◌, ◌∷◌, ◌≡◌,
}
use cads_agent_marketplace.Bauernskat.State.{rule_eq}

-- A stack: the position of the card on top, and of the card under it.
pub record Place : Type 0 where
  pub up : ℕ
  pub down : ℕ

pub record Layout : Type 0 where
  pub hands : List (List ℕ)
  pub stacks : List (List Place)

-- `n` stacks of a seat, from the stack `j` on; its cards begin at `b`.
abbrev pub places : ℕ → ℕ → ℕ → List Place
places b j zero = []
places b j (suc n) = record { up = b + j; down = b + 8 + j } ∷ places b (j + 1) n

unfoldable pub layout : Layout
layout = record { hands = [] ∷ [] ∷ []; stacks = places 0 0 8 ∷ places 16 0 8 ∷ [] }

abbrev both : List Place → List ℕ
both [] = []
both (x ∷ xs) = x.up ∷ x.down ∷ both xs

-- No position of the deck is the place of two cards.
no_gap : distinct (both (places 0 0 8) ++ both (places 16 0 8)) ≡ true
no_gap = refl
