-- ===== src/Skat/Valid/Parts.antt =====
-- Skat: tricks in the order of the seats, tricks that follow one another, and how both grow.
use mathlib.Core.List.{append-nil, append_assoc}
use cads_agent_marketplace.Common.{
  List, [], arith, get_elem?, length, refl, some, suc, sym, zero, ℕ, ◌%◌, ◌++◌, ◌+◌, ◌<◌, ◌∙◌, ◌∷◌,
  ◌≡◌,
}
use cads_agent_marketplace.Skat.Apply.{play_cards, taken_cards}
use cads_agent_marketplace.Skat.Cards.{Game}
use cads_agent_marketplace.Skat.State.{Taken}
use cads_agent_marketplace.Skat.Strength.{Play, trick_winner}

-- The seats play in turn, beginning with `seat`.
abbrev pub InOrder : ℕ → List Play → Type 0
InOrder seat [] = Unit
InOrder seat (x ∷ xs) = (x.seat ≡ seat) × InOrder ((seat + 1) % 3) xs

-- A complete trick: three cards in the order of the seats, taken by whom the rules say.
pub record IsTaken (g : Game) (t : Taken) : Type 0 where
  pub full : length t.cards ≡ 3
  pub lead_seat : t.lead < 3
  pub order : InOrder t.lead t.cards
  pub won : trick_winner g t.cards ≡ some t.winner
  pub winner_seat : t.winner < 3

-- Whoever takes a trick leads to the next one.
abbrev pub Chain : ℕ → List Taken → ℕ → Type 0
Chain lead [] last = lead ≡ last
Chain lead (t ∷ ts) last = (t.lead ≡ lead) × Chain t.winner ts last

pub InOrder-snoc :
    (k : ℕ) (xs : List Play) (x : Play)
    → k < 3
    → InOrder k xs
    → x.seat ≡ (k + length xs) % 3
    → InOrder k (xs ++ x ∷ [])
InOrder-snoc k [] x b h e = (omega arith, tt)
InOrder-snoc k (y ∷ xs) x b h e =
    (h.0, InOrder-snoc ((k + 1) % 3) xs x (omega arith) h.1 (omega arith))

pub Chain-snoc :
    (k : ℕ) (ts : List Taken) (t : Taken) {l : ℕ}
    → Chain k ts l
    → t.lead ≡ l
    → Chain k (ts ++ t ∷ []) t.winner
Chain-snoc k [] t h e = (e ∙ sym h, refl)
Chain-snoc k (u ∷ ts) t h e = (h.0, Chain-snoc u.winner ts t h.1 e)

-- The seats of a trick are below three.
pub seat_bound :
    (k : ℕ) (xs : List Play) (i : ℕ) {x : Play}
    → k < 3
    → InOrder k xs
    → get_elem? xs i ≡ some x
    → x.seat < 3
seat_bound k [] i b h e = cc
seat_bound k (y ∷ xs) zero b h e = ground arith
seat_bound k (y ∷ xs) (suc i) b h e = seat_bound ((k + 1) % 3) xs i (omega arith) h.1 e

pub play_cards-append : (xs ys : List Play) → play_cards (xs ++ ys) ≡ play_cards xs ++ play_cards ys
play_cards-append [] ys = refl
play_cards-append (x ∷ xs) ys = rw (play_cards-append xs ys)

pub taken_cards-snoc :
    (ts : List Taken) (t : Taken)
    → taken_cards (ts ++ t ∷ []) ≡ taken_cards ts ++ play_cards t.cards
taken_cards-snoc [] t = append-nil _
taken_cards-snoc (u ∷ ts) t = simp (taken_cards-snoc ts t, append_assoc)
