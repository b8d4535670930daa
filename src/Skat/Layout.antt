-- ===== src/Skat/Layout.antt =====
-- The places of a deal: who gets which positions of the shuffled deck (layout of apps/duell-web/src/skat.js,
-- and of bauernskat.js and doko.js beside it).
use cads_agent_marketplace.Common.{
  List, [], ap, arith, length, refl, suc, zero, ℕ, ◌*◌, ◌++◌, ◌+◌, ◌∙◌, ◌∷◌, ◌≡◌,
}

-- `n` positions from `p` on.
abbrev pub positions : ℕ → ℕ → List ℕ
positions p zero = []
positions p (suc n) = p ∷ positions (p + 1) n

abbrev pub hands_from : ℕ → ℕ → ℕ → List (List ℕ)
hands_from size p zero = []
hands_from size p (suc n) = positions p size ∷ hands_from size (p + size) n

-- The hands of the seats, and the skat.
pub record Layout : Type 0 where
  pub hands : List (List ℕ)
  pub skat : List ℕ

unfoldable pub layout : Layout
layout = record { hands = hands_from 10 0 3; skat = 30 ∷ 31 ∷ [] }

abbrev pub all_of : List (List ℕ) → List ℕ
all_of [] = []
all_of (h ∷ hs) = h ++ all_of hs

length-positions : (p n : ℕ) → length (positions p n) ≡ n
length-positions p zero = refl
length-positions p (suc n) = ap suc (length-positions (p + 1) n)

positions-append : (p m n : ℕ) → positions p m ++ positions (p + m) n ≡ positions p (m + n)
positions-append p zero n =
    let e : p + 0 ≡ p = omega arith in let f : n ≡ 0 + n = omega arith in λ i. positions (e i) (f i)
positions-append p (suc m) n =
    let e : p + suc m ≡ p + 1 + m = omega arith in
    let f : suc (m + n) ≡ suc m + n = omega arith in
    (λ i. p ∷ (positions (p + 1) m ++ positions (e i) n))
    ∙ ap (λ (r : List ℕ). p ∷ r) (positions-append (p + 1) m n)
    ∙ ap (positions p) f

-- Hands of one size follow one another without a gap.
pub hands_from-positions : (size p n : ℕ) → all_of (hands_from size p n) ≡ positions p (n * size)
hands_from-positions size p zero = let e : 0 ≡ 0 * size = omega arith in ap (positions p) e
hands_from-positions size p (suc n) =
    let e : size + n * size ≡ suc n * size = omega arith in
    ap (λ (r : List ℕ). positions p size ++ r) (hands_from-positions size (p + size) n)
    ∙ positions-append p size (n * size)
    ∙ ap (positions p) e
