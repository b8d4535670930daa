-- ===== src/Bauernskat/Once.antt =====
-- Bauernskat: how often a card is seen (apps/duell-web/src/bauernskat.js: visible, played).
use mathlib.Core.Option.{some-injective}
use mathlib.Core.Path.{subst}
use cads_agent_marketplace.Common.{
  List, [], ap, arith, contains, false, get_elem?, if◌then◌else◌, nat_eq, refl, set, some, suc, sym,
  zero, ℕ, ◌++◌, ◌+◌, ◌<◌, ◌==◌, ◌∷◌, ◌≡◌, ◌≤◌,
}
use cads_agent_marketplace.Bauernskat.Apply.{Outcome, fail, ok, thrown}
use cads_agent_marketplace.Bauernskat.State.{
  Pile, State, if_some, or_no_row, played, row_tops, rule_eq, tops, visible,
}
use cads_agent_marketplace.Skat.Cards.{Card, card_eq, rank_eq, suit_eq}
use cads_agent_marketplace.Skat.Strength.{led_eq}

abbrev pub count : Card → List Card → ℕ
count d [] = 0
count d (c ∷ cs) = if c == d then suc (count d cs) else count d cs

pub count-append : (d : Card) (cs ds : List Card) → count d (cs ++ ds) ≡ count d cs + count d ds
count-append d [] ds = omega arith
count-append d (c ∷ cs) ds = ground (arith, count-append d cs ds)

-- How often a card shows on the stacks of the two seats.
abbrev pub shown : Card → List (List Pile) → ℕ
shown d rows =
    count d (row_tops (or_no_row (get_elem? rows 0)))
    + count d (row_tops (or_no_row (get_elem? rows 1)))

abbrev pub top_count : Card → Pile → ℕ
top_count d x = count d (if_some x.top)

row_tops-set :
    (d : Card) (row : List Pile) (i : ℕ) (x y : Pile)
    → get_elem? row i ≡ some x
    → count d (row_tops (set row i y)) + top_count d x ≡ count d (row_tops row) + top_count d y
row_tops-set d [] i x y e = cc
row_tops-set d (z ∷ row) zero x y e =
    let same : z ≡ x = some-injective z x e in
    omega (
      arith,
      count-append d (if_some y.top) (row_tops row),
      count-append d (if_some z.top) (row_tops row),
      ap (λ q. top_count d q) same,
    )
row_tops-set d (z ∷ row) (suc i) x y e = omega (
  arith,
  count-append d (if_some z.top) (row_tops (set row i y)),
  count-append d (if_some z.top) (row_tops row),
  row_tops-set d row i x y e,
)

pub shown-set :
    (d : Card) (rows : List (List Pile)) (seat i : ℕ) (x y : Pile)
    → seat < 2
    → get_elem? (or_no_row (get_elem? rows seat)) i ≡ some x
    → shown d (set rows seat (set (or_no_row (get_elem? rows seat)) i y)) + top_count d x
      ≡ shown d rows + top_count d y
shown-set d [] seat i x y h e = cc
shown-set d (row ∷ rows) zero i x y h e = omega (arith, row_tops-set d row i x y e)
shown-set d (row ∷ []) (suc zero) i x y h e = cc
shown-set d (row ∷ next ∷ rows) (suc zero) i x y h e = omega (arith, row_tops-set d next i x y e)
shown-set d (row ∷ rows) (suc (suc seat)) i x y h e = absurd (omega arith)

-- No card is seen twice, neither on the stacks nor among the cards that were played.
abbrev pub IsOnce : State → Type 0
IsOnce s = (d : Card) → count d (visible s) + count d (played s) ≤ 1

abbrev pub OutcomeOnce : Outcome → Type 0
OutcomeOnce (ok t) = IsOnce t
OutcomeOnce (fail e) = Unit
OutcomeOnce thrown = Unit

pub visible-shown : (d : Card) (s : State) → count d (visible s) ≡ shown d s.stacks
unfolding visible
visible-shown d s = count-append d (tops s 0) (tops s 1)

pub not_seen : (d : Card) (cs : List Card) → contains cs d ≡ false → count d cs ≡ 0
not_seen d [] h = refl
not_seen d (c ∷ cs) h = ground (arith, not_seen d cs)

pub of_shown-IsOnce :
    (s : State) → ((d : Card) → shown d s.stacks + count d (played s) ≤ 1) → IsOnce s
of_shown-IsOnce s h d = subst (λ n. n + count d (played s) ≤ 1) (sym (visible-shown d s)) (h d)
