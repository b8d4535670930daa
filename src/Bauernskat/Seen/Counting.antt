-- ===== src/Bauernskat/Seen/Counting.antt =====
-- Bauernskat: what a card that is laid adds to the tricks, and the stack that shows it.
use mathlib.Core.Option.{some-injective}
use mathlib.Core.Path.{subst}
use cads_agent_marketplace.Common.{
  Bool-cases, List, Option, [], ap, arith, false, get_elem?, if◌then◌else◌, inl, inr, nat_eq, none,
  refl, some, suc, true, ℕ, ◌++◌, ◌+◌, ◌==◌, ◌∷◌, ◌≡◌,
}
use cads_agent_marketplace.Bauernskat.Apply.{last_shown, shows}
use cads_agent_marketplace.Bauernskat.Once.{count, count-append}
use cads_agent_marketplace.Bauernskat.State.{Pile, rule_eq}
use cads_agent_marketplace.Skat.Apply.{play_cards, taken_cards}
use cads_agent_marketplace.Skat.Cards.{Card, card_beq_iff, card_eq, rank_eq, suit_eq}
use cads_agent_marketplace.Skat.State.{Taken}
use cads_agent_marketplace.Skat.Strength.{Play, led_eq}

pub snoc-count :
    (d : Card) (xs : List Play) (x : Play)
    → count d (play_cards (xs ++ x ∷ [])) ≡ count d (play_cards xs) + count d (x.card ∷ [])
snoc-count d [] x = omega arith
snoc-count d (y ∷ xs) x = ground (arith, snoc-count d xs x)

pub taken-count :
    (d : Card) (ts : List Taken) (t : Taken)
    → count d (taken_cards (ts ++ t ∷ [])) ≡ count d (taken_cards ts) + count d (play_cards t.cards)
taken-count d [] t = omega (arith, count-append d (play_cards t.cards) [])
taken-count d (u ∷ ts) t = omega (
  arith,
  count-append d (play_cards u.cards) (taken_cards (ts ++ t ∷ [])),
  count-append d (play_cards u.cards) (taken_cards ts),
  taken-count d ts t,
)

top_is :
    (c : Card) (o : Option Card) → elim o [ none ↦ false | some d ↦ d == c ] ≡ true → o ≡ some c
top_is c none e = cc
top_is c (some d) e = ap some ((card_beq_iff d c).0 e)

pub last_shown-top :
    (c : Card) (row : List Pile) (i : ℕ)
    → last_shown c row ≡ some i
    → (x : Pile) × (get_elem? row i ≡ some x) × (x.top ≡ some c)
last_shown-top c [] i e = cc
last_shown-top c (x ∷ xs) i e = found_in (last_shown c xs) (λ j. last_shown-top c xs j) e
  where
    found_in :
        (o : Option ℕ)
        → ((j : ℕ) → o ≡ some j → (y : Pile) × (get_elem? xs j ≡ some y) × (y.top ≡ some c))
        → elim o as (λ q. Option ℕ) [
          | some j ↦ some (suc j)
          | none ↦ if shows c x then some 0 else none
        ]
          ≡ some i
        → (y : Pile) × (get_elem? (x ∷ xs) i ≡ some y) × (y.top ≡ some c)
    found_in (some j) ih e' =
        let (y, at, top) = ih j refl in
        let q : suc j ≡ i = some-injective (suc j) i e' in
        (y, subst (λ k. get_elem? (x ∷ xs) k ≡ some y) q at, top)
    found_in none ih e' = elim (Bool-cases (shows c x)) [
      | inl here ↦
          let q : 0 ≡ i =
            some-injective 0 i (subst (λ b. (if b then some 0 else none) ≡ some i) here e') in
          (x, subst (λ k. get_elem? (x ∷ xs) k ≡ some x) q refl, top_is c x.top here)
      | inr elsewhere ↦
          let q : none ≡ some i = subst (λ b. (if b then some 0 else none) ≡ some i) elsewhere e' in
          cc q
    ]
