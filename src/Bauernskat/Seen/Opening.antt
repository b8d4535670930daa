-- ===== src/Bauernskat/Seen/Opening.antt =====
-- Bauernskat: a card that is opened (apps/duell-web/src/bauernskat.js: turnUp).
use mathlib.Core.Path.{subst}
use cads_agent_marketplace.Common.{
  Bool-cases, Option, [], any, ap, arith, false, get_elem?, if◌then◌else◌, inl, inr, nat_eq, none,
  refl, some, true, ◌+◌, ◌<◌, ◌==◌, ◌∷◌, ◌≡◌, ◌≤◌,
}
use cads_agent_marketplace.Bauernskat.Apply.{
  all_show, is_new, remove_spot, same_spot, set_pile, turn_card, turn_dealt, turn_flipped,
  turn_in_phase,
}
use cads_agent_marketplace.Bauernskat.Once.{
  IsOnce, OutcomeOnce, count, not_seen, of_shown-IsOnce, shown, shown-set, top_count, visible-shown,
}
use cads_agent_marketplace.Bauernskat.State.{
  Phase, Pile, Spot, State, dealing, declaring, if_some, is_bare, over, played, playing, row_of,
  rule_eq, visible,
}
use cads_agent_marketplace.Skat.Cards.{Card, card_beq_iff, card_eq, rank_eq, suit_eq}
use cads_agent_marketplace.Skat.Strength.{led_eq}

-- A card that is new shows on a stack.
open-IsOnce :
    (s : State) (f : Spot) (x y : Pile) (c d : Card)
    → f.seat < 2
    → get_elem? (row_of s f.seat) f.i ≡ some x
    → is_new s c ≡ true
    → y.top ≡ some c
    → IsOnce s
    → shown d (set_pile s f y) + count d (played s) ≤ 1
open-IsOnce s f x y c d h e new top once =
    let moved = shown-set d s.stacks f.seat f.i x y h e in
    let seen = visible-shown d s in
    let adds : top_count d y ≡ count d (c ∷ []) = ap (λ o. count d (if_some o)) top in
    elim (Bool-cases (c == d)) [
      | inl same ↦
          let q : c ≡ d = (card_beq_iff c d).0 same in
          let hidden : count d (visible s) ≡ 0 =
            subst (λ k. count k (visible s) ≡ 0) q (not_seen c (visible s) (ground arith)) in
          let unplayed : count d (played s) ≡ 0 =
            subst (λ k. count k (played s) ≡ 0) q (not_seen c (played s) (ground arith)) in
          let single : count d (c ∷ []) ≡ 1 = rw same refl in
          omega (arith, moved, seen, adds, hidden, unplayed, single)
      | inr other ↦
          let nothing : count d (c ∷ []) ≡ 0 = rw other refl in
          omega (arith, moved, seen, adds, nothing, once d)
    ]

module _ (s : State) (f : Spot) (x : Pile) (c : Card) (h : f.seat < 2)
    (e : get_elem? (row_of s f.seat) f.i ≡ some x) (new : is_new s c ≡ true) (once : IsOnce s) where
  dealt-IsOnce : OutcomeOnce (turn_dealt s f x c)
  unfolding played
  dealt-IsOnce = elim (Bool-cases (is_bare x)) [
    | inl bare ↦
        let y = record x { top = some c } in
        let t = record s {
          stacks = set_pile s f y;
          phase = if all_show (set_pile s f y) then declaring else dealing;
        } in
        rw bare (of_shown-IsOnce t (λ d. open-IsOnce s f x y c d h e new refl once))
    | inr shows_one ↦ rw shows_one tt
  ]

  flipped-IsOnce : OutcomeOnce (turn_flipped s f c)
  unfolding played
  flipped-IsOnce = elim (Bool-cases (any (same_spot f) s.flip)) [
    | inl due ↦
        let y : Pile = record { top = some c; under = false } in
        let t = record s { flip = remove_spot f s.flip; stacks = set_pile s f y } in
        rw due (of_shown-IsOnce t (λ d. open-IsOnce s f x y c d h e new refl once))
    | inr early ↦ rw early tt
  ]

  turned-IsOnce : (p : Phase) → OutcomeOnce (turn_in_phase p s f x c)
  turned-IsOnce dealing = dealt-IsOnce
  turned-IsOnce playing = flipped-IsOnce
  turned-IsOnce declaring = tt
  turned-IsOnce over = tt

pub turn_card-IsOnce :
    (s : State) (f : Spot) (o : Option Pile) (c : Option Card)
    → f.seat < 2
    → get_elem? (row_of s f.seat) f.i ≡ o
    → IsOnce s
    → OutcomeOnce (turn_card s f o c)
turn_card-IsOnce s f none c h e once = tt
turn_card-IsOnce s f (some x) none h e once = tt
turn_card-IsOnce s f (some x) (some c) h e once = elim (Bool-cases (is_new s c)) [
  | inl new ↦ rw new (turned-IsOnce s f x c h e new once s.phase)
  | inr old ↦ rw old tt
]
