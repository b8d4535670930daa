-- ===== src/Bauernskat/Seen/Laying.antt =====
-- Bauernskat: a card that is laid (apps/duell-web/src/bauernskat.js: play).
use mathlib.Core.Path.{subst}
use cads_agent_marketplace.Common.{
  Bool-cases, Option, [], ap, arith, contains, get_elem?, inl, inr, length, ltb, nat_eq, none, not,
  refl, some, sym, ℕ, ◌&&◌, ◌++◌, ◌+◌, ◌-◌, ◌<◌, ◌==◌, ◌||◌, ◌∷◌, ◌≡◌, ◌≤◌,
}
use cads_agent_marketplace.Bauernskat.Apply.{
  bared, close_trick, flips_in_rows, is_empty, last_shown, lay, lay_on, play_in, play_shown,
}
use cads_agent_marketplace.Bauernskat.Once.{
  IsOnce, OutcomeOnce, count, count-append, of_shown-IsOnce, shown, shown-set, top_count,
  visible-shown,
}
use cads_agent_marketplace.Bauernskat.Seen.Counting.{last_shown-top, snoc-count, taken-count}
use cads_agent_marketplace.Bauernskat.State.{
  Pile, Spot, State, if_some, over, played, row_of, rule_eq, tops, visible,
}
use cads_agent_marketplace.Skat.Apply.{play_cards, table_cards, taken_cards}
use cads_agent_marketplace.Skat.Cards.{Card, Game, card_eq, deck, is_null, rank_eq, suit_eq}
use cads_agent_marketplace.Skat.State.{Taken, Trick}
use cads_agent_marketplace.Skat.Strength.{Play, led_eq, may_play, trick_winner}

bared-shown :
    (s : State) (f : Spot) (x : Pile) (c d : Card)
    → f.seat < 2
    → get_elem? (row_of s f.seat) f.i ≡ some x
    → x.top ≡ some c
    → shown d (bared (get_elem? (row_of s f.seat) f.i) s f) + count d (c ∷ []) ≡ shown d s.stacks
bared-shown s f x c d h e top =
    let moved = shown-set d s.stacks f.seat f.i x (record x { top = none }) h e in
    let held : top_count d x ≡ count d (c ∷ []) = ap (λ o. count d (if_some o)) top in
    subst (λ o. shown d (bared o s f) + count d (c ∷ []) ≡ shown d s.stacks) (sym e)
      (omega (arith, moved, held))

close-IsOnce :
    (o : Option ℕ) (s : State) (g : Game) (t : Trick)
    → ((d : Card)
        → shown d s.stacks + (count d (taken_cards s.tricks) + count d (play_cards t.cards)) ≤ 1)
    → OutcomeOnce (close_trick o s g t)
unfolding played
close-IsOnce none s g t h = tt
close-IsOnce (some w) s g t h =
    let taken : Taken = record { lead = t.lead; cards = t.cards; winner = w } in
    let tricks = s.tricks ++ taken ∷ [] in
    let bound : (d : Card) → shown d s.stacks + count d (taken_cards tricks ++ []) ≤ 1 = λ d.
      omega (arith, h d, count-append d (taken_cards tricks) [], taken-count d s.tricks taken) in
    elim (Bool-cases (length tricks == 16 || (is_null g && w == s.declarer))) [
      | inl last ↦ rw last (
          of_shown-IsOnce (record s { tricks = tricks; phase = over; trick = none; next = none })
            bound)
      | inr more ↦ rw more (
          of_shown-IsOnce
            (record s {
              tricks = tricks;
              flip = s.flip ++ flips_in_rows 0 s.stacks;
              trick = some (record { lead = w; cards = [] });
              next = some w;
            })
            bound)
    ]

lay-IsOnce :
    (s : State) (g : Game) (t : Trick) (seat i : ℕ) (x : Pile) (c : Card)
    → seat < 2
    → s.trick ≡ some t
    → get_elem? (row_of s seat) i ≡ some x
    → x.top ≡ some c
    → IsOnce s
    → OutcomeOnce (lay s g t seat i c)
unfolding played
lay-IsOnce s g t seat i x c h on e top once =
    let spot : Spot = record { seat = seat; i = i } in
    let stacks = bared (get_elem? (row_of s seat) i) s spot in
    let laid : Play = record { seat = seat; card = c } in
    let cards = t.cards ++ laid ∷ [] in
    let t' = record t { cards = cards } in
    let s' = record s { stacks = stacks; trick = some t' } in
    let before : (d : Card)
        → count d (visible s) + count d (taken_cards s.tricks ++ play_cards t.cards) ≤ 1 =
      subst
        (λ o.
          (d : Card)
          → count d (visible s) + count d (taken_cards s.tricks ++ play_cards (table_cards o)) ≤ 1)
        on once in
    let bound : (d : Card)
        → shown d stacks + (count d (taken_cards s.tricks) + count d (play_cards cards)) ≤ 1 =
      λ d. omega (
        arith,
        before d,
        visible-shown d s,
        bared-shown s spot x c d h e top,
        snoc-count d t.cards laid,
        count-append d (taken_cards s.tricks) (play_cards t.cards),
      ) in
    elim (Bool-cases (ltb (length cards) 2)) [
      | inl few ↦ rw few (
          of_shown-IsOnce (record s' { next = some (1 - seat) })
            (λ d. omega (arith, bound d, count-append d (taken_cards s.tricks) (play_cards cards))))
      | inr full ↦ rw full (close-IsOnce (trick_winner g cards) s' g t' bound)
    ]

lay_on-IsOnce :
    (o : Option Trick) (s : State) (g : Game) (seat i : ℕ) (x : Pile) (c : Card)
    → seat < 2
    → s.trick ≡ o
    → get_elem? (row_of s seat) i ≡ some x
    → x.top ≡ some c
    → IsOnce s
    → OutcomeOnce (lay_on o s g seat i c)
lay_on-IsOnce none s g seat i x c h on e top once = tt
lay_on-IsOnce (some t) s g seat i x c h on e top once = lay-IsOnce s g t seat i x c h on e top once

shown-IsOnce :
    (o : Option ℕ) (s : State) (g : Game) (seat : ℕ) (c : Card)
    → seat < 2
    → last_shown c (row_of s seat) ≡ o
    → IsOnce s
    → OutcomeOnce (play_shown o s g seat c)
shown-IsOnce none s g seat c h e once = tt
shown-IsOnce (some i) s g seat c h e once =
    let (x, at, top) = last_shown-top c (row_of s seat) i e in
    elim (Bool-cases (may_play g (tops s seat) c (table_cards s.trick))) [
      | inl follows ↦ rw follows (lay_on-IsOnce s.trick s g seat i x c h refl at top once)
      | inr breaks ↦ rw breaks tt
    ]

pub play-IsOnce :
    (o : Option Game) (s : State) (seat : ℕ) (c : Option Card)
    → seat < 2
    → IsOnce s
    → OutcomeOnce (play_in o s seat c)
play-IsOnce none s seat c h once = tt
play-IsOnce (some g) s seat none h once = elim (Bool-cases (is_empty s.flip)) [
  | inl still ↦ rw still tt
  | inr due ↦ rw due tt
]
play-IsOnce (some g) s seat (some c) h once = elim (Bool-cases (is_empty s.flip)) [
  | inl still ↦ rw still (elim (Bool-cases (not (contains deck c) || contains (played s) c)) [
    | inl bad ↦ rw bad tt
    | inr good ↦ rw good (shown-IsOnce (last_shown c (row_of s seat)) s g seat c h refl once)
  ])
  | inr due ↦ rw due tt
]
