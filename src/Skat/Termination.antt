-- ===== src/Skat/Termination.antt =====
-- Skat: the length of a game (apps/duell-web/src/skat.js: apply).
pub mod Measure
use mathlib.Core.Option.{some-injective}
use mathlib.Core.Path.{subst}
use cads_agent_marketplace.Common.{
  Bool, Bool-cases, List, Option, [], arith, contains, false, inl, inr, length, length-append, ltb,
  nat_eq, none, not, refl, some, suc, sym, true, ℕ, ◌&&◌, ◌++◌, ◌+◌, ◌-◌, ◌<◌, ◌==◌, ◌||◌, ◌∷◌, ◌≡◌,
  ◌≤◌,
}
use cads_agent_marketplace.Skat.Apply.{
  apply, apply_kontra, breaks_open, close_trick, close_won, declare_checked, in_game, is_declarer,
  kontra_ok, lay, lay_on, on_turn, phase_dispatch, play, play_in, played, show_checked, shown,
  turn_dispatch,
}
use cads_agent_marketplace.Skat.Bidding.{Outcome, Reason, fail, ok, thrown}
use cads_agent_marketplace.Skat.Cards.{Card, Game, card, card_eq, deck, is_null, rank_eq, suit_eq}
use cads_agent_marketplace.Skat.Invariant.{
  apply-Valid, kontra_ok-few, kontra_ok-playing, start-Valid,
}
use cads_agent_marketplace.Skat.Invariant.Laying.{laid}
use cads_agent_marketplace.Skat.State.{
  Action, Contract, Move, Phase, Rule, State, Taken, Trick, bidding, declare_move, declaring,
  hand_size, is_seat, kontra_move, over, pickup_move, play_move, playing, push_move, pushing,
  re_move, rule_eq, seats, show_move, showing, skat_open, start, turn,
}
use cads_agent_marketplace.Skat.Strength.{led_eq, trick_winner}
use cads_agent_marketplace.Skat.Termination.Measure.{
  Below, bidding-Below, cards_left, measure, measure_as, measure_in,
}
use cads_agent_marketplace.Skat.Valid.{IsTable, IsValid, OutcomeValid, Shape}

-- The card completes the trick.
close-Below :
    (s : State) (g : Game) (t u : Trick) (w : ℕ)
    → s.phase ≡ playing
    → length t.cards < 3
    → length s.tricks < 10
    → Below (cards_left s.tricks (some t) + (2 - s.kontra)) (ok (close_trick s g u w))
unfolding close_trick measure
close-Below s g t u w ph few more =
    let last : Taken = record { lead = u.lead; cards = u.cards; winner = w } in
    let tricks = s.tricks ++ last ∷ [] in
    elim (Bool-cases (length tricks == hand_size || (is_null g && is_declarer s w))) [
      | inl ends ↦ rw ends (omega arith)
      | inr on ↦ rw on (rw ph (omega (arith, length-append s.tricks (last ∷ []))))
    ]

lay-Below :
    (s : State) (g : Game) (t : Trick) (seat : ℕ) (d : Card)
    → s.phase ≡ playing
    → length t.cards < 3
    → length s.tricks < 10
    → Below (cards_left s.tricks (some t) + (2 - s.kontra)) (lay s g t seat d)
unfolding lay measure
lay-Below s g t seat d ph few more =
    let laid = t.cards ++ record { seat = seat; card = d } ∷ [] in
    elim (Bool-cases (ltb (length laid) seats)) [
      | inl open_still ↦
          rw open_still
            (rw ph (omega (arith, length-append t.cards (record { seat = seat; card = d } ∷ []))))
      | inr full ↦ rw full (won (trick_winner g laid))
    ]
  where
    won :
        (o : Option ℕ)
        → Below (cards_left s.tricks (some t) + (2 - s.kontra)) (
            close_won o s g (record t { cards = t.cards ++ record { seat = seat; card = d } ∷ [] }))
    won none = tt
    won (some w) = close-Below s g t _ w ph few more

play-Below :
    (s : State) (c : Contract) (t : Trick) (seat : ℕ) (o : Option Card)
    → IsTable s c t
    → s.phase ≡ playing
    → Below (cards_left s.tricks s.trick + (2 - s.kontra)) (play s seat o)
unfolding play
play-Below s c t seat o h ph =
    subst (λ k. Below (cards_left s.tricks s.trick + (2 - s.kontra)) (play_in k s seat o))
      (sym h.contract_eq) (with_contract o)
  where
    with_trick :
        (d : Card)
        → Below (cards_left s.tricks s.trick + (2 - s.kontra)) (lay_on s.trick s c.game seat d)
    with_trick d =
        subst (λ k. Below (cards_left s.tricks k + (2 - s.kontra)) (lay_on k s c.game seat d))
          (sym h.trick_eq) (lay-Below s c.game t seat d ph h.few h.unfinished)

    with_contract :
        (q : Option Card)
        → Below (cards_left s.tricks s.trick + (2 - s.kontra)) (play_in (some c) s seat q)
    with_contract none = tt
    with_contract (some d) = elim (Bool-cases (not (contains deck d))) [
      | inl no_card ↦ rw no_card tt
      | inr is_card ↦ rw is_card (elim (Bool-cases (contains (played s) d)) [
        | inl twice ↦ rw twice tt
        | inr new ↦ rw new (elim (Bool-cases (breaks_open s c.game seat d)) [
          | inl broken ↦ rw broken tt
          | inr keeps ↦ rw keeps (with_trick d)
        ])
      ])
    ]

-- Before the cards are played there is less to come than 99 and more than the play.
declare-Below :
    (n : ℕ) (e : Option Reason) (s : State) (g : Option Game) (hand schneider schwarz ouvert : Bool)
    → 96 < n
    → Below n (declare_checked e s g hand schneider schwarz ouvert)
unfolding measure
declare-Below n (some e) s g hand schneider schwarz ouvert b = tt
declare-Below n none s none hand schneider schwarz ouvert b = tt
declare-Below n none s (some g) hand schneider schwarz true b = b
declare-Below n none s (some g) hand schneider schwarz false b = omega arith

show-Below : (o : Option (List Card)) (s : State) → Below 96 (show_checked o s)
unfolding measure
show-Below none s = tt
show-Below (some ds) s = omega arith

turn-Below :
    (p : Phase) (m : Move) (s : State) (seat : ℕ)
    → s.phase ≡ p
    → Shape p s
    → Below (measure_in p s) (turn_dispatch p m s seat)
unfolding measure
turn-Below skat_open pickup_move s seat ph h = omega arith
turn-Below skat_open (declare_move g hand schneider schwarz ouvert) s seat ph h =
    declare-Below 99 _ s g hand schneider schwarz ouvert (omega arith)
turn-Below pushing push_move s seat ph h = omega arith
turn-Below declaring (declare_move g hand schneider schwarz ouvert) s seat ph h =
    declare-Below 97 _ s g hand schneider schwarz ouvert (omega arith)
turn-Below showing (show_move cs) s seat ph h = show-Below (shown cs) s
turn-Below playing (play_move o) s seat ph (c, t, sides, table) = play-Below s c t seat o table ph
turn-Below _ _ s seat ph h = tt

-- Kontra and Re are said at most once each.
kontra-Below : (s : State) (seat : ℕ) (re : Bool) → Below (measure s) (apply_kontra s seat re)
kontra-Below s seat re = elim (Bool-cases (kontra_ok s seat re)) [
  | inr refused ↦ rw refused tt
  | inl said ↦ rw said (
      rw
        (
          measure_as s playing (kontra_ok-playing s seat re said),
          measure_as (record s { kontra = suc s.kontra }) playing
              (kontra_ok-playing s seat re said),
        )
        (omega (arith, kontra_ok-few s seat re said)))
]

on_turn-Below : (s : State) (a : Action) → IsValid s → Below (measure s) (on_turn s a)
unfolding measure
on_turn-Below s a (b, h) = elim (Bool-cases (is_seat (turn s) a.seat)) [
  | inl mine ↦ rw mine (turn-Below s.phase a.move s a.seat refl h)
  | inr other ↦ rw other tt
]

in_game-Below : (m : Move) (s : State) (a : Action) → IsValid s → Below (measure s) (in_game m s a)
in_game-Below kontra_move s a v = kontra-Below s a.seat false
in_game-Below re_move s a v = kontra-Below s a.seat true
in_game-Below _ s a v = on_turn-Below s a v

dispatch-Below :
    (p : Phase) (s : State) (a : Action)
    → s.phase ≡ p
    → IsValid s
    → Below (measure s) (phase_dispatch p s a)
dispatch-Below over s a ph v = tt
dispatch-Below bidding s a ph (b, h) =
    rw (measure_as s bidding ph) (bidding-Below s a ph (subst (λ p. Shape p s) ph h).0)
dispatch-Below _ s a ph v = in_game-Below a.move s a v

pub apply-Below : (s : State) (a : Option Action) → IsValid s → Below (measure s) (apply s a)
unfolding apply
apply-Below s none v = tt
apply-Below s (some a) v = dispatch-Below s.phase s a refl v

-- A sequence of actions, each of which `apply` accepts; `none` if it refuses one of them.
unfoldable pub run : State → List (Option Action) → Option State
run s [] = some s
run s (a ∷ moves) = elim (apply s a) [ ok t ↦ run t moves | _ ↦ none ]

run_step :
    (o : Outcome) (n : ℕ) (moves : List (Option Action)) (t : State)
    → OutcomeValid o
    → Below n o
    → ((u : State)
        → IsValid u
        → run u moves ≡ some t
        → IsValid t × (length moves + measure t ≤ measure u))
    → elim o as (λ x. Option State) [ ok u ↦ run u moves | fail e ↦ none | thrown ↦ none ] ≡ some t
    → IsValid t × (suc (length moves) + measure t ≤ n)
run_step (ok u) n moves t v l ih e = let (w, b) = ih u v e in (w, omega arith)
run_step (fail r) n moves t v l ih e = cc
run_step thrown n moves t v l ih e = cc

-- Whatever sequence of actions is accepted from a well-formed state, the state that it leads to is
-- well-formed, and its measure is smaller by at least the number of actions.
pub run_bound :
    (moves : List (Option Action)) (s t : State)
    → IsValid s
    → run s moves ≡ some t
    → IsValid t × (length moves + measure t ≤ measure s)
unfolding run
run_bound [] s t v e =
    let q = some-injective s t e in
    (subst (λ u. IsValid u) q v, subst (λ u. 0 + measure u ≤ measure s) q (omega arith))
run_bound (a ∷ moves) s t v e =
    run_step (apply s a) (measure s) moves t (apply-Valid s a v) (apply-Below s a v)
      (λ u w. run_bound moves u t w) e

measure-start : (house : List Rule) (dealer : Option ℕ) → measure (start house dealer) ≡ 1828
unfolding measure start
measure-start house none = refl
measure-start house (some d) = refl

-- Every sequence of actions that is accepted from a new game, whatever the house rules and the dealer,
-- ends in a well-formed state, and the number of actions and the measure of that state are together at
-- most 1828.
pub run-start_bound :
    (house : List Rule) (dealer : Option ℕ) (moves : List (Option Action)) (t : State)
    → run (start house dealer) moves ≡ some t
    → IsValid t × (length moves + measure t ≤ 1828)
run-start_bound house dealer moves t e =
    let (v, b) = run_bound moves (start house dealer) t (start-Valid house dealer) e in
    (v, omega (arith, measure-start house dealer))
