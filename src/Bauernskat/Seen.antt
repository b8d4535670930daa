-- ===== src/Bauernskat/Seen.antt =====
-- Bauernskat: how the actions change how often a card is seen (apps/duell-web/src/bauernskat.js: apply).
pub mod Opening
pub mod Counting
pub mod Laying
use cads_agent_marketplace.Common.{
  Bool, Bool-cases, Option, [], arith, false, get_elem?, if◌then◌else◌, inl, inr, ltb, none, not,
  refl, some, true, ℕ, ◌<◌,
}
use cads_agent_marketplace.Bauernskat.Apply.{
  Action, Move, apply, apply_kontra, declare, declare_move, fail, in_games, kontra_move, kontra_ok,
  move_dispatch, phase_dispatch, play, play_move, re_move, turn_dispatch, turn_move, turn_reason,
  turn_up,
}
use cads_agent_marketplace.Bauernskat.Once.{
  IsOnce, OutcomeOnce, count-append, of_shown-IsOnce, visible-shown,
}
use cads_agent_marketplace.Bauernskat.Seen.Laying.{play-IsOnce}
use cads_agent_marketplace.Bauernskat.Seen.Opening.{turn_card-IsOnce}
use cads_agent_marketplace.Bauernskat.State.{
  Phase, Spot, State, declaring, over, played, playing, row_of, turn, visible,
}
use cads_agent_marketplace.Skat.Apply.{play_cards, table_cards, taken_cards}
use cads_agent_marketplace.Skat.Cards.{Game}
use cads_agent_marketplace.Skat.State.{is_seat}

declare-IsOnce : (s : State) (g : Option Game) → IsOnce s → OutcomeOnce (declare s g)
unfolding played
declare-IsOnce s g once = elim (Bool-cases (in_games s g)) [
  | inl allowed ↦
      let t = record s {
        contract = g;
        phase = playing;
        next = some s.declarer;
        trick = some (record { lead = s.declarer; cards = [] });
      } in
      rw allowed (
        of_shown-IsOnce t (λ d. omega (
          arith,
          visible-shown d s,
          once d,
          count-append d (taken_cards s.tricks) [],
          count-append d (taken_cards s.tricks) (play_cards (table_cards s.trick)),
        )))
  | inr barred ↦ rw barred tt
]

dispatch-IsOnce :
    (p : Phase) (m : Move) (s : State) (seat : ℕ)
    → seat < 2
    → IsOnce s
    → OutcomeOnce (turn_dispatch p m s seat)
unfolding play
dispatch-IsOnce declaring (declare_move g) s seat h once = declare-IsOnce s g once
dispatch-IsOnce playing (play_move c) s seat h once = play-IsOnce s.contract s seat c h once
dispatch-IsOnce _ _ s seat h once = tt

kontra-IsOnce : (s : State) (seat : ℕ) (re : Bool) → IsOnce s → OutcomeOnce (apply_kontra s seat re)
unfolding visible played
kontra-IsOnce s seat re once = elim (Bool-cases (kontra_ok s seat re)) [
  | inl said ↦ rw said once
  | inr late ↦ rw late tt
]

on_turn-IsOnce :
    (m : Move) (s : State) (seat : ℕ)
    → seat < 2
    → IsOnce s
    → OutcomeOnce
        (if not (is_seat (turn s) seat) then fail turn_reason else turn_dispatch s.phase m s seat)
on_turn-IsOnce m s seat h once = elim (Bool-cases (is_seat (turn s) seat)) [
  | inl mine ↦ rw mine (dispatch-IsOnce s.phase m s seat h once)
  | inr other ↦ rw other tt
]

move-IsOnce :
    (m : Move) (s : State) (seat : ℕ) → seat < 2 → IsOnce s → OutcomeOnce (move_dispatch m s seat)
unfolding turn_up
move-IsOnce (turn_move i c) s seat h once =
    let f : Spot = record { seat = seat; i = i } in
    turn_card-IsOnce s f (get_elem? (row_of s seat) i) c h refl once
move-IsOnce kontra_move s seat h once = kontra-IsOnce s seat false once
move-IsOnce re_move s seat h once = kontra-IsOnce s seat true once
move-IsOnce m s seat h once = on_turn-IsOnce m s seat h once

phase-IsOnce :
    (p : Phase) (s : State) (a : Action)
    → a.seat < 2
    → IsOnce s
    → OutcomeOnce (phase_dispatch p s a)
phase-IsOnce over s a h once = tt
phase-IsOnce _ s a h once = move-IsOnce a.move s a.seat h once

-- From a state in which no card is seen twice, on the stacks or among the cards that were played, every
-- action that is accepted leads to such a state.
pub apply-IsOnce : (s : State) (a : Option Action) → IsOnce s → OutcomeOnce (apply s a)
unfolding apply
apply-IsOnce s none once = tt
apply-IsOnce s (some a) once = elim (Bool-cases (ltb a.seat 2)) [
  | inl seated ↦ rw seated (phase-IsOnce s.phase s a (ground arith) once)
  | inr nobody ↦ rw nobody tt
]
