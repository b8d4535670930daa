-- ===== src/Skat/Invariant.antt =====
-- Skat: `apply` and well-formed states (apps/duell-web/src/skat.js: start, apply).
pub mod Table
pub mod Laying
pub mod Bids
pub mod Cards
use mathlib.Core.Path.{subst}
use cads_agent_marketplace.Common.{
  Bool, Bool-cases, List, Option, [], arith, false, inl, inr, none, refl, some, suc, true, ℕ, ◌<◌,
  ◌≡◌,
}
use cads_agent_marketplace.Skat.Apply.{
  apply, apply_kontra, declare_checked, in_game, kontra_ok, on_turn, phase_dispatch, played,
  show_checked, shown, turn_dispatch,
}
use cads_agent_marketplace.Skat.Bidding.{Reason}
use cads_agent_marketplace.Skat.Cards.{Card, Game}
use cads_agent_marketplace.Skat.Contract.{contract_of}
use cads_agent_marketplace.Skat.Invariant.Bids.{bidding-Valid}
use cads_agent_marketplace.Skat.Invariant.Cards.{play-Valid}
use cads_agent_marketplace.Skat.Invariant.Table.{opening-IsTable}
use cads_agent_marketplace.Skat.State.{
  Action, Contract, Move, Phase, Rule, State, Trick, bidding, declare_move, declaring, forehand,
  is_seat, kontra_move, over, pickup_move, play_move, playing, push_move, pushing, re_move,
  show_move, showing, skat_open, start, turn, turn_in,
}
use cads_agent_marketplace.Skat.Valid.{
  IsDeclared, IsTable, IsUnplayed, IsValid, OutcomeValid, Shape, IsValid-in,
}

-- A valid announcement opens the game: Forehand leads to an empty table.
declare-Valid :
    (e : Option Reason) (s : State) (g : Option Game) (hand schneider schwarz ouvert : Bool)
    → s.dealer < 3
    → IsDeclared s.declarer s.bid.value
    → IsUnplayed s
    → OutcomeValid (declare_checked e s g hand schneider schwarz ouvert)
declare-Valid (some e) s g hand schneider schwarz ouvert b d u = tt
declare-Valid none s none hand schneider schwarz ouvert b d u = tt
declare-Valid none s (some g) hand schneider schwarz true b d u =
    let c = contract_of g hand schneider schwarz true in
    let t : Trick = record { lead = forehand s.dealer; cards = [] } in
    (b, (d, (c, t, refl, opening-IsTable _ c b u.no_tricks refl refl refl)))
declare-Valid none s (some g) hand schneider schwarz false b d u =
    let c = contract_of g hand schneider schwarz false in
    let t : Trick = record { lead = forehand s.dealer; cards = [] } in
    (b, (c, t, inl d, opening-IsTable _ c b u.no_tricks refl refl refl))

-- What an announcement of Kontra and an open hand leave of the table.
IsTable-kept :
    (s : State) (c : Contract) (t : Trick)
    → IsTable s c t
    → (k : ℕ) (p : Phase) (o : Option (List Card))
    → IsTable (record s { kontra = k; phase = p; open_hand = o }) c t
unfolding played
IsTable-kept s c t h k p o = record {
  contract_eq = h.contract_eq;
  trick_eq = h.trick_eq;
  next_eq = h.next_eq;
  few = h.few;
  lead_seat = h.lead_seat;
  order = h.order;
  taken = h.taken;
  chain = h.chain;
  unfinished = h.unfinished;
  fresh = h.fresh;
}

show-Valid :
    (o : Option (List Card)) (s : State)
    → s.dealer < 3
    → Shape showing s
    → OutcomeValid (show_checked o s)
show-Valid none s b h = tt
show-Valid (some ds) s b (d, (c, t, empty, h)) =
    (b, (c, t, inl d, IsTable-kept s c t h s.kontra playing (some ds)))

-- Kontra is said before the first, and Re before the second doubling.
pub kontra_ok-few : (s : State) (seat : ℕ) (re : Bool) → kontra_ok s seat re ≡ true → s.kontra < 2
unfolding kontra_ok
kontra_ok-few s seat true h = ground arith
kontra_ok-few s seat false h = ground arith

-- Kontra and Re are said during the play only.
pub kontra_ok-playing :
    (s : State) (seat : ℕ) (re : Bool) → kontra_ok s seat re ≡ true → s.phase ≡ playing
unfolding kontra_ok
kontra_ok-playing s seat true h = ground arith
kontra_ok-playing s seat false h = ground arith

kontra-Valid :
    (s : State) (seat : ℕ) (re : Bool) → IsValid s → OutcomeValid (apply_kontra s seat re)
kontra-Valid s seat re (b, h) = elim (Bool-cases (kontra_ok s seat re)) [
  | inr refused ↦ rw refused tt
  | inl said ↦ rw said (raised (kontra_ok-playing s seat re said))
]
  where
    raised : s.phase ≡ playing → IsValid (record s { kontra = suc s.kontra })
    raised ph =
        let (c, t, sides, table) = subst (λ p. Shape p s) ph h in
        IsValid-in _ playing ph b
          (c, t, sides, IsTable-kept s c t table (suc s.kontra) s.phase s.open_hand)

pub is_seat-eq : (o : Option ℕ) (seat : ℕ) → is_seat o seat ≡ true → o ≡ some seat
is_seat-eq o seat h = ground arith

turn-Valid :
    (p : Phase) (m : Move) (s : State) (seat : ℕ)
    → s.phase ≡ p
    → s.dealer < 3
    → Shape p s
    → is_seat (turn s) seat ≡ true
    → OutcomeValid (turn_dispatch p m s seat)
unfolding turn
turn-Valid skat_open pickup_move s seat ph b (d, u) e = (b, (d, ground arith))
turn-Valid skat_open (declare_move g hand schneider schwarz ouvert) s seat ph b (d, u) e =
    declare-Valid _ s g hand schneider schwarz ouvert b d u
turn-Valid pushing push_move s seat ph b (d, u) e = (b, (d, ground arith))
turn-Valid declaring (declare_move g hand schneider schwarz ouvert) s seat ph b (d, u) e =
    declare-Valid _ s g hand schneider schwarz ouvert b d u
turn-Valid showing (show_move cs) s seat ph b h e = show-Valid (shown cs) s b h
turn-Valid playing (play_move o) s seat ph b (c, t, sides, table) e =
    play-Valid s c t seat o table ph b sides (
      ground (
        arith,
        is_seat-eq s.next seat (subst (λ p. is_seat (turn_in p s) seat ≡ true) ph e),
        table.next_eq,
      ))
turn-Valid _ _ s seat ph b h e = tt

on_turn-Valid : (s : State) (a : Action) → IsValid s → OutcomeValid (on_turn s a)
on_turn-Valid s a (b, h) = elim (Bool-cases (is_seat (turn s) a.seat)) [
  | inl mine ↦ rw mine (turn-Valid s.phase a.move s a.seat refl b h mine)
  | inr other ↦ rw other tt
]

in_game-Valid : (m : Move) (s : State) (a : Action) → IsValid s → OutcomeValid (in_game m s a)
in_game-Valid kontra_move s a v = kontra-Valid s a.seat false v
in_game-Valid re_move s a v = kontra-Valid s a.seat true v
in_game-Valid _ s a v = on_turn-Valid s a v

dispatch-Valid :
    (p : Phase) (s : State) (a : Action)
    → s.phase ≡ p
    → s.dealer < 3
    → Shape p s
    → OutcomeValid (phase_dispatch p s a)
dispatch-Valid over s a ph b h = tt
dispatch-Valid bidding s a ph b h = bidding-Valid s a ph b h
dispatch-Valid _ s a ph b h = in_game-Valid a.move s a (IsValid-in s _ ph b h)

-- From a well-formed state `apply` throws nothing, whatever the message is, and what an accepted
-- action leaves is well-formed.
pub apply-Valid : (s : State) (a : Option Action) → IsValid s → OutcomeValid (apply s a)
unfolding apply
apply-Valid s none v = tt
apply-Valid s (some a) (b, h) = dispatch-Valid s.phase s a refl b h

pub start-Valid : (house : List Rule) (dealer : Option ℕ) → IsValid (start house dealer)
unfolding start
start-Valid house none = ground arith
start-Valid house (some d) = ground arith
