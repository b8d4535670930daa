-- ===== src/Skat/Legal.antt =====
-- Skat: the moves that are offered, as `apply` sees them (apps/duell-web/src/skat.js: actions, apply).
pub mod Offers
pub mod Hand
use mathlib.Core.Path.{subst}
use cads_agent_marketplace.Common.{
  All, All-append, All-filter, All-if, All-map, All-mono, List, [], all-at, ap, arith, contains,
  false, if◌then◌else◌, inl, inr, map, nat_eq, not, refl, some, sym, true, ℕ, ◌∷◌, ◌≡◌, ◌⊎◌,
}
use cads_agent_marketplace.Skat.Apply.{
  apply, kontra_ok, lay_on, on_turn, play, play_in, played, show_checked, table_cards,
  turn_dispatch,
}
use cads_agent_marketplace.Skat.Cards.{Card, card_eq, deck, rank_eq, suit_eq, ten}
use cads_agent_marketplace.Skat.Contract.{declare_options}
use cads_agent_marketplace.Skat.Invariant.{is_seat-eq}
use cads_agent_marketplace.Skat.Legal.Hand.{
  Holds, lay-IsOk, may_play-contains, open_kept, shown-hand,
}
use cads_agent_marketplace.Skat.Legal.Offers.{
  Announces, IsOk, Takes, bid_moves-Takes, declare_options-Announces,
}
use cads_agent_marketplace.Skat.Moves.{
  act, actions, kontra_moves, moves_in, play_moves, play_of, playable,
}
use cads_agent_marketplace.Skat.State.{
  Contract, Move, Phase, State, Trick, bidding, declare_move, declaring, is_seat, kontra_move, over,
  pickup_move, playing, push_move, pushing, re_move, rule_eq, showing, skat_open, turn, turn_in,
}
use cads_agent_marketplace.Skat.Strength.{led_eq, may_play}
use cads_agent_marketplace.Skat.Valid.{IsTable, IsValid, Shape}

-- A card of the hand that follows suit is accepted from the seat whose turn it is.
pub play-IsOk :
    (s : State) (c : Contract) (t : Trick) (seat : ℕ) (hand : List Card) (d : Card)
    → IsTable s c t
    → Holds s seat hand
    → s.next ≡ some seat
    → may_play c.game hand d (table_cards s.trick) ≡ true
    → IsOk (play s seat (some d))
unfolding play
play-IsOk s c t seat hand d table h e m =
    let held = may_play-contains c.game hand d (table_cards s.trick) m in
    let is_card : not (contains deck d) ≡ false =
      ap not (all-at (contains deck) hand d h.known held) in
    let new : contains (played s) d ≡ false =
      ground (arith, all-at (λ x. not (contains (played s) x)) hand d h.unplayed held) in
    subst (λ k. IsOk (play_in k s seat (some d))) (sym table.contract_eq)
      (rw (is_card, new, open_kept s.open_hand s c.game seat hand d refl h m)
        (subst (λ k. IsOk (lay_on k s c.game seat d)) (sym table.trick_eq)
          (lay-IsOk s c.game t seat d table.lead_seat table.order (ground (arith, table.next_eq)))))

pub on_turn-IsOk :
    (p : Phase) (m : Move) (s : State) (seat : ℕ)
    → s.phase ≡ p
    → is_seat (turn_in p s) seat ≡ true
    → IsOk (turn_dispatch p m s seat)
    → IsOk (on_turn s (act seat m))
unfolding turn
on_turn-IsOk p m s seat e mine taken =
    let asked : is_seat (turn_in s.phase s) seat ≡ true =
      subst (λ q. is_seat (turn_in q s) seat ≡ true) (sym e) mine in
    rw asked (subst (λ q. IsOk (turn_dispatch q m s seat)) (sym e) taken)

playable-Takes :
    (s : State) (c : Contract) (t : Trick) (seat : ℕ) (hand : List Card)
    → s.phase ≡ playing
    → IsTable s c t
    → Holds s seat hand
    → s.next ≡ some seat
    → All (Takes playing s seat) (map play_of (playable s.contract s hand))
playable-Takes s c t seat hand ph table h e =
    subst (λ k. All (Takes playing s seat) (map play_of (playable k s hand)))
      (sym table.contract_eq)
      (All-map (Takes playing s seat) play_of (playable (some c) s hand) (
        All-filter _ _ hand hand
          (λ d held m.
            on_turn-IsOk playing (play_of d) s seat ph
              (subst (λ n. is_seat n seat ≡ true) (sym e) (ground arith))
              (play-IsOk s c t seat hand d table h e m))
          (λ d held. held)))

kontra_moves-Takes : (s : State) (seat : ℕ) → All (Takes playing s seat) (kontra_moves s seat)
kontra_moves-Takes s seat =
    All-append (Takes playing s seat) (if kontra_ok s seat false then kontra_move ∷ [] else [])
      (if kontra_ok s seat true then re_move ∷ [] else [])
      (All-if (Takes playing s seat) (kontra_ok s seat false) (kontra_move ∷ [])
        (λ said. (rw said tt, tt)))
      (All-if (Takes playing s seat) (kontra_ok s seat true) (re_move ∷ [])
        (λ said. (rw said tt, tt)))

announce-Takes :
    (p : Phase) (s : State) (seat : ℕ) (m : Move)
    → (p ≡ skat_open) ⊎ (p ≡ declaring)
    → s.phase ≡ p
    → is_seat s.declarer seat ≡ true
    → Announces s m
    → Takes p s seat m
announce-Takes skat_open s seat (declare_move g hand schneider schwarz ouvert) w e mine a =
    on_turn-IsOk skat_open _ s seat e mine a
announce-Takes declaring s seat (declare_move g hand schneider schwarz ouvert) w e mine a =
    on_turn-IsOk declaring _ s seat e mine a
announce-Takes _ s seat (declare_move g hand schneider schwarz ouvert) w e mine a =
    absurd (ground arith)
announce-Takes _ s seat _ w e mine a = absurd a

play_moves-Takes :
    (s : State) (c : Contract) (t : Trick) (seat : ℕ) (hand : List Card)
    → s.phase ≡ playing
    → IsTable s c t
    → Holds s seat hand
    → All (Takes playing s seat) (play_moves s seat hand)
unfolding play_moves
play_moves-Takes s c t seat hand ph table h =
    All-append (Takes playing s seat)
      (if is_seat s.next seat then map play_of (playable s.contract s hand) else [])
      (kontra_moves s seat)
      (All-if (Takes playing s seat) (is_seat s.next seat) _
        λ mine. playable-Takes s c t seat hand ph table h (is_seat-eq s.next seat mine))
      (kontra_moves-Takes s seat)

moves-Takes :
    (p : Phase) (s : State) (seat : ℕ) (hand : List Card)
    → s.phase ≡ p
    → Shape p s
    → Holds s seat hand
    → All (Takes p s seat) (moves_in p s seat hand)
moves-Takes bidding s seat hand ph (auction, u) h = bid_moves-Takes s seat auction
moves-Takes skat_open s seat hand ph v h =
    All-if (Takes skat_open s seat) (is_seat s.declarer seat) _ λ mine. (
      on_turn-IsOk skat_open pickup_move s seat ph mine tt,
      All-mono _ _ (declare_options s) (λ m. announce-Takes skat_open s seat m (inl refl) ph mine)
          (declare_options-Announces s),
    )
moves-Takes pushing s seat hand ph v h =
    All-if (Takes pushing s seat) (is_seat s.declarer seat) _
      λ mine. (on_turn-IsOk pushing push_move s seat ph mine tt, tt)
moves-Takes declaring s seat hand ph v h =
    All-if (Takes declaring s seat) (is_seat s.declarer seat) _ λ mine.
      All-mono _ _ (declare_options s) (λ m. announce-Takes declaring s seat m (inr refl) ph mine)
        (declare_options-Announces s)
moves-Takes showing s seat hand ph v h =
    let (size, differ) = h.ten ph in
    All-if (Takes showing s seat) (is_seat s.declarer seat) _ λ mine. (
      on_turn-IsOk showing _ s seat ph mine
          (subst (λ o. IsOk (show_checked o s)) (sym (shown-hand hand size differ h.known)) tt),
      tt,
    )
moves-Takes playing s seat hand ph (c, t, sides, table) h =
    play_moves-Takes s c t seat hand ph table h
moves-Takes over s seat hand ph v h = tt

-- Every move that is offered to a seat is accepted: in a well-formed state, `apply` takes each action
-- that `actions` lists for the seat's hand, if the hand holds cards of the deck that have not been
-- played, fits an open hand, and has ten cards where it is to be laid open.
pub actions-IsOk :
    (s : State) (seat : ℕ) (hand : List Card)
    → IsValid s
    → Holds s seat hand
    → All (λ a. IsOk (apply s (some a))) (actions s seat (some hand))
unfolding actions apply
actions-IsOk s seat hand (b, v) h =
    All-map (λ a. IsOk (apply s (some a))) (act seat) (moves_in s.phase s seat hand)
      (moves-Takes s.phase s seat hand refl v h)
