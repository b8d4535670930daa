-- ===== src/Skat/Invariant/Cards.antt =====
-- Skat: a card played in a well-formed state (apps/duell-web/src/skat.js: play).
use mathlib.Core.Path.{subst}
use cads_agent_marketplace.Common.{
  Bool-cases, Option, [], arith, contains, false, inl, inr, length, length-append, ltb, ltb→lt,
  nat_eq, none, not, some, sym, ℕ, ◌%◌, ◌&&◌, ◌++◌, ◌+◌, ◌<◌, ◌==◌, ◌||◌, ◌∷◌, ◌≡◌,
}
use cads_agent_marketplace.Skat.Apply.{
  breaks_open, close_trick, is_declarer, lay, lay_on, play, play_in, played,
}
use cads_agent_marketplace.Skat.Cards.{Card, card_eq, deck, is_null, rank_eq, suit_eq}
use cads_agent_marketplace.Skat.Invariant.Laying.{
  end-IsFinished, laid-order, lay-IsTable, next-IsTable,
}
use cads_agent_marketplace.Skat.Invariant.Table.{trick_winner-seat}
use cads_agent_marketplace.Skat.State.{Contract, State, Trick, hand_size, playing, rule_eq, seats}
use cads_agent_marketplace.Skat.Strength.{Play, led_eq, trick_winner}
use cads_agent_marketplace.Skat.Valid.{HasSides, IsTable, IsValid, OutcomeValid, IsValid-in}

-- The state that a card leads to when the trick is complete.
close_trick-Valid :
    (s : State) (c : Contract) (t : Trick) (x : Play) (w : ℕ) (h : IsTable s c t)
    → s.phase ≡ playing
    → s.dealer < 3
    → HasSides s c
    → x.seat ≡ (t.lead + length t.cards) % 3
    → contains (played s) x.card ≡ false
    → length (t.cards ++ x ∷ []) ≡ 3
    → trick_winner c.game (t.cards ++ x ∷ []) ≡ some w
    → w < 3
    → IsValid (close_trick s c.game (record t { cards = t.cards ++ x ∷ [] }) w)
unfolding close_trick
close_trick-Valid s c t x w h ph b sides turn_eq new full won in_range =
    let tricks = s.tricks ++ record { lead = t.lead; cards = t.cards ++ x ∷ []; winner = w } ∷ [] in
    elim (Bool-cases (length tricks == hand_size || (is_null c.game && is_declarer s w))) [
      | inl ends ↦ rw ends (
        b,
        inr (c, sides, end-IsFinished s c t h b x turn_eq new w full won in_range (ground arith)),
      )
      | inr more ↦ rw more (
          IsValid-in _ playing ph b (
            c,
            record { lead = w; cards = [] },
            sides,
            next-IsTable s c t h b x turn_eq new w full won in_range (ground arith),
          ))
    ]

-- A card laid on the table.
pub lay-Valid :
    (s : State) (c : Contract) (t : Trick) (seat : ℕ) (d : Card) (h : IsTable s c t)
    → s.phase ≡ playing
    → s.dealer < 3
    → HasSides s c
    → seat ≡ (t.lead + length t.cards) % 3
    → contains (played s) d ≡ false
    → OutcomeValid (lay s c.game t seat d)
unfolding lay
lay-Valid s c t seat d h ph b sides turn_eq new =
    let x : Play = record { seat = seat; card = d } in
    let laid = t.cards ++ x ∷ [] in
    elim (Bool-cases (ltb (length laid) seats)) [
      | inl few ↦ rw few (
          IsValid-in _ playing ph b (
            c,
            record t { cards = laid },
            sides,
            lay-IsTable s c t h b x turn_eq new (ltb→lt _ _ few),
          ))
      | inr full ↦
          let (w, won, in_range) =
            trick_winner-seat c.game t.lead laid h.lead_seat (laid-order s c t h b x turn_eq new)
              (omega (arith, length-append t.cards (x ∷ []))) in
          rw full (
            rw won (
              close_trick-Valid s c t x w h ph b sides turn_eq new
                (ground (arith, length-append t.cards (x ∷ []), h.few)) won in_range))
    ]

-- A card that a seat plays on its turn.
pub play-Valid :
    (s : State) (c : Contract) (t : Trick) (seat : ℕ) (o : Option Card)
    → IsTable s c t
    → s.phase ≡ playing
    → s.dealer < 3
    → HasSides s c
    → seat ≡ (t.lead + length t.cards) % 3
    → OutcomeValid (play s seat o)
unfolding play
play-Valid s c t seat o h ph b sides e =
    subst (λ k. OutcomeValid (play_in k s seat o)) (sym h.contract_eq) (with_contract o)
  where
    with_trick :
        (d : Card) → contains (played s) d ≡ false → OutcomeValid (lay_on s.trick s c.game seat d)
    with_trick d new =
        subst (λ k. OutcomeValid (lay_on k s c.game seat d)) (sym h.trick_eq)
          (lay-Valid s c t seat d h ph b sides e new)

    with_contract : (q : Option Card) → OutcomeValid (play_in (some c) s seat q)
    with_contract none = tt
    with_contract (some d) = elim (Bool-cases (not (contains deck d))) [
      | inl no_card ↦ rw no_card tt
      | inr is_card ↦ rw is_card (elim (Bool-cases (contains (played s) d)) [
        | inl twice ↦ rw twice tt
        | inr new ↦ rw new (elim (Bool-cases (breaks_open s c.game seat d)) [
          | inl broken ↦ rw broken tt
          | inr keeps ↦ rw keeps (with_trick d new)
        ])
      ])
    ]
