-- ===== src/Skat/Termination/Measure.antt =====
-- Skat: a measure of what is still to come, and the auction (apps/duell-web/src/skat.js: applyBid).
use cads_agent_marketplace.Common.{
  Bool-cases, List, Option, [], ap, arith, contains, inl, inr, leb, length, nat_eq, not, refl, some,
  ℕ, ◌*◌, ◌++◌, ◌+◌, ◌-◌, ◌<◌, ◌==◌, ◌||◌, ◌∷◌, ◌≡◌,
}
use cads_agent_marketplace.Skat.Apply.{table_cards}
use cads_agent_marketplace.Skat.Bidding.{
  Outcome, all_passed, apply_bid, bid_dispatch, bid_seat, fail, hold_asked, is_fore_stage, ok,
  pass_in, thrown, to_declarer, value_asked,
}
use cads_agent_marketplace.Skat.Cards.{card_eq, rank_eq, suit_eq}
use cads_agent_marketplace.Skat.Invariant.Bids.{bid_range}
use cads_agent_marketplace.Skat.State.{
  Action, Ask, Auction, Move, Phase, Stage, State, Taken, Trick, ask_answer, ask_bid, bid_move,
  bidding, bids, declaring, fore_stage, has, hold_move, middle_stage, over, pass_move, playing,
  pushing, ramsch_rule, rear_stage, rule_eq, showing, skat_open,
}
use cads_agent_marketplace.Skat.Strength.{led_eq}
use cads_agent_marketplace.Skat.Valid.{IsAuction}

abbrev pub stage_rank : Stage → ℕ
stage_rank middle_stage = 2
stage_rank rear_stage = 1
stage_rank fore_stage = 0

abbrev pub answer_rank : Ask → ℕ
answer_rank ask_answer = 1
answer_rank _ = 0

-- The values that can still be called, and the passes to come.
abbrev pub auction_rank : Auction → ℕ
auction_rank b = 600 * stage_rank b.stage + (2 * (264 - b.value) + answer_rank b.ask)

-- The cards that are still to be played in ten tricks.
abbrev pub cards_left : List Taken → Option Trick → ℕ
cards_left ts t = 30 - (3 * length ts + length (table_cards t))

abbrev pub measure_in : Phase → State → ℕ
measure_in bidding s = 100 + auction_rank s.bid
measure_in skat_open s = 99
measure_in pushing s = 98
measure_in declaring s = 97
measure_in showing s = 96
measure_in playing s = cards_left s.tricks s.trick + (2 - s.kontra)
measure_in over s = 0

unfoldable pub measure : State → ℕ
measure s = measure_in s.phase s

abbrev pub Below : ℕ → Outcome → Type 0
Below n (ok t) = measure t < n
Below n (fail e) = Unit
Below n thrown = Unit

pub measure_as : (t : State) (p : Phase) → t.phase ≡ p → measure t ≡ measure_in p t
unfolding measure
measure_as t p e = ap (λ q. measure_in q t) e

module _ (s : State) (seat : ℕ) (ph : s.phase ≡ bidding) (h : IsAuction s.dealer s.bid) where
  value-Below :
      (k : Ask) (v : ℕ) → s.bid.ask ≡ k → Below (100 + auction_rank s.bid) (value_asked k s seat v)
  unfolding to_declarer measure
  value-Below ask_bid v e = elim (Bool-cases (not (contains bids v) || leb v s.bid.value)) [
    | inl low ↦ rw low tt
    | inr higher ↦ rw higher (elim (Bool-cases (is_fore_stage s.bid.stage)) [
      | inl fore ↦ rw fore (elim (Bool-cases (not (v == 18))) [
        | inl bad ↦ rw bad tt
        | inr opens ↦ rw opens (omega arith)
      ])
      | inr two ↦ rw two (
          rw
            (measure_as
              (record s { bid = record (s.bid) { value = v; last = some seat; ask = ask_answer } })
              bidding ph)
            (ground (arith, bid_range v)))
    ])
  ]
  value-Below _ v e = tt

  hold-Below : (k : Ask) → s.bid.ask ≡ k → Below (100 + auction_rank s.bid) (hold_asked k s)
  hold-Below ask_answer e =
      rw (measure_as (record s { bid = record (s.bid) { ask = ask_bid } }) bidding ph)
        (rw e (omega arith))
  hold-Below _ e = tt

  all_passed-Below : Below (100 + auction_rank s.bid) (all_passed s)
  unfolding measure
  all_passed-Below = elim (Bool-cases (not (has s ramsch_rule))) [
    | inl thrown_in ↦ rw thrown_in (omega arith)
    | inr plays ↦ rw plays (omega arith)
  ]

  pass-Below : (g : Stage) → s.bid.stage ≡ g → Below (100 + auction_rank s.bid) (pass_in g s seat)
  unfolding to_declarer measure
  pass-Below fore_stage e = all_passed-Below
  pass-Below middle_stage e = rw ph (rw e (omega arith))
  pass-Below rear_stage e = elim (Bool-cases (s.bid.value == 0)) [
    | inl unbid ↦ rw unbid (rw ph (rw e (omega arith)))
    | inr called ↦ rw called (omega arith)
  ]

bids-Below :
    (m : Move) (s : State) (seat : ℕ)
    → s.phase ≡ bidding
    → IsAuction s.dealer s.bid
    → Below (100 + auction_rank s.bid) (bid_dispatch m s seat)
bids-Below (bid_move v) s seat ph h = value-Below s seat ph h s.bid.ask v refl
bids-Below hold_move s seat ph h = hold-Below s seat ph h s.bid.ask refl
bids-Below pass_move s seat ph h =
    pass-Below (record s { bid = record (s.bid) { passed = s.bid.passed ++ seat ∷ [] } }) seat ph
      (ground arith) s.bid.stage refl
bids-Below _ s seat ph h = tt

pub bidding-Below :
    (s : State) (a : Action)
    → s.phase ≡ bidding
    → IsAuction s.dealer s.bid
    → Below (100 + auction_rank s.bid) (apply_bid s a)
unfolding apply_bid
bidding-Below s a ph h = elim (Bool-cases (bid_seat s.bid a.seat)) [
  | inl mine ↦ rw mine (bids-Below a.move s a.seat ph h)
  | inr other ↦ rw other tt
]
