-- ===== src/Skat/Invariant/Bids.antt =====
-- Skat: the auction and well-formed states (apps/duell-web/src/skat.js: applyBid).
use mathlib.Core.Path.{subst}
use cads_agent_marketplace.Common.{
  All, Bool-cases, List, Option, [], arith, contains, if◌then◌else◌, inl, inr, leb, nat_beq_iff,
  nat_eq, not, refl, some, true, ℕ, ◌++◌, ◌<◌, ◌==◌, ◌||◌, ◌∷◌, ◌≡◌, ◌≤◌, ◌⊎◌,
}
use cads_agent_marketplace.Skat.Bidding.{
  all_passed, apply_bid, bid_dispatch, bid_seat, hold_asked, is_fore_stage, pass_in,
  ramsch_contract, to_declarer, value_asked,
}
use cads_agent_marketplace.Skat.Cards.{card_eq, rank_eq, suit_eq}
use cads_agent_marketplace.Skat.Invariant.Table.{opening-IsTable}
use cads_agent_marketplace.Skat.State.{
  Action, Ask, Auction, Move, Stage, State, ask_answer, ask_bid, bid_move, bidding, bids,
  fore_stage, forehand, has, hold_move, middle_stage, middlehand, pass_move, ramsch_rule,
  rear_stage, rule_eq,
}
use cads_agent_marketplace.Skat.Strength.{led_eq}
use cads_agent_marketplace.Skat.Valid.{IsAuction, IsUnplayed, IsValid-in, OutcomeValid, Shape}

-- Every value that can be bid lies between 18 and 264.
pub bids_range : All (λ v. (18 ≤ v) × (v ≤ 264)) bids
unfolding bids
bids_range = omega arith

pub All-contains {ℓ} :
    (P : ℕ → Type ℓ) (xs : List ℕ) (v : ℕ) → All P xs → contains xs v ≡ true → P v
All-contains P [] v h e = cc
All-contains P (x ∷ xs) v h e = elim (Bool-cases (x == v)) [
  | inl same ↦ subst P ((nat_beq_iff x v).0 same) h.0
  | inr other ↦ All-contains P xs v h.1 (ground arith)
]

pub bid_range : (v : ℕ) → contains bids v ≡ true → (18 ≤ v) × (v ≤ 264)
bid_range v h = All-contains _ bids v bids_range h

pub bid_minimum : contains bids 18 ≡ true
unfolding bids
bid_minimum = refl

-- Whoever is asked is one of the three seats.
pub asked-seat :
    (dealer : ℕ) (b : Auction) (seat : ℕ)
    → dealer < 3
    → IsAuction dealer b
    → bid_seat b seat ≡ true
    → seat < 3
unfolding bid_seat
asked-seat dealer b seat d h e = ground arith

-- The seat that is left over when one of the two passes.
abbrev survivor : Auction → ℕ → Option ℕ
survivor b seat = if seat == b.bidder then b.holder else some b.bidder

-- In the second round the holder is Forehand or Middlehand.
rear-holder :
    (dealer : ℕ) (b : Auction)
    → b.stage ≡ rear_stage
    → dealer < 3
    → IsAuction dealer b
    → (w : ℕ) × (b.holder ≡ some w) × (w < 3)
rear-holder dealer b e d h = elim (rear_cases h) [
  | inl p ↦ (forehand dealer, p, omega arith)
  | inr p ↦ (middlehand dealer, p, omega arith)
]
  where
    rear_cases :
        IsAuction dealer b
        → (b.holder ≡ some (forehand dealer)) ⊎ (b.holder ≡ some (middlehand dealer))
    rear_cases k = ground arith

rear-survivor :
    (dealer : ℕ) (b : Auction) (seat : ℕ)
    → b.stage ≡ rear_stage
    → dealer < 3
    → IsAuction dealer b
    → bid_seat b seat ≡ true
    → (w : ℕ) × (survivor b seat ≡ some w) × (w < 3)
unfolding bid_seat
rear-survivor dealer b seat e d h mine = elim (Bool-cases (seat == b.bidder)) [
  | inl bids_on ↦ rw bids_on (rear-holder dealer b e d h)
  | inr holds_on ↦ (b.bidder, ground arith, ground arith)
]

middle-survivor :
    (dealer : ℕ) (b : Auction) (seat : ℕ)
    → b.stage ≡ middle_stage
    → IsAuction dealer b
    → (survivor b seat ≡ some (forehand dealer)) ⊎ (survivor b seat ≡ some (middlehand dealer))
middle-survivor dealer b seat e h = ground arith

module _ (s : State) (seat : ℕ) (ph : s.phase ≡ bidding) (b : s.dealer < 3)
    (h : IsAuction s.dealer s.bid) (u : IsUnplayed s) (mine : bid_seat s.bid seat ≡ true) where
  value-Valid : (k : Ask) (v : ℕ) → s.bid.ask ≡ k → OutcomeValid (value_asked k s seat v)
  unfolding to_declarer
  value-Valid ask_bid v e = elim (Bool-cases (not (contains bids v) || leb v s.bid.value)) [
    | inl low ↦ rw low tt
    | inr higher ↦ rw higher (elim (Bool-cases (is_fore_stage s.bid.stage)) [
      | inl fore ↦ rw fore (elim (Bool-cases (not (v == 18))) [
        | inl bad ↦ rw bad tt
        | inr opens ↦ rw opens (
          b,
          (
            record {
              seat = seat;
              declarer_eq = refl;
              in_range = asked-seat s.dealer s.bid seat b h mine;
              bid_value = bid_minimum;
            },
            ground arith,
          ),
        )
      ])
      | inr two ↦ rw two (IsValid-in _ bidding ph b (ground (arith, bid_range v), ground arith))
    ])
  ]
  value-Valid _ v e = tt

  hold-Valid : (k : Ask) → s.bid.ask ≡ k → OutcomeValid (hold_asked k s)
  hold-Valid ask_answer e = IsValid-in _ bidding ph b (ground arith, ground arith)
  hold-Valid _ e = tt

  all_passed-Valid : OutcomeValid (all_passed s)
  all_passed-Valid = elim (Bool-cases (not (has s ramsch_rule))) [
    | inl thrown_in ↦ rw thrown_in (b, inl refl)
    | inr plays ↦ rw plays (
      b,
      (
        ramsch_contract,
        record { lead = forehand s.dealer; cards = [] },
        inr refl,
        opening-IsTable _ ramsch_contract b (ground arith) refl refl refl,
      ),
    )
  ]

  pass-Valid : (g : Stage) → s.bid.stage ≡ g → OutcomeValid (pass_in g s seat)
  unfolding to_declarer
  pass-Valid fore_stage e = all_passed-Valid
  pass-Valid middle_stage e =
      IsValid-in _ bidding ph b (ground (arith, middle-survivor s.dealer s.bid seat), ground arith)
  pass-Valid rear_stage e = elim (Bool-cases (s.bid.value == 0)) [
    | inl unbid ↦ rw unbid (IsValid-in _ bidding ph b (ground arith, ground arith))
    | inr called ↦
        let (w, is_left, in_range) = rear-survivor s.dealer s.bid seat e b h mine in
        rw called (
          b,
          (
            record {
              seat = w;
              declarer_eq = is_left;
              in_range = in_range;
              bid_value = ground arith;
            },
            ground arith,
          ),
        )
  ]

dispatch-Valid :
    (m : Move) (s : State) (seat : ℕ)
    → s.phase ≡ bidding
    → s.dealer < 3
    → IsAuction s.dealer s.bid
    → IsUnplayed s
    → bid_seat s.bid seat ≡ true
    → OutcomeValid (bid_dispatch m s seat)
unfolding bid_seat
dispatch-Valid (bid_move v) s seat ph b h u e = value-Valid s seat ph b h u e s.bid.ask v refl
dispatch-Valid hold_move s seat ph b h u e = hold-Valid s seat ph b h u e s.bid.ask refl
dispatch-Valid pass_move s seat ph b h u e =
    pass-Valid (record s { bid = record (s.bid) { passed = s.bid.passed ++ seat ∷ [] } }) seat ph b
      (ground arith) (ground arith) e s.bid.stage refl
dispatch-Valid _ s seat ph b h u e = tt

-- A bid, an answer or a pass in the auction leaves a well-formed state, and nothing is thrown.
pub bidding-Valid :
    (s : State) (a : Action)
    → s.phase ≡ bidding
    → s.dealer < 3
    → Shape bidding s
    → OutcomeValid (apply_bid s a)
unfolding apply_bid
bidding-Valid s a ph b (h, u) = elim (Bool-cases (bid_seat s.bid a.seat)) [
  | inl mine ↦ rw mine (dispatch-Valid a.move s a.seat ph b h u mine)
  | inr other ↦ rw other tt
]
