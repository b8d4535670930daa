-- ===== src/Skat/Bidding.antt =====
-- Skat: one step of the auction (apps/duell-web/src/skat.js: bidSeat, toDeclarer, applyBid).
use cads_agent_marketplace.Common.{
  Bool, Option, [], contains, false, if◌then◌else◌, leb, nat_eq, none, not, some, true, ℕ, ◌++◌,
  ◌==◌, ◌||◌, ◌∷◌,
}
use cads_agent_marketplace.Skat.Cards.{card_eq, grand, rank_eq, suit_eq}
use cads_agent_marketplace.Skat.State.{
  Action, Ask, Auction, Contract, Move, Stage, State, ask_answer, ask_bid, ask_nobody, bid_move,
  bids, fore_stage, forehand, has, hold_move, is_seat, middle_stage, over, pass_move, playing,
  ramsch_rule, rear_stage, rearhand, rule_eq, skat_open,
}
use cads_agent_marketplace.Skat.Strength.{led_eq}

-- The reasons that a refused action carries.
pub data Reason : Type 0 where
  action done_already turn_reason phase_reason value_reason game_reason hand_reason null_reason :
      Reason
  overbid_reason schwarz_reason ouvert_reason kontra_reason cards_reason : Reason
  card_reason twice_reason open_reason : Reason

-- `thrown` is a JavaScript exception, such as a field of null that is read.
pub data Outcome : Type 0 where
  ok : State → Outcome
  fail : Reason → Outcome
  thrown : Outcome

-- `bidSeat`
unfoldable pub bid_seat : Auction → ℕ → Bool
bid_seat b seat = elim b.ask [ ask_bid ↦ b.bidder == seat | _ ↦ is_seat b.holder seat ]

-- `toDeclarer`
unfoldable pub to_declarer : State → Option ℕ → State
to_declarer s seat =
    let b = s.bid in
    record s {
      declarer = seat;
      phase = skat_open;
      bid = record b { ask = ask_nobody; value = if b.value == 0 then 18 else b.value };
    }

-- The contract of a Ramsch.
abbrev pub ramsch_contract : Contract
ramsch_contract = record {
  game = grand;
  hand = true;
  schneider = false;
  schwarz = false;
  ouvert = false;
  ramsch = true;
}

abbrev pub is_fore_stage : Stage → Bool
is_fore_stage fore_stage = true
is_fore_stage middle_stage = false
is_fore_stage rear_stage = false

abbrev pub value_asked : Ask → State → ℕ → ℕ → Outcome
value_asked ask_bid s seat v =
    let b = s.bid in
    if not (contains bids v) || leb v b.value
    then fail value_reason
    else if is_fore_stage b.stage
    then if not (v == 18)
      then fail value_reason
      else ok (to_declarer (record s { bid = record b { value = 18 } }) (some seat))
    else ok (record s { bid = record b { value = v; last = some seat; ask = ask_answer } })
value_asked _ s seat v = fail phase_reason

abbrev pub hold_asked : Ask → State → Outcome
hold_asked ask_answer s = let b = s.bid in ok (record s { bid = record b { ask = ask_bid } })
hold_asked _ s = fail phase_reason

-- Everybody has passed: thrown in, or a Ramsch where the table plays it.
abbrev pub all_passed : State → Outcome
all_passed s =
    let b = s.bid in
    let t = record s { bid = record b { ask = ask_nobody } } in
    let lead = forehand s.dealer in
    if not (has s ramsch_rule)
    then ok (record t { phase = over; passed_out = true })
    else ok (record t {
      phase = playing;
      contract = some ramsch_contract;
      next = some lead;
      trick = some (record { lead = lead; cards = [] });
    })

abbrev pub pass_in : Stage → State → ℕ → Outcome
pass_in fore_stage s seat = all_passed s
pass_in middle_stage s seat =
    let b = s.bid in
    let survivor = if seat == b.bidder then b.holder else some b.bidder in
    ok (record s {
      bid = record b {
        stage = rear_stage;
        bidder = rearhand s.dealer;
        holder = survivor;
        ask = ask_bid;
      };
    })
pass_in rear_stage s seat =
    let b = s.bid in
    let survivor = if seat == b.bidder then b.holder else some b.bidder in
    if b.value == 0
    then ok (record s {
      bid = record b {
        stage = fore_stage;
        bidder = forehand s.dealer;
        holder = none;
        ask = ask_bid;
      };
    })
    else ok (to_declarer s survivor)

abbrev pub apply_pass : State → ℕ → Outcome
apply_pass s seat =
    let b = s.bid in
    pass_in b.stage (record s { bid = record b { passed = b.passed ++ seat ∷ [] } }) seat

abbrev pub bid_dispatch : Move → State → ℕ → Outcome
bid_dispatch (bid_move v) s seat = value_asked s.bid.ask s seat v
bid_dispatch hold_move s seat = hold_asked s.bid.ask s
bid_dispatch pass_move s seat = apply_pass s seat
bid_dispatch _ s seat = fail action

-- `applyBid`
unfoldable pub apply_bid : State → Action → Outcome
unfolding bid_seat to_declarer
apply_bid s a =
    if not (bid_seat s.bid a.seat) then fail turn_reason else bid_dispatch a.move s a.seat
