-- ===== src/Skat/Valid.antt =====
-- Skat: the well-formedness of a state, phase by phase, and the parts that it is built from.
pub mod Parts
use mathlib.Core.Path.{subst}
use cads_agent_marketplace.Common.{
  All, Option, [], contains, distinct, length, nat_eq, none, some, sym, true, ℕ, ◌%◌, ◌+◌, ◌<◌, ◌≡◌,
  ◌≢◌, ◌≤◌, ◌⊎◌,
}
use cads_agent_marketplace.Skat.Apply.{played}
use cads_agent_marketplace.Skat.Bidding.{Outcome, fail, ok, thrown}
use cads_agent_marketplace.Skat.Cards.{card_eq, is_null, rank_eq, suit_eq}
use cads_agent_marketplace.Skat.State.{
  Auction, Contract, Phase, Stage, State, Trick, ask_answer, ask_bid, ask_nobody, bidding, bids,
  declaring, fore_stage, forehand, middle_stage, middlehand, over, playing, pushing, rear_stage,
  rearhand, rule_eq, showing, skat_open,
}
use cads_agent_marketplace.Skat.Strength.{led_eq}
use cads_agent_marketplace.Skat.Valid.Parts.{Chain, InOrder, IsTaken}

-- The auction with the given dealer: who bids to whom follows the seats.
abbrev pub StageShape : Stage → ℕ → Auction → Type 0
StageShape middle_stage dealer b =
    (b.bidder ≡ middlehand dealer) × (b.holder ≡ some (forehand dealer))
StageShape rear_stage dealer b =
    (b.bidder ≡ rearhand dealer)
    × ((b.holder ≡ some (forehand dealer)) ⊎ (b.holder ≡ some (middlehand dealer)))
StageShape fore_stage dealer b =
    (b.bidder ≡ forehand dealer) × (b.holder ≡ none) × (b.ask ≡ ask_bid) × (b.value ≡ 0)

pub record IsAuction (dealer : ℕ) (b : Auction) : Type 0 where
  pub asked : b.ask ≢ ask_nobody
  pub valued : (b.value ≡ 0) ⊎ (contains bids b.value ≡ true)
  pub answered : b.ask ≡ ask_answer → 0 < b.value
  pub stage_shape : StageShape b.stage dealer b

-- Nothing of the play has happened.
pub record IsUnplayed (s : State) : Type 0 where
  pub no_tricks : s.tricks ≡ []
  pub no_trick : s.trick ≡ none
  pub no_open : s.open_hand ≡ none
  pub no_kontra : s.kontra ≡ 0

-- A seat has won the auction at a value that can be bid.
pub record IsDeclared (declarer : Option ℕ) (value : ℕ) : Type 0 where
  pub seat : ℕ
  pub declarer_eq : declarer ≡ some seat
  pub in_range : seat < 3
  pub bid_value : contains bids value ≡ true

-- The trick `t` is on the table in a game with contract `c`.
pub record IsTable (s : State) (c : Contract) (t : Trick) : Type 0 where
  pub contract_eq : s.contract ≡ some c
  pub trick_eq : s.trick ≡ some t
  pub next_eq : s.next ≡ some ((t.lead + length t.cards) % 3)
  pub few : length t.cards < 3
  pub lead_seat : t.lead < 3
  pub order : InOrder t.lead t.cards
  pub taken : All (IsTaken c.game) s.tricks
  pub chain : Chain (forehand s.dealer) s.tricks t.lead
  pub unfinished : length s.tricks < 10
  pub fresh : distinct (played s) ≡ true

-- The end of a game that was played.
pub record IsFinished (s : State) (c : Contract) : Type 0 where
  pub contract_eq : s.contract ≡ some c
  pub trick_eq : s.trick ≡ none
  pub taken : All (IsTaken c.game) s.tricks
  pub last_lead : ℕ
  pub chain : Chain (forehand s.dealer) s.tricks last_lead
  pub complete : (length s.tricks ≡ 10) ⊎ (is_null c.game ≡ true)
  pub at_most : length s.tricks ≤ 10
  pub fresh : distinct (played s) ≡ true

-- A declarer, or a Ramsch.
abbrev pub HasSides : State → Contract → Type 0
HasSides s c = IsDeclared s.declarer s.bid.value ⊎ (c.ramsch ≡ true)

abbrev pub Shape : Phase → State → Type 0
Shape bidding s = IsAuction s.dealer s.bid × IsUnplayed s
Shape skat_open s = IsDeclared s.declarer s.bid.value × IsUnplayed s
Shape pushing s = IsDeclared s.declarer s.bid.value × IsUnplayed s
Shape declaring s = IsDeclared s.declarer s.bid.value × IsUnplayed s
Shape showing s =
    IsDeclared s.declarer s.bid.value
    × ((c : Contract) × (t : Trick) × (t.cards ≡ []) × IsTable s c t)
Shape playing s = (c : Contract) × (t : Trick) × HasSides s c × IsTable s c t
Shape over s = (s.passed_out ≡ true) ⊎ ((c : Contract) × HasSides s c × IsFinished s c)

abbrev pub IsValid : State → Type 0
IsValid s = (s.dealer < 3) × Shape s.phase s

-- What an accepted action leaves is well-formed, and nothing is thrown.
abbrev pub OutcomeValid : Outcome → Type 0
OutcomeValid (ok t) = IsValid t
OutcomeValid (fail e) = Unit
OutcomeValid thrown = ⊥

-- A state is well-formed by the shape of the phase that it is in.
pub IsValid-in : (t : State) (p : Phase) → t.phase ≡ p → t.dealer < 3 → Shape p t → IsValid t
IsValid-in t p e b h = (b, subst (λ q. Shape q t) (sym e) h)
