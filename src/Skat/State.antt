-- ===== src/Skat/State.antt =====
-- Skat: the public state of a game, the actions, and whose move it is
-- (apps/duell-web/src/skat.js: BIDS, rules, has, start, turn, done).
use cads_agent_marketplace.Common.{
  Bool, Eq, List, Option, [], arith, contains, false, filter, if◌then◌else◌, ltb, nat_eq, none,
  some, suc, true, zero, ℕ, ◌%◌, ◌*◌, ◌++◌, ◌+◌, ◌==◌, ◌↔◌, ◌∷◌, ◌≡◌,
}
use cads_agent_marketplace.Skat.Cards.{Card, Game, card_eq, rank_eq, suit_eq}
use cads_agent_marketplace.Skat.Strength.{Play, led_eq}

-- The house rules that the table may switch on.
pub data Rule : Type 0 where
  ramsch_rule kontra_rule : Rule

abbrev pub rule_beq : Rule → Rule → Bool
rule_beq ramsch_rule ramsch_rule = true
rule_beq ramsch_rule kontra_rule = false
rule_beq kontra_rule ramsch_rule = false
rule_beq kontra_rule kontra_rule = true

pub rule_beq_iff : (r q : Rule) → (rule_beq r q ≡ true) ↔ (r ≡ q)
rule_beq_iff r q = ground arith

instance abbrev pub rule_eq : Eq Rule
rule_eq = record { beq = rule_beq; beq_iff = rule_beq_iff }

-- `rules`: the known rules among those asked for, in the order of `RULES`.
unfoldable pub rules : List Rule → List Rule
rules r = filter (λ k. contains r k) (ramsch_rule ∷ kontra_rule ∷ [])

pub data Phase : Type 0 where
  bidding skat_open pushing declaring showing playing over : Phase

-- Who is asked in the auction: "bid", "answer" or nobody (null).
pub data Ask : Type 0 where
  ask_bid ask_answer ask_nobody : Ask

-- Middlehand bids to Forehand, Rearhand bids to the survivor, Forehand decides alone.
pub data Stage : Type 0 where
  middle_stage rear_stage fore_stage : Stage

-- Seats are 0, 1, 2. Where the source writes -1 for no seat, this is `none`.
pub record Auction : Type 0 where
  pub value : ℕ
  pub bidder : ℕ
  pub holder : Option ℕ
  pub ask : Ask
  pub stage : Stage
  pub passed : List ℕ
  pub last : Option ℕ

pub record Contract : Type 0 where
  pub game : Game
  pub hand : Bool
  pub schneider : Bool
  pub schwarz : Bool
  pub ouvert : Bool
  pub ramsch : Bool

pub record Trick : Type 0 where
  pub lead : ℕ
  pub cards : List Play

-- A trick that is complete, with the seat that took it.
pub record Taken : Type 0 where
  pub lead : ℕ
  pub cards : List Play
  pub winner : ℕ

pub record State : Type 0 where
  pub house : List Rule
  pub kontra : ℕ
  pub dealer : ℕ
  pub phase : Phase
  pub bid : Auction
  pub declarer : Option ℕ
  pub picked_up : Bool
  pub pushed : Bool
  pub contract : Option Contract
  pub open_hand : Option (List Card)
  pub trick : Option Trick
  pub tricks : List Taken
  pub next : Option ℕ
  pub passed_out : Bool

-- What a message asks for. A field that is no game, no list, or no card of the deck is `none`;
-- a value that is no natural number is 0, which is no bid either.
pub data Move : Type 0 where
  bid_move : ℕ → Move
  hold_move pass_move kontra_move re_move pickup_move push_move : Move
  declare_move : Option Game → Bool → Bool → Bool → Bool → Move
  show_move : Option (List (Option Card)) → Move
  play_move : Option Card → Move
  other_move : Move

pub record Action : Type 0 where
  pub seat : ℕ
  pub move : Move

abbrev pub seats : ℕ
seats = 3

abbrev pub hand_size : ℕ
hand_size = 10

abbrev pub forehand : ℕ → ℕ
forehand dealer = (dealer + 1) % 3

abbrev pub middlehand : ℕ → ℕ
middlehand dealer = (dealer + 2) % 3

abbrev pub rearhand : ℕ → ℕ
rearhand dealer = dealer

-- `has`
unfoldable pub has : State → Rule → Bool
has s k = contains s.house k

-- The keys of a JavaScript object that are numbers come in ascending order, each once.
abbrev pub insert_key : ℕ → List ℕ → List ℕ
insert_key v [] = v ∷ []
insert_key v (w ∷ ws) =
    if ltb v w then v ∷ w ∷ ws else if v == w then w ∷ ws else w ∷ insert_key v ws

abbrev pub keys : List ℕ → List ℕ
keys [] = []
keys (v ∷ vs) = insert_key v (keys vs)

-- base * m for m from `m` on, `n` values.
abbrev pub multiples : ℕ → ℕ → ℕ → List ℕ
multiples base m zero = []
multiples base m (suc n) = base * m ∷ multiples base (suc m) n

-- `NULL`: the four values of a Null.
abbrev pub null_plain : ℕ
null_plain = 23

abbrev pub null_hand : ℕ
null_hand = 35

abbrev pub null_ouvert : ℕ
null_ouvert = 46

abbrev pub null_ouvert_hand : ℕ
null_ouvert_hand = 59

-- `BIDS`
unfoldable pub bids : List ℕ
bids = keys (
    multiples 9 2 17
    ++ (multiples 10 2 17
        ++ (multiples 11 2 17
            ++ (multiples 12 2 17
                ++ (multiples 24 2 10
                    ++ (null_plain ∷ null_hand ∷ null_ouvert ∷ null_ouvert_hand ∷ []))))))

-- `start`: a dealer that is no number is seat 0.
unfoldable pub start : List Rule → Option ℕ → State
unfolding rules
start house dealer_opt =
    let dealer : ℕ = elim dealer_opt [ none ↦ 0 | some d ↦ (d % 3 + 3) % 3 ] in
    record {
      house = rules house;
      kontra = 0;
      dealer = dealer;
      phase = bidding;
      bid = record {
        value = 0;
        bidder = middlehand dealer;
        holder = some (forehand dealer);
        ask = ask_bid;
        stage = middle_stage;
        passed = [];
        last = none;
      };
      declarer = none;
      picked_up = false;
      pushed = false;
      contract = none;
      open_hand = none;
      trick = none;
      tricks = [];
      next = none;
      passed_out = false;
    }

-- `turn`: `none` where the source answers -1.
abbrev pub turn_in : Phase → State → Option ℕ
turn_in bidding s = elim s.bid.ask [ ask_bid ↦ some s.bid.bidder | _ ↦ s.bid.holder ]
turn_in playing s = s.next
turn_in over s = none
turn_in _ s = s.declarer

unfoldable pub turn : State → Option ℕ
turn s = turn_in s.phase s

unfoldable pub done : State → Bool
done s = elim s.phase [ over ↦ true | _ ↦ false ]

-- `seat === x` where x may be -1
abbrev pub is_seat : Option ℕ → ℕ → Bool
is_seat none seat = false
is_seat (some x) seat = x == seat
