-- ===== src/Skat/Legal/Offers.antt =====
-- Skat: the offers of the auction and of the announcement.
use mathlib.Core.Path.{subst}
use cads_agent_marketplace.Common.{
  All, All-append, All-filter, All-if, All-map, Bool, Bool-cases, [], arith, contains, false, inl,
  inr, leb, ltb, nat_eq, not, refl, some, sym, true, ℕ, ◌&&◌, ◌++◌, ◌==◌, ◌||◌, ◌∷◌, ◌≡◌, ◌≢◌,
}
use cads_agent_marketplace.Skat.Apply.{apply_declare, phase_dispatch}
use cads_agent_marketplace.Skat.Bidding.{
  Outcome, apply_bid, bid_seat, fail, hold_asked, is_fore_stage, ok, pass_in, thrown, value_asked,
}
use cads_agent_marketplace.Skat.Cards.{
  Game, card_eq, clubs, diamonds, grand, hearts, is_null, rank_eq, spades, suit_eq, suit_game,
}
use cads_agent_marketplace.Skat.Contract.{
  bool_beq, check_contract, declare_options, null_option, null_value, options_for,
}
use cads_agent_marketplace.Skat.Moves.{act, asked_moves, bid_moves, open_bids}
use cads_agent_marketplace.Skat.State.{
  Ask, Move, Phase, Stage, State, ask_answer, ask_bid, ask_nobody, bid_move, bidding, bids,
  declare_move, fore_stage, has, middle_stage, pass_move, ramsch_rule, rear_stage, rule_eq,
}
use cads_agent_marketplace.Skat.Strength.{led_eq}
use cads_agent_marketplace.Skat.Valid.{IsAuction}

abbrev pub IsOk : Outcome → Type 0
IsOk (ok t) = Unit
IsOk (fail e) = ⊥
IsOk thrown = ⊥

-- A move is accepted in phase `p`.
abbrev pub Takes : Phase → State → ℕ → Move → Type 0
Takes p s seat m = IsOk (phase_dispatch p s (act seat m))

pass-IsOk : (g : Stage) (s : State) (seat : ℕ) → IsOk (pass_in g s seat)
pass-IsOk middle_stage s seat = tt
pass-IsOk fore_stage s seat = elim (Bool-cases (not (has s ramsch_rule))) [
  | inl out ↦ rw out tt
  | inr plays ↦ rw plays tt
]
pass-IsOk rear_stage s seat = elim (Bool-cases (s.bid.value == 0)) [
  | inl unbid ↦ rw unbid tt
  | inr called ↦ rw called tt
]

value-IsOk :
    (s : State) (seat v : ℕ)
    → contains bids v ≡ true
    → (ltb s.bid.value v && (not (is_fore_stage s.bid.stage) || v == 18)) ≡ true
    → IsOk (value_asked ask_bid s seat v)
value-IsOk s seat v c h =
    let low : (not (contains bids v) || leb v s.bid.value) ≡ false = ground arith in
    rw low (elim (Bool-cases (is_fore_stage s.bid.stage)) [
      | inl fore ↦ let opens : not (v == 18) ≡ false = ground arith in rw (fore, opens) tt
      | inr two ↦ rw two tt
    ])

module _ (s : State) (seat : ℕ) (mine : bid_seat s.bid seat ≡ true) where
  asked-Takes :
      (k : Ask) → s.bid.ask ≡ k → k ≢ ask_nobody → All (Takes bidding s seat) (asked_moves k s.bid)
  unfolding apply_bid open_bids
  asked-Takes ask_nobody e n = absurd (n refl)
  asked-Takes ask_answer e n = (rw mine (subst (λ k. IsOk (hold_asked k s)) (sym e) tt), tt)
  asked-Takes ask_bid e n = All-map (Takes bidding s seat) bid_move (open_bids s.bid) (
      All-filter _ _ bids bids
        (λ v c h.
          rw mine (subst (λ k. IsOk (value_asked k s seat v)) (sym e) (value-IsOk s seat v c h)))
        (λ v c. c))

  pub pass-Takes : Takes bidding s seat pass_move
  unfolding apply_bid
  pass-Takes = rw mine (pass-IsOk s.bid.stage _ seat)

-- What is offered in the auction is accepted.
pub bid_moves-Takes :
    (s : State) (seat : ℕ)
    → IsAuction s.dealer s.bid
    → All (Takes bidding s seat) (bid_moves s seat)
unfolding bid_moves
bid_moves-Takes s seat h =
    All-if (Takes bidding s seat) (bid_seat s.bid seat)
      (asked_moves s.bid.ask s.bid ++ pass_move ∷ [])
      λ mine.
        All-append (Takes bidding s seat) (asked_moves s.bid.ask s.bid) (pass_move ∷ [])
          (asked-Takes s seat mine s.bid.ask refl h.asked) (pass-Takes s seat mine, tt)

-- An announcement is accepted.
abbrev pub Announces : State → Move → Type 0
Announces s (declare_move g hand schneider schwarz ouvert) =
    IsOk (apply_declare s g hand schneider schwarz ouvert)
Announces s _ = ⊥

pub check-none :
    (s : State) (g : Game) (hand schneider schwarz ouvert : Bool)
    → bool_beq hand s.picked_up ≡ false
    → is_null g ≡ false
    → ((schneider || schwarz || ouvert) && not hand) ≡ false
    → (schwarz && not schneider) ≡ false
    → (ouvert && not schwarz) ≡ false
    → IsOk (apply_declare s (some g) hand schneider schwarz ouvert)
unfolding check_contract
check-none s g hand schneider schwarz ouvert a b c d e = rw (a, b, c, d, e) tt

options-Announces :
    (s : State) (g : Game) → is_null g ≡ false → All (Announces s) (options_for (not s.picked_up) g)
options-Announces s g h = (
  check-none s g (not s.picked_up) false false false (ground arith) h refl refl refl,
  All-if (Announces s) (not s.picked_up) _ λ down. (
    check-none s g true true false false (ground arith) h refl refl refl,
    (
      check-none s g true true true false (ground arith) h refl refl refl,
      (check-none s g true true true true (ground arith) h refl refl refl, tt),
    ),
  ),
)

null_option-Announces :
    (s : State) (ouvert : Bool) → All (Announces s) (null_option s (not s.picked_up) ouvert)
unfolding check_contract
null_option-Announces s ouvert =
    All-if (Announces s) (leb s.bid.value (null_value (not s.picked_up) ouvert)) _ λ enough.
      let hand : bool_beq (not s.picked_up) s.picked_up ≡ false = ground arith in
      let covers : ltb (null_value (not s.picked_up) ouvert) s.bid.value ≡ false = ground arith in
      (rw (hand, covers) tt, tt)

-- What is offered for the announcement is accepted.
pub declare_options-Announces : (s : State) → All (Announces s) (declare_options s)
unfolding declare_options
declare_options-Announces s =
    let P = Announces s in
    let o = options_for (not s.picked_up) in
    let n = null_option s (not s.picked_up) in
    let l_grand = o grand ++ (n false ++ n true) in
    let l_d = o (suit_game diamonds) ++ l_grand in
    let l_h = o (suit_game hearts) ++ l_d in
    let l_s = o (suit_game spades) ++ l_h in
    All-append P (o (suit_game clubs)) l_s (options-Announces s (suit_game clubs) refl) (
      All-append P (o (suit_game spades)) l_h (options-Announces s (suit_game spades) refl) (
        All-append P (o (suit_game hearts)) l_d (options-Announces s (suit_game hearts) refl) (
          All-append P (o (suit_game diamonds)) l_grand
            (options-Announces s (suit_game diamonds) refl)
            (All-append P (o grand) (n false ++ n true) (options-Announces s grand refl) (
              All-append P (n false) (n true) (null_option-Announces s false)
                (null_option-Announces s true))))))
