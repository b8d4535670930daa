-- ===== src/Skat/Auto.antt =====
-- Skat: the move for an absent player, as `apply` sees it (apps/duell-web/src/skat.js: auto, apply).
use mathlib.Core.Path.{subst}
use cads_agent_marketplace.Common.{
  &&-left, Bool-cases, List, Option, [], any, any-witness, ap, arith, beq_self, contains,
  contains-filter, false, filter, inl, inr, map, nat_eq, none, not, refl, some, sym, true, ℕ, ◌==◌,
  ◌||◌, ◌∙◌, ◌∷◌, ◌≡◌,
}
use cads_agent_marketplace.Skat.Apply.{apply, apply_declare, show_checked, table_cards}
use cads_agent_marketplace.Skat.Bidding.{Reason, bid_seat}
use cads_agent_marketplace.Skat.Cards.{Card, Game, Suit, card_eq, rank_eq, suit_eq, suit_game}
use cads_agent_marketplace.Skat.Contract.{bool_beq, check_contract}
use cads_agent_marketplace.Skat.Invariant.{is_seat-eq}
use cads_agent_marketplace.Skat.Legal.{on_turn-IsOk, play-IsOk}
use cads_agent_marketplace.Skat.Legal.Hand.{Holds, may_play-contains, shown-hand}
use cads_agent_marketplace.Skat.Legal.Offers.{IsOk, Takes, check-none, pass-Takes}
use cads_agent_marketplace.Skat.Moves.{
  Key, act, auto, auto_declare, auto_in, auto_play, first_play, insert_by, key_less, longest,
  play_key, play_of, sort_by,
}
use cads_agent_marketplace.Skat.State.{
  Ask, Contract, Move, Phase, State, Trick, ask_answer, ask_bid, ask_nobody, bidding, declare_move,
  declaring, is_seat, over, pass_move, playing, push_move, pushing, rule_eq, show_move, showing,
  skat_open, turn, turn_in,
}
use cads_agent_marketplace.Skat.Strength.{Play, led_eq, may_play, suit_of}
use cads_agent_marketplace.Skat.Valid.{IsTable, IsValid, Shape}

-- Sorting keeps the members.
contains-insert_by :
    (key : Card → Key) (c : Card) (ds : List Card) (x : Card)
    → contains (insert_by key c ds) x ≡ (c == x || contains ds x)
unfolding insert_by
contains-insert_by key c [] x = refl
contains-insert_by key c (d ∷ ds) x = elim (Bool-cases (key_less (key d) (key c))) [
  | inl later ↦ rw later (ground (arith, contains-insert_by key c ds x))
  | inr now ↦ rw now refl
]

pub contains-sort_by :
    (key : Card → Key) (cs : List Card) (x : Card) → contains (sort_by key cs) x ≡ contains cs x
unfolding sort_by
contains-sort_by key [] x = refl
contains-sort_by key (c ∷ cs) x =
    contains-insert_by key c (sort_by key cs) x ∙ ap (λ b. c == x || b) (contains-sort_by key cs x)

-- A seat that holds a card always holds one that follows suit.
may_play-some :
    (g : Game) (c : Card) (cs : List Card) (table : List Play)
    → (d : Card) × (may_play g (c ∷ cs) d table ≡ true)
unfolding may_play
may_play-some g c cs [] = (c, ground (arith, beq_self c))
may_play-some g c cs (x ∷ table) =
    let led = suit_of g x.card in
    elim (Bool-cases (any (λ d. suit_of g d == led) (c ∷ cs))) [
      | inl follows ↦
          let (d, held, same) = any-witness (λ d. suit_of g d == led) (c ∷ cs) follows in
          (d, rw (held, same))
      | inr free ↦ (c, rw (beq_self c, free) (ground arith))
    ]

first_play-some :
    (cs : List Card) (d : Card)
    → contains cs d ≡ true
    → (c : Card) × (first_play cs ≡ some (play_of c)) × (contains cs c ≡ true)
first_play-some [] d h = cc
first_play-some (c ∷ cs) d h = (c, refl, ground (arith, beq_self c))

-- The card that is played for the seat follows suit.
auto_play-some :
    (k : Contract) (s : State) (c : Card) (cs : List Card)
    → (d : Card) × (auto_play (some k) s (c ∷ cs) ≡ some (play_of d))
      × (may_play k.game (c ∷ cs) d (table_cards s.trick) ≡ true)
unfolding auto_play
auto_play-some k s c cs =
    let hand = c ∷ cs in
    let fits = λ (x : Card). may_play k.game hand x (table_cards s.trick) in
    let key = play_key k.game (table_cards s.trick) in
    let (d, m) = may_play-some k.game c cs (table_cards s.trick) in
    let there : contains (sort_by key (filter fits hand)) d ≡ true =
      contains-sort_by key (filter fits hand) d
      ∙ (contains-filter fits hand d
          ∙ ground (arith, m, may_play-contains k.game hand d (table_cards s.trick) m)) in
    let (e, first, inside) = first_play-some (sort_by key (filter fits hand)) d there in
    (
      e,
      first,
      &&-left _ _ (
          sym (contains-filter fits hand e)
          ∙ (sym (contains-sort_by key (filter fits hand) e) ∙ inside)),
    )

-- What a seat that is asked holds when cards are played: it is never empty there.
abbrev pub HasCards : List Card → Type 0
HasCards [] = ⊥
HasCards (c ∷ cs) = Unit

-- A move for the seat that `auto_in` names, and that phase `p` accepts.
abbrev pub Stands : Phase → State → ℕ → List Card → Type 0
Stands p s seat hand = (m : Move) × (auto_in p s hand ≡ some m) × Takes p s seat m

bid_seat-turn_in :
    (k : Ask) (s : State) (seat : ℕ)
    → is_seat (elim k [ ask_bid ↦ some s.bid.bidder | _ ↦ s.bid.holder ]) seat ≡ true
    → elim k [ ask_bid ↦ s.bid.bidder == seat | _ ↦ is_seat s.bid.holder seat ] ≡ true
bid_seat-turn_in ask_bid s seat mine = mine
bid_seat-turn_in ask_answer s seat mine = mine
bid_seat-turn_in ask_nobody s seat mine = mine

bid_seat-turn :
    (s : State) (seat : ℕ) → is_seat (turn_in bidding s) seat ≡ true → bid_seat s.bid seat ≡ true
unfolding bid_seat
bid_seat-turn s seat mine = bid_seat-turn_in s.bid.ask s seat mine

auto_bid-Stands :
    (s : State) (seat : ℕ) (hand : List Card)
    → is_seat (turn_in bidding s) seat ≡ true
    → Stands bidding s seat hand
auto_bid-Stands s seat hand mine = (pass_move, refl, pass-Takes s seat (bid_seat-turn s seat mine))

suit-announced :
    (s : State) (u : Suit)
    → check_contract s (some (suit_game u)) (not s.picked_up) false false false ≡ none
unfolding check_contract
suit-announced s u =
    let differs : bool_beq (not s.picked_up) s.picked_up ≡ false = ground arith in rw differs refl

auto_declare-some :
    (s : State) (hand : List Card)
    → auto_declare s hand
      ≡ some (declare_move (some (suit_game (longest hand))) (not s.picked_up) false false false)
auto_declare-some s hand =
    subst
      (λ (r : Option Reason).
        elim r [
          | none ↦
              some
                (declare_move (some (suit_game (longest hand))) (not s.picked_up) false false false)
          | some e ↦ none
        ]
        ≡ some (declare_move (some (suit_game (longest hand))) (not s.picked_up) false false false))
      (sym (suit-announced s (longest hand))) refl

announced-IsOk :
    (s : State) (u : Suit)
    → IsOk (apply_declare s (some (suit_game u)) (not s.picked_up) false false false)
announced-IsOk s u =
    check-none s (suit_game u) (not s.picked_up) false false false (ground arith) refl refl refl
      refl

auto_play-Stands :
    (s : State) (k : Contract) (t : Trick) (seat : ℕ) (hand : List Card)
    → s.phase ≡ playing
    → IsTable s k t
    → Holds s seat hand
    → HasCards hand
    → is_seat s.next seat ≡ true
    → Stands playing s seat hand
auto_play-Stands s k t seat [] ph table h full mine = absurd full
auto_play-Stands s k t seat (c ∷ cs) ph table h full mine =
    let (d, chosen, follows) = auto_play-some k s c cs in
    (
      play_of d,
      subst (λ q. auto_play q s (c ∷ cs) ≡ some (play_of d)) (sym table.contract_eq) chosen,
      on_turn-IsOk playing (play_of d) s seat ph mine
          (play-IsOk s k t seat (c ∷ cs) d table h (is_seat-eq s.next seat mine) follows),
    )

auto-Stands :
    (p : Phase) (s : State) (seat : ℕ) (hand : List Card)
    → s.phase ≡ p
    → Shape p s
    → Holds s seat hand
    → HasCards hand
    → is_seat (turn_in p s) seat ≡ true
    → Stands p s seat hand
auto-Stands bidding s seat hand ph v h full mine = auto_bid-Stands s seat hand mine
auto-Stands skat_open s seat hand ph v h full mine = (
  _,
  auto_declare-some s hand,
  on_turn-IsOk skat_open _ s seat ph mine (announced-IsOk s (longest hand)),
)
auto-Stands pushing s seat hand ph v h full mine =
    (push_move, refl, on_turn-IsOk pushing push_move s seat ph mine tt)
auto-Stands declaring s seat hand ph v h full mine = (
  _,
  auto_declare-some s hand,
  on_turn-IsOk declaring _ s seat ph mine (announced-IsOk s (longest hand)),
)
auto-Stands showing s seat hand ph v h full mine =
    let (size, differ) = h.ten ph in
    (
      show_move (some (map some hand)),
      refl,
      on_turn-IsOk showing _ s seat ph mine
          (subst (λ o. IsOk (show_checked o s)) (sym (shown-hand hand size differ h.known)) tt),
    )
auto-Stands playing s seat hand ph (k, t, sides, table) h full mine =
    auto_play-Stands s k t seat hand ph table h full mine
auto-Stands over s seat hand ph v h full mine = absurd (ground arith)

-- In a well-formed state, `auto` has a move for the seat whose turn it is, and `apply` accepts that
-- move. The seat's hand is not empty and holds cards of the deck that have not been played, fits an
-- open hand, and has ten cards where it is to be laid open.
pub auto-IsOk :
    (s : State) (seat : ℕ) (hand : List Card)
    → IsValid s
    → Holds s seat hand
    → HasCards hand
    → is_seat (turn s) seat ≡ true
    → (m : Move) × (auto s seat (some hand) ≡ some m) × IsOk (apply s (some (act seat m)))
unfolding auto turn apply
auto-IsOk s seat hand (b, v) h full mine =
    let (m, chosen, taken) = auto-Stands s.phase s seat hand refl v h full mine in
    (m, rw mine chosen, taken)
