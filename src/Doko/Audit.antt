-- ===== src/Doko/Audit.antt =====
-- Doppelkopf: was everything as claimed? (apps/duell-web/src/doko.js: SUITS, RANKS, DECK, audit).
use cads_agent_marketplace.Common.{
  Bool, List, Option, [], any, contains, erase, false, get_elem?, if◌then◌else◌, length, list_eq,
  map, nat_eq, none, not, set, some, suc, true, ℕ, ◌++◌, ◌==◌, ◌||◌, ◌∷◌,
}
use cads_agent_marketplace.Doko.Cards.{
  Card, Kind, Play, Rank, Suit, ace, card, card_eq, clubs, diamonds, follows, hearts, jack, king,
  led_eq, nine, queen, rank_eq, rule_eq, spades, suit_eq, ten,
}
use cads_agent_marketplace.Doko.Parties.{Parties, parties, queens_in, side}
use cads_agent_marketplace.Doko.State.{Call, Saying, State, marry, party_eq}

pub data Blame : Type 0 where
  wrong_hand wrong_deck wrong_card not_followed no_marriage wrong_call : Blame

-- `none` stands for the seat -1.
pub record Fault : Type 0 where
  pub seat : Option ℕ
  pub why : Blame

abbrev pub suits : List Suit
suits = clubs ∷ spades ∷ hearts ∷ diamonds ∷ []

abbrev pub ranks : List Rank
ranks = ace ∷ ten ∷ king ∷ queen ∷ jack ∷ nine ∷ []

abbrev pub twice : List Card → List Card
twice [] = []
twice (c ∷ cs) = c ∷ c ∷ twice cs

abbrev pub cards_of : List Suit → List Card
cards_of [] = []
cards_of (s ∷ ss) = twice (map (card s) ranks) ++ cards_of ss

-- `DECK`: every card twice.
unfoldable pub deck : List Card
deck = cards_of suits

abbrev pub blame : Option ℕ → Blame → Bool → List Fault
blame seat why b = if b then record { seat = seat; why = why } ∷ [] else []

abbrev pub hand_faults : List (List Card) → ℕ → List Fault
hand_faults [] i = []
hand_faults (h ∷ hs) i = blame (some i) wrong_hand (not (length h == 12)) ++ hand_faults hs (suc i)

abbrev pub flat : List (List Card) → List Card
flat [] = []
flat (h ∷ hs) = h ++ flat hs

-- Two lists are the same when sorted: each card of one is found in the other and taken out.
unfoldable pub same_cards : List Card → List Card → Bool
same_cards [] [] = true
same_cards [] (d ∷ ds) = false
same_cards (c ∷ cs) ds =
    let rest = same_cards cs (erase ds c) in if contains ds c then rest else false

-- The hands that are left, and the card that the trick follows.
pub record Check : Type 0 where
  pub hands : List (List Card)
  pub first : Option Card
  pub faults : List Fault

abbrev pub hand_of : List (List Card) → ℕ → Option (List Card)
hand_of hands seat = get_elem? hands seat

-- The next step, unless the source has thrown.
abbrev pub if_given {ℓ κ} : {A : Type ℓ} → {B : Type κ} → Option A → (A → Option B) → Option B
if_given none f = none
if_given (some a) f = f a

-- Whether a card that is not the first of its trick follows it, as far as the hand can.
abbrev pub follows_ok : Kind → List Card → Option Card → Card → Bool
follows_ok kind h none c = true
follows_ok kind h (some l) c =
    follows kind c == follows kind l || not (any (λ d. follows kind d == follows kind l) h)

abbrev pub or_first : Option Card → Card → Option Card
or_first none c = some c
or_first (some l) c = some l

abbrev pub card_of_hand : List Card → Kind → Play → Check → Check
card_of_hand h kind x k =
    if contains h x.card
    then record {
      hands = set k.hands x.seat (erase h x.card);
      first = or_first k.first x.card;
      faults =
          k.faults ++ blame (some x.seat) not_followed (not (follows_ok kind h k.first x.card));
    }
    else record k { faults = k.faults ++ record { seat = some x.seat; why = wrong_card } ∷ [] }

abbrev pub check_card : Kind → Play → Check → Option Check
check_card kind x k = if_given (hand_of k.hands x.seat) (λ h. some (card_of_hand h kind x k))

abbrev pub check_trick : Kind → List Play → Check → Option Check
check_trick kind [] k = some k
check_trick kind (x ∷ xs) k = if_given (check_card kind x k) (check_trick kind xs)

abbrev pub check_tricks : Kind → List (List Play) → Check → Option Check
check_tricks kind [] k = some k
check_tricks kind (t ∷ ts) k =
    if_given (check_trick kind t (record k { first = none })) (check_tricks kind ts)

abbrev pub is_marry : Option Saying → Bool
is_marry (some marry) = true
is_marry _ = false

abbrev pub marry_fault : Bool → Option (List Card) → ℕ → Option (List Fault)
marry_fault false h i = some []
marry_fault true none i = none
marry_fault true (some h) i = some (blame (some i) no_marriage (not (queens_in h == 2)))

abbrev pub say_faults : List (Option Saying) → List (List Card) → ℕ → Option (List Fault)
say_faults [] hands i = some []
say_faults (v ∷ vs) hands i =
    if_given (marry_fault (is_marry v) (hand_of hands i) i)
      (λ first. if_given (say_faults vs hands (suc i)) (λ more. some (first ++ more)))

abbrev pub call_faults : Parties → List Call → List Fault
call_faults ps [] = []
call_faults ps (c ∷ cs) =
    blame (some c.seat) wrong_call (not (c.party == side ps c.seat)) ++ call_faults ps cs

abbrev pub deck_faults : List (List Card) → List Fault
deck_faults hands =
    hand_faults hands 0 ++ blame none wrong_deck (not (same_cards (flat hands) deck))

-- `audit`: `none` where the source reads a hand that is not there; the last trick is looked at even if
-- it is empty, which finds nothing. The hands hold cards, by their type.
unfoldable pub audit : State → List (List Card) → Option (List Fault)
audit s hands =
    let tricks = map (λ t. t.cards) s.tricks ++ s.trick.cards ∷ [] in
    if_given (check_tricks s.kind tricks (record { hands = hands; first = none; faults = [] }))
      (λ k. if_given (say_faults s.say hands 0) (λ said.
        some (deck_faults hands ++ (k.faults ++ (said ++ call_faults (parties s hands) s.calls)))))
