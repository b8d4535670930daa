-- ===== src/Skat/Cards.antt =====
-- Skat: the 32 cards, their points and the games that can be announced
-- (apps/duell-web/src/skat.js, the constants at the top).
use cads_agent_marketplace.Common.{
  Bool, Eq, List, [], arith, false, map, nat_beq, true, ℕ, ◌&&◌, ◌++◌, ◌+◌, ◌↔◌, ◌∷◌, ◌≡◌,
}

-- The first character of a card: "C", "S", "H", "D".
pub data Suit : Type 0 where
  clubs spades hearts diamonds : Suit

-- The second character of a card: "A", "T", "K", "Q", "J", "9", "8", "7".
pub data Rank : Type 0 where
  ace ten king queen jack nine eight seven : Rank

abbrev pub suits : List Suit
suits = clubs ∷ spades ∷ hearts ∷ diamonds ∷ []

abbrev pub ranks : List Rank
ranks = ace ∷ ten ∷ king ∷ queen ∷ jack ∷ nine ∷ eight ∷ seven ∷ []

abbrev pub suit_no : Suit → ℕ
suit_no clubs = 0
suit_no spades = 1
suit_no hearts = 2
suit_no diamonds = 3

abbrev pub rank_no : Rank → ℕ
rank_no ace = 0
rank_no ten = 1
rank_no king = 2
rank_no queen = 3
rank_no jack = 4
rank_no nine = 5
rank_no eight = 6
rank_no seven = 7

abbrev pub suit_beq : Suit → Suit → Bool
suit_beq s t = nat_beq (suit_no s) (suit_no t)

abbrev pub rank_beq : Rank → Rank → Bool
rank_beq r q = nat_beq (rank_no r) (rank_no q)

pub suit_beq_iff : (s t : Suit) → (suit_beq s t ≡ true) ↔ (s ≡ t)
suit_beq_iff s t = ground arith

pub rank_beq_iff : (r q : Rank) → (rank_beq r q ≡ true) ↔ (r ≡ q)
rank_beq_iff r q = ground arith

instance abbrev pub suit_eq : Eq Suit
suit_eq = record { beq = suit_beq; beq_iff = suit_beq_iff }

instance abbrev pub rank_eq : Eq Rank
rank_eq = record { beq = rank_beq; beq_iff = rank_beq_iff }

pub record Card : Type 0 where
  pub suit : Suit
  pub rank : Rank

abbrev pub card : Suit → Rank → Card
card s r = record { suit = s; rank = r }

abbrev pub card_beq : Card → Card → Bool
card_beq c d = suit_beq c.suit d.suit && rank_beq c.rank d.rank

pub card_beq_iff : (c d : Card) → (card_beq c d ≡ true) ↔ (c ≡ d)
card_beq_iff c d = ground (arith, suit_beq_iff c.suit d.suit, rank_beq_iff c.rank d.rank)

instance abbrev pub card_eq : Eq Card
card_eq = record { beq = card_beq; beq_iff = card_beq_iff }

abbrev cards_of : List Suit → List Card
cards_of [] = []
cards_of (s ∷ ss) = map (card s) ranks ++ cards_of ss

unfoldable pub deck : List Card
deck = cards_of suits

-- `EYES`: the points of a card.
abbrev pub rank_eyes : Rank → ℕ
rank_eyes ace = 11
rank_eyes ten = 10
rank_eyes king = 4
rank_eyes queen = 3
rank_eyes jack = 2
rank_eyes _ = 0

unfoldable pub eyes : List Card → ℕ
eyes [] = 0
eyes (c ∷ cs) = rank_eyes c.rank + eyes cs

-- The games: one of the four suits, Grand ("G") or Null ("N").
pub data Game : Type 0 where
  suit_game : Suit → Game
  grand : Game
  null_game : Game

-- `BASE` of a suit game or of Grand. The source has no entry for Null and never reads one.
abbrev pub base_value : Game → ℕ
base_value (suit_game diamonds) = 9
base_value (suit_game hearts) = 10
base_value (suit_game spades) = 11
base_value (suit_game clubs) = 12
base_value grand = 24
base_value null_game = 0

abbrev pub is_null : Game → Bool
is_null null_game = true
is_null (suit_game s) = false
is_null grand = false
