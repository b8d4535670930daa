-- ===== src/Doko/Cards.antt =====
-- Doppelkopf: the cards, the trumps of each kind of game and the winner of a trick
-- (apps/duell-web/src/doko.js: SUITS, RANKS, EYES, DECK, SOLOS, SOLO_SUIT, QUEENS, JACKS, trumps,
-- plainOrder, isTrump, follows, power, bestIndex, trickWinner, legalCards).
use cads_agent_marketplace.Common.{
  Bool, Eq, List, Option, [], arith, contains, false, filter, get_elem?, if◌then◌else◌, index_of,
  list_eq, nat_beq, nat_eq, none, not, some, suc, true, ℕ, ◌&&◌, ◌++◌, ◌-◌, ◌==◌, ◌||◌, ◌↔◌, ◌∷◌,
  ◌≡◌,
}
use cads_agent_marketplace.Common.Int.{ltb_ℤ, negsuc, pos, ℤ}

pub data Suit : Type 0 where
  clubs spades hearts diamonds : Suit

pub data Rank : Type 0 where
  ace ten king queen jack nine : Rank

abbrev pub suit_no : Suit → ℕ
suit_no clubs = 0
suit_no spades = 1
suit_no hearts = 2
suit_no diamonds = 3

abbrev pub rank_no : Rank → ℕ
rank_no ace = 0
rank_no ten = 1
rank_no king = 2
rank_no queen = 3
rank_no jack = 4
rank_no nine = 5

abbrev pub suit_beq : Suit → Suit → Bool
suit_beq s t = nat_beq (suit_no s) (suit_no t)

abbrev pub rank_beq : Rank → Rank → Bool
rank_beq r q = nat_beq (rank_no r) (rank_no q)

pub suit_beq_iff : (s t : Suit) → (suit_beq s t ≡ true) ↔ (s ≡ t)
suit_beq_iff s t = ground arith

pub rank_beq_iff : (r q : Rank) → (rank_beq r q ≡ true) ↔ (r ≡ q)
rank_beq_iff r q = ground arith

instance abbrev pub suit_eq : Eq Suit
suit_eq = record { beq = suit_beq; beq_iff = suit_beq_iff }

instance abbrev pub rank_eq : Eq Rank
rank_eq = record { beq = rank_beq; beq_iff = rank_beq_iff }

pub record Card : Type 0 where
  pub suit : Suit
  pub rank : Rank

abbrev pub card : Suit → Rank → Card
card s r = record { suit = s; rank = r }

abbrev pub card_beq : Card → Card → Bool
card_beq c d = suit_beq c.suit d.suit && rank_beq c.rank d.rank

pub card_beq_iff : (c d : Card) → (card_beq c d ≡ true) ↔ (c ≡ d)
card_beq_iff c d = ground (arith, suit_beq_iff c.suit d.suit, rank_beq_iff c.rank d.rank)

instance abbrev pub card_eq : Eq Card
card_eq = record { beq = card_beq; beq_iff = card_beq_iff }

-- `EYES`
abbrev pub rank_eyes : Rank → ℕ
rank_eyes ace = 11
rank_eyes ten = 10
rank_eyes king = 4
rank_eyes queen = 3
rank_eyes jack = 2
rank_eyes nine = 0

abbrev pub eyes : Card → ℕ
eyes c = rank_eyes c.rank

-- `SOLOS`
pub data Solo : Type 0 where
  damen buben fleischlos kreuz pik herz karo : Solo

pub data Kind : Type 0 where
  normal hochzeit : Kind
  solo : Solo → Kind

abbrev pub queens : List Card
queens = card clubs queen ∷ card spades queen ∷ card hearts queen ∷ card diamonds queen ∷ []

abbrev pub jacks : List Card
jacks = card clubs jack ∷ card spades jack ∷ card hearts jack ∷ card diamonds jack ∷ []

abbrev pub heart_ten : Card
heart_ten = card hearts ten

-- The trumps below the queens and jacks; the Heart Ten is not listed again.
abbrev pub suit_trumps : Suit → List Card
suit_trumps hearts = card hearts ace ∷ card hearts king ∷ card hearts nine ∷ []
suit_trumps s = card s ace ∷ card s ten ∷ card s king ∷ card s nine ∷ []

abbrev pub with_suit : Suit → List Card
with_suit s = heart_ten ∷ (queens ++ (jacks ++ suit_trumps s))

unfoldable pub trumps : Kind → List Card
trumps normal = with_suit diamonds
trumps hochzeit = with_suit diamonds
trumps (solo damen) = queens
trumps (solo buben) = jacks
trumps (solo fleischlos) = []
trumps (solo kreuz) = with_suit clubs
trumps (solo pik) = with_suit spades
trumps (solo herz) = with_suit hearts
trumps (solo karo) = with_suit diamonds

abbrev pub plain_order : Kind → List Rank
plain_order (solo damen) = ace ∷ ten ∷ king ∷ jack ∷ nine ∷ []
plain_order (solo buben) = ace ∷ ten ∷ king ∷ queen ∷ nine ∷ []
plain_order (solo fleischlos) = ace ∷ ten ∷ king ∷ queen ∷ jack ∷ nine ∷ []
plain_order _ = ace ∷ ten ∷ king ∷ nine ∷ []

unfoldable pub is_trump : Kind → Card → Bool
is_trump kind c = contains (trumps kind) c

-- What a card follows: trump ("T") or its suit.
pub data Led : Type 0 where
  trump : Led
  plain : Suit → Led

abbrev pub led_beq : Led → Led → Bool
led_beq trump trump = true
led_beq trump (plain t) = false
led_beq (plain s) trump = false
led_beq (plain s) (plain t) = suit_beq s t

pub led_beq_iff : (k l : Led) → (led_beq k l ≡ true) ↔ (k ≡ l)
led_beq_iff trump trump = ground arith
led_beq_iff trump (plain t) = ground arith
led_beq_iff (plain s) trump = ground arith
led_beq_iff (plain s) (plain t) = ground (arith, suit_beq_iff s t)

instance abbrev pub led_eq : Eq Led
led_eq = record { beq = led_beq; beq_iff = led_beq_iff }

unfoldable pub follows : Kind → Card → Led
follows kind c = if is_trump kind c then trump else plain c.suit

-- Every plain card's rank stands in `plain_order`, and no list is longer than 26.
unfoldable pub power : Kind → Card → Led → ℤ
power kind c led =
    if is_trump kind c
    then pos (1000 - index_of (trumps kind) c)
    else if not (plain c.suit == led)
    then negsuc 0
    else pos (100 - index_of (plain_order kind) c.rank)

pub record Play : Type 0 where
  pub seat : ℕ
  pub card : Card

pub data Rule : Type 0 where
  dulle nosp : Rule

abbrev pub rule_beq : Rule → Rule → Bool
rule_beq dulle dulle = true
rule_beq nosp nosp = true
rule_beq _ _ = false

pub rule_beq_iff : (r q : Rule) → (rule_beq r q ≡ true) ↔ (r ≡ q)
rule_beq_iff r q = ground arith

instance abbrev pub rule_eq : Eq Rule
rule_eq = record { beq = rule_beq; beq_iff = rule_beq_iff }

-- `rules`
abbrev pub rules : List Rule → List Rule
rules given = filter (λ k. contains given k) (dulle ∷ nosp ∷ [])

abbrev pub second_wins : Bool → ℤ → ℤ → Card → Bool
second_wins on p q c = ltb_ℤ q p || (not (ltb_ℤ p q) && (on && c == heart_ten))

-- The loop of `bestIndex`: `best` is the index of `top`, and `i` that of the next card.
unfoldable pub best_from : Kind → Led → Bool → Play → ℕ → ℕ → List Play → ℕ
best_from kind led on top best i [] = best
best_from kind led on top best i (x ∷ xs) =
    let wins = second_wins on (power kind x.card led) (power kind top.card led) x.card in
    best_from kind led on (if wins then x else top) (if wins then i else best) (suc i) xs

-- `none` where the source reads the first card of an empty trick and throws.
unfoldable pub best_index : Kind → List Play → List Rule → Option ℕ
best_index kind [] rs = none
best_index kind (x ∷ xs) rs =
    let on = contains (rules rs) dulle && is_trump kind heart_ten in
    some (best_from kind (follows kind x.card) on x 0 1 xs)

abbrev pub seat_at : List Play → Option ℕ → Option ℕ
seat_at cards none = none
seat_at cards (some i) = elim (get_elem? cards i) [ none ↦ none | some x ↦ some x.seat ]

unfoldable pub trick_winner : Kind → List Play → List Rule → Option ℕ
trick_winner kind cards rs = seat_at cards (best_index kind cards rs)

abbrev pub or_all : List Card → List Card → List Card
or_all [] hand = hand
or_all (c ∷ cs) hand = c ∷ cs

unfoldable pub legal_cards : Kind → List Play → List Card → List Card
legal_cards kind [] hand = hand
legal_cards kind (first ∷ rest) hand =
    or_all (filter (λ c. follows kind c == follows kind first.card) hand) hand
