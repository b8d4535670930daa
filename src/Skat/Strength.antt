-- ===== src/Skat/Strength.antt =====
-- Skat: trump, suit, strength and the winner of a trick
-- (apps/duell-web/src/skat.js: trumpOrder, isTrump, suitOf, power, bestIndex, trickWinner, mayPlay,
-- tops).
use cads_agent_marketplace.Common.{
  Bool, Eq, List, Option, [], any, arith, contains, false, get_elem?, if◌then◌else◌, index_of, map,
  nat_eq, none, not, some, suc, true, ℕ, ◌&&◌, ◌++◌, ◌-◌, ◌==◌, ◌||◌, ◌↔◌, ◌∷◌, ◌≡◌,
}
use cads_agent_marketplace.Common.Int.{ltb_ℤ, negsuc, pos, ℤ}
use cads_agent_marketplace.Skat.Cards.{
  Card, Game, Rank, Suit, ace, card, card_eq, clubs, diamonds, eight, grand, hearts, jack, king,
  nine, null_game, queen, rank_beq, rank_eq, seven, spades, suit_beq, suit_beq_iff, suit_eq,
  suit_game, ten,
}

-- A card that a seat has played.
pub record Play : Type 0 where
  pub seat : ℕ
  pub card : Card

-- What is led: trump ("T") or a plain suit.
pub data Led : Type 0 where
  trump : Led
  plain : Suit → Led

abbrev pub led_beq : Led → Led → Bool
led_beq trump trump = true
led_beq trump (plain t) = false
led_beq (plain s) trump = false
led_beq (plain s) (plain t) = suit_beq s t

pub led_beq_iff : (k l : Led) → (led_beq k l ≡ true) ↔ (k ≡ l)
led_beq_iff trump trump = ground arith
led_beq_iff trump (plain t) = ground arith
led_beq_iff (plain s) trump = ground arith
led_beq_iff (plain s) (plain t) = ground (arith, suit_beq_iff s t)

instance abbrev pub led_eq : Eq Led
led_eq = record { beq = led_beq; beq_iff = led_beq_iff }

-- `JACKS`
abbrev pub jacks : List Card
jacks = card clubs jack ∷ card spades jack ∷ card hearts jack ∷ card diamonds jack ∷ []

-- `PLAIN`
abbrev pub plain_ranks : List Rank
plain_ranks = ace ∷ ten ∷ king ∷ queen ∷ nine ∷ eight ∷ seven ∷ []

-- `NULLRANK`
abbrev pub null_ranks : List Rank
null_ranks = ace ∷ king ∷ queen ∷ jack ∷ ten ∷ nine ∷ eight ∷ seven ∷ []

unfoldable pub trump_order : Game → List Card
trump_order null_game = []
trump_order grand = jacks
trump_order (suit_game s) = jacks ++ map (card s) plain_ranks

unfoldable pub is_trump : Game → Card → Bool
is_trump null_game c = false
is_trump grand c = rank_beq c.rank jack
is_trump (suit_game s) c = rank_beq c.rank jack || suit_beq c.suit s

unfoldable pub suit_of : Game → Card → Led
unfolding is_trump
suit_of g c = if is_trump g c then trump else plain c.suit

abbrev pub plain_order : Game → List Rank
plain_order null_game = null_ranks
plain_order grand = plain_ranks
plain_order (suit_game s) = plain_ranks

-- Higher wins. The positions are below 12 in every list that is searched, so no `-` is cut off.
unfoldable pub power : Game → Card → Led → ℤ
unfolding is_trump trump_order
power g c led =
    if is_trump g c
    then pos (100 - index_of (trump_order g) c)
    else if not (plain c.suit == led)
    then negsuc 0
    else pos (50 - index_of (plain_order g) c.rank)

-- The loop of `bestIndex`: `best` is the index of `top`, and `i` that of the next card.
unfoldable pub best_from : Game → Led → Play → ℕ → ℕ → List Play → ℕ
best_from g led top best i [] = best
best_from g led top best i (x ∷ xs) =
    let wins = ltb_ℤ (power g top.card led) (power g x.card led) in
    best_from g led (if wins then x else top) (if wins then i else best) (suc i) xs

-- `none` where the source reads the first card of an empty trick and throws.
unfoldable pub best_index : Game → List Play → Option ℕ
unfolding best_from
best_index g [] = none
best_index g (x ∷ xs) = some (best_from g (suit_of g x.card) x 0 1 xs)

abbrev pub seat_at : List Play → Option ℕ → Option ℕ
seat_at cards none = none
seat_at cards (some i) = elim (get_elem? cards i) [ none ↦ none | some x ↦ some x.seat ]

unfoldable pub trick_winner : Game → List Play → Option ℕ
unfolding best_index
trick_winner g cards = seat_at cards (best_index g cards)

-- `trick` is the list of cards on the table, empty where the source has none or an empty one.
unfoldable pub may_play : Game → List Card → Card → List Play → Bool
may_play g hand c [] = contains hand c
may_play g hand c (first ∷ rest) =
    let led = suit_of g first.card in
    contains hand c && (suit_of g c == led || not (any (λ d. suit_of g d == led) hand))

-- The loop of `tops`: how many trumps from the top are all held, or all missing.
unfoldable pub run_length : List Card → Bool → List Card → ℕ
run_length [] held cards = 0
run_length (t ∷ ts) held cards =
    let same = (contains cards t && held) || (not (contains cards t) && not held) in
    let rest = run_length ts held cards in if same then suc rest else 0

pub record Tops : Type 0 where
  pub with_them : Bool
  pub count : ℕ

abbrev pub top_held : List Card → List Card → Bool
top_held [] cards = false
top_held (t ∷ ts) cards = contains cards t

unfoldable pub tops : Game → List Card → Tops
unfolding run_length trump_order
tops g cards =
    let order = trump_order g in
    let held = top_held order cards in
    record { with_them = held; count = run_length order held cards }
