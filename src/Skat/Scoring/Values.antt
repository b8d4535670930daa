-- ===== src/Skat/Scoring/Values.antt =====
-- Skat: the values of games and the values of bids (apps/duell-web/src/skat.js: BIDS, tops, result).
use mathlib.Core.Path.{subst}
use native.Mathlib.Decide.{dec_le}
use cads_agent_marketplace.Common.{
  &&-left, &&-right, Bool, List, [], arith, contains, false, length, map, nat_eq, refl, suc, true,
  zero, ℕ, ◌&&◌, ◌*◌, ◌+◌, ◌<◌, ◌∷◌, ◌≡◌, ◌≤◌,
}
use cads_agent_marketplace.Skat.Cards.{
  Card, Game, base_value, card, card_eq, clubs, diamonds, grand, hearts, is_null, jack, null_game,
  rank_eq, spades, suit_eq, suit_game,
}
use cads_agent_marketplace.Skat.Score.{as_one, game_worth, is_schneider, is_schwarz, multiplier}
use cads_agent_marketplace.Skat.State.{Contract, bids, rule_eq}
use cads_agent_marketplace.Skat.Strength.{Tops, led_eq, plain_ranks, run_length, tops}

-- A test passes for `n` numbers from `lo` on.
abbrev pub all_from : (ℕ → Bool) → ℕ → ℕ → Bool
all_from p lo zero = true
all_from p lo (suc n) = p lo && all_from p (suc lo) n

pub all_from-at :
    (p : ℕ → Bool) (lo n x : ℕ) → all_from p lo n ≡ true → lo ≤ x → x < lo + n → p x ≡ true
all_from-at p lo zero x h a b = absurd (omega arith)
all_from-at p lo (suc n) x h a b = elim (dec_le (suc lo) x) [
  | yes later ↦ all_from-at p (suc lo) n x (&&-right _ _ h) later (omega arith)
  | no here ↦ let e : lo ≡ x = omega arith in subst (λ k. p k ≡ true) e (&&-left _ _ h)
]

-- How often the base value of a game can count: 2 to 18 times in a suit, to 11 times in Grand.
abbrev pub counts : Game → ℕ
counts grand = 10
counts (suit_game s) = 17
counts null_game = 0

pub values_table : (g : Game) → all_from (λ m. contains bids (base_value g * m)) 2 (counts g) ≡ true
unfolding bids
values_table null_game = refl
values_table grand = refl
values_table (suit_game clubs) = refl
values_table (suit_game spades) = refl
values_table (suit_game hearts) = refl
values_table (suit_game diamonds) = refl

run_length-le :
    (ts : List Card) (held : Bool) (cards : List Card) → run_length ts held cards ≤ length ts
unfolding run_length
run_length-le [] held cards = omega arith
run_length-le (t ∷ ts) held cards = ground (arith, run_length-le ts held cards)

-- The top trump always agrees with itself, so there is at least one top.
run_length-bounds :
    (t : Card) (ts : List Card) (cards : List Card)
    → (0 < run_length (t ∷ ts) (contains cards t) cards)
      × (run_length (t ∷ ts) (contains cards t) cards ≤ length (t ∷ ts))
unfolding run_length
run_length-bounds t ts cards = ground (arith, run_length-le ts (contains cards t) cards)

-- The trumps of a game: four jacks, and the seven other cards of the suit.
abbrev pub trump_count : Game → ℕ
trump_count grand = 4
trump_count (suit_game s) = 11
trump_count null_game = 0

pub tops-bounds :
    (g : Game) (cards : List Card)
    → is_null g ≡ false
    → (0 < (tops g cards).count) × ((tops g cards).count ≤ trump_count g)
unfolding tops
tops-bounds null_game cards h = cc
tops-bounds grand cards h =
    run_length-bounds (card clubs jack)
      (card spades jack ∷ card hearts jack ∷ card diamonds jack ∷ []) cards
tops-bounds (suit_game s) cards h =
    run_length-bounds (card clubs jack)
      (card spades jack ∷ card hearts jack ∷ card diamonds jack ∷ map (card s) plain_ranks) cards

multiplier-bounds :
    (tp : Tops) (c : Contract) (de n : ℕ)
    → (tp.count + 1 ≤ multiplier tp c de n) × (multiplier tp c de n ≤ tp.count + 7)
unfolding multiplier
multiplier-bounds tp c de n = omega (
  arith,
  as_one-le c.hand,
  as_one-le (is_schneider c de n),
  as_one-le c.schneider,
  as_one-le (is_schwarz c de n),
  as_one-le c.schwarz,
  as_one-le c.ouvert,
)
  where
    as_one-le : (b : Bool) → as_one b ≤ 1
    as_one-le true = omega arith
    as_one-le false = omega arith

pub counts-enough : (g : Game) → is_null g ≡ false → trump_count g + 7 < 2 + counts g
counts-enough null_game h = cc
counts-enough grand h = omega arith
counts-enough (suit_game s) h = omega arith

-- Before it is doubled or raised for an overbid, the value of a game in a suit or Grand is one of the
-- values that can be bid, whatever cards the declarer has, however the play went and whatever was
-- announced.
pub game_worth-bids :
    (c : Contract) (cards : List Card) (de n : ℕ)
    → is_null c.game ≡ false
    → contains bids (game_worth (tops c.game cards) c de n).value ≡ true
unfolding game_worth
game_worth-bids c cards de n h =
    let tp = tops c.game cards in
    all_from-at (λ m. contains bids (base_value c.game * m)) 2 (counts c.game)
      (multiplier tp c de n) (values_table c.game)
      (omega (arith, tops-bounds c.game cards h, multiplier-bounds tp c de n))
      (omega
        (arith, tops-bounds c.game cards h, multiplier-bounds tp c de n, counts-enough c.game h))
