-- ===== src/Bauernskat/Bids.antt =====
-- Bauernskat: the value of a game (apps/duell-web/src/bauernskat.js: result).
use cads_agent_marketplace.Skat.Strength
use cads_agent_marketplace.Common.{
  Bool, List, arith, contains, false, list_eq, nat_eq, refl, true, ℕ, ◌*◌, ◌≡◌, ◌≤◌,
}
use cads_agent_marketplace.Bauernskat.Score.{Score, is_schneider, is_schwarz, multiplier, worth}
use cads_agent_marketplace.Bauernskat.State.{State, rule_eq}
use cads_agent_marketplace.Skat.Cards.{
  Card, Game, base_value, card_eq, grand, is_null, null_game, rank_eq, suit_eq, suit_game,
}
use cads_agent_marketplace.Skat.Score.{as_one}
use cads_agent_marketplace.Skat.Scoring.Values.{
  all_from-at, counts, counts-enough, tops-bounds, values_table,
}
use cads_agent_marketplace.Skat.State.{bids}
use cads_agent_marketplace.Skat.Strength.{led_eq}

as_one-le : (b : Bool) → as_one b ≤ 1
as_one-le true = omega arith
as_one-le false = omega arith

in_bids :
    (g : Game) (cards : List Card) (de n : ℕ)
    → is_null g ≡ false
    → contains bids (base_value g * multiplier (Strength.tops g cards) de n) ≡ true
in_bids g cards de n h =
    let tp = Strength.tops g cards in
    let small = as_one-le (is_schneider de) in
    let all_or_none = as_one-le (is_schwarz n) in
    all_from-at (λ m. contains bids (base_value g * m)) 2 (counts g) (multiplier tp de n)
      (values_table g) (omega (arith, tops-bounds g cards h))
      (omega (arith, tops-bounds g cards h, small, all_or_none, counts-enough g h))

-- Before Kontra, the value of a game is one of the values that can be bid at Skat, whatever the game,
-- the declarer's cards and the tricks.
pub worth-bids :
    (g : Game) (cards : List Card) (de n : ℕ) → contains bids (worth g cards de n).value ≡ true
unfolding worth bids
worth-bids null_game cards de n = refl
worth-bids grand cards de n = in_bids grand cards de n refl
worth-bids (suit_game u) cards de n = in_bids (suit_game u) cards de n refl

-- When the declarer wins: a Null without a trick, any other game with more than half of the points.
abbrev pub Wins : Game → ℕ → ℕ → Type 0
Wins null_game de n = n ≡ 0
Wins grand de n = 61 ≤ de
Wins (suit_game u) de n = 61 ≤ de
