-- ===== src/Bauernskat/Score.antt =====
-- Bauernskat: the score (apps/duell-web/src/bauernskat.js: cardsOf, result).
use cads_agent_marketplace.Skat.Strength
use cads_agent_marketplace.Common.{
  Bool, List, Option, [], get_elem?, if◌then◌else◌, leb, length, list_eq, ltb, nat_eq, none, set,
  some, ℕ, ◌*◌, ◌++◌, ◌+◌, ◌==◌, ◌^◌, ◌||◌, ◌∷◌,
}
use cads_agent_marketplace.Bauernskat.State.{State, rule_eq}
use cads_agent_marketplace.Common.Int.{pos, sub_ℕ, ℤ}
use cads_agent_marketplace.Skat.Apply.{taken_cards}
use cads_agent_marketplace.Skat.Cards.{
  Card, Game, base_value, card_eq, eyes, is_null, rank_eq, suit_eq,
}
use cads_agent_marketplace.Skat.Score.{
  Line, as_one, base_line, game_line, game_points, kontra_line, line_if, null_line, re_line,
  schneider_line, schwarz_line, taken_by_seat, with_line, without_line,
}
use cads_agent_marketplace.Skat.Strength.{Tops, led_eq}

-- A stack of the deal: its face-up and its face-down card.
pub record Placed : Type 0 where
  pub up : Card
  pub down : Card

-- What the end of a deal shows. The hands are empty in this game, and may be missing.
pub record Deal : Type 0 where
  pub hands : Option (List (List Card))
  pub stacks : List (List Placed)

pub record Score : Type 0 where
  pub declarer : ℕ
  pub game : Game
  pub value : ℕ
  pub won : Bool
  pub points : List ℤ
  pub declarer_eyes : ℕ
  pub defender_eyes : ℤ
  pub tricks : ℕ
  pub lines : List (Line × ℕ)

abbrev pub cards_in : List Placed → List Card
cards_in [] = []
cards_in (x ∷ xs) = x.up ∷ x.down ∷ cards_in xs

-- `full.hands ? full.hands[seat] : []`
abbrev pub hand_in : Option (List (List Card)) → ℕ → Option (List Card)
hand_in none seat = some []
hand_in (some hands) seat = get_elem? hands seat

abbrev pub joined : Option (List Card) → Option (List Placed) → Option (List Card)
joined none row = none
joined (some h) none = none
joined (some h) (some row) = some (h ++ cards_in row)

-- `cardsOf`: `none` where the source throws, for a seat whose hand or whose stacks are missing.
unfoldable pub cards_of : Deal → ℕ → Option (List Card)
cards_of full seat = joined (hand_in full.hands seat) (get_elem? full.stacks seat)

-- The value before Kontra, whether the declarer has won, and the rows of the bill: `de` are the
-- declarer's points and `n` the declarer's tricks.
pub record Worth : Type 0 where
  pub value : ℕ
  pub won : Bool
  pub lines : List (Line × ℕ)

abbrev pub null_worth : ℕ → Worth
null_worth n = record { value = 23; won = n == 0; lines = (null_line, 23) ∷ [] }

abbrev pub is_schneider : ℕ → Bool
is_schneider de = leb 90 de || leb de 30

abbrev pub is_schwarz : ℕ → Bool
is_schwarz n = n == 16 || n == 0

abbrev pub multiplier : Tops → ℕ → ℕ → ℕ
multiplier tp de n = tp.count + 1 + as_one (is_schneider de) + as_one (is_schwarz n)

abbrev pub game_worth : Game → Tops → ℕ → ℕ → Worth
game_worth g tp de n = record {
  value = base_value g * multiplier tp de n;
  won = leb 61 de;
  lines =
      (if tp.with_them then with_line else without_line, tp.count)
      ∷ (game_line, 1)
      ∷ (line_if (is_schneider de) schneider_line
          ++ (line_if (is_schwarz n) schwarz_line ++ (base_line, base_value g) ∷ []));
}

unfoldable pub worth : Game → List Card → ℕ → ℕ → Worth
worth g cards de n = if is_null g then null_worth n else game_worth g (Strength.tops g cards) de n

-- The cards that the value depends on: those of the declarer, and none for a Null.
abbrev pub cards_for : Game → Deal → ℕ → Option (List Card)
cards_for g full d = if is_null g then some [] else cards_of full d

-- The score of a game, from the declarer's cards.
unfoldable pub score_of : State → Game → List Card → Score
unfolding worth
score_of s g cards =
    let d = s.declarer in
    let mine = taken_by_seat d s.tricks in
    let n = length mine in
    let de = eyes (taken_cards mine) in
    let w = worth g cards de n in
    let dbl = 2 ^ s.kontra in
    let value = if s.kontra == 0 then w.value else w.value * dbl in
    record {
      declarer = d;
      game = g;
      value = value;
      won = w.won;
      points = set (pos 0 ∷ pos 0 ∷ []) d (game_points w.won value);
      declarer_eyes = de;
      defender_eyes = sub_ℕ 120 de;
      tricks = n;
      lines =
          w.lines
          ++ (if s.kontra == 0
              then []
              else (if ltb 1 s.kontra then re_line else kontra_line, dbl) ∷ []);
    }

abbrev pub scored : Option (List Card) → State → Game → Option Score
scored none s g = none
scored (some cards) s g = some (score_of s g cards)

abbrev pub result_in : Option Game → State → Deal → Option Score
result_in none s full = none
result_in (some g) s full = scored (cards_for g full s.declarer) s g

-- `result`: `none` where the source throws, for a contract that is not there and for a game that is no
-- Null if the deal lacks the declarer's cards.
unfoldable pub result : State → Deal → Option Score
result s full = result_in s.contract s full
