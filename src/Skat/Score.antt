-- ===== src/Skat/Score.antt =====
-- Skat: the score of a finished game with a declarer (apps/duell-web/src/skat.js: result).
use cads_agent_marketplace.Common.{
  Bool, List, Option, [], false, filter, get_elem?, if◌then◌else◌, leb, length, list_eq, ltb,
  nat_eq, none, not, set, some, true, ℕ, ◌&&◌, ◌*◌, ◌++◌, ◌+◌, ◌-◌, ◌/◌, ◌==◌, ◌^◌, ◌||◌, ◌∷◌,
}
use cads_agent_marketplace.Common.Int.{negsuc, pos, sub_ℕ, ℤ, ◌+ℤ◌}
use cads_agent_marketplace.Skat.Apply.{taken_cards}
use cads_agent_marketplace.Skat.Cards.{
  Card, Game, base_value, card_eq, eyes, is_null, rank_eq, suit_eq,
}
use cads_agent_marketplace.Skat.Contract.{null_value}
use cads_agent_marketplace.Skat.State.{Contract, State, Taken, hand_size, rule_eq}
use cads_agent_marketplace.Skat.Strength.{Tops, led_eq, tops}

-- What the end of a deal shows: the hands, the skat and the cards that the declarer pushed. A list
-- that the source has not is `none` (`full.skat || []`).
pub record Deal : Type 0 where
  pub hands : List (List Card)
  pub skat : Option (List Card)
  pub pushed : Option (List Card)

abbrev pub or_empty : Option (List Card) → List Card
or_empty none = []
or_empty (some cs) = cs

-- The rows of the bill (`lines`), each with a number.
pub data Line : Type 0 where
  null_line null_hand_line null_ouvert_line null_ouvert_hand_line : Line
  with_line without_line game_line hand_line schneider_line schneider_said_line : Line
  schwarz_line schwarz_said_line ouvert_line base_line overbid_line kontra_line re_line : Line

-- What a game is worth before it is measured against the bid.
pub record Worth : Type 0 where
  pub base : ℕ
  pub value : ℕ
  pub won : Bool
  pub lines : List (Line × ℕ)

pub record GameScore : Type 0 where
  pub declarer : ℕ
  pub game : Game
  pub value : ℕ
  pub won : Bool
  pub overbid : Bool
  pub points : List ℤ
  pub list : List ℤ
  pub declarer_eyes : ℕ
  pub defender_eyes : ℤ
  pub tricks : ℕ
  pub lines : List (Line × ℕ)

pub record RamschScore : Type 0 where
  pub durchmarsch : Option ℕ
  pub losers : List ℕ
  pub points : List ℤ
  pub list : List ℤ
  pub seat_eyes : List ℕ
  pub tricks : List ℕ

pub data Score : Type 0 where
  passed_out_score : Score
  game_score : GameScore → Score
  ramsch_score : RamschScore → Score

abbrev pub taken_by_seat : ℕ → List Taken → List Taken
taken_by_seat d ts = filter (λ t. t.winner == d) ts

abbrev pub as_one : Bool → ℕ
as_one true = 1
as_one false = 0

abbrev pub line_if : Bool → Line → List (Line × ℕ)
line_if b k = if b then (k, 1) ∷ [] else []

unfoldable pub null_worth : Contract → ℕ → Worth
unfolding null_value
null_worth c n =
    let v = null_value c.hand c.ouvert in
    record {
      base = v;
      value = v;
      won = n == 0;
      lines =
          (
            if c.ouvert
                then if c.hand then null_ouvert_hand_line else null_ouvert_line
                else if c.hand
                then null_hand_line
                else null_line,
            v,
          )
          ∷ [];
    }

-- A prediction that has failed: `de` are the declarer's points and `n` the declarer's tricks.
abbrev pub failed : Contract → ℕ → ℕ → Bool
failed c de n = c.schneider && ltb de 90 || c.schwarz && ltb n hand_size

abbrev pub is_schneider : Contract → ℕ → ℕ → Bool
is_schneider c de n = leb 90 de || (c.schneider || not (failed c de n) && leb de 30)

abbrev pub is_schwarz : Contract → ℕ → ℕ → Bool
is_schwarz c de n = n == hand_size || (c.schwarz || not (failed c de n) && n == 0)

-- `m`: how often the base value counts.
unfoldable pub multiplier : Tops → Contract → ℕ → ℕ → ℕ
multiplier tp c de n =
    tp.count
    + 1
    + as_one c.hand
    + as_one (is_schneider c de n)
    + as_one c.schneider
    + as_one (is_schwarz c de n)
    + as_one c.schwarz
    + as_one c.ouvert

unfoldable pub game_worth : Tops → Contract → ℕ → ℕ → Worth
game_worth tp c de n =
    let base = base_value c.game in
    record {
      base = base;
      value = base * multiplier tp c de n;
      won = not (failed c de n) && leb 61 de;
      lines =
          (if tp.with_them then with_line else without_line, tp.count)
          ∷ (game_line, 1)
          ∷ (line_if c.hand hand_line
              ++ (line_if (is_schneider c de n) schneider_line
                  ++ (line_if c.schneider schneider_said_line
                      ++ (line_if (is_schwarz c de n) schwarz_line
                          ++ (line_if c.schwarz schwarz_said_line
                              ++ (line_if c.ouvert ouvert_line ++ (base_line, base) ∷ []))))));
    }

-- `Math.ceil(a / b)` for positive numbers of this size
abbrev pub ceil_div : ℕ → ℕ → ℕ
ceil_div a b = (a + b - 1) / b

-- An overbid game is lost and raised to the first multiple of the base that covers the bid.
unfoldable pub raise_overbid : Worth → ℕ → Worth
raise_overbid w bid =
    let v = ceil_div bid w.base * w.base in
    if ltb w.value bid
    then record w { value = v; won = false; lines = w.lines ++ (overbid_line, v) ∷ [] }
    else w

abbrev pub doubling : ℕ → ℕ
doubling k = if k == 0 then 1 else 2 ^ k

abbrev pub zeros : List ℤ
zeros = pos 0 ∷ pos 0 ∷ pos 0 ∷ []

-- -v
abbrev pub minus : ℕ → ℤ
minus v = sub_ℕ 0 v

abbrev pub game_points : Bool → ℕ → ℤ
game_points won value = if won then pos value else minus (2 * value)

-- 40 for each seat but the declarer's.
abbrev pub defender_bonus : ℕ → List ℤ
defender_bonus d = set (pos 40 ∷ pos 40 ∷ pos 40 ∷ []) d (pos 0)

abbrev pub points_of : Bool → ℕ → ℕ → List ℤ
points_of won d value = set zeros d (game_points won value)

-- The tournament list: 50 for the declarer or against, and 40 for the others if the game is lost.
abbrev pub list_of : Bool → ℕ → ℕ → List ℤ
list_of won d value =
    set (if won then zeros else defender_bonus d) d
      (game_points won value +ℤ (if won then pos 50 else negsuc 49))

unfoldable pub settle : State → ℕ → Contract → ℕ → ℕ → Worth → GameScore
unfolding raise_overbid
settle s d c de n w =
    let r = raise_overbid w s.bid.value in
    let dbl = doubling s.kontra in
    let value = if ltb 1 dbl then r.value * dbl else r.value in
    record {
      declarer = d;
      game = c.game;
      value = value;
      won = r.won;
      overbid = ltb w.value s.bid.value;
      points = points_of r.won d value;
      list = list_of r.won d value;
      declarer_eyes = de;
      defender_eyes = sub_ℕ 120 de;
      tricks = n;
      lines =
          r.lines
          ++ (if ltb 1 dbl
              then (if ltb 1 s.kontra then re_line else kontra_line, dbl) ∷ []
              else []);
    }

-- The cards that count for the declarer besides the tricks.
abbrev pub down_cards : State → Deal → List Card
down_cards s full = if s.picked_up then or_empty full.pushed else or_empty full.skat

-- `full.hands[d].concat(full.skat || [])`, where seat `d` has a hand; where it has none, `result` gives no
-- score of a game that reads it.
abbrev pub twelve : Deal → ℕ → List Card
twelve full d = elim (get_elem? full.hands d) [
  | none ↦ or_empty full.skat
  | some h ↦ h ++ or_empty full.skat
]

unfoldable pub declarer_eyes : State → Deal → ℕ → ℕ
declarer_eyes s full d = eyes (taken_cards (taken_by_seat d s.tricks)) + eyes (down_cards s full)

-- The score of a game with a declarer, where there is one: see `declarer_score` for a hand that is
-- missing.
unfoldable pub declarer_result : State → Deal → ℕ → Contract → GameScore
unfolding declarer_eyes
declarer_result s full d c =
    let n = length (taken_by_seat d s.tricks) in
    let de = declarer_eyes s full d in
    let w =
      if is_null c.game then null_worth c n else game_worth (tops c.game (twelve full d)) c de n in
    settle s d c de n w
