-- ===== src/Skat/Scoring.antt =====
-- Skat: what the score of a game with a declarer promises.
pub mod Values
pub mod Ramsch
use native.Mathlib.Nat.{pow-suc}
use cads_agent_marketplace.Common.{
  Bool, Bool-cases, List, [], arith, false, if◌then◌else◌, inl, inr, length, ltb, nat_eq, refl, suc,
  true, zero, ℕ, ◌*◌, ◌+◌, ◌<◌, ◌==◌, ◌^◌, ◌↔◌, ◌∷◌, ◌≡◌, ◌≤◌, ◌⊎◌,
}
use cads_agent_marketplace.Common.Int.{negsuc, pos, ℤ, ◌+ℤ◌}
use cads_agent_marketplace.Skat.Cards.{
  Game, base_value, card_eq, clubs, diamonds, grand, hearts, is_null, null_game, rank_eq, spades,
  suit_eq, suit_game,
}
use cads_agent_marketplace.Skat.Contract.{null_value}
use cads_agent_marketplace.Skat.Score.{
  Deal, Worth, ceil_div, declarer_eyes, declarer_result, doubling, game_worth, list_of, minus,
  null_worth, points_of, raise_overbid, settle, taken_by_seat, twelve,
}
use cads_agent_marketplace.Skat.State.{Contract, State, rule_eq}
use cads_agent_marketplace.Skat.Strength.{Tops, led_eq, tops}

pub ceil_div-covers : (a b : ℕ) → 0 < b → a ≤ ceil_div a b * b
ceil_div-covers a b h = grind arith

-- The first multiple: one base less does not cover the bid.
pub ceil_div-least : (a b : ℕ) → 0 < b → ceil_div a b * b < a + b
ceil_div-least a b h = grind arith

-- Whether the declarer wins.
pub game_worth-won :
    (tp : Tops) (c : Contract) (de n : ℕ)
    → ((game_worth tp c de n).won ≡ true)
      ↔ ((61 ≤ de) × (c.schneider ≡ true → 90 ≤ de) × (c.schwarz ≡ true → 10 ≤ n))
unfolding game_worth
game_worth-won tp c de n = ground arith

base-pos : (g : Game) → is_null g ≡ false → 0 < base_value g
base-pos null_game h = cc
base-pos grand h = omega arith
base-pos (suit_game clubs) h = omega arith
base-pos (suit_game spades) h = omega arith
base-pos (suit_game hearts) h = omega arith
base-pos (suit_game diamonds) h = omega arith

null_worth-base : (c : Contract) (n : ℕ) → 0 < (null_worth c n).base
unfolding null_worth null_value
null_worth-base c n = ground arith

game_worth-base :
    (tp : Tops) (c : Contract) (de n : ℕ) → is_null c.game ≡ false → 0 < (game_worth tp c de n).base
unfolding game_worth
game_worth-base tp c de n h = base-pos c.game h

raise_overbid-enough :
    (w : Worth) (bid : ℕ)
    → 0 < w.base
    → (bid ≤ (raise_overbid w bid).value)
      × ((raise_overbid w bid).won ≡ true → (w.won ≡ true) × (bid ≤ w.value))
unfolding raise_overbid
raise_overbid-enough w bid h = ground (arith, ceil_div-covers bid w.base h)

-- Measuring a game with a positive base value against the bid has two outcomes. A game that covers the
-- bid stays as it is. Any other is lost, and its value becomes the smallest multiple of the base value
-- that covers the bid.
pub raise_overbid-covers :
    (w : Worth) (bid : ℕ)
    → 0 < w.base
    → ((bid ≤ w.value) × (raise_overbid w bid ≡ w))
      ⊎ ((w.value < bid)
          × ((raise_overbid w bid).won ≡ false)
          × (bid ≤ (raise_overbid w bid).value)
          × ((raise_overbid w bid).value < bid + w.base)
          × ((k : ℕ) × ((raise_overbid w bid).value ≡ k * w.base)))
unfolding raise_overbid
raise_overbid-covers w bid h = elim (Bool-cases (ltb w.value bid)) [
  | inl short ↦ rw short (
      inr (
        ground arith,
        refl,
        ceil_div-covers bid w.base h,
        ceil_div-least bid w.base h,
        (ceil_div bid w.base, refl),
      ))
  | inr enough ↦ rw enough (inl (ground arith, refl))
]

doubling-pos : (k : ℕ) → 0 < doubling k
doubling-pos k = elim (Bool-cases (k == 0)) [
  | inl z ↦ rw z (omega arith)
  | inr p ↦ rw p (pow-pos k)
]
  where
    pow-pos : (n : ℕ) → 0 < 2 ^ n
    pow-pos zero = omega arith
    pow-pos (suc n) = omega (arith, pow-suc 2 n, pow-pos n)

doubled-le : (v k : ℕ) → v ≤ (if ltb 1 (doubling k) then v * doubling k else v)
doubled-le v k = elim (Bool-cases (ltb 1 (doubling k))) [
  | inl more ↦ rw more (grind (arith, doubling-pos k))
  | inr once ↦ rw once (omega arith)
]

-- The value that is written down covers the bid, and a game that is won was not overbid.
pub settle-covers :
    (s : State) (d : ℕ) (c : Contract) (de n : ℕ) (w : Worth)
    → 0 < w.base
    → (s.bid.value ≤ (settle s d c de n w).value)
      × (((settle s d c de n w).won ≡ true) ↔ ((w.won ≡ true) × (s.bid.value ≤ w.value)))
      × (((settle s d c de n w).overbid ≡ true) ↔ (w.value < s.bid.value))
unfolding settle
settle-covers s d c de n w h = (
  omega (
    arith,
    (raise_overbid-enough w s.bid.value h).0,
    doubled-le (raise_overbid w s.bid.value).value s.kontra,
  ),
  ground arith,
  ground arith,
)

-- What the seats get, by whether the declarer has won: the points and the tournament list.
abbrev pub for_seats : (ℕ → ℤ) → List ℤ
for_seats f = f 0 ∷ f 1 ∷ f 2 ∷ []

abbrev pub declarer_points : Bool → ℕ → ℤ
declarer_points true value = pos value
declarer_points false value = minus (2 * value)

abbrev pub listed : Bool → ℕ → ℤ
listed true value = pos value +ℤ pos 50
listed false value = minus (2 * value) +ℤ negsuc 49

abbrev pub Settled : Bool → ℕ → ℕ → List ℤ → List ℤ → Type 0
Settled won d value points list =
    (points ≡ for_seats (λ i. if i == d then declarer_points won value else pos 0))
    × (list ≡ for_seats (λ i. if i == d then listed won value else if won then pos 0 else pos 40))

seats-Settled :
    (won : Bool) (d value : ℕ)
    → d < 3
    → Settled won d value (points_of won d value) (list_of won d value)
seats-Settled true zero value h = (refl, refl)
seats-Settled true (suc zero) value h = (refl, refl)
seats-Settled true (suc (suc zero)) value h = (refl, refl)
seats-Settled false zero value h = (refl, refl)
seats-Settled false (suc zero) value h = (refl, refl)
seats-Settled false (suc (suc zero)) value h = (refl, refl)
seats-Settled won (suc (suc (suc d))) value h = absurd (omega arith)

-- The points: the declarer gets the value of a game that is won and loses twice the value of any
-- other; nobody else gets points. The list adds 50 for the declarer or takes 50 away, and gives each
-- defender 40 where the declarer loses.
pub settle-Settled :
    (s : State) (d : ℕ) (c : Contract) (de n : ℕ) (w : Worth)
    → d < 3
    → let g = settle s d c de n w in Settled g.won d g.value g.points g.list
unfolding settle
settle-Settled s d c de n w h = seats-Settled (raise_overbid w s.bid.value).won d _ h

-- The number of the declarer's tricks.
abbrev pub own_tricks : State → ℕ → ℕ
own_tricks s d = length (taken_by_seat d s.tricks)

-- When the declarer of a suit game or of Grand wins: with more than half of the points, with every
-- prediction met, and with a game that is worth the bid.
pub declarer_result-won :
    (s : State) (full : Deal) (d : ℕ) (c : Contract)
    → is_null c.game ≡ false
    → let de = declarer_eyes s full d in
      let n = own_tricks s d in
      ((declarer_result s full d c).won ≡ true) ↔ (
        ((61 ≤ de) × (c.schneider ≡ true → 90 ≤ de) × (c.schwarz ≡ true → 10 ≤ n))
        × (s.bid.value ≤ (game_worth (tops c.game (twelve full d)) c de n).value))
unfolding declarer_result
declarer_result-won s full d c h =
    let de = declarer_eyes s full d in
    let n = own_tricks s d in
    let tp = tops c.game (twelve full d) in
    let covers = settle-covers s d c de n (game_worth tp c de n) (game_worth-base tp c de n h) in
    let wins = game_worth-won tp c de n in
    rw h (λ e. let (w, b) = covers.1.0 e in (wins.0 w, b), λ e. covers.1.1 (wins.1 e.0, e.1))

null_worth-won : (c : Contract) (n : ℕ) → ((null_worth c n).won ≡ true) ↔ (n ≡ 0)
unfolding null_worth
null_worth-won c n = ground arith

-- When the declarer of a Null wins: without a trick, and with a Null that is worth the bid.
pub declarer_result-null_won :
    (s : State) (full : Deal) (d : ℕ) (c : Contract)
    → is_null c.game ≡ true
    → ((declarer_result s full d c).won ≡ true)
      ↔ ((own_tricks s d ≡ 0) × (s.bid.value ≤ null_value c.hand c.ouvert))
unfolding declarer_result null_worth
declarer_result-null_won s full d c h =
    let de = declarer_eyes s full d in
    let n = own_tricks s d in
    let covers = settle-covers s d c de n (null_worth c n) (null_worth-base c n) in
    let wins = null_worth-won c n in
    rw h (λ e. let (w, b) = covers.1.0 e in (wins.0 w, b), λ e. covers.1.1 (wins.1 e.0, e.1))

-- For a declarer at one of the three seats, whatever the game: the value that is written down covers the
-- bid; the declarer gets it in a game that is won and loses twice of it in any other, and nobody else
-- gets points; the list adds 50 for the declarer or takes 50 away, and gives each of the others 40 where
-- the declarer loses.
pub declarer_result-Settled :
    (s : State) (full : Deal) (d : ℕ) (c : Contract)
    → d < 3
    → let g = declarer_result s full d c in
      (s.bid.value ≤ g.value) × Settled g.won d g.value g.points g.list
unfolding declarer_result
declarer_result-Settled s full d c h =
    let de = declarer_eyes s full d in
    let n = own_tricks s d in
    let tp = tops c.game (twelve full d) in
    elim (Bool-cases (is_null c.game)) [
      | inl is_n ↦
          let w = null_worth c n in
          rw is_n
            ((settle-covers s d c de n w (null_worth-base c n)).0, settle-Settled s d c de n w h)
      | inr no_n ↦
          let w = game_worth tp c de n in
          rw no_n (
            (settle-covers s d c de n w (game_worth-base tp c de n no_n)).0,
            settle-Settled s d c de n w h,
          )
    ]
