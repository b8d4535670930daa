-- ===== src/Skat/Winner/Rules.antt =====
-- Skat: the rules of the game as a relation between two cards, and the strength that the code
-- gives a card against them.
use cads_agent_marketplace.Common.{
  Bool-cases, arith, beq_self, contains, false, index_of, index_of-injective, index_of-lt, inl, inr,
  length, nat_eq, true, ◌-◌, ◌<◌, ◌==◌, ◌≡◌, ◌≢◌, ◌≤◌, ◌⊎◌,
}
use cads_agent_marketplace.Common.Int.{ltb_ℤ, negsuc, pos, ◌≤ℤ◌}
use cads_agent_marketplace.Skat.Cards.{
  Card, Game, card_eq, grand, null_game, rank_eq, suit_eq, suit_game,
}
use cads_agent_marketplace.Skat.State.{rule_eq}
use cads_agent_marketplace.Skat.Strength.{
  Led, is_trump, led_beq_iff, led_eq, plain, plain_order, power, suit_of, trump, trump_order,
}

-- `c` beats `d` where `led` was led: a trump beats what is no trump, and the suit that was led beats
-- the other suits; among trumps, and among cards of the suit, the order of the game decides.
pub data Beats (g : Game) (led : Led) (c d : Card) : Type 0 where
  by_trump : is_trump g c ≡ true → is_trump g d ≡ false → Beats g led c d
  higher_trump :
      is_trump g c ≡ true
      → is_trump g d ≡ true
      → index_of (trump_order g) c < index_of (trump_order g) d
      → Beats g led c d
  by_suit :
      is_trump g c ≡ false
      → is_trump g d ≡ false
      → plain c.suit ≡ led
      → plain d.suit ≢ led
      → Beats g led c d
  higher_rank :
      is_trump g c ≡ false
      → is_trump g d ≡ false
      → plain c.suit ≡ led
      → plain d.suit ≡ led
      → index_of (plain_order g) c.rank < index_of (plain_order g) d.rank
      → Beats g led c d

-- Every trump stands in the order of trumps, and every other rank in the order of its suit.
trump-in_order : (g : Game) (c : Card) → is_trump g c ≡ true → contains (trump_order g) c ≡ true
unfolding is_trump trump_order
trump-in_order null_game c h = cc
trump-in_order grand c h = ground arith
trump-in_order (suit_game s) c h = ground arith

rank-in_order :
    (g : Game) (c : Card) → is_trump g c ≡ false → contains (plain_order g) c.rank ≡ true
unfolding is_trump
rank-in_order null_game c h = ground arith
rank-in_order grand c h = ground arith
rank-in_order (suit_game s) c h = ground arith

order-length : (g : Game) → (length (trump_order g) ≤ 11) × (length (plain_order g) ≤ 8)
unfolding trump_order
order-length null_game = omega arith
order-length grand = omega arith
order-length (suit_game s) = omega arith

module _ (g : Game) (led : Led) where
  trump-below : (c : Card) → is_trump g c ≡ true → index_of (trump_order g) c < 11
  trump-below c t =
      omega (arith, index_of-lt (trump_order g) c (trump-in_order g c t), order-length g)

  rank-below : (c : Card) → is_trump g c ≡ false → index_of (plain_order g) c.rank < 8
  rank-below c t =
      omega (arith, index_of-lt (plain_order g) c.rank (rank-in_order g c t), order-length g)

  power-trump :
      (c : Card) → is_trump g c ≡ true → power g c led ≡ pos (100 - index_of (trump_order g) c)
  unfolding power
  power-trump c t = rw t

  power-off :
      (c : Card) → is_trump g c ≡ false → (plain c.suit == led) ≡ false → power g c led ≡ negsuc 0
  unfolding power
  power-off c t k = rw (t, k)

  power-suit :
      (c : Card)
      → is_trump g c ≡ false
      → (plain c.suit == led) ≡ true
      → power g c led ≡ pos (50 - index_of (plain_order g) c.rank)
  unfolding power
  power-suit c t k = rw (t, k)

  off-led : (c : Card) → (plain c.suit == led) ≡ false → plain c.suit ≢ led
  off-led c k e = ground (arith, led_beq_iff (plain c.suit) led)

  -- The stronger card beats the weaker one.
  pub power-Beats : (c d : Card) → ltb_ℤ (power g d led) (power g c led) ≡ true → Beats g led c d
  power-Beats c d h = elim (Bool-cases (is_trump g c)) [
    | inl tc ↦ elim (Bool-cases (is_trump g d)) [
      | inl td ↦
          higher_trump tc td
            (ground (arith, power-trump c tc, power-trump d td, trump-below c tc, trump-below d td))
      | inr td ↦ by_trump tc td
    ]
    | inr tc ↦ elim (Bool-cases (is_trump g d)) [
      | inl td ↦ absurd (no_trump tc td (Bool-cases (plain c.suit == led)))
      | inr td ↦ elim (Bool-cases (plain c.suit == led)) [
        | inr off ↦ absurd (no_suit tc td off (Bool-cases (plain d.suit == led)))
        | inl on ↦ elim (Bool-cases (plain d.suit == led)) [
          | inr weak ↦ by_suit tc td ((led_beq_iff _ _).0 on) (off-led d weak)
          | inl same ↦ higher_rank tc td ((led_beq_iff _ _).0 on) ((led_beq_iff _ _).0 same) (
              ground
                (arith, power-suit c tc on, power-suit d td same, rank-below c tc, rank-below d td))
        ]
      ]
    ]
  ]
    where
      no_trump :
          is_trump g c ≡ false
          → is_trump g d ≡ true
          → ((plain c.suit == led) ≡ true) ⊎ ((plain c.suit == led) ≡ false)
          → ⊥
      no_trump tc td (inl on) =
          ground (arith, h, power-suit c tc on, power-trump d td, trump-below d td)
      no_trump tc td (inr off) =
          ground (arith, h, power-off c tc off, power-trump d td, trump-below d td)

      no_suit :
          is_trump g c ≡ false
          → is_trump g d ≡ false
          → (plain c.suit == led) ≡ false
          → ((plain d.suit == led) ≡ true) ⊎ ((plain d.suit == led) ≡ false)
          → ⊥
      no_suit tc td off (inl on) = ground (arith, h, power-off c tc off, power-suit d td on)
      no_suit tc td off (inr o) = ground (arith, h, power-off c tc off, power-off d td o)

  same-trump :
      (c d : Card)
      → is_trump g c ≡ true
      → is_trump g d ≡ true
      → power g c led ≡ power g d led
      → c ≡ d
  same-trump c d tc td h =
      index_of-injective (trump_order g) c d (trump-in_order g c tc)
        (ground (arith, power-trump c tc, power-trump d td, trump-below c tc, trump-below d td))

  same-suit :
      (c d : Card)
      → is_trump g c ≡ false
      → is_trump g d ≡ false
      → (plain c.suit == led) ≡ true
      → (plain d.suit == led) ≡ true
      → power g c led ≡ power g d led
      → c ≡ d
  same-suit c d tc td on same h = cc (
    index_of-injective (plain_order g) c.rank d.rank (rank-in_order g c tc) (
        ground (arith, power-suit c tc on, power-suit d td same, rank-below c tc, rank-below d td)),
    (led_beq_iff (plain c.suit) led).0 on,
    (led_beq_iff (plain d.suit) led).0 same,
  )

  -- Different cards are never equally strong, unless both are neither trump nor of the suit led.
  pub power-injective :
      (c d : Card) → pos 0 ≤ℤ power g c led → power g c led ≡ power g d led → c ≡ d
  power-injective c d s h = elim (Bool-cases (is_trump g c)) [
    | inl tc ↦ elim (Bool-cases (is_trump g d)) [
      | inl td ↦ same-trump c d tc td h
      | inr td ↦ elim (Bool-cases (plain d.suit == led)) [
        | inl on ↦ absurd (ground (arith, power-trump c tc, trump-below c tc, power-suit d td on))
        | inr off ↦ absurd (ground (arith, power-trump c tc, trump-below c tc, power-off d td off))
      ]
    ]
    | inr tc ↦ elim (Bool-cases (plain c.suit == led)) [
      | inr off ↦ absurd (ground (arith, power-off c tc off))
      | inl on ↦ elim (Bool-cases (is_trump g d)) [
        | inl td ↦ absurd (ground (arith, power-trump d td, trump-below d td, power-suit c tc on))
        | inr td ↦ elim (Bool-cases (plain d.suit == led)) [
          | inl same ↦ same-suit c d tc td on same h
          | inr off ↦
              absurd (ground (arith, power-suit c tc on, rank-below c tc, power-off d td off))
        ]
      ]
    ]
  ]

-- The card that is led counts: it is trump or of the suit led.
pub lead_counts : (g : Game) (c : Card) → pos 0 ≤ℤ power g c (suit_of g c)
unfolding suit_of
lead_counts g c = elim (Bool-cases (is_trump g c)) [
  | inl t ↦ rw t (ground (arith, power-trump g trump c t))
  | inr t ↦ rw t (ground (arith, power-suit g (plain c.suit) c t (beq_self (plain c.suit))))
]
