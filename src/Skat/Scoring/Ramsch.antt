-- ===== src/Skat/Scoring/Ramsch.antt =====
-- Skat: the card points of a Ramsch.
use mathlib.Core.Option.{some-injective}
use mathlib.Core.Path.{subst}
use cads_agent_marketplace.Common.{
  All, Bool, Bool-cases, List, [], ap, arith, get_elem?, if◌then◌else◌, inl, inr, leb, list_eq, map,
  nat_eq, none, refl, some, suc, true, zero, ℕ, ◌&&◌, ◌++◌, ◌+◌, ◌<◌, ◌==◌, ◌∙◌, ◌∷◌, ◌≡◌, ◌≤◌,
}
use cads_agent_marketplace.Common.Int.{pos, ℤ}
use cads_agent_marketplace.Skat.Apply.{play_cards, taken_cards}
use cads_agent_marketplace.Skat.Cards.{Card, card_eq, eyes, rank_eq, suit_eq}
use cads_agent_marketplace.Skat.Ramsch.{
  last_taken, marches, max3, own_eyes, ramsch_eyes, ramsch_points, ramsch_result, three_seats,
}
use cads_agent_marketplace.Skat.Score.{Deal, minus, or_empty, taken_by_seat}
use cads_agent_marketplace.Skat.State.{State, Taken, rule_eq}
use cads_agent_marketplace.Skat.Strength.{led_eq}

eyes-append : (cs ds : List Card) → eyes (cs ++ ds) ≡ eyes cs + eyes ds
unfolding eyes
eyes-append [] ds = omega arith
eyes-append (c ∷ cs) ds = omega (arith, eyes-append cs ds)

own_eyes-cons :
    (t : Taken) (ts : List Taken) (seat : ℕ)
    → own_eyes (t ∷ ts) seat
      ≡ (if t.winner == seat then eyes (play_cards t.cards) else 0) + own_eyes ts seat
own_eyes-cons t ts seat = elim (Bool-cases (t.winner == seat)) [
  | inl same ↦ rw same (eyes-append (play_cards t.cards) (taken_cards (taken_by_seat seat ts)))
  | inr other ↦ rw other (omega arith)
]

-- Three seats share what is given to one of them.
shared :
    (w n : ℕ)
    → w < 3
    → (if w == 0 then n else 0) + (if w == 1 then n else 0) + (if w == 2 then n else 0) ≡ n
shared zero n h = omega arith
shared (suc zero) n h = omega arith
shared (suc (suc zero)) n h = omega arith
shared (suc (suc (suc w))) n h = absurd (omega arith)

own_eyes-total :
    (ts : List Taken)
    → All (λ t. t.winner < 3) ts
    → own_eyes ts 0 + own_eyes ts 1 + own_eyes ts 2 ≡ eyes (taken_cards ts)
unfolding eyes
own_eyes-total [] h = refl
own_eyes-total (t ∷ ts) h = omega (
  arith,
  own_eyes-cons t ts 0,
  own_eyes-cons t ts 1,
  own_eyes-cons t ts 2,
  shared t.winner (eyes (play_cards t.cards)) h.0,
  own_eyes-total ts h.1,
  eyes-append (play_cards t.cards) (taken_cards ts),
)

last-winner :
    (ts : List Taken) (t : Taken)
    → All (λ u. u.winner < 3) ts
    → last_taken ts ≡ some t
    → t.winner < 3
last-winner [] t h e = cc
last-winner (u ∷ []) t h e = subst (λ v. v.winner < 3) (some-injective u t e) h.0
last-winner (u ∷ v ∷ ts) t h e = last-winner (v ∷ ts) t h.1 e

-- In a Ramsch with at least one trick, and whose tricks were taken by the three seats, the points of the
-- seats add up to the points of the cards that were played and of the skat.
pub ramsch_eyes-total :
    (s : State) (full : Deal) (last : Taken)
    → All (λ t. t.winner < 3) s.tricks
    → last_taken s.tricks ≡ some last
    → ramsch_eyes s full 0 + ramsch_eyes s full 1 + ramsch_eyes s full 2
      ≡ eyes (taken_cards s.tricks) + eyes (or_empty full.skat)
unfolding ramsch_eyes
ramsch_eyes-total s full last h e =
    let skat = shared last.winner (eyes (or_empty full.skat)) (last-winner s.tricks last h e) in
    rw e (omega (arith, own_eyes-total s.tricks h, skat))

-- A seat with as many points as any other.
abbrev pub is_top : (ℕ → ℕ) → ℕ → Bool
is_top e seat = leb (e 0) (e seat) && (leb (e 1) (e seat) && leb (e 2) (e seat))

top_of_three :
    (a b c : ℕ)
    → ((a == max3 a b c) ≡ (leb a a && (leb b a && leb c a)))
      × ((b == max3 a b c) ≡ (leb a b && (leb b b && leb c b)))
      × ((c == max3 a b c) ≡ (leb a c && (leb b c && leb c c)))
top_of_three a b c = ground arith

tops_lose :
    (s : State) (full : Deal)
    → marches s.tricks three_seats ≡ none
    → let e = ramsch_eyes s full in
      (ramsch_result s full).points
      ≡ map (λ seat. if is_top e seat then minus (e seat) else pos 0) three_seats
unfolding ramsch_result ramsch_points
tops_lose s full m =
    let e = ramsch_eyes s full in
    let (first, second, third) = top_of_three (e 0) (e 1) (e 2) in rw (m, first, second, third) refl

-- The most of three numbers is a third of their sum or more.
top_seat :
    (e : ℕ → ℕ)
    → e 0 + e 1 + e 2 ≡ 120
    → (seat : ℕ) × (seat < 3) × (is_top e seat ≡ true) × (40 ≤ e seat)
top_seat e total = elim (Bool-cases (is_top e 0)) [
  | inl first ↦ (0, omega arith, first, ground arith)
  | inr not_first ↦ elim (Bool-cases (is_top e 1)) [
    | inl second ↦ (1, omega arith, second, ground arith)
    | inr not_second ↦ (2, omega arith, ground arith, ground arith)
  ]
]

points-at : (f : ℕ → ℤ) (seat : ℕ) → seat < 3 → get_elem? (map f three_seats) seat ≡ some (f seat)
points-at f zero h = refl
points-at f (suc zero) h = refl
points-at f (suc (suc zero)) h = refl
points-at f (suc (suc (suc n))) h = absurd (omega arith)

-- A Ramsch in which 120 points were given out and no seat has all ten tricks is lost by somebody, and
-- with 40 points at least: a seat whose points no other exceeds loses just these points.
pub ramsch_result-loser :
    (s : State) (full : Deal) (last : Taken)
    → All (λ t. t.winner < 3) s.tricks
    → last_taken s.tricks ≡ some last
    → eyes (taken_cards s.tricks) + eyes (or_empty full.skat) ≡ 120
    → marches s.tricks three_seats ≡ none
    → let e = ramsch_eyes s full in
      (seat : ℕ) × (seat < 3)
      × (40 ≤ e seat)
      × (is_top e seat ≡ true)
      × (get_elem? (ramsch_result s full).points seat ≡ some (minus (e seat)))
ramsch_result-loser s full last h taken total m =
    let e = ramsch_eyes s full in
    let (seat, small, top, many) = top_seat e (ramsch_eyes-total s full last h taken ∙ total) in
    (
      seat,
      small,
      many,
      top,
      ap (λ ps. get_elem? ps seat) (tops_lose s full m)
          ∙ (points-at (λ i. if is_top e i then minus (e i) else pos 0) seat small
              ∙ ap (λ b. some (if b then minus (e seat) else pos 0)) top),
    )
