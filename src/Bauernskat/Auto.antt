-- ===== src/Bauernskat/Auto.antt =====
-- Bauernskat: the move for an absent player and the offered moves
-- (apps/duell-web/src/bauernskat.js: auto, actions).
-- A value stands somewhere in a list.
use mathlib.Core.Option.{some-injective}
use mathlib.Core.Path.{subst}
use cads_agent_marketplace.Common.{
  Bool, Bool-cases, List, Option, [], ap, arith, beq_self, contains, false, filter, get_elem?,
  if◌then◌else◌, inl, inr, leb, length, list_eq, map, nat_eq, none, refl, some, suc, sym, true,
  zero, ℕ, ◌&&◌, ◌++◌, ◌==◌, ◌∙◌, ◌∷◌, ◌≡◌,
}
use cads_agent_marketplace.Bauernskat.Apply.{Action, Move, is_empty}
use cads_agent_marketplace.Bauernskat.Moves.{
  act, actions, auto, auto_in, auto_play, best_game, declare_of, first_card, games, kontra_moves,
  moves_in, option_act, play_moves, play_of, playable, plays_in, weakness,
}
use cads_agent_marketplace.Bauernskat.State.{
  Phase, State, dealing, declaring, over, playing, rule_eq, tops, turn, turn_in,
}
use cads_agent_marketplace.Skat.Apply.{table_cards}
use cads_agent_marketplace.Skat.Auto.{contains-sort_by}
use cads_agent_marketplace.Skat.Cards.{
  Card, Game, Suit, card_beq_iff, card_eq, clubs, diamonds, grand, hearts, jack, rank_beq, rank_eq,
  spades, suit_eq, suit_game,
}
use cads_agent_marketplace.Skat.Moves.{Key, longest, sort_by}
use cads_agent_marketplace.Skat.State.{is_seat}
use cads_agent_marketplace.Skat.Strength.{led_eq}

abbrev pub Stands {ℓ} : {A : Type ℓ} → A → List A → Type ℓ
Stands a xs = (i : ℕ) × (get_elem? xs i ≡ some a)

module _ {A B : Type 0} where
  at-map :
      (f : A → B) (xs : List A) (i : ℕ) (x : A)
      → get_elem? xs i ≡ some x
      → get_elem? (map f xs) i ≡ some (f x)
  at-map f [] i x h = cc
  at-map f (y ∷ ys) zero x h = ap (λ z. some (f z)) (some-injective y x h)
  at-map f (y ∷ ys) (suc i) x h = at-map f ys i x h

  Stands-map : (f : A → B) (xs : List A) (x : A) → Stands x xs → Stands (f x) (map f xs)
  Stands-map f xs x (i, h) = (i, at-map f xs i x h)

module _ {A : Type 0} where
  at-append :
      (xs ys : List A) (i : ℕ) (x : A) → get_elem? xs i ≡ some x → get_elem? (xs ++ ys) i ≡ some x
  at-append [] ys i x h = cc
  at-append (z ∷ xs) ys zero x h = h
  at-append (z ∷ xs) ys (suc i) x h = at-append xs ys i x h

  Stands-append : (xs ys : List A) (x : A) → Stands x xs → Stands x (xs ++ ys)
  Stands-append xs ys x (i, h) = (i, at-append xs ys i x h)

contains-Stands : (cs : List Card) (c : Card) → contains cs c ≡ true → Stands c cs
contains-Stands [] c h = cc
contains-Stands (d ∷ cs) c h = elim (Bool-cases (d == c)) [
  | inl same ↦ (zero, ap some ((card_beq_iff d c).0 same))
  | inr other ↦
      let there : contains cs c ≡ true = ground arith in
      let (i, e) = contains-Stands cs c there in (suc i, e)
]

suit-Stands : (s : State) (u : Suit) → Stands (suit_game u) (games s)
suit-Stands s clubs = (0, refl)
suit-Stands s spades = (1, refl)
suit-Stands s hearts = (2, refl)
suit-Stands s diamonds = (3, refl)

best-Stands :
    (s : State) (mine : List Card) (b : Bool)
    → Stands (if b then grand else suit_game (longest mine)) (games s)
best-Stands s mine true = (4, refl)
best-Stands s mine false = suit-Stands s (longest mine)

first_card-Stands :
    (cs : List Card) (m : Move)
    → first_card cs ≡ some m
    → (c : Card) × (contains cs c ≡ true) × (play_of c ≡ m)
first_card-Stands [] m h = cc
first_card-Stands (c ∷ cs) m h = (c, ground (arith, beq_self c), some-injective (play_of c) m h)

play-Stands :
    (o : Option Game) (s : State) (seat : ℕ) (m : Move)
    → auto_play o s seat ≡ some m
    → Stands m (plays_in o s seat)
play-Stands none s seat m h = cc
play-Stands (some g) s seat m h =
    let cs = playable s g seat in
    let key : Card → Key = weakness g (table_cards s.trick) in
    let (c, there, same) = first_card-Stands (sort_by key cs) m h in
    subst (λ n. Stands n (map play_of cs)) same
      (Stands-map play_of cs c (contains-Stands cs c (sym (contains-sort_by key cs c) ∙ there)))

auto_in-Stands :
    (p : Phase) (s : State) (seat : ℕ) (m : Move)
    → is_seat (turn_in p s) seat ≡ true
    → auto_in p s seat ≡ some m
    → Stands m (moves_in p s seat)
auto_in-Stands dealing s seat m t h = cc
auto_in-Stands over s seat m t h = cc
auto_in-Stands declaring s seat m t h =
    let mine = tops s seat in
    let here : (seat == s.declarer) ≡ true = ground arith in
    rw here (
      subst (λ n. Stands n (map declare_of (games s)))
        (some-injective (declare_of (best_game mine)) m h)
        (Stands-map declare_of (games s) (best_game mine)
          (best-Stands s mine (leb 3 (length (filter (λ c. rank_beq c.rank jack) mine))))))
auto_in-Stands playing s seat m t h =
    Stands-append (play_moves s seat) (kontra_moves s seat) m (open_flip (is_empty s.flip) h)
  where
    open_flip :
        (b : Bool)
        → (if b then auto_play s.contract s seat else none) ≡ some m
        → Stands m (if is_seat s.next seat && b then plays_in s.contract s seat else [])
    open_flip true e =
        subst (λ x. Stands m (if x && true then plays_in s.contract s seat else [])) (sym t)
          (play-Stands s.contract s seat m e)
    open_flip false e = cc

-- The move that is made for an absent player is always one of those that are offered to the seat.
pub auto-Stands :
    (s : State) (seat : ℕ) (a : Action) → auto s seat ≡ some a → Stands a (actions s seat)
unfolding auto actions turn
auto-Stands s seat a h = from (is_seat (turn_in s.phase s) seat) refl h
  where
    act_of :
        (o : Option Move)
        → auto_in s.phase s seat ≡ o
        → is_seat (turn_in s.phase s) seat ≡ true
        → option_act seat o ≡ some a
        → Stands a (map (act seat) (moves_in s.phase s seat))
    act_of none e t k = cc
    act_of (some m) e t k =
        subst (λ x. Stands x (map (act seat) (moves_in s.phase s seat)))
          (some-injective (act seat m) a k)
          (Stands-map (act seat) (moves_in s.phase s seat) m (auto_in-Stands s.phase s seat m t e))

    from :
        (b : Bool)
        → is_seat (turn_in s.phase s) seat ≡ b
        → (if b then option_act seat (auto_in s.phase s seat) else none) ≡ some a
        → Stands a (map (act seat) (moves_in s.phase s seat))
    from true t k = act_of (auto_in s.phase s seat) refl t k
    from false t k = cc
