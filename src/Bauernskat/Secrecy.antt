-- ===== src/Bauernskat/Secrecy.antt =====
-- Bauernskat: which cards are opened (apps/duell-web/src/bauernskat.js: reveals, turnUp).
use mathlib.Core.Path.{subst}
use cads_agent_marketplace.Common.{
  Bool, Bool-cases, List, Option, [], any, ap, arith, false, get_elem?, if◌then◌else◌, inl, inr,
  ltb, map, none, not, refl, some, suc, sym, true, zero, ℕ, ◌++◌, ◌+◌, ◌<◌, ◌||◌, ◌↔◌, ◌∙◌, ◌∷◌,
  ◌≡◌, ◌≢◌, ◌⊎◌,
}
use cads_agent_marketplace.Bauernskat.Apply.{
  Outcome, action_reason, apply, fail, is_new, ok, phase_dispatch, same_spot, thrown, turn_card,
  turn_dealt, turn_flipped, turn_in_phase, turn_move, turn_up,
}
use cads_agent_marketplace.Bauernskat.State.{
  Phase, Pile, Reveal, Spot, State, dealing, declaring, face_down, is_bare, or_no_row, over,
  playing, reveals, reveals_in, row_of, up_in_row, up_in_rows,
}
use cads_agent_marketplace.Skat.Apply.{shown}
use cads_agent_marketplace.Skat.Cards.{Card}

abbrev pub IsOk : Outcome → Type 0
IsOk (ok t) = Unit
IsOk (fail e) = ⊥
IsOk thrown = ⊥

-- The card at the spot may be opened.
abbrev pub may_open : List Reveal → Spot → Bool
may_open rs f = any (λ r. same_spot f r.spot) rs

may_open-append :
    (rs us : List Reveal) (f : Spot) → may_open (rs ++ us) f ≡ (may_open rs f || may_open us f)
may_open-append [] us f = refl
may_open-append (r ∷ rs) us f = ground (arith, may_open-append rs us f)

abbrev pub bare_at : Option Pile → Bool
bare_at none = false
bare_at (some x) = is_bare x

-- A row lists only its own seat, and only places from `k` on.
up_in_row-other :
    (seat k : ℕ) (row : List Pile) (f : Spot)
    → (f.seat ≢ seat) ⊎ (f.i < k)
    → may_open (up_in_row seat k row) f ≡ false
up_in_row-other seat k [] f h = refl
up_in_row-other seat k (x ∷ xs) f h =
    let later : (f.seat ≢ seat) ⊎ (f.i < suc k) = ground arith in
    let rest = up_in_row-other seat (suc k) xs f later in
    elim (Bool-cases (is_bare x)) [
      | inl bare ↦ rw bare (ground (arith, rest))
      | inr shown ↦ rw shown rest
    ]

up_in_row-at :
    (seat k j : ℕ) (row : List Pile) (f : Spot)
    → f.seat ≡ seat
    → f.i ≡ k + j
    → may_open (up_in_row seat k row) f ≡ bare_at (get_elem? row j)
up_in_row-at seat k j [] f e h = refl
up_in_row-at seat k zero (x ∷ xs) f e h =
    let rest = up_in_row-other seat (suc k) xs f (inr (omega arith)) in
    elim (Bool-cases (is_bare x)) [
      | inl bare ↦ rw bare (ground (arith, rest))
      | inr shown ↦ rw shown rest
    ]
up_in_row-at seat k (suc j) (x ∷ xs) f e h =
    let rest = up_in_row-at seat (suc k) j xs f e (omega arith) in
    elim (Bool-cases (is_bare x)) [
      | inl bare ↦ rw bare (ground (arith, rest))
      | inr shown ↦ rw shown rest
    ]

up_in_rows-other :
    (base : ℕ) (rows : List (List Pile)) (f : Spot)
    → f.seat < base
    → may_open (up_in_rows base rows) f ≡ false
up_in_rows-other base [] f h = refl
up_in_rows-other base (row ∷ rows) f h =
    may_open-append (up_in_row base 0 row) (up_in_rows (suc base) rows) f
    ∙ ground (
      arith,
      up_in_row-other base 0 row f (inl (ground arith)),
      up_in_rows-other (suc base) rows f (omega arith),
    )

up_in_rows-at :
    (base q : ℕ) (rows : List (List Pile)) (f : Spot)
    → f.seat ≡ base + q
    → may_open (up_in_rows base rows) f ≡ bare_at (get_elem? (or_no_row (get_elem? rows q)) f.i)
up_in_rows-at base q [] f e = refl
up_in_rows-at base zero (row ∷ rows) f e =
    may_open-append (up_in_row base 0 row) (up_in_rows (suc base) rows) f
    ∙ ground (
      arith,
      up_in_row-at base 0 f.i row f (omega arith) (omega arith),
      up_in_rows-other (suc base) rows f (omega arith),
    )
up_in_rows-at base (suc q) (row ∷ rows) f e =
    may_open-append (up_in_row base 0 row) (up_in_rows (suc base) rows) f
    ∙ ground (
      arith,
      up_in_row-other base 0 row f (inl (ground arith)),
      up_in_rows-at (suc base) q rows f (omega arith),
    )

face_down-may_open :
    (fs : List Spot) (f : Spot) → may_open (map face_down fs) f ≡ any (same_spot f) fs
face_down-may_open [] f = refl
face_down-may_open (g ∷ fs) f = ap (λ b. same_spot f g || b) (face_down-may_open fs f)

dealt-IsOk :
    (s : State) (f : Spot) (x : Pile) (c : Card) → IsOk (turn_dealt s f x c) ↔ (is_bare x ≡ true)
dealt-IsOk s f x c = elim (Bool-cases (is_bare x)) [
  | inl bare ↦ rw bare (λ o. refl, λ e. tt)
  | inr shown ↦ rw shown (λ o. absurd o, λ e. cc)
]

flipped-IsOk :
    (s : State) (f : Spot) (c : Card)
    → IsOk (turn_flipped s f c) ↔ (any (same_spot f) s.flip ≡ true)
flipped-IsOk s f c = elim (Bool-cases (any (same_spot f) s.flip)) [
  | inl due ↦ rw due (λ o. refl, λ e. tt)
  | inr early ↦ rw early (λ o. absurd o, λ e. cc)
]

turned-IsOk :
    (p : Phase) (s : State) (f : Spot) (x : Pile) (c : Card)
    → get_elem? (row_of s f.seat) f.i ≡ some x
    → IsOk (turn_in_phase p s f x c) ↔ (may_open (reveals_in p s) f ≡ true)
turned-IsOk dealing s f x c e =
    let listed : may_open (up_in_rows 0 s.stacks) f ≡ is_bare x =
      up_in_rows-at 0 f.seat s.stacks f (omega arith) ∙ ap bare_at e in
    let dealt = dealt-IsOk s f x c in (λ o. listed ∙ dealt.0 o, λ m. dealt.1 (sym listed ∙ m))
turned-IsOk declaring s f x c e = (λ o. absurd o, λ m. cc)
turned-IsOk over s f x c e = (λ o. absurd o, λ m. cc)
turned-IsOk playing s f x c e =
    let listed = face_down-may_open s.flip f in
    let flipped = flipped-IsOk s f c in (λ o. listed ∙ flipped.0 o, λ m. flipped.1 (sym listed ∙ m))

new-IsOk :
    (s : State) (f : Spot) (x : Pile) (c : Card)
    → get_elem? (row_of s f.seat) f.i ≡ some x
    → IsOk (turn_card s f (some x) (some c))
      ↔ ((may_open (reveals s) f ≡ true) × (is_new s c ≡ true))
unfolding reveals
new-IsOk s f x c e =
    let turned = turned-IsOk s.phase s f x c e in
    elim (Bool-cases (is_new s c)) [
      | inl fresh ↦ rw fresh (λ o. (turned.0 o, refl), λ m. turned.1 m.0)
      | inr seen ↦ rw seen (λ o. absurd o, λ m. cc m.1)
    ]

turn_up-IsOk :
    (s : State) (f : Spot) (x : Pile) (c : Card)
    → get_elem? (row_of s f.seat) f.i ≡ some x
    → IsOk (turn_up s f (some c)) ↔ ((may_open (reveals s) f ≡ true) × (is_new s c ≡ true))
unfolding turn_up
turn_up-IsOk s f x c e =
    subst
      (λ o.
        IsOk (turn_card s f o (some c)) ↔ ((may_open (reveals s) f ≡ true) × (is_new s c ≡ true)))
      (sym e) (new-IsOk s f x c e)

in_phase-IsOk :
    (p : Phase) (s : State) (f : Spot) (x : Pile) (c : Card)
    → s.phase ≡ p
    → get_elem? (row_of s f.seat) f.i ≡ some x
    → IsOk (phase_dispatch p s (record { seat = f.seat; move = turn_move f.i (some c) }))
      ↔ ((may_open (reveals s) f ≡ true) × (is_new s c ≡ true))
unfolding reveals
in_phase-IsOk over s f x c ph e =
    (λ o. absurd o, λ m. cc (subst (λ q. may_open (reveals_in q s) f ≡ true) ph m.0))
in_phase-IsOk dealing s f x c ph e = turn_up-IsOk s f x c e
in_phase-IsOk declaring s f x c ph e = turn_up-IsOk s f x c e
in_phase-IsOk playing s f x c ph e = turn_up-IsOk s f x c e

-- A card on a stack of one of the two seats is accepted exactly if `reveals` lists its place, and if the
-- card is one of the deck that neither lies open nor has been played.
pub apply-reveals :
    (s : State) (f : Spot) (x : Pile) (c : Card)
    → f.seat < 2
    → get_elem? (row_of s f.seat) f.i ≡ some x
    → IsOk (apply s (some (record { seat = f.seat; move = turn_move f.i (some c) })))
      ↔ ((may_open (reveals s) f ≡ true) × (is_new s c ≡ true))
unfolding apply
apply-reveals s f x c h e =
    let seated : ltb f.seat 2 ≡ true = ground arith in
    subst
      (λ b.
        IsOk (
          if not b
          then fail action_reason
          else phase_dispatch s.phase s (record { seat = f.seat; move = turn_move f.i (some c) }))
        ↔ ((may_open (reveals s) f ≡ true) × (is_new s c ≡ true)))
      (sym seated) (in_phase-IsOk s.phase s f x c refl e)
