-- ===== src/Skat/Audit/Honest.antt =====
-- Skat: what an empty audit means.
use mathlib.Core.Option.{some-injective}
use mathlib.Core.Path.{subst}
use cads_agent_marketplace.Common.{
  &&-left, Bool, Bool-cases, List, Option, [], any, any-at, any-witness, ap, arith, contains, erase,
  false, get_elem?, if◌then◌else◌, inl, inr, nat_eq, none, not, refl, set, some, sym, true, ℕ, ◌&&◌,
  ◌++◌, ◌==◌, ◌||◌, ◌↔◌, ◌∷◌, ◌≡◌, ◌≢◌, ◌⊎◌,
}
use cads_agent_marketplace.Skat.Audit.{
  Bad, Checked, Why, all_tricks, and_then, audit, audit_hands, audit_in, audit_trick, audit_tricks,
  bad_if, card_checked, card_held, follow_why, found, not_in_hand_why,
}
use cads_agent_marketplace.Skat.Cards.{Card, Game, card_eq, rank_eq, suit_eq}
use cads_agent_marketplace.Skat.Score.{Deal}
use cads_agent_marketplace.Skat.State.{Contract, State, rule_eq}
use cads_agent_marketplace.Skat.Strength.{Led, Play, led_beq_iff, led_eq, may_play, suit_of}

-- A card that answers the trick by the rules: any card to start it, else a card of the suit that was
-- led, unless the hand has none of that suit.
abbrev pub Follows : Game → List Card → Card → List Play → Type 0
Follows g h c [] = Unit
Follows g h c (x ∷ xs) =
    (suit_of g c ≡ suit_of g x.card)
    ⊎ ((d : Card) → contains h d ≡ true → suit_of g d ≢ suit_of g x.card)

-- One trick is played from the hands, each card from the hand of its seat and by the rules; `after` is
-- said of the hands that are left.
abbrev pub HonestTrick :
    Game → List Play → List Play → (List (List Card) → Type 0) → List (List Card) → Type 0
HonestTrick g before [] after hands = after hands
HonestTrick g before (x ∷ xs) after hands =
    (h : List Card) × (get_elem? hands x.seat ≡ some h)
    × (contains h x.card ≡ true)
    × Follows g h x.card before
    × HonestTrick g (before ++ x ∷ []) xs after (set hands x.seat (erase h x.card))

abbrev pub HonestPlay : Game → List (List Play) → List (List Card) → Type 0
HonestPlay g [] hands = Unit
HonestPlay g (t ∷ ts) hands = HonestTrick g [] t (HonestPlay g ts) hands

any-none :
    (p : Card → Bool) (h : List Card)
    → (any p h ≡ false) ↔ ((d : Card) → contains h d ≡ true → p d ≡ false)
any-none p h = (to, from)
  where
    to : any p h ≡ false → (d : Card) → contains h d ≡ true → p d ≡ false
    to e d c = elim (Bool-cases (p d)) [
      | inl passes ↦ cc (any-at p h d c passes, e)
      | inr fails ↦ fails
    ]

    from : ((d : Card) → contains h d ≡ true → p d ≡ false) → any p h ≡ false
    from f = elim (Bool-cases (any p h)) [
      | inl some_h ↦ let (d, c, q) = any-witness p h some_h in cc (f d c, q)
      | inr no_h ↦ no_h
    ]

same_led : (k l : Led) → ((k == l) ≡ false) ↔ (k ≢ l)
same_led k l = ground (arith, led_beq_iff k l)

may_play-Follows :
    (g : Game) (h : List Card) (c : Card) (before : List Play)
    → (may_play g h c before ≡ true) ↔ ((contains h c ≡ true) × Follows g h c before)
unfolding may_play
may_play-Follows g h c [] = (λ m. (m, tt), λ m. m.0)
may_play-Follows g h c (x ∷ xs) = (to, from)
  where
    to :
        (contains h c
            && (suit_of g c == suit_of g x.card
                || not (any (λ d. suit_of g d == suit_of g x.card) h)))
          ≡ true
        → (contains h c ≡ true) × Follows g h c (x ∷ xs)
    to m = elim (Bool-cases (suit_of g c == suit_of g x.card)) [
      | inl same ↦ (&&-left _ _ m, inl ((led_beq_iff (suit_of g c) (suit_of g x.card)).0 same))
      | inr other ↦
          let free = (any-none (λ d. suit_of g d == suit_of g x.card) h).0 (ground arith) in
          (
            &&-left _ _ m,
            inr (λ d held. (same_led (suit_of g d) (suit_of g x.card)).0 (free d held)),
          )
    ]

    from :
        (contains h c ≡ true) × Follows g h c (x ∷ xs)
        → (contains h c
            && (suit_of g c == suit_of g x.card
                || not (any (λ d. suit_of g d == suit_of g x.card) h)))
          ≡ true
    from (held, inl same) =
        let e = (led_beq_iff (suit_of g c) (suit_of g x.card)).1 same in rw (held, e) refl
    from (held, inr free) =
        let e =
          (any-none (λ d. suit_of g d == suit_of g x.card) h).1
            (λ d in_h. (same_led (suit_of g d) (suit_of g x.card)).1 (free d in_h)) in
        rw (held, e) (ground arith)

-- Nothing was found.
abbrev pub IsClean : Option Checked → Type 0
IsClean none = ⊥
IsClean (some k) = k.out ≡ []

pub append-left : (xs ys : List Bad) → xs ++ ys ≡ [] → (xs ≡ []) × (ys ≡ [])
append-left [] ys e = (refl, e)
append-left (x ∷ xs) ys e = cc

pub bad_if-right :
    (wrong : Bool) (seat : Option ℕ) (why : Why) → bad_if wrong seat why ≡ [] → wrong ≡ false
bad_if-right true seat why e = cc
bad_if-right false seat why e = refl

module _ (g : Game) (after : List (List Card) → Type 0) (next : Checked → Option Checked) where
  held-Honest :
      (b : Bool) (h : List Card) (before : List Play) (x : Play) (xs : List Play) (k : Checked)
      → ((l : Checked)
          → IsClean (and_then (audit_trick g (before ++ x ∷ []) xs l) next)
          → (l.out ≡ []) × HonestTrick g (before ++ x ∷ []) xs after l.hands)
      → get_elem? k.hands x.seat ≡ some h
      → contains h x.card ≡ b
      → IsClean (and_then (audit_trick g (before ++ x ∷ []) xs (card_held b h g before x k)) next)
      → (k.out ≡ []) × HonestTrick g before (x ∷ xs) after k.hands
  held-Honest false h before x xs k ih e q c =
      let (nothing, more) = ih (card_held false h g before x k) c in
      cc (append-left k.out (record { seat = some x.seat; why = not_in_hand_why } ∷ []) nothing).1
  held-Honest true h before x xs k ih e q c =
      let (nothing, more) = ih (card_held true h g before x k) c in
      let (clean, follow) = append-left k.out _ nothing in
      let fits : may_play g h x.card before ≡ true =
        ground (
          arith,
          bad_if-right (not (may_play g h x.card before)) (some x.seat) follow_why follow,
        ) in
      (clean, (h, e, q, ((may_play-Follows g h x.card before).0 fits).1, more))

  -- What a clean check of the next card says of it.
  card-Honest :
      (o : Option (List Card)) (before : List Play) (x : Play) (xs : List Play) (k : Checked)
      → ((l : Checked)
          → IsClean (and_then (audit_trick g (before ++ x ∷ []) xs l) next)
          → (l.out ≡ []) × HonestTrick g (before ++ x ∷ []) xs after l.hands)
      → get_elem? k.hands x.seat ≡ o
      → IsClean (
          and_then
            (and_then (card_checked o g before x k) (audit_trick g (before ++ x ∷ []) xs))
            next)
      → (k.out ≡ []) × HonestTrick g before (x ∷ xs) after k.hands
  card-Honest none before x xs k ih e c = absurd c
  card-Honest (some h) before x xs k ih e c =
      held-Honest (contains h x.card) h before x xs k ih e refl c

  trick-Honest :
      (before t : List Play) (k : Checked)
      → ((l : Checked) → IsClean (next l) → (l.out ≡ []) × after l.hands)
      → IsClean (and_then (audit_trick g before t k) next)
      → (k.out ≡ []) × HonestTrick g before t after k.hands
  unfolding audit_trick
  trick-Honest before [] k rest c = rest k c
  trick-Honest before (x ∷ xs) k rest c =
      card-Honest (get_elem? k.hands x.seat) before x xs k
        (λ l. trick-Honest (before ++ x ∷ []) xs l rest) refl c

  card-IsClean :
      (o : Option (List Card)) (before : List Play) (x : Play) (xs : List Play) (k : Checked)
      (h : List Card)
      → ((l : Checked)
          → l.out ≡ []
          → HonestTrick g (before ++ x ∷ []) xs after l.hands
          → IsClean (and_then (audit_trick g (before ++ x ∷ []) xs l) next))
      → o ≡ some h
      → k.out ≡ []
      → contains h x.card ≡ true
      → Follows g h x.card before
      → HonestTrick g (before ++ x ∷ []) xs after (set k.hands x.seat (erase h x.card))
      → IsClean (
          and_then
            (and_then (card_checked o g before x k) (audit_trick g (before ++ x ∷ []) xs))
            next)
  card-IsClean o before x xs k h ih e clean held follows more =
      let fits = (may_play-Follows g h x.card before).1 (held, follows) in
      let kept : k.out ++ bad_if (not (may_play g h x.card before)) (some x.seat) follow_why ≡ [] =
        rw (clean, fits) refl in
      subst
        (λ q. IsClean (
          and_then (and_then (card_checked q g before x k) (audit_trick g (before ++ x ∷ []) xs))
            next))
        (sym e)
        (subst
          (λ b.
            IsClean
              (and_then (audit_trick g (before ++ x ∷ []) xs (card_held b h g before x k)) next))
          (sym held) (ih (card_held true h g before x k) kept more))

  trick-IsClean :
      (before t : List Play) (k : Checked)
      → ((l : Checked) → l.out ≡ [] → after l.hands → IsClean (next l))
      → k.out ≡ []
      → HonestTrick g before t after k.hands
      → IsClean (and_then (audit_trick g before t k) next)
  unfolding audit_trick
  trick-IsClean before [] k rest clean a = rest k clean a
  trick-IsClean before (x ∷ xs) k rest clean (h, e, held, follows, more) =
      card-IsClean (get_elem? k.hands x.seat) before x xs k h
        (λ l. trick-IsClean (before ++ x ∷ []) xs l rest) e clean held follows more

tricks-Honest :
    (g : Game) (ts : List (List Play)) (k : Checked)
    → IsClean (audit_tricks g ts k) ↔ ((k.out ≡ []) × HonestPlay g ts k.hands)
unfolding audit_tricks
tricks-Honest g [] k = (λ c. (c, tt), λ c. c.0)
tricks-Honest g (t ∷ ts) k = (
  trick-Honest g (HonestPlay g ts) (audit_tricks g ts) [] t k (λ l. (tricks-Honest g ts l).0),
  λ h.
      trick-IsClean g (HonestPlay g ts) (audit_tricks g ts) [] t k
        (λ l e a. (tricks-Honest g ts l).1 (e, a)) h.0 h.1,
)

-- What the hands of an audited game must be: nothing was found while they were put together, and the
-- play from them was honest.
abbrev pub HonestFrom : Option Checked → Game → List (List Play) → Type 0
HonestFrom none g ts = ⊥
HonestFrom (some k) g ts = (k.out ≡ []) × HonestPlay g ts k.hands

from-Honest :
    (o : Option Checked) (g : Game) (ts : List (List Play))
    → IsClean (and_then o (audit_tricks g ts)) ↔ HonestFrom o g ts
from-Honest none g ts = (λ c. c, λ c. c)
from-Honest (some k) g ts = tricks-Honest g ts k

found-IsClean : (o : Option Checked) → (found o ≡ some []) ↔ IsClean o
found-IsClean none = (λ e. cc, λ c. absurd c)
found-IsClean (some k) = (λ e. some-injective k.out [] e, λ e. ap some e)

-- The audit of a game that was played finds nothing exactly if the cards of the deal, of the push and
-- of an open hand were in order, and if every card came from the hand of its seat and followed suit
-- where the hand could.
pub audit-Honest :
    (s : State) (full : Deal) (c : Contract)
    → s.passed_out ≡ false
    → s.contract ≡ some c
    → (audit s full ≡ some []) ↔ HonestFrom (audit_hands s full) c.game (all_tricks s)
unfolding audit
audit-Honest s full c p e =
    let o = audit_hands s full in
    let clean = found-IsClean (and_then o (audit_tricks c.game (all_tricks s))) in
    let honest = from-Honest o c.game (all_tricks s) in
    let by_rules =
      subst
        (λ k. (audit_in k s full ≡ some []) ↔ HonestFrom (audit_hands s full) c.game (all_tricks s))
        (sym e) (λ f. honest.0 (clean.0 f), λ f. clean.1 (honest.1 f)) in
    subst
      (λ b.
        ((if b then some [] else audit_in s.contract s full) ≡ some [])
        ↔ HonestFrom (audit_hands s full) c.game (all_tricks s))
      (sym p) by_rules
