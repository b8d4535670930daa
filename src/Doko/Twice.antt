-- ===== src/Doko/Twice.antt =====
-- Doppelkopf: how often a card can be played (apps/duell-web/src/doko.js: apply).
use mathlib.Core.Path.{subst}
use cads_agent_marketplace.Common.{
  Bool, Bool-cases, List, Option, [], ap, arith, false, if◌then◌else◌, inl, inr, leb, length,
  list_eq, ltb, nat_eq, none, not, option_beq, refl, some, true, ℕ, ◌++◌, ◌+◌, ◌==◌, ◌∷◌, ◌≡◌, ◌≤◌,
}
use cads_agent_marketplace.Doko.Apply.{
  Outcome, clarified, close_trick, count_played, fail, lay, ok, seen, sum_eyes, thrown,
}
use cads_agent_marketplace.Doko.Calls.{all_cards, table}
use cads_agent_marketplace.Doko.Cards.{
  Card, Kind, Play, card_beq_iff, card_eq, hochzeit, karo, led_eq, normal, rank_eq, rule_eq, solo,
  suit_eq, trick_winner,
}
use cads_agent_marketplace.Doko.State.{State, Taken, begin, over, party_eq}

seen-append : (c : Card) (xs ys : List Play) → seen c (xs ++ ys) ≡ seen c xs + seen c ys
seen-append c [] ys = omega arith
seen-append c (x ∷ xs) ys = ground (arith, seen-append c xs ys)

seen-all_cards :
    (c : Card) (ts : List Taken) (xs : List Play)
    → seen c (all_cards ts xs) ≡ seen c (all_cards ts []) + seen c xs
seen-all_cards c [] xs = omega arith
seen-all_cards c (t ∷ ts) xs = omega (
  arith,
  seen-append c t.cards (all_cards ts xs),
  seen-append c t.cards (all_cards ts []),
  seen-all_cards c ts xs,
)

all_cards-snoc :
    (c : Card) (ts : List Taken) (t : Taken) (xs : List Play)
    → seen c (all_cards (ts ++ t ∷ []) xs) ≡ seen c (all_cards ts (t.cards ++ xs))
all_cards-snoc c [] t xs = refl
all_cards-snoc c (u ∷ ts) t xs = omega (
  arith,
  seen-append c u.cards (all_cards (ts ++ t ∷ []) xs),
  seen-append c u.cards (all_cards ts (t.cards ++ xs)),
  all_cards-snoc c ts t xs,
)

-- No card is on the table more often than it is in the deck.
abbrev pub IsTwice : State → Type 0
IsTwice s = (c : Card) → seen c (table s) ≤ 2

abbrev pub OutcomeTwice : Outcome → Type 0
OutcomeTwice (ok t) = IsTwice t
OutcomeTwice (fail e) = Unit
OutcomeTwice thrown = Unit

-- A game that begins has an empty table, apart from the tricks.
pub begin-IsTwice : (kind : Kind) (o : Option ℕ) (s : State) → IsTwice s → IsTwice (begin kind o s)
begin-IsTwice kind o s h c =
    let k : seen c (table s) ≤ 2 = h c in omega (arith, seen-all_cards c s.tricks s.trick.cards)

clarified-table :
    (kind : Kind) (p : Option ℕ) (w n : ℕ) (s : State) → (clarified kind p w n s).tricks ≡ s.tricks
clarified-table hochzeit none w n s = two (not (option_beq s.soloist (some w))) (n == 3)
  where
    two :
        (a b : Bool)
        → (if a
            then record s { partner = some w; clar = n }
            else if b
            then record s { kind = solo karo; clar = 3; wedding = s.soloist }
            else s).tricks
          ≡ s.tricks
    two true b = refl
    two false true = refl
    two false false = refl
clarified-table hochzeit (some p) w n s = refl
clarified-table normal p w n s = refl
clarified-table (solo v) p w n s = refl

pub over-IsTwice :
    (b : Bool) (s : State) → IsTwice s → IsTwice (if b then record s { phase = over } else s)
over-IsTwice true s h = h
over-IsTwice false s h = h

close_trick-IsTwice : (o : Option ℕ) (s : State) → IsTwice s → OutcomeTwice (close_trick o s)
close_trick-IsTwice none s h = tt
close_trick-IsTwice (some w) s h =
    let new : Taken = record {
      lead = s.trick.lead;
      cards = s.trick.cards;
      winner = w;
      taken_eyes = sum_eyes s.trick.cards;
    } in
    let t : State = record s { tricks = s.tricks ++ new ∷ [] } in
    let u : State = record (clarified t.kind t.partner w (length t.tricks) t) {
      trick = record { lead = w; cards = [] };
    } in
    over-IsTwice (length t.tricks == 12) u (λ c.
      let few : seen c (table s) ≤ 2 = h c in
      let same : seen c (table u) ≡ seen c (all_cards (s.tricks ++ new ∷ []) []) =
        ap (λ ts. seen c (all_cards ts []))
          (clarified-table t.kind t.partner w (length t.tricks) t) in
      omega (
        arith,
        all_cards-snoc c s.tricks new [],
        seen-append c s.trick.cards [],
        seen-all_cards c s.tricks (s.trick.cards ++ []),
        seen-all_cards c s.tricks s.trick.cards,
      ))

laid-IsTwice :
    (c : Card) (seat : ℕ) (s : State)
    → leb 2 (seen c (table s)) ≡ false
    → IsTwice s
    → (d : Card)
    → seen d (all_cards s.tricks (s.trick.cards ++ record { seat = seat; card = c } ∷ [])) ≤ 2
laid-IsTwice c seat s few h d =
    let last : List Play = record { seat = seat; card = c } ∷ [] in
    let old : seen d (table s) ≤ 2 = h d in
    let sum : seen d (all_cards s.tricks (s.trick.cards ++ last)) ≡ seen d (table s) + seen d last =
      omega (
        arith,
        seen-all_cards d s.tricks (s.trick.cards ++ last),
        seen-append d s.trick.cards last,
        seen-all_cards d s.tricks s.trick.cards,
      ) in
    elim (Bool-cases (c == d)) [
      | inl same ↦
          let few_d : leb 2 (seen d (table s)) ≡ false =
            subst (λ e. leb 2 (seen e (table s)) ≡ false) ((card_beq_iff c d).0 same) few in
          ground arith
      | inr other ↦ ground arith
    ]

pub lay-IsTwice :
    (c : Card) (seat : ℕ) (s : State)
    → leb 2 (seen c (table s)) ≡ false
    → IsTwice s
    → OutcomeTwice (lay c seat s)
lay-IsTwice c seat s few h =
    let t : State = record s {
      trick = record s.trick { cards = s.trick.cards ++ record { seat = seat; card = c } ∷ [] };
      played = count_played s.played seat;
    } in
    full (ltb (length t.trick.cards) 4) t (laid-IsTwice c seat s few h)
  where
    full :
        (b : Bool) (t : State)
        → IsTwice t
        → OutcomeTwice
            (if b then ok t else close_trick (trick_winner t.kind t.trick.cards t.house) t)
    full true t k = k
    full false t k = close_trick-IsTwice (trick_winner t.kind t.trick.cards t.house) t k
