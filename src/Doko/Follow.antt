-- ===== src/Doko/Follow.antt =====
-- Doppelkopf: the cards that may be played and what the audit checks
-- (apps/duell-web/src/doko.js: legalCards, audit).
use cads_agent_marketplace.Common.{
  Bool, List, [], any, ap, arith, contains, contains-filter, false, filter, if◌then◌else◌, list_eq,
  nat_eq, not, refl, some, sym, true, ◌&&◌, ◌==◌, ◌||◌, ◌∙◌, ◌∷◌, ◌≡◌,
}
use cads_agent_marketplace.Doko.Audit.{follows_ok}
use cads_agent_marketplace.Doko.Cards.{
  Card, Kind, Play, card_eq, follows, led_eq, legal_cards, or_all, rank_eq, rule_eq, suit_eq,
}
use cads_agent_marketplace.Doko.State.{party_eq}

abbrev is_nil : List Card → Bool
is_nil [] = true
is_nil (c ∷ cs) = false

any-filter : (p : Card → Bool) (hand : List Card) → any p hand ≡ not (is_nil (filter p hand))
any-filter p [] = refl
any-filter p (c ∷ cs) = any_first (p c) (any-filter p cs)
  where
    any_first :
        (b : Bool)
        → any p cs ≡ not (is_nil (filter p cs))
        → (b || any p cs) ≡ not (is_nil (if b then c ∷ filter p cs else filter p cs))
    any_first true h = refl
    any_first false h = h

or_all-found :
    (p : Card → Bool) (hand found : List Card) (c : Card)
    → filter p hand ≡ found
    → contains (or_all found hand) c ≡ (contains hand c && (p c || not (any p hand)))
or_all-found p hand [] c e =
    let none_fits : any p hand ≡ false = any-filter p hand ∙ ap (λ cs. not (is_nil cs)) e in
    ground arith
or_all-found p hand (d ∷ ds) c e =
    let one_fits : any p hand ≡ true = any-filter p hand ∙ ap (λ cs. not (is_nil cs)) e in
    let same : contains (d ∷ ds) c ≡ (p c && contains hand c) =
      ap (λ cs. contains cs c) (sym e) ∙ contains-filter p hand c in
    same ∙ fits (p c) (contains hand c) (any p hand) one_fits
  where
    fits : (x y z : Bool) → z ≡ true → (x && y) ≡ (y && (x || not z))
    fits x y z h = ground arith

-- A card may be played exactly if it is in the hand and the audit accepts it after the first card of
-- the trick: it follows that card, or no card of the hand does.
pub legal_cards-audit :
    (kind : Kind) (first : Play) (rest : List Play) (hand : List Card) (c : Card)
    → contains (legal_cards kind (first ∷ rest) hand) c
      ≡ (contains hand c && follows_ok kind hand (some first.card) c)
unfolding legal_cards
legal_cards-audit kind first rest hand c =
    or_all-found (λ d. follows kind d == follows kind first.card) hand _ c refl
