-- ===== src/Doko/Calls.antt =====
-- Doppelkopf: parties and calls (apps/duell-web/src/doko.js: CALLS, NEED, knownParty, ownParty, opp,
-- callOk).
use cads_agent_marketplace.Common.{
  Bool, List, Option, [], any, false, get_elem?, if◌then◌else◌, leb, list_eq, ltb, nat_eq, none,
  not, option_beq, some, suc, true, zero, ℕ, ◌&&◌, ◌++◌, ◌-◌, ◌==◌, ◌||◌, ◌∷◌,
}
use cads_agent_marketplace.Doko.Cards.{
  Card, Kind, Play, card, card_eq, clubs, hochzeit, led_eq, normal, queen, rank_eq, rule_eq, solo,
  suit_eq,
}
use cads_agent_marketplace.Doko.State.{
  Levels, Party, Phase, State, Taken, kontra, party_eq, playing, re,
}

abbrev pub need : ℕ → ℕ
need zero = 11
need (suc zero) = 10
need (suc (suc zero)) = 9
need (suc (suc (suc zero))) = 8
need _ = 7

abbrev pub joined {ℓ} : {A : Type ℓ} → Option (Option A) → Option A
joined none = none
joined (some o) = o

abbrev pub if_re : Bool → Party
if_re b = if b then re else kontra

abbrev pub known_married : Option ℕ → State → ℕ → Option Party
known_married none s seat = if option_beq s.soloist (some seat) then some re else none
known_married (some p) s seat = some (if_re (option_beq s.soloist (some seat) || p == seat))

abbrev pub known_in : Kind → State → ℕ → Option Party
known_in normal s seat = joined (get_elem? s.claim seat)
known_in hochzeit s seat = known_married s.partner s seat
known_in (solo v) s seat = some (if_re (option_beq s.soloist (some seat)))

-- `knownParty`
unfoldable pub known_party : State → ℕ → Option Party
known_party s seat = known_in s.kind s seat

abbrev pub club_queen : Card
club_queen = card clubs queen

abbrev pub has_queen : List Card → Bool
has_queen cs = any (λ c. c == club_queen) cs

-- The cards on the table, those of the tricks first.
abbrev pub all_cards : List Taken → List Play → List Play
all_cards [] now = now
all_cards (t ∷ ts) now = t.cards ++ all_cards ts now

abbrev pub table : State → List Play
table s = all_cards s.tricks s.trick.cards

abbrev pub had_queen : State → ℕ → List Card → Bool
had_queen s seat hand =
    has_queen hand || any (λ x. x.seat == seat && x.card == club_queen) (table s)

abbrev pub own_in : Kind → State → ℕ → List Card → Option Party
own_in hochzeit s seat hand = none
own_in _ s seat hand = some (if_re (had_queen s seat hand))

abbrev pub own_or : Option Party → State → ℕ → List Card → Option Party
own_or (some p) s seat hand = some p
own_or none s seat hand = own_in s.kind s seat hand

-- `ownParty`
unfoldable pub own_party : State → ℕ → List Card → Option Party
own_party s seat hand = own_or (known_party s seat) s seat hand

abbrev pub opp : Party → Party
opp re = kontra
opp kontra = re

abbrev pub level_of : Levels → Party → Option ℕ
level_of l re = l.re_level
level_of l kontra = l.kontra_level

abbrev pub above : Option ℕ → ℕ → Bool
above none lvl = true
above (some l) lvl = ltb l lvl

abbrev pub undecided : Kind → Option ℕ → Bool
undecided hochzeit none = true
undecided _ _ = false

abbrev pub is_playing : Phase → Bool
is_playing playing = true
is_playing _ = false

-- How many cards a call needs in the hand: a reply to a call may come one card later than that call.
-- No difference is cut off: `shift` is at most 2.
abbrev pub min_of : ℕ → ℕ → ℕ
min_of a b = if ltb b a then b else a

abbrev pub reply_need : Option ℕ → ℕ → ℕ → ℕ
reply_need (some l) zero shift = min_of (need 0 - shift) (need l - shift - 1)
reply_need _ lvl shift = need lvl - shift

abbrev pub held : State → ℕ → ℕ
held s seat = elim (get_elem? s.played seat) [ none ↦ 0 | some n ↦ 12 - n ]

-- `callOk`
unfoldable pub call_ok : State → ℕ → Party → ℕ → Bool
call_ok s seat p lvl =
    is_playing s.phase
    && (leb lvl 4
        && (not (undecided s.kind s.partner)
            && (above (level_of s.level p) lvl
                && leb (reply_need (level_of s.level (opp p)) lvl (s.clar - 1)) (held s seat))))
