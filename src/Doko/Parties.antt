-- ===== src/Doko/Parties.antt =====
-- Doppelkopf: the parties, and what each needs to win (apps/duell-web/src/doko.js: parties, target,
-- met).
-- Whether a game was a solo, and the seats of Re; `none` among them is the seat -1.
use cads_agent_marketplace.Common.{
  Bool, List, Option, [], any, false, filter, if◌then◌else◌, leb, length, list_eq, map, nat_eq,
  none, not, option_beq, some, suc, true, zero, ℕ, ◌&&◌, ◌+◌, ◌==◌, ◌∷◌,
}
use cads_agent_marketplace.Doko.Calls.{club_queen, if_re, level_of, opp}
use cads_agent_marketplace.Doko.Cards.{
  Card, Kind, card_eq, eyes, hochzeit, led_eq, normal, rank_eq, rule_eq, solo, suit_eq,
}
use cads_agent_marketplace.Doko.State.{Levels, Party, State, Taken, kontra, party_eq, re}

pub record Parties : Type 0 where
  pub re_seats : List (Option ℕ)
  pub alone : Bool
  pub silent : Bool

abbrev pub queens_in : List Card → ℕ
queens_in cs = length (filter (λ c. c == club_queen) cs)

abbrev pub first_two : List ℕ → ℕ → Option ℕ
first_two [] i = none
first_two (n ∷ ns) i = let rest = first_two ns (suc i) in if n == 2 then some i else rest

abbrev pub seats_with : List ℕ → ℕ → List (Option ℕ)
seats_with [] i = []
seats_with (n ∷ ns) i = let rest = seats_with ns (suc i) in if n == 0 then rest else some i ∷ rest

abbrev pub by_queens : Option ℕ → List ℕ → Parties
by_queens (some i) both = record { re_seats = some i ∷ []; alone = true; silent = true }
by_queens none both = record { re_seats = seats_with both 0; alone = false; silent = false }

abbrev pub parties_in : Kind → State → List (List Card) → Parties
parties_in normal s hands = let both = map queens_in hands in by_queens (first_two both 0) both
parties_in hochzeit s hands = record {
  re_seats = s.soloist ∷ s.partner ∷ [];
  alone = false;
  silent = false;
}
parties_in (solo v) s hands = record { re_seats = s.soloist ∷ []; alone = true; silent = false }

-- `parties`
unfoldable pub parties : State → List (List Card) → Parties
parties s hands = parties_in s.kind s hands

abbrev pub is_re : List (Option ℕ) → ℕ → Bool
is_re res seat = any (λ r. option_beq r (some seat)) res

abbrev pub side : Parties → ℕ → Party
side p seat = if_re (is_re p.re_seats seat)

abbrev pub eyes_of : Parties → Party → List Taken → ℕ
eyes_of ps p [] = 0
eyes_of ps p (t ∷ ts) =
    let rest = eyes_of ps p ts in if side ps t.winner == p then t.taken_eyes + rest else rest

abbrev pub tricks_of : Parties → Party → List Taken → ℕ
tricks_of ps p [] = 0
tricks_of ps p (t ∷ ts) =
    let rest = tricks_of ps p ts in if side ps t.winner == p then suc rest else rest

-- What a party needs to win.
pub data Target : Type 0 where
  need_tricks need_eyes : ℕ → Target

abbrev pub own_target : ℕ → Target
own_target zero = need_eyes 0
own_target (suc zero) = need_eyes 151
own_target (suc (suc zero)) = need_eyes 181
own_target (suc (suc (suc zero))) = need_eyes 211
own_target _ = need_tricks 12

abbrev pub other_target : ℕ → Target
other_target zero = need_eyes 0
other_target (suc zero) = need_eyes 90
other_target (suc (suc zero)) = need_eyes 60
other_target (suc (suc (suc zero))) = need_eyes 30
other_target _ = need_tricks 1

abbrev pub is_called : Option ℕ → Bool
is_called none = false
is_called (some l) = true

abbrev pub only_kontra : Levels → Bool
only_kontra l = is_called l.kontra_level && not (is_called l.re_level)

abbrev pub plain_target : Party → Levels → Target
plain_target re l = need_eyes (if only_kontra l then 120 else 121)
plain_target kontra l = need_eyes (if only_kontra l then 121 else 120)

abbrev pub target_against : Option ℕ → Party → Levels → Target
target_against (some (suc o)) p l = other_target (suc o)
target_against _ p l = plain_target p l

abbrev pub target_own : Option ℕ → Party → Levels → Target
target_own (some (suc n)) p l = own_target (suc n)
target_own _ p l = target_against (level_of l (opp p)) p l

unfoldable pub target : Party → Levels → Target
target p l = target_own (level_of l p) p l

abbrev pub reached : Target → ℕ → ℕ → Bool
reached (need_tricks n) tricks eyes = leb n tricks
reached (need_eyes n) tricks eyes = leb n eyes

-- The eyes and tricks of both parties.
pub record Counts : Type 0 where
  pub re_eyes : ℕ
  pub kontra_eyes : ℕ
  pub re_tricks : ℕ
  pub kontra_tricks : ℕ

abbrev pub eyes_for : Counts → Party → ℕ
eyes_for c re = c.re_eyes
eyes_for c kontra = c.kontra_eyes

abbrev pub tricks_for : Counts → Party → ℕ
tricks_for c re = c.re_tricks
tricks_for c kontra = c.kontra_tricks

abbrev pub counts : Parties → List Taken → Counts
counts ps ts = record {
  re_eyes = eyes_of ps re ts;
  kontra_eyes = eyes_of ps kontra ts;
  re_tricks = tricks_of ps re ts;
  kontra_tricks = tricks_of ps kontra ts;
}

abbrev pub met : Party → Levels → Counts → Bool
met p l c = reached (target p l) (tricks_for c p) (eyes_for c p)

abbrev pub winner_of : Levels → Counts → Option Party
winner_of l c = if met re l c then some re else if met kontra l c then some kontra else none
