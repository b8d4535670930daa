-- ===== src/Doko/Score.antt =====
-- Doppelkopf: the score sheet and the points (apps/duell-web/src/doko.js: result).
-- The lines of the score sheet; `called` and `against` carry the level of the call.
use cads_agent_marketplace.Common.{
  Bool, List, Option, [], contains, false, if◌then◌else◌, leb, list_eq, ltb, map, nat_eq, none, not,
  option_beq, some, suc, true, ℕ, ◌&&◌, ◌++◌, ◌+◌, ◌==◌, ◌||◌, ◌∷◌,
}
use cads_agent_marketplace.Common.Int.{neg_part, pos, pos_part, sub_ℕ, ℤ, ◌+ℤ◌, ◌-ℤ◌}
use cads_agent_marketplace.Doko.Calls.{level_of, opp}
use cads_agent_marketplace.Doko.Cards.{
  Card, Kind, Play, ace, card, card_eq, clubs, diamonds, jack, karo, led_eq, nosp, rank_eq, rule_eq,
  solo, suit_eq,
}
use cads_agent_marketplace.Doko.Parties.{
  Counts, Parties, counts, eyes_for, is_called, is_re, parties, side, tricks_for, winner_of,
}
use cads_agent_marketplace.Doko.State.{Levels, Party, State, Taken, kontra, party_eq, re}

pub data Entry : Type 0 where
  won below90 below60 below30 no_trick re_called kontra_called : Entry
  called against : ℕ → Entry
  against_queens doppelkopf fuchs karlchen : Entry

pub record Line : Type 0 where
  pub entry : Entry
  pub worth : ℕ
  pub party : Party

abbrev pub add : Party → Entry → ℕ → Bool → List Line
add p k v b = if b then record { entry = k; worth = v; party = p } ∷ [] else []

abbrev pub reached_level : ℕ → Option ℕ → Bool
reached_level n none = false
reached_level n (some l) = leb n l

-- The levels above the first that a party has called.
abbrev pub called_lines : Party → Option ℕ → List Line
called_lines p l =
    add p (called 1) 1 (reached_level 1 l)
    ++ (add p (called 2) 1 (reached_level 2 l)
        ++ (add p (called 3) 1 (reached_level 3 l) ++ add p (called 4) 1 (reached_level 4 l)))

abbrev pub below_lines : Party → Counts → Bool → List Line
below_lines p c b =
    add p below90 1 (b && ltb (eyes_for c (opp p)) 90)
    ++ (add p below60 1 (b && ltb (eyes_for c (opp p)) 60)
        ++ (add p below30 1 (b && ltb (eyes_for c (opp p)) 30)
            ++ add p no_trick 1 (b && tricks_for c (opp p) == 0)))

abbrev pub win_lines : Party → Levels → Bool → List Line
win_lines p l false = []
win_lines p l true =
    add p re_called 2 (is_called l.re_level)
    ++ (add p kontra_called 2 (is_called l.kontra_level)
        ++ (called_lines p l.re_level ++ called_lines p l.kontra_level))

abbrev pub against_lines : Party → Option ℕ → ℕ → List Line
against_lines p o e =
    add p (against 1) 1 (reached_level 1 o && leb 120 e)
    ++ (add p (against 2) 1 (reached_level 2 o && leb 90 e)
        ++ (add p (against 3) 1 (reached_level 3 o && leb 60 e)
            ++ add p (against 4) 1 (reached_level 4 o && leb 30 e)))

abbrev pub is_winner : Option Party → Party → Bool
is_winner w p = option_beq w (some p)

abbrev pub no_winner : Option Party → Bool
no_winner none = true
no_winner (some p) = false

abbrev pub party_lines : Option Party → Levels → Counts → Party → List Line
party_lines w l c p =
    add p won 1 (is_winner w p)
    ++ (below_lines p c (is_winner w p || no_winner w)
        ++ (win_lines p l (is_winner w p) ++ against_lines p (level_of l (opp p)) (eyes_for c p)))

-- The special points of a trick.
abbrev pub fox_lines : Parties → Party → List Play → List Line
fox_lines ps w [] = []
fox_lines ps w (x ∷ xs) =
    add w fuchs 1 (x.card == card diamonds ace && not (side ps x.seat == w)) ++ fox_lines ps w xs

abbrev pub first_by : ℕ → List Play → Option Card
first_by seat [] = none
first_by seat (x ∷ xs) = let rest = first_by seat xs in if x.seat == seat then some x.card else rest

abbrev pub trick_lines : Parties → ℕ → Taken → List Line
trick_lines ps i t =
    let w = side ps t.winner in
    add w doppelkopf 1 (leb 40 t.taken_eyes)
    ++ (fox_lines ps w t.cards
        ++ add w karlchen 1
            (i == 11 && option_beq (first_by t.winner t.cards) (some (card clubs jack))))

abbrev pub special_lines : Parties → ℕ → List Taken → List Line
special_lines ps i [] = []
special_lines ps i (t ∷ ts) = trick_lines ps i t ++ special_lines ps (suc i) ts

abbrev pub is_karo : Kind → Bool
is_karo (solo karo) = true
is_karo _ = false

abbrev pub bonus_lines : Option Party → Parties → State → List Line
bonus_lines w ps s =
    if ps.alone || is_karo s.kind
    then []
    else add kontra against_queens 1 (is_winner w kontra)
      ++ (if contains s.house nosp then [] else special_lines ps 0 s.tricks)

abbrev pub points_for : Party → List Line → ℕ
points_for p [] = 0
points_for p (x ∷ xs) = let rest = points_for p xs in if x.party == p then x.worth + rest else rest

pub record Score : Type 0 where
  pub winner : Option Party
  pub value : ℕ
  pub points : List ℤ
  pub lines : List Line

-- The points of a seat, for the value `v` of Re against Kontra.
abbrev pub is_first : List (Option ℕ) → ℕ → Bool
is_first [] seat = false
is_first (r ∷ rs) seat = option_beq r (some seat)

abbrev pub minus : ℤ → ℤ
minus v = pos 0 -ℤ v

abbrev pub seat_points : Parties → ℤ → ℕ → ℤ
seat_points ps v seat =
    if ps.alone
    then if is_first ps.re_seats seat then v +ℤ (v +ℤ v) else minus v
    else if is_re ps.re_seats seat
    then v
    else minus v

abbrev pub all_points : Parties → ℤ → List ℤ
all_points ps v = map (seat_points ps v) (0 ∷ 1 ∷ 2 ∷ 3 ∷ [])

-- All lines of the score sheet.
unfoldable pub score_lines : State → List (List Card) → List Line
score_lines s hands =
    let ps = parties s hands in
    let c = counts ps s.tricks in
    let w = winner_of s.level c in
    party_lines w s.level c re ++ (party_lines w s.level c kontra ++ bonus_lines w ps s)

-- The points of Re against Kontra.
unfoldable pub re_value : State → List (List Card) → ℤ
re_value s hands =
    sub_ℕ (points_for re (score_lines s hands)) (points_for kontra (score_lines s hands))

-- `result`
unfoldable pub result : State → List (List Card) → Score
result s hands =
    let ps = parties s hands in
    let v = re_value s hands in
    record {
      winner = winner_of s.level (counts ps s.tricks);
      value = pos_part v + neg_part v;
      points = all_points ps v;
      lines = score_lines s hands;
    }
