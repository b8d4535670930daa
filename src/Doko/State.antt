-- ===== src/Doko/State.antt =====
-- Doppelkopf: the state of a game (apps/duell-web/src/doko.js: rules, has, next, start, turn, done,
-- begin).
use cads_agent_marketplace.Common.{
  Bool, Eq, List, Option, [], arith, false, length, none, some, true, ℕ, ◌%◌, ◌+◌, ◌↔◌, ◌∷◌, ◌≡◌,
}
use cads_agent_marketplace.Doko.Cards.{Kind, Play, Rule, Solo, normal, rules}

pub data Phase : Type 0 where
  asking questions playing over : Phase

pub data Party : Type 0 where
  re kontra : Party

abbrev pub party_beq : Party → Party → Bool
party_beq re re = true
party_beq kontra kontra = true
party_beq _ _ = false

pub party_beq_iff : (p q : Party) → (party_beq p q ≡ true) ↔ (p ≡ q)
party_beq_iff p q = ground arith

instance abbrev pub party_eq : Eq Party
party_eq = record { beq = party_beq; beq_iff = party_beq_iff }

-- What a seat says when it is asked for a reservation.
pub data Saying : Type 0 where
  gesund vorbehalt marry other_saying : Saying
  alone : Solo → Saying

-- What a call is named: "re", "kontra", or one of the further CALLS.
pub data Word : Type 0 where
  re_word kontra_word k90 k60 k30 schwarz other_word : Word

pub record Trick : Type 0 where
  pub lead : ℕ
  pub cards : List Play

pub record Taken : Type 0 where
  pub lead : ℕ
  pub cards : List Play
  pub winner : ℕ
  pub taken_eyes : ℕ

pub record Call : Type 0 where
  pub seat : ℕ
  pub party : Party
  pub word : Word
  pub count : ℕ

-- The levels of both parties, `none` for -1.
pub record Levels : Type 0 where
  pub re_level : Option ℕ
  pub kontra_level : Option ℕ

pub record State : Type 0 where
  pub house : List Rule
  pub dealer : ℕ
  pub phase : Phase
  pub ask : ℕ
  pub say : List (Option Saying)
  pub queue : List ℕ
  pub wedding : Option ℕ
  pub kind : Kind
  pub soloist : Option ℕ
  pub partner : Option ℕ
  pub clar : ℕ
  pub trick : Trick
  pub tricks : List Taken
  pub played : List ℕ
  pub level : Levels
  pub claim : List (Option Party)
  pub calls : List Call

abbrev pub next_by : ℕ → ℕ → ℕ
next_by seat n = (seat + n) % 4

unfoldable pub start : List Rule → ℕ → State
start given dealer =
    let d = dealer % 4 in
    record {
      house = rules given;
      dealer = d;
      phase = asking;
      ask = next_by d 1;
      say = none ∷ none ∷ none ∷ none ∷ [];
      queue = [];
      wedding = none;
      kind = normal;
      soloist = none;
      partner = none;
      clar = 0;
      trick = record { lead = next_by d 1; cards = [] };
      tricks = [];
      played = 0 ∷ 0 ∷ 0 ∷ 0 ∷ [];
      level = record { re_level = none; kontra_level = none };
      claim = none ∷ none ∷ none ∷ none ∷ [];
      calls = [];
    }

abbrev pub turn_in : Phase → State → Option ℕ
turn_in asking s = some s.ask
turn_in questions s = some s.ask
turn_in playing s = some (next_by s.trick.lead (length s.trick.cards))
turn_in over s = none

unfoldable pub turn : State → Option ℕ
turn s = turn_in s.phase s

abbrev pub begin : Kind → Option ℕ → State → State
begin kind soloist s = record s {
  phase = playing;
  kind = kind;
  soloist = soloist;
  trick = record { lead = next_by s.dealer 1; cards = [] };
}
