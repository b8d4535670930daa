-- ===== src/Doko/Apply.antt =====
-- Doppelkopf: what an action does (apps/duell-web/src/doko.js: fail, apply).
use cads_agent_marketplace.Common.{
  Bool, List, Option, [], contains, false, get_elem?, if◌then◌else◌, index_of, leb, length, list_eq,
  ltb, nat_eq, none, not, option_beq, set, some, suc, ℕ, ◌++◌, ◌+◌, ◌==◌, ◌∷◌,
}
use cads_agent_marketplace.Doko.Calls.{call_ok, known_party, table}
use cads_agent_marketplace.Doko.Cards.{
  Card, Kind, Play, card_eq, eyes, hochzeit, karo, led_eq, normal, rank_eq, rule_eq, solo, suit_eq,
  trick_winner,
}
use cads_agent_marketplace.Doko.State.{
  Levels, Party, Phase, Saying, State, Word, alone, asking, begin, gesund, k30, k60, k90, kontra,
  kontra_word, marry, next_by, over, party_eq, playing, questions, re, re_word, schwarz, turn,
  vorbehalt,
}

pub data Move : Type 0 where
  reserve : Saying → Move
  -- `none` stands for what is no card of the deck
  play_card : Option Card → Move
  -- `none` stands for what is no party
  call_word : Option Party → Word → Move
  other_move : Move

pub record Action : Type 0 where
  pub seat : ℕ
  pub move : Move

pub data Reason : Type 0 where
  format turn_error value phase_error card_error party_error late type_error : Reason

-- `thrown` stands for an exception of JavaScript.
pub data Outcome : Type 0 where
  ok : State → Outcome
  fail : Reason → Outcome
  thrown : Outcome

-- The first round of questions: who has a reservation.
abbrev pub next_asked : ℕ → State → List ℕ → Outcome
next_asked seat s queue =
    if not (seat == s.dealer) then ok (record s { ask = next_by seat 1 }) else first_of queue
  where
    first_of : List ℕ → Outcome
    first_of [] = ok (begin normal none s)
    first_of (q ∷ qs) = ok (record s { phase = questions; ask = q })

abbrev pub first_saying : Saying → ℕ → State → Outcome
first_saying gesund seat s =
    let t = record s { say = set s.say seat (some gesund) } in next_asked seat t t.queue
first_saying vorbehalt seat s =
    let t = record s { say = set s.say seat (some vorbehalt); queue = s.queue ++ seat ∷ [] } in
    next_asked seat t t.queue
first_saying _ seat s = fail value

-- The one that is asked after `seat`, or `none` at the end of the queue.
abbrev pub asked_after : List ℕ → ℕ → Option ℕ
asked_after queue seat =
    if contains queue seat then get_elem? queue (suc (index_of queue seat)) else get_elem? queue 0

abbrev pub if_unset : Option ℕ → ℕ → Option ℕ
if_unset none seat = some seat
if_unset (some w) seat = some w

abbrev pub ask_next : Option ℕ → State → Outcome
ask_next none s = ok (begin hochzeit s.wedding s)
ask_next (some q) s = ok (record s { ask = q })

-- The second round: a solo begins at once, a marriage waits for the others.
abbrev pub second_saying : Saying → ℕ → State → Outcome
second_saying (alone v) seat s =
    ok (begin (solo v) (some seat) (record s { say = set s.say seat (some (alone v)) }))
second_saying marry seat s =
    let t = record s { say = set s.say seat (some marry); wedding = if_unset s.wedding seat } in
    ask_next (asked_after t.queue seat) t
second_saying _ seat s = fail value

abbrev pub saying_in : Phase → Saying → ℕ → State → Outcome
saying_in asking v seat s = if s.ask == seat then first_saying v seat s else fail turn_error
saying_in questions v seat s = if s.ask == seat then second_saying v seat s else fail turn_error
saying_in _ v seat s = fail turn_error

-- How often a card was played.
abbrev pub seen : Card → List Play → ℕ
seen c [] = 0
seen c (x ∷ xs) = if x.card == c then suc (seen c xs) else seen c xs

abbrev pub sum_eyes : List Play → ℕ
sum_eyes [] = 0
sum_eyes (x ∷ xs) = eyes x.card + sum_eyes xs

-- The trick that decides a marriage: the first that somebody else takes, among the first three.
abbrev pub clarified : Kind → Option ℕ → ℕ → ℕ → State → State
clarified hochzeit none w n s =
    if not (option_beq s.soloist (some w))
    then record s { partner = some w; clar = n }
    else if n == 3
    then record s { kind = solo karo; clar = 3; wedding = s.soloist }
    else s
clarified _ _ w n s = s

abbrev pub close_trick : Option ℕ → State → Outcome
close_trick none s = thrown
close_trick (some w) s =
    let t = record s {
      tricks =
          s.tricks
          ++ record {
            lead = s.trick.lead;
            cards = s.trick.cards;
            winner = w;
            taken_eyes = sum_eyes s.trick.cards;
          }
            ∷ [];
    } in
    let n = length t.tricks in
    let u = record (clarified t.kind t.partner w n t) { trick = record { lead = w; cards = [] } } in
    ok (if n == 12 then record u { phase = over } else u)

abbrev pub count_played : List ℕ → ℕ → List ℕ
count_played ns seat = elim (get_elem? ns seat) [ none ↦ ns | some n ↦ set ns seat (suc n) ]

abbrev pub lay : Card → ℕ → State → Outcome
lay c seat s =
    let t = record s {
      trick = record s.trick { cards = s.trick.cards ++ record { seat = seat; card = c } ∷ [] };
      played = count_played s.played seat;
    } in
    if ltb (length t.trick.cards) 4
    then ok t
    else close_trick (trick_winner t.kind t.trick.cards t.house) t

abbrev pub play_known : Option Card → ℕ → State → Outcome
play_known none seat s = fail card_error
play_known (some c) seat s = if leb 2 (seen c (table s)) then fail card_error else lay c seat s

abbrev pub play_in : Phase → Option Card → ℕ → State → Outcome
play_in playing c seat s =
    if option_beq (turn s) (some seat) then play_known c seat s else fail turn_error
play_in _ c seat s = fail phase_error

-- The level that a party's word calls.
abbrev pub word_level : Party → Word → Option ℕ
word_level re re_word = some 0
word_level kontra kontra_word = some 0
word_level p k90 = some 1
word_level p k60 = some 2
word_level p k30 = some 3
word_level p schwarz = some 4
word_level p _ = none

abbrev pub set_level : Party → ℕ → Levels → Levels
set_level re lvl l = record l { re_level = some lvl }
set_level kontra lvl l = record l { kontra_level = some lvl }

abbrev pub make_call : Party → Word → ℕ → ℕ → State → State
make_call p a lvl seat s = record s {
  level = set_level p lvl s.level;
  claim = set s.claim seat (some p);
  calls =
      s.calls
      ++ record {
        seat = seat;
        party = p;
        word = a;
        count = elim (get_elem? s.played seat) [ none ↦ 0 | some n ↦ n ];
      }
        ∷ [];
}

-- Whether a seat is known to belong to the other party.
abbrev pub other_party : Option Party → Party → Bool
other_party none p = false
other_party (some q) p = not (q == p)

abbrev pub call_at : Option ℕ → Party → Word → ℕ → State → Outcome
call_at none p a seat s = fail format
call_at (some lvl) p a seat s =
    if other_party (known_party s seat) p
    then fail party_error
    else if call_ok s seat p lvl
    then ok (make_call p a lvl seat s)
    else fail late

abbrev pub call_as : Option Party → Word → ℕ → State → Outcome
call_as none a seat s = fail format
call_as (some p) a seat s = call_at (word_level p a) p a seat s

abbrev pub move_on : Move → ℕ → State → Outcome
move_on (reserve v) seat s = saying_in s.phase v seat s
move_on (play_card c) seat s = play_in s.phase c seat s
move_on (call_word p a) seat s = call_as p a seat s
move_on other_move seat s = fail type_error

-- `apply`; `none` stands for an action whose seat is no number of the source's range.
unfoldable pub apply : State → Option Action → Outcome
apply s none = fail format
apply s (some a) = if ltb a.seat 4 then move_on a.move a.seat s else fail format
