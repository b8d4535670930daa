-- ===== src/Doko/Played.antt =====
-- Doppelkopf: how often a card can be played, for every action (apps/duell-web/src/doko.js: apply).
use cads_agent_marketplace.Common.{
  Bool, List, Option, [], false, if◌then◌else◌, leb, list_eq, ltb, nat_eq, none, not, option_beq,
  refl, set, some, true, ℕ, ◌++◌, ◌==◌, ◌∷◌, ◌≡◌,
}
use cads_agent_marketplace.Doko.Apply.{
  Action, Move, Outcome, apply, ask_next, asked_after, call_as, call_at, call_word, card_error,
  fail, first_saying, if_unset, lay, make_call, move_on, next_asked, ok, other_move, other_party,
  play_card, play_in, play_known, reserve, saying_in, second_saying, seen, word_level,
}
use cads_agent_marketplace.Doko.Calls.{call_ok, known_party, table}
use cads_agent_marketplace.Doko.Cards.{
  Card, card_eq, hochzeit, led_eq, normal, rank_eq, rule_eq, solo, suit_eq,
}
use cads_agent_marketplace.Doko.State.{
  Party, Phase, Saying, State, Word, alone, asking, begin, gesund, marry, other_saying, over,
  party_eq, playing, questions, turn, vorbehalt,
}
use cads_agent_marketplace.Doko.Twice.{IsTwice, OutcomeTwice, begin-IsTwice, lay-IsTwice}

OutcomeTwice-if :
    (b : Bool) (x y : Outcome) → OutcomeTwice x → OutcomeTwice y → OutcomeTwice (if b then x else y)
OutcomeTwice-if true x y h k = h
OutcomeTwice-if false x y h k = k

asked-IsTwice :
    (queue : List ℕ) (seat : ℕ) (s : State) → IsTwice s → OutcomeTwice (next_asked seat s queue)
asked-IsTwice [] seat s h =
    OutcomeTwice-if (not (seat == s.dealer)) _ (ok (begin normal none s)) h
      (begin-IsTwice normal none s h)
asked-IsTwice (q ∷ qs) seat s h =
    OutcomeTwice-if (not (seat == s.dealer)) _ (ok (record s { phase = questions; ask = q })) h h

first-IsTwice :
    (v : Saying) (seat : ℕ) (s : State) → IsTwice s → OutcomeTwice (first_saying v seat s)
first-IsTwice gesund seat s h =
    asked-IsTwice s.queue seat (record s { say = set s.say seat (some gesund) }) h
first-IsTwice vorbehalt seat s h =
    asked-IsTwice (s.queue ++ seat ∷ []) seat
      (record s { say = set s.say seat (some vorbehalt); queue = s.queue ++ seat ∷ [] }) h
first-IsTwice marry seat s h = tt
first-IsTwice other_saying seat s h = tt
first-IsTwice (alone v) seat s h = tt

ask_next-IsTwice : (o : Option ℕ) (s : State) → IsTwice s → OutcomeTwice (ask_next o s)
ask_next-IsTwice none s h = begin-IsTwice hochzeit s.wedding s h
ask_next-IsTwice (some q) s h = h

second-IsTwice :
    (v : Saying) (seat : ℕ) (s : State) → IsTwice s → OutcomeTwice (second_saying v seat s)
second-IsTwice (alone v) seat s h =
    begin-IsTwice (solo v) (some seat) (record s { say = set s.say seat (some (alone v)) }) h
second-IsTwice marry seat s h =
    ask_next-IsTwice (asked_after s.queue seat)
      (record s { say = set s.say seat (some marry); wedding = if_unset s.wedding seat }) h
second-IsTwice gesund seat s h = tt
second-IsTwice vorbehalt seat s h = tt
second-IsTwice other_saying seat s h = tt

saying-IsTwice :
    (p : Phase) (v : Saying) (seat : ℕ) (s : State)
    → IsTwice s
    → OutcomeTwice (saying_in p v seat s)
saying-IsTwice asking v seat s h = OutcomeTwice-if (s.ask == seat) _ _ (first-IsTwice v seat s h) tt
saying-IsTwice questions v seat s h =
    OutcomeTwice-if (s.ask == seat) _ _ (second-IsTwice v seat s h) tt
saying-IsTwice playing v seat s h = tt
saying-IsTwice over v seat s h = tt

known-IsTwice :
    (c : Option Card) (seat : ℕ) (s : State) → IsTwice s → OutcomeTwice (play_known c seat s)
known-IsTwice none seat s h = tt
known-IsTwice (some c) seat s h = split (leb 2 (seen c (table s))) refl
  where
    split :
        (b : Bool)
        → leb 2 (seen c (table s)) ≡ b
        → OutcomeTwice (if b then fail card_error else lay c seat s)
    split true e = tt
    split false e = lay-IsTwice c seat s e h

play-IsTwice :
    (p : Phase) (c : Option Card) (seat : ℕ) (s : State)
    → IsTwice s
    → OutcomeTwice (play_in p c seat s)
play-IsTwice playing c seat s h =
    OutcomeTwice-if (option_beq (turn s) (some seat)) _ _ (known-IsTwice c seat s h) tt
play-IsTwice asking c seat s h = tt
play-IsTwice questions c seat s h = tt
play-IsTwice over c seat s h = tt

call_at-IsTwice :
    (o : Option ℕ) (p : Party) (a : Word) (seat : ℕ) (s : State)
    → IsTwice s
    → OutcomeTwice (call_at o p a seat s)
call_at-IsTwice none p a seat s h = tt
call_at-IsTwice (some lvl) p a seat s h =
    OutcomeTwice-if (other_party (known_party s seat) p) _ _ tt
      (OutcomeTwice-if (call_ok s seat p lvl) (ok (make_call p a lvl seat s)) _ h tt)

call-IsTwice :
    (o : Option Party) (a : Word) (seat : ℕ) (s : State)
    → IsTwice s
    → OutcomeTwice (call_as o a seat s)
call-IsTwice none a seat s h = tt
call-IsTwice (some p) a seat s h = call_at-IsTwice (word_level p a) p a seat s h

move-IsTwice : (m : Move) (seat : ℕ) (s : State) → IsTwice s → OutcomeTwice (move_on m seat s)
move-IsTwice (reserve v) seat s h = saying-IsTwice s.phase v seat s h
move-IsTwice (play_card c) seat s h = play-IsTwice s.phase c seat s h
move-IsTwice (call_word p a) seat s h = call-IsTwice p a seat s h
move-IsTwice other_move seat s h = tt

-- If no card is on the table more than twice, then neither is one after any action that `apply`
-- accepts.
pub apply-IsTwice : (s : State) (a : Option Action) → IsTwice s → OutcomeTwice (apply s a)
unfolding apply
apply-IsTwice s none h = tt
apply-IsTwice s (some a) h = OutcomeTwice-if (ltb a.seat 4) _ _ (move-IsTwice a.move a.seat s h) tt
