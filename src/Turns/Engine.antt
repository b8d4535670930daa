-- ===== src/Turns/Engine.antt =====
-- The course of a turn game (apps/duell-web/src/turns.js: checked, moves, state, play, gate, close,
-- fresh). The moves travel in the link, and every device reads them again with the same checks.
use cads_agent_marketplace.Common.{
  Bool, List, Option, [], false, get_elem?, if◌then◌else◌, leb, length, list_eq, nat_eq, none, not,
  some, take, true, ℕ, ◌%◌, ◌&&◌, ◌++◌, ◌+◌, ◌==◌, ◌||◌, ◌∷◌,
}
use cads_agent_marketplace.Common.Int.{pos, pos_part, ℤ, ◌+ℤ◌, ◌-ℤ◌}
use cads_agent_marketplace.Turns.Answer.{Deck, Filters, Moves, Prompt}
use cads_agent_marketplace.Turns.Check.{ok_answer}
use cads_agent_marketplace.Turns.Seal.{seal, unseal}
use cads_agent_marketplace.Turns.Value.{Value, array, elements, number, of_items}

-- A game, with what it sets of its own; `snap` is the number of turns that stay in the link, where
-- the link holds the game as it is now.
pub record Game (D : Type 0) : Type 0 where
  pub turns : List (List (Prompt D))
  pub ends : Option (Option ℤ → Deck D → Moves → Bool)
  pub legacy : Option (ℕ → Value → Value)
  pub store : Option (ℕ → List Value → Value)
  pub snap : Option ℕ
  pub wish : Bool
  pub gate_from : Bool
  pub gate_at : Option (Option ℤ → Deck D → Moves → Option ℤ)
  pub close_mark : Option ℤ

-- A card: what is played, a date or a mark, and the sealed moves.
pub record Card (D : Type 0) : Type 0 where
  pub deck : Deck D
  pub o : Option ℤ
  pub q : List ℕ

abbrev pub text_of : List Value → Value
text_of vs = array (of_items vs)

abbrev pub read_old : Option (ℕ → Value → Value) → ℕ → Value → Value
read_old none t v = v
read_old (some f) t v = f t v

abbrev pub stored : Option (ℕ → List Value → Value) → ℕ → List Value → Value
stored none t xs = text_of xs
stored (some f) t xs = f t xs

abbrev pub snapped : Option ℕ → Moves → Moves
snapped none m = m
snapped (some k) m = take k m

-- A game that is over, or a turn that is not accepted, ends the list.
abbrev pub go_on : {A : Type 0} → Bool → Option A → Moves → (A → Moves) → Moves
go_on true r out k = out
go_on false none out k = out
go_on false (some got) out k = k got

-- `today + answers[1]`
abbrev pub day_after : ℕ → List Value → Option ℤ
day_after today (a ∷ number n ∷ vs) = some (pos today +ℤ n)
day_after today _ = none

module _ {D : Type 0} where
  abbrev pub ends_by : Option (Option ℤ → Deck D → Moves → Bool) → Option ℤ → Deck D → Moves → Bool
  ends_by none o d m = false
  ends_by (some e) o d m = e o d m

  abbrev pub prompts_at : Option (List (Prompt D)) → List (Prompt D)
  prompts_at none = []
  prompts_at (some ps) = ps

module _ {D : Type 0} (f : Filters) where
  -- One answer for each prompt, and each is accepted; `now` are those before.
  unfoldable pub all_ok : List (Prompt D) → List Value → Deck D → Moves → List Value → Bool
  unfolding ok_answer
  all_ok [] [] d m now = true
  all_ok [] (v ∷ vs) d m now = false
  all_ok (p ∷ ps) [] d m now = false
  all_ok (p ∷ ps) (v ∷ vs) d m now = ok_answer f p v d m now && all_ok ps vs d m (now ++ v ∷ [])

module _ {D : Type 0} (g : Game D) where
  -- What is kept of each turn.
  abbrev pub stored_all : ℕ → Moves → List Value
  stored_all t [] = []
  stored_all t (x ∷ xs) = stored g.store t x ∷ stored_all (t + 1) xs

  abbrev pub new_mark : ℕ → List Value → Card D → Moves → Option ℤ
  new_mark today answers c m =
      if g.gate_from && length m == 0 then day_after today answers else if g.wish then none else c.o

module _ {D : Type 0} (f : Filters) (g : Game D) where
  abbrev pub has_ended : Option ℤ → Deck D → Moves → Bool
  has_ended o d m = ends_by g.ends o d m

  -- What `raw[t]` gives for the turn `t`: its answers, if they are accepted.
  abbrev pub answers_if :
      List (Prompt D) → Deck D → Moves → Option (List Value) → Option (List Value)
  answers_if want d out none = none
  answers_if want d out (some got) = if all_ok f want got d out [] then some got else none

  abbrev pub turn_of : List (Prompt D) → ℕ → Value → Deck D → Moves → Option (List Value)
  turn_of want t v d out = answers_if want d out (elements (read_old g.legacy t v))

  -- `checked`, from the turn `t` on.
  unfoldable pub checked_from :
      Option ℤ → Deck D → ℕ → List (List (Prompt D)) → List Value → Moves → Moves
  unfolding all_ok
  checked_from o d t [] raw out = out
  checked_from o d t (w ∷ ws) [] out = out
  checked_from o d t (w ∷ ws) (v ∷ raw) out =
      go_on (has_ended o d out) (turn_of w t v d out) out
        (λ got. checked_from o d (t + 1) ws raw (out ++ got ∷ []))

  unfoldable pub checked : Option ℤ → Deck D → List Value → Moves
  unfolding checked_from
  checked o d raw = checked_from o d 0 g.turns raw []

  abbrev pub is_over : Card D → Moves → Bool
  is_over c m = leb (length g.turns) (length m) || has_ended c.o c.deck m

  abbrev pub prompts : Card D → Moves → List (Prompt D)
  prompts c m = if is_over c m then [] else prompts_at (get_elem? g.turns (length m))

-- `parse` is JSON.parse, in bytes.
module _ {D : Type 0} (f : Filters) (parse : List ℕ → Option Value) (g : Game D) where
  unfoldable pub moves : Card D → Moves
  unfolding checked unseal
  moves c = checked f g c.o c.deck (unseal parse c.q c.deck.seed)

  -- `play`: the next card, or none if the answers do not fit the turn; `print` is JSON.stringify.
  unfoldable pub play : (Value → List ℕ) → Card D → List Value → ℕ → Option (Card D)
  unfolding moves all_ok seal
  play print c answers today =
      let m = moves c in
      if is_over f g c m || not (all_ok f (prompts f g c m) answers c.deck m [])
      then none
      else some (record c {
        q = seal print (stored_all g 0 (snapped g.snap m ++ answers ∷ [])) c.deck.seed;
        o = new_mark g today answers c m;
      })

  abbrev pub left_of : ℕ → Option ℤ → ℕ
  left_of today none = 0
  left_of today (some at) = pos_part (at -ℤ pos today)

  abbrev pub gate_of : Option (Option ℤ → Deck D → Moves → Option ℤ) → Card D → Moves → Option ℤ
  gate_of none c m = none
  gate_of (some e) c m = e c.o c.deck m

  -- `gate`: how many days are left until the card opens.
  unfoldable pub gate : Card D → ℕ → ℕ
  unfolding moves
  gate c today = left_of today (gate_of g.gate_at c (moves c))

  abbrev pub close_if : Option ℤ → Bool → Card D → Option (Card D)
  close_if none b c = none
  close_if (some mark) true c = none
  close_if (some mark) false c = some (record c { o = some mark })

  -- `close`: a game that its owner ends by hand.
  unfoldable pub close : Card D → Option (Card D)
  unfolding moves
  close c = close_if g.close_mark (is_over f g c (moves c) || length (moves c) == 0) c

-- `fresh`
unfoldable pub fresh : {D : Type 0} → Card D → ℕ → Card D
fresh c seed = record {
  deck = record { seed = seed % 4294967296; rest = c.deck.rest };
  q = [];
  o = none;
}
