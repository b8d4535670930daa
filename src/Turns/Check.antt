-- ===== src/Turns/Check.antt =====
-- The check of an answer (apps/duell-web/src/turns.js: okAnswer): a link can be built by hand, so every
-- answer has to be one the screen could have given.
use cads_agent_marketplace.Common.{
  Bool, List, Option, all, any, false, if◌then◌else◌, leb, length, list_eq, map, nat_eq, none, not,
  some, true, ℕ, ◌&&◌, ◌++◌, ◌==◌, ◌||◌,
}
use cads_agent_marketplace.Common.Int.{negsuc, pos}
use cads_agent_marketplace.Turns.Answer.{
  Deck, Filters, Moves, Prompt, Widget, all_below, all_clean, all_in, all_loose, alloc, blind,
  blocks, blow, bw, clock, day, door, door_ok, doors, drop, enough_filled, explain, fold_value,
  freeze, grid, hunt, ideas, ideas_ok, if_array, if_number, if_string, inner, is_clean, is_multiple,
  is_zero, list, money, nim, numbers, once, opts, parrot, pay, pick, probe, rank, react, rec, shop,
  show, slide, slots, text, too_long, total, touch, unknown, voices, vote, whose, wish,
}
use cads_agent_marketplace.Turns.Blocks.{Board, replay}
use cads_agent_marketplace.Turns.Value.{Value, distinct_values, int_in}

-- As many different options as are asked for.
abbrev pub pick_ok : ℕ → ℕ → List Value → Bool
pick_ok k n vs = length vs == k && (distinct_values vs && all_below n vs)

-- `!!replay(doc, v)`
abbrev pub was_played : Option Board → Bool
was_played none = false
was_played (some st) = true

module _ {D : Type 0} (q : Filters) where
  abbrev pub options : Option (Deck D → Moves → List Value → ℕ) → Deck D → Moves → List Value → ℕ
  options none d m now = 0
  options (some f) d m now = f d m now

  abbrev pub is_bad : Option (List ℕ → Deck D → Moves → Bool) → List ℕ → Deck D → Moves → Bool
  is_bad none t d m = false
  is_bad (some f) t d m = f t d m

  abbrev pub slide_max : Option (Deck D → ℕ) → Deck D → ℕ → ℕ
  slide_max none d k = k
  slide_max (some f) d k = f d

  abbrev pub text_ok : Prompt D → Deck D → Moves → List ℕ → Bool
  text_ok p d m t =
      is_clean q p.max t && (not (p.one_word && any q.is_space t) && not (is_bad p.bad t d m))

  abbrev pub list_ok : Prompt D → List Value → Bool
  list_ok p vs =
      length vs == p.n
      && (if p.loose
          then enough_filled q p.least vs && all_loose q p.max vs
          else all_clean q p.max vs && (p.same || distinct_values (map (fold_value q) vs)))

  abbrev pub probe_ok : Prompt D → Deck D → Moves → List Value → Bool
  probe_ok p d m vs =
      leb 1 (length vs)
      && (leb (length vs) p.n && (distinct_values (vs ++ p.before d m) && all_in 0 24 vs))

  abbrev pub blocks_ok : Prompt D → Deck D → List Value → Bool
  unfolding replay
  blocks_ok p d vs =
      leb (length vs) p.max && (all_in 0 63 vs && was_played (replay d.seed (numbers vs)))

  abbrev pub alloc_ok : Prompt D → ℕ → List Value → Bool
  alloc_ok p n vs =
      length vs == n
      && (all_in 0 p.sum vs
          && (all (is_multiple p.step) (numbers vs) && leb (total (numbers vs)) p.sum))

  -- The check by the widget, for a prompt with no check of its own.
  unfoldable pub widget_ok : Widget → Prompt D → Value → Deck D → Moves → List Value → Bool
  widget_ok show p v d m now = is_zero v
  widget_ok touch p v d m now = is_zero v
  widget_ok clock p v d m now = is_zero v
  widget_ok blow p v d m now = is_zero v
  widget_ok hunt p v d m now = int_in v (pos 1) (pos p.max)
  widget_ok drop p v d m now = int_in v (pos 0) (pos p.max)
  widget_ok doors p v d m now = is_zero v
  widget_ok freeze p v d m now = int_in v (pos 0) (pos p.max)
  widget_ok rec p v d m now = is_zero v
  widget_ok once p v d m now = is_zero v
  widget_ok parrot p v d m now = is_zero v
  widget_ok pay p v d m now = is_zero v
  widget_ok slots p v d m now = p.ok_moves v m
  widget_ok vote p v d m now = p.ok_moves v m
  widget_ok bw p v d m now = p.ok_moves v m
  widget_ok shop p v d m now = p.ok_list v
  widget_ok wish p v d m now = p.ok_list v
  widget_ok opts p v d m now = if_array v (pick_ok p.n p.keys)
  widget_ok whose p v d m now = int_in v (pos 0) (pos 2)
  widget_ok inner p v d m now =
      if_array v (λ vs. length vs == 5 && all (λ x. int_in x (negsuc 19999) (pos 20000)) vs)
  widget_ok blind p v d m now = int_in v (pos 2000) (pos 30000)
  widget_ok nim p v d m now = int_in v (pos 0) (pos 1)
  widget_ok react p v d m now = int_in v (pos 0) (pos 60000)
  widget_ok door p v d m now = if_array v door_ok
  widget_ok voices p v d m now = int_in v (pos 0) (pos p.rounds)
  widget_ok grid p v d m now = if_array v (pick_ok p.n 25)
  widget_ok probe p v d m now = if_array v (probe_ok p d m)
  widget_ok explain p v d m now = int_in v (pos 0) (pos p.max)
  widget_ok blocks p v d m now = if_array v (blocks_ok p d)
  widget_ok slide p v d m now = int_in v (pos p.min) (pos (slide_max p.max_of d p.max))
  widget_ok money p v d m now = if_number v (λ n. p.ok_now n now)
  widget_ok text p v d m now = if_string v (text_ok p d m)
  widget_ok list p v d m now = if_array v (list_ok p)
  widget_ok ideas p v d m now = if_array v (ideas_ok q)
  widget_ok day p v d m now = int_in v (pos 20000) (pos 30000)
  widget_ok pick p v d m now = if_array v (pick_ok p.n (options p.from d m now))
  widget_ok rank p v d m now =
      if_array v (pick_ok (options p.from d m now) (options p.from d m now))
  widget_ok alloc p v d m now = if_array v (alloc_ok p (options p.from d m now))
  widget_ok unknown p v d m now = false

  abbrev pub checked_or :
      Option (Value → Deck D → Moves → List Value → Bool)
      → Prompt D
      → Value
      → Deck D
      → Moves
      → List Value
      → Bool
  unfolding widget_ok
  checked_or none p v d m now = widget_ok p.w p v d m now
  checked_or (some f) p v d m now = f v d m now

  -- `okAnswer`, after the moves `m` and the answers `now` of the same turn.
  unfoldable pub ok_answer : Prompt D → Value → Deck D → Moves → List Value → Bool
  ok_answer p v d m now = not (too_long q p.bytes v) && checked_or p.check p v d m now
