-- ===== src/Turns/Played.antt =====
-- What a device reads from the card that another device has played on
-- (apps/duell-web/src/turns.js: play, moves, checked, seal, unseal).
use mathlib.Core.List.{append-nil, append_assoc}
use mathlib.Core.Path.{subst}
use cads_agent_marketplace.Common.{
  Bool, Bool-cases, List, Option, Option-cases, [], ap, arith, false, get_elem?, if◌then◌else◌, inl,
  inr, leb, length, none, not, refl, some, suc, sym, true, zero, ℕ, ◌++◌, ◌+◌, ◌<◌, ◌||◌, ◌∙◌, ◌∷◌,
  ◌≡◌, ◌≤◌,
}
use cads_agent_marketplace.Common.Int.{ℤ}
use cads_agent_marketplace.Turns.Answer.{Deck, Filters, Moves, Prompt}
use cads_agent_marketplace.Turns.Engine.{
  Card, Game, all_ok, answers_if, checked, checked_from, has_ended, is_over, moves, new_mark, play,
  prompts, read_old, snapped, stored, stored_all, text_of, turn_of,
}
use cads_agent_marketplace.Turns.Seal.{seal, unseal}
use cads_agent_marketplace.Turns.Seal.RoundTrip.{IsJson, unseal-seal}
use cads_agent_marketplace.Turns.Value.{Value, items-of_items}

guarded :
    (b : Bool) (xs ys : List Value)
    → (if b then some xs else none) ≡ some ys
    → (b ≡ true) × (xs ≡ ys)
guarded true xs ys h = (refl, cc)
guarded false xs ys h = cc

module _ {D : Type 0} (f : Filters) (g : Game D) where
  -- What is kept of a turn is read as that turn.
  unfoldable pub IsStored : Type 0
  IsStored = (t : ℕ) (xs : List Value) → read_old g.legacy t (stored g.store t xs) ≡ text_of xs

  -- The end of the game does not depend on the date or mark of the card.
  unfoldable pub HasSteadyEnd : Type 0
  HasSteadyEnd =
      (o o' : Option ℤ) (d : Deck D) (m : Moves) → has_ended f g o d m ≡ has_ended f g o' d m

  -- Moves that are taken one after another, after the moves `out`.
  pub IsRead : Option ℤ → Deck D → List (List (Prompt D)) → Moves → Moves → Type 0
  IsRead o d ws out [] = Unit {0}
  IsRead o d [] out (x ∷ ms) = ⊥
  IsRead o d (w ∷ ws) out (x ∷ ms) =
      (has_ended f g o d out ≡ false)
      × (all_ok f w x d out [] ≡ true)
      × IsRead o d ws (out ++ x ∷ []) ms

  abbrev Reading : Option ℤ → Deck D → List (List (Prompt D)) → Moves → Moves → Type 0
  Reading o d ws out r = (ms : Moves) × (r ≡ out ++ ms) × IsRead o d ws out ms

  nothing-Reading :
      (o : Option ℤ) (d : Deck D) (ws : List (List (Prompt D))) (out : Moves)
      → Reading o d ws out out
  unfolding IsRead
  nothing-Reading o d ws out = ([], sym (append-nil out), tt)

  answers_if-some :
      (w : List (Prompt D)) (d : Deck D) (out : Moves) (r : Option (List Value)) (got : List Value)
      → answers_if f g w d out r ≡ some got
      → all_ok f w got d out [] ≡ true
  answers_if-some w d out none got h = cc
  answers_if-some w d out (some xs) got h =
      let e = guarded (all_ok f w xs d out []) xs got h in
      subst (λ ys. all_ok f w ys d out [] ≡ true) e.1 e.0

  -- What is read are moves that were taken one after another.
  checked_from-Reading :
      (o : Option ℤ) (d : Deck D) (t : ℕ) (ws : List (List (Prompt D))) (raw : List Value)
      (out : Moves)
      → Reading o d ws out (checked_from f g o d t ws raw out)
  unfolding checked_from IsRead
  checked_from-Reading o d t [] raw out = nothing-Reading o d [] out
  checked_from-Reading o d t (w ∷ ws) [] out = nothing-Reading o d (w ∷ ws) out
  checked_from-Reading o d t (w ∷ ws) (v ∷ raw) out = elim (Bool-cases (has_ended f g o d out)) [
    | inl e ↦ rw e (nothing-Reading o d (w ∷ ws) out)
    | inr e ↦ rw e (elim (Option-cases (turn_of f g w t v d out)) [
      | inl n ↦ rw n (nothing-Reading o d (w ∷ ws) out)
      | inr (got, n) ↦
          let (ms, same, read) = checked_from-Reading o d (t + 1) ws raw (out ++ got ∷ []) in
          rw n (
            got ∷ ms,
            same ∙ append_assoc out (got ∷ []) ms,
            (e, answers_if-some w d out _ got n, read),
          )
    ])
  ]

  -- An accepted turn may follow.
  IsRead-snoc :
      (o : Option ℤ) (d : Deck D) (ws : List (List (Prompt D))) (out ms : Moves)
      (w : List (Prompt D)) (answers : List Value)
      → IsRead o d ws out ms
      → get_elem? ws (length ms) ≡ some w
      → has_ended f g o d (out ++ ms) ≡ false
      → all_ok f w answers d (out ++ ms) [] ≡ true
      → IsRead o d ws out (ms ++ answers ∷ [])
  unfolding IsRead
  IsRead-snoc o d [] out [] w answers h at on ok = cc
  IsRead-snoc o d (x ∷ ws) out [] w answers h at on ok =
      let e : w ≡ x = cc in
      (
        rw (append-nil out) at on,
        subst (λ p. all_ok f p answers d out [] ≡ true) e (rw (append-nil out) at ok),
        tt,
      )
  IsRead-snoc o d [] out (m ∷ ms) w answers h at on ok = h
  IsRead-snoc o d (x ∷ ws) out (m ∷ ms) w answers h at on ok = (
    h.0,
    h.1,
    IsRead-snoc o d ws (out ++ m ∷ []) ms w answers h.2 at (rw (append_assoc out (m ∷ []) ms) on)
        (rw (append_assoc out (m ∷ []) ms) ok),
  )

  -- What is kept of such moves is read as those moves, whatever the date or mark is.
  checked_from-stored :
      (o o' : Option ℤ) (d : Deck D) (t : ℕ) (ws : List (List (Prompt D))) (out ms : Moves)
      → IsStored
      → HasSteadyEnd
      → IsRead o d ws out ms
      → checked_from f g o' d t ws (stored_all g t ms) out ≡ out ++ ms
  unfolding checked_from IsRead IsStored HasSteadyEnd
  checked_from-stored o o' d t [] out [] st steady h = sym (append-nil out)
  checked_from-stored o o' d t (w ∷ ws) out [] st steady h = sym (append-nil out)
  checked_from-stored o o' d t [] out (m ∷ ms) st steady h = absurd h
  checked_from-stored o o' d t (w ∷ ws) out (m ∷ ms) st steady h =
      rw (steady o' o d out ∙ h.0, st t m, items-of_items m, h.1)
        (checked_from-stored o o' d (t + 1) ws (out ++ m ∷ []) ms st steady h.2
          ∙ append_assoc out (m ∷ []) ms)

same_some : {A : Type 0} (a b : A) → some a ≡ some b → a ≡ b
same_some a b h = cc

get_elem?-below :
    {A : Type 0} (xs : List A) (i : ℕ) → i < length xs → (x : A) × (get_elem? xs i ≡ some x)
get_elem?-below [] i h = elim h [ ]
get_elem?-below (x ∷ xs) zero h = (x, refl)
get_elem?-below (x ∷ xs) (suc i) h = get_elem?-below xs i (omega (arith, h))

refused : (a b c : Bool) → ((a || b) || not c) ≡ false → (a ≡ false) × (b ≡ false) × (c ≡ true)
refused a b c h = ground arith

module _ {D : Type 0} (f : Filters) (g : Game D) (c : Card D) (m : Moves)
    (answers : List Value) where
  -- What `play` asks of answers that it takes.
  accepted :
      (is_over f g c m || not (all_ok f (prompts f g c m) answers c.deck m [])) ≡ false
      → (w : List (Prompt D)) × (get_elem? g.turns (length m) ≡ some w)
        × (has_ended f g c.o c.deck m ≡ false)
        × (all_ok f w answers c.deck m [] ≡ true)
  accepted h =
      let r =
        refused (leb (length g.turns) (length m)) (has_ended f g c.o c.deck m)
          (all_ok f (prompts f g c m) answers c.deck m []) h in
      let (w, at) = get_elem?-below g.turns (length m) (ground (arith, r.0)) in
      (w, at, r.1, rw (r.0, r.1, at) at r.2)

module _ {D : Type 0} (f : Filters) (print : Value → List ℕ) (parse : List ℕ → Option Value)
    (g : Game D) where
  nothing : (c' : Card D) → none ≡ some c' → ⊥
  nothing c' h = cc

  -- The same with the new card written out.
  next-moves :
      (c : Card D) (answers : List Value) (o' : Option ℤ)
      → IsStored f g
      → HasSteadyEnd f g
      → let m = moves f parse g c in
        (is_over f g c m || not (all_ok f (prompts f g c m) answers c.deck m [])) ≡ false
        → IsJson print parse (text_of (stored_all g 0 (moves f parse g c ++ answers ∷ [])))
        → let q' = seal print (stored_all g 0 (moves f parse g c ++ answers ∷ [])) c.deck.seed in
          length q' ≤ 900
          → moves f parse g (record c { q = q'; o = o' }) ≡ moves f parse g c ++ answers ∷ []
  unfolding moves checked
  next-moves c answers o' st steady free json short =
      let m = moves f parse g c in
      let (ms, same, read) =
        checked_from-Reading f g c.o c.deck 0 g.turns (unseal parse c.q c.deck.seed) [] in
      let all = stored_all g 0 (m ++ answers ∷ []) in
      let (w, at, on, ok) = accepted f g c m answers free in
      let read' : IsRead f g c.o c.deck g.turns [] m =
        subst (IsRead f g c.o c.deck g.turns []) (sym same) read in
      ap (λ raw. checked_from f g o' c.deck 0 g.turns raw [])
        (unseal-seal print parse all c.deck.seed json short)
      ∙ checked_from-stored f g c.o o' c.deck 0 g.turns [] (m ++ answers ∷ []) st steady
          (IsRead-snoc f g c.o c.deck g.turns [] m w answers read' at on ok)

  -- Answers that are played on a card, in a game that keeps its turns, whose end does not depend on the
  -- date of the card and whose turns are read as they are kept: the next card holds the moves of this
  -- card and the answers as one more turn, if JSON reads its moves back and they fit into a link.
  pub play-moves :
      (c : Card D) (answers : List Value) (today : ℕ) {c' : Card D}
      → IsStored f g
      → HasSteadyEnd f g
      → g.snap ≡ none
      → play f parse g print c answers today ≡ some c'
      → IsJson print parse (text_of (stored_all g 0 (moves f parse g c ++ answers ∷ [])))
      → length c'.q ≤ 900
      → moves f parse g c' ≡ moves f parse g c ++ answers ∷ []
  unfolding play
  play-moves c answers today {c'} st steady whole h json short =
      let m = moves f parse g c in
      elim (Bool-cases (is_over f g c m || not (all_ok f (prompts f g c m) answers c.deck m []))) [
        | inl bad ↦ absurd (nothing c' (rw bad at h))
        | inr free ↦
            let keep = λ (k : Moves). record c {
              q = seal print (stored_all g 0 (k ++ answers ∷ [])) c.deck.seed;
              o = new_mark g today answers c m;
            } in
            let kept : snapped g.snap m ≡ m = rw whole in
            let e : keep m ≡ c' =
              ap keep (sym kept) ∙ same_some (keep (snapped g.snap m)) c' (rw free at h) in
            subst (λ k. length k.q ≤ 900 → moves f parse g k ≡ m ++ answers ∷ []) e
              (next-moves c answers (new_mark g today answers c m) st steady free json) short
      ]

-- Whatever a link holds, the moves that are read from it are turns of the game one after another, each
-- with answers that the checks accept and none after the game has ended.
pub moves-IsRead :
    {D : Type 0} (f : Filters) (parse : List ℕ → Option Value) (g : Game D) (c : Card D)
    → IsRead f g c.o c.deck g.turns [] (moves f parse g c)
unfolding moves checked
moves-IsRead f parse g c =
    let (ms, same, read) =
      checked_from-Reading f g c.o c.deck 0 g.turns (unseal parse c.q c.deck.seed) [] in
    subst (IsRead f g c.o c.deck g.turns []) (sym same) read
