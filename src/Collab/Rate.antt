-- ===== src/Collab/Rate.antt =====
-- Editing together: how often a side sends (apps/duell-web/src/collab.js: tick).
use cads_agent_marketplace.Common.{
  All, Bool, Bool-cases, List, Option, [], arith, false, if◌then◌else◌, inl, inr, length, ltb, none,
  not, refl, some, ℕ, ◌*◌, ◌+◌, ◌-◌, ◌||◌, ◌∙◌, ◌∷◌, ◌≡◌, ◌≤◌,
}
use cads_agent_marketplace.Collab.Frames.{Fits, sends-Fits}
use cads_agent_marketplace.Collab.Merge.{Op, Store}
use cads_agent_marketplace.Collab.Outbox.{kill, place_sticker, set_local}
use cads_agent_marketplace.Collab.Receive.{
  Event, Parts, change, greet, loses, places, receive, receives, removes, sends, sent_first, step,
  ticks, writes,
}
use cads_agent_marketplace.Collab.Session.{
  Frame, Meta, Peer, Sent, State, asks_full, bucket, changes, disconnected, due, flush_ms, greeting,
  has_passed, pay, refill, tick, token, unreadable,
}

module _ {V G : Type 0} where
  -- The units that the bucket holds at `now`.
  abbrev held : ℕ → State V G → ℕ
  held now s =
      if ltb bucket (s.tokens + (now - s.refilled)) then bucket else s.tokens + (now - s.refilled)

-- The times of a run: none before `from`, none after `to`, and each no earlier than the one before.
abbrev pub Within : {A : Type 0} → ℕ → ℕ → List (ℕ × A) → Type 0
Within from to [] = from ≤ to
Within from to ((now, e) ∷ es) = from ≤ now × Within now to es

Within-le : {A : Type 0} (from to : ℕ) (es : List (ℕ × A)) → Within from to es → from ≤ to
Within-le from to [] w = w
Within-le from to ((now, e) ∷ es) w = omega (arith, w.0, Within-le now to es w.1)

abbrev count : {A : Type 0} → Option A → ℕ
count none = 0
count (some a) = 1

length-sent_first :
    {A : Type 0} (o : Option A) (xs : List A) → length (sent_first o xs) ≡ count o + length xs
length-sent_first none xs = omega arith
length-sent_first (some x) xs = omega arith

enough : (u p : Bool) (x t : ℕ) → (u || (ltb x t || p)) ≡ false → t ≤ x
enough u p x t h = ground arith

module _ {V G : Type 0} (hash : Store V G → ℕ) (bytes : Op V G → ℕ) where
  -- Making a frame leaves the tokens.
  due-tokens :
      (now : ℕ) (s : State V G)
      → ((due hash bytes now s).1.tokens ≡ s.tokens)
        × ((due hash bytes now s).1.refilled ≡ s.refilled)
  unfolding due
  due-tokens now s = ground arith

  pay-tokens :
      (now : ℕ) (r : Option (Sent V G) × State V G)
      → token ≤ r.1.tokens
      → ((pay now r).1.tokens + token * count (pay now r).0 ≡ r.1.tokens)
        × ((pay now r).1.refilled ≡ r.1.refilled)
  pay-tokens now (none, s) h = (omega arith, refl)
  pay-tokens now (some f, s) h = (omega arith, refl)

  -- A tick pays a token for a frame.
  tick-tokens :
      (now : ℕ) (s : State V G)
      → ((tick hash bytes now s).1.tokens + token * count (tick hash bytes now s).0 ≡ held now s)
        × ((tick hash bytes now s).1.refilled ≡ now)
  unfolding tick
  tick-tokens now s =
      let s' = record s { tokens = refill now s; refilled = now } in
      elim (Bool-cases
        (not s.up || (ltb (refill now s) token || not (has_passed now flush_ms s.last_flush)))) [
          | inl blocked ↦ rw blocked (omega arith, refl)
          | inr free ↦
              let d : (due hash bytes now s').1.tokens ≡ refill now s = (due-tokens now s').0 in
              let h : token ≤ refill now s = enough _ _ (refill now s) token free in
              let p : _ = pay-tokens now (due hash bytes now s') (omega (arith, d, h)) in
              rw free (p.0 ∙ d, p.1 ∙ (due-tokens now s').1)
        ]

module _ {V G : Type 0} (q : Parts V G) where
  asks_full-tokens :
      (now h : ℕ) (s : State V G)
      → ((asks_full q.hash q.bytes now h s).tokens ≡ s.tokens)
        × ((asks_full q.hash q.bytes now h s).refilled ≡ s.refilled)
  unfolding asks_full
  asks_full-tokens now h s = ground arith

  greet-tokens :
      (now h : ℕ) (d : Option Meta) (p : Peer) (s : State V G)
      → ((greet q now h d p s).state.tokens ≡ s.tokens)
        × ((greet q now h d p s).state.refilled ≡ s.refilled)
  unfolding greet
  greet-tokens now h d p s = grind (arith, asks_full-tokens)

  change-tokens :
      (now : ℕ) (os : List (Op V G)) (m : Option Meta) (s : State V G)
      → ((change q now os m s).state.tokens ≡ s.tokens)
        × ((change q now os m s).state.refilled ≡ s.refilled)
  change-tokens now os none s = (refl, refl)
  change-tokens now os (some m) s = (refl, refl)

  -- An answer to a frame leaves the tokens.
  receive-tokens :
      (now n : ℕ) (f : Frame V G) (s : State V G)
      → ((receive q now n f s).state.tokens ≡ s.tokens)
        × ((receive q now n f s).state.refilled ≡ s.refilled)
  unfolding receive
  receive-tokens now n unreadable s = ground arith
  receive-tokens now n (greeting none d p) s = ground arith
  receive-tokens now n (greeting (some h) d p) s = grind (arith, greet-tokens)
  receive-tokens now n (changes d os) s = grind (arith, change-tokens)

  -- What one event sends is paid by what the bucket holds.
  step-tokens :
      (me now : ℕ) (e : Event V G) (s : State V G)
      → held now (step q me now e s).1 + token * count (step q me now e s).0 ≤ held now s
  unfolding step set_local place_sticker kill disconnected
  step-tokens me now (writes k v) s = omega arith
  step-tokens me now (places id g) s = omega arith
  step-tokens me now (removes id) s = omega arith
  step-tokens me now (receives n f) s = ground (arith, receive-tokens now n f s)
  step-tokens me now loses s = omega arith
  step-tokens me now ticks s = ground (arith, tick-tokens q.hash q.bytes now s)

  held-later : (now to : ℕ) (s : State V G) → now ≤ to → held to s ≤ held now s + (to - now)
  held-later now to s h = ground arith

  held-bucket : (now : ℕ) (s : State V G) → held now s ≤ bucket
  held-bucket now s = ground arith

  sends-le :
      (me from to : ℕ) (es : List (ℕ × Event V G)) (s : State V G)
      → Within from to es
      → token * length (sends q me es s) ≤ held from s + (to - from)
  unfolding sends
  sends-le me from to [] s w = omega arith
  sends-le me from to ((now, e) ∷ es) s w = omega (
    arith,
    length-sent_first (step q me now e s).0 (sends q me es (step q me now e s).1),
    sends-le me now to es (step q me now e s).1 w.1,
    step-tokens me now e s,
    held-later from now s w.0,
    Within-le now to es w.1,
    w.0,
  )

  -- In any minute a side sends at most 106 frames, and each frame of operations holds at most 512 of
  -- them and at most 16264 bytes, whatever is edited and received meanwhile and whenever it is asked to
  -- send, if the link does not come up anew and the clock does not go back.
  pub sends-bounds :
      (me from : ℕ) (es : List (ℕ × Event V G)) (s : State V G)
      → Within from (from + 60000) es
      → (length (sends q me es s) ≤ 106) × All (Fits q.bytes) (sends q me es s)
  sends-bounds me from es s w = (
    omega (arith, sends-le me from (from + 60000) es s w, held-bucket from s),
    sends-Fits q me es s,
  )
