-- ===== src/Collab/Frames.antt =====
-- Editing together: how long a frame is (apps/duell-web/src/collab.js: takeOps, tick).
use cads_agent_marketplace.Common.{
  All, Bool, List, Option, Option-cases, [], arith, false, if◌then◌else◌, inl, inr, length, list_eq,
  ltb, nat_eq, none, not, some, true, ℕ, ◌&&◌, ◌+◌, ◌-◌, ◌||◌, ◌∷◌, ◌≤◌,
}
use cads_agent_marketplace.Collab.Merge.{Op, Store, Text, del, get, is_some}
use cads_agent_marketplace.Collab.Outbox.{max_frame, max_ops, take_from, take_ops}
use cads_agent_marketplace.Collab.Receive.{
  Event, Parts, loses, places, receives, removes, sends, sent_first, step, ticks, writes,
}
use cads_agent_marketplace.Collab.Session.{
  Sent, State, digest, digest_ms, due, flush_ms, has_passed, hello, is_empty, ops, pay, refill,
  tick, token,
}

module _ {V G : Type 0} (bytes : Op V G → ℕ) where
  -- The bytes of operations as they are sent, with the comma that follows each.
  abbrev pub sent_bytes : List (Op V G) → ℕ
  sent_bytes [] = 0
  sent_bytes (o ∷ os) = bytes o + 1 + sent_bytes os

  -- A frame of operations keeps the bounds of a frame and of its number of operations.
  abbrev pub Fits : Sent V G → Type 0
  Fits (hello h) = Unit {0}
  Fits (digest h) = Unit {0}
  Fits (ops os) = (length os ≤ max_ops) × (80 + sent_bytes os ≤ max_frame - 120)

  take_from-bounds :
      (n size : ℕ) (ks : List Text) (os : List (Text × Op V G))
      → n ≤ max_ops
      → size ≤ max_frame - 120
      → (n + length (take_from bytes n size ks os).taken ≤ max_ops)
        × (size + sent_bytes (take_from bytes n size ks os).taken ≤ max_frame - 120)
  unfolding take_from
  take_from-bounds n size [] os h k = omega arith
  take_from-bounds n size (j ∷ ks) os h k = elim (Option-cases (get os j)) [
    | inl gone ↦ ground (arith, take_from-bounds n size ks (del os j))
    | inr (op, found) ↦
        ground (arith, take_from-bounds (n + 1) (size + (bytes op + 1)) ks (del os j))
  ]

  -- The frame that is sent, if there is one, keeps the bounds.
  abbrev FitsIf : Option (Sent V G) → Type 0
  FitsIf none = Unit {0}
  FitsIf (some f) = Fits f

  FitsIf-if :
      (b : Bool) (x y : Option (Sent V G) × State V G)
      → FitsIf x.0
      → FitsIf y.0
      → FitsIf (if b then x else y).0
  FitsIf-if true x y h k = h
  FitsIf-if false x y h k = k

  FitsIf-pay : (now : ℕ) (r : Option (Sent V G) × State V G) → FitsIf r.0 → FitsIf (pay now r).0
  FitsIf-pay now (none, s) h = tt
  FitsIf-pay now (some f, s) h = h

  due-FitsIf : (hash : Store V G → ℕ) (now : ℕ) (s : State V G) → FitsIf (due hash bytes now s).0
  unfolding due take_ops
  due-FitsIf hash now s = FitsIf-if s.hello_due _ _ tt (
      FitsIf-if (not (is_empty s.outbox.order) && is_some s.meta) _ _
        (omega (arith, take_from-bounds 0 80 s.outbox.order s.outbox.ops))
        (FitsIf-if (has_passed now digest_ms s.last_digest) _ _ tt tt))

  tick-FitsIf : (hash : Store V G → ℕ) (now : ℕ) (s : State V G) → FitsIf (tick hash bytes now s).0
  unfolding tick
  tick-FitsIf hash now s =
      FitsIf-if
        (not s.up || (ltb (refill now s) token || not (has_passed now flush_ms s.last_flush))) _ _
        tt
        (FitsIf-pay now _
          (due-FitsIf hash now (record s { tokens = refill now s; refilled = now })))

module _ {V G : Type 0} (q : Parts V G) where
  step-FitsIf : (me now : ℕ) (e : Event V G) (s : State V G) → FitsIf q.bytes (step q me now e s).0
  unfolding step
  step-FitsIf me now (writes k v) s = tt
  step-FitsIf me now (places id g) s = tt
  step-FitsIf me now (removes id) s = tt
  step-FitsIf me now (receives n f) s = tt
  step-FitsIf me now loses s = tt
  step-FitsIf me now ticks s = tick-FitsIf q.bytes q.hash now s

  All-sent_first :
      (o : Option (Sent V G)) (fs : List (Sent V G))
      → FitsIf q.bytes o
      → All (Fits q.bytes) fs
      → All (Fits q.bytes) (sent_first o fs)
  All-sent_first none fs h k = k
  All-sent_first (some f) fs h k = (h, k)

  pub sends-Fits :
      (me : ℕ) (es : List (ℕ × Event V G)) (s : State V G) → All (Fits q.bytes) (sends q me es s)
  unfolding sends
  sends-Fits me [] s = tt
  sends-Fits me ((now, e) ∷ es) s =
      All-sent_first (step q me now e s).0 _ (step-FitsIf me now e s)
        (sends-Fits me es (step q me now e s).1)
