-- ===== src/Collab/Outbox.antt =====
-- Editing together: what waits to be sent (apps/duell-web/src/collab.js: MAX_OPS, MAX_FRAME, queue,
-- tick of the clock, setLocal, putSticker, kill, fullOps, takeOps).
use cads_agent_marketplace.Common.{
  List, [], false, if◌then◌else◌, list_eq, ltb, map, nat_eq, none, some, true, ℕ, ◌++◌, ◌+◌, ◌-◌,
  ◌∷◌,
}
use cads_agent_marketplace.Collab.Merge.{
  Entry, Op, Store, Text, dead_op, del, field_op, get, is_some, max_clock, put, sticker_op,
}

abbrev pub max_ops : ℕ
max_ops = 512

abbrev pub max_frame : ℕ
max_frame = 16384

-- The operations that wait, by their names, and the order in which they go out. A name whose
-- operation was withdrawn stays in the order and is passed over.
pub record Outbox (V G : Type 0) : Type 0 where
  pub ops : List (Text × Op V G)
  pub order : List Text

-- What `takeOps` takes, and what it leaves.
pub record Taken (V G : Type 0) : Type 0 where
  pub taken : List (Op V G)
  pub used : ℕ
  pub left : Outbox V G

-- The names under which operations wait.
abbrev pub field_name : Text → Text
field_name k = b'f' ∷ k

abbrev pub sticker_name : Text → Text
sticker_name k = b's' ∷ k

abbrev pub dead_name : Text → Text
dead_name k = b'd' ∷ k

-- `tick()`: the clock for the next edit.
abbrev pub next_clock : ℕ → ℕ
next_clock c = if ltb c max_clock then c + 1 else c

module _ {V G : Type 0} where
  -- `queue`
  unfoldable pub queue : Text → Op V G → Outbox V G → Outbox V G
  queue k op b = record {
    ops = put b.ops k op;
    order = if is_some (get b.ops k) then b.order else b.order ++ k ∷ [];
  }

  unfoldable pub queue_all : List (Text × Op V G) → Outbox V G → Outbox V G
  queue_all [] b = b
  queue_all ((k, op) ∷ es) b = queue_all es (queue k op b)

  -- `setLocal`, `putSticker` and `kill`, by the actor `me`.
  unfoldable pub set_local : ℕ → Text → V → Store V G × Outbox V G → Store V G × Outbox V G
  unfolding queue
  set_local me k v (s, b) =
      let l = next_clock s.clock in
      (
        record s { clock = l; fields = put s.fields k (record { value = v; l = l; a = me }) },
        queue (field_name k) (field_op k v l me) b,
      )

  unfoldable pub place_sticker : ℕ → Text → G → Store V G × Outbox V G → Store V G × Outbox V G
  unfolding queue
  place_sticker me id g (s, b) =
      let l = next_clock s.clock in
      (
        record s { clock = l; stickers = put s.stickers id (record { value = g; l = l; a = me }) },
        queue (sticker_name id) (sticker_op id g l me) b,
      )

  unfoldable pub kill : Text → Store V G × Outbox V G → Store V G × Outbox V G
  unfolding queue
  kill id (s, b) =
      let l = next_clock s.clock in
      (
        record s { clock = l; stickers = del s.stickers id; dead = put s.dead id l },
        queue (dead_name id) (dead_op id l) (record b { ops = del b.ops (sticker_name id) }),
      )

  -- `fullOps`
  unfoldable pub full_ops : Store V G → List (Text × Op V G)
  full_ops s =
      map (λ (p : Text × Entry V). (field_name p.0, field_op p.0 p.1.value p.1.l p.1.a)) s.fields
      ++ (map (λ (p : Text × Entry G). (sticker_name p.0, sticker_op p.0 p.1.value p.1.l p.1.a))
            s.stickers
          ++ map (λ (p : Text × ℕ). (dead_name p.0, dead_op p.0 p.1)) s.dead)

-- `bytes` is the length of an operation as it is sent, which the platform tells.
module _ {V G : Type 0} (bytes : Op V G → ℕ) where
  -- `takeOps`, when `n` operations of `size` bytes in all are taken.
  unfoldable pub take_from : ℕ → ℕ → List Text → List (Text × Op V G) → Taken V G
  take_from n size [] ops = record {
    taken = [];
    used = size;
    left = record { ops = ops; order = [] };
  }
  take_from n size (k ∷ ks) ops = elim (ltb n max_ops) [
    | false ↦ record { taken = []; used = size; left = record { ops = ops; order = k ∷ ks } }
    | true ↦ elim (get ops k) [
      | none ↦ take_from n size ks (del ops k)
      | some op ↦ elim (ltb (max_frame - 120) (size + (bytes op + 1))) [
        | true ↦ record { taken = []; used = size; left = record { ops = ops; order = k ∷ ks } }
        | false ↦
            let rest = take_from (n + 1) (size + (bytes op + 1)) ks (del ops k) in
            record rest { taken = op ∷ rest.taken }
      ]
    ]
  ]

  unfoldable pub take_ops : Outbox V G → Taken V G
  unfolding take_from
  take_ops b = take_from 0 80 b.order b.ops
