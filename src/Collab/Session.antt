-- ===== src/Collab/Session.antt =====
-- Editing together: one side of a session (apps/duell-web/src/collab.js: KINDS, MAX_IN_PER_MIN, BUCKET,
-- REFILL_PER_S, FLUSH_MS, DIGEST_MS, FULL_MIN_MS, GONE_MS, create, okMeta, asksFull, pick, connected,
-- disconnected, tick, receive, hasWork, peerHere).
use cads_agent_marketplace.Common.{
  Bool, List, Option, [], false, if◌then◌else◌, leb, length, list_eq, ltb, nat_beq, nat_eq, none,
  not, option_beq, some, true, ℕ, ◌&&◌, ◌*◌, ◌+◌, ◌-◌, ◌||◌, ◌∷◌,
}
use cads_agent_marketplace.Collab.Merge.{Op, Store, Text, is_some}
use cads_agent_marketplace.Collab.Outbox.{Outbox, full_ops, queue_all, take_ops}

-- `KINDS`, and any other value that a frame may bring.
pub data Kind : Type 0 where
  game photo sound card other_kind : Kind

-- The field `m` of the kind of work: it says what a sound is, and is left out of the others.
pub data Mode : Type 0 where
  no_mode beat voice other_mode : Mode

pub record Meta : Type 0 where
  pub kind : Kind
  pub mode : Mode
  pub idea : Option Text

pub record Peer : Type 0 where
  pub id : Text
  pub nick : Text
  pub emoji : Text

-- A frame that has come, as JSON.parse gives it. `unreadable` is no text, no JSON, no object, of
-- another version or type, or a list of changes that is none.
pub data Frame (V G : Type 0) : Type 0 where
  unreadable : Frame V G
  -- "hello" and "dig": the digest if it is a number, what the work is, and who sends it
  greeting : Option ℕ → Option Meta → Peer → Frame V G
  -- "ops"
  changes : Option Meta → List (Op V G) → Frame V G

-- A frame that goes out.
pub data Sent (V G : Type 0) : Type 0 where
  hello digest : ℕ → Sent V G
  ops : List (Op V G) → Sent V G

pub data Verdict : Type 0 where
  dropped partly ok : Verdict

-- The state. A token is 625 units, so that 1.6 of them in a second are one unit in a millisecond.
-- A time of -Infinity is `none`.
pub record State (V G : Type 0) : Type 0 where
  pub meta : Option Meta
  pub store : Store V G
  pub outbox : Outbox V G
  pub peer : Option Peer
  pub peer_seen : Option ℕ
  pub up : Bool
  pub tokens : ℕ
  pub refilled : ℕ
  pub last_flush : Option ℕ
  pub last_digest : Option ℕ
  pub last_full : Option ℕ
  pub arrivals : List ℕ
  pub rejected : ℕ
  pub hello_due : Bool

abbrev pub token : ℕ
token = 625

abbrev pub bucket : ℕ
bucket = 10 * token

abbrev pub max_in_per_min : ℕ
max_in_per_min = 120

abbrev pub flush_ms : ℕ
flush_ms = 250

abbrev pub digest_ms : ℕ
digest_ms = 3000

abbrev pub full_min_ms : ℕ
full_min_ms = 2000

abbrev pub gone_ms : ℕ
gone_ms = 11000

-- `now - t >= ms`, for a time that may be none yet.
abbrev pub has_passed : ℕ → ℕ → Option ℕ → Bool
has_passed now ms none = true
has_passed now ms (some t) = leb (t + ms) now

abbrev pub kind_beq : Kind → Kind → Bool
kind_beq game game = true
kind_beq photo photo = true
kind_beq sound sound = true
kind_beq card card = true
kind_beq _ _ = false

abbrev pub mode_beq : Mode → Mode → Bool
mode_beq no_mode no_mode = true
mode_beq beat beat = true
mode_beq voice voice = true
mode_beq _ _ = false

abbrev pub mode_fits : Kind → Mode → Bool
mode_fits sound beat = true
mode_fits sound voice = true
mode_fits sound _ = false
mode_fits game no_mode = true
mode_fits photo no_mode = true
mode_fits card no_mode = true
mode_fits _ _ = false

-- What `pick` leaves out: a field that is empty.
abbrev pub pick_text : Option Text → Option Text
pick_text (some []) = none
pick_text t = t

abbrev pub pick : Meta → Meta
pick m = record m { idea = pick_text m.idea }

abbrev pub same_meta : Option Meta → Meta → Bool
same_meta none m = true
same_meta (some c) m =
    kind_beq c.kind m.kind && (mode_beq c.mode m.mode && option_beq c.idea m.idea)

-- `good_idea` is the check of an idea's id, `sanitizeId` of daily.js.
module _ (good_idea : Text → Bool) where
  abbrev pub ok_idea : Option Text → Bool
  ok_idea none = true
  ok_idea (some i) = good_idea i

  -- `okMeta`
  unfoldable pub ok_meta : Option Meta → Option Meta → Bool
  ok_meta current none = false
  ok_meta current (some m) = mode_fits m.kind m.mode && (ok_idea m.idea && same_meta current m)

-- Whether no name waits, with its operation or without.
abbrev pub is_empty : List Text → Bool
is_empty [] = true
is_empty (k ∷ ks) = false

module _ {V G : Type 0} where
  -- The tokens at `now`.
  abbrev pub refill : ℕ → State V G → ℕ
  refill now s = let t = s.tokens + (now - s.refilled) in if ltb bucket t then bucket else t

  abbrev pub pay : ℕ → Option (Sent V G) × State V G → Option (Sent V G) × State V G
  pay now (none, s) = (none, s)
  pay now (some f, s) = (some f, record s { tokens = s.tokens - token; last_flush = some now })

-- `hash` is the digest of what both sides have, the number of `hash32` over the merged state, and
-- `bytes` the length of an operation as it is sent.
module _ {V G : Type 0} (hash : Store V G → ℕ) (bytes : Op V G → ℕ) where
  -- `asksFull`
  unfoldable pub asks_full : ℕ → ℕ → State V G → State V G
  unfolding queue_all full_ops
  asks_full now theirs s =
      if nat_beq theirs (hash s.store) || not (has_passed now full_min_ms s.last_full)
      then s
      else record s { last_full = some now; outbox = queue_all (full_ops s.store) s.outbox }

  -- The frame that is due, and what is left when it is made.
  unfoldable pub due : ℕ → State V G → Option (Sent V G) × State V G
  unfolding take_ops
  due now s =
      if s.hello_due
      then (some (hello (hash s.store)), record s { hello_due = false; last_digest = some now })
      else if not (is_empty s.outbox.order) && is_some s.meta
      then (let t = take_ops bytes s.outbox in (some (ops t.taken), record s { outbox = t.left }))
      else if has_passed now digest_ms s.last_digest
      then (some (digest (hash s.store)), record s { last_digest = some now })
      else (none, s)

  -- `tick`: the frame that is sent, if one is.
  unfoldable pub tick : ℕ → State V G → Option (Sent V G) × State V G
  unfolding due
  tick now s =
      let s' = record s { tokens = refill now s; refilled = now } in
      if not s.up || (ltb (refill now s) token || not (has_passed now flush_ms s.last_flush))
      then (none, s')
      else pay now (due now s')

  -- `connected`
  unfoldable pub connected : ℕ → State V G → Option (Sent V G) × State V G
  unfolding tick
  connected now s = tick now (record s {
    up = true;
    last_digest = none;
    hello_due = true;
    tokens = if ltb s.tokens (2 * token) then 2 * token else s.tokens;
  })

module _ {V G : Type 0} where
  unfoldable pub disconnected : State V G → State V G
  disconnected s = record s { up = false }

  unfoldable pub has_work : State V G → Bool
  has_work s = is_some s.meta && ltb 0 (length s.store.fields)

  unfoldable pub peer_here : ℕ → State V G → Bool
  peer_here now s = is_some s.peer && (s.up && not (has_passed now gone_ms s.peer_seen))
