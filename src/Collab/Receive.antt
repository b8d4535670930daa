-- ===== src/Collab/Receive.antt =====
-- Editing together: a frame that comes in, and what happens at one side one after another
-- (apps/duell-web/src/collab.js: receive, setLocal, putSticker, kill, connected, tick).
use cads_agent_marketplace.Common.{
  Bool, List, Option, [], false, filter, if◌then◌else◌, leb, length, list_beq, list_eq, ltb, nat_eq,
  none, not, some, true, ℕ, ◌&&◌, ◌++◌, ◌+◌, ◌==◌, ◌||◌, ◌∷◌,
}
use cads_agent_marketplace.Collab.Merge.{Op, Store, Text, apply, is_actor, is_some}
use cads_agent_marketplace.Collab.Outbox.{
  Outbox, kill, max_frame, max_ops, place_sticker, set_local,
}
use cads_agent_marketplace.Collab.Session.{
  Frame, Meta, Peer, Sent, State, Verdict, asks_full, changes, disconnected, dropped, greeting,
  is_empty, max_in_per_min, ok, ok_meta, partly, pick, tick, unreadable,
}

abbrev pub same_text : Text → Text → Bool
same_text s t = list_beq s t

-- `o.onPeer` is called when another peer, or another name of it, shows up.
abbrev pub is_fresh : Option Peer → Peer → Bool
is_fresh none p = true
is_fresh (some q) p = not (same_text q.nick p.nick && same_text q.emoji p.emoji)

-- What an answer to a frame leaves: the verdict, and whether the page hears of a new peer.
pub record Answer (V G : Type 0) : Type 0 where
  pub verdict : Verdict
  pub told : Bool
  pub state : State V G

abbrev pub recent : ℕ → List ℕ → List ℕ
recent now ts = filter (λ t. ltb now (t + 60000)) ts

-- The kind of work is set by the first frame that names one.
abbrev pub start_meta : Option Meta → Option Meta → Option Meta
start_meta (some c) d = some c
start_meta none none = none
start_meta none (some d) = some (pick d)

module _ {V G : Type 0} where
  abbrev pub drop_frame : State V G → Answer V G
  drop_frame s = record { verdict = dropped; told = false; state = s }

-- A list with what is there put in front.
abbrev pub sent_first : {A : Type 0} → Option A → List A → List A
sent_first none xs = xs
sent_first (some x) xs = x ∷ xs

-- What comes from other files and from the platform: `hash` is the digest of what both sides have,
-- `bytes` the length of an operation as it is sent, `sanitize_nick` and `sanitize_emoji` the filters
-- of core.js, `good_idea` the check of an idea's id (daily.js), `fits` which value a field of a kind
-- of work takes, and `shapes` which stickers are as the source cleans them.
pub record Parts (V G : Type 0) : Type 0 where
  pub hash : Store V G → ℕ
  pub bytes : Op V G → ℕ
  pub good_idea : Text → Bool
  pub sanitize_nick : Text → Text
  pub sanitize_emoji : Text → Text
  pub fits : Meta → Text → V → Bool
  pub shapes : G → Bool

-- What happens at one side: an edit of the page, a frame that has come, the link, or a tick.
pub data Event (V G : Type 0) : Type 0 where
  writes : Text → V → Event V G
  places : Text → G → Event V G
  removes : Text → Event V G
  receives : ℕ → Frame V G → Event V G
  loses : Event V G
  ticks : Event V G

module _ {V G : Type 0} where
  abbrev pub edit : (Store V G × Outbox V G → Store V G × Outbox V G) → State V G → State V G
  edit f s = let r = f (s.store, s.outbox) in record s { store = r.0; outbox = r.1 }

module _ {V G : Type 0} (q : Parts V G) where
  -- The operations of a frame one by one: how many are refused, and the state that is left.
  unfoldable pub apply_all : Meta → List (Op V G) → Store V G → ℕ × Store V G
  apply_all m [] s = (0, s)
  apply_all m (o ∷ os) s =
      let one = apply (q.fits m) q.shapes o s in
      let rest = apply_all m os one.1 in (if one.0 then rest.0 else rest.0 + 1, rest.1)

  abbrev pub ok_digest_meta : Option Meta → Option Meta → Bool
  ok_digest_meta current none = true
  ok_digest_meta current (some d) = ok_meta q.good_idea current (some d)

  -- What a greeting that is let through does; the full state goes out only if nothing waits.
  unfoldable pub greet : ℕ → ℕ → Option Meta → Peer → State V G → Answer V G
  unfolding asks_full
  greet now h d p s =
      let seen = record p { nick = q.sanitize_nick p.nick; emoji = q.sanitize_emoji p.emoji } in
      let s1 = record s { peer = some seen; peer_seen = some now; meta = start_meta s.meta d } in
      record {
        verdict = ok;
        told = is_fresh s.peer seen;
        state =
            if is_some s1.meta && is_empty s1.outbox.order
            then asks_full q.hash q.bytes now h s1
            else s1;
      }

  abbrev pub change_with : ℕ → List (Op V G) → Meta → State V G → Answer V G
  change_with now os m s =
      let done = apply_all m os s.store in
      record {
        verdict = if done.0 == 0 then ok else partly;
        told = false;
        state = record s {
          meta = some m;
          store = done.1;
          rejected = s.rejected + done.0;
          peer_seen = some now;
        };
      }

  abbrev pub change : ℕ → List (Op V G) → Option Meta → State V G → Answer V G
  change now os none s = drop_frame s
  change now os (some m) s = change_with now os m s

  abbrev pub handle : ℕ → Frame V G → State V G → Answer V G
  handle now unreadable s = drop_frame s
  handle now (greeting none d p) s = drop_frame s
  handle now (greeting (some h) d p) s =
      if ok_digest_meta s.meta d && is_actor p.id then greet now h d p s else drop_frame s
  handle now (changes d os) s =
      if ok_meta q.good_idea s.meta d && leb (length os) max_ops
      then change now os (start_meta s.meta d) s
      else drop_frame s

  -- `receive`: a frame of `n` characters at `now`.
  unfoldable pub receive : ℕ → ℕ → Frame V G → State V G → Answer V G
  unfolding greet apply_all ok_meta
  receive now n f s =
      let ts = recent now s.arrivals in
      if ltb max_frame n || leb max_in_per_min (length ts)
      then drop_frame (record s { arrivals = ts })
      else handle now f (record s { arrivals = ts ++ now ∷ [] })

  -- One event at `now`, for the actor `me`: the frame that is sent, if one is, and the state.
  unfoldable pub step : ℕ → ℕ → Event V G → State V G → Option (Sent V G) × State V G
  unfolding set_local place_sticker kill
  step me now (writes k v) s = (none, edit (set_local me k v) s)
  step me now (places id g) s = (none, edit (place_sticker me id g) s)
  step me now (removes id) s = (none, edit (kill id) s)
  step me now (receives n f) s = (none, (receive now n f s).state)
  step me now loses s = (none, disconnected s)
  step me now ticks s = tick q.hash q.bytes now s

  -- The frames that are sent in a run of events, each with its time.
  unfoldable pub sends : ℕ → List (ℕ × Event V G) → State V G → List (Sent V G)
  sends me [] s = []
  sends me ((now, e) ∷ es) s = let r = step me now e s in sent_first r.0 (sends me es r.1)
