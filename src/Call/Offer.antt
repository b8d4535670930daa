-- ===== src/Call/Offer.antt =====
-- Calls: the set-up of the connection, the offers of the caller, and the restarts
-- (apps/call-core/src/call-core.js: prepareConnection, fetchIceServers, pcConfig, sendOffer,
-- peerIceServers, onAccepted, restartIce).
--
-- A task stops where it awaits a promise; `running` says where. What a promise of the module itself
-- gives is gone on with at once.
use cads_agent_marketplace.Common.{
  Bool, List, Option, [], any, false, if◌then◌else◌, leb, list_eq, ltb, nat_eq, none, some, suc,
  true, ℕ, ◌&&◌, ◌-◌, ◌==◌, ◌||◌, ◌∷◌,
}
use cads_agent_marketplace.Call.Message.{Server, Text, accepted, colon, media_denied, offer}
use cads_agent_marketplace.Call.Session.{
  Config, Description, Peer, Purpose, Role, Round, Seen, Session, Signaling, State, Wait, an_answer,
  an_offer, callee, caller, calling, connect_timer, connecting, first_round, for_offer,
  for_peer_servers, for_restart_servers, for_rollback, for_servers, have_local_offer, invite_timer,
  link_lost_callback, offer_timer, other_connection, prepare_task, restart_round, ring_timer,
  ringing_out, send_offer, stable, stats_timer, to_accept, to_offer, watch_media,
}
use cads_agent_marketplace.Call.Timers.{
  after, clear, enqueue, every, finish, is_over, say, set_state,
}

abbrev pub wait_for : Wait → Session → Session
wait_for w s = record s { running = some w }

-- The task is done, or an exception ended it; `enqueue` logs it and goes on with the next task.
abbrev pub task_done : Session → Session
task_done s = record s { running = none }

-- `onAccepted`: the other side has accepted, and the media and the offer follow in a task.
abbrev pub accepted_open : Bool → Session → Session
accepted_open video s =
    let t = clear ring_timer (clear invite_timer s) in
    enqueue (prepare_task to_offer) (set_state connecting (record t { video = t.video && video }))

abbrev pub accepted_in : State → Bool → Session → Session
accepted_in calling video s = accepted_open video s
accepted_in ringing_out video s = accepted_open video s
accepted_in _ video s = s

abbrev pub accepted_as : Role → Bool → Session → Session
accepted_as caller video s = accepted_in s.state video s
accepted_as callee video s = s

abbrev pub on_accepted : Bool → Session → Session
on_accepted video s = accepted_as s.role video s

-- `/^turns?:/.test(u)`
abbrev pub is_turn_url : Text → Bool
is_turn_url (a ∷ b ∷ c ∷ d ∷ e ∷ cs) =
    (a == b't' && (b == b'u' && (c == b'r' && d == b'n')))
    && (e == colon || (e == b's' && starts_colon cs))
  where
    starts_colon : Text → Bool
    starts_colon [] = false
    starts_colon (f ∷ fs) = f == colon
is_turn_url _ = false

abbrev pub has_turn : List Server → Bool
has_turn servers = any (λ v. any is_turn_url v.urls) servers

-- `fetchIceServers`: no servers where the request fails or takes too long.
abbrev pub fetched_servers : Option (List Server) → List Server
fetched_servers none = []
fetched_servers (some servers) = servers

abbrev pub fetched : Option (List Server) → Session → Session
fetched o s = record s { turn_available = some (has_turn (fetched_servers o)) }

-- `pcConfig`
abbrev pub pc_config : List Server → Session → Config
pc_config servers s = record { servers = servers; relay = s.relay_only }

abbrev pub configure : List Server → Session → Peer → Session
configure servers s pc = record s { pc = some (record pc { config = pc_config servers s }) }

-- What the browser reports of a connection that is still there.
abbrev pub see : Seen → Session → Session
see seen s = elim s.pc [ none ↦ s | some pc ↦ record s { pc = some (record pc { seen = seen }) } ]

abbrev pub new_seen : Seen
new_seen = record {
  signaling = stable;
  connection = other_connection;
  local = none;
  has_remote = false;
}

-- `prepareConnection`, from the reply to the request for the media on.
abbrev pub late_media : Purpose → Session → Session
late_media why s =
    if is_over s
    then task_done (record s { local_stream = false })
    else wait_for (for_servers why) s

abbrev pub got_media : Purpose → Session → Session
got_media why s = late_media why (record s { local_stream = true })

abbrev pub no_media : Text → Session → Session
no_media error s = task_done (finish media_denied true (record s { error = some error }))

abbrev pub create_peer : List Server → Session → Session
create_peer servers s =
    every stats_timer s.timing.stats_interval watch_media
      (record s { pc = some (record { config = pc_config servers s; seen = new_seen }) })

-- The timer of the first set-up.
abbrev pub watch_setup : Session → Session
watch_setup s = after connect_timer s.timing.connect_timeout link_lost_callback s

-- `sendOffer` has returned.
abbrev pub offer_returned : Round → Session → Session
offer_returned first_round s = task_done (watch_setup s)
offer_returned restart_round s = task_done s

abbrev pub next_epoch : Round → Session → Session
next_epoch first_round s = s
next_epoch restart_round s = record s { epoch = suc s.epoch }

-- `peerIceServers`: only some callers give the other side servers.
abbrev pub offer_epoch : Round → ℕ → Session → Session
offer_epoch r now s =
    let t = record (next_epoch r s) { last_offer_at = now; held = [] } in
    if t.gives_servers then wait_for (for_peer_servers r) t else wait_for (for_offer r none) t

abbrev pub offer_from : Signaling → Round → ℕ → Session → Session
offer_from have_local_offer r now s = wait_for (for_rollback r) s
offer_from _ r now s = offer_epoch r now s

abbrev pub offer_on : Option Peer → Round → ℕ → Session → Session
offer_on none r now s = offer_returned r s
offer_on (some pc) r now s = offer_from pc.seen.signaling r now s

-- `sendOffer`
abbrev pub start_offer : Round → ℕ → Session → Session
start_offer r now s = if is_over s then offer_returned r s else offer_on s.pc r now s

-- The servers for the other side have come. Only the end of a call takes the connection away, so
-- `this.pc !== pc` holds where there is none.
abbrev pub got_peer_servers : Round → Option (List Server) → Session → Session
got_peer_servers r servers s =
    if is_over s
    then offer_returned r s
    else elim s.pc [ none ↦ offer_returned r s | some pc ↦ wait_for (for_offer r servers) s ]

-- The function `send` of `sendOffer`, which is also called again and again.
abbrev pub offer_of : Option Description → ℕ → Option (List Server) → Session → Session
offer_of none epoch servers s = s
offer_of (some d) epoch servers s = elim d.kind [
  | an_offer ↦ if s.epoch == epoch then say (offer epoch d.sdp servers) s else s
  | an_answer ↦ s
]

abbrev pub say_offer_on : Option Peer → ℕ → Option (List Server) → Session → Session
say_offer_on none epoch servers s = s
say_offer_on (some pc) epoch servers s = offer_of pc.seen.local epoch servers s

abbrev pub say_offer : ℕ → Option (List Server) → Session → Session
say_offer epoch servers s = say_offer_on s.pc epoch servers s

abbrev pub offer_set : Round → Option (List Server) → Session → Session
offer_set r servers s = offer_returned r (
    every offer_timer s.timing.signal_retry (send_offer s.epoch servers)
      (say_offer s.epoch servers s))

-- `prepareConnection` has returned: the callee accepts, and the caller makes its offer.
abbrev pub prepared : Purpose → ℕ → Session → Session
prepared to_accept now s = task_done (watch_setup (say (accepted s.video) s))
prepared to_offer now s = start_offer first_round now s

abbrev pub got_servers : Purpose → Option (List Server) → ℕ → Session → Session
got_servers why o now s =
    let t = fetched o s in
    if is_over t then task_done t else prepared why now (create_peer (fetched_servers o) t)

-- `restartIce`
abbrev pub waits_for_answer : Signaling → ℕ → Session → Bool
waits_for_answer have_local_offer now s = ltb (now - s.last_offer_at) s.timing.min_epoch_gap
waits_for_answer _ now s = false

abbrev pub restart_on : Option Peer → ℕ → Session → Session
restart_on none now s = task_done s
restart_on (some pc) now s =
    if waits_for_answer pc.seen.signaling now s
    then task_done s
    else wait_for for_restart_servers
        (record s { relay_only = if leb 2 s.restart_attempt then true else s.relay_only })

abbrev pub start_restart : ℕ → Session → Session
start_restart now s = if is_over s then task_done s else restart_on s.pc now s

-- A connection that was closed meanwhile cannot be configured, and the task ends.
abbrev pub restart_with : Option Peer → List Server → ℕ → Session → Session
restart_with none servers now s = task_done s
restart_with (some pc) servers now s = start_offer restart_round now (configure servers s pc)

abbrev pub got_restart_servers : Option (List Server) → ℕ → Session → Session
got_restart_servers o now s = let t = fetched o s in restart_with t.pc (fetched_servers o) now t
