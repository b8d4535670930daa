-- ===== src/Call/Loss.antt =====
-- Calls: the connection is lost and built up again
-- (apps/call-core/src/call-core.js: onPcState, watchMedia, renegotiated, onLinkLost, scheduleRestart,
-- networkChanged).
use cads_agent_marketplace.Common.{
  Bool, List, Option, [], false, if◌then◌else◌, list_eq, ltb, nat_eq, none, some, suc, true, zero,
  ℕ, ◌&&◌, ◌*◌, ◌-◌, ◌==◌, ◌∷◌,
}
use cads_agent_marketplace.Call.Message.{connection_lost, restart_asked}
use cads_agent_marketplace.Call.Session.{
  Connection, Peer, Role, Session, Signaling, State, ask_restart, callee, caller, connect_timer,
  connected, connecting, finish_with, grace_timer, is_connected, is_disconnected, is_failed,
  link_lost_callback, other_connection, reconnecting, restart_again, restart_due, restart_task,
  restart_timer, stable, window_timer,
}
use cads_agent_marketplace.Call.Timers.{
  after, clear, enqueue, every, has_timer, is_over, mark_connected, say, set_state,
}

-- `b[Math.min(this.restartAttempt, b.length - 1)]`; an empty list of delays gives no delay.
abbrev pub delay_at : List ℕ → ℕ → ℕ
delay_at [] n = 0
delay_at (b ∷ []) n = b
delay_at (b ∷ c ∷ bs) zero = b
delay_at (b ∷ c ∷ bs) (suc n) = delay_at (c ∷ bs) n

abbrev pub backoff : Session → ℕ
backoff s = delay_at s.timing.restart_backoff s.restart_attempt

-- `scheduleRestart`, and the two timeouts that it sets one after the other.
abbrev pub schedule_restart : Session → Session
schedule_restart s = after restart_timer (backoff s) restart_due s

abbrev pub longer : ℕ → ℕ → ℕ
longer a b = if ltb a b then b else a

abbrev pub restart_now : Session → Session
restart_now s =
    let t =
      enqueue restart_task
        (record (clear restart_timer s) { restart_attempt = suc s.restart_attempt }) in
    after restart_timer (longer (2 * t.timing.signal_retry) (backoff t)) restart_again t

abbrev pub restart_later : Session → Session
restart_later s = schedule_restart (clear restart_timer s)

-- `this.answeredEpoch > this.epochAtLoss`, where -1 stands for no answer.
abbrev pub answered_since : Option ℕ → ℕ → Bool
answered_since none n = false
answered_since (some a) n = ltb n a

abbrev pub is_reconnecting : State → Bool
is_reconnecting reconnecting = true
is_reconnecting _ = false

-- The call was not being built up again before.
abbrev pub begin_reconnect : ℕ → Session → Session
begin_reconnect now s =
    let t = set_state reconnecting (clear connect_timer s) in
    after window_timer t.timing.reconnect_window (finish_with connection_lost true)
      (record t { reconnect_started = some now; epoch_at_loss = t.epoch })

abbrev pub reconnect : ℕ → Session → Session
reconnect now s = if is_reconnecting s.state then s else begin_reconnect now s

abbrev pub ask_again : Session → Session
ask_again s = say (restart_asked s.epoch) s

-- The callee asks for a restart, and the caller makes one.
abbrev pub restart_as : Role → Bool → Session → Session
restart_as callee immediate s =
    if answered_since s.answered s.epoch_at_loss
    then s
    else every restart_timer s.timing.signal_retry ask_restart (ask_again s)
restart_as caller immediate s = if immediate then schedule_restart s else s

abbrev pub unless_restarting : Bool → Session → Session
unless_restarting immediate s =
    if has_timer restart_timer s.timers then s else restart_as s.role immediate s

abbrev pub lost_with : Option Peer → ℕ → Bool → Session → Session
lost_with none now immediate s = s
lost_with (some pc) now immediate s = unless_restarting immediate (reconnect now s)

-- `onLinkLost`; the reason is only logged.
abbrev pub link_lost : ℕ → Bool → Session → Session
link_lost now immediate s = if is_over s then s else lost_with s.pc now immediate s

abbrev pub is_connecting : State → Bool
is_connecting connecting = true
is_connecting _ = false

-- `onPcState`, with the state that the browser reports.
abbrev pub peer_changed : Connection → ℕ → Session → Session
peer_changed is_connected now s =
    let t = clear grace_timer (clear connect_timer s) in
    if is_connecting t.state then mark_connected now t else t
peer_changed is_failed now s = link_lost now true s
peer_changed is_disconnected now s =
    after grace_timer s.timing.disconnect_grace link_lost_callback s
peer_changed other_connection now s = s

-- `renegotiated`
abbrev pub is_stable : Signaling → Bool
is_stable stable = true
is_stable _ = false

abbrev pub is_up : Connection → Bool
is_up is_connected = true
is_up _ = false

abbrev pub role_settled : Role → Option ℕ → ℕ → Bool
role_settled caller answered epoch = true
role_settled callee none epoch = false
role_settled callee (some a) epoch = a == epoch

abbrev pub renegotiated_on : Option Peer → Session → Bool
renegotiated_on none s = false
renegotiated_on (some pc) s =
    is_up pc.seen.connection
    && (ltb s.epoch_at_loss s.epoch
        && (is_stable pc.seen.signaling && role_settled s.role s.answered s.epoch))

abbrev pub renegotiated : Session → Bool
renegotiated s = renegotiated_on s.pc s

abbrev pub is_connected_state : State → Bool
is_connected_state connected = true
is_connected_state _ = false

-- `watchMedia` from the point where the sample has come: `packets` have arrived so far.
abbrev pub media_moved : ℕ → Session → Session
media_moved now s =
    let t = record s { last_packets_at = now } in
    if is_reconnecting t.state && renegotiated t
    then mark_connected now (record t { reconnects = suc t.reconnects })
    else t

abbrev pub media_still : ℕ → Session → Session
media_still now s =
    if is_connected_state s.state && ltb s.timing.media_stall (now - s.last_packets_at)
    then link_lost now true s
    else s

abbrev pub sampled : ℕ → ℕ → Session → Session
sampled packets now s =
    let t = record s { last_packets = packets } in
    if ltb s.last_packets packets then media_moved now t else media_still now t

-- `watchMedia` up to the point where it waits for the sample.
abbrev pub watch_from : Option Peer → Session → Session
watch_from none s = s
watch_from (some pc) s = record s { samples = suc s.samples }

abbrev pub watch : Session → Session
watch s = if is_over s then s else watch_from s.pc s

-- `networkChanged`
abbrev pub network_lost : ℕ → Session → Session
network_lost now s = link_lost now true (record s { last_offer_at = 0 })

abbrev pub network_in : State → ℕ → Session → Session
network_in connected now s = network_lost now s
network_in reconnecting now s = network_lost now s
network_in _ now s = s

abbrev pub network_changed : ℕ → Session → Session
network_changed now s = network_in s.state now s
