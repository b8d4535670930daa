-- ===== src/Call/Order.antt =====
-- Calls: the order of the states of a call (apps/call-core/src/call-core.js: State, setState, finish,
-- onLinkLost, markConnected, and the handlers that call them).
-- How far a call has come: calling, ringing, being set up, talking (or building the connection up
-- again), over.
use cads_agent_marketplace.Common.{
  &&-left, Bool, Option, arith, false, if◌then◌else◌, ltb, none, refl, some, suc, true, ℕ, ◌&&◌,
  ◌-◌, ◌≡◌, ◌≤◌,
}
use cads_agent_marketplace.Call.Loss.{
  answered_since, begin_reconnect, is_connected_state, is_connecting, is_reconnecting, link_lost,
  lost_with, media_moved, peer_changed, reconnect, renegotiated, restart_as, sampled,
  unless_restarting,
}
use cads_agent_marketplace.Call.Message.{Reason}
use cads_agent_marketplace.Call.Session.{
  Connection, Peer, Role, Session, State, callee, caller, calling, connected, connecting, ended,
  idle, is_connected, is_disconnected, is_failed, other_connection, reconnecting, restart_timer,
  ringing_in, ringing_out,
}
use cads_agent_marketplace.Call.Timers.{
  finish, finish_open, has_timer, is_ended, is_over, mark_connected,
}

unfoldable pub rank : State → ℕ
rank idle = 0
rank calling = 1
rank ringing_out = 2
rank ringing_in = 2
rank connecting = 3
rank connected = 4
rank reconnecting = 4
rank ended = 5

abbrev pub Rises : Session → Session → Type 0
Rises s t = rank s.state ≤ rank t.state

abbrev pub Climbs : (Session → Session) → Type 0
Climbs f = (s : Session) → Rises s (f s)

pub stays : (s : Session) → Rises s s
stays s = omega arith

pub Rises-next : (f : Session → Session) → Climbs f → (s t : Session) → Rises s t → Rises s (f t)
Rises-next f climbs s t h = let k : Rises t (f t) = climbs t in omega arith

pub Rises-if : (b : Bool) (s t u : Session) → Rises s t → Rises s u → Rises s (if b then t else u)
Rises-if true s t u h k = h
Rises-if false s t u h k = k

pub Rises-when :
    (b : Bool) (s t u : Session)
    → (b ≡ true → Rises s t)
    → (b ≡ false → Rises s u)
    → Rises s (if b then t else u)
Rises-when true s t u h k = h refl
Rises-when false s t u h k = k refl

rank-top : (x : State) → rank x ≤ 5
unfolding rank
rank-top idle = omega arith
rank-top calling = omega arith
rank-top ringing_out = omega arith
rank-top ringing_in = omega arith
rank-top connecting = omega arith
rank-top connected = omega arith
rank-top reconnecting = omega arith
rank-top ended = omega arith

pub rank-alive : (x : State) → is_ended x ≡ false → rank x ≤ 4
unfolding rank
rank-alive idle h = omega arith
rank-alive calling h = omega arith
rank-alive ringing_out h = omega arith
rank-alive ringing_in h = omega arith
rank-alive connecting h = omega arith
rank-alive connected h = omega arith
rank-alive reconnecting h = omega arith
rank-alive ended h = cc

connecting-alive : (x : State) → is_connecting x ≡ true → rank x ≤ 4
unfolding rank
connecting-alive connecting h = omega arith
connecting-alive idle h = cc
connecting-alive calling h = cc
connecting-alive ringing_out h = cc
connecting-alive ringing_in h = cc
connecting-alive connected h = cc
connecting-alive reconnecting h = cc
connecting-alive ended h = cc

reconnecting-alive : (x : State) → is_reconnecting x ≡ true → rank x ≤ 4
unfolding rank
reconnecting-alive reconnecting h = omega arith
reconnecting-alive idle h = cc
reconnecting-alive calling h = cc
reconnecting-alive ringing_out h = cc
reconnecting-alive ringing_in h = cc
reconnecting-alive connected h = cc
reconnecting-alive connecting h = cc
reconnecting-alive ended h = cc

pub finish-Climbs : (r : Reason) (n : Bool) → Climbs (finish r n)
unfolding rank
finish-Climbs r n s = Rises-if (is_over s) s s (finish_open r n s) (stays s) (rank-top s.state)

pub restart_as-Climbs : (r : Role) (immediate : Bool) → Climbs (restart_as r immediate)
restart_as-Climbs callee immediate s =
    Rises-if (answered_since s.answered s.epoch_at_loss) s s _ (stays s) (stays s)
restart_as-Climbs caller true s = stays s
restart_as-Climbs caller false s = stays s

pub unless_restarting-Climbs : (immediate : Bool) → Climbs (unless_restarting immediate)
unless_restarting-Climbs immediate s =
    Rises-if (has_timer restart_timer s.timers) s s _ (stays s)
      (restart_as-Climbs s.role immediate s)

pub reconnect-Rises : (now : ℕ) (s : Session) → is_over s ≡ false → Rises s (reconnect now s)
unfolding rank
reconnect-Rises now s h =
    Rises-if (is_reconnecting s.state) s s (begin_reconnect now s) (stays s) (rank-alive s.state h)

pub lost_with-Rises :
    (o : Option Peer) (now : ℕ) (immediate : Bool) (s : Session)
    → is_over s ≡ false
    → Rises s (lost_with o now immediate s)
lost_with-Rises none now immediate s h = stays s
lost_with-Rises (some pc) now immediate s h =
    Rises-next (unless_restarting immediate) (unless_restarting-Climbs immediate) s
      (reconnect now s) (reconnect-Rises now s h)

pub link_lost-Climbs : (now : ℕ) (immediate : Bool) → Climbs (link_lost now immediate)
link_lost-Climbs now immediate s =
    Rises-when (is_over s) s s (lost_with s.pc now immediate s) (λ h. stays s)
      (lost_with-Rises s.pc now immediate s)

pub peer_changed-Climbs : (c : Connection) (now : ℕ) → Climbs (peer_changed c now)
unfolding rank
peer_changed-Climbs is_connected now s =
    Rises-when (is_connecting s.state) s _ _ (connecting-alive s.state) (λ h. stays s)
peer_changed-Climbs is_failed now s = link_lost-Climbs now true s
peer_changed-Climbs is_disconnected now s = stays s
peer_changed-Climbs other_connection now s = stays s

pub media_moved-Climbs : (now : ℕ) → Climbs (media_moved now)
unfolding rank
media_moved-Climbs now s =
    let t : Session = record s { last_packets_at = now } in
    Rises-when (is_reconnecting s.state && renegotiated t) s
      (mark_connected now (record t { reconnects = suc t.reconnects })) t
      (λ h. reconnecting-alive s.state (&&-left (is_reconnecting s.state) (renegotiated t) h))
      (λ h. stays s)

pub sampled-Climbs : (packets now : ℕ) → Climbs (sampled packets now)
sampled-Climbs packets now s =
    Rises-if (ltb s.last_packets packets) s _ _
      (media_moved-Climbs now (record s { last_packets = packets }))
      (still-Rises
        (is_connected_state s.state && ltb s.timing.media_stall (now - s.last_packets_at)))
  where
    still-Rises :
        (b : Bool)
        → Rises s (
            if b
            then link_lost now true (record s { last_packets = packets })
            else record s { last_packets = packets })
    still-Rises true = link_lost-Climbs now true (record s { last_packets = packets })
    still-Rises false = stays s
