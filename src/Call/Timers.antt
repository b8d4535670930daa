-- ===== src/Call/Timers.antt =====
-- Calls: the timers, the end of a call, and what the user does
-- (apps/call-core/src/call-core.js: isOver, setState, enqueue, after, every, clear, stopLocalMedia,
-- finish, dial, decline, hangup, setMuted, markConnected).
use cads_agent_marketplace.Common.{
  Bool, List, [], any, false, if◌then◌else◌, list_eq, nat_eq, none, some, true, ℕ, ◌++◌, ◌==◌, ◌∷◌,
}
use cads_agent_marketplace.Call.Message.{
  Content, Reason, bye, cancelled, decline_said, declined, hangup_reason, invite, no_answer,
}
use cads_agent_marketplace.Call.Session.{
  Callback, Session, State, Task, Timer, TimerName, caller, calling, connect_timer, connected,
  connecting, ended, finish_with, grace_timer, invite_timer, offer_timer, prepare_task,
  restart_timer, ring_timer, ringing_in, ringing_out, send_invite, stats_timer, to_accept,
  window_timer,
}

abbrev pub timer_no : TimerName → ℕ
timer_no invite_timer = 0
timer_no ring_timer = 1
timer_no offer_timer = 2
timer_no connect_timer = 3
timer_no grace_timer = 4
timer_no window_timer = 5
timer_no restart_timer = 6
timer_no stats_timer = 7

abbrev pub same_timer : TimerName → TimerName → Bool
same_timer a b = timer_no a == timer_no b

abbrev pub without : TimerName → List Timer → List Timer
without n [] = []
without n (t ∷ ts) = if same_timer n t.name then without n ts else t ∷ without n ts

-- `this.timers.has(name)`
abbrev pub has_timer : TimerName → List Timer → Bool
has_timer n ts = any (λ t. same_timer n t.name) ts

-- `clear`; the source deletes an entry of the map in the same way once its timeout has fired.
abbrev pub clear : TimerName → Session → Session
clear n s = record s { timers = without n s.timers }

abbrev pub set_timer : Bool → TimerName → ℕ → Callback → Session → Session
set_timer repeats n ms f s = record s {
  timers =
      without n s.timers
      ++ record { name = n; ms = ms; repeats = repeats; pending = true; callback = f } ∷ [];
}

abbrev pub after : TimerName → ℕ → Callback → Session → Session
after n ms f s = set_timer false n ms f s

abbrev pub every : TimerName → ℕ → Callback → Session → Session
every n ms f s = set_timer true n ms f s

-- `send` puts the message on the channel, in the order of the calls.
abbrev pub say : Content → Session → Session
say m s = record s { sent = s.sent ++ m ∷ [] }

abbrev pub is_ended : State → Bool
is_ended ended = true
is_ended _ = false

-- `isOver`
abbrev pub is_over : Session → Bool
is_over s = is_ended s.state

-- `setState`; what it tells the screen is not part of the state.
abbrev pub set_state : State → Session → Session
set_state x s = record s { state = x }

abbrev pub enqueue : Task → Session → Session
enqueue t s = record s { queue = s.queue ++ t ∷ [] }

-- `finish`, unless the call is over: the timers are cleared, the media stop, and the connection closes.
abbrev pub finish_open : Reason → Bool → Session → Session
finish_open reason notify s = record s {
  end_reason = some reason;
  sent = if notify then s.sent ++ bye reason ∷ [] else s.sent;
  timers = [];
  local_stream = false;
  pc = none;
  state = ended;
  told = s.told ++ reason ∷ [];
}

abbrev pub finish : Reason → Bool → Session → Session
finish reason notify s = if is_over s then s else finish_open reason notify s

-- `dial`
abbrev pub dial : Session → Session
dial s =
    let t = set_state calling (record s { role = caller }) in
    after ring_timer t.timing.ring_timeout (finish_with no_answer true)
      (every invite_timer t.timing.signal_retry send_invite (say (invite t.video) t))

-- `accept`: the media and the connection follow in a task.
abbrev pub accept_in : State → Session → Session
accept_in ringing_in s =
    enqueue (prepare_task to_accept) (set_state connecting (clear ring_timer s))
accept_in _ s = s

abbrev pub accept : Session → Session
accept s = accept_in s.state s

-- `decline`
abbrev pub decline_in : State → Session → Session
decline_in ringing_in s = finish declined false (say decline_said s)
decline_in _ s = s

abbrev pub decline : Session → Session
decline s = decline_in s.state s

-- `hangup`
abbrev pub hangup_reason_in : State → Reason
hangup_reason_in calling = cancelled
hangup_reason_in ringing_out = cancelled
hangup_reason_in _ = hangup_reason

abbrev pub hangup : Session → Session
hangup s = if is_over s then s else finish (hangup_reason_in s.state) true s

-- `setMuted`
abbrev pub set_muted : Bool → Session → Session
set_muted b s = record s { muted = b }

-- `markConnected`
abbrev pub mark_connected : ℕ → Session → Session
mark_connected now s =
    set_state connected (record (clear offer_timer (clear window_timer (clear restart_timer s))) {
      restart_attempt = 0;
      reconnect_started = none;
      last_packets_at = now;
    })
