-- ===== src/Call/Step.antt =====
-- Calls: what can happen to a call, one step at a time
-- (apps/call-core/src/call-core.js: receive, enqueue, the timers' callbacks, and the replies of the
-- browser and the servers).
use cads_agent_marketplace.Common.{
  Bool, List, Option, [], false, if◌then◌else◌, leb, list_eq, nat_eq, none, not, some, suc, true,
  zero, ℕ, ◌&&◌, ◌==◌, ◌||◌, ◌∷◌,
}
use cads_agent_marketplace.Call.Answer.{
  answer_set, flush, flush_from, got_offer_servers, on_answer, on_ice, on_offer,
}
use cads_agent_marketplace.Call.Loss.{
  ask_again, link_lost, network_changed, peer_changed, restart_later, restart_now, sampled, watch,
}
use cads_agent_marketplace.Call.Message.{
  Candidate, Content, Message, Reason, Server, Text, accepted, answer, busy_said, busy_there, bye,
  decline_said, declined, hangup_reason, ice, invite, offer, remote_hangup, restart_asked, ringing,
}
use cads_agent_marketplace.Call.Offer.{
  got_media, got_peer_servers, got_restart_servers, got_servers, no_media, offer_epoch, offer_set,
  on_accepted, say_offer, see, start_restart, task_done, wait_for,
}
use cads_agent_marketplace.Call.Session.{
  Callback, Peer, Role, Seen, Session, State, Task, Timer, TimerName, Wait, answer_task,
  ask_restart, callee, caller, calling, finish_with, for_answer, for_candidate, for_local_answer,
  for_local_offer, for_media, for_offer, for_offer_servers, for_peer_servers, for_remote_answer,
  for_remote_offer, for_restart_servers, for_rollback, for_servers, ice_task, invite_timer,
  link_lost_callback, offer_task, prepare_task, restart_again, restart_due, restart_task,
  ringing_out, send_invite, send_offer, then_answer, then_done, watch_media,
}
use cads_agent_marketplace.Call.Timers.{
  accept, clear, decline, enqueue, finish, hangup, is_over, same_timer, say, set_muted, set_state,
}

-- What a promise that a task awaits comes to. A reply of the connection says what it looks like then.
pub data Reply : Type 0 where
  media_given : Reply
  media_refused : Text → Reply
  servers_given : Option (List Server) → Reply
  peer_done : Seen → Reply
  peer_failed : Reply

pub data Event : Type 0 where
  accept_event decline_event hangup_event network_event begin_event : Event
  mute_event : Bool → Event
  message_event : Message → Event
  timer_event : TimerName → Event
  reply_event : Reply → Event
  peer_event : Seen → Event
  candidate_event : Candidate → Event
  sample_event : ℕ → Event

-- `receive` of a checked message of this call.
abbrev pub ringing_in_state : State → Session → Session
ringing_in_state calling s = set_state ringing_out (clear invite_timer s)
ringing_in_state _ s = s

abbrev pub bye_reason : Reason → Reason
bye_reason hangup_reason = remote_hangup
bye_reason r = r

abbrev pub restart_wanted : Role → ℕ → ℕ → Session → Session
restart_wanted caller epoch now s = if leb s.epoch epoch then link_lost now true s else s
restart_wanted callee epoch now s = s

abbrev pub receive_content : Content → ℕ → Session → Session
receive_content ringing now s = ringing_in_state s.state s
receive_content (accepted video) now s = on_accepted video s
receive_content decline_said now s = finish declined false s
receive_content busy_said now s = finish busy_there false s
receive_content (bye r) now s = finish (bye_reason r) false s
receive_content (offer epoch sdp servers) now s =
    enqueue (offer_task (record { epoch = epoch; sdp = sdp; servers = servers })) s
receive_content (answer epoch sdp servers) now s = enqueue (answer_task epoch sdp) s
receive_content (ice epoch c) now s = enqueue (ice_task (record { epoch = epoch; candidate = c })) s
receive_content (restart_asked epoch) now s = restart_wanted s.role epoch now s
receive_content (invite video) now s = s

abbrev pub receive : Message → ℕ → Session → Session
receive m now s =
    if not (m.call_id == s.call_id) || is_over s then s else receive_content m.content now s

-- The callbacks of the timers.
abbrev pub call_back : Callback → ℕ → Session → Session
call_back send_invite now s = say (invite s.video) s
call_back watch_media now s = watch s
call_back ask_restart now s = ask_again s
call_back (finish_with reason notify) now s = finish reason notify s
call_back link_lost_callback now s = link_lost now true s
call_back (send_offer epoch servers) now s = say_offer epoch servers s
call_back restart_due now s = restart_now s
call_back restart_again now s = restart_later s

-- A timeout that has fired is not pending any more.
abbrev pub spent : TimerName → List Timer → List Timer
spent n [] = []
spent n (t ∷ ts) =
    (if same_timer n t.name && not t.repeats then record t { pending = false } else t) ∷ spent n ts

abbrev pub due : TimerName → List Timer → Option Callback
due n [] = none
due n (t ∷ ts) = if same_timer n t.name && t.pending then some t.callback else due n ts

abbrev pub fire_with : Option Callback → TimerName → ℕ → Session → Session
fire_with none n now s = s
fire_with (some f) n now s = call_back f now (record s { timers = spent n s.timers })

abbrev pub fire : TimerName → ℕ → Session → Session
fire n now s = fire_with (due n s.timers) n now s

-- The next task of the queue begins, once the one before it is done.
abbrev pub begin_task : Task → ℕ → Session → Session
begin_task (prepare_task why) now s = wait_for (for_media why) s
begin_task (offer_task m) now s = on_offer m s
begin_task (answer_task epoch sdp) now s = on_answer epoch s
begin_task (ice_task m) now s = on_ice m s
begin_task restart_task now s = start_restart now s

abbrev pub begin_next : Option Wait → List Task → ℕ → Session → Session
begin_next none (t ∷ ts) now s = begin_task t now (record s { queue = ts })
begin_next _ _ now s = s

-- The running task goes on with a reply. A reply that it does not wait for cannot come.
abbrev pub resume : Wait → Reply → ℕ → Session → Session
resume (for_media why) media_given now s = got_media why s
resume (for_media why) (media_refused error) now s = no_media error s
resume (for_servers why) (servers_given o) now s = got_servers why o now s
resume (for_rollback r) (peer_done seen) now s = offer_epoch r now (see seen s)
resume (for_peer_servers r) (servers_given o) now s = got_peer_servers r o s
resume (for_offer r servers) (peer_done seen) now s =
    wait_for (for_local_offer r servers) (see seen s)
resume (for_local_offer r servers) (peer_done seen) now s = offer_set r servers (see seen s)
resume (for_offer_servers m) (servers_given o) now s = got_offer_servers o m s
resume (for_remote_offer m) (peer_done seen) now s = flush (then_answer m) (see seen s)
resume (for_answer m) (peer_done seen) now s = wait_for (for_local_answer m) (see seen s)
resume (for_local_answer m) (peer_done seen) now s = answer_set m (see seen s)
resume for_remote_answer (peer_done seen) now s = flush then_done (see seen s)
resume (for_candidate ms k) (peer_done seen) now s = flush_from ms k (see seen s)
resume (for_candidate ms k) peer_failed now s = flush_from ms k s
resume for_restart_servers (servers_given o) now s = got_restart_servers o now s
resume _ peer_failed now s = task_done s
resume _ _ now s = s

abbrev pub resume_at : Option Wait → Reply → ℕ → Session → Session
resume_at none r now s = s
resume_at (some w) r now s = resume w r now s

-- The browser reports a change of the connection, or a candidate, as long as it is there.
abbrev pub peer_reports : Option Peer → Seen → ℕ → Session → Session
peer_reports none seen now s = s
peer_reports (some pc) seen now s = peer_changed seen.connection now (see seen s)

abbrev pub candidate_found : Option Peer → Candidate → Session → Session
candidate_found none c s = s
candidate_found (some pc) c s = say (ice s.epoch c) s

abbrev pub sample_came : ℕ → ℕ → ℕ → Session → Session
sample_came zero packets now s = s
sample_came (suc n) packets now s = sampled packets now (record s { samples = n })

-- One event at the time `now`. A call begins with `dial` of a new session, or by ringing: the endpoint
-- does neither with a session that it has already.
unfoldable pub step : Event → ℕ → Session → Session
unfolding flush on_ice
step accept_event now s = accept s
step decline_event now s = decline s
step hangup_event now s = hangup s
step network_event now s = network_changed now s
step begin_event now s = begin_next s.running s.queue now s
step (mute_event b) now s = set_muted b s
step (message_event m) now s = receive m now s
step (timer_event n) now s = fire n now s
step (reply_event r) now s = resume_at s.running r now s
step (peer_event seen) now s = peer_reports s.pc seen now s
step (candidate_event c) now s = candidate_found s.pc c s
step (sample_event packets) now s = sample_came s.samples packets now s

-- A history of events, each with its time.
unfoldable pub run : List (Event × ℕ) → Session → Session
run [] s = s
run ((e, now) ∷ more) s = run more (step e now s)
