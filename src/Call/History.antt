-- ===== src/Call/History.antt =====
-- Calls: the order of the states over a whole history (apps/call-core/src/call-core.js: receive and
-- the callbacks).
use cads_agent_marketplace.Common.{
  Bool, List, Option, [], ap, arith, false, leb, list_eq, nat_eq, none, not, refl, some, suc, true,
  zero, ℕ, ◌==◌, ◌||◌, ◌∷◌, ◌≡◌,
}
use cads_agent_marketplace.Call.Answer.{answer_set, flush, flush_from, on_ice}
use cads_agent_marketplace.Call.Loss.{peer_changed, watch_from}
use cads_agent_marketplace.Call.Message.{
  Candidate, Content, accepted, answer, busy_said, busy_there, bye, decline_said, declined, ice,
  invite, media_denied, offer, restart_asked, ringing,
}
use cads_agent_marketplace.Call.Offer.{
  accepted_as, accepted_in, fetched, fetched_servers, offer_epoch, offer_set, see,
}
use cads_agent_marketplace.Call.Onward.{
  answer_set-Climbs, flush-Climbs, flush_all-Climbs, offer_given-Climbs, on_answer-Climbs,
  on_offer-Climbs,
}
use cads_agent_marketplace.Call.Order.{
  Climbs, Rises, Rises-if, Rises-next, finish-Climbs, link_lost-Climbs, peer_changed-Climbs, rank,
  sampled-Climbs, stays,
}
use cads_agent_marketplace.Call.Rising.{
  accept-Climbs, decline-Climbs, got_servers-Climbs, hangup-Climbs, network-Climbs,
  offer_epoch-Climbs, offer_set-Climbs, peer_servers-Climbs, restart_with-Climbs, say_offer-Climbs,
  see-Climbs, start_restart-Climbs,
}
use cads_agent_marketplace.Call.Session.{
  Callback, Peer, Role, Seen, Session, State, Task, TimerName, Wait, answer_task, ask_restart,
  callee, caller, calling, finish_with, for_answer, for_candidate, for_local_answer,
  for_local_offer, for_media, for_offer, for_offer_servers, for_peer_servers, for_remote_answer,
  for_remote_offer, for_restart_servers, for_rollback, for_servers, ice_task, link_lost_callback,
  offer_task, prepare_task, restart_again, restart_due, restart_task, ringing_out, send_invite,
  send_offer, then_answer, then_done, watch_media,
}
use cads_agent_marketplace.Call.Step.{
  Event, Reply, accept_event, begin_event, begin_next, begin_task, bye_reason, call_back,
  candidate_event, candidate_found, decline_event, due, fire_with, hangup_event, media_given,
  media_refused, message_event, mute_event, network_event, peer_done, peer_event, peer_failed,
  peer_reports, receive_content, reply_event, restart_wanted, resume, resume_at, ringing_in_state,
  run, sample_came, sample_event, servers_given, spent, step, timer_event,
}
use cads_agent_marketplace.Call.Timers.{is_over}

accepted_in-Climbs :
    (x : State) (video : Bool) (s : Session) → s.state ≡ x → Rises s (accepted_in x video s)
unfolding rank
accepted_in-Climbs calling video s e = omega (arith, ap rank e)
accepted_in-Climbs ringing_out video s e = omega (arith, ap rank e)
accepted_in-Climbs _ video s e = stays s

accepted-Climbs : (r : Role) (video : Bool) → Climbs (accepted_as r video)
accepted-Climbs callee video s = stays s
accepted-Climbs caller video s = accepted_in-Climbs s.state video s refl

ringing-Climbs : (x : State) (s : Session) → s.state ≡ x → Rises s (ringing_in_state x s)
unfolding rank
ringing-Climbs calling s e = omega (arith, ap rank e)
ringing-Climbs _ s e = stays s

restart_wanted-Climbs : (r : Role) (epoch now : ℕ) → Climbs (restart_wanted r epoch now)
restart_wanted-Climbs caller epoch now s =
    Rises-if (leb s.epoch epoch) s _ _ (link_lost-Climbs now true s) (stays s)
restart_wanted-Climbs callee epoch now s = stays s

content-Climbs : (c : Content) (now : ℕ) → Climbs (receive_content c now)
content-Climbs ringing now s = ringing-Climbs s.state s refl
content-Climbs (accepted video) now s = accepted-Climbs s.role video s
content-Climbs decline_said now s = finish-Climbs declined false s
content-Climbs busy_said now s = finish-Climbs busy_there false s
content-Climbs (bye r) now s = finish-Climbs (bye_reason r) false s
content-Climbs (offer epoch sdp servers) now s = stays s
content-Climbs (answer epoch sdp servers) now s = stays s
content-Climbs (ice epoch c) now s = stays s
content-Climbs (restart_asked epoch) now s = restart_wanted-Climbs s.role epoch now s
content-Climbs (invite video) now s = stays s

call_back-Climbs : (f : Callback) (now : ℕ) → Climbs (call_back f now)
call_back-Climbs send_invite now s = stays s
call_back-Climbs watch_media now s = Rises-if (is_over s) s s _ (stays s) (from s.pc)
  where
    from : (p : Option Peer) → Rises s (watch_from p s)
    from none = stays s
    from (some pc) = stays s
call_back-Climbs ask_restart now s = stays s
call_back-Climbs (finish_with r n) now s = finish-Climbs r n s
call_back-Climbs link_lost_callback now s = link_lost-Climbs now true s
call_back-Climbs (send_offer epoch servers) now s = say_offer-Climbs s.pc epoch servers s
call_back-Climbs restart_due now s = stays s
call_back-Climbs restart_again now s = stays s

fire-Climbs : (o : Option Callback) (n : TimerName) (now : ℕ) → Climbs (fire_with o n now)
fire-Climbs none n now s = stays s
fire-Climbs (some f) n now s = call_back-Climbs f now (record s { timers = spent n s.timers })

begin-Climbs : (t : Task) (now : ℕ) → Climbs (begin_task t now)
unfolding on_ice
begin-Climbs (prepare_task why) now s = stays s
begin-Climbs (offer_task m) now s = on_offer-Climbs s.role m s
begin-Climbs (answer_task epoch sdp) now s = on_answer-Climbs s.role epoch s
begin-Climbs (ice_task m) now s = flush-Climbs (m ∷ []) then_done s
begin-Climbs restart_task now s = start_restart-Climbs now s

next-Climbs : (w : Option Wait) (ts : List Task) (now : ℕ) → Climbs (begin_next w ts now)
next-Climbs none [] now s = stays s
next-Climbs none (t ∷ ts) now s = begin-Climbs t now (record s { queue = ts })
next-Climbs (some w) ts now s = stays s

peer_done-Climbs : (w : Wait) (now : ℕ) (seen : Seen) → Climbs (resume w (peer_done seen) now)
peer_done-Climbs (for_rollback r) now seen s =
    Rises-next (offer_epoch r now) (offer_epoch-Climbs r now) s (see seen s) (see-Climbs seen s)
peer_done-Climbs (for_offer r servers) now seen s = see-Climbs seen s
peer_done-Climbs (for_local_offer r servers) now seen s =
    Rises-next (offer_set r servers) (offer_set-Climbs r servers) s (see seen s) (see-Climbs seen s)
peer_done-Climbs (for_remote_offer m) now seen s =
    Rises-next (flush (then_answer m)) (flush_all-Climbs (then_answer m)) s (see seen s)
      (see-Climbs seen s)
peer_done-Climbs (for_answer m) now seen s = see-Climbs seen s
peer_done-Climbs (for_local_answer m) now seen s =
    Rises-next (answer_set m) (answer_set-Climbs m) s (see seen s) (see-Climbs seen s)
peer_done-Climbs for_remote_answer now seen s =
    Rises-next (flush then_done) (flush_all-Climbs then_done) s (see seen s) (see-Climbs seen s)
peer_done-Climbs (for_candidate ms k) now seen s =
    Rises-next (flush_from ms k) (flush-Climbs ms k) s (see seen s) (see-Climbs seen s)
peer_done-Climbs _ now seen s = stays s

resume-Climbs : (w : Wait) (r : Reply) (now : ℕ) → Climbs (resume w r now)
resume-Climbs w (peer_done seen) now s = peer_done-Climbs w now seen s
resume-Climbs (for_media why) media_given now s = Rises-if (is_over s) s _ _ (stays s) (stays s)
resume-Climbs (for_media why) (media_refused error) now s =
    finish-Climbs media_denied true (record s { error = some error })
resume-Climbs (for_servers why) (servers_given o) now s = got_servers-Climbs why o now s
resume-Climbs (for_peer_servers r) (servers_given o) now s = peer_servers-Climbs r o s
resume-Climbs (for_offer_servers m) (servers_given o) now s =
    offer_given-Climbs s.pc (fetched_servers o) m (fetched o s)
resume-Climbs (for_candidate ms k) peer_failed now s = flush-Climbs ms k s
resume-Climbs for_restart_servers (servers_given o) now s =
    restart_with-Climbs s.pc (fetched_servers o) now (fetched o s)
resume-Climbs _ _ now s = stays s

peer_reports-Climbs : (p : Option Peer) (seen : Seen) (now : ℕ) → Climbs (peer_reports p seen now)
peer_reports-Climbs none seen now s = stays s
peer_reports-Climbs (some pc) seen now s =
    Rises-next (peer_changed seen.connection now) (peer_changed-Climbs seen.connection now) s
      (see seen s) (see-Climbs seen s)

candidate-Climbs : (p : Option Peer) (c : Candidate) → Climbs (candidate_found p c)
candidate-Climbs none c s = stays s
candidate-Climbs (some pc) c s = stays s

sample-Climbs : (n packets now : ℕ) → Climbs (sample_came n packets now)
sample-Climbs zero packets now s = stays s
sample-Climbs (suc n) packets now s = sampled-Climbs packets now (record s { samples = n })

resume_at-Climbs : (w : Option Wait) (r : Reply) (now : ℕ) → Climbs (resume_at w r now)
resume_at-Climbs none r now s = stays s
resume_at-Climbs (some w) r now s = resume-Climbs w r now s

step-Climbs : (e : Event) (now : ℕ) → Climbs (step e now)
unfolding step
step-Climbs accept_event now s = accept-Climbs s.state s refl
step-Climbs decline_event now s = decline-Climbs s.state s
step-Climbs hangup_event now s = hangup-Climbs s
step-Climbs network_event now s = network-Climbs s.state now s
step-Climbs begin_event now s = next-Climbs s.running s.queue now s
step-Climbs (mute_event b) now s = stays s
step-Climbs (message_event m) now s =
    Rises-if (not (m.call_id == s.call_id) || is_over s) s _ _ (stays s)
      (content-Climbs m.content now s)
step-Climbs (timer_event n) now s = fire-Climbs (due n s.timers) n now s
step-Climbs (reply_event r) now s = resume_at-Climbs s.running r now s
step-Climbs (peer_event seen) now s = peer_reports-Climbs s.pc seen now s
step-Climbs (candidate_event c) now s = candidate-Climbs s.pc c s
step-Climbs (sample_event packets) now s = sample-Climbs s.samples packets now s

-- A call never goes back: through any history of events, at any times, the state only moves on in the
-- order idle, calling, ringing (on either side), connecting, connected or reconnecting, ended. Only
-- connected and reconnecting may take turns.
pub run-Rises : (es : List (Event × ℕ)) (s : Session) → Rises s (run es s)
unfolding run
run-Rises [] s = stays s
run-Rises ((e, now) ∷ es) s =
    Rises-next (run es) (run-Rises es) s (step e now s) (step-Climbs e now s)
