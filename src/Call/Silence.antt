-- ===== src/Call/Silence.antt =====
-- Calls: a call that has ended, over a whole history (apps/call-core/src/call-core.js: finish, and
-- every handler that can still be called after it).
use cads_agent_marketplace.Common.{
  Bool, List, Option, [], ap, false, if◌then◌else◌, ltb, none, refl, some, suc, zero, ℕ, ◌++◌, ◌∙◌,
  ◌∷◌, ◌≡◌,
}
use cads_agent_marketplace.Call.Ended.{Idles, Still-if, Still-then, face, fire-Still, shut}
use cads_agent_marketplace.Call.Message.{Reason, bye}
use cads_agent_marketplace.Call.Replies.{
  failed-Still, media-Still, next-Still, peer_done-Still, receive-Still, refused-Still,
  servers_given-Still,
}
use cads_agent_marketplace.Call.Session.{Session, Wait, ended}
use cads_agent_marketplace.Call.Step.{
  Event, Reply, accept_event, begin_event, candidate_event, decline_event, hangup_event,
  media_given, media_refused, message_event, mute_event, network_event, peer_done, peer_event,
  peer_failed, reply_event, resume, resume_at, run, sample_came, sample_event, servers_given, step,
  timer_event,
}
use cads_agent_marketplace.Call.Timers.{finish, finish_open, is_over}

sample-Still : (n packets now : ℕ) → Idles (sample_came n packets now)
unfolding face
sample-Still zero packets now s q = (refl, q)
sample-Still (suc n) packets now s q =
    Still-if (shut s) _ _ (ltb s.last_packets packets) (refl, q) (refl, q)

resume-Still : (w : Wait) (r : Reply) (now : ℕ) → Idles (resume w r now)
resume-Still w media_given now = media-Still w now
resume-Still w (media_refused error) now = refused-Still w error now
resume-Still w (servers_given o) now = servers_given-Still w o now
resume-Still w (peer_done seen) now = peer_done-Still w seen now
resume-Still w peer_failed now = failed-Still w now

resume_at-Still : (w : Option Wait) (r : Reply) (now : ℕ) → Idles (resume_at w r now)
unfolding face
resume_at-Still none r now s q = (refl, q)
resume_at-Still (some w) r now s q = resume-Still w r now s q

step-Still : (e : Event) (now : ℕ) → Idles (step e now)
unfolding step face
step-Still accept_event now s q = (refl, q)
step-Still decline_event now s q = (refl, q)
step-Still hangup_event now s q = (refl, q)
step-Still network_event now s q = (refl, q)
step-Still begin_event now s q = next-Still s.running s.queue now s q
step-Still (mute_event b) now s q = (refl, q)
step-Still (message_event m) now s q = receive-Still m now s q
step-Still (timer_event n) now s q = fire-Still n now s q
step-Still (reply_event r) now s q = resume_at-Still s.running r now s q
step-Still (peer_event seen) now s q = (refl, q)
step-Still (candidate_event c) now s q = (refl, q)
step-Still (sample_event packets) now s q = sample-Still s.samples packets now s q

run-Still : (es : List (Event × ℕ)) → Idles (run es)
unfolding run face
run-Still [] s q = (refl, q)
run-Still ((e, now) ∷ es) s q =
    Still-then (run es) (run-Still es) s (step e now (shut s)) (step-Still e now s q)

-- A call that is not over and ends, for whatever reason, has ended for good: after any history of
-- events from then on its state is ended, there is no connection and no microphone, the reason is the
-- first one, nothing was sent after the end but the one farewell of this end where it notifies the
-- other side, and `onEnded` was called exactly once more, with this reason.
pub finish-run :
    (es : List (Event × ℕ)) (reason : Reason) (notify : Bool) (s : Session)
    → is_over s ≡ false
    → face (run es (finish reason notify s)) ≡ record {
      state = ended;
      pc = none;
      local_stream = false;
      end_reason = some reason;
      sent = if notify then s.sent ++ bye reason ∷ [] else s.sent;
      told = s.told ++ reason ∷ [];
    }
unfolding face
finish-run es reason notify s h =
    ap (λ b. face (run es (if b then s else finish_open reason notify s))) h
    ∙ (run-Still es (finish_open reason notify s) refl).0
