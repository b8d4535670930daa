-- ===== src/Call/Microphone.antt =====
-- Calls: the microphone and the connection of a call that nobody has accepted yet
-- (apps/call-core/src/call-core.js: accept, onAccepted, prepareConnection).
use mathlib.Core.Path.{subst}
use cads_agent_marketplace.Common.{
  Bool, List, Option, [], any, arith, false, if◌then◌else◌, list_eq, ltb, nat_eq, none, not, refl,
  some, suc, true, zero, ℕ, ◌&&◌, ◌-◌, ◌==◌, ◌||◌, ◌∷◌, ◌≡◌, ◌≤◌,
}
use cads_agent_marketplace.Call.Answer.{flush_from, hold, on_answer_as, on_ice, on_offer_as}
use cads_agent_marketplace.Call.Early.{
  Calms, IsCalm, IsCalm-if, IsYoung, accept-IsCalm, as_young, call_back-IsCalm, content-IsCalm,
  decline-IsCalm, hangup-IsCalm, is_early, link_lost-IsCalm, network-IsCalm, prepares, young,
  young-same,
}
use cads_agent_marketplace.Call.History.{run-Rises}
use cads_agent_marketplace.Call.Loss.{is_connected_state, is_reconnecting, media_moved}
use cads_agent_marketplace.Call.Message.{Message}
use cads_agent_marketplace.Call.Offer.{task_done}
use cads_agent_marketplace.Call.Order.{Rises, rank}
use cads_agent_marketplace.Call.Session.{
  Callback, IceMessage, Role, Session, State, Task, TimerName, answer_task, callee, caller, calling,
  connected, connecting, ended, ice_task, idle, offer_task, prepare_task, reconnecting,
  restart_task, ringing_in, ringing_out, then_done,
}
use cads_agent_marketplace.Call.Step.{
  Event, accept_event, begin_event, begin_next, begin_task, candidate_event, decline_event, due,
  fire_with, hangup_event, message_event, mute_event, network_event, peer_event, receive,
  reply_event, run, sample_came, sample_event, spent, step, timer_event,
}
use cads_agent_marketplace.Call.Timers.{is_over, mark_connected}

receive-IsCalm : (m : Message) (now : ℕ) → Calms (receive m now)
receive-IsCalm m now s q =
    IsCalm-if (not (m.call_id == s.call_id) || is_over s) (young s) _ (as_young s q)
      (content-IsCalm m.content now s q)

fire-IsCalm : (o : Option Callback) (n : TimerName) (now : ℕ) → Calms (fire_with o n now)
fire-IsCalm none n now s q = as_young s q
fire-IsCalm (some f) n now s q = call_back-IsCalm f now (record s { timers = spent n s.timers }) q

flush-IsCalm : (m : IceMessage) → Calms (flush_from (m ∷ []) then_done)
unfolding flush_from
flush-IsCalm m s q = newer (ltb s.epoch m.epoch)
  where
    newer : (b : Bool) → IsCalm (task_done (if b then hold m (young s) else young s))
    newer true = λ h. (refl, (refl, (refl, q)))
    newer false = λ h. (refl, (refl, (refl, q)))

begin-IsCalm : (t : Task) (now : ℕ) → prepares t ≡ false → Calms (begin_task t now)
unfolding on_ice
begin-IsCalm (prepare_task why) now k s q = cc
begin-IsCalm (offer_task m) now k s q = as_role s.role
  where
    as_role : (r : Role) → IsCalm (on_offer_as r m (young s))
    as_role caller = λ h. (refl, (refl, (refl, q)))
    as_role callee = λ h. (refl, (refl, (refl, q)))
begin-IsCalm (answer_task epoch sdp) now k s q = as_role s.role
  where
    as_role : (r : Role) → IsCalm (on_answer_as r epoch (young s))
    as_role caller = λ h. (refl, (refl, (refl, q)))
    as_role callee = λ h. (refl, (refl, (refl, q)))
begin-IsCalm (ice_task m) now k s q = flush-IsCalm m s q
begin-IsCalm restart_task now k s q =
    IsCalm-if (is_over s) (task_done (young s)) (task_done (young s)) (as_young s q) (as_young s q)

next-IsCalm :
    (ts : List Task) (now : ℕ) (s : Session)
    → any prepares ts ≡ false
    → any prepares s.queue ≡ false
    → IsCalm (begin_next none ts now (young s))
next-IsCalm [] now s k q = as_young s q
next-IsCalm (t ∷ ts) now s k q =
    let here : prepares t ≡ false = ground arith in
    let rest : any prepares ts ≡ false = ground arith in
    begin-IsCalm t now here (record s { queue = ts }) rest

moved-IsCalm : (now : ℕ) → Calms (media_moved now)
moved-IsCalm now s q = moved (is_reconnecting s.state)
  where
    moved :
        (b : Bool)
        → IsCalm (
            if b && false
            then mark_connected now
                (record (young s) { last_packets_at = now; reconnects = suc s.reconnects })
            else record (young s) { last_packets_at = now })
    moved true = λ h. (refl, (refl, (refl, q)))
    moved false = λ h. (refl, (refl, (refl, q)))

sample-IsCalm : (n packets now : ℕ) → Calms (sample_came n packets now)
sample-IsCalm zero packets now s q = as_young s q
sample-IsCalm (suc n) packets now s q =
    IsCalm-if (ltb s.last_packets packets) _ _
      (moved-IsCalm now (record s { last_packets = packets; samples = n }) q)
      (IsCalm-if (is_connected_state s.state && ltb s.timing.media_stall (now - s.last_packets_at))
        _ _ (link_lost-IsCalm now true (record s { last_packets = packets; samples = n }) q)
        (as_young (record s { last_packets = packets; samples = n }) q))

step-IsCalm : (e : Event) (now : ℕ) → Calms (step e now)
unfolding step
step-IsCalm accept_event now s q = accept-IsCalm s.state s q
step-IsCalm decline_event now s q = decline-IsCalm s.state s q
step-IsCalm hangup_event now s q = hangup-IsCalm s q
step-IsCalm network_event now s q = network-IsCalm s.state now s q
step-IsCalm begin_event now s q = next-IsCalm s.queue now s q q
step-IsCalm (mute_event b) now s q = as_young (record s { muted = b }) q
step-IsCalm (message_event m) now s q = receive-IsCalm m now s q
step-IsCalm (timer_event n) now s q = fire-IsCalm (due n s.timers) n now s q
step-IsCalm (reply_event r) now s q = as_young s q
step-IsCalm (peer_event seen) now s q = as_young s q
step-IsCalm (candidate_event c) now s q = as_young s q
step-IsCalm (sample_event packets) now s q = sample-IsCalm s.samples packets now s q

early-rank : (x : State) → is_early x ≡ true → rank x ≤ 2
unfolding rank
early-rank idle h = omega arith
early-rank calling h = omega arith
early-rank ringing_out h = omega arith
early-rank ringing_in h = omega arith
early-rank connecting h = cc
early-rank connected h = cc
early-rank reconnecting h = cc
early-rank ended h = cc

rank-early : (x : State) → rank x ≤ 2 → is_early x ≡ true
unfolding rank
rank-early idle h = refl
rank-early calling h = refl
rank-early ringing_out h = refl
rank-early ringing_in h = refl
rank-early connecting h = absurd (omega arith)
rank-early connected h = absurd (omega arith)
rank-early reconnecting h = absurd (omega arith)
rank-early ended h = absurd (omega arith)

was_early :
    (es : List (Event × ℕ)) (s : Session)
    → is_early (run es s).state ≡ true
    → is_early s.state ≡ true
was_early es s h =
    let low : rank (run es s).state ≤ 2 = early-rank (run es s).state h in
    let rises : Rises s (run es s) = run-Rises es s in rank-early s.state (omega arith)

run-IsYoung :
    (es : List (Event × ℕ)) (s : Session)
    → IsYoung s
    → is_early (run es s).state ≡ true
    → IsYoung (run es s)
unfolding run
run-IsYoung [] s y h = y
run-IsYoung ((e, now) ∷ es) s y h =
    let calm : IsCalm (step e now s) =
      subst (λ t. IsCalm (step e now t)) (young-same s y) (step-IsCalm e now s y.1.1.1) in
    run-IsYoung es (step e now s) (calm (was_early es (step e now s) h)) h

-- A call that begins without a microphone, a connection and anything that would open them: through
-- any history of events, as long as it is only calling or ringing, it has neither a microphone nor a
-- connection.
pub run-no_microphone :
    (es : List (Event × ℕ)) (s : Session)
    → IsYoung s
    → is_early (run es s).state ≡ true
    → ((run es s).local_stream ≡ false) × ((run es s).pc ≡ none)
run-no_microphone es s y h = let (p, (m, rest)) = run-IsYoung es s y h in (m, p)
