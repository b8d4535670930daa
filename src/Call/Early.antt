-- ===== src/Call/Early.antt =====
-- Calls: a call that nobody has accepted yet (apps/call-core/src/call-core.js: accept, onAccepted,
-- prepareConnection and the handlers that can run before them).
use cads_agent_marketplace.Common.{
  Bool, List, [], any, arith, false, if◌then◌else◌, leb, none, refl, sym, true, ℕ, ◌++◌, ◌∷◌, ◌≡◌,
}
use cads_agent_marketplace.Call.Loss.{link_lost, network_in}
use cads_agent_marketplace.Call.Message.{
  Content, Reason, accepted, answer, busy_said, busy_there, bye, decline_said, declined, ice,
  invite, offer, restart_asked, ringing,
}
use cads_agent_marketplace.Call.Offer.{accepted_as, accepted_in}
use cads_agent_marketplace.Call.Session.{
  Callback, Role, Session, State, Task, ask_restart, callee, caller, calling, connected,
  finish_with, idle, link_lost_callback, prepare_task, reconnecting, restart_again, restart_due,
  restart_task, ringing_in, ringing_out, send_invite, send_offer, watch_media,
}
use cads_agent_marketplace.Call.Step.{
  bye_reason, call_back, receive_content, restart_wanted, ringing_in_state,
}
use cads_agent_marketplace.Call.Timers.{
  accept_in, decline_in, enqueue, finish, finish_open, hangup, hangup_reason_in, is_over, say,
}

abbrev pub is_early : State → Bool
is_early idle = true
is_early calling = true
is_early ringing_out = true
is_early ringing_in = true
is_early _ = false

abbrev pub prepares : Task → Bool
prepares (prepare_task why) = true
prepares _ = false

-- There is no connection, no microphone, no task that waits, and none that would open the microphone.
abbrev pub IsYoung : Session → Type 0
IsYoung s =
    (s.pc ≡ none)
    × ((s.local_stream ≡ false) × ((s.running ≡ none) × (any prepares s.queue ≡ false)))

abbrev pub IsCalm : Session → Type 0
IsCalm s = is_early s.state ≡ true → IsYoung s

abbrev pub young : Session → Session
young s = record s { pc = none; local_stream = false; running = none }

-- What is left to show of a function for a call that nobody has accepted.
abbrev pub Calms : (Session → Session) → Type 0
Calms f = (s : Session) → any prepares s.queue ≡ false → IsCalm (f (young s))

pub young-same : (s : Session) → IsYoung s → young s ≡ s
young-same s (p, (m, (r, q))) =
    λ i. record s { pc = sym p i; local_stream = sym m i; running = sym r i }

pub IsCalm-if : (b : Bool) (s t : Session) → IsCalm s → IsCalm t → IsCalm (if b then s else t)
IsCalm-if true s t h k = h
IsCalm-if false s t h k = k

any-last :
    (ts : List Task) (t : Task)
    → any prepares ts ≡ false
    → prepares t ≡ false
    → any prepares (ts ++ t ∷ []) ≡ false
any-last [] t h k = ground arith
any-last (u ∷ ts) t h k = ground (arith, any-last ts t)

pub enqueue-IsCalm : (t : Task) → prepares t ≡ false → Calms (enqueue t)
enqueue-IsCalm t k s q h = (refl, (refl, (refl, any-last s.queue t q k)))

pub as_young : (s : Session) → any prepares s.queue ≡ false → IsCalm (young s)
as_young s q h = (refl, (refl, (refl, q)))

pub finish-IsCalm : (r : Reason) (n : Bool) → Calms (finish r n)
finish-IsCalm r n s q =
    IsCalm-if (is_over s) (young s) (finish_open r n (young s)) (as_young s q) (λ h. cc)

pub link_lost-IsCalm : (now : ℕ) (immediate : Bool) → Calms (link_lost now immediate)
link_lost-IsCalm now immediate s q =
    IsCalm-if (is_over s) (young s) (young s) (as_young s q) (as_young s q)

pub accept-IsCalm : (x : State) → Calms (accept_in x)
accept-IsCalm ringing_in s q = λ h. cc
accept-IsCalm _ s q = as_young s q

pub decline-IsCalm : (x : State) → Calms (decline_in x)
decline-IsCalm ringing_in s q = finish-IsCalm declined false (say decline_said s) q
decline-IsCalm _ s q = as_young s q

pub hangup-IsCalm : Calms hangup
hangup-IsCalm s q =
    IsCalm-if (is_over s) (young s) _ (as_young s q)
      (finish-IsCalm (hangup_reason_in s.state) true s q)

pub network-IsCalm : (x : State) (now : ℕ) → Calms (network_in x now)
network-IsCalm connected now s q = link_lost-IsCalm now true (record s { last_offer_at = 0 }) q
network-IsCalm reconnecting now s q = link_lost-IsCalm now true (record s { last_offer_at = 0 }) q
network-IsCalm _ now s q = as_young s q

accepted_in-IsCalm : (x : State) (video : Bool) → Calms (accepted_in x video)
accepted_in-IsCalm calling video s q = λ h. cc
accepted_in-IsCalm ringing_out video s q = λ h. cc
accepted_in-IsCalm _ video s q = as_young s q

accepted-IsCalm : (r : Role) (video : Bool) → Calms (accepted_as r video)
accepted-IsCalm caller video s q = accepted_in-IsCalm s.state video s q
accepted-IsCalm callee video s q = as_young s q

ringing-IsCalm : (x : State) → Calms (ringing_in_state x)
ringing-IsCalm calling s q = λ h. (refl, (refl, (refl, q)))
ringing-IsCalm _ s q = as_young s q

restart_wanted-IsCalm : (r : Role) (epoch now : ℕ) → Calms (restart_wanted r epoch now)
restart_wanted-IsCalm caller epoch now s q =
    IsCalm-if (leb s.epoch epoch) _ (young s) (link_lost-IsCalm now true s q) (as_young s q)
restart_wanted-IsCalm callee epoch now s q = as_young s q

pub content-IsCalm : (c : Content) (now : ℕ) → Calms (receive_content c now)
content-IsCalm ringing now s q = ringing-IsCalm s.state s q
content-IsCalm (accepted video) now s q = accepted-IsCalm s.role video s q
content-IsCalm decline_said now s q = finish-IsCalm declined false s q
content-IsCalm busy_said now s q = finish-IsCalm busy_there false s q
content-IsCalm (bye r) now s q = finish-IsCalm (bye_reason r) false s q
content-IsCalm (offer epoch sdp servers) now s q = enqueue-IsCalm _ refl s q
content-IsCalm (answer epoch sdp servers) now s q = enqueue-IsCalm _ refl s q
content-IsCalm (ice epoch c) now s q = enqueue-IsCalm _ refl s q
content-IsCalm (restart_asked epoch) now s q = restart_wanted-IsCalm s.role epoch now s q
content-IsCalm (invite video) now s q = as_young s q

pub call_back-IsCalm : (f : Callback) (now : ℕ) → Calms (call_back f now)
call_back-IsCalm send_invite now s q = as_young (say (invite s.video) s) q
call_back-IsCalm watch_media now s q =
    IsCalm-if (is_over s) (young s) (young s) (as_young s q) (as_young s q)
call_back-IsCalm ask_restart now s q = as_young (say (restart_asked s.epoch) s) q
call_back-IsCalm (finish_with r n) now s q = finish-IsCalm r n s q
call_back-IsCalm link_lost_callback now s q = link_lost-IsCalm now true s q
call_back-IsCalm (send_offer epoch servers) now s q = as_young s q
call_back-IsCalm restart_due now s q =
    λ h. (refl, (refl, (refl, any-last s.queue restart_task q refl)))
call_back-IsCalm restart_again now s q = λ h. (refl, (refl, (refl, q)))
