-- ===== src/Call/Ended.antt =====
-- Calls: what can still happen to a call that has ended (apps/call-core/src/call-core.js: every
-- function that runs after finish).
-- What the user and the other side notice of a call.
use mathlib.Core.Path.{subst}
use cads_agent_marketplace.Common.{
  Bool, List, Option, [], ap, false, if◌then◌else◌, ltb, none, refl, some, suc, sym, true, ℕ, ◌*◌,
  ◌∙◌, ◌∷◌, ◌≡◌,
}
use cads_agent_marketplace.Call.Answer.{flush, flush_from, hold}
use cads_agent_marketplace.Call.Loss.{backoff, longer}
use cads_agent_marketplace.Call.Message.{Content, Reason}
use cads_agent_marketplace.Call.Offer.{offer_returned, task_done, wait_for}
use cads_agent_marketplace.Call.Session.{
  Callback, IceMessage, Peer, Round, Session, State, Then, Timer, TimerName, Wait, ask_restart,
  connect_timer, ended, finish_with, first_round, link_lost_callback, restart_again, restart_due,
  restart_round, restart_timer, send_invite, send_offer, then_answer, then_done, watch_media,
}
use cads_agent_marketplace.Call.Step.{call_back, due, fire, fire_with, spent}
use cads_agent_marketplace.Call.TimerLemmas.{
  OptionCalls, calls_all, calls_all-set, calls_all-spent, calls_all-without, due-calls,
}
use cads_agent_marketplace.Call.Timers.{clear}

pub record Face : Type 0 where
  pub state : State
  pub pc : Option Peer
  pub local_stream : Bool
  pub end_reason : Option Reason
  pub sent : List Content
  pub told : List Reason

unfoldable pub face : Session → Face
face s = record {
  state = s.state;
  pc = s.pc;
  local_stream = s.local_stream;
  end_reason = s.end_reason;
  sent = s.sent;
  told = s.told;
}

-- A callback that sends whenever it is called.
abbrev pub is_quiet : Callback → Bool
is_quiet send_invite = false
is_quiet ask_restart = false
is_quiet _ = true

abbrev pub all_quiet : List Timer → Bool
all_quiet ts = calls_all is_quiet ts

-- The call is over: the connection is closed, the microphone is off, and no timer sends.
pub record IsClosed (s : Session) : Type 0 where
  pub over : s.state ≡ ended
  pub no_pc : s.pc ≡ none
  pub no_stream : s.local_stream ≡ false
  pub quiet : all_quiet s.timers ≡ true

-- Nobody notices a difference between `s` and `t`, and no timer of `t` sends.
abbrev pub Still : Session → Session → Type 0
Still s t = (face t ≡ face s) × (all_quiet t.timers ≡ true)

abbrev pub shut : Session → Session
shut s = record s { state = ended; pc = none; local_stream = false }

pub shut-same : (s : Session) → IsClosed s → shut s ≡ s
shut-same s c =
    λ i. record s { state = sym c.over i; pc = sym c.no_pc i; local_stream = sym c.no_stream i }

-- What is left to show of a function that does nothing to a call that is over.
abbrev pub Idles : (Session → Session) → Type 0
Idles f = (s : Session) → all_quiet s.timers ≡ true → Still (shut s) (f (shut s))

pub Still-if : (s t u : Session) (b : Bool) → Still s t → Still s u → Still s (if b then t else u)
Still-if s t u true h k = h
Still-if s t u false h k = k

Still-trans : (s t u : Session) → Still s t → Still t u → Still s u
Still-trans s t u (e, h) (d, k) = (d ∙ e, k)

-- A function that idles may follow whatever left the call as it was.
pub Still-IsClosed : (s t : Session) → Still (shut s) t → IsClosed t
unfolding face
Still-IsClosed s t (e, h) = record {
  over = ap (λ x. x.state) e;
  no_pc = ap (λ x. x.pc) e;
  no_stream = ap (λ x. x.local_stream) e;
  quiet = h;
}

pub idle_on : (f : Session → Session) → Idles f → (s : Session) → IsClosed s → Still s (f s)
idle_on f idles s c = subst (λ u. Still u (f u)) (shut-same s c) (idles s c.quiet)

-- A function that idles may follow whatever left the call as it was.
pub Still-then :
    (f : Session → Session) → Idles f → (s t : Session) → Still (shut s) t → Still (shut s) (f t)
Still-then f idles s t h = Still-trans (shut s) t (f t) h (idle_on f idles t (Still-IsClosed s t h))

pub task_done-Still : Idles task_done
unfolding face
task_done-Still s q = (refl, q)

pub wait_for-Still : (w : Wait) → Idles (wait_for w)
unfolding face
wait_for-Still w s q = (refl, q)

pub clear-Still : (n : TimerName) → Idles (clear n)
unfolding face
clear-Still n s q = (refl, calls_all-without is_quiet n s.timers q)

pub offer_returned-Still : (r : Round) → Idles (offer_returned r)
unfolding face
offer_returned-Still first_round s q = (
  refl,
  calls_all-set is_quiet false connect_timer s.timing.connect_timeout link_lost_callback s q refl,
)
offer_returned-Still restart_round s q = (refl, q)

flush-newer :
    (f : Session → Session) (s : Session)
    → all_quiet s.timers ≡ true
    → Idles f
    → (b : Bool) (m : IceMessage) → Still (shut s) (f (if b then hold m (shut s) else shut s))
unfolding face
flush-newer f s q idles true m = Still-then f idles s (hold m (shut s)) (refl, q)
flush-newer f s q idles false m = idles s q

pub flush-Still : (ms : List IceMessage) (k : Then) → Idles (flush_from ms k)
unfolding flush_from face
flush-Still [] (then_answer m) s q = (refl, q)
flush-Still [] then_done s q = (refl, q)
flush-Still (m ∷ ms) k s q =
    flush-newer (flush_from ms k) s q (flush-Still ms k) (ltb s.epoch m.epoch) m

pub flush_all-Still : (k : Then) → Idles (flush k)
unfolding flush face
flush_all-Still k s q =
    Still-then (flush_from s.held k) (flush-Still s.held k) s (record (shut s) { held = [] })
      (refl, q)

pub call_back-Still : (f : Callback) (now : ℕ) → is_quiet f ≡ true → Idles (call_back f now)
unfolding face
call_back-Still send_invite now h s q = cc
call_back-Still watch_media now h s q = (refl, q)
call_back-Still ask_restart now h s q = cc
call_back-Still (finish_with r n) now h s q = (refl, q)
call_back-Still link_lost_callback now h s q = (refl, q)
call_back-Still (send_offer epoch servers) now h s q = (refl, q)
call_back-Still restart_due now h s q = (
  refl,
  calls_all-set is_quiet false restart_timer
      (longer (2 * s.timing.signal_retry)
        (backoff (record s { restart_attempt = suc s.restart_attempt })))
      restart_again (clear restart_timer s) (calls_all-without is_quiet restart_timer s.timers q)
      refl,
)
call_back-Still restart_again now h s q = (
  refl,
  calls_all-set is_quiet false restart_timer (backoff s) restart_due (clear restart_timer s)
      (calls_all-without is_quiet restart_timer s.timers q) refl,
)

pub fire-Still : (n : TimerName) (now : ℕ) → Idles (fire n now)
unfolding face
fire-Still n now s q = fire_with-Still (due n s.timers) n now s q (due-calls is_quiet n s.timers q)
  where
    fire_with-Still :
        (o : Option Callback) (n : TimerName) (now : ℕ) (s : Session)
        → all_quiet s.timers ≡ true
        → OptionCalls is_quiet o
        → Still (shut s) (fire_with o n now (shut s))
    fire_with-Still none n now s q h = (refl, q)
    fire_with-Still (some f) n now s q h =
        Still-then (call_back f now) (call_back-Still f now h) s
          (record (shut s) { timers = spent n s.timers })
          (refl, calls_all-spent is_quiet n s.timers q)
