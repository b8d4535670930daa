-- ===== src/Call/TimerLemmas.antt =====
-- Calls: what holds of all the timers (apps/call-core/src/call-core.js: after, every, clear).
-- What a test says of the callback of every timer.
use cads_agent_marketplace.Common.{
  &&-both, &&-left, &&-right, Bool, List, Option, [], all, false, if◌then◌else◌, none, not, refl,
  some, true, ℕ, ◌&&◌, ◌++◌, ◌∷◌, ◌≡◌,
}
use cads_agent_marketplace.Call.Session.{Callback, Session, Timer, TimerName}
use cads_agent_marketplace.Call.Step.{due, spent}
use cads_agent_marketplace.Call.Timers.{same_timer, set_timer, without}

abbrev pub calls_all : (Callback → Bool) → List Timer → Bool
calls_all p ts = all (λ t. p t.callback) ts

calls_all-keep :
    (p : Callback → Bool) (drop : Bool) (t : Timer) (us : List Timer)
    → p t.callback ≡ true
    → calls_all p us ≡ true
    → calls_all p (if drop then us else t ∷ us) ≡ true
calls_all-keep p true t us h k = k
calls_all-keep p false t us h k = &&-both (p t.callback) (calls_all p us) h k

pub calls_all-without :
    (p : Callback → Bool) (n : TimerName) (ts : List Timer)
    → calls_all p ts ≡ true
    → calls_all p (without n ts) ≡ true
calls_all-without p n [] h = h
calls_all-without p n (t ∷ ts) h =
    let here = &&-left (p t.callback) (calls_all p ts) h in
    let there = &&-right (p t.callback) (calls_all p ts) h in
    calls_all-keep p (same_timer n t.name) t (without n ts) here (calls_all-without p n ts there)

calls_all-append :
    (p : Callback → Bool) (ts us : List Timer)
    → calls_all p ts ≡ true
    → calls_all p us ≡ true
    → calls_all p (ts ++ us) ≡ true
calls_all-append p [] us h k = k
calls_all-append p (t ∷ ts) us h k =
    let here = &&-left (p t.callback) (calls_all p ts) h in
    let there = &&-right (p t.callback) (calls_all p ts) h in
    &&-both (p t.callback) (calls_all p (ts ++ us)) here (calls_all-append p ts us there k)

-- The timers after `after` or `every`.
pub calls_all-set :
    (p : Callback → Bool) (repeats : Bool) (n : TimerName) (ms : ℕ) (f : Callback) (s : Session)
    → calls_all p s.timers ≡ true
    → p f ≡ true
    → calls_all p (set_timer repeats n ms f s).timers ≡ true
calls_all-set p repeats n ms f s h k =
    calls_all-append p (without n s.timers)
      (record { name = n; ms = ms; repeats = repeats; pending = true; callback = f } ∷ [])
      (calls_all-without p n s.timers h) (&&-both (p f) true k refl)

spent-call :
    (p : Callback → Bool) (b : Bool) (t : Timer)
    → p t.callback ≡ true
    → p (if b then record t { pending = false } else t).callback ≡ true
spent-call p true t h = h
spent-call p false t h = h

pub calls_all-spent :
    (p : Callback → Bool) (n : TimerName) (ts : List Timer)
    → calls_all p ts ≡ true
    → calls_all p (spent n ts) ≡ true
calls_all-spent p n [] h = h
calls_all-spent p n (t ∷ ts) h =
    let here = &&-left (p t.callback) (calls_all p ts) h in
    let there = &&-right (p t.callback) (calls_all p ts) h in
    &&-both _ (calls_all p (spent n ts))
      (spent-call p (same_timer n t.name && not t.repeats) t here) (calls_all-spent p n ts there)

-- What is due is the callback of one of the timers.
abbrev pub OptionCalls : (Callback → Bool) → Option Callback → Type 0
OptionCalls p none = Unit
OptionCalls p (some f) = p f ≡ true

due-if :
    (p : Callback → Bool) (b : Bool) (f : Callback) (o : Option Callback)
    → p f ≡ true
    → OptionCalls p o
    → OptionCalls p (if b then some f else o)
due-if p true f o h k = h
due-if p false f o h k = k

pub due-calls :
    (p : Callback → Bool) (n : TimerName) (ts : List Timer)
    → calls_all p ts ≡ true
    → OptionCalls p (due n ts)
due-calls p n [] h = tt
due-calls p n (t ∷ ts) h =
    let here = &&-left (p t.callback) (calls_all p ts) h in
    let there = &&-right (p t.callback) (calls_all p ts) h in
    due-if p (same_timer n t.name && t.pending) t.callback (due n ts) here (due-calls p n ts there)
