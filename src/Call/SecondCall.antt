-- ===== src/Call/SecondCall.antt =====
-- Calls: a call beside the one that is active
-- (apps/call-core/src/call-core.js: CallEndpoint's dial, handle, onInvite).
use mathlib.Core.Option.{some-injective}
use mathlib.Core.Path.{subst}
use cads_agent_marketplace.Common.{
  Bool, Option, ap, contains, false, if◌then◌else◌, list_eq, nat_eq, none, refl, some, true, ℕ,
  ◌==◌, ◌∙◌, ◌≡◌,
}
use cads_agent_marketplace.Call.Endpoint.{
  Endpoint, active, active_of, dial_out, dial_unless, handle, handle_content, invite_for,
  new_invite, on_invite, pass_on, ring_unless, settle, tell,
}
use cads_agent_marketplace.Call.Message.{Content, Message, Text, busy_said, invite, ringing}
use cads_agent_marketplace.Call.Session.{Session}
use cads_agent_marketplace.Call.Step.{receive}
use cads_agent_marketplace.Call.Timers.{is_over}

abbrev pub IsActive : Session → Option Session → Type 0
IsActive c o = (o ≡ some c) × (is_over c ≡ false)

session-IsActive :
    (s c : Session) (b : Bool)
    → is_over s ≡ b
    → (if b then none else some s) ≡ some c
    → IsActive c (some s)
session-IsActive s c true over h = cc
session-IsActive s c false over h = (h, subst (λ t. is_over t ≡ false) (some-injective s c h) over)

pub call-IsActive : (o : Option Session) (c : Session) → active_of o ≡ some c → IsActive c o
call-IsActive none c h = cc
call-IsActive (some s) c h = session-IsActive s c (is_over s) refl h

-- The answer to another call: a new invitation is told that the line is busy.
abbrev pub answer_busy : Content → Message → Endpoint → Endpoint
answer_busy (invite video) m e =
    if contains e.ended_ids m.call_id then e else tell m.call_id busy_said e
answer_busy _ m e = e

other_invite :
    (m : Message) (video : Bool) (e : Endpoint) (c : Session)
    → IsActive c e.call
    → active e ≡ some c
    → (c.call_id == m.call_id) ≡ false
    → on_invite m.call_id video e ≡ answer_busy (invite video) m e
other_invite m video e c (call, alive) active_call other =
    ap (λ o. invite_for o m.call_id video e) call
    ∙ (ap
          (λ b.
            if b
            then (if is_over c then e else tell m.call_id ringing e)
            else new_invite m.call_id video e)
          other
        ∙ ap (λ o. if contains e.ended_ids m.call_id then e else ring_unless o m.call_id video e)
            active_call)

other_content :
    (x : Content) (m : Message) (now : ℕ) (e : Endpoint) (c : Session)
    → IsActive c e.call
    → active e ≡ some c
    → (c.call_id == m.call_id) ≡ false
    → handle_content x m now e ≡ answer_busy x m e
other_content (invite video) m now e c is_active active_call other =
    other_invite m video e c is_active active_call other
other_content _ m now e c (call, alive) active_call other =
    ap (λ o. pass_on o m now e) call ∙ ap (λ b. if b then settle c (receive m now c) e else e) other

-- While a call is active, a message of another call changes neither the call nor what is remembered:
-- a new invitation is answered that the line is busy, an invitation to a call that is over and every
-- other message is dropped. To dial changes nothing at all.
pub handle-busy :
    (m : Message) (now : ℕ) (e : Endpoint) (c : Session)
    → active e ≡ some c
    → (c.call_id == m.call_id) ≡ false
    → (handle m now e ≡ answer_busy m.content m e)
      × ((call_id : Text) (video : Bool) → dial_out call_id video e ≡ e)
unfolding handle
handle-busy m now e c h other = (
  other_content m.content m now e c (call-IsActive e.call c h) h other,
  λ call_id video. ap (λ o. dial_unless o call_id video e) h,
)
