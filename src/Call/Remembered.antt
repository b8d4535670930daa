-- ===== src/Call/Remembered.antt =====
-- Calls: what one input does to the calls that an endpoint remembers
-- (apps/call-core/src/call-core.js: CallEndpoint).
-- A property of the remembered calls that holds before an input, and with one more call too, holds
-- after the input: an input ends at most one call.
use cads_agent_marketplace.Common.{
  Bool, List, Option, contains, false, if◌then◌else◌, length, list_eq, ltb, nat_eq, none, some,
  true, ℕ, ◌==◌,
}
use cads_agent_marketplace.Call.Endpoint.{
  Endpoint, Input, active, call_input, call_step, close, close_input, dial_input, dial_unless,
  endpoint_step, handle, handle_checked, handle_content, handle_raw, hang_up_active, invite_for,
  new_invite, pass_on, raw_input, remember, ring_unless, settle, tell,
}
use cads_agent_marketplace.Call.Message.{Content, Message, Text, invite, ringing}
use cads_agent_marketplace.Call.Parse.{parse_message}
use cads_agent_marketplace.Call.Session.{Session}
use cads_agent_marketplace.Call.Step.{Event, receive, step}
use cads_agent_marketplace.Call.Timers.{hangup, is_over}

module _ (Q : List Text → Type 0) where
  abbrev Holds : Endpoint → Type 0
  Holds e = Q e.ended_ids

  abbrev HoldsNext : Endpoint → Type 0
  HoldsNext e = Q e.ended_ids × ((i : Text) → Q (remember i e.ended_ids))

  Holds-if : (b : Bool) (e f : Endpoint) → Holds e → Holds f → Holds (if b then e else f)
  Holds-if true e f h k = h
  Holds-if false e f h k = k

  settle-ids : (s t : Session) (e : Endpoint) → HoldsNext e → Holds (settle s t e)
  settle-ids s t e h = ids_of (ltb (length s.told) (length t.told))
    where
      ids_of : (b : Bool) → Q (if b then remember t.call_id e.ended_ids else e.ended_ids)
      ids_of true = h.1 t.call_id
      ids_of false = h.0

  ring-ids :
      (o : Option Session) (i : Text) (v : Bool) (e : Endpoint)
      → Holds e
      → Holds (ring_unless o i v e)
  ring-ids none i v e h = h
  ring-ids (some s) i v e h = h

  new_invite-ids : (i : Text) (v : Bool) (e : Endpoint) → Holds e → Holds (new_invite i v e)
  new_invite-ids i v e h =
      Holds-if (contains e.ended_ids i) e (ring_unless (active e) i v e) h
        (ring-ids (active e) i v e h)

  invite-ids :
      (o : Option Session) (i : Text) (v : Bool) (e : Endpoint)
      → Holds e
      → Holds (invite_for o i v e)
  invite-ids none i v e h = new_invite-ids i v e h
  invite-ids (some s) i v e h =
      Holds-if (s.call_id == i) _ (new_invite i v e) (Holds-if (is_over s) e (tell i ringing e) h h)
        (new_invite-ids i v e h)

  pass_on-ids :
      (o : Option Session) (m : Message) (now : ℕ) (e : Endpoint)
      → HoldsNext e
      → Holds (pass_on o m now e)
  pass_on-ids none m now e h = h.0
  pass_on-ids (some s) m now e h =
      Holds-if (s.call_id == m.call_id) _ e (settle-ids s (receive m now s) e h) h.0

  content-ids :
      (c : Content) (m : Message) (now : ℕ) (e : Endpoint)
      → HoldsNext e
      → Holds (handle_content c m now e)
  content-ids (invite video) m now e h = invite-ids e.call m.call_id video e h.0
  content-ids _ m now e h = pass_on-ids e.call m now e h

  checked-ids :
      (o : Option Message) (now : ℕ) (e : Endpoint) → HoldsNext e → Holds (handle_checked o now e)
  unfolding handle
  checked-ids none now e h = h.0
  checked-ids (some m) now e h = content-ids m.content m now e h

  call_step-ids :
      (o : Option Session) (x : Event) (now : ℕ) (e : Endpoint)
      → HoldsNext e
      → Holds (call_step o x now e)
  call_step-ids none x now e h = h.0
  call_step-ids (some s) x now e h = settle-ids s (step x now s) e h

  dial-ids :
      (o : Option Session) (i : Text) (v : Bool) (e : Endpoint)
      → Holds e
      → Holds (dial_unless o i v e)
  dial-ids none i v e h = h
  dial-ids (some s) i v e h = h

  hang_up-ids : (o : Option Session) (e : Endpoint) → HoldsNext e → Holds (hang_up_active o e)
  hang_up-ids none e h = h.0
  hang_up-ids (some s) e h = settle-ids s (hangup s) e h

  pub endpoint_step-ids :
      (byte_length : Text → ℕ) (x : Input) (now : ℕ) (e : Endpoint)
      → HoldsNext e
      → Holds (endpoint_step byte_length x now e)
  unfolding endpoint_step handle_raw close
  endpoint_step-ids byte_length (dial_input i video) now e h = dial-ids (active e) i video e h.0
  endpoint_step-ids byte_length (raw_input raw) now e h =
      Holds-if e.listens _ e (checked-ids (parse_message byte_length raw) now e h) h.0
  endpoint_step-ids byte_length (call_input x) now e h = call_step-ids e.call x now e h
  endpoint_step-ids byte_length close_input now e h = hang_up-ids (active e) e h
