-- ===== src/Call/Endpoint.antt =====
-- Calls: the endpoint of a channel, which holds at most one call
-- (apps/call-core/src/call-core.js: CallEndpoint, stateLabel).
-- `said` is what the endpoint itself has sent; what its calls have sent stands in the calls.
use cads_agent_marketplace.Common.{
  Bool, List, Option, [], contains, false, if◌then◌else◌, length, list_eq, ltb, nat_eq, none, some,
  true, ℕ, ◌++◌, ◌==◌, ◌∷◌,
}
use cads_agent_marketplace.Call.Message.{
  Content, Message, Reason, Text, busy_said, busy_there, cancelled, connection_lost, declined,
  hangup_reason, invite, media_denied, no_answer, remote_hangup, ringing,
}
use cads_agent_marketplace.Call.Parse.{parse_message}
use cads_agent_marketplace.Call.Session.{
  Role, Session, State, Timing, callee, caller, calling, connected, connecting, ended, finish_with,
  idle, new_session, reconnecting, ring_timer, ringing_in, ringing_out,
}
use cads_agent_marketplace.Call.Step.{Event, receive, step}
use cads_agent_marketplace.Call.Timers.{after, dial, hangup, is_over, set_state}
use cads_agent_marketplace.Call.Values.{Value, codes}

pub record Endpoint : Type 0 where
  pub timing : Timing
  pub force_relay : Bool
  pub gives_servers : Bool
  pub relay_hosts : List Text
  pub call : Option Session
  pub ended_ids : List Text
  pub listens : Bool
  pub said : List Message

-- The constructor.
unfoldable pub new_endpoint : Timing → Bool → Bool → List Text → Endpoint
new_endpoint timing force_relay gives_servers relay_hosts = record {
  timing = timing;
  force_relay = force_relay;
  gives_servers = gives_servers;
  relay_hosts = relay_hosts;
  call = none;
  ended_ids = [];
  listens = true;
  said = [];
}

abbrev pub tell : Text → Content → Endpoint → Endpoint
tell call_id content e = record e {
  said = e.said ++ record { call_id = call_id; content = content } ∷ [];
}

-- `session`, for the options of the endpoint.
abbrev pub session : Text → Role → Bool → Endpoint → Session
session call_id role video e =
    new_session call_id e.timing e.force_relay e.gives_servers e.relay_hosts role video

-- `ended.add`, and the oldest entry goes once there are more than 64.
abbrev pub add_id : Text → List Text → List Text
add_id call_id ids = if contains ids call_id then ids else ids ++ call_id ∷ []

abbrev pub drop_oldest : List Text → List Text
drop_oldest [] = []
drop_oldest (i ∷ ids) = if ltb 64 (length (i ∷ ids)) then ids else i ∷ ids

unfoldable pub remember : Text → List Text → List Text
remember call_id ids = drop_oldest (add_id call_id ids)

-- The call has gone from one state to the next; `onEnded` ran on the way if it has a new entry.
abbrev pub settle : Session → Session → Endpoint → Endpoint
settle before next e = record e {
  call = some next;
  ended_ids =
      if ltb (length before.told) (length next.told)
      then remember next.call_id e.ended_ids
      else e.ended_ids;
}

-- `active`
abbrev pub if_active : Session → Option Session
if_active s = if is_over s then none else some s

abbrev pub active_of : Option Session → Option Session
active_of none = none
active_of (some s) = if_active s

abbrev pub active : Endpoint → Option Session
active e = active_of e.call

-- `dial`; `call_id` is the new random id.
abbrev pub dial_unless : Option Session → Text → Bool → Endpoint → Endpoint
dial_unless (some s) call_id video e = e
dial_unless none call_id video e = record e { call = some (dial (session call_id caller video e)) }

abbrev pub dial_out : Text → Bool → Endpoint → Endpoint
dial_out call_id video e = dial_unless (active e) call_id video e

-- The phone rings, until somebody answers or the time is up.
abbrev pub ring : Session → Session
ring s =
    after ring_timer s.timing.ring_timeout (finish_with no_answer false) (set_state ringing_in s)

abbrev pub ring_unless : Option Session → Text → Bool → Endpoint → Endpoint
ring_unless (some s) call_id video e = tell call_id busy_said e
ring_unless none call_id video e =
    tell call_id ringing (record e { call = some (ring (session call_id callee video e)) })

abbrev pub new_invite : Text → Bool → Endpoint → Endpoint
new_invite call_id video e =
    if contains e.ended_ids call_id then e else ring_unless (active e) call_id video e

-- A repeated invitation is confirmed as long as its call is not over.
abbrev pub invite_for : Option Session → Text → Bool → Endpoint → Endpoint
invite_for none call_id video e = new_invite call_id video e
invite_for (some s) call_id video e =
    if s.call_id == call_id
    then if is_over s then e else tell call_id ringing e
    else new_invite call_id video e

-- `onInvite`
abbrev pub on_invite : Text → Bool → Endpoint → Endpoint
on_invite call_id video e = invite_for e.call call_id video e

abbrev pub pass_on : Option Session → Message → ℕ → Endpoint → Endpoint
pass_on none m now e = e
pass_on (some s) m now e = if s.call_id == m.call_id then settle s (receive m now s) e else e

-- `handle`, for a message that has passed the check.
abbrev pub handle_content : Content → Message → ℕ → Endpoint → Endpoint
handle_content (invite video) m now e = on_invite m.call_id video e
handle_content _ m now e = pass_on e.call m now e

unfoldable pub handle : Message → ℕ → Endpoint → Endpoint
handle m now e = handle_content m.content m now e

abbrev pub handle_checked : Option Message → ℕ → Endpoint → Endpoint
handle_checked none now e = e
handle_checked (some m) now e = handle m now e

-- `handle`; nothing comes any more once the endpoint has unsubscribed.
unfoldable pub handle_raw : (Text → ℕ) → Value → ℕ → Endpoint → Endpoint
handle_raw byte_length raw now e =
    if e.listens then handle_checked (parse_message byte_length raw) now e else e

-- `close`
abbrev pub hang_up_active : Option Session → Endpoint → Endpoint
hang_up_active none e = e
hang_up_active (some s) e = settle s (hangup s) e

unfoldable pub close : Endpoint → Endpoint
close e = record (hang_up_active (active e) e) { listens = false }

-- What happens to the call otherwise: what the user does, its timers, and the replies that it awaits.
abbrev pub call_step : Option Session → Event → ℕ → Endpoint → Endpoint
call_step none x now e = e
call_step (some s) x now e = settle s (step x now s) e

pub data Input : Type 0 where
  dial_input : Text → Bool → Input
  raw_input : Value → Input
  call_input : Event → Input
  close_input : Input

unfoldable pub endpoint_step : (Text → ℕ) → Input → ℕ → Endpoint → Endpoint
endpoint_step byte_length (dial_input call_id video) now e = dial_out call_id video e
endpoint_step byte_length (raw_input raw) now e = handle_raw byte_length raw now e
endpoint_step byte_length (call_input x) now e = call_step e.call x now e
endpoint_step byte_length close_input now e = close e

unfoldable pub endpoint_run : (Text → ℕ) → List (Input × ℕ) → Endpoint → Endpoint
endpoint_run byte_length [] e = e
endpoint_run byte_length ((x, now) ∷ more) e =
    endpoint_run byte_length more (endpoint_step byte_length x now e)

-- `stateLabel`
abbrev pub end_label : Option Reason → Text
end_label none = codes "Beendet"
end_label (some declined) = codes "Abgelehnt"
end_label (some busy_there) = codes "Besetzt"
end_label (some no_answer) = codes "Keine Antwort"
end_label (some cancelled) = codes "Abgebrochen"
end_label (some media_denied) = codes "Kein Zugriff auf das Mikrofon"
end_label (some connection_lost) = codes "Verbindung verloren"
end_label (some remote_hangup) = codes "Aufgelegt"
end_label (some hangup_reason) = codes "Aufgelegt"

abbrev pub state_label : State → Option Reason → Text
state_label ended reason = end_label reason
state_label idle reason = []
state_label calling reason = codes "Verbinde …"
state_label ringing_out reason = codes "Es klingelt …"
state_label ringing_in reason = codes "Eingehender Anruf"
state_label connecting reason = codes "Verbindung wird aufgebaut …"
state_label connected reason = codes "Verbunden"
state_label reconnecting reason = codes "Verbindung wird wiederhergestellt …"
