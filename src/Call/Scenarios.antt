-- ===== src/Call/Scenarios.antt =====
-- Calls: concrete histories (apps/call-core/src/call-core.js, apps/call-core/src/protocol.js).
use cads_agent_marketplace.Common.{
  Bool, List, [], arith, false, length, none, refl, some, true, ℕ, ◌<◌, ◌∷◌, ◌≡◌,
}
use cads_agent_marketplace.Call.Answer.{flush, flush_from, on_ice}
use cads_agent_marketplace.Call.Bounds.{parse_message-bounds}
use cads_agent_marketplace.Call.Encode.{encode, is_sound}
use cads_agent_marketplace.Call.Ended.{face}
use cads_agent_marketplace.Call.Endpoint.{
  Endpoint, Input, active, close, close_input, dial_input, dial_out, endpoint_run, endpoint_step,
  handle, new_endpoint, on_invite, remember, settle,
}
use cads_agent_marketplace.Call.History.{run-Rises}
use cads_agent_marketplace.Call.Late.{count_ends, on_invite-late}
use cads_agent_marketplace.Call.Message.{
  Content, Message, Server, Text, accepted, bye, cancelled, ice_url_host, invite, offer, ringing,
}
use cads_agent_marketplace.Call.Microphone.{run-no_microphone}
use cads_agent_marketplace.Call.OneCall.{IsTidy, endpoint_run-IsTidy}
use cads_agent_marketplace.Call.Order.{Rises}
use cads_agent_marketplace.Call.Parse.{
  all_some, checked, content_of, parse_message, server_of, tag_of, urls_of,
}
use cads_agent_marketplace.Call.RoundTrip.{parse_message-encode}
use cads_agent_marketplace.Call.SecondCall.{answer_busy, handle-busy}
use cads_agent_marketplace.Call.Session.{
  Session, caller, connect_timer, connecting, default_timing, ended, new_session,
}
use cads_agent_marketplace.Call.Silence.{finish-run}
use cads_agent_marketplace.Call.Step.{
  Event, begin_event, hangup_event, media_given, message_event, reply_event, run, servers_given,
  step,
}
use cads_agent_marketplace.Call.Timers.{dial, finish, has_timer}
use cads_agent_marketplace.Call.Values.{codes, named}

abbrev call_name : Text
call_name = codes "0123456789abcdef"

abbrev other_name : Text
other_name = codes "fedcba9876543210"

abbrev outgoing : Session
outgoing = dial (new_session call_name default_timing false false [] caller true)

abbrev message : Content → Message
message c = record { call_id = call_name; content = c }

-- The other side rings, accepts, and the microphone is opened.
abbrev setting_up : List (Event × ℕ)
setting_up =
    (message_event (message ringing), 100)
    ∷ (message_event (message (accepted true)), 200)
    ∷ (begin_event, 201)
    ∷ (reply_event media_given, 300)
    ∷ (reply_event (servers_given none), 400)
    ∷ []

set_up_state : (run setting_up outgoing).state ≡ connecting
unfolding run step new_session flush on_ice flush_from
set_up_state = refl

set_up_media : (run setting_up outgoing).local_stream ≡ true
unfolding run step new_session flush on_ice flush_from
set_up_media = refl

-- The first address is a relay's.
abbrev relay : Server
relay = record {
  urls = codes "turn:relay.example:3478" ∷ [];
  username = some (codes "u");
  credential = none;
}

abbrev an_offer_message : Message
an_offer_message = message (offer 2 (codes "v=0") (some (relay ∷ [])))

relay_host : ice_url_host (codes "turn:Relay.example:3478") ≡ codes "relay.example"
unfolding ice_url_host
relay_host = refl

too_long :
    parse_message length (encode (record { call_id = codes "short"; content = ringing })) ≡ none
unfolding parse_message checked encode tag_of named
too_long = refl

finish-run_example : face (run setting_up (finish cancelled true outgoing)) ≡ record {
  state = ended;
  pc = none;
  local_stream = false;
  end_reason = some cancelled;
  sent = invite true ∷ bye cancelled ∷ [];
  told = cancelled ∷ [];
}
unfolding new_session
finish-run_example = finish-run setting_up cancelled true outgoing refl

run-Rises_example : Rises outgoing (run setting_up outgoing)
run-Rises_example = run-Rises setting_up outgoing

parse_message-encode_example :
    parse_message length (encode an_offer_message) ≡ some an_offer_message
unfolding is_sound
parse_message-encode_example = parse_message-encode length an_offer_message refl

parse_message-bounds_example : is_sound length an_offer_message ≡ true
unfolding parse_message checked encode tag_of named content_of urls_of server_of all_some
parse_message-bounds_example =
    parse_message-bounds length (encode an_offer_message) an_offer_message refl

abbrev fresh : Endpoint
fresh = new_endpoint default_timing false false []

abbrev in_call : Endpoint
in_call = record fresh { call = some outgoing }

endpoint_run-IsTidy_example :
    IsTidy
      (endpoint_run length ((dial_input call_name true, 0) ∷ (close_input, 5) ∷ []) fresh).ended_ids
endpoint_run-IsTidy_example =
    endpoint_run-IsTidy length ((dial_input call_name true, 0) ∷ (close_input, 5) ∷ [])
      default_timing false false []

handle-busy_example :
    (handle (record { call_id = other_name; content = invite false }) 7 in_call
      ≡ answer_busy
          (invite false)
          (record { call_id = other_name; content = invite false })
          in_call)
    × ((call_id : Text) (video : Bool) → dial_out call_id video in_call ≡ in_call)
unfolding new_session new_endpoint
handle-busy_example =
    handle-busy (record { call_id = other_name; content = invite false }) 7 in_call outgoing refl
      refl

-- In between, the user dials and hangs up again: that call ends too.
abbrev meanwhile : List (Input × ℕ)
meanwhile = (dial_input other_name true, 0) ∷ (close_input, 5) ∷ []

active-outgoing : active in_call ≡ some outgoing
unfolding new_session new_endpoint
active-outgoing = refl

one_end :
    count_ends length meanwhile (settle outgoing (finish cancelled true outgoing) in_call) < 64
unfolding new_session new_endpoint endpoint_step remember close
one_end = omega arith

on_invite-late_example :
    let f =
      endpoint_run length meanwhile (settle outgoing (finish cancelled true outgoing) in_call) in
    (on_invite call_name true f).call ≡ f.call
unfolding new_endpoint new_session
on_invite-late_example =
    on_invite-late length cancelled true true outgoing in_call meanwhile active-outgoing refl
      one_end

-- A call that is hung up while the servers for the other side are fetched: a timer is set after the end.
abbrev giving : Session
giving = dial (new_session call_name default_timing false true [] caller true)

abbrev hung_up_early : List (Event × ℕ)
hung_up_early =
    (message_event (message (accepted true)), 200)
    ∷ (begin_event, 201)
    ∷ (reply_event media_given, 300)
    ∷ (reply_event (servers_given none), 400)
    ∷ (hangup_event, 450)
    ∷ (reply_event (servers_given none), 500)
    ∷ []

late_timer : has_timer connect_timer (run hung_up_early giving).timers ≡ true
unfolding run step new_session flush on_ice flush_from
late_timer = refl

late_end : (run hung_up_early giving).state ≡ ended
unfolding run step new_session flush on_ice flush_from
late_end = refl

-- The other side sends an offer and a candidate before the call is accepted.
abbrev ringing_only : List (Event × ℕ)
ringing_only =
    (message_event (message ringing), 100)
    ∷ (message_event (message (offer 0 (codes "v=0") none)), 150)
    ∷ (begin_event, 151)
    ∷ (reply_event media_given, 160)
    ∷ []

run-no_microphone_example :
    ((run ringing_only outgoing).local_stream ≡ false) × ((run ringing_only outgoing).pc ≡ none)
unfolding run step new_session flush on_ice flush_from
run-no_microphone_example =
    run-no_microphone ringing_only outgoing (refl, (refl, (refl, refl))) refl
