-- ===== src/Call/Session.antt =====
-- Calls: the state of a call (apps/call-core/src/call-core.js: State, DEFAULT_TIMING, CallSession's
-- constructor).
use cads_agent_marketplace.Common.{Bool, List, Option, [], false, map, none, ℕ, ◌∷◌}
use cads_agent_marketplace.Call.Message.{Candidate, Content, Reason, Server, Text, lower_case}

pub data State : Type 0 where
  idle calling ringing_out ringing_in connecting connected reconnecting ended : State

pub data Role : Type 0 where
  caller callee : Role

-- `DEFAULT_TIMING`, all in milliseconds.
pub record Timing : Type 0 where
  pub signal_retry : ℕ
  pub ice_fetch_timeout : ℕ
  pub min_epoch_gap : ℕ
  pub ring_timeout : ℕ
  pub connect_timeout : ℕ
  pub disconnect_grace : ℕ
  pub reconnect_window : ℕ
  pub restart_backoff : List ℕ
  pub stats_interval : ℕ
  pub media_stall : ℕ

abbrev pub default_timing : Timing
default_timing = record {
  signal_retry = 3000;
  ice_fetch_timeout = 5000;
  min_epoch_gap = 15000;
  ring_timeout = 45000;
  connect_timeout = 12000;
  disconnect_grace = 1500;
  reconnect_window = 60000;
  restart_backoff = 0 ∷ 4000 ∷ 8000 ∷ 15000 ∷ [];
  stats_interval = 1000;
  media_stall = 4000;
}

-- What the peer connection of the browser reports: RTCPeerConnection is not code of the repository.
pub data Signaling : Type 0 where
  stable have_local_offer other_signaling : Signaling

pub data Connection : Type 0 where
  is_connected is_failed is_disconnected other_connection : Connection

pub data Kind : Type 0 where
  an_offer an_answer : Kind

pub record Description : Type 0 where
  pub kind : Kind
  pub sdp : Text

pub record Seen : Type 0 where
  pub signaling : Signaling
  pub connection : Connection
  pub local : Option Description
  pub has_remote : Bool

-- The configuration that it was given: its servers, and whether only relays may be used.
pub record Config : Type 0 where
  pub servers : List Server
  pub relay : Bool

pub record Peer : Type 0 where
  pub config : Config
  pub seen : Seen

-- The names of the timers, and what each of them calls when it fires.
pub data TimerName : Type 0 where
  invite_timer ring_timer offer_timer connect_timer grace_timer : TimerName
  window_timer restart_timer stats_timer : TimerName

pub data Callback : Type 0 where
  send_invite watch_media ask_restart : Callback
  finish_with : Reason → Bool → Callback
  link_lost_callback : Callback
  send_offer : ℕ → Option (List Server) → Callback
  restart_due restart_again : Callback

-- A timeout fires once, and stays in the map; an interval fires again and again.
pub record Timer : Type 0 where
  pub name : TimerName
  pub ms : ℕ
  pub repeats : Bool
  pub pending : Bool
  pub callback : Callback

-- Who waits for the media: `accept` of the callee, or `onAccepted` of the caller.
pub data Purpose : Type 0 where
  to_accept to_offer : Purpose

-- An offer of the first set-up, after which a timer is set, or one that restarts the connection.
pub data Round : Type 0 where
  first_round restart_round : Round

pub record IceMessage : Type 0 where
  pub epoch : ℕ
  pub candidate : Candidate

pub record OfferMessage : Type 0 where
  pub epoch : ℕ
  pub sdp : Text
  pub servers : Option (List Server)

-- A function that `enqueue` holds back until those before it are done.
pub data Task : Type 0 where
  prepare_task : Purpose → Task
  offer_task : OfferMessage → Task
  answer_task : ℕ → Text → Task
  ice_task : IceMessage → Task
  restart_task : Task

-- What a flush of held candidates goes on with.
pub data Then : Type 0 where
  then_answer : OfferMessage → Then
  then_done : Then

-- Where the running task awaits a promise of the browser or of a server.
pub data Wait : Type 0 where
  for_media for_servers : Purpose → Wait
  for_rollback for_peer_servers : Round → Wait
  for_offer for_local_offer : Round → Option (List Server) → Wait
  for_offer_servers for_remote_offer for_answer for_local_answer : OfferMessage → Wait
  for_candidate : List IceMessage → Then → Wait
  for_remote_answer for_restart_servers : Wait

pub record Session : Type 0 where
  pub call_id : Text
  pub timing : Timing
  pub force_relay : Bool
  pub gives_servers : Bool
  pub relay_hosts : List Text
  pub role : Role
  pub video : Bool
  pub state : State
  pub end_reason : Option Reason
  pub error : Option Text
  pub pc : Option Peer
  pub local_stream : Bool
  pub epoch : ℕ
  pub answered : Option ℕ
  pub held : List IceMessage
  pub timers : List Timer
  pub queue : List Task
  pub running : Option Wait
  pub samples : ℕ
  pub muted : Bool
  pub relay_only : Bool
  pub restart_attempt : ℕ
  pub reconnect_started : Option ℕ
  pub last_packets : ℕ
  pub last_packets_at : ℕ
  pub reconnects : ℕ
  pub turn_available : Option Bool
  pub last_offer_at : ℕ
  pub epoch_at_loss : ℕ
  -- what the session has done: the messages sent, and the reasons that `onEnded` was called with
  pub sent : List Content
  pub told : List Reason

-- The constructor.
unfoldable pub new_session : Text → Timing → Bool → Bool → List Text → Role → Bool → Session
new_session call_id timing force_relay gives_servers relay_hosts role video = record {
  call_id = call_id;
  timing = timing;
  force_relay = force_relay;
  gives_servers = gives_servers;
  relay_hosts = map lower_case relay_hosts;
  role = role;
  video = video;
  state = idle;
  end_reason = none;
  error = none;
  pc = none;
  local_stream = false;
  epoch = 0;
  answered = none;
  held = [];
  timers = [];
  queue = [];
  running = none;
  samples = 0;
  muted = false;
  relay_only = force_relay;
  restart_attempt = 0;
  reconnect_started = none;
  last_packets = 0;
  last_packets_at = 0;
  reconnects = 0;
  turn_available = none;
  last_offer_at = 0;
  epoch_at_loss = 0;
  sent = [];
  told = [];
}
