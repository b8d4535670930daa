-- ===== src/Call/Message.antt =====
-- Calls: the messages of a call, once they are checked (apps/call-core/src/protocol.js: parseMessage).
use cads_agent_marketplace.Common.{
  Bool, List, Option, [], false, if◌then◌else◌, leb, list_eq, map, nat_eq, true, ℕ, ◌&&◌, ◌+◌, ◌==◌,
  ◌||◌, ◌∷◌,
}
use cads_agent_marketplace.Common.Int.{ℤ}

-- A text is the list of its character codes (the UTF-16 code units of a JavaScript string).
abbrev pub Text : Type 0
Text = List ℕ

pub data Reason : Type 0 where
  hangup_reason media_denied no_answer connection_lost cancelled : Reason
  declined busy_there remote_hangup : Reason

-- A relay or address server (RTCIceServer).
pub record Server : Type 0 where
  pub urls : List Text
  pub username : Option Text
  pub credential : Option Text

-- A network candidate (RTCIceCandidateInit).
pub record Candidate : Type 0 where
  pub candidate : Text
  pub sdp_mid : Option Text
  pub sdp_line : Option ℤ
  pub fragment : Option Text

-- What a message says, without the version and the call's id.
pub data Content : Type 0 where
  invite accepted : Bool → Content
  ringing decline_said busy_said : Content
  offer : ℕ → Text → Option (List Server) → Content
  answer : ℕ → Text → Option (List Server) → Content
  ice : ℕ → Candidate → Content
  restart_asked : ℕ → Content
  bye : Reason → Content

pub record Message : Type 0 where
  pub call_id : Text
  pub content : Content

abbrev pub colon : ℕ
colon = b':'

abbrev pub question : ℕ
question = b'?'

abbrev pub is_lower : ℕ → Bool
is_lower c = leb b'a' c && leb c b'z'

-- `url.replace(/^[a-z]+:/, '')`: the part after the scheme, or all of it without one.
abbrev pub strip_scheme : Bool → Text → Text → Text
strip_scheme seen whole [] = whole
strip_scheme seen whole (c ∷ cs) =
    let rest = strip_scheme true whole cs in
    if is_lower c then rest else if seen && c == colon then cs else whole

abbrev pub up_to_port : Text → Text
up_to_port [] = []
up_to_port (c ∷ cs) =
    let rest = up_to_port cs in if c == colon || c == question then [] else c ∷ rest

abbrev pub to_lower : ℕ → ℕ
to_lower c = if leb b'A' c && leb c b'Z' then c + 32 else c

abbrev pub lower_case : Text → Text
lower_case = map to_lower

-- `iceUrlHost`, for a url of ASCII characters.
unfoldable pub ice_url_host : Text → Text
ice_url_host url = lower_case (up_to_port (strip_scheme false url url))
