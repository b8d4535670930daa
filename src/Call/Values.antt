-- ===== src/Call/Values.antt =====
-- Calls: the values that a message is made of, and the names that it may hold
-- (apps/call-core/src/protocol.js: MAX_SDP_BYTES, MAX_CANDIDATE_BYTES, TYPES, REASONS, CALL_ID).
use Prim.Native.Char.{code}
use Prim.Native.String.{String}
-- The properties that the check reads.
use cads_agent_marketplace.Common.{
  Bool, List, Option, [], all, false, if◌then◌else◌, leb, length, list_eq, ltb, nat_eq, none, some,
  true, ℕ, ◌&&◌, ◌*◌, ◌==◌, ◌||◌, ◌∷◌,
}
use cads_agent_marketplace.Call.Message.{
  Reason, Text, busy_there, cancelled, connection_lost, declined, hangup_reason, media_denied,
  no_answer, remote_hangup,
}
use cads_agent_marketplace.Common.Int.{ℤ}

pub data Key : Type 0 where
  v_key type_key call_id_key video_key epoch_key sdp_key servers_key candidate_key : Key
  mid_key line_key fragment_key reason_key urls_key username_key credential_key : Key

-- A value of JavaScript: an object is given by its properties, `undefined` where it has none.
mutual
  pub data Value : Type 0 where
    undefined null other_number : Value
    boolean : Bool → Value
    whole : ℤ → Value
    text : Text → Value
    array : Items → Value
    object : (Key → Value) → Value

  pub data Items : Type 0 where
    no_items : Items
    item : Value → Items → Items

abbrev pub codes : String → Text
codes String.[] = []
codes (String.◌∷◌ c s) = code c ∷ codes s

-- `x[k]`, and `x?.[k]` of what has no properties.
abbrev pub prop : Key → Value → Value
prop k (object f) = f k
prop k _ = undefined

abbrev pub max_sdp_bytes : ℕ
max_sdp_bytes = 32 * 1024

abbrev pub max_candidate_bytes : ℕ
max_candidate_bytes = 2 * 1024

pub data Tag : Type 0 where
  invite_tag ringing_tag accept_tag decline_tag busy_tag offer_tag answer_tag ice_tag : Tag
  restart_tag bye_tag : Tag

abbrev pub tag_text : Tag → Text
tag_text invite_tag = codes "call.invite"
tag_text ringing_tag = codes "call.ringing"
tag_text accept_tag = codes "call.accept"
tag_text decline_tag = codes "call.decline"
tag_text busy_tag = codes "call.busy"
tag_text offer_tag = codes "call.offer"
tag_text answer_tag = codes "call.answer"
tag_text ice_tag = codes "call.ice"
tag_text restart_tag = codes "call.restart"
tag_text bye_tag = codes "call.bye"

-- `TYPES`
abbrev pub types : List Tag
types =
    invite_tag ∷ ringing_tag ∷ accept_tag ∷ decline_tag ∷ busy_tag ∷ offer_tag ∷ answer_tag
    ∷ ice_tag ∷ restart_tag ∷ bye_tag ∷ []

abbrev pub reason_text : Reason → Text
reason_text hangup_reason = codes "hangup"
reason_text media_denied = codes "media-denied"
reason_text no_answer = codes "no-answer"
reason_text connection_lost = codes "connection-lost"
reason_text cancelled = codes "cancelled"
reason_text declined = codes "declined"
reason_text busy_there = codes "busy"
reason_text remote_hangup = codes "remote-hangup"

-- `REASONS`
abbrev pub reasons : List Reason
reasons = hangup_reason ∷ media_denied ∷ no_answer ∷ connection_lost ∷ cancelled ∷ []

-- The entry of a list whose name is the text.
module _ {A : Type 0} where
  unfoldable pub named : (A → Text) → List A → Text → Option A
  named f [] t = none
  named f (x ∷ xs) t = if f x == t then some x else named f xs t

-- `/^[A-Za-z0-9_-]{8,64}$/`
abbrev pub is_id_char : ℕ → Bool
is_id_char c =
    (leb b'A' c && leb c b'Z')
    || ((leb b'a' c && leb c b'z') || ((leb b'0' c && leb c b'9') || (c == b'_' || c == b'-')))

abbrev pub is_call_id : Text → Bool
is_call_id t = all is_id_char t && (leb 8 (length t) && leb (length t) 64)

abbrev pub starts_with : Text → Text → Bool
starts_with [] t = true
starts_with (p ∷ ps) [] = false
starts_with (p ∷ ps) (c ∷ cs) = p == c && starts_with ps cs

-- `u.length < 256 && /^(stun|turn|turns):/.test(u)`
abbrev pub is_ice_url : Text → Bool
is_ice_url u =
    ltb (length u) 256
    && (starts_with (codes "stun:") u
        || (starts_with (codes "turn:") u || starts_with (codes "turns:") u))
