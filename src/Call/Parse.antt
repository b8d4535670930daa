-- ===== src/Call/Parse.antt =====
-- Calls: the check of a message that has come (apps/call-core/src/protocol.js: parseMessage,
-- parseIceServers).
use cads_agent_marketplace.Common.{
  Bool, List, Option, [], false, if◌then◌else◌, length, list_eq, ltb, nat_eq, none, some, ℕ, ◌==◌,
  ◌||◌, ◌∷◌,
}
use cads_agent_marketplace.Call.Message.{
  Candidate, Content, Message, Reason, Server, Text, accepted, answer, busy_said, bye, decline_said,
  hangup_reason, ice, invite, offer, restart_asked, ringing,
}
use cads_agent_marketplace.Call.Values.{
  Items, Tag, Value, accept_tag, answer_tag, array, boolean, busy_tag, bye_tag, call_id_key,
  candidate_key, credential_key, decline_tag, epoch_key, fragment_key, ice_tag, invite_tag,
  is_call_id, is_ice_url, item, line_key, max_candidate_bytes, max_sdp_bytes, mid_key, named,
  no_items, object, offer_tag, prop, reason_key, reason_text, reasons, restart_tag, ringing_tag,
  sdp_key, servers_key, tag_text, text, type_key, types, undefined, urls_key, username_key, v_key,
  video_key, whole,
}
use cads_agent_marketplace.Common.Int.{pos, ℤ}

-- `[].concat(x)`
abbrev pub items : Items → List Value
items no_items = []
items (item x xs) = x ∷ items xs

abbrev pub concat_of : Value → List Value
concat_of (array xs) = items xs
concat_of x = x ∷ []

abbrev pub url_of : Value → Option Text
url_of (text u) = if is_ice_url u then some u else none
url_of _ = none

module _ {A B : Type 0} where
  infixl 15 ◌>>=◌
  abbrev pub ◌>>=◌ : Option A → (A → Option B) → Option B
  none >>= f = none
  (some a) >>= f = f a

module _ {A B : Type 0} where
  -- Every entry has a value, or the list has none.
  unfoldable pub all_some : (A → Option B) → List A → Option (List B)
  all_some f [] = some []
  all_some f (x ∷ xs) = do y ← f x; ys ← all_some f xs; some (y ∷ ys)

unfoldable pub urls_of : Value → Option (List Text)
urls_of x =
    let urls = concat_of x in
    if length urls == 0 || ltb 4 (length urls) then none else all_some url_of urls

-- A property that may be missing, but is a text where it is not.
abbrev pub maybe_text : Value → Option (Option Text)
maybe_text undefined = some none
maybe_text (text t) = some (some t)
maybe_text _ = none

unfoldable pub server_of : Value → Option Server
server_of s = do
  urls ← urls_of (prop urls_key s)
  username ← maybe_text (prop username_key s)
  credential ← maybe_text (prop credential_key s)
  some (record { urls = urls; username = username; credential = credential })

-- `parseIceServers`
abbrev pub servers_of : Value → Option (List Server)
servers_of (array xs) = if ltb 4 (length (items xs)) then none else all_some server_of (items xs)
servers_of _ = none

-- An epoch of the peer: a whole number that is not negative.
abbrev pub epoch_of : Value → Option ℕ
epoch_of (whole (pos n)) = some n
epoch_of _ = none

-- `x === true`
abbrev pub is_true : Value → Bool
is_true (boolean b) = b
is_true _ = false

abbrev pub text_or_null : Value → Option Text
text_or_null (text t) = some t
text_or_null _ = none

abbrev pub whole_or_null : Value → Option ℤ
whole_or_null (whole n) = some n
whole_or_null _ = none

-- `REASONS.has(m.reason) ? m.reason : 'hangup'`
abbrev pub reason_or : Option Reason → Reason
reason_or none = hangup_reason
reason_or (some r) = r

unfoldable pub reason_of : Value → Reason
unfolding named
reason_of (text t) = reason_or (named reason_text reasons t)
reason_of _ = hangup_reason

unfoldable pub tag_of : Value → Option Tag
unfolding named
tag_of (text t) = named tag_text types t
tag_of _ = none

-- `m.v !== PROTOCOL_VERSION`
abbrev pub is_version : Value → Bool
is_version (whole (pos n)) = n == 1
is_version _ = false

abbrev pub call_id_of : Value → Option Text
call_id_of (text t) = if is_call_id t then some t else none
call_id_of _ = none

-- `byteLength` asks the browser's TextEncoder for the bytes of a text.
module _ (byte_length : Text → ℕ) where
  abbrev pub sdp_of : Value → Option Text
  sdp_of (text []) = none
  sdp_of (text (c ∷ cs)) = if ltb max_sdp_bytes (byte_length (c ∷ cs)) then none else some (c ∷ cs)
  sdp_of _ = none

  abbrev pub candidate_text_of : Value → Option Text
  candidate_text_of (text t) = if ltb max_candidate_bytes (byte_length t) then none else some t
  candidate_text_of _ = none

  -- What is no object has no `candidate` either, and is refused for that.
  unfoldable pub candidate_of : Value → Option Candidate
  candidate_of c = do
    t ← candidate_text_of (prop candidate_key c)
    some (record {
      candidate = t;
      sdp_mid = text_or_null (prop mid_key c);
      sdp_line = whole_or_null (prop line_key c);
      fragment = text_or_null (prop fragment_key c);
    })

  unfoldable pub content_of : Tag → Value → Option Content
  content_of invite_tag m = some (invite (is_true (prop video_key m)))
  content_of accept_tag m = some (accepted (is_true (prop video_key m)))
  content_of offer_tag m = do
    epoch ← epoch_of (prop epoch_key m)
    sdp ← sdp_of (prop sdp_key m)
    some (offer epoch sdp (servers_of (prop servers_key m)))
  content_of answer_tag m = do
    epoch ← epoch_of (prop epoch_key m)
    sdp ← sdp_of (prop sdp_key m)
    some (answer epoch sdp (servers_of (prop servers_key m)))
  content_of ice_tag m = do
    epoch ← epoch_of (prop epoch_key m)
    c ← candidate_of (prop candidate_key m)
    some (ice epoch c)
  content_of restart_tag m = do epoch ← epoch_of (prop epoch_key m); some (restart_asked epoch)
  content_of bye_tag m = some (bye (reason_of (prop reason_key m)))
  content_of ringing_tag m = some ringing
  content_of decline_tag m = some decline_said
  content_of busy_tag m = some busy_said

  -- The part of `parseMessage` after its first line, which refuses what is no object.
  unfoldable pub checked : Value → Option Message
  checked m =
      if is_version (prop v_key m)
      then (do
        tag ← tag_of (prop type_key m)
        call_id ← call_id_of (prop call_id_key m)
        content ← content_of tag m
        some (record { call_id = call_id; content = content }))
      else none

  -- `parseMessage`
  unfoldable pub parse_message : Value → Option Message
  parse_message (object f) = checked (object f)
  parse_message _ = none
