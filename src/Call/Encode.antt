-- ===== src/Call/Encode.antt =====
-- Calls: a message as it is sent (apps/call-core/src/call-core.js: the constructor's `send` and the
-- objects given to it), and the bounds of protocol.js.
-- An object of the source that leaves a property out when it is `undefined`.
use cads_agent_marketplace.Common.{
  Bool, List, Option, [], all, false, leb, length, ltb, none, some, true, ℕ, ◌&&◌, ◌∷◌,
}
use cads_agent_marketplace.Call.Message.{
  Candidate, Content, Message, Reason, Server, Text, accepted, answer, busy_said, busy_there, bye,
  decline_said, declined, ice, invite, offer, remote_hangup, restart_asked, ringing,
}
use cads_agent_marketplace.Call.Values.{
  Items, Key, Tag, Value, accept_tag, answer_tag, array, boolean, busy_tag, bye_tag, call_id_key,
  candidate_key, credential_key, decline_tag, epoch_key, fragment_key, ice_tag, invite_tag,
  is_call_id, is_ice_url, item, line_key, max_candidate_bytes, max_sdp_bytes, mid_key, no_items,
  null, object, offer_tag, reason_key, reason_text, restart_tag, ringing_tag, sdp_key, servers_key,
  tag_text, text, type_key, undefined, urls_key, username_key, v_key, video_key, whole,
}
use cads_agent_marketplace.Common.Int.{pos, ℤ}

abbrev pub maybe_value : Option Text → Value
maybe_value none = undefined
maybe_value (some t) = text t

abbrev pub text_value : Option Text → Value
text_value none = null
text_value (some t) = text t

abbrev pub whole_value : Option ℤ → Value
whole_value none = null
whole_value (some n) = whole n

abbrev pub text_items : List Text → Items
text_items [] = no_items
text_items (t ∷ ts) = item (text t) (text_items ts)

abbrev pub server_prop : Server → Key → Value
server_prop v urls_key = array (text_items v.urls)
server_prop v username_key = maybe_value v.username
server_prop v credential_key = maybe_value v.credential
server_prop v _ = undefined

abbrev pub server_items : List Server → Items
server_items [] = no_items
server_items (v ∷ vs) = item (object (server_prop v)) (server_items vs)

abbrev pub servers_value : Option (List Server) → Value
servers_value none = undefined
servers_value (some vs) = array (server_items vs)

abbrev pub candidate_prop : Candidate → Key → Value
candidate_prop c candidate_key = text c.candidate
candidate_prop c mid_key = text_value c.sdp_mid
candidate_prop c line_key = whole_value c.sdp_line
candidate_prop c fragment_key = text_value c.fragment
candidate_prop c _ = undefined

abbrev pub tag_for : Content → Tag
tag_for (invite video) = invite_tag
tag_for (accepted video) = accept_tag
tag_for ringing = ringing_tag
tag_for decline_said = decline_tag
tag_for busy_said = busy_tag
tag_for (offer epoch sdp servers) = offer_tag
tag_for (answer epoch sdp servers) = answer_tag
tag_for (ice epoch c) = ice_tag
tag_for (restart_asked epoch) = restart_tag
tag_for (bye r) = bye_tag

-- The descriptions of an offer and of an answer have the same properties.
abbrev pub sdp_prop : ℕ → Text → Option (List Server) → Key → Value
sdp_prop epoch sdp servers epoch_key = whole (pos epoch)
sdp_prop epoch sdp servers sdp_key = text sdp
sdp_prop epoch sdp servers servers_key = servers_value servers
sdp_prop epoch sdp servers _ = undefined

abbrev pub content_prop : Content → Key → Value
content_prop (invite video) video_key = boolean video
content_prop (accepted video) video_key = boolean video
content_prop (offer epoch sdp servers) k = sdp_prop epoch sdp servers k
content_prop (answer epoch sdp servers) k = sdp_prop epoch sdp servers k
content_prop (ice epoch c) epoch_key = whole (pos epoch)
content_prop (ice epoch c) candidate_key = object (candidate_prop c)
content_prop (restart_asked epoch) epoch_key = whole (pos epoch)
content_prop (bye r) reason_key = text (reason_text r)
content_prop _ _ = undefined

-- `send({ v: PROTOCOL_VERSION, callId: this.callId, ...m })`
abbrev pub message_prop : Message → Key → Value
message_prop m v_key = whole (pos 1)
message_prop m call_id_key = text m.call_id
message_prop m type_key = text (tag_text (tag_for m.content))
message_prop m k = content_prop m.content k

unfoldable pub encode : Message → Value
encode m = object (message_prop m)

-- The bounds that a checked message keeps.
abbrev pub fits_server : Server → Bool
fits_server v = ltb 0 (length v.urls) && (leb (length v.urls) 4 && all is_ice_url v.urls)

abbrev pub fit_servers : Option (List Server) → Bool
fit_servers none = true
fit_servers (some vs) = leb (length vs) 4 && all fits_server vs

-- The reasons that one side may tell the other.
abbrev pub is_told : Reason → Bool
is_told declined = false
is_told busy_there = false
is_told remote_hangup = false
is_told _ = true

module _ (byte_length : Text → ℕ) where
  abbrev pub fits_sdp : Text → Bool
  fits_sdp t = ltb 0 (length t) && leb (byte_length t) max_sdp_bytes

  unfoldable pub fits_content : Content → Bool
  fits_content (offer epoch sdp servers) = fits_sdp sdp && fit_servers servers
  fits_content (answer epoch sdp servers) = fits_sdp sdp && fit_servers servers
  fits_content (ice epoch c) = leb (byte_length c.candidate) max_candidate_bytes
  fits_content (bye r) = is_told r
  fits_content _ = true

  unfoldable pub is_sound : Message → Bool
  unfolding fits_content
  is_sound m = is_call_id m.call_id && fits_content m.content
