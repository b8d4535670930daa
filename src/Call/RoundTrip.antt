-- ===== src/Call/RoundTrip.antt =====
-- Calls: what is sent and what the check makes of it (apps/call-core/src/protocol.js: parseMessage).
use cads_agent_marketplace.Common.{
  &&-left, &&-right, List, Option, [], all, ap, arith, false, leb, length, list_eq, ltb, nat_eq,
  none, refl, some, suc, true, ℕ, ◌&&◌, ◌==◌, ◌||◌, ◌∷◌, ◌≡◌,
}
use cads_agent_marketplace.Call.Encode.{
  candidate_prop, encode, fit_servers, fits_content, fits_sdp, fits_server, is_sound, is_told,
  maybe_value, server_items, server_prop, servers_value, tag_for, text_items, text_value,
  whole_value,
}
use cads_agent_marketplace.Call.Message.{
  Candidate, Content, Message, Reason, Server, Text, accepted, answer, busy_said, busy_there, bye,
  cancelled, connection_lost, decline_said, declined, hangup_reason, ice, invite, media_denied,
  no_answer, offer, remote_hangup, restart_asked, ringing,
}
use cads_agent_marketplace.Call.Parse.{
  all_some, candidate_of, candidate_text_of, checked, content_of, items, maybe_text, parse_message,
  reason_of, sdp_of, server_of, servers_of, tag_of, text_or_null, url_of, urls_of, whole_or_null,
}
use cads_agent_marketplace.Call.Values.{
  Tag, accept_tag, answer_tag, array, busy_tag, bye_tag, decline_tag, ice_tag, invite_tag,
  is_call_id, is_ice_url, max_candidate_bytes, object, offer_tag, reason_text, restart_tag,
  ringing_tag, tag_text, text,
}
use cads_agent_marketplace.Common.Int.{ℤ}

text_or_null-value : (o : Option Text) → text_or_null (text_value o) ≡ o
text_or_null-value none = refl
text_or_null-value (some t) = refl

whole_or_null-value : (o : Option ℤ) → whole_or_null (whole_value o) ≡ o
whole_or_null-value none = refl
whole_or_null-value (some n) = refl

maybe_text-value : (o : Option Text) → maybe_text (maybe_value o) ≡ some o
maybe_text-value none = refl
maybe_text-value (some t) = refl

length-text_items : (ts : List Text) → length (items (text_items ts)) ≡ length ts
length-text_items [] = refl
length-text_items (t ∷ ts) = ap suc (length-text_items ts)

length-server_items : (vs : List Server) → length (items (server_items vs)) ≡ length vs
length-server_items [] = refl
length-server_items (v ∷ vs) = ap suc (length-server_items vs)

urls-text_items :
    (ts : List Text) → all is_ice_url ts ≡ true → all_some url_of (items (text_items ts)) ≡ some ts
unfolding all_some
urls-text_items [] h = refl
urls-text_items (t ∷ ts) h = rw (
  &&-left (is_ice_url t) (all is_ice_url ts) h,
  urls-text_items ts (&&-right (is_ice_url t) (all is_ice_url ts) h),
)

few_urls :
    (ts : List Text)
    → (ltb 0 (length ts) && leb (length ts) 4) ≡ true
    → (length ts == 0 || ltb 4 (length ts)) ≡ false
few_urls ts h = ground arith

urls_of-value :
    (ts : List Text)
    → (ltb 0 (length ts) && (leb (length ts) 4 && all is_ice_url ts)) ≡ true
    → urls_of (array (text_items ts)) ≡ some ts
unfolding urls_of
urls_of-value ts h =
    let few : (ltb 0 (length ts) && leb (length ts) 4) ≡ true = ground arith in
    let good : all is_ice_url ts ≡ true = ground arith in
    rw (length-text_items ts, urls-text_items ts good, few_urls ts few)

server_of-value : (v : Server) → fits_server v ≡ true → server_of (object (server_prop v)) ≡ some v
unfolding server_of
server_of-value v h =
    rw (urls_of-value v.urls h, maybe_text-value v.username, maybe_text-value v.credential)

servers-items :
    (vs : List Server)
    → all fits_server vs ≡ true
    → all_some server_of (items (server_items vs)) ≡ some vs
unfolding all_some
servers-items [] h = refl
servers-items (v ∷ vs) h = rw (
  server_of-value v (&&-left (fits_server v) (all fits_server vs) h),
  servers-items vs (&&-right (fits_server v) (all fits_server vs) h),
)

servers_of-value :
    (o : Option (List Server)) → fit_servers o ≡ true → servers_of (servers_value o) ≡ o
servers_of-value none h = refl
servers_of-value (some vs) h =
    let few : ltb 4 (length vs) ≡ false = ground arith in
    let good : all fits_server vs ≡ true = ground arith in
    rw (length-server_items vs, servers-items vs good, few)

reason_of-text : (r : Reason) → is_told r ≡ true → reason_of (text (reason_text r)) ≡ r
unfolding reason_of
reason_of-text hangup_reason h = refl
reason_of-text media_denied h = refl
reason_of-text no_answer h = refl
reason_of-text connection_lost h = refl
reason_of-text cancelled h = refl
reason_of-text declined h = cc
reason_of-text busy_there h = cc
reason_of-text remote_hangup h = cc

tag_of-text : (t : Tag) → tag_of (text (tag_text t)) ≡ some t
unfolding tag_of
tag_of-text invite_tag = refl
tag_of-text ringing_tag = refl
tag_of-text accept_tag = refl
tag_of-text decline_tag = refl
tag_of-text busy_tag = refl
tag_of-text offer_tag = refl
tag_of-text answer_tag = refl
tag_of-text ice_tag = refl
tag_of-text restart_tag = refl
tag_of-text bye_tag = refl

module _ (byte_length : Text → ℕ) where
  sdp_of-text : (t : Text) → fits_sdp byte_length t ≡ true → sdp_of byte_length (text t) ≡ some t
  sdp_of-text [] h = cc
  sdp_of-text (c ∷ cs) h = ground arith

  candidate-text :
      (t : Text)
      → leb (byte_length t) max_candidate_bytes ≡ true
      → candidate_text_of byte_length (text t) ≡ some t
  candidate-text t h = ground arith

  candidate_of-value :
      (c : Candidate)
      → leb (byte_length c.candidate) max_candidate_bytes ≡ true
      → candidate_of byte_length (object (candidate_prop c)) ≡ some c
  unfolding candidate_of
  candidate_of-value c h = rw (
    candidate-text c.candidate h,
    text_or_null-value c.sdp_mid,
    whole_or_null-value c.sdp_line,
    text_or_null-value c.fragment,
  )

  content-encode :
      (call_id : Text) (c : Content)
      → fits_content byte_length c ≡ true
      → content_of byte_length (tag_for c) (encode (record { call_id = call_id; content = c }))
        ≡ some c
  unfolding content_of fits_content encode
  content-encode call_id (invite video) h = refl
  content-encode call_id (accepted video) h = refl
  content-encode call_id ringing h = refl
  content-encode call_id decline_said h = refl
  content-encode call_id busy_said h = refl
  content-encode call_id (offer epoch sdp servers) h = rw (
    sdp_of-text sdp (&&-left (fits_sdp byte_length sdp) (fit_servers servers) h),
    servers_of-value servers (&&-right (fits_sdp byte_length sdp) (fit_servers servers) h),
  )
  content-encode call_id (answer epoch sdp servers) h = rw (
    sdp_of-text sdp (&&-left (fits_sdp byte_length sdp) (fit_servers servers) h),
    servers_of-value servers (&&-right (fits_sdp byte_length sdp) (fit_servers servers) h),
  )
  content-encode call_id (ice epoch c) h = rw (candidate_of-value c h)
  content-encode call_id (restart_asked epoch) h = refl
  content-encode call_id (bye r) h = rw (reason_of-text r h)

  -- Whatever the browser measures texts with: a message that keeps the bounds, written as it is sent,
  -- passes the check of the other side and comes out as it was.
  pub parse_message-encode :
      (m : Message) → is_sound byte_length m ≡ true → parse_message byte_length (encode m) ≡ some m
  unfolding parse_message encode is_sound checked
  parse_message-encode m h =
      let id_good : is_call_id m.call_id ≡ true =
        &&-left (is_call_id m.call_id) (fits_content byte_length m.content) h in
      rw (
        tag_of-text (tag_for m.content),
        id_good,
        content-encode m.call_id m.content
            (&&-right (is_call_id m.call_id) (fits_content byte_length m.content) h),
      )
