-- ===== src/Call/Bounds.antt =====
-- Calls: what the check of a message lets through (apps/call-core/src/protocol.js: parseMessage).
use mathlib.Core.Option.{some-injective}
use mathlib.Core.Path.{subst}
use cads_agent_marketplace.Common.{
  &&-both, &&-left, &&-right, Bool, List, Option, [], all, ap, arith, false, if◌then◌else◌, leb,
  list_eq, ltb, nat_eq, none, refl, some, true, ℕ, ◌&&◌, ◌==◌, ◌∙◌, ◌∷◌, ◌≡◌,
}
use cads_agent_marketplace.Call.Encode.{fit_servers, fits_content, fits_sdp, is_sound, is_told}
use cads_agent_marketplace.Call.Message.{
  Candidate, Content, Message, Reason, Server, Text, answer, bye, ice, offer, restart_asked,
}
use cads_agent_marketplace.Call.Parse.{
  call_id_of, candidate_of, candidate_text_of, checked, content_of, epoch_of, is_version,
  parse_message, reason_of, reason_or, sdp_of, servers_of, tag_of, ◌>>=◌,
}
use cads_agent_marketplace.Call.Servers.{bind-some, if-some, only-some, servers_of-good}
use cads_agent_marketplace.Call.Values.{
  Tag, Value, accept_tag, answer_tag, busy_tag, bye_tag, call_id_key, candidate_key, decline_tag,
  epoch_key, ice_tag, invite_tag, is_call_id, max_candidate_bytes, max_sdp_bytes, named, object,
  offer_tag, prop, reason_key, reason_text, reasons, restart_tag, ringing_tag, sdp_key, servers_key,
  text, type_key, v_key,
}

module _ {A : Type 0} where
  -- What is named stands in the list.
  named-all :
      (p : A → Bool) (f : A → Text) (xs : List A) (t : Text) (x : A)
      → all p xs ≡ true
      → named f xs t ≡ some x
      → p x ≡ true
  unfolding named
  named-all p f [] t x good h = cc
  named-all p f (y ∷ ys) t x good h =
      named_first (f y == t) (named f ys t) y x (&&-left (p y) (all p ys) good) h
        (named-all p f ys t x (&&-right (p y) (all p ys) good))
    where
      named_first :
          (b : Bool) (o : Option A) (y x : A)
          → p y ≡ true
          → (if b then some y else o) ≡ some x
          → (o ≡ some x → p x ≡ true)
          → p x ≡ true
      named_first true o y x good h rest = subst (λ z. p z ≡ true) (some-injective y x h) good
      named_first false o y x good h rest = rest h

told_or :
    (o : Option Reason)
    → ((r : Reason) → o ≡ some r → is_told r ≡ true)
    → is_told (reason_or o) ≡ true
told_or none h = refl
told_or (some r) h = h r refl

reason_of-good : (x : Value) → is_told (reason_of x) ≡ true
unfolding reason_of
reason_of-good (text t) =
    told_or (named reason_text reasons t) (λ r h. named-all is_told reason_text reasons t r refl h)
reason_of-good _ = refl

then-some :
    {A : Type 0} (b : Bool) (o : Option A) (a : A) → (if b then o else none) ≡ some a → o ≡ some a
then-some true o a h = h
then-some false o a h = cc

call_id-good : (x : Value) (t : Text) → call_id_of x ≡ some t → is_call_id t ≡ true
call_id-good (text u) t h =
    let (good, same) = only-some (is_call_id u) u t h in subst (λ v. is_call_id v ≡ true) same good
call_id-good _ t h = cc

module _ (byte_length : Text → ℕ) where
  sdp_of-good :
      (x : Value) (t : Text) → sdp_of byte_length x ≡ some t → fits_sdp byte_length t ≡ true
  sdp_of-good (text []) t h = cc
  sdp_of-good (text (c ∷ cs)) t h =
      let (few, same) = if-some (ltb max_sdp_bytes (byte_length (c ∷ cs))) _ t h in
      let fits : fits_sdp byte_length (c ∷ cs) ≡ true = ground arith in
      subst (λ u. fits_sdp byte_length u ≡ true) (some-injective (c ∷ cs) t same) fits
  sdp_of-good _ t h = cc

  candidate_text-good :
      (x : Value) (t : Text)
      → candidate_text_of byte_length x ≡ some t
      → leb (byte_length t) max_candidate_bytes ≡ true
  candidate_text-good (text u) t h =
      let (few, same) = if-some (ltb max_candidate_bytes (byte_length u)) _ t h in
      let fits : leb (byte_length u) max_candidate_bytes ≡ true = ground arith in
      subst (λ w. leb (byte_length w) max_candidate_bytes ≡ true) (some-injective u t same) fits
  candidate_text-good _ t h = cc

  candidate_of-good :
      (x : Value) (c : Candidate)
      → candidate_of byte_length x ≡ some c
      → leb (byte_length c.candidate) max_candidate_bytes ≡ true
  unfolding candidate_of
  candidate_of-good x c h =
      let (t, et, ht) = bind-some (candidate_text_of byte_length (prop candidate_key x)) _ c h in
      subst (λ w. leb (byte_length w) max_candidate_bytes ≡ true)
        (ap (λ d. d.candidate) (some-injective _ c ht))
        (candidate_text-good (prop candidate_key x) t et)

  -- An offer or an answer that was found.
  sdp_content-good :
      (f : ℕ → Text → Option (List Server) → Content) (m : Value) (c : Content)
      → ((epoch : ℕ) (sdp : Text) (servers : Option (List Server))
          → fits_content byte_length (f epoch sdp servers)
            ≡ (fits_sdp byte_length sdp && fit_servers servers))
      → (do
        epoch ← epoch_of (prop epoch_key m)
        sdp ← sdp_of byte_length (prop sdp_key m)
        some (f epoch sdp (servers_of (prop servers_key m))))
        ≡ some c
      → fits_content byte_length c ≡ true
  sdp_content-good f m c fits h =
      let (epoch, ee, he) = bind-some (epoch_of (prop epoch_key m)) _ c h in
      let (sdp, es, hs) = bind-some (sdp_of byte_length (prop sdp_key m)) _ c he in
      subst (λ d. fits_content byte_length d ≡ true) (some-injective _ c hs)
        (fits epoch sdp (servers_of (prop servers_key m))
          ∙ &&-both _ _ (sdp_of-good (prop sdp_key m) sdp es)
              (servers_of-good (prop servers_key m)))

  content_of-good :
      (t : Tag) (m : Value) (c : Content)
      → content_of byte_length t m ≡ some c
      → fits_content byte_length c ≡ true
  unfolding content_of fits_content
  content_of-good offer_tag m c h = sdp_content-good offer m c (λ epoch sdp servers. refl) h
  content_of-good answer_tag m c h = sdp_content-good answer m c (λ epoch sdp servers. refl) h
  content_of-good ice_tag m c h =
      let (epoch, ee, he) = bind-some (epoch_of (prop epoch_key m)) _ c h in
      let (d, ed, hd) = bind-some (candidate_of byte_length (prop candidate_key m)) _ c he in
      subst (λ x. fits_content byte_length x ≡ true) (some-injective (ice epoch d) c hd)
        (candidate_of-good (prop candidate_key m) d ed)
  content_of-good restart_tag m c h =
      let (epoch, ee, he) = bind-some (epoch_of (prop epoch_key m)) _ c h in
      subst (λ x. fits_content byte_length x ≡ true) (some-injective (restart_asked epoch) c he)
        refl
  content_of-good bye_tag m c h =
      subst (λ x. fits_content byte_length x ≡ true)
        (some-injective (bye (reason_of (prop reason_key m))) c h)
        (reason_of-good (prop reason_key m))
  content_of-good invite_tag m c h =
      subst (λ x. fits_content byte_length x ≡ true) (some-injective _ c h) refl
  content_of-good accept_tag m c h =
      subst (λ x. fits_content byte_length x ≡ true) (some-injective _ c h) refl
  content_of-good ringing_tag m c h =
      subst (λ x. fits_content byte_length x ≡ true) (some-injective _ c h) refl
  content_of-good decline_tag m c h =
      subst (λ x. fits_content byte_length x ≡ true) (some-injective _ c h) refl
  content_of-good busy_tag m c h =
      subst (λ x. fits_content byte_length x ≡ true) (some-injective _ c h) refl

  checked-good :
      (x : Value) (m : Message) → checked byte_length x ≡ some m → is_sound byte_length m ≡ true
  unfolding checked is_sound
  checked-good x m h =
      let (tag, et, ht) =
        bind-some (tag_of (prop type_key x)) _ m (then-some (is_version (prop v_key x)) _ m h) in
      let (call_id, ei, hi) = bind-some (call_id_of (prop call_id_key x)) _ m ht in
      let (content, ec, hc) = bind-some (content_of byte_length tag x) _ m hi in
      subst (λ n. is_sound byte_length n ≡ true)
        (some-injective (record { call_id = call_id; content = content }) m hc)
        (&&-both _ _ (call_id-good (prop call_id_key x) call_id ei)
          (content_of-good tag x content ec))

  -- Whatever comes over the channel, a message that the check lets through keeps the bounds: its call
  -- id has 8 to 64 characters of the alphabet, a description is not empty and at most 32 KiB, a
  -- candidate at most 2 KiB, there are at most four servers with one to four allowed addresses each,
  -- and the reason of a farewell is one of the five that may be told.
  pub parse_message-bounds :
      (x : Value) (m : Message)
      → parse_message byte_length x ≡ some m
      → is_sound byte_length m ≡ true
  unfolding parse_message
  parse_message-bounds (object f) m h = checked-good (object f) m h
  parse_message-bounds _ m h = cc
