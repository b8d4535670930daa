-- ===== src/Call/Answer.antt =====
-- Calls: what a session does with the offers, the answers and the candidates of the other side
-- (apps/call-core/src/call-core.js: allowedPeerServers, onOffer, onAnswer, onIce, flushCandidates).
use cads_agent_marketplace.Common.{
  Bool, List, Option, [], all, contains, false, filter, if◌then◌else◌, list_eq, ltb, nat_eq, none,
  some, true, ℕ, ◌++◌, ◌==◌, ◌∷◌,
}
use cads_agent_marketplace.Call.Message.{Server, Text, answer, ice_url_host}
use cads_agent_marketplace.Call.Offer.{configure, fetched, fetched_servers, task_done, wait_for}
use cads_agent_marketplace.Call.Session.{
  Description, IceMessage, OfferMessage, Peer, Role, Session, Signaling, Then, callee, caller,
  for_answer, for_candidate, for_offer_servers, for_remote_answer, for_remote_offer,
  have_local_offer, offer_timer, restart_timer, then_answer, then_done,
}
use cads_agent_marketplace.Call.Timers.{clear, say}

abbrev pub host_allowed : List Text → Text → Bool
host_allowed hosts url = contains hosts (ice_url_host url)

-- `allowedPeerServers`
abbrev pub allowed_in : List Text → List Server → List Server
allowed_in hosts servers = filter (λ v. all (host_allowed hosts) v.urls) servers

abbrev pub allowed_servers : Session → Option (List Server) → List Server
allowed_servers s none = []
allowed_servers s (some servers) = allowed_in s.relay_hosts servers

-- The description that `this.pc.localDescription` names, if there is one.
abbrev pub local_of : Option Peer → Option Description
local_of none = none
local_of (some pc) = pc.seen.local

-- `this.send({ type: 'call.answer', ... })`: without a description the source throws before it sends.
abbrev pub say_answer_of : Option Description → ℕ → Session → Session
say_answer_of none epoch s = s
say_answer_of (some d) epoch s = say (answer epoch d.sdp none) s

abbrev pub say_answer : ℕ → Session → Session
say_answer epoch s = say_answer_of (local_of s.pc) epoch s

-- The remote description of the offer is set.
abbrev pub take_offer : OfferMessage → Session → Session
take_offer m s = wait_for (for_remote_offer m) (record s { epoch = m.epoch })

abbrev pub set_given : OfferMessage → List Server → Session → Session
set_given m given s = elim s.pc [
  | none ↦ task_done s
  | some pc ↦ take_offer m (configure given (record s { turn_available = some true }) pc)
]

-- The servers of the offer if some are allowed, else fresh ones before a restart, else those it has.
abbrev pub offer_servers : List Server → OfferMessage → Session → Session
offer_servers [] m s = if ltb 0 m.epoch then wait_for (for_offer_servers m) s else take_offer m s
offer_servers (v ∷ vs) m s = set_given m (v ∷ vs) s

abbrev pub new_offer : OfferMessage → Session → Session
new_offer m s = offer_servers (allowed_servers s m.servers) m s

-- An offer that was answered is answered again, and an older one is dropped.
abbrev pub offer_after : Option ℕ → OfferMessage → Session → Session
offer_after none m s = new_offer m s
offer_after (some a) m s =
    if ltb m.epoch a
    then task_done s
    else if m.epoch == a
    then task_done (say_answer m.epoch s)
    else new_offer m s

abbrev pub offer_with : Option Peer → OfferMessage → Session → Session
offer_with none m s = task_done s
offer_with (some pc) m s = offer_after s.answered m s

-- `onOffer`
abbrev pub on_offer_as : Role → OfferMessage → Session → Session
on_offer_as caller m s = task_done s
on_offer_as callee m s = offer_with s.pc m s

abbrev pub on_offer : OfferMessage → Session → Session
on_offer m s = on_offer_as s.role m s

abbrev pub got_offer_servers_on : Option Peer → List Server → OfferMessage → Session → Session
got_offer_servers_on none servers m s = task_done s
got_offer_servers_on (some pc) servers m s = take_offer m (configure servers s pc)

abbrev pub got_offer_servers : Option (List Server) → OfferMessage → Session → Session
got_offer_servers o m s = let t = fetched o s in got_offer_servers_on t.pc (fetched_servers o) m t

-- `this.pc.setLocalDescription(await this.pc.createAnswer())`: without a connection it throws.
abbrev pub make_answer_on : Option Peer → OfferMessage → Session → Session
make_answer_on none m s = task_done s
make_answer_on (some pc) m s = wait_for (for_answer m) s

abbrev pub then_on : Then → Session → Session
then_on (then_answer m) s = make_answer_on s.pc m s
then_on then_done s = task_done s

abbrev pub hold : IceMessage → Session → Session
hold m s = record s { held = s.held ++ m ∷ [] }

abbrev pub hold_newer : IceMessage → Session → Session
hold_newer m s = if ltb s.epoch m.epoch then hold m s else s

-- Whether a candidate is for the connection as it is now.
abbrev pub fits_epoch : Option Peer → IceMessage → Session → Bool
fits_epoch none m s = false
fits_epoch (some pc) m s = m.epoch == s.epoch

abbrev pub has_remote_on : Option Peer → Bool
has_remote_on none = false
has_remote_on (some pc) = pc.seen.has_remote

-- `flushCandidates` over a list, with `onIce` of each: a candidate that fits is added, which the
-- browser has to confirm; any other is held or dropped.
unfoldable pub flush_from : List IceMessage → Then → Session → Session
flush_from [] k s = then_on k s
flush_from (m ∷ ms) k s =
    let newer = flush_from ms k (hold_newer m s) in
    let early = flush_from ms k (hold m s) in
    if fits_epoch s.pc m s
    then if has_remote_on s.pc then wait_for (for_candidate ms k) s else early
    else newer

unfoldable pub flush : Then → Session → Session
unfolding flush_from
flush k s = flush_from s.held k (record s { held = [] })

-- `onIce`
unfoldable pub on_ice : IceMessage → Session → Session
unfolding flush_from
on_ice m s = flush_from (m ∷ []) then_done s

-- The answer is the local description now.
abbrev pub answer_set : OfferMessage → Session → Session
answer_set m s =
    task_done (say_answer m.epoch (clear restart_timer (record s { answered = some m.epoch })))

-- `onAnswer`
abbrev pub answer_from : Signaling → Session → Session
answer_from have_local_offer s = wait_for for_remote_answer (clear offer_timer s)
answer_from _ s = task_done s

abbrev pub answer_on : Option Peer → ℕ → Session → Session
answer_on none epoch s = task_done s
answer_on (some pc) epoch s =
    if epoch == s.epoch then answer_from pc.seen.signaling s else task_done s

abbrev pub on_answer_as : Role → ℕ → Session → Session
on_answer_as caller epoch s = answer_on s.pc epoch s
on_answer_as callee epoch s = task_done s

abbrev pub on_answer : ℕ → Session → Session
on_answer epoch s = on_answer_as s.role epoch s
