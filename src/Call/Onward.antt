-- ===== src/Call/Onward.antt =====
-- Calls: the order of the states, for offers, answers and candidates
-- (apps/call-core/src/call-core.js: onOffer, onAnswer, onIce, flushCandidates).
use cads_agent_marketplace.Common.{
  Bool, List, Option, [], false, if◌then◌else◌, list_eq, ltb, nat_eq, none, some, true, ℕ, ◌==◌,
  ◌∷◌,
}
use cads_agent_marketplace.Call.Answer.{
  allowed_servers, answer_from, answer_on, answer_set, fits_epoch, flush, flush_from,
  got_offer_servers_on, has_remote_on, hold, local_of, make_answer_on, offer_after, offer_servers,
  offer_with, on_answer_as, on_offer_as, say_answer_of, set_given, take_offer, then_on,
}
use cads_agent_marketplace.Call.Message.{Server}
use cads_agent_marketplace.Call.Offer.{configure, task_done}
use cads_agent_marketplace.Call.Order.{Climbs, Rises, Rises-if, stays}
use cads_agent_marketplace.Call.Session.{
  Description, IceMessage, OfferMessage, Peer, Role, Session, Signaling, Then, callee, caller,
  have_local_offer, other_signaling, restart_timer, stable, then_answer, then_done,
}
use cads_agent_marketplace.Call.Timers.{clear}

pub answer_of-Climbs : (d : Option Description) (epoch : ℕ) → Climbs (say_answer_of d epoch)
answer_of-Climbs none epoch s = stays s
answer_of-Climbs (some d) epoch s = stays s

pub set_given-Climbs : (m : OfferMessage) (vs : List Server) → Climbs (set_given m vs)
set_given-Climbs m vs s = on s.pc
  where
    on :
        (p : Option Peer)
        → Rises s (elim p [
          | none ↦ task_done s
          | some pc ↦ take_offer m (configure vs (record s { turn_available = some true }) pc)
        ])
    on none = stays s
    on (some pc) = stays s

pub offer_servers-Climbs : (vs : List Server) (m : OfferMessage) → Climbs (offer_servers vs m)
offer_servers-Climbs [] m s = Rises-if (ltb 0 m.epoch) s _ _ (stays s) (stays s)
offer_servers-Climbs (v ∷ vs) m s = set_given-Climbs m (v ∷ vs) s

pub offer_after-Climbs : (a : Option ℕ) (m : OfferMessage) → Climbs (offer_after a m)
offer_after-Climbs none m s = offer_servers-Climbs (allowed_servers s m.servers) m s
offer_after-Climbs (some a) m s = Rises-if (ltb m.epoch a) s _ _ (stays s) (
    Rises-if (m.epoch == a) s _ _ (answer_of-Climbs (local_of s.pc) m.epoch s)
      (offer_servers-Climbs (allowed_servers s m.servers) m s))

pub on_offer-Climbs : (r : Role) (m : OfferMessage) → Climbs (on_offer_as r m)
on_offer-Climbs caller m s = stays s
on_offer-Climbs callee m s = with_peer s.pc
  where
    with_peer : (p : Option Peer) → Rises s (offer_with p m s)
    with_peer none = stays s
    with_peer (some pc) = offer_after-Climbs s.answered m s

pub offer_given-Climbs :
    (p : Option Peer) (vs : List Server) (m : OfferMessage) → Climbs (got_offer_servers_on p vs m)
offer_given-Climbs none vs m s = stays s
offer_given-Climbs (some pc) vs m s = stays s

pub then_on-Climbs : (k : Then) → Climbs (then_on k)
then_on-Climbs (then_answer m) s = on s.pc
  where
    on : (p : Option Peer) → Rises s (make_answer_on p m s)
    on none = stays s
    on (some pc) = stays s
then_on-Climbs then_done s = stays s

pub flush_newer-Climbs :
    (f : Session → Session)
    → Climbs f
    → (b : Bool) (m : IceMessage) (s : Session) → Rises s (f (if b then hold m s else s))
flush_newer-Climbs f climbs true m s = climbs (hold m s)
flush_newer-Climbs f climbs false m s = climbs s

pub flush-Climbs : (ms : List IceMessage) (k : Then) → Climbs (flush_from ms k)
unfolding flush_from
flush-Climbs [] k s = then_on-Climbs k s
flush-Climbs (m ∷ ms) k s =
    Rises-if (fits_epoch s.pc m s) s _ _
      (Rises-if (has_remote_on s.pc) s _ _ (stays s) (flush-Climbs ms k (hold m s)))
      (flush_newer-Climbs (flush_from ms k) (flush-Climbs ms k) (ltb s.epoch m.epoch) m s)

pub flush_all-Climbs : (k : Then) → Climbs (flush k)
unfolding flush
flush_all-Climbs k s = flush-Climbs s.held k (record s { held = [] })

pub answer_on-Climbs : (p : Option Peer) (epoch : ℕ) → Climbs (answer_on p epoch)
answer_on-Climbs none epoch s = stays s
answer_on-Climbs (some pc) epoch s =
    Rises-if (epoch == s.epoch) s _ _ (from pc.seen.signaling) (stays s)
  where
    from : (x : Signaling) → Rises s (answer_from x s)
    from have_local_offer = stays s
    from stable = stays s
    from other_signaling = stays s

pub on_answer-Climbs : (r : Role) (epoch : ℕ) → Climbs (on_answer_as r epoch)
on_answer-Climbs caller epoch s = answer_on-Climbs s.pc epoch s
on_answer-Climbs callee epoch s = stays s

pub answer_set-Climbs : (m : OfferMessage) → Climbs (answer_set m)
answer_set-Climbs m s =
    answer_of-Climbs (local_of s.pc) m.epoch
      (clear restart_timer (record s { answered = some m.epoch }))
