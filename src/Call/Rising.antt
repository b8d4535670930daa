-- ===== src/Call/Rising.antt =====
-- Calls: the order of the states, for every event (apps/call-core/src/call-core.js: the handlers of
-- CallSession).
use cads_agent_marketplace.Common.{
  List, Option, ap, arith, false, if◌then◌else◌, list_eq, nat_eq, none, some, true, ℕ, ◌==◌, ◌≡◌,
}
use cads_agent_marketplace.Call.Loss.{network_in}
use cads_agent_marketplace.Call.Message.{Server, Text, decline_said, declined, offer}
use cads_agent_marketplace.Call.Offer.{
  configure, create_peer, fetched, fetched_servers, got_peer_servers, got_servers, offer_epoch,
  offer_from, offer_of, offer_on, offer_returned, offer_set, prepared, restart_on, restart_with,
  say_offer, say_offer_on, see, start_offer, start_restart, wait_for, waits_for_answer,
}
use cads_agent_marketplace.Call.Order.{
  Climbs, Rises, Rises-if, Rises-next, finish-Climbs, link_lost-Climbs, rank, stays,
}
use cads_agent_marketplace.Call.Session.{
  Description, Kind, Peer, Purpose, Round, Seen, Session, Signaling, State, an_answer, an_offer,
  connected, first_round, for_offer, have_local_offer, offer_timer, other_signaling, reconnecting,
  restart_round, ringing_in, send_offer, stable, to_accept, to_offer,
}
use cads_agent_marketplace.Call.Timers.{
  accept_in, decline_in, every, finish, hangup, hangup_reason_in, is_over, say,
}

pub accept-Climbs : (x : State) (s : Session) → s.state ≡ x → Rises s (accept_in x s)
unfolding rank
accept-Climbs ringing_in s e = omega (arith, ap rank e)
accept-Climbs _ s e = stays s

pub decline-Climbs : (x : State) → Climbs (decline_in x)
decline-Climbs ringing_in s = finish-Climbs declined false (say decline_said s)
decline-Climbs _ s = stays s

pub hangup-Climbs : Climbs hangup
hangup-Climbs s =
    Rises-if (is_over s) s s (finish (hangup_reason_in s.state) true s) (stays s)
      (finish-Climbs (hangup_reason_in s.state) true s)

pub network-Climbs : (x : State) (now : ℕ) → Climbs (network_in x now)
network-Climbs connected now s = link_lost-Climbs now true (record s { last_offer_at = 0 })
network-Climbs reconnecting now s = link_lost-Climbs now true (record s { last_offer_at = 0 })
network-Climbs _ now s = stays s

pub offer_returned-Climbs : (r : Round) → Climbs (offer_returned r)
offer_returned-Climbs first_round s = stays s
offer_returned-Climbs restart_round s = stays s

pub offer_epoch-Climbs : (r : Round) (now : ℕ) → Climbs (offer_epoch r now)
offer_epoch-Climbs first_round now s = Rises-if s.gives_servers s _ _ (stays s) (stays s)
offer_epoch-Climbs restart_round now s = Rises-if s.gives_servers s _ _ (stays s) (stays s)

pub offer_from-Climbs : (x : Signaling) (r : Round) (now : ℕ) → Climbs (offer_from x r now)
offer_from-Climbs have_local_offer r now s = stays s
offer_from-Climbs stable r now s = offer_epoch-Climbs r now s
offer_from-Climbs other_signaling r now s = offer_epoch-Climbs r now s

pub offer_on-Climbs : (o : Option Peer) (r : Round) (now : ℕ) → Climbs (offer_on o r now)
offer_on-Climbs none r now s = offer_returned-Climbs r s
offer_on-Climbs (some pc) r now s = offer_from-Climbs pc.seen.signaling r now s

pub start_offer-Climbs : (r : Round) (now : ℕ) → Climbs (start_offer r now)
start_offer-Climbs r now s =
    Rises-if (is_over s) s _ _ (offer_returned-Climbs r s) (offer_on-Climbs s.pc r now s)

pub see-Climbs : (seen : Seen) → Climbs (see seen)
see-Climbs seen s = see_on s.pc
  where
    see_on :
        (o : Option Peer)
        → Rises s
            (elim o [ none ↦ s | some pc ↦ record s { pc = some (record pc { seen = seen }) } ])
    see_on none = stays s
    see_on (some pc) = stays s

pub peer_servers-Climbs : (r : Round) (o : Option (List Server)) → Climbs (got_peer_servers r o)
peer_servers-Climbs r o s = Rises-if (is_over s) s _ _ (offer_returned-Climbs r s) (on s.pc)
  where
    on :
        (p : Option Peer)
        → Rises s (elim p [ none ↦ offer_returned r s | some pc ↦ wait_for (for_offer r o) s ])
    on none = offer_returned-Climbs r s
    on (some pc) = stays s

pub say_offer-Climbs :
    (p : Option Peer) (epoch : ℕ) (o : Option (List Server)) → Climbs (say_offer_on p epoch o)
say_offer-Climbs none epoch o s = stays s
say_offer-Climbs (some pc) epoch o s = of_local pc.seen.local
  where
    of_kind :
        (k : Kind) (sdp : Text)
        → Rises s (elim k [
          | an_offer ↦ if s.epoch == epoch then say (offer epoch sdp o) s else s
          | an_answer ↦ s
        ])
    of_kind an_offer sdp = Rises-if (s.epoch == epoch) s _ s (stays s) (stays s)
    of_kind an_answer sdp = stays s

    of_local : (d : Option Description) → Rises s (offer_of d epoch o s)
    of_local none = stays s
    of_local (some d) = of_kind d.kind d.sdp

pub offer_set-Climbs : (r : Round) (o : Option (List Server)) → Climbs (offer_set r o)
offer_set-Climbs r o s =
    Rises-next
      (λ t. offer_returned r (every offer_timer s.timing.signal_retry (send_offer s.epoch o) t))
      (λ t.
        offer_returned-Climbs r (every offer_timer s.timing.signal_retry (send_offer s.epoch o) t))
      s (say_offer s.epoch o s) (say_offer-Climbs s.pc s.epoch o s)

pub prepared-Climbs : (why : Purpose) (now : ℕ) → Climbs (prepared why now)
prepared-Climbs to_accept now s = stays s
prepared-Climbs to_offer now s = start_offer-Climbs first_round now s

pub got_servers-Climbs :
    (why : Purpose) (o : Option (List Server)) (now : ℕ) → Climbs (got_servers why o now)
got_servers-Climbs why o now s =
    Rises-if (is_over s) s _ _ (stays s)
      (prepared-Climbs why now (create_peer (fetched_servers o) (fetched o s)))

pub start_restart-Climbs : (now : ℕ) → Climbs (start_restart now)
start_restart-Climbs now s = Rises-if (is_over s) s _ _ (stays s) (on s.pc)
  where
    on : (p : Option Peer) → Rises s (restart_on p now s)
    on none = stays s
    on (some pc) = Rises-if (waits_for_answer pc.seen.signaling now s) s _ _ (stays s) (stays s)

pub restart_with-Climbs :
    (p : Option Peer) (vs : List Server) (now : ℕ) → Climbs (restart_with p vs now)
restart_with-Climbs none vs now s = stays s
restart_with-Climbs (some pc) vs now s = start_offer-Climbs restart_round now (configure vs s pc)
