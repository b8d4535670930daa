-- ===== src/Call/Replies.antt =====
-- Calls: the tasks of a call that has ended, and the replies that still come for them
-- (apps/call-core/src/call-core.js: the functions given to enqueue).
use cads_agent_marketplace.Common.{
  Bool, List, Option, [], false, if◌then◌else◌, list_eq, nat_eq, none, not, refl, some, true, ℕ,
  ◌==◌, ◌||◌, ◌∷◌, ◌≡◌,
}
use cads_agent_marketplace.Call.Answer.{on_answer_as, on_ice, on_offer_as}
use cads_agent_marketplace.Call.Ended.{
  Idles, Still, Still-if, Still-then, all_quiet, face, flush-Still, flush_all-Still, is_quiet,
  offer_returned-Still, shut,
}
use cads_agent_marketplace.Call.Message.{Message, Server, Text}
use cads_agent_marketplace.Call.Offer.{offer_epoch, offer_returned, offer_set}
use cads_agent_marketplace.Call.Session.{
  Role, Round, Seen, Session, Task, Wait, answer_task, callee, caller, first_round, for_answer,
  for_candidate, for_local_answer, for_local_offer, for_media, for_offer, for_offer_servers,
  for_peer_servers, for_remote_answer, for_remote_offer, for_restart_servers, for_rollback,
  for_servers, ice_task, offer_task, offer_timer, prepare_task, restart_round, restart_task,
  restart_timer, send_offer, then_answer, then_done,
}
use cads_agent_marketplace.Call.Step.{
  begin_next, begin_task, media_given, media_refused, peer_done, peer_failed, receive,
  receive_content, resume, servers_given,
}
use cads_agent_marketplace.Call.TimerLemmas.{calls_all-set, calls_all-without}
use cads_agent_marketplace.Call.Timers.{every}

pub receive-Still : (m : Message) (now : ℕ) → Idles (receive m now)
unfolding face
receive-Still m now s q = closed (not (m.call_id == s.call_id))
  where
    closed :
        (b : Bool)
        → Still (shut s) (if b || true then shut s else receive_content m.content now (shut s))
    closed true = (refl, q)
    closed false = (refl, q)

pub epoch-Still : (r : Round) (now : ℕ) → Idles (offer_epoch r now)
unfolding face
epoch-Still first_round now s q = Still-if (shut s) _ _ s.gives_servers (refl, q) (refl, q)
epoch-Still restart_round now s q = Still-if (shut s) _ _ s.gives_servers (refl, q) (refl, q)

pub begin-Still : (t : Task) (now : ℕ) → Idles (begin_task t now)
unfolding on_ice face
begin-Still (prepare_task why) now s q = (refl, q)
begin-Still (offer_task m) now s q = offer_as s.role
  where
    offer_as : (r : Role) → Still (shut s) (on_offer_as r m (shut s))
    offer_as caller = (refl, q)
    offer_as callee = (refl, q)
begin-Still (answer_task epoch sdp) now s q = answer_as s.role
  where
    answer_as : (r : Role) → Still (shut s) (on_answer_as r epoch (shut s))
    answer_as caller = (refl, q)
    answer_as callee = (refl, q)
begin-Still (ice_task m) now s q = flush-Still (m ∷ []) then_done s q
begin-Still restart_task now s q = (refl, q)

pub next-Still : (w : Option Wait) (ts : List Task) (now : ℕ) → Idles (begin_next w ts now)
unfolding face
next-Still none [] now s q = (refl, q)
next-Still none (t ∷ ts) now s q =
    Still-then (begin_task t now) (begin-Still t now) s (record (shut s) { queue = ts }) (refl, q)
next-Still (some w) ts now s q = (refl, q)

pub offer_set-Still : (r : Round) (servers : Option (List Server)) → Idles (offer_set r servers)
unfolding face
offer_set-Still r servers s q =
    let set : Session = every offer_timer s.timing.signal_retry (send_offer s.epoch servers) s in
    let quiet : all_quiet set.timers ≡ true =
      calls_all-set is_quiet true offer_timer s.timing.signal_retry (send_offer s.epoch servers) s q
        refl in
    Still-then (offer_returned r) (offer_returned-Still r) s (shut set) (refl, quiet)

-- A reply of the connection to a task of a call that is over.
pub peer_done-Still : (w : Wait) (seen : Seen) (now : ℕ) → Idles (resume w (peer_done seen) now)
unfolding face
peer_done-Still (for_media why) seen now s q = (refl, q)
peer_done-Still (for_servers why) seen now s q = (refl, q)
peer_done-Still (for_rollback r) seen now s q = epoch-Still r now s q
peer_done-Still (for_peer_servers r) seen now s q = (refl, q)
peer_done-Still (for_offer r servers) seen now s q = (refl, q)
peer_done-Still (for_local_offer r servers) seen now s q = offer_set-Still r servers s q
peer_done-Still (for_offer_servers m) seen now s q = (refl, q)
peer_done-Still (for_remote_offer m) seen now s q = flush_all-Still (then_answer m) s q
peer_done-Still (for_answer m) seen now s q = (refl, q)
peer_done-Still (for_local_answer m) seen now s q =
    (refl, calls_all-without is_quiet restart_timer s.timers q)
peer_done-Still for_remote_answer seen now s q = flush_all-Still then_done s q
peer_done-Still (for_candidate ms k) seen now s q = flush-Still ms k s q
peer_done-Still for_restart_servers seen now s q = (refl, q)

pub servers_given-Still :
    (w : Wait) (o : Option (List Server)) (now : ℕ) → Idles (resume w (servers_given o) now)
unfolding face
servers_given-Still (for_servers why) o now s q = (refl, q)
servers_given-Still (for_peer_servers r) o now s q = offer_returned-Still r s q
servers_given-Still (for_offer_servers m) o now s q = (refl, q)
servers_given-Still for_restart_servers o now s q = (refl, q)
servers_given-Still _ o now s q = (refl, q)

pub failed-Still : (w : Wait) (now : ℕ) → Idles (resume w peer_failed now)
unfolding face
failed-Still (for_candidate ms k) now s q = flush-Still ms k s q
failed-Still _ now s q = (refl, q)

pub media-Still : (w : Wait) (now : ℕ) → Idles (resume w media_given now)
unfolding face
media-Still (for_media why) now s q = (refl, q)
media-Still _ now s q = (refl, q)

pub refused-Still : (w : Wait) (error : Text) (now : ℕ) → Idles (resume w (media_refused error) now)
unfolding face
refused-Still (for_media why) error now s q = (refl, q)
refused-Still _ error now s q = (refl, q)
