-- ===== src/Collab/Scenarios.antt =====
-- Editing together: operations that meet in another order (apps/duell-web/src/collab.js: apply).
-- The titles that a field takes, and the stickers that the source leaves as they are.
use cads_agent_marketplace.Common.{
  All, Bool, List, [], arith, false, length, list_eq, ltb, map, nat_beq, nat_beq_iff, nat_eq, none,
  refl, some, true, ℕ, ◌∷◌, ◌≡◌, ◌≤◌,
}
use cads_agent_marketplace.Collab.Converge.{IsSame, apply-IsSame}
use cads_agent_marketplace.Collab.Document.{Document, Page, local}
use cads_agent_marketplace.Collab.Frames.{Fits}
use cads_agent_marketplace.Collab.Merge.{
  Store, Text, apply, dead_op, field_op, get, is_sticker_id, sticker_op,
}
use cads_agent_marketplace.Collab.Names.{visible}
use cads_agent_marketplace.Collab.Outbox.{kill, place_sticker, set_local}
use cads_agent_marketplace.Collab.Rate.{sends-bounds}
use cads_agent_marketplace.Collab.Receive.{
  Event, Parts, receive, receives, sends, step, ticks, writes,
}
use cads_agent_marketplace.Collab.Screen.{apply_to-shows, seen_shapes, shapes_of}
use cads_agent_marketplace.Collab.Session.{
  Meta, Peer, State, bucket, card, greeting, hello, no_mode, ops, tick,
}
use cads_agent_marketplace.Collab.Shown.{Applied, apply_dirty, apply_to}
use cads_agent_marketplace.Collab.Stepped.{HasStepped, apply-HasStepped}

abbrev short : Text → ℕ → Bool
short k v = ltb v 100

abbrev any_shape : ℕ → Bool
any_shape g = true

abbrev a_sticker : Text
a_sticker = b'7' ∷ b'.' ∷ b'a' ∷ b'b' ∷ b'c' ∷ b'd' ∷ []

abbrev title : Text
title = b't' ∷ []

abbrev empty_store : Store ℕ ℕ
empty_store = record { fields = []; stickers = []; dead = []; clock = 0; dirty = false }

good_name : is_sticker_id a_sticker ≡ true
unfolding is_sticker_id
good_name = refl

newer_wins :
    get
      (apply short any_shape
        (field_op title 5 2 10)
        (apply short any_shape (field_op title 4 3 11) empty_store).1).1.fields
      title
    ≡ some (record { value = 4; l = 3; a = 11 })
unfolding apply
newer_wins = refl

-- A sticker that is put down again by one side while the other deletes it.
apply-IsSame_example :
    IsSame
      (apply short any_shape
        (dead_op a_sticker 4)
        (apply short any_shape (sticker_op a_sticker 9 5 11) empty_store).1).1
      (apply short any_shape
        (sticker_op a_sticker 9 5 11)
        (apply short any_shape (dead_op a_sticker 4) empty_store).1).1
unfolding apply is_sticker_id
apply-IsSame_example =
    apply-IsSame short any_shape (sticker_op a_sticker 9 5 11) (dead_op a_sticker 4) empty_store tt
      refl refl refl refl

apply-HasStepped_example :
    HasStepped
      (field_op title 5 2 10)
      empty_store
      (apply short any_shape (field_op title 5 2 10) empty_store).1
unfolding apply
apply-HasStepped_example = apply-HasStepped short any_shape (field_op title 5 2 10) empty_store refl

-- A session between two sides: every operation has 20 bytes, and the digest is the number of fields.
abbrev plain : Parts ℕ ℕ
plain = record {
  hash = λ s. length s.fields;
  bytes = λ o. 20;
  good_idea = λ t. true;
  sanitize_nick = λ t. t;
  sanitize_emoji = λ t. t;
  fits = λ m. short;
  shapes = any_shape;
}

abbrev card_work : Meta
card_work = record { kind = card; mode = no_mode; idea = none }

abbrev linked : State ℕ ℕ
linked = record {
  meta = some card_work;
  store = empty_store;
  outbox = record { ops = []; order = [] };
  peer = none;
  peer_seen = none;
  up = true;
  tokens = bucket;
  refilled = 0;
  last_flush = none;
  last_digest = none;
  last_full = none;
  arrivals = [];
  rejected = 0;
  hello_due = true;
}

abbrev visitor : Peer
visitor = record { id = b'a' ∷ b'b' ∷ b'c' ∷ b'd' ∷ []; nick = []; emoji = [] }

-- An edit, a greeting with another digest, and four ticks: one comes too early.
abbrev some_events : List (ℕ × Event ℕ ℕ)
some_events =
    (1000, ticks)
    ∷ (1001, writes title 5)
    ∷ (1100, ticks)
    ∷ (1300, ticks)
    ∷ (1400, receives 90 (greeting (some 7) (some card_work) visitor))
    ∷ (1600, ticks)
    ∷ []

sent_then :
    sends plain 10 some_events linked
    ≡ hello 0 ∷ ops (field_op title 5 1 10 ∷ []) ∷ ops (field_op title 5 1 10 ∷ []) ∷ []
unfolding sends step tick set_local receive
sent_then = refl

sends-bounds_example :
    (length (sends plain 10 some_events linked) ≤ 106)
    × All (Fits plain.bytes) (sends plain 10 some_events linked)
sends-bounds_example = sends-bounds plain 10 1000 some_events linked (omega arith)

-- A page that shows another title and one sticker, when a title and a sticker have come in.
abbrev merged : Store ℕ ℕ
merged = record {
  fields = (title, record { value = 5; l = 2; a = 10 }) ∷ [];
  stickers = (a_sticker, record { value = 9; l = 7; a = 11 }) ∷ [];
  dead = [];
  clock = 7;
  dirty = true;
}

abbrev some_page : Page ℕ ℕ
some_page = record {
  session = record linked { store = merged };
  view = (title, 1) ∷ [];
  shown = [];
  ids = [];
  next_object = 3;
}

abbrev screen : Document ℕ ℕ
screen = record { values = (title, 1) ∷ []; sk = some [] }

abbrev any_field : Text → Bool
any_field k = true

abbrev shown_then : Applied ℕ ℕ
unfolding visible
shown_then = apply_dirty nat_beq nat_beq any_field screen some_page

applied : apply_to nat_beq nat_beq any_field screen some_page ≡ some shown_then
unfolding apply_to visible
applied = refl

what_is_shown : shown_then.document ≡ record { values = (title, 5) ∷ []; sk = some ((3, 9) ∷ []) }
unfolding visible
what_is_shown = refl

apply_to-shows_example :
    (get shown_then.document.values title ≡ some 5)
    × (get shown_then.page.view title ≡ some 5)
    × (shapes_of shown_then.document.sk ≡ seen_shapes screen.sk merged)
unfolding visible
apply_to-shows_example =
    apply_to-shows nat_beq nat_beq (λ v w. (nat_beq_iff v w).0) any_field screen some_page title
      (λ j. refl) refl refl refl applied

-- The actor "abcd" moves the sticker that is shown and puts down another one.
abbrev after_local : Page ℕ ℕ × Bool
unfolding local visible
after_local =
    local (b'a' ∷ b'b' ∷ b'c' ∷ b'd' ∷ []) 10 nat_beq nat_beq
      (record { values = (title, 5) ∷ []; sk = some ((3, 8) ∷ (4, 2) ∷ []) })
      (record shown_then.page { shown = a_sticker ∷ [] })

what_is_sent :
    map (λ o. o.1) after_local.0.session.outbox.ops
    ≡ sticker_op a_sticker 8 8 10
      ∷ sticker_op (b'9' ∷ b'.' ∷ b'a' ∷ b'b' ∷ b'c' ∷ b'd' ∷ []) 2 10 10
      ∷ []
unfolding local visible place_sticker kill set_local
what_is_sent = refl
