-- ===== src/Collab/Document.antt =====
-- Editing together: the document on the screen and the merged state (apps/duell-web/src/collab.js:
-- LOCAL_IDS, seed, local).
use cads_agent_marketplace.Common.{
  Bool, List, Option, [], any, contains, false, filter, if◌then◌else◌, leb, list_beq, list_eq, map,
  nat_eq, none, not, some, true, ℕ, ◌&&◌, ◌++◌, ◌||◌, ◌∷◌,
}
use cads_agent_marketplace.Collab.Merge.{Entry, Store, Text, get, id_count, is_some, put}
use cads_agent_marketplace.Collab.Names.{join_names, new_name, visible}
use cads_agent_marketplace.Collab.Outbox.{Outbox, kill, next_clock, place_sticker, set_local}
use cads_agent_marketplace.Collab.Receive.{edit}
use cads_agent_marketplace.Collab.Session.{Meta, State, pick}

-- A document: its fields as `flatten` gives them, and its stickers, if its kind has any. A sticker is
-- an object with an identity of its own, and its shape.
pub record Document (V G : Type 0) : Type 0 where
  pub values : List (Text × V)
  pub sk : Option (List (ℕ × G))

-- One side with its page: what was last shown, the names of the stickers that were, and the names that
-- the objects have. `next_object` is the identity of the next object that is made.
pub record Page (V G : Type 0) : Type 0 where
  pub session : State V G
  pub view : List (Text × V)
  pub shown : List Text
  pub ids : List (ℕ × Text)
  pub next_object : ℕ

abbrev pub local_ids : ℕ
local_ids = 340

abbrev pub shape_if : {G : Type 0} → Option (Entry G) → List G
shape_if none = []
shape_if (some e) = e.value ∷ []

-- What `local` knows while it goes over the stickers.
pub record Pass (V G : Type 0) : Type 0 where
  pub page : Page V G
  pub seen : List Text
  pub changed : Bool

module _ {V G : Type 0} where
  -- An edit of the page, with its state and its outbox.
  abbrev pub with_edit : (Store V G × Outbox V G → Store V G × Outbox V G) → Page V G → Page V G
  with_edit f p = record p { session = edit f p.session }

  abbrev pub mark_dirty : Page V G → Page V G
  mark_dirty p = record p {
    session = record p.session { store = record p.session.store { dirty = true } };
  }

  -- A new name for the object `g`: the clock ticks once for the name.
  abbrev pub tick_clock : Store V G × Outbox V G → Store V G × Outbox V G
  tick_clock (s, b) = (record s { clock = next_clock s.clock }, b)

module _ {V : Type 0} (same : V → V → Bool) where
  abbrev pub differs : Option V → V → Bool
  differs none v = true
  differs (some w) v = not (same v w)

-- The actor, as a text and as the number that compares as it does; and `same` for values and shapes.
module _ {V G : Type 0} (actor : Text) (me : ℕ) (same : V → V → Bool)
    (same_shape : G → G → Bool) where
  abbrev pub write_value : Text → V → Page V G → Page V G
  unfolding set_local
  write_value k v p = record (with_edit (set_local me k v) p) { view = put p.view k v }

  abbrev pub add_sticker : ℕ → G → Page V G → Page V G
  unfolding place_sticker
  add_sticker object g p =
      let t = with_edit tick_clock p in
      let id = new_name t.session.store.clock actor in
      record (with_edit (place_sticker me id g) t) {
        ids = put p.ids object id;
        shown = p.shown ++ id ∷ [];
      }

  abbrev pub write_values : List (Text × V) → Page V G → Page V G
  write_values [] p = p
  write_values ((k, v) ∷ f) p = write_values f (write_value k v p)

  abbrev pub add_stickers : List (ℕ × G) → Page V G → Page V G
  add_stickers [] p = p
  add_stickers ((object, g) ∷ gs) p = add_stickers gs (add_sticker object g p)

  abbrev pub stickers_of : Option (List (ℕ × G)) → List (ℕ × G)
  stickers_of none = []
  stickers_of (some gs) = gs

  -- `seed`
  unfoldable pub seed : Meta → Document V G → Page V G → Page V G
  seed m d p =
      let q =
        write_values d.values (record p { session = record p.session { meta = some (pick m) } }) in
      add_stickers (stickers_of d.sk) (record q { shown = [] })

  -- The fields of `local`: what differs from the last view.
  abbrev pub write_if : Bool → Text → V → Page V G × Bool → Page V G × Bool
  write_if true k v (p, changed) = (write_value k v p, true)
  write_if false k v (p, changed) = (p, changed)

  abbrev pub local_values : List (Text × V) → Page V G × Bool → Page V G × Bool
  local_values [] r = r
  local_values ((k, v) ∷ f) r = local_values f (write_if (differs same (get r.0.view k) v) k v r)

  -- Undo rebuilds the list from a copy: the same sticker, a new object.
  abbrev pub is_copy : Pass V G → G → Text → Bool
  is_copy r g k =
      not (contains r.seen k)
      && any (λ v. same_shape v g) (shape_if (get r.page.session.store.stickers k))

  abbrev pub first_of : List Text → Option Text
  first_of [] = none
  first_of (k ∷ ks) = some k

  abbrev pub name_of : ℕ → G → Pass V G → Option Text
  name_of object g r = elim (get r.page.ids object) [
    | some id ↦ some id
    | none ↦ first_of (filter (is_copy r g) r.page.shown)
  ]

  abbrev pub new_sticker : ℕ → G → Pass V G → Pass V G
  new_sticker object g r =
      if leb local_ids (id_count r.page.session.store)
      then record r { page = mark_dirty r.page }
      else record r {
        page = add_sticker object g r.page;
        seen = r.seen ++ new_name (next_clock r.page.session.store.clock) actor ∷ [];
        changed = true;
      }

  -- A sticker with a name: its shape is written if it has another.
  abbrev pub old_sticker : ℕ → Text → G → Pass V G → Pass V G
  unfolding place_sticker
  old_sticker object id g r =
      let p = record r.page { ids = put r.page.ids object id } in
      let moved = any (λ v. not (same_shape v g)) (shape_if (get p.session.store.stickers id)) in
      record {
        page = if moved then with_edit (place_sticker me id g) p else p;
        seen = r.seen ++ id ∷ [];
        changed = moved || r.changed;
      }

  abbrev pub local_sticker : Option Text → ℕ → G → Pass V G → Pass V G
  local_sticker none object g r = new_sticker object g r
  local_sticker (some id) object g r = old_sticker object id g r

  abbrev pub local_stickers : List (ℕ × G) → Pass V G → Pass V G
  local_stickers [] r = r
  local_stickers ((object, g) ∷ gs) r =
      local_stickers gs (local_sticker (name_of object g r) object g r)

  -- The stickers that were shown and are gone.
  abbrev pub kill_gone : List Text → Pass V G → Pass V G
  unfolding kill
  kill_gone [] r = r
  kill_gone (id ∷ ids) r = kill_gone ids (
      if not (contains r.seen id) && is_some (get r.page.session.store.stickers id)
      then record r { page = with_edit (kill id) r.page; changed = true }
      else r)

  abbrev pub or_nothing : Option Text → Text
  or_nothing none = []
  or_nothing (some id) = id

  -- The order of the objects must be that of `visible`; `applyTo` puts it right.
  abbrev pub check_order : List (ℕ × G) → Page V G → Page V G
  unfolding visible
  check_order gs p =
      let names = map (λ (o : ℕ × G). or_nothing (get p.ids o.0)) gs in
      if list_beq ⦃e = nat_eq⦄ (join_names names) (join_names (visible p.session.store))
      then p
      else mark_dirty p

  abbrev pub local_part : Option (List (ℕ × G)) → Page V G × Bool → Page V G × Bool
  local_part none r = r
  local_part (some gs) (p, changed) =
      let r = local_stickers gs (record { page = p; seen = []; changed = changed }) in
      let k = kill_gone r.page.shown r in
      let q = record k.page { shown = filter (contains r.seen) k.page.shown } in
      (check_order gs q, k.changed)

  -- `local`: whether there was something to send.
  unfoldable pub local : Document V G → Page V G → Page V G × Bool
  local d p = local_part d.sk (local_values d.values (p, false))
