-- ===== src/Collab/Shown.antt =====
-- Editing together: how the merged state comes onto the screen (apps/duell-web/src/collab.js: applyTo,
-- doc).
use cads_agent_marketplace.Common.{
  Bool, List, Option, [], false, if◌then◌else◌, list_eq, nat_eq, none, option_beq, some, true, ℕ,
  ◌&&◌, ◌++◌, ◌+◌, ◌∷◌,
}
use cads_agent_marketplace.Collab.Document.{Document, Page, differs, mark_dirty, shape_if}
use cads_agent_marketplace.Collab.Merge.{Entry, Text, get, put}
use cads_agent_marketplace.Collab.Names.{visible}
use cads_agent_marketplace.Collab.Session.{Meta}

-- What `applyTo` leaves: the document, the keys that changed, and the page.
pub record Applied (V G : Type 0) : Type 0 where
  pub document : Document V G
  pub keys : List Text
  pub page : Page V G

-- `same` for values and shapes.
module _ {V : Type 0} (same : V → V → Bool) where
  -- `applyTo`, the fields: those that the kind of work has and that differ from the last view.
  -- `known` is `rules(kind)` at a name.
  abbrev pub shows : (Text → Bool) → List (Text × V) → Text → V → Bool
  shows known view k v = known k && differs same (get view k) v

  abbrev pub show_one :
      (Text → Bool)
      → Text
      → V
      → List (Text × V) × List (Text × V) × List Text
      → List (Text × V) × List (Text × V) × List Text
  show_one known k v r =
      if shows known r.1 k v then (put r.0 k v, put r.1 k v, r.2 ++ k ∷ []) else r

  abbrev pub show_values :
      (Text → Bool)
      → List (Text × Entry V)
      → List (Text × V) × List (Text × V) × List Text
      → List (Text × V) × List (Text × V) × List Text
  show_values known [] r = r
  show_values known ((k, e) ∷ fs) r = show_values known fs (show_one known k e.value r)

module _ {V G : Type 0} (same : V → V → Bool) (same_shape : G → G → Bool) where
  -- The object that has a name: the last one in the list.
  abbrev pub object_of : List (ℕ × Text) → Text → List (ℕ × G) → Option ℕ
  object_of ids id [] = none
  object_of ids id ((object, g) ∷ gs) =
      let rest = object_of ids id gs in
      let here =
        if option_beq ⦃d = list_eq⦄ (get ids object) (some id) then some object else none in
      elim rest [ some o ↦ some o | none ↦ here ]

  -- The stickers that are to be seen, each on its object or on a new one.
  abbrev pub show_sticker : Option ℕ → Text → G → Page V G × List (ℕ × G) → Page V G × List (ℕ × G)
  show_sticker (some object) id g (p, next) =
      (record p { ids = put p.ids object id }, next ++ (object, g) ∷ [])
  show_sticker none id g (p, next) = (
    record p { ids = put p.ids p.next_object id; next_object = p.next_object + 1 },
    next ++ (p.next_object, g) ∷ [],
  )

  abbrev pub show_named :
      List (ℕ × Text)
      → List (ℕ × G)
      → Text
      → List G
      → Page V G × List (ℕ × G)
      → Page V G × List (ℕ × G)
  show_named ids gs id [] r = r
  show_named ids gs id (g ∷ _) r = show_sticker (object_of ids id gs) id g r

  abbrev pub show_stickers :
      List (ℕ × Text) → List (ℕ × G) → List Text → Page V G × List (ℕ × G) → Page V G × List (ℕ × G)
  show_stickers ids gs [] r = r
  show_stickers ids gs (id ∷ names) r =
      show_stickers ids gs names
        (show_named ids gs id (shape_if (get r.0.session.store.stickers id)) r)

  abbrev pub same_shapes : List (ℕ × G) → List (ℕ × G) → Bool
  same_shapes [] [] = true
  same_shapes [] (b ∷ bs) = false
  same_shapes (a ∷ as_) [] = false
  same_shapes (a ∷ as_) (b ∷ bs) = same_shape a.1 b.1 && same_shapes as_ bs

  abbrev pub apply_stickers : Option (List (ℕ × G)) → Applied V G → Applied V G
  unfolding visible
  apply_stickers none r = r
  apply_stickers (some gs) r =
      let names = visible r.page.session.store in
      let (p, next) = show_stickers r.page.ids gs names (r.page, []) in
      record {
        document = record r.document { sk = some next };
        keys = if same_shapes gs next then r.keys else r.keys ++ (b's' ∷ b'k' ∷ []) ∷ [];
        page = record p { shown = names };
      }

  abbrev pub apply_dirty : (Text → Bool) → Document V G → Page V G → Applied V G
  apply_dirty known d p =
      let (values, view, keys) =
        show_values same known p.session.store.fields (d.values, p.view, []) in
      apply_stickers d.sk (record {
        document = record d { values = values };
        keys = keys;
        page = record p {
          view = view;
          session = record p.session { store = record p.session.store { dirty = false } };
        };
      })

  -- `applyTo`: none if nothing has changed since the last time.
  unfoldable pub apply_to : (Text → Bool) → Document V G → Page V G → Option (Applied V G)
  apply_to known d p = if p.session.store.dirty then some (apply_dirty known d p) else none

abbrev pub no_stickers : {G : Type 0} → Option (List (ℕ × G)) → Option (List (ℕ × G))
no_stickers none = none
no_stickers (some gs) = some []

module _ {V G : Type 0} where
  -- `doc`, for the side that joined with nothing; `base` is the empty document of a kind of work.
  abbrev pub doc_of :
      Option Meta → (Meta → Document V G) → Page V G → Option (Document V G × Page V G)
  doc_of none base p = none
  doc_of (some m) base p =
      let d = record (base m) { sk = no_stickers (base m).sk } in
      some (d, mark_dirty (record p { view = d.values; shown = [] }))

  unfoldable pub doc : (Meta → Document V G) → Page V G → Option (Document V G × Page V G)
  doc base p = doc_of p.session.meta base p
