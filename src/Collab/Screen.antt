-- ===== src/Collab/Screen.antt =====
-- Editing together: the screen shows the merged state (apps/duell-web/src/collab.js: applyTo).
use mathlib.Core.List.{append-nil, map-append, append_assoc}
use mathlib.Core.Path.{subst}
use cads_agent_marketplace.Common.{
  Bool, Bool-cases, List, Option, [], ap, distinct, false, inl, inr, list_eq, map, nat_eq, none,
  refl, some, sym, true, ℕ, ◌++◌, ◌∙◌, ◌∷◌, ◌≡◌,
}
use cads_agent_marketplace.Collab.Document.{Document, Page, shape_if}
use cads_agent_marketplace.Collab.Merge.{Entry, Store, Text, get}
use cads_agent_marketplace.Collab.Names.{visible}
use cads_agent_marketplace.Collab.Session.{due}
use cads_agent_marketplace.Collab.Shown.{
  Applied, apply_dirty, apply_stickers, apply_to, object_of, show_named, show_sticker,
  show_stickers, show_values,
}
use cads_agent_marketplace.Collab.ShownFields.{
  InStep, keys_of, nothing, show_values-InStep, show_values-shown, unpack,
}

-- The shapes of the stickers that are to be seen, in their order.
abbrev pub shapes_at : {G : Type 0} → List (Text × Entry G) → List Text → List G
shapes_at m [] = []
shapes_at m (id ∷ names) = shape_if (get m id) ++ shapes_at m names

abbrev pub shapes_of : {G : Type 0} → Option (List (ℕ × G)) → List G
shapes_of none = []
shapes_of (some gs) = map (λ o. o.1) gs

abbrev pub seen_shapes : {V G : Type 0} → Option (List (ℕ × G)) → Store V G → List G
unfolding visible
seen_shapes none s = []
seen_shapes (some gs) s = shapes_at s.stickers (visible s)

module _ {V G : Type 0} (same : V → V → Bool) (same_shape : G → G → Bool) where
  show_sticker-shapes :
      (o : Option ℕ) (id : Text) (g : G) (r : Page V G × List (ℕ × G))
      → (map (λ o. o.1) (show_sticker same same_shape o id g r).1 ≡ map (λ o. o.1) r.1 ++ g ∷ [])
        × ((show_sticker same same_shape o id g r).0.session ≡ r.0.session)
        × ((show_sticker same same_shape o id g r).0.view ≡ r.0.view)
  show_sticker-shapes (some object) id g (p, next) = (map-append _ next _, refl, refl)
  show_sticker-shapes none id g (p, next) = (map-append _ next _, refl, refl)

  show_named-shapes :
      (ids : List (ℕ × Text)) (gs : List (ℕ × G)) (id : Text) (es : Option (Entry G))
      (r : Page V G × List (ℕ × G))
      → (map (λ o. o.1) (show_named same same_shape ids gs id (shape_if es) r).1
          ≡ map (λ o. o.1) r.1 ++ shape_if es)
        × ((show_named same same_shape ids gs id (shape_if es) r).0.session ≡ r.0.session)
        × ((show_named same same_shape ids gs id (shape_if es) r).0.view ≡ r.0.view)
  show_named-shapes ids gs id none r = (sym (append-nil (map (λ o. o.1) r.1)), refl, refl)
  show_named-shapes ids gs id (some e) r =
      show_sticker-shapes (object_of same same_shape ids id gs) id e.value r

  show_stickers-shapes :
      (ids : List (ℕ × Text)) (gs : List (ℕ × G)) (names : List Text) (r : Page V G × List (ℕ × G))
      → (map (λ o. o.1) (show_stickers same same_shape ids gs names r).1
          ≡ map (λ o. o.1) r.1 ++ shapes_at r.0.session.store.stickers names)
        × ((show_stickers same same_shape ids gs names r).0.view ≡ r.0.view)
  show_stickers-shapes ids gs [] r = (sym (append-nil (map (λ o. o.1) r.1)), refl)
  show_stickers-shapes ids gs (id ∷ names) r =
      let es = get r.0.session.store.stickers id in
      let here = show_named-shapes ids gs id es r in
      let rest =
        show_stickers-shapes ids gs names (show_named same same_shape ids gs id (shape_if es) r) in
      (
        rest.0
            ∙ (λ i. here.0 i ++ shapes_at (here.1 i).store.stickers names)
            ∙ append_assoc (map (λ o. o.1) r.1) (shape_if es)
                (shapes_at r.0.session.store.stickers names),
        rest.1 ∙ here.2,
      )

  apply_stickers-shapes :
      (sk : Option (List (ℕ × G))) (r : Applied V G)
      → r.document.sk ≡ sk
      → ((apply_stickers same same_shape sk r).document.values ≡ r.document.values)
        × ((apply_stickers same same_shape sk r).page.view ≡ r.page.view)
        × (shapes_of (apply_stickers same same_shape sk r).document.sk
            ≡ seen_shapes sk r.page.session.store)
  unfolding visible
  apply_stickers-shapes none r h = (refl, refl, ap shapes_of h)
  apply_stickers-shapes (some gs) r h =
      let all = show_stickers-shapes r.page.ids gs (visible r.page.session.store) (r.page, []) in
      (refl, all.1, all.0)

  seen_shapes-clean :
      (sk : Option (List (ℕ × G))) (s : Store V G)
      → seen_shapes sk (record s { dirty = false }) ≡ seen_shapes sk s
  unfolding visible
  seen_shapes-clean none s = refl
  seen_shapes-clean (some gs) s = refl

  dirty-shows :
      (exact : (v w : V) → same v w ≡ true → v ≡ w) (known : Text → Bool) (d : Document V G)
      (p : Page V G) (j : Text) (e : Entry V)
      → InStep d.values p.view
      → distinct (keys_of p.session.store.fields) ≡ true
      → known j ≡ true
      → get p.session.store.fields j ≡ some e
      → let r = apply_dirty same same_shape known d p in
        (get r.document.values j ≡ some e.value)
        × (get r.page.view j ≡ some e.value)
        × (shapes_of r.document.sk ≡ seen_shapes d.sk p.session.store)
  unfolding visible
  dirty-shows exact known d p j e stay once n g =
      let fs = p.session.store.fields in
      let t = show_values same known fs (d.values, p.view, []) in
      let mid : Applied V G = record {
        document = record d { values = t.0 };
        keys = t.2;
        page = record p {
          view = t.1;
          session = record p.session { store = record p.session.store { dirty = false } };
        };
      } in
      let shown = show_values-shown same exact known fs (d.values, p.view, []) j e once stay n g in
      let kept = show_values-InStep same exact known fs (d.values, p.view, []) stay j in
      let whole = apply_stickers-shapes d.sk mid refl in
      (
        ap (λ m. get m j) whole.0 ∙ shown,
        ap (λ m. get m j) whole.1 ∙ sym kept ∙ shown,
        whole.2 ∙ seen_shapes-clean d.sk p.session.store,
      )

  -- If the screen shows what was last shown, and the merged state has no field twice: what applyTo puts
  -- on the screen has, in every field of this kind of work, the value of the merged state, and the
  -- stickers that are to be seen in their order; and it is what is then taken as shown.
  pub apply_to-shows :
      (exact : (v w : V) → same v w ≡ true → v ≡ w) (known : Text → Bool) (d : Document V G)
      (p : Page V G) {r : Applied V G} (j : Text) {e : Entry V}
      → InStep d.values p.view
      → distinct (keys_of p.session.store.fields) ≡ true
      → known j ≡ true
      → get p.session.store.fields j ≡ some e
      → apply_to same same_shape known d p ≡ some r
      → (get r.document.values j ≡ some e.value)
        × (get r.page.view j ≡ some e.value)
        × (shapes_of r.document.sk ≡ seen_shapes d.sk p.session.store)
  unfolding apply_to
  apply_to-shows exact known d p {r} j {e} stay once n g h =
      elim (Bool-cases p.session.store.dirty) [
        | inr idle ↦ absurd (nothing r (rw idle at h))
        | inl due ↦
            subst
              (λ t.
                (get t.document.values j ≡ some e.value)
                × (get t.page.view j ≡ some e.value)
                × (shapes_of t.document.sk ≡ seen_shapes d.sk p.session.store))
              (unpack (apply_dirty same same_shape known d p) r (rw due at h))
              (dirty-shows exact known d p j e stay once n g)
      ]
