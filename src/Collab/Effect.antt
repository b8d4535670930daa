-- ===== src/Collab/Effect.antt =====
-- Editing together: what an operation does to one field and to one sticker
-- (apps/duell-web/src/collab.js: apply).
use cads_agent_marketplace.Common.{
  Bool, Eq, List, Option, [], ap, arith, false, if◌then◌else◌, list_eq, nat_eq, none, refl, some,
  sym, true, ℕ, ◌==◌, ◌∙◌, ◌∷◌, ◌≡◌,
}
use cads_agent_marketplace.Collab.Merge.{
  Entry, Op, Text, dead_op, del, field_op, get, is_some, later, or_zero, put, sticker_op, wins,
}

module _ {K A : Type 0} ⦃e : Eq K⦄ where
  pub get-put :
      (m : List (K × A)) (k : K) (v : A) (j : K)
      → get (put m k v) j ≡ (if k == j then some v else get m j)
  get-put [] k v j = refl
  get-put ((i, w) ∷ m) k v j =
      ground (arith, get-put m k v j, e.beq_iff i k, e.beq_iff i j, e.beq_iff k j)

  pub get-del : (m : List (K × A)) (k j : K) → get (del m k) j ≡ (if k == j then none else get m j)
  get-del [] k j = ground arith
  get-del ((i, w) ∷ m) k j =
      ground (arith, get-del m k j, e.beq_iff i k, e.beq_iff i j, e.beq_iff k j)

module _ {A : Type 0} where
  -- A field or a sticker after an operation on it.
  abbrev pub settle : Option (Entry A) → Entry A → Option (Entry A)
  settle cur x = if wins x.l x.a cur then some x else cur

  -- Two entries with the same stamp are the same.
  abbrev pub Agree : Entry A → Entry A → Type 0
  Agree x y = x.l ≡ y.l → x.a ≡ y.a → x ≡ y

  pub settle_comm :
      (cur : Option (Entry A)) (x y : Entry A)
      → Agree x y
      → settle (settle cur x) y ≡ settle (settle cur y) x
  settle_comm none x y h = ground arith
  settle_comm (some c) x y h = ground arith

module _ {K A : Type 0} ⦃e : Eq K⦄ where
  pub get-settled :
      (m : List (K × Entry A)) (k : K) (x : Entry A) (j : K) (b : Bool)
      → wins x.l x.a (get m k) ≡ b
      → get (if b then put m k x else m) j ≡ (if k == j then settle (get m j) x else get m j)
  get-settled m k x j true h = get-put m k x j ∙ found (k == j) (e.beq_iff k j).0
    where
      found :
          (c : Bool)
          → (c ≡ true → k ≡ j)
          → (if c then some x else get m j) ≡ (if c then settle (get m j) x else get m j)
      found true eq =
          let won : wins x.l x.a (get m j) ≡ true =
            ap (λ i. wins x.l x.a (get m i)) (sym (eq refl)) ∙ h in
          ap (λ w. if w then some x else get m j) (sym won)
      found false eq = refl
  get-settled m k x j false h = kept (k == j) (e.beq_iff k j).0
    where
      kept : (c : Bool) → (c ≡ true → k ≡ j) → get m j ≡ (if c then settle (get m j) x else get m j)
      kept true eq =
          let lost : wins x.l x.a (get m j) ≡ false =
            ap (λ i. wins x.l x.a (get m i)) (sym (eq refl)) ∙ h in
          ap (λ w. if w then some x else get m j) (sym lost)
      kept false eq = refl

module _ {V G : Type 0} where
  -- What an accepted operation makes of a field, of a sticker and of the mark of a deleted one.
  abbrev pub field_step : Op V G → Text → Option (Entry V) → Option (Entry V)
  field_step (field_op k v l a) j cur =
      if k == j then settle cur (record { value = v; l = l; a = a }) else cur
  field_step _ j cur = cur

  abbrev pub sticker_step : Op V G → Text → Option ℕ → Option (Entry G) → Option (Entry G)
  sticker_step (sticker_op i g l a) id dead cur =
      if i == id
      then (if is_some dead then cur else settle cur (record { value = g; l = l; a = a }))
      else cur
  sticker_step (dead_op i l) id dead cur = if i == id then none else cur
  sticker_step _ id dead cur = cur

  abbrev pub dead_step : Op V G → Text → Option ℕ → Option ℕ
  dead_step (dead_op i l) id dead = if i == id then some (later (or_zero dead) l) else dead
  dead_step _ id dead = dead
