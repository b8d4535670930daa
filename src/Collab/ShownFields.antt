-- ===== src/Collab/ShownFields.antt =====
-- Editing together: the fields on the screen (apps/duell-web/src/collab.js: applyTo).
use mathlib.Core.Path.{subst}
use cads_agent_marketplace.Common.{
  Bool, Bool-cases, List, Option, [], ap, arith, contains, distinct, false, inl, inr, list_eq, map,
  nat_eq, none, not, refl, some, sym, true, ◌&&◌, ◌==◌, ◌||◌, ◌∙◌, ◌∷◌, ◌≡◌,
}
use cads_agent_marketplace.Collab.Document.{differs}
use cads_agent_marketplace.Collab.Effect.{get-put}
use cads_agent_marketplace.Collab.Merge.{Entry, Text, get}
use cads_agent_marketplace.Collab.Shown.{show_one, show_values, shows}

-- What is on the screen is what was last shown.
abbrev pub InStep : {V : Type 0} → List (Text × V) → List (Text × V) → Type 0
InStep values view = (j : Text) → get values j ≡ get view j

abbrev pub keys_of : {A : Type 0} → List (Text × A) → List Text
keys_of m = map (λ p. p.0) m

same_text_self : (k : Text) → (k == k) ≡ true
same_text_self k = (list_eq.beq_iff k k).1 refl

not-false : (b : Bool) → not b ≡ false → b ≡ true
not-false b h = ground arith

or_false : (a b : Bool) → (a || b) ≡ false → (a ≡ false) × (b ≡ false)
or_false a b h = ground arith

not_there : (a b : Bool) → (not a && b) ≡ true → (a ≡ false) × (b ≡ true)
not_there a b h = ground arith

pub unpack : {A : Type 0} (a b : A) → some a ≡ some b → a ≡ b
unpack a b h = cc

pub nothing : {A : Type 0} (a : A) → none ≡ some a → ⊥
nothing a h = cc

-- `exact` says that `same` holds of equal values only.
module _ {V : Type 0} (same : V → V → Bool) (exact : (v w : V) → same v w ≡ true → v ≡ w)
    (known : (Text → Bool)) where
  differs-exact : (o : Option V) (v : V) → differs same o v ≡ false → o ≡ some v
  differs-exact none v h = cc
  differs-exact (some w) v h = ap (λ (x : V). some x) (sym (exact v w (not-false (same v w) h)))

  show_one-InStep :
      (k : Text) (v : V) (r : List (Text × V) × List (Text × V) × List Text)
      → InStep r.0 r.1
      → InStep (show_one same known k v r).0 (show_one same known k v r).1
  show_one-InStep k v r h j = elim (Bool-cases (shows same known r.1 k v)) [
    | inl e ↦ rw (e, get-put r.0 k v j, get-put r.1 k v j, h j)
    | inr e ↦ rw e (h j)
  ]

  show_one-shown :
      (k : Text) (v : V) (r : List (Text × V) × List (Text × V) × List Text)
      → InStep r.0 r.1
      → known k ≡ true
      → get (show_one same known k v r).0 k ≡ some v
  show_one-shown k v r h n = elim (Bool-cases (shows same known r.1 k v)) [
    | inl e ↦ rw (e, get-put r.0 k v k, same_text_self k)
    | inr e ↦ rw e (h k ∙ differs-exact (get r.1 k) v (rw n at e))
  ]

  show_one-other :
      (k : Text) (v : V) (r : List (Text × V) × List (Text × V) × List Text) (j : Text)
      → (k == j) ≡ false
      → get (show_one same known k v r).0 j ≡ get r.0 j
  show_one-other k v r j h = elim (Bool-cases (shows same known r.1 k v)) [
    | inl e ↦ rw (e, get-put r.0 k v j, h)
    | inr e ↦ rw e
  ]

  show_values-other :
      (fs : List (Text × Entry V)) (r : List (Text × V) × List (Text × V) × List Text) (j : Text)
      → contains (keys_of fs) j ≡ false
      → get (show_values same known fs r).0 j ≡ get r.0 j
  show_values-other [] r j h = refl
  show_values-other ((k, x) ∷ fs) r j h =
      show_values-other fs (show_one same known k x.value r) j
        (or_false (k == j) (contains (keys_of fs) j) h).1
      ∙ show_one-other k x.value r j (or_false (k == j) (contains (keys_of fs) j) h).0

  pub show_values-InStep :
      (fs : List (Text × Entry V)) (r : List (Text × V) × List (Text × V) × List Text)
      → InStep r.0 r.1
      → InStep (show_values same known fs r).0 (show_values same known fs r).1
  show_values-InStep [] r h = h
  show_values-InStep ((k, x) ∷ fs) r h =
      show_values-InStep fs (show_one same known k x.value r) (show_one-InStep k x.value r h)

  pub show_values-shown :
      (fs : List (Text × Entry V)) (r : List (Text × V) × List (Text × V) × List Text) (j : Text)
      (e : Entry V)
      → distinct (keys_of fs) ≡ true
      → InStep r.0 r.1
      → known j ≡ true
      → get fs j ≡ some e
      → get (show_values same known fs r).0 j ≡ some e.value
  show_values-shown [] r j e d h n g = cc
  show_values-shown ((k, x) ∷ fs) r j e d h n g = elim (Bool-cases (k == j)) [
    | inl s ↦
        let same_key : k ≡ j = (list_eq.beq_iff k j).0 s in
        let same_entry : x ≡ e = unpack x e (rw s at g) in
        let absent : contains (keys_of fs) k ≡ false =
          (not_there (contains (keys_of fs) k) (distinct (keys_of fs)) d).0 in
        subst
          (λ (i : Text).
            get (show_values same known fs (show_one same known k x.value r)).0 i ≡ some e.value)
          same_key
          (show_values-other fs (show_one same known k x.value r) k absent
            ∙ show_one-shown k x.value r h (subst (λ i. known i ≡ true) (sym same_key) n)
            ∙ ap (λ (y : Entry V). some y.value) same_entry)
    | inr s ↦
        show_values-shown fs (show_one same known k x.value r) j e
          (not_there (contains (keys_of fs) k) (distinct (keys_of fs)) d).1
          (show_one-InStep k x.value r h) n (rw s at g)
  ]
