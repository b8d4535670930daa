-- ===== src/Collab/Stepped.antt =====
-- Editing together: what an accepted operation leaves (apps/duell-web/src/collab.js: apply).
use cads_agent_marketplace.Common.{
  Bool, Eq, Option, ap, false, if◌then◌else◌, list_eq, nat_eq, refl, some, sym, true, ℕ, ◌&&◌, ◌==◌,
  ◌||◌, ◌∙◌, ◌≡◌,
}
use cads_agent_marketplace.Collab.Effect.{
  dead_step, field_step, get-del, get-put, get-settled, settle, sticker_step,
}
use cads_agent_marketplace.Collab.Merge.{
  Entry, Op, Store, Text, accept_if, apply, apply_shaped, bad_op, dead_op, field_op, get, has_room,
  is_some, is_sticker_id, kill_sticker, later, ok_clock, or_zero, put_sticker, sticker_op,
  unless_dead, write_field,
}

module _ {K B : Type 0} ⦃e : Eq K⦄ where
  if-same :
      (i j : K) (f : K → B) (z : B) → (if i == j then f i else z) ≡ (if i == j then f j else z)
  if-same i j f z = split (i == j) (e.beq_iff i j).0
    where
      split : (c : Bool) → (c ≡ true → i ≡ j) → (if c then f i else z) ≡ (if c then f j else z)
      split true eq = ap f (eq refl)
      split false eq = refl

either : {A : Type 0} (c : Bool) (z : A) → z ≡ (if c then z else z)
either true z = refl
either false z = refl

module _ {V G : Type 0} where
  -- What an operation leaves, for a field and for a sticker.
  pub record HasStepped (o : Op V G) (s t : Store V G) : Type 0 where
    pub field : (k : Text) → get t.fields k ≡ field_step o k (get s.fields k)
    pub sticker : (i : Text) → get t.stickers i ≡ sticker_step o i (get s.dead i) (get s.stickers i)
    pub mark : (i : Text) → get t.dead i ≡ dead_step o i (get s.dead i)

  accepted-HasStepped :
      (b : Bool) (o : Op V G) (s t : Store V G)
      → HasStepped o s t
      → (accept_if b t s).0 ≡ true
      → HasStepped o s (accept_if b t s).1
  accepted-HasStepped true o s t h k = h
  accepted-HasStepped false o s t h k = cc

  write-HasStepped :
      (k : Text) (v : V) (l a : ℕ) (s : Store V G)
      → HasStepped (field_op k v l a) s (write_field k v l a s)
  write-HasStepped k v l a s = record {
    field = λ j. get-settled s.fields k (record { value = v; l = l; a = a }) j _ refl;
    sticker = λ i. refl;
    mark = λ i. refl;
  }

  -- Whether the mark of `id` or that of `i` is asked makes no difference for `i`.
  marked :
      (id i : Text) (s : Store V G) (x : Entry G) (b : Bool)
      → is_some (get s.dead id) ≡ b
      → (if id == i
          then (if b then get s.stickers i else settle (get s.stickers i) x)
          else get s.stickers i)
        ≡ (if id == i
            then (if is_some (get s.dead i) then get s.stickers i else settle (get s.stickers i) x)
            else get s.stickers i)
  marked id i s x b h =
      let cur : Option (Entry G) = get s.stickers i in
      ap (λ c. if id == i then (if c then cur else settle cur x) else cur) (sym h)
      ∙ if-same id i (λ j. if is_some (get s.dead j) then cur else settle cur x) cur

  put-HasStepped :
      (id : Text) (g : G) (l a : ℕ) (s : Store V G)
      → is_some (get s.dead id) ≡ false
      → HasStepped (sticker_op id g l a) s (put_sticker id g l a s)
  put-HasStepped id g l a s alive =
      let x : Entry G = record { value = g; l = l; a = a } in
      record {
        field = λ k. refl;
        sticker = λ i. get-settled s.stickers id x i _ refl ∙ marked id i s x false alive;
        mark = λ i. refl;
      }

  kept-HasStepped :
      (id : Text) (g : G) (l a : ℕ) (s : Store V G)
      → is_some (get s.dead id) ≡ true
      → HasStepped (sticker_op id g l a) s s
  kept-HasStepped id g l a s gone =
      let x : Entry G = record { value = g; l = l; a = a } in
      record {
        field = λ k. refl;
        sticker = λ i. either (id == i) (get s.stickers i) ∙ marked id i s x true gone;
        mark = λ i. refl;
      }

  kill-HasStepped :
      (id : Text) (l : ℕ) (s : Store V G) → HasStepped (dead_op id l) s (kill_sticker id l s)
  kill-HasStepped id l s = record {
    field = λ k. refl;
    sticker = λ i. get-del s.stickers id i;
    mark = λ i.
        get-put s.dead id (later (or_zero (get s.dead id)) l) i
        ∙ if-same id i (λ j. some (later (or_zero (get s.dead j)) l)) (get s.dead i);
  }

  unless-HasStepped :
      (b : Bool) (id : Text) (g : G) (l a : ℕ) (s : Store V G)
      → is_some (get s.dead id) ≡ b
      → (unless_dead b id g l a s).0 ≡ true
      → HasStepped (sticker_op id g l a) s (unless_dead b id g l a s).1
  unless-HasStepped true id g l a s gone h = kept-HasStepped id g l a s gone
  unless-HasStepped false id g l a s alive h =
      accepted-HasStepped (has_room id s) (sticker_op id g l a) s (put_sticker id g l a s)
        (put-HasStepped id g l a s alive) h

  shaped-HasStepped :
      (b : Bool) (id : Text) (g : G) (l a : ℕ) (s : Store V G)
      → (apply_shaped b id g l a s).0 ≡ true
      → HasStepped (sticker_op id g l a) s (apply_shaped b id g l a s).1
  shaped-HasStepped true id g l a s h =
      unless-HasStepped (is_some (get s.dead id)) id g l a s refl h
  shaped-HasStepped false id g l a s h = cc

module _ {V G : Type 0} (fits : Text → V → Bool) (shapes : G → Bool) where
  -- Whatever values the fields take and whatever the stickers look like: an accepted operation acts on
  -- each field and each sticker by itself. A field takes the entry that wins by its stamp, a sticker
  -- too unless it was deleted, a deletion takes the sticker away and marks it with its latest stamp,
  -- and all else stays as it was.
  pub apply-HasStepped :
      (o : Op V G) (s : Store V G)
      → (apply fits shapes o s).0 ≡ true
      → HasStepped o s (apply fits shapes o s).1
  unfolding apply
  apply-HasStepped (field_op k v l a) s h =
      accepted-HasStepped (fits k v && ok_clock l s) (field_op k v l a) s (write_field k v l a s)
        (write-HasStepped k v l a s) h
  apply-HasStepped (sticker_op id g l a) s h =
      shaped-HasStepped (is_sticker_id id && (ok_clock l s && shapes g)) id g l a s h
  apply-HasStepped (dead_op id l) s h =
      accepted-HasStepped
        (is_sticker_id id && (ok_clock l s && (is_some (get s.dead id) || has_room id s)))
        (dead_op id l) s (kill_sticker id l s) (kill-HasStepped id l s) h
  apply-HasStepped bad_op s h = cc
