-- ===== src/Collab/Converge.antt =====
-- Editing together: two sides that get the same operations in another order
-- (apps/duell-web/src/collab.js: apply).
use cads_agent_marketplace.Common.{
  Bool, Option, ap, arith, false, if◌then◌else◌, list_beq_iff, list_eq, nat_eq, none, refl, some,
  sym, true, ℕ, ◌==◌, ◌∙◌, ◌≡◌,
}
use cads_agent_marketplace.Collab.Effect.{
  Agree, dead_step, field_step, settle, settle_comm, sticker_step,
}
use cads_agent_marketplace.Collab.Merge.{
  Entry, Op, Store, Text, apply, dead_op, field_op, get, is_some, later, or_zero, sticker_op,
}
use cads_agent_marketplace.Collab.Stepped.{apply-HasStepped}

module _ {V G : Type 0} where
  -- Two operations on the same field or sticker with the same stamp carry the same value.
  abbrev pub IsAgreed : Op V G → Op V G → Type 0
  IsAgreed (field_op j v l a) (field_op k w m b) = j ≡ k → l ≡ m → a ≡ b → v ≡ w
  IsAgreed (sticker_op i g l a) (sticker_op j h m b) = i ≡ j → l ≡ m → a ≡ b → g ≡ h
  IsAgreed _ _ = Unit

module _ {A : Type 0} where
  entry-same :
      (v w : A) (l m a b : ℕ)
      → (l ≡ m → a ≡ b → v ≡ w)
      → Agree (record { value = v; l = l; a = a }) (record { value = w; l = m; a = b })
  entry-same v w l m a b h e f = λ i. record { value = h e f i; l = e i; a = f i }

  -- Two writes, each if its name is the one that is asked for.
  both_comm :
      (c d : Bool) (cur : Option (Entry A)) (x y : Entry A)
      → (c ≡ true → d ≡ true → Agree x y)
      → (if d
          then settle (if c then settle cur x else cur) y
          else (if c then settle cur x else cur))
        ≡ (if c
            then settle (if d then settle cur y else cur) x
            else (if d then settle cur y else cur))
  both_comm true true cur x y h = settle_comm cur x y (h refl refl)
  both_comm true false cur x y h = refl
  both_comm false true cur x y h = refl
  both_comm false false cur x y h = refl

same_name : (i j k : Text) → (i == k) ≡ true → (j == k) ≡ true → i ≡ j
same_name i j k h e = (list_beq_iff i k).0 h ∙ sym ((list_beq_iff j k).0 e)

mark_comm :
    (c d : Bool) (mark : Option ℕ) (l m : ℕ)
    → (if d
        then some (later (or_zero (if c then some (later (or_zero mark) l) else mark)) m)
        else (if c then some (later (or_zero mark) l) else mark))
      ≡ (if c
          then some (later (or_zero (if d then some (later (or_zero mark) m) else mark)) l)
          else (if d then some (later (or_zero mark) m) else mark))
mark_comm true true mark l m = ap some (ground arith)
mark_comm true false mark l m = refl
mark_comm false true mark l m = refl
mark_comm false false mark l m = refl

module _ {G : Type 0} where
  alive_comm :
      (gone c d : Bool) (cur : Option (Entry G)) (x y : Entry G)
      → (c ≡ true → d ≡ true → Agree x y)
      → (if d
          then (if gone
              then (if c then (if gone then cur else settle cur x) else cur)
              else settle (if c then (if gone then cur else settle cur x) else cur) y)
          else (if c then (if gone then cur else settle cur x) else cur))
        ≡ (if c
            then (if gone
                then (if d then (if gone then cur else settle cur y) else cur)
                else settle (if d then (if gone then cur else settle cur y) else cur) x)
            else (if d then (if gone then cur else settle cur y) else cur))
  alive_comm true true true cur x y h = refl
  alive_comm true true false cur x y h = refl
  alive_comm true false true cur x y h = refl
  alive_comm true false false cur x y h = refl
  alive_comm false c d cur x y h = both_comm c d cur x y h

  killed_comm :
      (c k : Bool) (mark : Option ℕ) (n : ℕ) (cur : Option (Entry G)) (x : Entry G)
      → (if k then none else (if c then (if is_some mark then cur else settle cur x) else cur)) ≡ (
          if c
          then (if is_some (if k then some n else mark)
              then (if k then none else cur)
              else settle (if k then none else cur) x)
          else (if k then none else cur))
  killed_comm true true mark n cur x = refl
  killed_comm true false mark n cur x = refl
  killed_comm false true mark n cur x = refl
  killed_comm false false mark n cur x = refl

  swap_if :
      (c d : Bool) (cur : Option (Entry G))
      → (if d then none else (if c then none else cur))
        ≡ (if c then none else (if d then none else cur))
  swap_if true true cur = refl
  swap_if true false cur = refl
  swap_if false true cur = refl
  swap_if false false cur = refl

module _ {V G : Type 0} where
  field_step_comm :
      (o p : Op V G) (k : Text) (cur : Option (Entry V))
      → IsAgreed o p
      → field_step p k (field_step o k cur) ≡ field_step o k (field_step p k cur)
  field_step_comm (field_op i v l a) (field_op j w m b) k cur h =
      both_comm (i == k) (j == k) cur (record { value = v; l = l; a = a })
        (record { value = w; l = m; a = b })
        (λ e f. entry-same v w l m a b (h (same_name i j k e f)))
  field_step_comm _ _ k cur h = refl

  dead_step_comm :
      (o p : Op V G) (i : Text) (d : Option ℕ)
      → dead_step p i (dead_step o i d) ≡ dead_step o i (dead_step p i d)
  dead_step_comm (dead_op j l) (dead_op k m) i d = mark_comm (j == i) (k == i) d l m
  dead_step_comm _ _ i d = refl

  sticker_step_comm :
      (o p : Op V G) (i : Text) (d : Option ℕ) (cur : Option (Entry G))
      → IsAgreed o p
      → sticker_step p i (dead_step o i d) (sticker_step o i d cur)
        ≡ sticker_step o i (dead_step p i d) (sticker_step p i d cur)
  sticker_step_comm (sticker_op j g l a) (sticker_op k e m b) i d cur h =
      alive_comm (is_some d) (j == i) (k == i) cur (record { value = g; l = l; a = a })
        (record { value = e; l = m; a = b })
        (λ f q. entry-same g e l m a b (h (same_name j k i f q)))
  sticker_step_comm (sticker_op j g l a) (dead_op k m) i d cur h =
      killed_comm (j == i) (k == i) d (later (or_zero d) m) cur (record { value = g; l = l; a = a })
  sticker_step_comm (dead_op k m) (sticker_op j g l a) i d cur h = sym (
      killed_comm (j == i) (k == i) d (later (or_zero d) m) cur
        (record { value = g; l = l; a = a }))
  sticker_step_comm (dead_op j l) (dead_op k m) i d cur h = swap_if (j == i) (k == i) cur
  sticker_step_comm _ _ i d cur h = refl

-- The same content: every field, every sticker and every mark of a deleted sticker.
pub record IsSame {V G : Type 0} (s t : Store V G) : Type 0 where
  pub same_field : (k : Text) → get s.fields k ≡ get t.fields k
  pub same_sticker : (i : Text) → get s.stickers i ≡ get t.stickers i
  pub same_mark : (i : Text) → get s.dead i ≡ get t.dead i

-- Whatever values the fields take and whatever the stickers look like: if two operations are accepted
-- in either order, then the content is the same in both orders. The condition is that two writes of
-- the same field or sticker with the same stamp carry the same value.
pub apply-IsSame :
    {V G : Type 0} (fits : Text → V → Bool) (shapes : G → Bool) (o p : Op V G) (s : Store V G)
    → IsAgreed o p
    → (apply fits shapes o s).0 ≡ true
    → (apply fits shapes p (apply fits shapes o s).1).0 ≡ true
    → (apply fits shapes p s).0 ≡ true
    → (apply fits shapes o (apply fits shapes p s).1).0 ≡ true
    → IsSame
        (apply fits shapes p (apply fits shapes o s).1).1
        (apply fits shapes o (apply fits shapes p s).1).1
apply-IsSame fits shapes o p s agreed h1 h2 k1 k2 =
    let a = apply-HasStepped fits shapes o s h1 in
    let b = apply-HasStepped fits shapes p (apply fits shapes o s).1 h2 in
    let c = apply-HasStepped fits shapes p s k1 in
    let d = apply-HasStepped fits shapes o (apply fits shapes p s).1 k2 in
    record {
      same_field = λ k.
          b.field k
          ∙ (ap (field_step p k) (a.field k)
              ∙ (field_step_comm o p k (get s.fields k) agreed
                  ∙ (ap (field_step o k) (sym (c.field k)) ∙ sym (d.field k))));
      same_sticker = λ i.
          b.sticker i
          ∙ (ap (λ m. sticker_step p i m (get (apply fits shapes o s).1.stickers i)) (a.mark i)
              ∙ (ap (sticker_step p i (dead_step o i (get s.dead i))) (a.sticker i)
                  ∙ (sticker_step_comm o p i (get s.dead i) (get s.stickers i) agreed
                      ∙ (ap (sticker_step o i (dead_step p i (get s.dead i))) (sym (c.sticker i))
                          ∙ (ap (λ m. sticker_step o i m (get (apply fits shapes p s).1.stickers i))
                                (sym (c.mark i))
                              ∙ sym (d.sticker i))))));
      same_mark = λ i.
          b.mark i
          ∙ (ap (dead_step p i) (a.mark i)
              ∙ (dead_step_comm o p i (get s.dead i)
                  ∙ (ap (dead_step o i) (sym (c.mark i)) ∙ sym (d.mark i))));
    }
