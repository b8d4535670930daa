-- ===== src/Collab/Merge.antt =====
-- Editing together: the operations that two sides exchange, and how they are merged
-- (apps/duell-web/src/collab.js: MAX_IDS, MAX_JUMP, MAX_CLOCK, STICKER, wins, idCount, tick, apply,
-- okClock, okStamp).
use cads_agent_marketplace.Common.{
  Bool, Eq, List, Option, [], all, false, if◌then◌else◌, leb, length, list_eq, ltb, nat_eq, none,
  some, suc, true, ℕ, ◌&&◌, ◌+◌, ◌==◌, ◌||◌, ◌∷◌,
}

abbrev pub Text : Type 0
Text = List ℕ

-- A value with its stamp. An actor has 4 to 12 of the characters 0-9 and a-z, and stands here as the
-- number that compares as the text does (base 37, filled up with zeros on the right).
pub record Entry (A : Type 0) : Type 0 where
  pub value : A
  pub l : ℕ
  pub a : ℕ

module _ {K A : Type 0} ⦃e : Eq K⦄ where
  -- The properties of an object, by their names.
  abbrev pub get : List (K × A) → K → Option A
  get [] k = none
  get ((j, v) ∷ m) k = if j == k then some v else get m k

  abbrev pub put : List (K × A) → K → A → List (K × A)
  put [] k v = (k, v) ∷ []
  put ((j, w) ∷ m) k v = let rest = put m k v in if j == k then (k, v) ∷ m else (j, w) ∷ rest

  abbrev pub del : List (K × A) → K → List (K × A)
  del [] k = []
  del ((j, w) ∷ m) k = let rest = del m k in if j == k then rest else (j, w) ∷ rest

module _ {A : Type 0} where
  -- `wins`
  abbrev pub wins : ℕ → ℕ → Option (Entry A) → Bool
  wins l a none = true
  wins l a (some cur) = ltb cur.l l || (l == cur.l && ltb cur.a a)

  abbrev pub is_some : Option A → Bool
  is_some none = false
  is_some (some x) = true

-- What a frame may hold; `bad_op` stands for an operation of a wrong kind, length or type.
pub data Op (V G : Type 0) : Type 0 where
  field_op : Text → V → ℕ → ℕ → Op V G
  sticker_op : Text → G → ℕ → ℕ → Op V G
  dead_op : Text → ℕ → Op V G
  bad_op : Op V G

pub record Store (V G : Type 0) : Type 0 where
  pub fields : List (Text × Entry V)
  pub stickers : List (Text × Entry G)
  pub dead : List (Text × ℕ)
  pub clock : ℕ
  pub dirty : Bool

abbrev pub max_ids : ℕ
max_ids = 400

abbrev pub max_jump : ℕ
max_jump = 1000000

abbrev pub max_clock : ℕ
max_clock = 1099511627776

abbrev pub is_digit : ℕ → Bool
is_digit c = leb b'0' c && leb c b'9'

abbrev pub is_actor_char : ℕ → Bool
is_actor_char c = is_digit c || (leb b'a' c && leb c b'z')

abbrev pub is_actor : Text → Bool
is_actor t = all is_actor_char t && (leb 4 (length t) && leb (length t) 12)

-- `STICKER`, after the first `n` digits.
abbrev pub id_from : ℕ → Text → Bool
id_from n [] = false
id_from n (c ∷ cs) =
    let rest = id_from (suc n) cs in
    if is_digit c then rest else c == b'.' && (leb 1 n && (leb n 13 && is_actor cs))

unfoldable pub is_sticker_id : Text → Bool
is_sticker_id t = id_from 0 t

abbrev pub later : ℕ → ℕ → ℕ
later a b = if ltb a b then b else a

abbrev pub or_zero : Option ℕ → ℕ
or_zero none = 0
or_zero (some n) = n

module _ {V G : Type 0} where
  abbrev pub id_count : Store V G → ℕ
  id_count s = length s.stickers + length s.dead

  abbrev pub ok_clock : ℕ → Store V G → Bool
  ok_clock l s = leb 1 l && (leb l max_clock && leb l (s.clock + max_jump))

  abbrev pub write_field : Text → V → ℕ → ℕ → Store V G → Store V G
  write_field k v l a s =
      let won = wins l a (get s.fields k) in
      record s {
        clock = later s.clock l;
        fields = if won then put s.fields k (record { value = v; l = l; a = a }) else s.fields;
        dirty = won || s.dirty;
      }

  -- The answer, and what is left: a refused operation changes nothing.
  abbrev pub accept_if : Bool → Store V G → Store V G → Bool × Store V G
  accept_if true t s = (true, t)
  accept_if false t s = (false, s)

  abbrev pub has_room : Text → Store V G → Bool
  has_room id s = is_some (get s.stickers id) || ltb (id_count s) max_ids

  abbrev pub put_sticker : Text → G → ℕ → ℕ → Store V G → Store V G
  put_sticker id g l a s =
      let won = wins l a (get s.stickers id) in
      record s {
        clock = later s.clock l;
        stickers =
            if won then put s.stickers id (record { value = g; l = l; a = a }) else s.stickers;
        dirty = won || s.dirty;
      }

  -- A deleted sticker stays deleted, whatever arrives later.
  abbrev pub unless_dead : Bool → Text → G → ℕ → ℕ → Store V G → Bool × Store V G
  unless_dead true id g l a s = (true, s)
  unless_dead false id g l a s = accept_if (has_room id s) (put_sticker id g l a s) s

  abbrev pub apply_shaped : Bool → Text → G → ℕ → ℕ → Store V G → Bool × Store V G
  apply_shaped true id g l a s = unless_dead (is_some (get s.dead id)) id g l a s
  apply_shaped false id g l a s = (false, s)

  abbrev pub kill_sticker : Text → ℕ → Store V G → Store V G
  kill_sticker id l s = record s {
    clock = later s.clock l;
    stickers = del s.stickers id;
    dirty = is_some (get s.stickers id) || s.dirty;
    dead = put s.dead id (later (or_zero (get s.dead id)) l);
  }

  abbrev pub apply_dead : Text → ℕ → Store V G → Bool × Store V G
  apply_dead id l s =
      accept_if (is_sticker_id id && (ok_clock l s && (is_some (get s.dead id) || has_room id s)))
        (kill_sticker id l s) s

-- `fits` says which value a field takes, and `shapes` which stickers are as the source cleans them.
module _ {V G : Type 0} (fits : Text → V → Bool) (shapes : G → Bool) where
  -- `apply`
  unfoldable pub apply : Op V G → Store V G → Bool × Store V G
  apply (field_op k v l a) s = accept_if (fits k v && ok_clock l s) (write_field k v l a s) s
  apply (sticker_op id g l a) s =
      apply_shaped (is_sticker_id id && (ok_clock l s && shapes g)) id g l a s
  apply (dead_op id l) s = apply_dead id l s
  apply bad_op s = (false, s)
