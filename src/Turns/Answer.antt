-- ===== src/Turns/Answer.antt =====
-- The answer to a prompt (apps/duell-web/src/turns.js: okAnswer).
use Prim.Native.Nat.{max}
use cads_agent_marketplace.Common.{
  Bool, List, Option, [], all, false, filter, leb, length, list_beq, list_eq, ltb, map, nat_eq,
  none, not, some, suc, true, zero, ℕ, ◌%◌, ◌&&◌, ◌+◌, ◌==◌, ◌||◌, ◌∷◌,
}
use cads_agent_marketplace.Common.Int.{negsuc, pos, sub_ℕ, ℤ}
use cads_agent_marketplace.Turns.Seal.{is_nil}
use cads_agent_marketplace.Turns.Value.{
  Value, array, distinct_values, int_in, items, number, other, string,
}

-- What a prompt asks for, the source's `w`; `unknown` is any other.
pub data Widget : Type 0 where
  show touch clock blow hunt drop doors freeze rec once parrot pay : Widget
  slots vote bw shop wish opts whose inner blind nim react door voices : Widget
  grid probe explain blocks slide money text list ideas day pick rank alloc unknown : Widget

abbrev pub Moves : Type 0
Moves = List (List Value)

-- A card without its moves and its date: the seed, and whatever else its prompts read.
pub record Deck (D : Type 0) : Type 0 where
  pub seed : ℕ
  pub rest : D

-- A prompt, with the fields that its widget reads.
pub record Prompt (D : Type 0) : Type 0 where
  pub w : Widget
  pub n : ℕ
  pub min : ℕ
  pub max : ℕ
  pub sum : ℕ
  pub step : ℕ
  pub rounds : ℕ
  pub keys : ℕ
  pub bytes : Option ℕ
  pub least : Option ℕ
  pub loose : Bool
  pub same : Bool
  pub one_word : Bool
  pub check : Option (Value → Deck D → Moves → List Value → Bool)
  pub ok_moves : Value → Moves → Bool
  pub ok_now : ℤ → List Value → Bool
  -- `shopOk` with the configuration of the prompt
  pub ok_list : Value → Bool
  pub before : Deck D → Moves → List Value
  pub max_of : Option (Deck D → ℕ)
  pub from : Option (Deck D → Moves → List Value → ℕ)
  pub bad : Option (List ℕ → Deck D → Moves → Bool)

-- The filters of texts (quest.js), and the bytes of the elements of an array joined together.
pub record Filters : Type 0 where
  pub clean : List ℕ → ℕ → List ℕ
  pub fold : List ℕ → List ℕ
  pub is_space : ℕ → Bool
  pub joined_bytes : List Value → ℕ

abbrev pub is_zero : Value → Bool
is_zero v = int_in v (pos 0) (pos 0)

-- Every element is a number from `a` to `b`, and no two are the same.
abbrev pub all_in : ℕ → ℕ → List Value → Bool
all_in a b vs = all (λ v. int_in v (pos a) (pos b)) vs

-- Every element is a number below `n`.
abbrev pub all_below : ℕ → List Value → Bool
all_below n vs = all (λ v. int_in v (pos 0) (sub_ℕ n 1)) vs

-- A test of the elements of an array; anything else fails it.
abbrev pub if_array : Value → (List Value → Bool) → Bool
if_array (array vs) f = f (items vs)
if_array (number n) f = false
if_array (string t) f = false
if_array other f = false

abbrev pub if_string : Value → (List ℕ → Bool) → Bool
if_string (string t) f = f t
if_string (number n) f = false
if_string (array vs) f = false
if_string other f = false

abbrev pub if_number : Value → (ℤ → Bool) → Bool
if_number (number n) f = f n
if_number (string t) f = false
if_number (array vs) f = false
if_number other f = false

-- `filter(Boolean)` of texts.
abbrev pub is_filled : Value → Bool
is_filled (string []) = false
is_filled _ = true

abbrev pub no_number : ℤ → ℕ
no_number (pos n) = n
no_number (negsuc n) = 0

abbrev pub numbers : List Value → List ℕ
numbers [] = []
numbers (number n ∷ vs) = no_number n ∷ numbers vs
numbers (_ ∷ vs) = 0 ∷ numbers vs

abbrev pub total : List ℕ → ℕ
total [] = 0
total (x ∷ xs) = x + total xs

-- A multiple of `step`, which is not 0.
abbrev pub is_multiple : ℕ → ℕ → Bool
is_multiple step x = x % step == 0

abbrev pub door_ok : List Value → Bool
door_ok (a ∷ b ∷ c ∷ []) =
    int_in a (pos 0) (pos 10)
    && (int_in c (pos 0) (pos 999) && if_number c (λ n. int_in b (pos 0) n))
door_ok _ = false

module _ (q : Filters) where
  -- A text that the filter leaves as it is, and of which something is left.
  abbrev pub is_clean : ℕ → List ℕ → Bool
  is_clean max t = not (is_nil (q.clean t max)) && list_beq ⦃e = nat_eq⦄ (q.clean t max) t

  -- `Q.fold`, which makes a text of its argument first. Where a value is no text the lists that are
  -- compared are refused afterwards, except that the source throws for an object that cannot be made a
  -- text; such an object is like any other here.
  abbrev pub fold_value : Value → Value
  fold_value (string t) = string (q.fold t)
  fold_value v = v

  abbrev pub all_clean : ℕ → List Value → Bool
  all_clean max vs = all (λ v. if_string v (λ t. is_clean max t)) vs

  -- A text may be empty, and is else as the filter leaves it.
  abbrev pub all_loose : ℕ → List Value → Bool
  all_loose max vs =
      all (λ v. if_string v (λ t. is_nil t || list_beq ⦃e = nat_eq⦄ (q.clean t max) t)) vs

  abbrev pub enough_filled : Option ℕ → List Value → Bool
  enough_filled none vs = true
  enough_filled (some k) vs =
      leb k (length (filter is_filled vs)) && distinct_values (map fold_value (filter is_filled vs))

  abbrev pub ideas_ok : List Value → Bool
  ideas_ok (a ∷ b ∷ []) = if_array a (λ vs.
      leb 1 (length vs)
      && (leb (length vs) 5
          && (distinct_values (map fold_value vs)
              && (all_clean 40 vs && int_in b (pos 0) (sub_ℕ (length vs) 1)))))
  ideas_ok _ = false

  abbrev pub too_long : Option ℕ → Value → Bool
  too_long none v = false
  too_long (some zero) v = false
  too_long (some (suc k)) v = if_array v (λ vs. ltb (suc k) (q.joined_bytes vs))
