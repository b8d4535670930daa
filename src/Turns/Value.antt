-- ===== src/Turns/Value.antt =====
-- The values of an answer, as JSON.parse gives them (apps/duell-web/src/turns.js: okAnswer, intIn,
-- distinct).
use cads_agent_marketplace.Common.{
  Bool, List, Option, [], any, ap, false, list_beq, nat_eq, none, not, refl, some, true, ℕ, ◌&&◌,
  ◌∷◌, ◌≡◌,
}
use cads_agent_marketplace.Common.Int.{ltb_ℤ, ℤ}

mutual
  -- `other` is a number that is no integer, a Boolean, null or an object.
  pub data Value : Type 0 where
    number : ℤ → Value
    string : List ℕ → Value
    array : Values → Value
    other : Value

  pub data Values : Type 0 where
    nil : Values
    cons : Value → Values → Values

-- The elements of an array, and back.
abbrev pub items : Values → List Value
items nil = []
items (cons v vs) = v ∷ items vs

abbrev pub of_items : List Value → Values
of_items [] = nil
of_items (v ∷ vs) = cons v (of_items vs)

pub items-of_items : (vs : List Value) → items (of_items vs) ≡ vs
items-of_items [] = refl
items-of_items (v ∷ vs) = ap (λ r. v ∷ r) (items-of_items vs)

-- `Array.isArray`
abbrev pub elements : Value → Option (List Value)
elements (array vs) = some (items vs)
elements (number n) = none
elements (string t) = none
elements other = none

-- `intIn`
abbrev pub int_in : Value → ℤ → ℤ → Bool
int_in (number n) a b = not (ltb_ℤ n a) && not (ltb_ℤ b n)
int_in (string t) a b = false
int_in (array vs) a b = false
int_in other a b = false

-- `distinct`, where the elements are numbers or texts; two arrays are never the same element.
abbrev pub value_beq : Value → Value → Bool
value_beq (number a) (number b) = not (ltb_ℤ a b) && not (ltb_ℤ b a)
value_beq (string s) (string t) = list_beq ⦃e = nat_eq⦄ s t
value_beq _ _ = false

abbrev pub distinct_values : List Value → Bool
distinct_values [] = true
distinct_values (v ∷ vs) = not (any (value_beq v) vs) && distinct_values vs
