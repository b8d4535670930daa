-- ===== src/Common/Subset.antt =====
-- A list without repetitions that is part of another list is not longer.
use Prim.Native.Nat.{suc, ◌≤◌}
use mathlib.Core.Path.{◌≡◌, sym, subst}
use mathlib.Core.Logic.{inl, inr}
use mathlib.Core.Bool.{true, false}
use mathlib.Core.List.{List, [], ◌∷◌}
use native.Mathlib.Omega.{arith}
use cads_agent_marketplace.Common.Tests.{Eq, ◌==◌, Bool-cases}
use cads_agent_marketplace.Common.Lists.{length}
use cads_agent_marketplace.Common.Member.{beq_self, contains, distinct, erase}

module _ {ℓ} {A : Type ℓ} ⦃e : Eq A⦄ where
  length-erase :
      (ys : List A) (a : A) → contains ys a ≡ true → length ys ≡ suc (length (erase ys a))
  length-erase [] a h = cc
  length-erase (y ∷ ys) a h = elim (Bool-cases (y == a)) [
    | inl same ↦ ground (arith, same)
    | inr other ↦ ground (arith, other, length-erase ys a)
  ]

  contains-erase :
      (ys : List A) (a b : A)
      → contains ys b ≡ true
      → (a == b) ≡ false
      → contains (erase ys a) b ≡ true
  contains-erase [] a b h n = cc
  contains-erase (y ∷ ys) a b h n =
      ground (arith, contains-erase ys a b, e.beq_iff y a, e.beq_iff y b, e.beq_iff a b)

  other_of :
      (xs : List A) (x a : A) → contains xs x ≡ false → contains xs a ≡ true → (x == a) ≡ false
  other_of xs x a fresh h = elim (Bool-cases (x == a)) [
    | inl same ↦
        let equal : x ≡ a = (e.beq_iff x a).0 same in
        let both : contains xs x ≡ true = subst (λ b. contains xs b ≡ true) (sym equal) h in cc
    | inr other ↦ other
  ]

  pub length-distinct_le :
      (xs ys : List A)
      → distinct xs ≡ true
      → ((a : A) → contains xs a ≡ true → contains ys a ≡ true)
      → length xs ≤ length ys
  length-distinct_le [] ys d sub = omega arith
  length-distinct_le (x ∷ xs) ys d sub =
      let fresh : contains xs x ≡ false = ground arith in
      let rest : distinct xs ≡ true = ground arith in
      let found : contains ys x ≡ true = sub x (ground (arith, beq_self x)) in
      let shorter =
        length-distinct_le xs (erase ys x) rest
          (λ a h. contains-erase ys x a (sub a (ground arith)) (other_of xs x a fresh h)) in
      omega (arith, length-erase ys x found, shorter)
