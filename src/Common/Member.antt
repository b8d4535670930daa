-- ===== src/Common/Member.antt =====
-- Membership and first position by a Boolean test: JavaScript's `indexOf` on values that `===`
-- compares.
use Prim.Native.Nat.{ℕ, zero, suc, ◌≤◌, ◌<◌}
use mathlib.Core.Path.{◌≡◌, refl, ap, sym, subst, ◌∙◌}
use mathlib.Core.Logic.{◌≢◌, ◌↔◌, inl, inr}
use mathlib.Core.Bool.{Bool, true, false, not, ◌&&◌, ◌||◌}
use mathlib.Core.List.{List, [], ◌∷◌, ◌++◌}
use mathlib.Core.Option.{some}
use native.Mathlib.Omega.{arith}
use cads_agent_marketplace.Common.Tests.{Eq, ◌==◌, Bool-cases, &&-left, &&-right, if◌then◌else◌}
use cads_agent_marketplace.Common.Lists.{length, filter, get_elem?, all, any, All}

module _ {ℓ} {A : Type ℓ} ⦃e : Eq A⦄ where
  -- `xs.indexOf(a) >= 0`
  abbrev pub contains : List A → A → Bool
  contains [] a = false
  contains (x ∷ xs) a = x == a || contains xs a

  -- `xs.indexOf(a)` where the value stands in the list, and the length where it does not.
  abbrev pub index_of : List A → A → ℕ
  index_of [] a = 0
  index_of (x ∷ xs) a = if x == a then 0 else suc (index_of xs a)

  -- `xs.splice(xs.indexOf(a), 1)` where the value stands in the list.
  abbrev pub erase : List A → A → List A
  erase [] a = []
  erase (x ∷ xs) a = if x == a then xs else x ∷ erase xs a

  -- `new Set(xs).size`
  abbrev pub set_size : List A → ℕ
  set_size [] = 0
  set_size (x ∷ xs) = if contains xs x then set_size xs else suc (set_size xs)

  -- No value stands twice.
  abbrev pub distinct : List A → Bool
  distinct [] = true
  distinct (x ∷ xs) = not (contains xs x) && distinct xs

  pub beq_self : (a : A) → (a == a) ≡ true
  beq_self a = (e.beq_iff a a).1 refl

  pub contains-append :
      (xs ys : List A) (a : A) → contains (xs ++ ys) a ≡ (contains xs a || contains ys a)
  contains-append [] ys a = refl
  contains-append (x ∷ xs) ys a = ground (arith, contains-append xs ys a)

  pub contains-last : (xs : List A) (a : A) → contains (xs ++ a ∷ []) a ≡ true
  contains-last xs a = ground (arith, contains-append xs (a ∷ []) a, beq_self a)

  pub distinct-last :
      (xs : List A) (a : A)
      → contains xs a ≡ false
      → distinct xs ≡ true
      → distinct (xs ++ a ∷ []) ≡ true
  distinct-last [] a h d = refl
  distinct-last (x ∷ xs) a h d =
      ground
        (arith, distinct-last xs a, contains-append xs (a ∷ []) x, e.beq_iff x a, e.beq_iff a x)

  pub contains-filter :
      (p : A → Bool) (xs : List A) (a : A) → contains (filter p xs) a ≡ (p a && contains xs a)
  contains-filter p [] a = ground arith
  contains-filter p (x ∷ xs) a = elim (Bool-cases (x == a)) [
    | inl same ↦ ground (arith, contains-filter p xs a, (e.beq_iff x a).0)
    | inr other ↦ ground (arith, contains-filter p xs a)
  ]

  pub set_size-le : (xs : List A) → set_size xs ≤ length xs
  set_size-le [] = omega arith
  set_size-le (x ∷ xs) = ground (arith, set_size-le xs)

  -- The size test of the source is the absence of repetitions.
  pub set_size-distinct : (xs : List A) → set_size xs ≡ length xs → distinct xs ≡ true
  set_size-distinct [] h = refl
  set_size-distinct (x ∷ xs) h = ground (arith, set_size-le xs, set_size-distinct xs)

  pub distinct-set_size : (xs : List A) → distinct xs ≡ true → set_size xs ≡ length xs
  distinct-set_size [] h = refl
  distinct-set_size (x ∷ xs) h = ground (arith, distinct-set_size xs)

  pub distinct-snoc :
      (xs : List A) (a : A)
      → distinct xs ≡ true
      → contains xs a ≡ false
      → distinct (xs ++ a ∷ []) ≡ true
  distinct-snoc [] a h k = refl
  distinct-snoc (x ∷ xs) a h k =
      ground (arith, distinct-snoc xs a, contains-append xs (a ∷ []) x, e.beq_iff a x, beq_self x)

  -- Two values at the same first position are one, if the first stands in the list.
  pub index_of-injective :
      (xs : List A) (a b : A) → contains xs a ≡ true → index_of xs a ≡ index_of xs b → a ≡ b
  index_of-injective [] a b c h = cc
  index_of-injective (x ∷ xs) a b c h =
      ground (arith, e.beq_iff x a, e.beq_iff x b, index_of-injective xs a b)

  pub index_of-lt : (xs : List A) (a : A) → contains xs a ≡ true → index_of xs a < length xs
  index_of-lt [] a h = cc
  index_of-lt (x ∷ xs) a h = ground (arith, index_of-lt xs a)

  pub contains-get : (xs : List A) (i : ℕ) {a : A} → get_elem? xs i ≡ some a → contains xs a ≡ true
  contains-get [] i h = cc
  contains-get (x ∷ xs) zero {a} h = ground (arith, e.beq_iff x a)
  contains-get (x ∷ xs) (suc i) h = ground (arith, contains-get xs i h)

  -- Different places of a list without repetitions hold different values.
  pub distinct-get :
      (xs : List A) (i j : ℕ) {a b : A}
      → distinct xs ≡ true
      → get_elem? xs i ≡ some a
      → get_elem? xs j ≡ some b
      → i ≢ j
      → a ≢ b
  distinct-get [] i j d p q n r = cc
  distinct-get (x ∷ xs) zero zero d p q n r = n refl
  distinct-get (x ∷ xs) zero (suc j) d p q n r = ground (arith, contains-get xs j q)
  distinct-get (x ∷ xs) (suc i) zero d p q n r = ground (arith, contains-get xs i p)
  distinct-get (x ∷ xs) (suc i) (suc j) d p q n r =
      distinct-get xs i j (&&-right _ _ d) p q (λ k. n (ap suc k)) r

  pub all-at :
      (p : A → Bool) (xs : List A) (a : A) → all p xs ≡ true → contains xs a ≡ true → p a ≡ true
  all-at p [] a h c = cc
  all-at p (x ∷ xs) a h c = elim (Bool-cases (x == a)) [
    | inl same ↦ let q = (e.beq_iff x a).0 same in subst (λ y. p y ≡ true) q (&&-left _ _ h)
    | inr other ↦ all-at p xs a (&&-right _ _ h) (ground arith)
  ]

  pub any-at :
      (p : A → Bool) (xs : List A) (a : A) → contains xs a ≡ true → p a ≡ true → any p xs ≡ true
  any-at p [] a c h = cc
  any-at p (x ∷ xs) a c h = elim (Bool-cases (x == a)) [
    | inl same ↦
        let q : p x ≡ true = subst (λ y. p y ≡ true) (sym ((e.beq_iff x a).0 same)) h in rw q
    | inr other ↦ ground (arith, any-at p xs a)
  ]

  pub any-witness :
      (p : A → Bool) (xs : List A)
      → any p xs ≡ true
      → (a : A) × (contains xs a ≡ true) × (p a ≡ true)
  any-witness p [] h = cc
  any-witness p (x ∷ xs) h = elim (Bool-cases (p x)) [
    | inl here ↦ (x, ground (arith, beq_self x), here)
    | inr later ↦ let (a, c, q) = any-witness p xs (ground arith) in (a, ground arith, q)
  ]

  -- Lists with the same members pass the same tests.
  pub any-same :
      (p : A → Bool) (xs ys : List A)
      → ((a : A) → contains xs a ≡ contains ys a)
      → any p xs ≡ any p ys
  any-same p xs ys h = elim (Bool-cases (any p xs)) [
    | inl some_x ↦
        let (a, c, q) = any-witness p xs some_x in some_x ∙ sym (any-at p ys a (sym (h a) ∙ c) q)
    | inr no_x ↦ elim (Bool-cases (any p ys)) [
      | inl some_y ↦
          let (a, c, q) = any-witness p ys some_y in absurd (cc (any-at p xs a (h a ∙ c) q))
      | inr no_y ↦ no_x ∙ sym no_y
    ]
  ]

  pub All-filter {κ} :
      (P : A → Type κ) (p : A → Bool) (xs ys : List A)
      → ((a : A) → contains ys a ≡ true → p a ≡ true → P a)
      → ((a : A) → contains xs a ≡ true → contains ys a ≡ true)
      → All P (filter p xs)
  All-filter P p [] ys f sub = tt
  All-filter P p (x ∷ xs) ys f sub =
      let rest = All-filter P p xs ys f (λ a c. sub a (ground arith)) in
      elim (Bool-cases (p x)) [
        | inl passes ↦ rw passes (f x (sub x (ground (arith, beq_self x))) passes, rest)
        | inr fails ↦ rw fails rest
      ]

-- Texts and other lists are compared element by element.
abbrev pub list_beq {ℓ} : {A : Type ℓ} ⦃e : Eq A⦄ → List A → List A → Bool
list_beq [] [] = true
list_beq [] (y ∷ ys) = false
list_beq (x ∷ xs) [] = false
list_beq (x ∷ xs) (y ∷ ys) = x == y && list_beq xs ys

cons_iff {ℓ} :
    {A : Type ℓ} ⦃e : Eq A⦄ (x y : A) (xs ys : List A)
    → (list_beq xs ys ≡ true) ↔ (xs ≡ ys)
    → ((x == y && list_beq xs ys) ≡ true) ↔ (x ∷ xs ≡ y ∷ ys)
cons_iff ⦃e⦄ x y xs ys same = (to, from)
  where
    to : (x == y && list_beq xs ys) ≡ true → x ∷ xs ≡ y ∷ ys
    to h =
        let first = (e.beq_iff x y).0 (&&-left (x == y) (list_beq xs ys) h) in
        let rest = same.0 (&&-right (x == y) (list_beq xs ys) h) in cc (first, rest)

    from : x ∷ xs ≡ y ∷ ys → (x == y && list_beq xs ys) ≡ true
    from h =
        let heads : x ≡ y = cc h in
        let tails : xs ≡ ys = cc h in
        let first = (e.beq_iff x y).1 heads in
        let rest = same.1 tails in ground (arith, first, rest)

pub list_beq_iff {ℓ} :
    {A : Type ℓ} ⦃e : Eq A⦄ (xs ys : List A) → (list_beq xs ys ≡ true) ↔ (xs ≡ ys)
list_beq_iff [] [] = (λ h. refl, λ h. refl)
list_beq_iff [] (y ∷ ys) = (λ h. cc, λ h. cc)
list_beq_iff (x ∷ xs) [] = (λ h. cc, λ h. cc)
list_beq_iff (x ∷ xs) (y ∷ ys) = cons_iff x y xs ys (list_beq_iff xs ys)

instance abbrev pub list_eq {ℓ} : {A : Type ℓ} ⦃e : Eq A⦄ → Eq (List A)
list_eq = record { beq = list_beq; beq_iff = list_beq_iff }
