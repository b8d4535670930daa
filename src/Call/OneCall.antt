-- ===== src/Call/OneCall.antt =====
-- Calls: one call at a time, and the calls that an endpoint remembers
-- (apps/call-core/src/call-core.js: CallEndpoint).
use mathlib.Core.Path.{subst}
use cads_agent_marketplace.Common.{
  &&-right, Bool, Bool-cases, List, [], ap, arith, contains, contains-last, distinct, distinct-last,
  false, if◌then◌else◌, inl, inr, length, length-append, list_eq, ltb, nat_eq, not, refl, sym, true,
  ℕ, ◌++◌, ◌∙◌, ◌∷◌, ◌≡◌, ◌≤◌,
}
use cads_agent_marketplace.Call.Endpoint.{
  Endpoint, Input, add_id, drop_oldest, endpoint_run, endpoint_step, new_endpoint, remember,
}
use cads_agent_marketplace.Call.Message.{Text}
use cads_agent_marketplace.Call.Remembered.{endpoint_step-ids}
use cads_agent_marketplace.Call.Session.{Timing}

-- At most 64 calls are remembered, each of them once.
pub record IsTidy (ids : List Text) : Type 0 where
  pub few : length ids ≤ 64
  pub once : distinct ids ≡ true

add_id-IsTidy :
    (i : Text) (ids : List Text) (b : Bool)
    → contains ids i ≡ b
    → IsTidy ids
    → (length (if b then ids else ids ++ i ∷ []) ≤ 65)
      × (distinct (if b then ids else ids ++ i ∷ []) ≡ true)
add_id-IsTidy i ids true h t = let few : length ids ≤ 64 = t.few in (omega arith, t.once)
add_id-IsTidy i ids false h t =
    let few : length ids ≤ 64 = t.few in
    (omega (arith, length-append ids (i ∷ [])), distinct-last ids i h t.once)

drop_oldest-IsTidy :
    (ids : List Text) → length ids ≤ 65 → distinct ids ≡ true → IsTidy (drop_oldest ids)
drop_oldest-IsTidy [] h d = record { few = omega arith; once = refl }
drop_oldest-IsTidy (i ∷ ids) h d = elim (Bool-cases (ltb 64 (length (i ∷ ids)))) [
  | inl long ↦
      subst (λ b. IsTidy (if b then ids else i ∷ ids)) (sym long)
        (record { few = omega arith; once = &&-right (not (contains ids i)) (distinct ids) d })
  | inr short ↦
      subst (λ b. IsTidy (if b then ids else i ∷ ids)) (sym short)
        (record { few = ground arith; once = d })
]

remember-IsTidy : (i : Text) (ids : List Text) → IsTidy ids → IsTidy (remember i ids)
unfolding remember
remember-IsTidy i ids t =
    let (few, once) = add_id-IsTidy i ids (contains ids i) refl t in
    drop_oldest-IsTidy (add_id i ids) few once

-- What was remembered last is not dropped.
drop_oldest-last : (ids : List Text) (i : Text) → contains (drop_oldest (ids ++ i ∷ [])) i ≡ true
drop_oldest-last [] i = contains-last [] i
drop_oldest-last (j ∷ ids) i = last_of (ltb 64 (length (j ∷ (ids ++ i ∷ []))))
  where
    last_of : (b : Bool) → contains (if b then ids ++ i ∷ [] else j ∷ (ids ++ i ∷ [])) i ≡ true
    last_of true = contains-last ids i
    last_of false = contains-last (j ∷ ids) i

drop_oldest-short : (ids : List Text) → length ids ≤ 64 → drop_oldest ids ≡ ids
drop_oldest-short [] few = refl
drop_oldest-short (i ∷ ids) few =
    let short : ltb 64 (length (i ∷ ids)) ≡ false = ground arith in rw short

pub remember-contains :
    (i : Text) (ids : List Text) → length ids ≤ 64 → contains (remember i ids) i ≡ true
unfolding remember
remember-contains i ids few = elim (Bool-cases (contains ids i)) [
  | inl known ↦
      subst (λ b. contains (drop_oldest (if b then ids else ids ++ i ∷ [])) i ≡ true) (sym known)
        (ap (λ js. contains js i) (drop_oldest-short ids few) ∙ known)
  | inr fresh ↦
      subst (λ b. contains (drop_oldest (if b then ids else ids ++ i ∷ [])) i ≡ true) (sym fresh)
        (drop_oldest-last ids i)
]

module _ (byte_length : Text → ℕ) where
  endpoint_run-IsKept :
      (xs : List (Input × ℕ)) (e : Endpoint)
      → IsTidy e.ended_ids
      → IsTidy (endpoint_run byte_length xs e).ended_ids
  unfolding endpoint_run
  endpoint_run-IsKept [] e h = h
  endpoint_run-IsKept ((x, now) ∷ xs) e h =
      endpoint_run-IsKept xs (endpoint_step byte_length x now e)
        (endpoint_step-ids IsTidy byte_length x now e (h, λ i. remember-IsTidy i e.ended_ids h))

  -- Whatever is dialled, received and done, in whatever order, a new endpoint never remembers more than
  -- 64 ended calls, and none of them twice.
  pub endpoint_run-IsTidy :
      (xs : List (Input × ℕ)) (t : Timing) (force_relay gives_servers : Bool) (hosts : List Text)
      → IsTidy
          (endpoint_run byte_length xs (new_endpoint t force_relay gives_servers hosts)).ended_ids
  unfolding new_endpoint
  endpoint_run-IsTidy xs t force_relay gives_servers hosts =
      endpoint_run-IsKept xs (new_endpoint t force_relay gives_servers hosts)
        (record { few = omega arith; once = refl })
