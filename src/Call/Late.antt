-- ===== src/Call/Late.antt =====
-- Calls: a late invitation to a call that is over
-- (apps/call-core/src/call-core.js: CallEndpoint's constructor, onInvite).
use mathlib.Core.List.{append_assoc}
use mathlib.Core.Path.{subst}
use cads_agent_marketplace.Common.{
  Bool, Bool-cases, List, Option, [], ap, arith, beq_self, contains, contains-append, false,
  if◌then◌else◌, inl, inr, length, length-append, list_beq_iff, list_eq, ltb, nat_eq, none, refl,
  some, suc, sym, true, ℕ, ◌++◌, ◌+◌, ◌<◌, ◌==◌, ◌∙◌, ◌∷◌, ◌≡◌, ◌≤◌,
}
use cads_agent_marketplace.Call.Endpoint.{
  Endpoint, Input, active, drop_oldest, endpoint_run, endpoint_step, invite_for, new_invite,
  on_invite, remember, ring_unless, settle, tell,
}
use cads_agent_marketplace.Call.Message.{Reason, Text, ringing}
use cads_agent_marketplace.Call.Remembered.{endpoint_step-ids}
use cads_agent_marketplace.Call.SecondCall.{call-IsActive}
use cads_agent_marketplace.Call.Session.{Session}
use cads_agent_marketplace.Call.Timers.{finish, finish_open, is_over}

-- The call is remembered, and at most `n` calls were remembered after it.
abbrev IsRecent : Text → ℕ → List Text → Type 0
IsRecent i n ids =
    (older : List Text) × (newer : List Text) × (ids ≡ older ++ i ∷ newer) × (length newer ≤ n)

drop_oldest-IsRecent :
    (i : Text) (n : ℕ) (older newer : List Text)
    → length newer ≤ n
    → n < 64
    → IsRecent i n (drop_oldest (older ++ i ∷ newer))
drop_oldest-IsRecent i n [] newer few less =
    let short : ltb 64 (length (i ∷ newer)) ≡ false = ground arith in
    subst (λ b. IsRecent i n (if b then newer else i ∷ newer)) (sym short) ([], newer, refl, few)
drop_oldest-IsRecent i n (j ∷ older) newer few less =
    by_size (ltb 64 (length (j ∷ older ++ i ∷ newer)))
  where
    by_size : (b : Bool) → IsRecent i n (if b then older ++ i ∷ newer else j ∷ older ++ i ∷ newer)
    by_size true = (older, newer, refl, few)
    by_size false = (j ∷ older, newer, refl, few)

remember-IsRecent :
    (i j : Text) (n : ℕ) (ids : List Text)
    → suc n < 64
    → IsRecent i n ids
    → IsRecent i (suc n) (remember j ids)
unfolding remember
remember-IsRecent i j n ids less (older, newer, e, few) =
    subst (λ js. IsRecent i (suc n) (remember j js)) (sym e)
      (by_known (contains (older ++ i ∷ newer) j))
  where
    by_known :
        (b : Bool)
        → IsRecent i
            (suc n)
            (drop_oldest (if b then older ++ i ∷ newer else (older ++ i ∷ newer) ++ j ∷ []))
    by_known true = drop_oldest-IsRecent i (suc n) older newer (omega arith) less
    by_known false =
        subst (λ js. IsRecent i (suc n) (drop_oldest js))
          (sym (append_assoc older (i ∷ newer) (j ∷ [])))
          (drop_oldest-IsRecent i (suc n) older (newer ++ j ∷ [])
            (omega (arith, length-append newer (j ∷ []))) less)

-- A call that was not remembered before is the last that is remembered.
remember-last :
    (i : Text) (ids : List Text) → contains ids i ≡ false → IsRecent i 0 (remember i ids)
unfolding remember
remember-last i ids fresh =
    subst (λ b. IsRecent i 0 (drop_oldest (if b then ids else ids ++ i ∷ []))) (sym fresh)
      (drop_oldest-IsRecent i 0 ids [] (omega arith) (omega arith))

IsRecent-contains : (i : Text) (n : ℕ) (ids : List Text) → IsRecent i n ids → contains ids i ≡ true
IsRecent-contains i n ids (older, newer, e, few) =
    ap (λ js. contains js i) e ∙ ground (arith, contains-append older (i ∷ newer) i, beq_self i)

-- How much longer the list of newer calls may be after an input.
abbrev pub ends : List Text → List Text → ℕ
ends before next = if before == next then 0 else 1

abbrev Moved : Text → ℕ → List Text → List Text → Type 0
Moved i n before next = n + ends before next < 64 → IsRecent i (n + ends before next) next

IsRecent-same : (i : Text) (n : ℕ) (ids : List Text) → IsRecent i n ids → Moved i n ids ids
IsRecent-same i n ids (older, newer, e, few) less = (older, newer, e, omega arith)

IsRecent-next :
    (i j : Text) (n : ℕ) (ids : List Text) → IsRecent i n ids → Moved i n ids (remember j ids)
IsRecent-next i j n ids r less = elim (Bool-cases (ids == remember j ids)) [
  | inl same ↦
      let kept : ids ≡ remember j ids = (list_beq_iff ids (remember j ids)).0 same in
      subst (Moved i n ids) kept (IsRecent-same i n ids r) less
  | inr other ↦
      let counted : n + ends ids (remember j ids) ≡ suc n = rw other (omega arith) in
      subst (λ m. IsRecent i m (remember j ids)) (sym counted)
        (remember-IsRecent i j n ids (omega (arith, less, counted)) r)
]

remembered-invite :
    (o : Option Session) (i : Text) (video : Bool) (e : Endpoint)
    → contains e.ended_ids i ≡ true
    → (invite_for o i video e).call ≡ e.call
remembered-invite none i video e h =
    ap (λ b. (if b then e else ring_unless (active e) i video e).call) h
remembered-invite (some s) i video e h = same_id (s.call_id == i) (is_over s)
  where
    same_id :
        (b over : Bool)
        → (if b then (if over then e else tell i ringing e) else new_invite i video e).call ≡ e.call
    same_id true true = refl
    same_id true false = refl
    same_id false over = ap (λ b. (if b then e else ring_unless (active e) i video e).call) h

finish-IsRecent :
    (reason : Reason) (notify : Bool) (c : Session) (e : Endpoint)
    → is_over c ≡ false
    → contains e.ended_ids c.call_id ≡ false
    → IsRecent c.call_id 0 (settle c (finish reason notify c) e).ended_ids
finish-IsRecent reason notify c e alive fresh =
    subst
      (λ b.
        IsRecent c.call_id 0 (settle c (if b then c else finish_open reason notify c) e).ended_ids)
      (sym alive)
      (subst (λ b. IsRecent c.call_id 0 (if b then remember c.call_id e.ended_ids else e.ended_ids))
        (sym longer_told) (remember-last c.call_id e.ended_ids fresh))
  where
    longer_told : ltb (length c.told) (length (c.told ++ reason ∷ [])) ≡ true
    longer_told = ground (arith, length-append c.told (reason ∷ []))

-- How many of the inputs change what is remembered: each of them ends a call.
module _ (byte_length : Text → ℕ) where
  abbrev pub count_ends : List (Input × ℕ) → Endpoint → ℕ
  count_ends [] e = 0
  count_ends ((x, now) ∷ xs) e =
      let f = endpoint_step byte_length x now e in ends e.ended_ids f.ended_ids + count_ends xs f

  run-IsRecent :
      (i : Text) (n : ℕ) (xs : List (Input × ℕ)) (e : Endpoint)
      → n + count_ends xs e < 64
      → IsRecent i n e.ended_ids
      → contains (endpoint_run byte_length xs e).ended_ids i ≡ true
  unfolding endpoint_run
  run-IsRecent i n [] e less r = IsRecent-contains i n e.ended_ids r
  run-IsRecent i n ((x, now) ∷ xs) e less r =
      let f = endpoint_step byte_length x now e in
      let moved =
        endpoint_step-ids (Moved i n e.ended_ids) byte_length x now e
          (IsRecent-same i n e.ended_ids r, λ j. IsRecent-next i j n e.ended_ids r) in
      run-IsRecent i (n + ends e.ended_ids f.ended_ids) xs f (omega arith) (moved (omega arith))

  -- Once the active call has ended, for whatever reason, a late invitation to it does not make the phone
  -- ring again, whatever is dialled, received and done in between, as long as at most 63 further calls
  -- have ended since: the endpoint keeps the call that it holds by then, if any. The id of the call must
  -- not have been remembered before the call ended.
  pub on_invite-late :
      (reason : Reason) (notify video : Bool) (c : Session) (e : Endpoint) (xs : List (Input × ℕ))
      → active e ≡ some c
      → contains e.ended_ids c.call_id ≡ false
      → count_ends xs (settle c (finish reason notify c) e) < 64
      → let f = endpoint_run byte_length xs (settle c (finish reason notify c) e) in
        (on_invite c.call_id video f).call ≡ f.call
  on_invite-late reason notify video c e xs h fresh few =
      let after = settle c (finish reason notify c) e in
      let f = endpoint_run byte_length xs after in
      remembered-invite f.call c.call_id video f (
        run-IsRecent c.call_id 0 xs after (subst (λ n. n < 64) (counted (count_ends xs after)) few)
          (finish-IsRecent reason notify c e (call-IsActive e.call c h).1 fresh))
    where
      counted : (n : ℕ) → n ≡ 0 + n
      counted n = omega arith
