-- ===== src/StateStore/Claim/Refused.antt =====
-- A claim of an operation whose record is blocked is refused (ues/state_store.py).
use universal_execution_syst.Prelude.{
  String, ◌≡◌, ◌≢◌, refl, Bool, true, false, ◌==◌, eq_iff, none, some, Option, inl, inr, Bool-cases,
  arith,
}
use universal_execution_syst.Prelude.Results.{Result, ok, raise}
use universal_execution_syst.Prelude.Execs
use universal_execution_syst.Runtime.{Runtime}
use universal_execution_syst.Idempotency.Effect.{EffectIdentity}
use universal_execution_syst.Idempotency.Records.{
  evaluate_idempotency, judge, judge_state, or_unknown, current_id,
}
use universal_execution_syst.Idempotency.Decide.{last_match}
use universal_execution_syst.StateStore.Model
use universal_execution_syst.StateStore.Model.{
  OperationState, value, OperationRecord, OperationRead, StateRead, WorkstreamRuntimeRecord,
  reconciled_not_observed,
}
use universal_execution_syst.StateStore.Interface.{StateStore}
use universal_execution_syst.StateStore.Gate
use universal_execution_syst.StateStore.Gate.{ClaimRequest, refused, open_to, gate, records_of}
use universal_execution_syst.StateStore.Claim
use universal_execution_syst.StateStore.Claim.Keeps.{Blocked}

-- A claim that returns and allows the mutation.
abbrev pub is_allowed : Result Gate.Claim → Bool
is_allowed (ok c) = c.mutation_allowed
is_allowed (raise e) = false

-- The decision of a state that is not RECONCILED_NOT_OBSERVED.
judged_unsafe :
    (op : String) (s : OperationState) (b : Bool)
    → s ≢ reconciled_not_observed
    → (judge_state op (value s) b).safe_to_execute ≡ false
unfolding judge_state
judged_unsafe op reconciled_not_observed b h = absurd (h refl)
judged_unsafe op _ b h = refl

or_unknown-value : (s : OperationState) → or_unknown (some (value s)) ≡ value s
or_unknown-value Model.planned = refl
or_unknown-value _ = refl

judge_unsafe :
    (k d : String) (r : OperationRecord)
    → r.state ≢ reconciled_not_observed
    → (judge k d (some (Gate.entry_of r))).safe_to_execute ≡ false
unfolding judge
judge_unsafe k d r h = elim (Bool-cases (r.request_digest == d)) [
  | inl e ↦ rw (e, or_unknown-value r.state) (judged_unsafe k r.state _ h)
  | inr e ↦ rw e
]

match_self :
    (k : String) (r : OperationRecord)
    → r.operation_key ≡ k
    → last_match k (records_of (some r)) ≡ some (Gate.entry_of r)
unfolding current_id
match_self k r e = rw ((eq_iff r.operation_key k).1 e)

not_safe :
    (k d : String) (r : OperationRecord)
    → r.operation_key ≡ k
    → r.state ≢ reconciled_not_observed
    → (evaluate_idempotency k d (records_of (some r))).safe_to_execute ≡ false
unfolding evaluate_idempotency
not_safe k d r e h = rw (match_self k r e) (judge_unsafe k d r h)

abbrev is_refused : Gate.Gate → Bool
is_refused (refused d) = true
is_refused (open_to r e a o) = false

module _ (rt : Runtime) (q : ClaimRequest) where
  gate_operation-Blocked :
      (r : WorkstreamRuntimeRecord) (e : EffectIdentity) (o : OperationRead)
      → Blocked q.operation_key o
      → is_refused (Gate.gate_operation rt q r e o) ≡ true
  unfolding Gate.gate_operation
  gate_operation-Blocked r e o (inl c) = rw c
  gate_operation-Blocked r e o (inr (p, s, f, k, n)) =
      rw (s, f, not_safe q.operation_key q.request_digest p k n)

  gate_effect-Blocked :
      (r : WorkstreamRuntimeRecord) (e : Option EffectIdentity) (o : OperationRead)
      → Blocked q.operation_key o
      → is_refused (Gate.gate_effect rt q r e o) ≡ true
  unfolding Gate.gate_effect
  gate_effect-Blocked r none o h = refl
  gate_effect-Blocked r (some e) o h = ground (arith, gate_operation-Blocked r e o h)

  gate-Blocked :
      (r : Option WorkstreamRuntimeRecord) (o : OperationRead)
      → Blocked q.operation_key o
      → is_refused (gate rt q r o) ≡ true
  unfolding gate
  gate-Blocked none o h = refl
  gate-Blocked (some r) o h = ground (arith, gate_effect-Blocked r q.effect_identity o h)

module _ {S : Type 0} (rt : Runtime) (store : StateStore S) (q : ClaimRequest) where
  -- A refusal changes nothing and allows nothing.
  refused_result :
      (g : Gate.Gate) (s : S)
      → is_refused g ≡ true
      → (is_allowed (Claim.proceed rt store q g s).0 ≡ false)
        × ((Claim.proceed rt store q g s).1 ≡ s)
  unfolding Claim.proceed
  refused_result (refused d) s h = (refl, refl)
  refused_result (open_to r e a o) s h = cc

  after_read :
      (m : Result StateRead) (s : S)
      → Blocked q.operation_key (store.read_operation q.operation_key s)
      → (is_allowed (Execs.continue m (Claim.claim_after rt store q) s).0 ≡ false)
        × ((Execs.continue m (Claim.claim_after rt store q) s).1 ≡ s)
  unfolding Claim.claim_after
  after_read (ok ws) s h = refused_result _ s (gate-Blocked rt q _ _ h)
  after_read (raise e) s h = (refl, refl)

  -- A claim of an operation whose record is corrupt, or is found in any other state than
  -- RECONCILED_NOT_OBSERVED, is not allowed and leaves the store as it is, whatever the request, the
  -- lane, the mode and the authority.
  pub Blocked-refused :
      (s : S)
      → Blocked q.operation_key (store.read_operation q.operation_key s)
      → (is_allowed (Claim.claim_operation rt store q s).0 ≡ false)
        × ((Claim.claim_operation rt store q s).1 ≡ s)
  unfolding Claim.claim_operation
  Blocked-refused s h = after_read (store.read_workstream q.lane_id s) s h
