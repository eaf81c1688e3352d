-- ===== src/StateStore/Claim/Secures.antt =====
-- A claim that is allowed leaves its operation's record blocked (ues/state_store.py).
use universal_execution_syst.Prelude.{
  ℕ, String, ◌≡◌, ◌≢◌, refl, sym, ◌∙◌, true, false, Option, inl, inr, Bool-cases, arith,
}
use universal_execution_syst.Prelude.Results.{Result, ok, raise}
use universal_execution_syst.Prelude.Execs
use universal_execution_syst.Prelude.Execs.{Exec}
use universal_execution_syst.Json.{Json}
use universal_execution_syst.Runtime.{Runtime}
use universal_execution_syst.Idempotency.Effect.{EffectIdentity}
use universal_execution_syst.StateStore.Model.{
  ActivationMode, shadow, canary, active_auto_safe, OperationRecord, OperationRead, StateRead,
  LeaseAcquireResult, WorkstreamRuntimeRecord, reconciled_not_observed, in_flight,
}
use universal_execution_syst.StateStore.Interface.{StateStore, OperationLaws, ReadsBack}
use universal_execution_syst.StateStore.Authority.{Authority}
use universal_execution_syst.StateStore.Gate
use universal_execution_syst.StateStore.Gate.{ClaimRequest, ClaimDecision, refused, open_to}
use universal_execution_syst.StateStore.Claim
use universal_execution_syst.StateStore.Claim.Keeps.{Blocked, note_receipt-Leaves}
use universal_execution_syst.StateStore.Claim.Refused.{is_allowed}

in_flight_is_not : in_flight ≢ reconciled_not_observed
in_flight_is_not e = cc

module _ {S : Type 0} (rt : Runtime) (store : StateStore S) (laws : OperationLaws store)
    (q : ClaimRequest) where
  -- An answer that allows the mutation has left the record of the operation blocked.
  abbrev Secures : Exec S Gate.Claim → Type 0
  Secures m =
      (s : S)
      → is_allowed (m s).0 ≡ true
      → Blocked q.operation_key (store.read_operation q.operation_key (m s).1)

  attempt_record-in_flight :
      (w : String) (e : EffectIdentity) (receipt : Json) (o : Option OperationRecord)
      (op : OperationRecord)
      → Claim.attempt_record rt store q w e receipt o ≡ ok op
      → op.state ≡ in_flight
  unfolding Claim.attempt_record
  attempt_record-in_flight w e receipt o op h = ground arith

  Blocked-of_ReadsBack :
      (op : OperationRecord) (o : OperationRead)
      → op.state ≡ in_flight
      → ReadsBack q.operation_key op o
      → Blocked q.operation_key o
  Blocked-of_ReadsBack op o f (inl c) = inl c
  Blocked-of_ReadsBack op o f (inr (p, s, r, k, st, d)) =
      inr (p, s, r, k, λ e. in_flight_is_not (sym f ∙ (sym st ∙ e)))

  released-refuses :
      (d : ClaimDecision) (m : Result StateRead) (s : S)
      → is_allowed (Claim.released rt store q d m s).0 ≡ false
  unfolding Claim.released
  released-refuses d (ok r) s = refl
  released-refuses d (raise e) s = ground arith

  give_up-Secures : (id : String) (d : ClaimDecision) → Secures (Claim.give_up rt store q id d)
  unfolding Claim.give_up
  give_up-Secures id d s h = cc (released-refuses d _ _)

  save_attempt-Secures :
      (v : ℕ) (m : Result OperationRecord) (s : S) (o : OperationRead)
      → ((op : OperationRecord) → m ≡ ok op → op.state ≡ in_flight)
      → (Claim.save_attempt rt store q v m s).0 ≡ ok o
      → Blocked q.operation_key
          (store.read_operation q.operation_key (Claim.save_attempt rt store q v m s).1)
  unfolding Claim.save_attempt
  save_attempt-Secures v (ok op) s o f h =
      Blocked-of_ReadsBack op
        (store.read_operation q.operation_key
          (store.compare_and_swap_operation q.operation_key v op s).1)
        (f op refl) (laws.read-cas_ok q.operation_key v op s o h)
  save_attempt-Secures v (raise e) s o f h = cc

  -- Saved, the record is blocked, and the last step leaves it.
  saved_as-Secures :
      (l : LeaseAcquireResult) (a : Authority) (receipt : Json) (m : Result OperationRead) (s : S)
      → ((o : OperationRead)
          → m ≡ ok o
          → Blocked q.operation_key (store.read_operation q.operation_key s))
      → is_allowed (Claim.saved_as rt store q l a receipt m s).0 ≡ true
      → Blocked q.operation_key
          (store.read_operation q.operation_key (Claim.saved_as rt store q l a receipt m s).1)
  unfolding Claim.saved_as
  saved_as-Secures l a receipt (ok o) s b h =
      rw ((note_receipt-Leaves store laws q.operation_key rt q l a o receipt).at s) (b o refl)
  saved_as-Secures l a receipt (raise e) s b h = elim (Bool-cases (Claim.is_race e)) [
    | inl race ↦
        rw race (give_up-Secures l.lease.lease_id Gate.operation_claim_race s (rw race at h))
    | inr other ↦ cc (rw other at h)
  ]

  save-Secures :
      (r : WorkstreamRuntimeRecord) (e : EffectIdentity) (a : Authority) (o : OperationRead)
      (l : LeaseAcquireResult)
      → Secures (Claim.save rt store q r e a o l)
  unfolding Claim.save
  save-Secures r e a o l s h =
      saved_as-Secures l a _ _ _
        (λ saved got.
          save_attempt-Secures _ _ s saved
            (λ op made. attempt_record-in_flight r.workstream_id e _ _ op made) got)
        h

  consumed_as-Secures :
      (r : WorkstreamRuntimeRecord) (e : EffectIdentity) (a : Authority) (o : OperationRead)
      (l : LeaseAcquireResult) (m : Result StateRead)
      → Secures (Claim.consumed_as rt store q r e a o l m)
  unfolding Claim.consumed_as
  consumed_as-Secures r e a o l (ok x) s h = save-Secures r e a o l s h
  consumed_as-Secures r e a o l (raise x) s h = elim (Bool-cases (Claim.is_store_error x)) [
    | inl store_error ↦ rw store_error (
        give_up-Secures l.lease.lease_id Gate.canary_grant_consumption_failed s
          (rw store_error at h))
    | inr other ↦ cc (rw other at h)
  ]

  spend-Secures :
      (mode : ActivationMode) (r : WorkstreamRuntimeRecord) (e : EffectIdentity) (a : Authority)
      (o : OperationRead) (l : LeaseAcquireResult)
      → Secures (Claim.spend rt store q mode r e a o l)
  unfolding Claim.spend
  spend-Secures canary r e a o l s h = consumed_as-Secures r e a o l _ _ h
  spend-Secures shadow r e a o l s h = save-Secures r e a o l s h
  spend-Secures active_auto_safe r e a o l s h = save-Secures r e a o l s h

  leased_as-Secures :
      (r : WorkstreamRuntimeRecord) (e : EffectIdentity) (a : Authority) (o : OperationRead)
      (m : Result LeaseAcquireResult)
      → Secures (Claim.leased_as rt store q r e a o m)
  unfolding Claim.leased_as
  leased_as-Secures r e a o (ok l) s h = spend-Secures r.activation_mode r e a o l s h
  leased_as-Secures r e a o (raise x) s h = elim (Bool-cases (Claim.is_lease_error x)) [
    | inl lease_error ↦ cc (rw lease_error at h)
    | inr other ↦ cc (rw other at h)
  ]

  proceed-Secures : (g : Gate.Gate) → Secures (Claim.proceed rt store q g)
  unfolding Claim.proceed
  proceed-Secures (refused d) s h = cc
  proceed-Secures (open_to r e a o) s h = leased_as-Secures r e a o _ _ h

  continue-Secures :
      (m : Result StateRead) → Secures (Execs.continue m (Claim.claim_after rt store q))
  unfolding Claim.claim_after
  continue-Secures (ok ws) s h = proceed-Secures _ s h
  continue-Secures (raise e) s h = cc

  -- In a store that keeps the laws of operation records, a claim that allows the mutation has left
  -- the operation's record so that every further claim of the operation is refused.
  pub allowed-Blocked : Secures (Claim.claim_operation rt store q)
  unfolding Claim.claim_operation
  allowed-Blocked s h = continue-Secures _ s h
