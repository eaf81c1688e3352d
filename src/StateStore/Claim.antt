-- ===== src/StateStore/Claim.antt =====
-- ues/state_store.py: `_consume_canary` and `claim_operation`, over any store.
pub mod Keeps
pub mod Refused
pub mod Secures
pub mod Once
pub mod Authorized
pub mod Exclusion
use universal_execution_syst.Prelude.{
  ℕ, ◌+◌, String, Bool, true, false, not, ◌&&◌, Option, none, some, List, [], ◌∷◌, ◌++◌, ◌==◌,
  if◌then◌else◌, or_else,
}
use universal_execution_syst.Prelude.Lists.{select}
use universal_execution_syst.Prelude.Results.{
  Result, Error, ok, raise, state_store_error, state_unavailable, state_version_conflict,
  lease_collision, value_error, forgotten_lane_error,
}
use universal_execution_syst.Prelude.Execs.{Exec, pure, gets, lift, attempt, ◌>>=◌}
use universal_execution_syst.Json.{Json}
use universal_execution_syst.Runtime.{Runtime}
use universal_execution_syst.Idempotency.Effect.{EffectIdentity}
use universal_execution_syst.Idempotency.Key.{to_dict}
use universal_execution_syst.StateStore.Model.{
  ActivationMode, canary, in_flight, CanaryGrant, consumed, WorkstreamRuntimeRecord,
  OperationRecord, Lease, StateRead, OperationRead, LeaseAcquireResult, when_ok,
}
use universal_execution_syst.StateStore.Persist.{make_operation}
use universal_execution_syst.StateStore.Interface.{StateStore}
use universal_execution_syst.StateStore.Authority.{Authority, grant_matches}
use universal_execution_syst.StateStore.Gate.{
  ClaimRequest, Claim, ClaimDecision, not_claimed, lease_conflict_or_state_unavailable,
  canary_grant_consumption_failed, operation_claim_race, claimed_reconcile_workstream_required,
  claimed, Gate, refused, open_to, gate, safe_receipt,
}

-- `except StateStoreError`, and the two narrower handlers of `claim_operation`.
abbrev pub is_store_error : Error → Bool
is_store_error value_error = false
is_store_error forgotten_lane_error = false
is_store_error _ = true

abbrev pub is_lease_error : Error → Bool
is_lease_error lease_collision = true
is_lease_error state_unavailable = true
is_lease_error _ = false

abbrev pub is_race : Error → Bool
is_race state_version_conflict = true
is_race state_unavailable = true
is_race _ = false

abbrev pub owns : Option Lease → String → Bool
owns none lease_id = false
owns (some l) lease_id = l.lease_id == lease_id

-- The grants that `_consume_canary` looks for.
abbrev pub is_consumable : EffectIdentity → String → CanaryGrant → Bool
is_consumable effect event g = g.authority_event_id == event && grant_matches effect g

abbrev pub consume_grant : ℕ → String → CanaryGrant → CanaryGrant
consume_grant now key g = record g {
  consumed_count = g.consumed_count + 1;
  consumed_at = some now;
  consumed_operation_keys = g.consumed_operation_keys ++ key ∷ [];
}

-- `len(matched) != 1 or matched[0].consumed`
abbrev pub is_unavailable : List CanaryGrant → Bool
is_unavailable (g ∷ []) = consumed g
is_unavailable _ = true

abbrev pub consume_in : EffectIdentity → String → String → ℕ → List CanaryGrant → List CanaryGrant
consume_in effect event key now [] = []
consume_in effect event key now (g ∷ gs) =
    (if is_consumable effect event g then consume_grant now key g else g)
    ∷ consume_in effect event key now gs

module _ {S : Type 0} (store : StateStore S) where
  consume_read :
      String
      → String
      → EffectIdentity
      → String
      → String
      → ℕ
      → ℕ
      → Option WorkstreamRuntimeRecord
      → Exec S StateRead
  consume_read lane lease_id effect key event now version none = lift (raise state_unavailable)
  consume_read lane lease_id effect key event now version (some r) =
      if not (owns r.lease lease_id)
      then lift (raise lease_collision)
      else if is_unavailable (select (is_consumable effect event) r.canary_grants)
      then lift (raise state_store_error)
      else store.compare_and_swap_workstream lane version
          (record r { canary_grants = consume_in effect event key now r.canary_grants })

  unfoldable pub consume_canary :
      String → String → EffectIdentity → String → String → ℕ → Exec S StateRead
  unfolding consume_read consumed grant_matches
  consume_canary lane lease_id effect key event now = do
    read ← gets (store.read_workstream lane)
    consume_read lane lease_id effect key event now read.version
        (when_ok read.status read.record_read)

module _ {S : Type 0} (rt : Runtime) (store : StateStore S) (q : ClaimRequest) where
  released : ClaimDecision → Result StateRead → Exec S Claim
  released d (ok r) = pure (not_claimed d)
  released d (raise e) = if is_store_error e then pure (not_claimed d) else lift (raise e)

  -- Give the lease back, whatever the store says, and refuse.
  unfoldable pub give_up : String → ClaimDecision → Exec S Claim
  unfolding released
  give_up lease_id d = do m ← attempt (store.release_lease q.lane_id lease_id q.now); released d m

  abbrev pub claimed_as : LeaseAcquireResult → Authority → OperationRead → Claim
  claimed_as lease authority saved = record {
    decision = claimed;
    mutation_allowed = true;
    safe_to_blind_retry = false;
    operation_version = some saved.version;
    lease_id = some lease.lease.lease_id;
    stale_lease_recovered = some lease.stale_recovered;
    authority_event_id = authority.authority_event_id;
  }

  abbrev pub reconcile_as : LeaseAcquireResult → OperationRead → Claim
  reconcile_as lease saved = record {
    decision = claimed_reconcile_workstream_required;
    mutation_allowed = false;
    safe_to_blind_retry = false;
    operation_version = some saved.version;
    lease_id = some lease.lease.lease_id;
    stale_lease_recovered = none;
    authority_event_id = none;
  }

  noted : LeaseAcquireResult → Authority → OperationRead → Result StateRead → Exec S Claim
  noted lease authority saved (ok r) = pure (claimed_as lease authority saved)
  noted lease authority saved (raise e) =
      if is_store_error e then pure (reconcile_as lease saved) else lift (raise e)

  note_on :
      LeaseAcquireResult
      → Authority
      → OperationRead
      → Json
      → ℕ
      → Option WorkstreamRuntimeRecord
      → Exec S Claim
  unfolding noted
  note_on lease authority saved receipt version none = pure (claimed_as lease authority saved)
  note_on lease authority saved receipt version (some r) = do
    m ← attempt (
        store.compare_and_swap_workstream q.lane_id version
          (record r { operation_key = some q.operation_key; operation_receipt = some receipt }))
    noted lease authority saved m

  -- The last step: the lane's record gets the receipt.
  unfoldable pub note_receipt : LeaseAcquireResult → Authority → OperationRead → Json → Exec S Claim
  unfolding note_on
  note_receipt lease authority saved receipt = do
    after ← gets (store.read_workstream q.lane_id)
    note_on lease authority saved receipt after.version (when_ok after.status after.record_read)

  -- The record of the attempt: the earlier one brought up to date, or a new one, which
  -- `__post_init__` checks.
  unfoldable pub attempt_record :
      String → EffectIdentity → Json → Option OperationRecord → Result OperationRecord
  unfolding make_operation to_dict
  attempt_record workstream_id effect receipt (some op) = ok (record op {
    state = in_flight;
    owner = q.owner;
    updated_at = q.now;
    attempt = op.attempt + 1;
    reconciliation_required = false;
    receipt = receipt;
    effect_identity = some (to_dict effect);
  })
  attempt_record workstream_id effect receipt none = make_operation (record {
    operation_key = q.operation_key;
    lane_id = q.lane_id;
    workstream_id = workstream_id;
    action = q.action;
    request_digest = q.request_digest;
    state = in_flight;
    owner = q.owner;
    started_at = q.now;
    updated_at = q.now;
    attempt = 1;
    receipt = receipt;
    reconciliation_required = false;
    authoritative_readback = none;
    effect_identity = some (to_dict effect);
  })

  abbrev pub expected_version : OperationRead → ℕ
  expected_version existing = elim (when_ok existing.status existing.record_read) [
    | none ↦ 0
    | some _ ↦ existing.version
  ]

  unfoldable pub save_attempt : ℕ → Result OperationRecord → Exec S OperationRead
  save_attempt version (ok op) = store.compare_and_swap_operation q.operation_key version op
  save_attempt version (raise e) = lift (raise e)

  saved_as : LeaseAcquireResult → Authority → Json → Result OperationRead → Exec S Claim
  saved_as lease authority receipt (ok saved) = note_receipt lease authority saved receipt
  saved_as lease authority receipt (raise e) =
      if is_race e then give_up lease.lease.lease_id operation_claim_race else lift (raise e)

  unfoldable pub save :
      WorkstreamRuntimeRecord
      → EffectIdentity
      → Authority
      → OperationRead
      → LeaseAcquireResult
      → Exec S Claim
  unfolding saved_as safe_receipt
  save r effect authority existing lease = do
    let receipt = safe_receipt rt q effect authority
    m ← attempt (
        save_attempt (expected_version existing) (
          attempt_record r.workstream_id effect receipt
            (when_ok existing.status existing.record_read)))
    saved_as lease authority receipt m

  consumed_as :
      WorkstreamRuntimeRecord
      → EffectIdentity
      → Authority
      → OperationRead
      → LeaseAcquireResult
      → Result StateRead
      → Exec S Claim
  consumed_as r effect authority existing lease (ok _) = save r effect authority existing lease
  consumed_as r effect authority existing lease (raise e) =
      if is_store_error e
      then give_up lease.lease.lease_id canary_grant_consumption_failed
      else lift (raise e)

  -- Under CANARY the grant is consumed before the operation is recorded.
  unfoldable pub spend :
      ActivationMode
      → WorkstreamRuntimeRecord
      → EffectIdentity
      → Authority
      → OperationRead
      → LeaseAcquireResult
      → Exec S Claim
  unfolding consumed_as
  spend canary r effect authority existing lease = do
    m ← attempt (
        consume_canary store q.lane_id lease.lease.lease_id effect q.operation_key
          (or_else authority.authority_event_id "None") q.now)
    consumed_as r effect authority existing lease m
  spend _ r effect authority existing lease = save r effect authority existing lease

  leased_as :
      WorkstreamRuntimeRecord
      → EffectIdentity
      → Authority
      → OperationRead
      → Result LeaseAcquireResult
      → Exec S Claim
  leased_as r effect authority existing (ok lease) =
      spend r.activation_mode r effect authority existing lease
  leased_as r effect authority existing (raise e) =
      if is_lease_error e
      then pure (not_claimed lease_conflict_or_state_unavailable)
      else lift (raise e)

  unfoldable pub proceed : Gate → Exec S Claim
  unfolding leased_as
  proceed (refused d) = pure (not_claimed d)
  proceed (open_to r effect authority existing) = do
    m ← attempt (store.acquire_lease q.lane_id q.owner q.operation_key q.ttl_seconds q.now)
    leased_as r effect authority existing m

  claim_after : StateRead → Exec S Claim
  unfolding gate
  claim_after ws = do
    existing ← gets (λ s. ok (store.read_operation q.operation_key s))
    proceed (gate rt q (when_ok ws.status ws.record_read) existing)

  unfoldable pub claim_operation : Exec S Claim
  unfolding claim_after
  claim_operation = do ws ← gets (store.read_workstream q.lane_id); claim_after ws
