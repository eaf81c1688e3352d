-- ===== src/StateStore/Gate.antt =====
-- ues/state_store.py: the request and the answer of `claim_operation`, and its checks before the
-- lease. The answer's free-text `reason` is left out.
use universal_execution_syst.Prelude.{
  ℕ, String, Bool, true, false, not, ◌||◌, Option, none, some, List, [], ◌∷◌, ◌==◌, if◌then◌else◌,
}
use universal_execution_syst.Json.{Json, Fields, null, text, object, end, field}
use universal_execution_syst.Runtime.{Runtime}
use universal_execution_syst.Records.Sanitize.{sanitize_receipt}
use universal_execution_syst.Idempotency.Records.{OperationEntry, Decision, evaluate_idempotency}
use universal_execution_syst.Idempotency.Effect.{EffectIdentity}
use universal_execution_syst.Idempotency.Key.{to_dict, effect_operation_key}
use universal_execution_syst.StateStore.Model.{
  ActivationMode, shadow, canary, active_auto_safe, value, MutationAuthorization,
  WorkstreamRuntimeRecord, OperationRecord, OperationRead, Status, when_ok,
}
use universal_execution_syst.StateStore.Authority.{
  AuthorityDecision, Authority, denied, effect_matches_record, evaluate_canary_grant,
  evaluate_active_auto_safe_authority,
}

pub data ClaimDecision : Type 0 where
  shadow_state_unavailable shadow_mode effect_identity_required : ClaimDecision
  effect_identity_lane_mismatch effect_identity_mismatch corrupt_operation_state : ClaimDecision
  idempotency_refused : Decision → ClaimDecision
  authority_refused : AuthorityDecision → ClaimDecision
  lease_conflict_or_state_unavailable canary_grant_consumption_failed : ClaimDecision
  operation_claim_race claimed_reconcile_workstream_required claimed : ClaimDecision

pub record Claim : Type 0 where
  pub decision : ClaimDecision
  pub mutation_allowed : Bool
  pub safe_to_blind_retry : Bool
  pub operation_version : Option ℕ
  pub lease_id : Option String
  pub stale_lease_recovered : Option Bool
  pub authority_event_id : Option String

abbrev pub not_claimed : ClaimDecision → Claim
not_claimed d = record {
  decision = d;
  mutation_allowed = false;
  safe_to_blind_retry = false;
  operation_version = none;
  lease_id = none;
  stale_lease_recovered = none;
  authority_event_id = none;
}

-- The keyword arguments of `claim_operation`; `now` is given.
pub record ClaimRequest : Type 0 where
  pub lane_id : String
  pub owner : String
  pub operation_key : String
  pub action : String
  pub request_digest : String
  pub ttl_seconds : ℕ
  pub receipt : Fields
  pub effect_identity : Option EffectIdentity
  pub authorization : Option MutationAuthorization
  pub observed_start : Option (List (String × Option String))
  pub canary_authority_event_id : Option String
  pub now : ℕ

-- The truth value of a dict or `None`.
abbrev pub truthy_object : Option Json → Bool
truthy_object none = false
truthy_object (some (object end)) = false
truthy_object (some _) = true

-- `[existing.record.to_dict()]`, as `evaluate_idempotency` reads it.
abbrev pub entry_of : OperationRecord → OperationEntry
entry_of r = record {
  operation_id = none;
  operation_key = some r.operation_key;
  request_digest = some r.request_digest;
  state = some (value r.state);
  repository = none;
  ref = none;
  authoritative_readback = truthy_object r.authoritative_readback;
}

abbrev pub records_of : Option OperationRecord → List OperationEntry
records_of none = []
records_of (some r) = entry_of r ∷ []

-- What the checks before the lease come to: a refusal, or the lane's record, the effect, the
-- authority for it and the record of an earlier attempt.
pub data Gate : Type 0 where
  refused : ClaimDecision → Gate
  open_to : WorkstreamRuntimeRecord → EffectIdentity → Authority → OperationRead → Gate

abbrev pub is_corrupt : Status → Bool
is_corrupt Status.corrupt = true
is_corrupt _ = false

abbrev pub text_or_null : Option String → Json
text_or_null none = null
text_or_null (some s) = text s

unfoldable pub set_field : String → Json → Fields → Fields
set_field k v end = field k v end
set_field k v (field j w fs) = if j == k then field k v fs else field j w (set_field k v fs)

-- `{**fields, …}`: a later key replaces an earlier one, in its place.
unfoldable pub with_fields : Fields → Fields → Fields
unfolding set_field
with_fields fs end = fs
with_fields fs (field k v rest) = with_fields (set_field k v fs) rest

module _ (rt : Runtime) (q : ClaimRequest) where
  unfoldable pub authority_for :
      ActivationMode → WorkstreamRuntimeRecord → EffectIdentity → Authority
  unfolding evaluate_canary_grant evaluate_active_auto_safe_authority
  authority_for canary r effect =
      evaluate_canary_grant r effect q.observed_start q.canary_authority_event_id q.now
  authority_for active_auto_safe r effect =
      evaluate_active_auto_safe_authority r effect q.authorization q.now
  authority_for shadow r effect = denied AuthorityDecision.shadow_mode

  unfoldable pub gate_authority :
      WorkstreamRuntimeRecord → EffectIdentity → OperationRead → Authority → Gate
  gate_authority r effect existing authority =
      if authority.allowed
      then open_to r effect authority existing
      else refused (authority_refused authority.decision)

  unfoldable pub gate_operation : WorkstreamRuntimeRecord → EffectIdentity → OperationRead → Gate
  unfolding gate_authority authority_for evaluate_idempotency
  gate_operation r effect existing =
      let idem =
        evaluate_idempotency q.operation_key q.request_digest
          (records_of (when_ok existing.status existing.record_read)) in
      if is_corrupt existing.status
      then refused corrupt_operation_state
      else if not idem.safe_to_execute
      then refused (idempotency_refused idem.decision)
      else gate_authority r effect existing (authority_for r.activation_mode r effect)

  unfoldable pub gate_effect :
      WorkstreamRuntimeRecord → Option EffectIdentity → OperationRead → Gate
  unfolding gate_operation effect_matches_record effect_operation_key
  gate_effect r none existing = refused effect_identity_required
  gate_effect r (some effect) existing =
      if not (effect_matches_record r effect) || not (effect.lane_id == q.lane_id)
      then refused effect_identity_lane_mismatch
      else if not (q.action == effect.action)
          || not (q.operation_key == effect_operation_key rt effect)
      then refused effect_identity_mismatch
      else gate_operation r effect existing

  abbrev pub is_shadow : ActivationMode → Bool
  is_shadow shadow = true
  is_shadow _ = false

  unfoldable pub gate : Option WorkstreamRuntimeRecord → OperationRead → Gate
  unfolding gate_effect
  gate none existing = refused shadow_state_unavailable
  gate (some r) existing =
      if is_shadow r.activation_mode
      then refused shadow_mode
      else gate_effect r q.effect_identity existing

  -- The receipt that both records get.
  unfoldable pub safe_receipt : EffectIdentity → Authority → Json
  unfolding sanitize_receipt to_dict with_fields
  safe_receipt effect authority = sanitize_receipt rt (
      object (
        with_fields q.receipt (
          field "operation_key" (text q.operation_key) (
            field "lane_id" (text q.lane_id) (
              field "effect_identity" (to_dict effect) (
                field "request_digest" (text q.request_digest) (
                  field "state" (text "IN_FLIGHT") (
                    field "authority_event_id" (text_or_null authority.authority_event_id)
                      end))))))))
