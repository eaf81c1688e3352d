-- ===== src/StateStore/Model.antt =====
-- ues/state_store.py: the dataclasses. Times are microseconds since the epoch; a mapping with text
-- keys is a list of pairs; a payload that the code does not look into is a `Json` value.
use universal_execution_syst.Prelude.{
  ℕ, String, Bool, Option, none, List, [], ◌∷◌, leb, if◌then◌else◌,
}
use universal_execution_syst.Prelude.Lists.{is_empty}
use universal_execution_syst.Json.{Json}
use universal_execution_syst.Idempotency.Effect.{EffectIdentity}

pub data ActivationMode : Type 0 where
  shadow canary active_auto_safe : ActivationMode

pub data OperationState : Type 0 where
  planned in_flight unknown confirmed rejected cancelled reconciled_not_observed : OperationState

abbrev pub value : OperationState → String
value planned = "PLANNED"
value in_flight = "IN_FLIGHT"
value unknown = "UNKNOWN"
value confirmed = "CONFIRMED"
value rejected = "REJECTED"
value cancelled = "CANCELLED"
value reconciled_not_observed = "RECONCILED_NOT_OBSERVED"

pub record StateStoreCapabilities : Type 0 where
  pub backend_name : String
  pub survives_runner_replacement : Bool
  pub atomic_compare_and_swap : Bool
  pub versioned_state : Bool
  pub lane_local_leases : Bool
  pub durable_operation_records : Bool
  pub authoritative_restart_reconciliation : Bool
  pub conflict_detection : Bool

abbrev missing_if_not : Bool → String → List String → List String
missing_if_not b name rest = if b then rest else name ∷ rest

unfoldable pub missing_capabilities : StateStoreCapabilities → List String
missing_capabilities caps =
    missing_if_not caps.survives_runner_replacement "survives_runner_replacement" (
      missing_if_not caps.atomic_compare_and_swap "atomic_compare_and_swap" (
        missing_if_not caps.versioned_state "versioned_state" (
          missing_if_not caps.lane_local_leases "lane_local_leases" (
            missing_if_not caps.durable_operation_records "durable_operation_records" (
              missing_if_not caps.authoritative_restart_reconciliation
                "authoritative_restart_reconciliation"
                (missing_if_not caps.conflict_detection "conflict_detection" []))))))

pub record Assessment : Type 0 where
  pub backend_name : String
  pub ready_for_cross_run_production : Bool
  pub missing_capabilities : List String

unfoldable pub production_state_store_assessment : StateStoreCapabilities → Assessment
production_state_store_assessment caps =
    let missing = missing_capabilities caps in
    record {
      backend_name = caps.backend_name;
      ready_for_cross_run_production = is_empty missing;
      missing_capabilities = missing;
    }

pub record Lease : Type 0 where
  pub lease_id : String
  pub owner : String
  pub operation_key : String
  pub acquired_at : ℕ
  pub expires_at : ℕ

pub record CanaryGrant : Type 0 where
  pub authority_event_id : String
  pub lane_id : String
  pub project : String
  pub route : String
  pub workstream_id : String
  pub effect_type : String
  pub target : List (String × String)
  pub issued_at : ℕ
  pub expires_at : ℕ
  pub maximum_effect_count : ℕ
  pub expected_start : Option (List (String × String))
  pub consumed_count : ℕ
  pub consumed_at : Option ℕ
  pub consumed_operation_keys : List String

-- The property `CanaryGrant.consumed`.
unfoldable pub consumed : CanaryGrant → Bool
consumed g = leb g.maximum_effect_count g.consumed_count

pub record MutationAuthorization : Type 0 where
  pub effect_identity : EffectIdentity
  pub authority_event_id : String
  pub project_policy_authorized : Bool
  pub exact_binding_proven : Bool
  pub evidence_verified : Bool
  pub expires_at : Option ℕ

pub record WorkstreamRuntimeRecord : Type 0 where
  pub lane_id : String
  pub project : String
  pub route : String
  pub workstream_id : String
  pub activation_mode : ActivationMode
  pub actor_bindings : List (String × Json)
  pub authority_provenance : Option Json
  pub evidence_bindings : Option Json
  pub action_in_flight : Option Json
  pub lease : Option Lease
  pub operation_key : Option String
  pub operation_receipt : Option Json
  pub last_observed_provider_state : Option Json
  pub last_observed_github_state : Option Json
  pub last_successful_transition : Option Json
  pub unknown_write_state : Option Json
  pub canary_grants : List CanaryGrant
  pub updated_at : Option ℕ

pub record OperationRecord : Type 0 where
  pub operation_key : String
  pub lane_id : String
  pub workstream_id : String
  pub action : String
  pub request_digest : String
  pub state : OperationState
  pub owner : String
  pub started_at : ℕ
  pub updated_at : ℕ
  pub attempt : ℕ
  pub receipt : Json
  pub reconciliation_required : Bool
  pub authoritative_readback : Option Json
  pub effect_identity : Option Json

pub data Status : Type 0 where
  ok missing corrupt : Status

pub record StateRead : Type 0 where
  pub status : Status
  pub version : ℕ
  pub record_read : Option WorkstreamRuntimeRecord
  pub effective_activation_mode : ActivationMode
  pub mutation_allowed : Bool
  pub mode_allows_mutation_candidate : Bool

pub record OperationRead : Type 0 where
  pub status : Status
  pub version : ℕ
  pub record_read : Option OperationRecord

pub record LeaseAcquireResult : Type 0 where
  pub lease : Lease
  pub version : ℕ
  pub stale_recovered : Bool

-- `read.status == "OK" and read.record is not None`, with the record.
abbrev pub when_ok : {R : Type 0} → Status → Option R → Option R
when_ok Status.ok r = r
when_ok _ r = none
