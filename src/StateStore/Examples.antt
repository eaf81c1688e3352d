-- ===== src/StateStore/Examples.antt =====
-- Tests and applications of the theorems on ues/state_store.py.
use universal_execution_syst.Prelude.{
  ℕ, suc, ◌≤◌, String, ◌≡◌, ◌↔◌, refl, inr, arith, true, false, none, some, List, [], ◌∷◌,
}
use universal_execution_syst.Prelude.Results.{ok, raise, state_version_conflict}
use universal_execution_syst.Json.{null, object, end}
use universal_execution_syst.Runtime.{Runtime}
use universal_execution_syst.Idempotency.Effect.{EffectIdentity}
use universal_execution_syst.Prelude.Texts.{strip}
use universal_execution_syst.Prelude.Lists.{lookup}
use universal_execution_syst.Idempotency.Effect.{required_text}
use universal_execution_syst.StateStore.Document
use universal_execution_syst.StateStore.Persist
use universal_execution_syst.StateStore.File
use universal_execution_syst.StateStore.Claim
use universal_execution_syst.StateStore.Model.{
  active_auto_safe, in_flight, Lease, WorkstreamRuntimeRecord, OperationRecord, OperationRead,
  StateRead, MutationAuthorization, Status, when_ok,
}
use universal_execution_syst.StateStore.Document.{Entry, Document, FileState, FileStore, dict}
use universal_execution_syst.StateStore.Interface.{OperationLaws}
use universal_execution_syst.StateStore.File.{file_store}
use universal_execution_syst.StateStore.File.Versions.{
  Call, lease, after_calls, later_writer_conflicts,
}
use universal_execution_syst.StateStore.File.Laws.{file_store-OperationLaws}
use universal_execution_syst.StateStore.Gate.{ClaimRequest}
use universal_execution_syst.StateStore.Claim.{claim_operation}
use universal_execution_syst.StateStore.Claim.Refused.{is_allowed, Blocked-refused}
use universal_execution_syst.StateStore.Authority.{evaluate_active_auto_safe_authority}
use universal_execution_syst.StateStore.Authority.Allows.{SameLane, IsInForce, active_auto_safe_iff}
use universal_execution_syst.StateStore.Claim.Authorized.{Authorized, allowed-Authorized}
use universal_execution_syst.StateStore.File.Exclusion.{Held}
use universal_execution_syst.StateStore.Claim.Exclusion.{Held-lane_refuses}
use universal_execution_syst.StateStore.Claim.Once.{allowed_count, allowed_at_most_once}
use universal_execution_syst.StateStore.Readback.{record_authoritative_readback}
use universal_execution_syst.StateStore.Readback.Traces.{
  Event, claim, unknown_write, readback, allowances, missing_readbacks, allowances_bounded,
}
use universal_execution_syst.StateStore.Readback.Outcome.{
  IsAmbiguousOn, AfterReadback, readback_returns,
}

abbrev rt : Runtime
rt = record {
  lower = λ s. s;
  upper = λ s. s;
  isalnum = λ c. true;
  dumps = λ v. "{}";
  sha256_hex = λ s. s;
  isoformat = λ n. "t";
  decimal = λ n. "n";
}

abbrev lane : WorkstreamRuntimeRecord
lane = record {
  lane_id = "l";
  project = "p";
  route = "r";
  workstream_id = "w";
  activation_mode = active_auto_safe;
  actor_bindings = [];
  authority_provenance = none;
  evidence_bindings = none;
  action_in_flight = none;
  lease = none;
  operation_key = none;
  operation_receipt = none;
  last_observed_provider_state = none;
  last_observed_github_state = none;
  last_successful_transition = none;
  unknown_write_state = none;
  canary_grants = [];
  updated_at = none;
}

-- One lane and no operation.
abbrev start : FileStore
start = record {
  file = FileState.document (record {
    store_revision = 1;
    workstreams = ("l", record { version = 1; raw = dict lane }) ∷ [];
    operations = [];
  });
  clock = 5;
}

abbrev effect : EffectIdentity
effect = record {
  lane_id = "l";
  project = "p";
  route = "r";
  workstream_id = "w";
  action = "go";
  target = ("x", "y") ∷ [];
}

abbrev key : String
key = "ues-v2:go:{}"

abbrev request : ℕ → ClaimRequest
request now = record {
  lane_id = "l";
  owner = "o";
  operation_key = key;
  action = "go";
  request_digest = "d";
  ttl_seconds = 60;
  receipt = end;
  effect_identity = some effect;
  authorization = some (record {
    effect_identity = effect;
    authority_event_id = "e";
    project_policy_authorized = true;
    exact_binding_proven = true;
    evidence_verified = true;
    expires_at = none;
  });
  observed_start = none;
  canary_authority_event_id = none;
  now = now;
}

abbrev claimed : FileStore
claimed = (claim_operation rt (file_store rt) (request 10) start).1

claim_test : is_allowed (claim_operation rt (file_store rt) (request 10) start).0 ≡ true
unfolding claim_operation Document.read_workstream required_text strip Claim.proceed
    Persist.workstream_from_dict Document.read_operation File.acquire_lease
    Persist.workstream_to_dict Claim.spend Claim.save Claim.save_attempt Claim.attempt_record
    File.compare_and_swap_operation Claim.note_receipt File.compare_and_swap_workstream
claim_test = refl

-- A claim, an unknown write, a claim that is refused, a readback that reports the write missing, and
-- a claim that is allowed again.
abbrev story : List Event
story =
    claim (request 10)
    ∷ unknown_write "l" key 20 null
    ∷ claim (request 30)
    ∷ readback "l" key 40 (some false) null
    ∷ claim (request 100000000)
    ∷ []

story_test : missing_readbacks rt (file_store rt) key story ≡ 1
unfolding missing_readbacks
story_test = refl

file_store-OperationLaws_example : OperationLaws (file_store rt)
file_store-OperationLaws_example = file_store-OperationLaws rt

allowances_bounded_example :
    allowances rt (file_store rt) key story start
    ≤ suc (missing_readbacks rt (file_store rt) key story)
allowances_bounded_example =
    allowances_bounded rt (file_store rt) key (file_store-OperationLaws rt) story start

allowed_at_most_once_example :
    allowed_count rt (file_store rt) key (request 10 ∷ request 20 ∷ []) start ≤ 1
allowed_at_most_once_example =
    allowed_at_most_once rt (file_store rt) key (file_store-OperationLaws rt)
      (request 10 ∷ request 20 ∷ []) start

abbrev in_flight_record : OperationRecord
in_flight_record = record {
  operation_key = key;
  lane_id = "l";
  workstream_id = "w";
  action = "go";
  request_digest = "d";
  state = in_flight;
  owner = "o";
  started_at = 1;
  updated_at = 1;
  attempt = 1;
  receipt = object end;
  reconciliation_required = false;
  authoritative_readback = none;
  effect_identity = none;
}

-- The lane and an operation of it that is in flight.
abbrev busy : FileStore
busy = record {
  file = FileState.document (record {
    store_revision = 1;
    workstreams = ("l", record { version = 1; raw = dict lane }) ∷ [];
    operations = (key, record { version = 1; raw = dict in_flight_record }) ∷ [];
  });
  clock = 5;
}

Blocked-refused_example :
    (is_allowed (claim_operation rt (file_store rt) (request 10) busy).0 ≡ false)
    × ((claim_operation rt (file_store rt) (request 10) busy).1 ≡ busy)
unfolding claim_operation Document.read_operation Persist.operation_from_dict required_text strip
Blocked-refused_example =
    Blocked-refused rt (file_store rt) (request 10) busy
      (inr (in_flight_record, refl, refl, refl, λ p. cc))

abbrev decided : OperationRead
decided =
    elim (record_authoritative_readback rt "l" key 20 (file_store rt) (some true) null busy).0 [
      | ok o ↦ o
      | raise e ↦ record { status = Status.missing; version = 0; record_read = none }
    ]

readback_returns_example :
    (op : OperationRecord) × (when_ok
        ((file_store rt).read_operation key busy).status
        ((file_store rt).read_operation key busy).record_read
      ≡ some op)
    × IsAmbiguousOn "l" op
    × AfterReadback key (some true) op (
        (file_store rt).read_operation key
          (record_authoritative_readback rt "l" key 20 (file_store rt) (some true) null busy).1)
unfolding record_authoritative_readback Document.read_operation lookup Persist.operation_from_dict
    strip File.compare_and_swap_operation Document.read_workstream Persist.workstream_from_dict
    File.compare_and_swap_workstream Persist.workstream_to_dict Persist.operation_to_dict
readback_returns_example =
    readback_returns rt (file_store rt) (file_store-OperationLaws rt) "l" key 20 (some true) null
      busy decided refl

-- The first of two writers, and a lease that is taken between the two.
abbrev first_read : OperationRead
first_read = elim (File.compare_and_swap_operation rt key 1 in_flight_record busy).0 [
  | ok o ↦ o
  | raise e ↦ record { status = Status.missing; version = 0; record_read = none }
]

abbrev between : List Call
between = lease "l" "o" key 60 10 ∷ []

later_writer_conflicts_example :
    File.compare_and_swap_operation rt key 1 in_flight_record
      (after_calls rt between (File.compare_and_swap_operation rt key 1 in_flight_record busy).1)
    ≡ (
      raise state_version_conflict,
      after_calls rt between (File.compare_and_swap_operation rt key 1 in_flight_record busy).1,
    )
unfolding File.compare_and_swap_operation Document.read_operation lookup Persist.operation_from_dict
    strip Persist.operation_to_dict required_text
later_writer_conflicts_example =
    later_writer_conflicts rt key 1 in_flight_record in_flight_record between busy first_read refl
      refl

allowed-Authorized_example :
    (ws : StateRead) × (r : WorkstreamRuntimeRecord) × ((file_store rt).read_workstream "l" start
      ≡ ok ws)
    × (when_ok ws.status ws.record_read ≡ some r)
    × Authorized rt (request 10) r ((file_store rt).read_operation key start)
allowed-Authorized_example = allowed-Authorized rt (file_store rt) (request 10) start claim_test

active_auto_safe_iff_example :
    ((evaluate_active_auto_safe_authority lane effect (request 10).authorization 10).allowed ≡ true)
    ↔ ((a : MutationAuthorization) × ((request 10).authorization ≡ some a)
        × (effect ≡ a.effect_identity)
        × SameLane lane effect
        × IsInForce a 10)
active_auto_safe_iff_example = active_auto_safe_iff lane effect (request 10).authorization 10

-- The lane under a lease until time 100.
abbrev current_lease : Lease
current_lease = record {
  lease_id = "i";
  owner = "o";
  operation_key = "k";
  acquired_at = 1;
  expires_at = 100;
}

abbrev held_lane : WorkstreamRuntimeRecord
held_lane = record lane { lease = some current_lease }

abbrev held : FileStore
held = record {
  file = FileState.document (record {
    store_revision = 1;
    workstreams = ("l", record { version = 1; raw = dict held_lane }) ∷ [];
    operations = [];
  });
  clock = 5;
}

held-Held : Held rt "l" 10 held
unfolding Document.read_workstream required_text strip lookup Persist.workstream_from_dict
held-Held = record {
  read = record {
    status = Status.ok;
    version = 1;
    record_read = some held_lane;
    effective_activation_mode = active_auto_safe;
    mutation_allowed = false;
    mode_allows_mutation_candidate = true;
  };
  runtime = held_lane;
  lease = current_lease;
  found = refl;
  has = refl;
  leased = refl;
  unexpired = omega arith;
}

Held-lane_refuses_example :
    (is_allowed (claim_operation rt (file_store rt) (request 10) held).0 ≡ false)
    × ((claim_operation rt (file_store rt) (request 10) held).1 ≡ held)
Held-lane_refuses_example = Held-lane_refuses rt (request 10) held held-Held
