-- ===== src/Idempotency/Boundary.antt =====
-- ues/idempotency.py: the branch serialization, the receipt and the write boundary.
use Prim.Native.String.{◌++◌ as concat}
use universal_execution_syst.Prelude.{
  String, Bool, false, not, ◌&&◌, Option, some, List, [], ◌∷◌, ◌++◌, if◌then◌else◌, one_of,
  same_text, or_else,
}
use universal_execution_syst.Prelude.Lists.{is_empty}
use universal_execution_syst.Prelude.Results.{Result, ok, raise, value_error}
use universal_execution_syst.Idempotency.Records.{
  OperationEntry, Idempotency, Decision, current_id, latest_records, active_states, terminal_states,
  readback_retryable_states, evaluate_idempotency, truthy,
}

unfoldable pub branch_serialization_key : String → String → String
branch_serialization_key repository ref = concat "ues-write:" (concat repository (concat ":" ref))

pub record Conflict : Type 0 where
  pub operation_id : Option String
  pub state : Option String

-- The three tests of the loop, each a `continue`.
unfoldable pub conflicting : String → String → String → OperationEntry → Bool
unfolding current_id
conflicting repository ref operation_id r =
    not (same_text (current_id r) (some operation_id))
    && (same_text r.repository (some repository) && same_text r.ref (some ref))
    && one_of (or_else r.state "") active_states

unfoldable pub conflicts_in : String → String → String → List OperationEntry → List Conflict
unfolding conflicting
conflicts_in repository ref operation_id [] = []
conflicts_in repository ref operation_id (r ∷ rs) =
    if conflicting repository ref operation_id r
    then record { operation_id = current_id r; state = r.state }
      ∷ conflicts_in repository ref operation_id rs
    else conflicts_in repository ref operation_id rs

pub record BranchSerialization : Type 0 where
  pub serialization_key : String
  pub available : Bool
  pub conflicts : List Conflict

unfoldable pub evaluate_branch_serialization :
    String → String → String → List OperationEntry → BranchSerialization
unfolding conflicts_in branch_serialization_key latest_records
evaluate_branch_serialization repository ref operation_id records =
    let conflicts = conflicts_in repository ref operation_id (latest_records records) in
    record {
      serialization_key = branch_serialization_key repository ref;
      available = is_empty conflicts;
      conflicts = conflicts;
    }

pub record OperationReceipt : Type 0 where
  pub operation_id : String
  pub request_digest : String
  pub repository : String
  pub ref : String
  pub authority_event_id : String
  pub start_sha : String
  pub start_tree_sha : Option String
  pub state : String
  pub safe_to_blind_retry : Bool

unfoldable pub make_operation_receipt :
    String
    → String
    → String
    → String
    → String
    → String
    → Option String
    → String
    → Result OperationReceipt
make_operation_receipt operation_id request_digest repository ref authority_event_id start_sha
      start_tree_sha state =
    if one_of state (active_states ++ (terminal_states ++ readback_retryable_states))
    then ok (record {
      operation_id = operation_id;
      request_digest = request_digest;
      repository = repository;
      ref = ref;
      authority_event_id = authority_event_id;
      start_sha = start_sha;
      start_tree_sha = start_tree_sha;
      state = state;
      safe_to_blind_retry = false;
    })
    else raise value_error

pub data Failure : Type 0 where
  mutation_plan_not_authorized write_boundary_head_moved write_boundary_tree_moved : Failure
  idempotency_block : Decision → Failure
  branch_serialization_conflict : Failure

-- What the code reads of `mutation_plan`: its decision, and the `cas` object's two SHAs.
pub record MutationPlan : Type 0 where
  pub decision : Option String
  pub cas_live_head_sha : Option String
  pub cas_live_tree_sha : Option String

pub record WriteBoundary : Type 0 where
  pub ready : Bool
  pub execution_enabled : Bool
  pub safe_to_execute_now : Bool
  pub safe_to_blind_retry : Bool
  pub operation_id : String
  pub idempotency : Idempotency
  pub serialization : BranchSerialization
  pub failures : List Failure

-- `if test: failures.append(failure)`
abbrev pub failure_if : Bool → Failure → List Failure
failure_if test failure = if test then failure ∷ [] else []

abbrev pub tree_moved : Option String → Option String → Bool
tree_moved planned live = truthy planned && truthy live && not (same_text planned live)

abbrev pub boundary_failures :
    MutationPlan → String → Option String → Idempotency → BranchSerialization → List Failure
boundary_failures plan live_head_sha live_tree_sha idem serialization =
    failure_if (not (same_text plan.decision (some "AUTHORIZED_DRY_RUN")))
      mutation_plan_not_authorized
    ++ (failure_if (not (same_text plan.cas_live_head_sha (some live_head_sha)))
          write_boundary_head_moved
        ++ (failure_if (tree_moved plan.cas_live_tree_sha live_tree_sha) write_boundary_tree_moved
            ++ (failure_if (not idem.safe_to_execute) (idempotency_block idem.decision)
                ++ failure_if (not serialization.available) branch_serialization_conflict)))

unfoldable pub evaluate_write_boundary :
    MutationPlan
    → String
    → String
    → String
    → String
    → String
    → Option String
    → List OperationEntry
    → WriteBoundary
unfolding evaluate_idempotency evaluate_branch_serialization
evaluate_write_boundary plan operation_id request_digest repository ref live_head_sha live_tree_sha
      records =
    let idem = evaluate_idempotency operation_id request_digest records in
    let serialization = evaluate_branch_serialization repository ref operation_id records in
    let failures = boundary_failures plan live_head_sha live_tree_sha idem serialization in
    record {
      ready = is_empty failures;
      execution_enabled = false;
      safe_to_execute_now = false;
      safe_to_blind_retry = false;
      operation_id = operation_id;
      idempotency = idem;
      serialization = serialization;
      failures = failures;
    }
