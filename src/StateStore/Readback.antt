-- ===== src/StateStore/Readback.antt =====
-- ues/state_store.py: `record_unknown_write` and `record_authoritative_readback`, over any store.
pub mod Guards
pub mod Traces
pub mod Outcome
use universal_execution_syst.Prelude.{
  ℕ, String, Bool, true, false, not, Option, none, some, ◌==◌, if◌then◌else◌,
}
use universal_execution_syst.Prelude.Results.{
  Result, ok, raise, state_store_error, state_unavailable,
}
use universal_execution_syst.Prelude.Execs.{Exec, pure, gets, lift, ◌>>=◌}
use universal_execution_syst.Json.{Json, Fields, null, bool, text, object, end, field}
use universal_execution_syst.Runtime.{Runtime}
use universal_execution_syst.Records.Sanitize.{sanitize_receipt}
use universal_execution_syst.StateStore.Model.{
  OperationState, in_flight, unknown, confirmed, reconciled_not_observed, value, Lease,
  WorkstreamRuntimeRecord, OperationRecord, StateRead, OperationRead, when_ok,
}
use universal_execution_syst.StateStore.Interface.{StateStore}
use universal_execution_syst.StateStore.Gate.{with_fields}

-- `{**receipt, …}`
abbrev pub fields_in : Json → Fields
fields_in (object fs) = fs
fields_in _ = end

-- The state after a readback, and whether reconciliation is still required.
abbrev pub state_of : Option Bool → OperationState
state_of (some true) = confirmed
state_of (some false) = reconciled_not_observed
state_of none = unknown

abbrev pub still_required : Option Bool → Bool
still_required none = true
still_required (some _) = false

abbrev pub is_ambiguous : OperationState → Bool
is_ambiguous in_flight = true
is_ambiguous unknown = true
is_ambiguous _ = false

abbrev pub observed_json : Option Bool → Json
observed_json none = null
observed_json (some b) = bool b

abbrev pub leased_for : Option Lease → String → Bool
leased_for none key = false
leased_for (some l) key = l.operation_key == key

module _ (rt : Runtime) (lane_id operation_key : String) (now : ℕ) where
  abbrev pub unknown_state : Json
  unknown_state = object (
      field "operation_key" (text operation_key) (
        field "recorded_at" (text (rt.isoformat now))
          (field "reconciliation_required" (bool true) end)))

  unfoldable pub unknown_record : Json → OperationRecord → OperationRecord
  unfolding with_fields sanitize_receipt
  unknown_record result op = record op {
    state = unknown;
    updated_at = now;
    reconciliation_required = true;
    receipt = sanitize_receipt rt (
        object (
          with_fields (fields_in op.receipt)
            (field "result" result (field "state" (text "UNKNOWN") end))));
  }

  unfoldable pub unknown_runtime : Json → WorkstreamRuntimeRecord → WorkstreamRuntimeRecord
  unknown_runtime receipt r = record r {
    unknown_write_state = some unknown_state;
    operation_receipt = some receipt;
  }

  abbrev pub readback_json : Option Bool → Json → Json
  readback_json observed evidence = object (
      field "observed" (observed_json observed) (
        field "evidence" (sanitize_receipt rt evidence)
          (field "read_at" (text (rt.isoformat now)) end)))

  unfoldable pub readback_record : Option Bool → Json → OperationRecord → OperationRecord
  unfolding with_fields sanitize_receipt
  readback_record observed evidence op = record op {
    authoritative_readback = some (readback_json observed evidence);
    updated_at = now;
    state = state_of observed;
    reconciliation_required = still_required observed;
    receipt = sanitize_receipt rt (
        object (
          with_fields (fields_in op.receipt) (
            field "state" (text (value (state_of observed)))
              (field "post_condition" (readback_json observed evidence) end))));
  }

  -- A decided readback clears the unknown write, and the lease if it is the operation's.
  unfoldable pub readback_runtime :
      Option Bool → Json → WorkstreamRuntimeRecord → WorkstreamRuntimeRecord
  readback_runtime none receipt r = record r {
    unknown_write_state = some unknown_state;
    operation_receipt = some receipt;
  }
  readback_runtime (some b) receipt r =
      if leased_for r.lease operation_key
      then record r {
        operation_receipt = some receipt;
        unknown_write_state = none;
        lease = none;
        action_in_flight = none;
      }
      else record r { operation_receipt = some receipt; unknown_write_state = none }

  module _ {S : Type 0} (store : StateStore S) where
    -- Write the operation's record and then the lane's, by the two functions given.
    pub write_lane :
        (WorkstreamRuntimeRecord → WorkstreamRuntimeRecord)
        → OperationRead
        → ℕ
        → Option WorkstreamRuntimeRecord
        → Exec S OperationRead
    write_lane runtime saved version none = lift (raise state_unavailable)
    write_lane runtime saved version (some r) = do
      lane ← store.compare_and_swap_workstream lane_id version (runtime r)
      pure saved

    pub write_both :
        ℕ
        → OperationRecord
        → (WorkstreamRuntimeRecord → WorkstreamRuntimeRecord)
        → Exec S OperationRead
    unfolding write_lane
    write_both version op runtime = do
      saved ← store.compare_and_swap_operation operation_key version op
      ws ← gets (store.read_workstream lane_id)
      write_lane runtime saved ws.version (when_ok ws.status ws.record_read)

    unknown_of : Json → ℕ → Option OperationRecord → Exec S OperationRead
    unfolding write_both
    unknown_of result version none = lift (raise state_unavailable)
    unknown_of result version (some op) =
        if op.lane_id == lane_id
        then write_both version (unknown_record result op)
            (unknown_runtime (unknown_record result op).receipt)
        else lift (raise state_store_error)

    unfoldable pub record_unknown_write : Json → Exec S OperationRead
    unfolding unknown_of unknown_record unknown_runtime
    record_unknown_write result = do
      read ← gets (λ s. ok (store.read_operation operation_key s))
      unknown_of result read.version (when_ok read.status read.record_read)

    readback_of : Option Bool → Json → ℕ → Option OperationRecord → Exec S OperationRead
    unfolding write_both
    readback_of observed evidence version none = lift (raise state_unavailable)
    readback_of observed evidence version (some op) =
        if not (op.lane_id == lane_id)
        then lift (raise state_store_error)
        else if not (is_ambiguous op.state)
        then lift (raise state_store_error)
        else write_both version (readback_record observed evidence op)
            (readback_runtime observed (readback_record observed evidence op).receipt)

    unfoldable pub record_authoritative_readback : Option Bool → Json → Exec S OperationRead
    unfolding readback_of readback_record readback_runtime
    record_authoritative_readback observed evidence = do
      read ← gets (λ s. ok (store.read_operation operation_key s))
      readback_of observed evidence read.version (when_ok read.status read.record_read)
