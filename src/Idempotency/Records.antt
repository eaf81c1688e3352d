-- ===== src/Idempotency/Records.antt =====
-- ues/idempotency.py: `evaluate_idempotency` and `latest_records`.
use universal_execution_syst.Prelude.{
  String, Bool, true, false, not, Option, none, some, List, [], ◌∷◌, ◌++◌, ◌==◌, if◌then◌else◌,
  is_some, or_else, one_of, same_text,
}
use universal_execution_syst.Prelude.Lists.{select, last?, lookup, insert}

-- A record of an operation, as a dict: a missing key is `none`, and of `authoritative_readback`
-- the code reads the truth value alone.
pub record OperationEntry : Type 0 where
  pub operation_id : Option String
  pub operation_key : Option String
  pub request_digest : Option String
  pub state : Option String
  pub repository : Option String
  pub ref : Option String
  pub authoritative_readback : Bool

abbrev pub active_states : List String
active_states = "PLANNED" ∷ "EXECUTING" ∷ "IN_FLIGHT" ∷ "UNKNOWN" ∷ []

abbrev pub terminal_states : List String
terminal_states = "CONFIRMED" ∷ "REJECTED" ∷ "CANCELLED" ∷ []

abbrev pub readback_retryable_states : List String
readback_retryable_states = "RECONCILED_NOT_OBSERVED" ∷ []

-- A text's truth value, and Python's `a or b`.
abbrev pub truthy : Option String → Bool
truthy none = false
truthy (some s) = not (s == "")

abbrev pub py_or : Option String → Option String → Option String
py_or a b = if truthy a then a else b

-- `record.get("operation_id") or record.get("operation_key")`
unfoldable pub current_id : OperationEntry → Option String
current_id r = py_or r.operation_id r.operation_key

-- `str(… or "")`, whose empty text means that the record is skipped.
unfoldable pub entry_id : OperationEntry → String
unfolding current_id
entry_id r = or_else (py_or (current_id r) (some "")) ""

-- One round of the loop: the dict `latest` and the list `order`.
unfoldable pub note :
    List (String × OperationEntry) × List String
    → OperationEntry
    → List (String × OperationEntry) × List String
unfolding entry_id insert lookup
note (latest, order) r =
    let operation_id = entry_id r in
    if operation_id == "" then (latest, order) else (
      insert operation_id r latest,
      if is_some (lookup operation_id latest) then order else order ++ operation_id ∷ [],
    )

unfoldable pub note_all :
    List (String × OperationEntry) × List String
    → List OperationEntry
    → List (String × OperationEntry) × List String
unfolding note
note_all st [] = st
note_all st (r ∷ rs) = note_all (note st r) rs

-- `[latest[operation_id] for operation_id in order]`; each key of `order` is one of `latest`.
unfoldable pub in_order : List (String × OperationEntry) → List String → List OperationEntry
in_order latest [] = []
in_order latest (k ∷ ks) = elim (lookup k latest) [
  | none ↦ in_order latest ks
  | some r ↦ r ∷ in_order latest ks
]

unfoldable pub latest_records : List OperationEntry → List OperationEntry
unfolding note_all in_order
latest_records records = let (latest, order) = note_all ([], []) records in in_order latest order

pub data Decision : Type 0 where
  new_operation operation_id_collision idempotent_replay_confirmed : Decision
  reconcile_required readback_confirmed_not_observed terminal_replay_rejected : Decision

pub record Idempotency : Type 0 where
  pub decision : Decision
  pub operation_id : String
  pub existing_state : Option String
  pub safe_to_execute : Bool
  pub safe_to_blind_retry : Bool

-- The ladder on the state of the last matching record.
unfoldable pub judge_state : String → String → Bool → Idempotency
judge_state operation_id state readback =
    if state == "CONFIRMED"
    then record {
      decision = idempotent_replay_confirmed;
      operation_id = operation_id;
      existing_state = some state;
      safe_to_execute = false;
      safe_to_blind_retry = false;
    }
    else if one_of state active_states
    then record {
      decision = reconcile_required;
      operation_id = operation_id;
      existing_state = some state;
      safe_to_execute = false;
      safe_to_blind_retry = false;
    }
    else if one_of state readback_retryable_states
    then record {
      decision = readback_confirmed_not_observed;
      operation_id = operation_id;
      existing_state = some state;
      safe_to_execute = readback;
      safe_to_blind_retry = false;
    }
    else record {
      decision = terminal_replay_rejected;
      operation_id = operation_id;
      existing_state = some state;
      safe_to_execute = false;
      safe_to_blind_retry = false;
    }

abbrev pub refused : String → Decision → Bool → Idempotency
refused operation_id decision safe = record {
  decision = decision;
  operation_id = operation_id;
  existing_state = none;
  safe_to_execute = safe;
  safe_to_blind_retry = false;
}

-- `str(record.get("state") or "UNKNOWN")`
abbrev pub or_unknown : Option String → String
or_unknown none = "UNKNOWN"
or_unknown (some s) = if s == "" then "UNKNOWN" else s

-- What the code answers from the last matching record, if there is one.
unfoldable pub judge : String → String → Option OperationEntry → Idempotency
unfolding judge_state
judge operation_id request_digest none = refused operation_id new_operation true
judge operation_id request_digest (some r) =
    if same_text r.request_digest (some request_digest)
    then judge_state operation_id (or_unknown r.state) r.authoritative_readback
    else refused operation_id operation_id_collision false

abbrev pub matches : String → OperationEntry → Bool
matches operation_id r = same_text (current_id r) (some operation_id)

unfoldable pub evaluate_idempotency : String → String → List OperationEntry → Idempotency
unfolding judge current_id
evaluate_idempotency operation_id request_digest records =
    judge operation_id request_digest (last? (select (matches operation_id) records))
