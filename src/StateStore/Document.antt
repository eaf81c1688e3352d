-- ===== src/StateStore/Document.antt =====
-- ues/state_store.py: the document of `DeterministicFileStateStore`, how it is read, and one entry's
-- replacement in it. The text of the JSON document and the temporary file are not modelled.
use universal_execution_syst.Prelude.{
  ℕ, ◌+◌, String, Bool, true, false, Option, none, some, List, ◌==◌, if◌then◌else◌,
}
use universal_execution_syst.Prelude.Lists.{lookup, insert}
use universal_execution_syst.Prelude.Results.{
  Result, ok, raise, value_error, state_unavailable, ◌>>=◌,
}
use universal_execution_syst.Runtime.{Runtime}
use universal_execution_syst.Idempotency.Effect.{required_text}
use universal_execution_syst.StateStore.Model.{
  ActivationMode, shadow, WorkstreamRuntimeRecord, OperationRecord, StateRead, OperationRead,
  Status,
}
use universal_execution_syst.StateStore.Persist.{workstream_from_dict, operation_from_dict}

-- An entry's record: a dict of the record's fields, or some other value, which `from_dict` refuses.
pub data Raw (R : Type 0) : Type 0 where
  dict : R → Raw R
  malformed : Raw R

pub record Entry (R : Type 0) : Type 0 where
  pub version : ℕ
  pub raw : Raw R

pub record Document : Type 0 where
  pub store_revision : ℕ
  pub workstreams : List (String × Entry WorkstreamRuntimeRecord)
  pub operations : List (String × Entry OperationRecord)

-- The path does not exist; it holds no valid document; it holds one.
pub data FileState : Type 0 where
  absent unreadable : FileState
  document : Document → FileState

pub record FileStore : Type 0 where
  pub file : FileState
  pub clock : ℕ

abbrev pub initial : Document
initial = record { store_revision = 0; workstreams = List.[]; operations = List.[] }

unfoldable pub initialize : FileStore → FileStore
initialize s = elim s.file [ absent ↦ record s { file = document initial } | _ ↦ s ]

abbrev pub read_doc : FileState → Result Document
read_doc absent = raise state_unavailable
read_doc unreadable = raise state_unavailable
read_doc (document d) = ok d

abbrev pub decode : {R : Type 0} → (R → Result R) → Raw R → Result R
decode from_dict (dict r) = from_dict r
decode from_dict malformed = raise value_error

-- `int(entry["version"]) if entry is not None else 0`
abbrev pub actual_version : {R : Type 0} → Option (Entry R) → ℕ
actual_version none = 0
actual_version (some e) = e.version

-- The test on the entry that a write would replace.
abbrev pub check_overwrite : {R : Type 0} → (R → Result R) → Option (Entry R) → Result (Unit {0})
check_overwrite from_dict none = ok tt
check_overwrite from_dict (some e) = elim (decode from_dict e.raw) [
  | ok r ↦ ok tt
  | raise x ↦ raise state_unavailable
]

-- `activation_mode in {"CANARY", "ACTIVE_AUTO_SAFE"}`
abbrev pub is_candidate : ActivationMode → Bool
is_candidate shadow = false
is_candidate _ = true

abbrev pub shadow_read : Status → StateRead
shadow_read status = record {
  status = status;
  version = 0;
  record_read = none;
  effective_activation_mode = shadow;
  mutation_allowed = false;
  mode_allows_mutation_candidate = false;
}

abbrev pub no_operation : Status → OperationRead
no_operation status = record { status = status; version = 0; record_read = none }

abbrev pub read_as : String → ℕ → Result WorkstreamRuntimeRecord → StateRead
read_as lane_id version (raise x) = shadow_read Status.corrupt
read_as lane_id version (ok r) =
    if r.lane_id == lane_id
    then record {
      status = Status.ok;
      version = version;
      record_read = some r;
      effective_activation_mode = r.activation_mode;
      mutation_allowed = false;
      mode_allows_mutation_candidate = is_candidate r.activation_mode;
    }
    else shadow_read Status.corrupt

abbrev pub operation_as : String → ℕ → Result OperationRecord → OperationRead
operation_as operation_key version (raise x) = no_operation Status.corrupt
operation_as operation_key version (ok r) =
    if r.operation_key == operation_key
    then record { status = Status.ok; version = version; record_read = some r }
    else no_operation Status.corrupt

-- `_write_doc` with one lane's entry replaced.
unfoldable pub write_workstream :
    String → ℕ → WorkstreamRuntimeRecord → Document → FileStore → FileStore
write_workstream lane_id version raw d s = record s {
  file = document (record d {
    store_revision = d.store_revision + 1;
    workstreams = insert lane_id (record { version = version; raw = dict raw }) d.workstreams;
  });
}

unfoldable pub write_operation : String → ℕ → OperationRecord → Document → FileStore → FileStore
write_operation operation_key version raw d s = record s {
  file = document (record d {
    store_revision = d.store_revision + 1;
    operations = insert operation_key (record { version = version; raw = dict raw }) d.operations;
  });
}

module _ (rt : Runtime) where
  unfoldable pub read_entry : String → Option (Entry WorkstreamRuntimeRecord) → StateRead
  read_entry lane_id none = shadow_read Status.missing
  read_entry lane_id (some e) = read_as lane_id e.version (decode (workstream_from_dict rt) e.raw)

  unfoldable pub read_file : String → FileState → StateRead
  read_file lane_id absent = shadow_read Status.missing
  read_file lane_id unreadable = shadow_read Status.corrupt
  read_file lane_id (document d) = read_entry lane_id (lookup lane_id d.workstreams)

  unfoldable pub read_workstream : String → FileStore → Result StateRead
  unfolding read_file read_entry
  read_workstream lane_id s = do lane_id' ← required_text lane_id; ok (read_file lane_id' s.file)

unfoldable pub read_operation_entry : String → Option (Entry OperationRecord) → OperationRead
read_operation_entry operation_key none = no_operation Status.missing
read_operation_entry operation_key (some e) =
    operation_as operation_key e.version (decode operation_from_dict e.raw)

unfoldable pub read_operation_file : String → FileState → OperationRead
read_operation_file operation_key absent = no_operation Status.missing
read_operation_file operation_key unreadable = no_operation Status.corrupt
read_operation_file operation_key (document d) =
    read_operation_entry operation_key (lookup operation_key d.operations)

unfoldable pub read_operation : String → FileStore → OperationRead
unfolding read_operation_file read_operation_entry
read_operation operation_key s = read_operation_file operation_key s.file
