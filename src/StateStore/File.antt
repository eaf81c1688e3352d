-- ===== src/StateStore/File.antt =====
-- ues/state_store.py: the methods of `DeterministicFileStateStore`. The state is the file and the
-- time that the store's clock shows. The file lock makes each method one step, so a method is a
-- function of the state.
pub mod Swap
pub mod Lanes
pub mod Laws
pub mod Reads
pub mod Versions
pub mod Exclusion
use Prim.Native.String.{◌++◌, slice}
use universal_execution_syst.Prelude.{
  ℕ, ◌+◌, ◌*◌, String, Bool, true, false, not, Option, none, some, ltb, leb, nat_eq, ◌==◌,
  if◌then◌else◌,
}
use universal_execution_syst.Prelude.Lists.{lookup}
use universal_execution_syst.Prelude.Results.{
  Result, ok, raise, value_error, state_unavailable, state_version_conflict, lease_collision, guard,
  ◌>>=◌, ◌>>◌,
}
use universal_execution_syst.Prelude.Execs.{Exec}
use universal_execution_syst.Json.{text, object, field, end}
use universal_execution_syst.Runtime.{Runtime}
use universal_execution_syst.Idempotency.Effect.{required_text}
use universal_execution_syst.StateStore.Model.{
  WorkstreamRuntimeRecord, OperationRecord, Lease, StateRead, OperationRead, LeaseAcquireResult,
  when_ok,
}
use universal_execution_syst.StateStore.Persist.{
  workstream_to_dict, workstream_from_dict, operation_to_dict, operation_from_dict,
}
use universal_execution_syst.StateStore.Document.{
  Entry, FileStore, read_doc, decode, actual_version, check_overwrite, write_workstream,
  write_operation, read_workstream, read_operation,
}
use universal_execution_syst.StateStore.Interface.{StateStore}

-- `timedelta(seconds=…)` in microseconds.
abbrev pub seconds : ℕ → ℕ
seconds n = n * 1000000

module _ (rt : Runtime) where
  -- `compare_and_swap_workstream` up to the write, at the stripped lane id.
  unfoldable pub swap_workstream :
      String → ℕ → WorkstreamRuntimeRecord → FileStore → Result FileStore
  unfolding write_workstream
  swap_workstream lane_id expected_version r s = do
    guard (r.lane_id == lane_id) value_error
    doc ← read_doc s.file
    let entry = lookup lane_id doc.workstreams
    guard (nat_eq (actual_version entry) expected_version) state_version_conflict
    check_overwrite (workstream_from_dict rt) entry
    raw ← workstream_to_dict rt (record r { updated_at = some s.clock })
    ok (write_workstream lane_id (actual_version entry + 1) raw doc s)

  -- The write, and the read that is returned; a raise has written nothing.
  abbrev pub finish_workstream :
      String → FileStore → Result FileStore → Result StateRead × FileStore
  finish_workstream lane_id s (raise e) = (raise e, s)
  finish_workstream lane_id s (ok s') = (read_workstream rt lane_id s', s')

  abbrev pub at_lane : {A : Type 0} → Result String → (String → Exec FileStore A) → Exec FileStore A
  at_lane (raise e) f s = (raise e, s)
  at_lane (ok lane_id) f s = f lane_id s

  unfoldable pub compare_and_swap_workstream :
      String → ℕ → WorkstreamRuntimeRecord → Exec FileStore StateRead
  unfolding swap_workstream read_workstream
  compare_and_swap_workstream lane_id expected_version r =
      at_lane (required_text lane_id)
        λ lane_id' s. finish_workstream lane_id' s (swap_workstream lane_id' expected_version r s)

  unfoldable pub swap_operation : String → ℕ → OperationRecord → FileStore → Result FileStore
  unfolding write_operation
  swap_operation operation_key expected_version r s = do
    guard (r.operation_key == operation_key) value_error
    doc ← read_doc s.file
    let entry = lookup operation_key doc.operations
    guard (nat_eq (actual_version entry) expected_version) state_version_conflict
    check_overwrite operation_from_dict entry
    ok (write_operation operation_key (actual_version entry + 1) (operation_to_dict rt r) doc s)

  abbrev pub finish_operation :
      String → FileStore → Result FileStore → Result OperationRead × FileStore
  finish_operation operation_key s (raise e) = (raise e, s)
  finish_operation operation_key s (ok s') = (ok (read_operation operation_key s'), s')

  unfoldable pub compare_and_swap_operation :
      String → ℕ → OperationRecord → Exec FileStore OperationRead
  unfolding swap_operation read_operation
  compare_and_swap_operation operation_key expected_version r s =
      finish_operation operation_key s (swap_operation operation_key expected_version r s)

  -- The entry that a lease is taken on.
  abbrev pub leasable :
      String → Option (Entry WorkstreamRuntimeRecord) → Result (WorkstreamRuntimeRecord × ℕ)
  leasable lane_id none = raise state_unavailable
  leasable lane_id (some e) = elim (decode (workstream_from_dict rt) e.raw) [
    | raise x ↦ raise state_unavailable
    | ok r ↦ if r.lane_id == lane_id then ok (r, e.version) else raise state_unavailable
  ]

  -- Whether the lane's lease is one that has run out; a lease that has not is a collision.
  abbrev pub stale_lease : Option Lease → ℕ → Result Bool
  stale_lease none current = ok false
  stale_lease (some l) current = if ltb current l.expires_at then raise lease_collision else ok true

  lease_seed : String → String → String → ℕ → ℕ → String
  lease_seed lane_id owner operation_key current version =
      lane_id
      ++ ("|"
          ++ (owner
              ++ ("|"
                  ++ (operation_key
                      ++ ("|" ++ (rt.isoformat current ++ ("|" ++ rt.decimal (version + 1))))))))

  unfoldable pub new_lease : String → String → String → ℕ → ℕ → ℕ → Lease
  unfolding lease_seed
  new_lease lane_id owner operation_key ttl_seconds current version = record {
    lease_id = slice (rt.sha256_hex (lease_seed lane_id owner operation_key current version)) 0 32;
    owner = owner;
    operation_key = operation_key;
    acquired_at = current;
    expires_at = current + seconds ttl_seconds;
  }

  unfoldable pub leased : WorkstreamRuntimeRecord → Lease → WorkstreamRuntimeRecord
  leased r lease = record r {
    lease = some lease;
    action_in_flight = some (
        object (
          field "operation_key" (text lease.operation_key) (
            field "owner" (text lease.owner)
              (field "started_at" (text (rt.isoformat lease.acquired_at)) end))));
    operation_key = some lease.operation_key;
    updated_at = some lease.acquired_at;
  }

  -- `acquire_lease`, at the stripped lane id.
  unfoldable pub take_lease :
      String → String → String → ℕ → ℕ → FileStore → Result (LeaseAcquireResult × FileStore)
  unfolding write_workstream new_lease leased
  take_lease lane_id owner operation_key ttl_seconds current s = do
    guard (not (leb ttl_seconds 0)) value_error
    doc ← read_doc s.file
    found ← leasable lane_id (lookup lane_id doc.workstreams)
    stale ← stale_lease found.0.lease current
    let lease = new_lease lane_id owner operation_key ttl_seconds current found.1
    raw ← workstream_to_dict rt (leased found.0 lease)
    ok (
      record { lease = lease; version = found.1 + 1; stale_recovered = stale },
      write_workstream lane_id (found.1 + 1) raw doc s,
    )

  abbrev pub finish_lease :
      FileStore → Result (LeaseAcquireResult × FileStore) → Result LeaseAcquireResult × FileStore
  finish_lease s (raise e) = (raise e, s)
  finish_lease s (ok (l, s')) = (ok l, s')

  unfoldable pub acquire_lease :
      String → String → String → ℕ → ℕ → Exec FileStore LeaseAcquireResult
  unfolding take_lease
  acquire_lease lane_id owner operation_key ttl_seconds now =
      at_lane (required_text lane_id)
        λ lane_id' s. finish_lease s (take_lease lane_id' owner operation_key ttl_seconds now s)

  -- The record with its lease given back, if the caller owns it.
  abbrev pub give_back_lease :
      String
      → StateRead
      → ℕ
      → WorkstreamRuntimeRecord
      → Option Lease
      → String
      → Exec FileStore StateRead
  give_back_lease lane_id read now r none lease_id s = (ok read, s)
  give_back_lease lane_id read now r (some l) lease_id s =
      if l.lease_id == lease_id
      then compare_and_swap_workstream lane_id read.version
          (record r { lease = none; action_in_flight = none; updated_at = some now }) s
      else (raise lease_collision, s)

  abbrev pub give_back :
      String → StateRead → ℕ → Option WorkstreamRuntimeRecord → String → Exec FileStore StateRead
  give_back lane_id read now none lease_id s = (raise state_unavailable, s)
  give_back lane_id read now (some r) lease_id s =
      give_back_lease lane_id read now r r.lease lease_id s

  abbrev pub release_after : String → String → ℕ → Result StateRead → Exec FileStore StateRead
  release_after lane_id lease_id now (raise e) s = (raise e, s)
  release_after lane_id lease_id now (ok read) s =
      give_back lane_id read now (when_ok read.status read.record_read) lease_id s

  unfoldable pub release_lease : String → String → ℕ → Exec FileStore StateRead
  unfolding compare_and_swap_workstream
  release_lease lane_id lease_id now s =
      release_after lane_id lease_id now (read_workstream rt lane_id s) s

  abbrev pub file_store : StateStore FileStore
  file_store = record {
    read_workstream = read_workstream rt;
    compare_and_swap_workstream = compare_and_swap_workstream;
    read_operation = read_operation;
    compare_and_swap_operation = compare_and_swap_operation;
    acquire_lease = acquire_lease;
    release_lease = release_lease;
  }
