-- ===== src/StateStore/Interface.antt =====
-- ues/state_store.py: the abstract class `StateStore`, over the state `S` of a backend, and what its
-- clients rely on. A read changes nothing; a write returns the new state beside its result.
use universal_execution_syst.Prelude.{ℕ, String, ◌≡◌, ◌≢◌, ◌⊎◌, some}
use universal_execution_syst.Prelude.Results.{Result, Error, ok, raise}
use universal_execution_syst.Prelude.Execs.{Exec}
use universal_execution_syst.Json.{Fields, object}
use universal_execution_syst.Runtime.{Runtime}
use universal_execution_syst.Records.Sanitize.{sanitize_fields}
use universal_execution_syst.StateStore.Model.{
  WorkstreamRuntimeRecord, OperationRecord, StateRead, OperationRead, LeaseAcquireResult, Status,
  when_ok,
}

pub record StateStore (S : Type 0) : Type 0 where
  pub read_workstream : String → S → Result StateRead
  pub compare_and_swap_workstream : String → ℕ → WorkstreamRuntimeRecord → Exec S StateRead
  pub read_operation : String → S → OperationRead
  pub compare_and_swap_operation : String → ℕ → OperationRecord → Exec S OperationRead
  -- lane, owner, operation key, ttl in seconds, now
  pub acquire_lease : String → String → String → ℕ → ℕ → Exec S LeaseAcquireResult
  -- lane, lease id, now
  pub release_lease : String → String → ℕ → Exec S StateRead

-- A read of the key that finds the record that was written, up to what is redacted, or reports that
-- the state is corrupt.
abbrev pub ReadsBack : String → OperationRecord → OperationRead → Type 0
ReadsBack k r o =
    (o.status ≡ Status.corrupt)
    ⊎ ((q : OperationRecord) × (o.status ≡ Status.ok)
        × (o.record_read ≡ some q)
        × (q.operation_key ≡ k)
        × (q.state ≡ r.state)
        × (q.request_digest ≡ r.request_digest))

-- What the operation records owe their clients: only `compare_and_swap_operation` writes them, a
-- write of one key changes no other, one that raises changes nothing, and one that returns is read
-- back.
pub record OperationLaws {S : Type 0} (store : StateStore S) : Type 0 where
  pub read-cas_workstream :
      (k lane : String) (v : ℕ) (r : WorkstreamRuntimeRecord) (s : S)
      → store.read_operation k (store.compare_and_swap_workstream lane v r s).1
        ≡ store.read_operation k s
  pub read-acquire :
      (k lane owner op : String) (ttl now : ℕ) (s : S)
      → store.read_operation k (store.acquire_lease lane owner op ttl now s).1
        ≡ store.read_operation k s
  pub read-release :
      (k lane id : String) (now : ℕ) (s : S)
      → store.read_operation k (store.release_lease lane id now s).1 ≡ store.read_operation k s
  pub read-cas_ne :
      (j k : String) (v : ℕ) (r : OperationRecord) (s : S)
      → k ≢ j
      → store.read_operation j (store.compare_and_swap_operation k v r s).1
        ≡ store.read_operation j s
  pub read-cas_raise :
      (j k : String) (v : ℕ) (r : OperationRecord) (s : S) (e : Error)
      → (store.compare_and_swap_operation k v r s).0 ≡ raise e
      → store.read_operation j (store.compare_and_swap_operation k v r s).1
        ≡ store.read_operation j s
  pub read-cas_ok :
      (k : String) (v : ℕ) (r : OperationRecord) (s : S) (o : OperationRead)
      → (store.compare_and_swap_operation k v r s).0 ≡ ok o
      → ReadsBack k r (store.read_operation k (store.compare_and_swap_operation k v r s).1)

-- What the records of the lanes owe their clients: a write that returns has returned what is read
-- afterwards, and the evidence in it is the evidence that was written, redacted.
pub record LaneLaws {S : Type 0} (rt : Runtime) (store : StateStore S) : Type 0 where
  pub read-cas :
      (lane : String) (v : ℕ) (r : WorkstreamRuntimeRecord) (s : S) (saved : StateRead)
      → (store.compare_and_swap_workstream lane v r s).0 ≡ ok saved
      → store.read_workstream lane (store.compare_and_swap_workstream lane v r s).1 ≡ ok saved
  pub evidence-cas :
      (lane : String) (v : ℕ) (r q : WorkstreamRuntimeRecord) (fs : Fields) (s : S)
      (saved : StateRead)
      → (store.compare_and_swap_workstream lane v r s).0 ≡ ok saved
      → when_ok saved.status saved.record_read ≡ some q
      → r.evidence_bindings ≡ some (object fs)
      → q.evidence_bindings ≡ some (object (sanitize_fields rt fs))
