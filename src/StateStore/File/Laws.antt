-- ===== src/StateStore/File/Laws.antt =====
-- The file store keeps the laws of operation records that its clients rely on.
use universal_execution_syst.Prelude.{ℕ, String, ◌≡◌, ◌≢◌, refl, arith}
use universal_execution_syst.Prelude.Results.{Result, Error, ok, raise}
use universal_execution_syst.Runtime.{Runtime}
use universal_execution_syst.StateStore.Model.{OperationRecord, OperationRead}
use universal_execution_syst.StateStore.Document.{FileStore, write_workstream, read_operation}
use universal_execution_syst.StateStore.Interface.{ReadsBack, OperationLaws}
use universal_execution_syst.StateStore.File.{
  swap_workstream, swap_operation, compare_and_swap_operation, take_lease, file_store,
  finish_operation,
}
use universal_execution_syst.StateStore.File.Lanes.{
  LanesKeep, cas_workstream_keeps, acquire_keeps, release_keeps,
}
use universal_execution_syst.StateStore.File.Swap.{
  swap_operation-Swapped, Swapped-read_ne, Swapped-ReadsBack,
}

reads-LanesKeep : (rt : Runtime) (k : String) → LanesKeep rt (read_operation k)
unfolding swap_workstream take_lease write_workstream read_operation
reads-LanesKeep rt k = record {
  swap_keeps = λ lane v r s s' h. ground arith;
  take_keeps = λ lane owner op ttl now s s' l h. ground arith;
}

module _ (rt : Runtime) (j k : String) where
  finish_operation_ne :
      (v : ℕ) (r : OperationRecord) (s : FileStore) (m : Result FileStore)
      → k ≢ j
      → swap_operation rt k v r s ≡ m
      → read_operation j (finish_operation rt k s m).1 ≡ read_operation j s
  finish_operation_ne v r s (ok s') ne e =
      Swapped-read_ne rt j k v r s s' ne (swap_operation-Swapped rt k v r s s' e)
  finish_operation_ne v r s (raise x) ne e = refl

  finish_operation_raise :
      (s : FileStore) (m : Result FileStore) (x : Error)
      → (finish_operation rt k s m).0 ≡ raise x
      → read_operation j (finish_operation rt k s m).1 ≡ read_operation j s
  finish_operation_raise s (ok s') x e = cc
  finish_operation_raise s (raise y) x e = refl

finish_operation_ok :
    (rt : Runtime) (k : String) (v : ℕ) (r : OperationRecord) (s : FileStore) (m : Result FileStore)
    (o : OperationRead)
    → swap_operation rt k v r s ≡ m
    → (finish_operation rt k s m).0 ≡ ok o
    → ReadsBack k r (read_operation k (finish_operation rt k s m).1)
finish_operation_ok rt k v r s (ok s') o e h =
    Swapped-ReadsBack rt k v r s s' (swap_operation-Swapped rt k v r s s' e)
finish_operation_ok rt k v r s (raise x) o e h = cc

-- In the file store the operation records are written by `compare_and_swap_operation` alone. A write
-- of one key changes no other, one that raises changes nothing, and after one that returns the key
-- reads as that record, with its key, its state and its request digest, or as corrupt.
pub file_store-OperationLaws : (rt : Runtime) → OperationLaws (file_store rt)
unfolding compare_and_swap_operation
file_store-OperationLaws rt = record {
  read-cas_workstream =
      λ k lane v r s. cas_workstream_keeps rt (read_operation k) (reads-LanesKeep rt k) lane v r s;
  read-acquire = λ k lane owner op ttl now s.
      acquire_keeps rt (read_operation k) (reads-LanesKeep rt k) lane owner op ttl now s;
  read-release =
      λ k lane id now s. release_keeps rt (read_operation k) (reads-LanesKeep rt k) lane id now s;
  read-cas_ne = λ j k v r s ne. finish_operation_ne rt j k v r s _ ne refl;
  read-cas_raise = λ j k v r s e h. finish_operation_raise rt j k s _ e h;
  read-cas_ok = λ k v r s o h. finish_operation_ok rt k v r s _ o refl h;
}
