-- ===== src/StateStore/File/Versions.antt =====
-- Versions in the file store (ues/state_store.py, `DeterministicFileStateStore`): of two writers that
-- expect the same version of an operation, the later one is refused.
use universal_execution_syst.Prelude.{
  ℕ, suc, ◌≤◌, ◌<◌, String, ◌≡◌, ◌≢◌, refl, ap, subst, inl, inr, Bool-cases, List, [], ◌∷◌, arith,
  ◌==◌, eq_iff, eq_refl,
}
use universal_execution_syst.Prelude.Lists.{lookup, lookup-insert}
use universal_execution_syst.Prelude.Results.{Result, ok, raise, state_version_conflict}
use universal_execution_syst.Runtime.{Runtime}
use universal_execution_syst.StateStore.Model.{
  WorkstreamRuntimeRecord, OperationRecord, OperationRead,
}
use universal_execution_syst.StateStore.Document.{
  FileState, FileStore, absent, unreadable, document, actual_version, write_workstream,
  write_operation,
}
use universal_execution_syst.StateStore.File.{
  compare_and_swap_workstream, swap_workstream, compare_and_swap_operation, swap_operation,
  acquire_lease, take_lease, release_lease, finish_operation,
}
use universal_execution_syst.StateStore.File.Lanes.{
  LanesKeep, cas_workstream_keeps, acquire_keeps, release_keeps,
}
use universal_execution_syst.StateStore.File.Swap.{Swapped, written_entry, swap_operation-Swapped}

-- The version of the operation in the file, 0 where it has none.
abbrev pub version_in : String → FileState → ℕ
version_in k (document d) = actual_version (lookup k d.operations)
version_in k _ = 0

abbrev pub version_of : String → FileStore → ℕ
version_of k s = version_in k s.file

version-LanesKeep : (rt : Runtime) (k : String) → LanesKeep rt (version_of k)
unfolding swap_workstream take_lease write_workstream
version-LanesKeep rt k = record {
  swap_keeps = λ lane v r s s' h. ground arith;
  take_keeps = λ lane owner op ttl now s s' l h. ground arith;
}

-- A call of one of the writing methods, by any writer, with all of its arguments.
pub data Call : Type 0 where
  write_lane : String → ℕ → WorkstreamRuntimeRecord → Call
  write_record : String → ℕ → OperationRecord → Call
  lease : String → String → String → ℕ → ℕ → Call
  give_back : String → String → ℕ → Call

module _ (rt : Runtime) where
  unfoldable pub after_call : Call → FileStore → FileStore
  after_call (write_lane l v r) s = (compare_and_swap_workstream rt l v r s).1
  after_call (write_record k v r) s = (compare_and_swap_operation rt k v r s).1
  after_call (lease l owner op ttl now) s = (acquire_lease rt l owner op ttl now s).1
  after_call (give_back l id now) s = (release_lease rt l id now s).1

  unfoldable pub after_calls : List Call → FileStore → FileStore
  unfolding after_call
  after_calls [] s = s
  after_calls (c ∷ cs) s = after_calls cs (after_call c s)

  module _ (k : String) where
    Swapped-version_self :
        (v : ℕ) (r : OperationRecord) (s s' : FileStore)
        → Swapped rt k v r s s'
        → (version_of k s ≡ v) × (version_of k s' ≡ suc v)
    unfolding write_operation
    Swapped-version_self v r s s' w = (
      rw (w.was) (w.version),
      rw (w.left, lookup-insert k k (written_entry rt v r) w.doc.operations, eq_refl k)
          (omega arith),
    )

    Swapped-version_ne :
        (j : String) (v : ℕ) (r : OperationRecord) (s s' : FileStore)
        → j ≢ k
        → Swapped rt j v r s s'
        → version_of k s' ≡ version_of k s
    unfolding write_operation
    Swapped-version_ne j v r s s' ne w = ground (
      arith,
      w.was,
      w.left,
      lookup-insert j k (written_entry rt v r) w.doc.operations,
      eq_iff j k,
    )

    Swapped-version :
        (j : String) (v : ℕ) (r : OperationRecord) (s s' : FileStore)
        → Swapped rt j v r s s'
        → version_of k s ≤ version_of k s'
    Swapped-version j v r s s' w = elim (Bool-cases (j == k)) [
      | inl e ↦
          let same = (eq_iff j k).0 e in
          let (old, new) =
            Swapped-version_self v r s s' (subst (λ i. Swapped rt i v r s s') same w) in
          omega (arith, old, new)
      | inr e ↦
          let kept = Swapped-version_ne j v r s s' (λ p. cc (e, (eq_iff j k).1 p)) w in
          omega (arith, kept)
    ]

    finish-version :
        (j : String) (v : ℕ) (r : OperationRecord) (s : FileStore) (m : Result FileStore)
        → swap_operation rt j v r s ≡ m
        → version_of k s ≤ version_of k (finish_operation rt j s m).1
    finish-version j v r s (ok s') e =
        Swapped-version j v r s s' (swap_operation-Swapped rt j v r s s' e)
    finish-version j v r s (raise x) e = omega arith

    call-version : (c : Call) (s : FileStore) → version_of k s ≤ version_of k (after_call c s)
    unfolding after_call compare_and_swap_operation
    call-version (write_lane l v r) s =
        let e = cas_workstream_keeps rt (version_of k) (version-LanesKeep rt k) l v r s in
        omega (arith, e)
    call-version (write_record j v r) s = finish-version j v r s (swap_operation rt j v r s) refl
    call-version (lease l owner op ttl now) s =
        let e = acquire_keeps rt (version_of k) (version-LanesKeep rt k) l owner op ttl now s in
        omega (arith, e)
    call-version (give_back l id now) s =
        let e = release_keeps rt (version_of k) (version-LanesKeep rt k) l id now s in
        omega (arith, e)

    -- Whatever calls are made, the version of an operation never decreases.
    pub calls-version :
        (calls : List Call) (s : FileStore) → version_of k s ≤ version_of k (after_calls calls s)
    unfolding after_calls
    calls-version [] s = omega arith
    calls-version (c ∷ cs) s =
        let step = call-version c s in
        let rest = calls-version cs (after_call c s) in omega (arith, step, rest)

    won :
        (v : ℕ) (r : OperationRecord) (s : FileStore) (o : OperationRead) (m : Result FileStore)
        → swap_operation rt k v r s ≡ m
        → (finish_operation rt k s m).0 ≡ ok o
        → v < version_of k (finish_operation rt k s m).1
    won v r s o (ok s') e h =
        let (old, new) = Swapped-version_self v r s s' (swap_operation-Swapped rt k v r s s' e) in
        omega (arith, new)
    won v r s o (raise x) e h = cc

    conflict_in :
        (v : ℕ) (r : OperationRecord) (s : FileStore) (f : FileState)
        → s.file ≡ f
        → v < version_in k f
        → r.operation_key ≡ k
        → swap_operation rt k v r s ≡ raise state_version_conflict
    unfolding swap_operation
    conflict_in v r s absent e newer same = absurd (omega (arith, newer))
    conflict_in v r s unreadable e newer same = absurd (omega (arith, newer))
    conflict_in v r s (document d) e newer same =
        ground (arith, e, newer, (eq_iff r.operation_key k).1 same)

    conflict :
        (v : ℕ) (r : OperationRecord) (s : FileStore)
        → v < version_of k s
        → r.operation_key ≡ k
        → compare_and_swap_operation rt k v r s ≡ (raise state_version_conflict, s)
    unfolding compare_and_swap_operation
    conflict v r s newer same =
        ap (finish_operation rt k s) (conflict_in v r s s.file refl newer same)

    newer_version :
        (v : ℕ) (r : OperationRecord) (s : FileStore) (o : OperationRead)
        → (compare_and_swap_operation rt k v r s).0 ≡ ok o
        → v < version_of k (compare_and_swap_operation rt k v r s).1
    unfolding compare_and_swap_operation
    newer_version v r s o h = won v r s o (swap_operation rt k v r s) refl h

    -- Of two writers of an operation that expect the same version, where the first has written, the
    -- other, whatever record it writes and whatever calls are made in between, changes nothing and
    -- raises StateVersionConflict, if its record is of the operation.
    pub later_writer_conflicts :
        (v : ℕ) (first second : OperationRecord) (calls : List Call) (s : FileStore)
        (o : OperationRead)
        → second.operation_key ≡ k
        → (compare_and_swap_operation rt k v first s).0 ≡ ok o
        → compare_and_swap_operation rt k v second
            (after_calls calls (compare_and_swap_operation rt k v first s).1)
          ≡ (
            raise state_version_conflict,
            after_calls calls (compare_and_swap_operation rt k v first s).1,
          )
    later_writer_conflicts v first second calls s o same h =
        let written = (compare_and_swap_operation rt k v first s).1 in
        let newer = newer_version v first s o h in
        let later = calls-version calls written in
        conflict v second (after_calls calls written) (omega (arith, newer, later)) same
