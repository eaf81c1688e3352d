-- ===== src/StateStore/Readback/Outcome.antt =====
-- What a readback that returns has read and written (ues/state_store.py,
-- `record_authoritative_readback`).
use universal_execution_syst.Prelude.{
  ℕ, String, ◌≡◌, refl, sym, subst, Bool, true, false, Option, none, some, ◌⊎◌, inl, inr, ◌==◌,
  eq_iff, Bool-cases,
}
use universal_execution_syst.Prelude.Results.{ok, Result-cases}
use universal_execution_syst.Prelude.Execs.{gets, ◌>>=◌}
use universal_execution_syst.Json.{Json}
use universal_execution_syst.Runtime.{Runtime}
use universal_execution_syst.StateStore.Model.{
  OperationState, in_flight, unknown, confirmed, reconciled_not_observed, Status, OperationRecord,
  OperationRead, WorkstreamRuntimeRecord, when_ok,
}
use universal_execution_syst.StateStore.Interface.{StateStore, OperationLaws, ReadsBack}
use universal_execution_syst.StateStore.Readback
use universal_execution_syst.StateStore.Readback.{
  record_authoritative_readback, is_ambiguous, state_of, readback_record, readback_runtime,
  write_both, write_lane,
}
use universal_execution_syst.StateStore.Claim.Keeps.{Leaves-continue, Leaves-bind, Leaves-gets}
use universal_execution_syst.StateStore.Readback.Guards.{write_lane-Leaves}

-- The operation is of the lane and is in flight or unknown.
abbrev pub IsAmbiguousOn : String → OperationRecord → Type 0
IsAmbiguousOn lane op = (op.lane_id ≡ lane) × ((op.state ≡ in_flight) ⊎ (op.state ≡ unknown))

-- The state that a readback gives an operation.
pub data Says : Option Bool → OperationState → Type 0 where
  observed : Says (some true) confirmed
  missing : Says (some false) reconciled_not_observed
  undecided : Says none unknown

-- What is read after a readback of `op`.
abbrev pub AfterReadback : String → Option Bool → OperationRecord → OperationRead → Type 0
AfterReadback key said op o =
    (o.status ≡ Status.corrupt)
    ⊎ ((q : OperationRecord) × (o.status ≡ Status.ok)
        × (o.record_read ≡ some q)
        × (q.operation_key ≡ key)
        × Says said q.state
        × (q.request_digest ≡ op.request_digest))

Says-state_of : (said : Option Bool) → Says said (state_of said)
Says-state_of (some true) = observed
Says-state_of (some false) = missing
Says-state_of none = undecided

ambiguous_cases : (s : OperationState) → is_ambiguous s ≡ true → (s ≡ in_flight) ⊎ (s ≡ unknown)
ambiguous_cases in_flight h = inl refl
ambiguous_cases unknown h = inr refl
ambiguous_cases _ h = cc

AfterReadback-of_ReadsBack :
    (rt : Runtime) (lane key : String) (now : ℕ) (said : Option Bool) (evidence : Json)
    (op : OperationRecord) (o : OperationRead)
    → ReadsBack key (readback_record rt lane key now said evidence op) o
    → AfterReadback key said op o
unfolding readback_record
AfterReadback-of_ReadsBack rt lane key now said evidence op o (inl c) = inl c
AfterReadback-of_ReadsBack rt lane key now said evidence op o (inr (q, s, r, e, st, d)) =
    inr (q, s, r, e, subst (Says said) (sym st) (Says-state_of said), d)

module _ {S : Type 0} (rt : Runtime) (store : StateStore S) (laws : OperationLaws store)
    (lane key : String) (now : ℕ) where
  write_both-ReadsBack :
      (v : ℕ) (op : OperationRecord) (runtime : WorkstreamRuntimeRecord → WorkstreamRuntimeRecord)
      (s : S) (o : OperationRead)
      → (write_both rt lane key now store v op runtime s).0 ≡ ok o
      → ReadsBack key op
          (store.read_operation key (write_both rt lane key now store v op runtime s).1)
  unfolding write_both
  write_both-ReadsBack v op runtime s o h =
      elim (Result-cases (store.compare_and_swap_operation key v op s).0) [
        | inl (a, e) ↦
            subst (ReadsBack key op)
              (sym (
                (Leaves-continue {store = store} {k = key}
                    (store.compare_and_swap_operation key v op s).0
                    (λ saved. gets (store.read_workstream lane) >>= (λ ws.
                      write_lane rt lane key now store runtime saved ws.version
                        (when_ok ws.status ws.record_read)))
                    (λ saved.
                      Leaves-bind (gets (store.read_workstream lane)) _
                        (Leaves-gets (store.read_workstream lane))
                        (λ ws.
                          write_lane-Leaves store laws key rt lane key now runtime saved ws.version
                            (when_ok ws.status ws.record_read)))).at
                  (store.compare_and_swap_operation key v op s).1))
              (laws.read-cas_ok key v op s a e)
        | inr (x, e) ↦ cc (rw e at h)
      ]

  module _ (said : Option Bool) (evidence : Json) where
    write_both-AfterReadback :
        (v : ℕ) (op : OperationRecord) (runtime : WorkstreamRuntimeRecord → WorkstreamRuntimeRecord)
        (s : S) (o : OperationRead)
        → (write_both rt lane key now store v
            (readback_record rt lane key now said evidence op)
            runtime
            s).0
          ≡ ok o
        → AfterReadback key said op (
            store.read_operation key
              (write_both rt lane key now store v
                (readback_record rt lane key now said evidence op)
                runtime
                s).1)
    write_both-AfterReadback v op runtime s o h =
        AfterReadback-of_ReadsBack rt lane key now said evidence op
          (store.read_operation key
            (write_both rt lane key now store v (readback_record rt lane key now said evidence op)
              runtime s).1)
          (write_both-ReadsBack v (readback_record rt lane key now said evidence op) runtime s o h)

    of_record :
        (v : ℕ) (op : OperationRecord) (s : S) (o : OperationRead)
        → (Readback.readback_of rt lane key now store said evidence v (some op) s).0 ≡ ok o
        → IsAmbiguousOn lane op
          × AfterReadback key said op (
              store.read_operation key
                (Readback.readback_of rt lane key now store said evidence v (some op) s).1)
    unfolding Readback.readback_of
    of_record v op s o h = elim (Bool-cases (op.lane_id == lane)) [
      | inr e ↦ cc (rw e at h)
      | inl e ↦ elim (Bool-cases (is_ambiguous op.state)) [
        | inr a ↦ cc (rw (e, a) at h)
        | inl a ↦
            rw (e, a)
              (
                ((eq_iff op.lane_id lane).0 e, ambiguous_cases op.state a),
                write_both-AfterReadback v op
                    (readback_runtime rt lane key now said
                      (readback_record rt lane key now said evidence op).receipt)
                    s o (rw (e, a) at h),
              )
      ]
    ]

    of_read :
        (v : ℕ) (r : Option OperationRecord) (s : S) (o : OperationRead)
        → (Readback.readback_of rt lane key now store said evidence v r s).0 ≡ ok o
        → (op : OperationRecord) × (r ≡ some op)
          × IsAmbiguousOn lane op
          × AfterReadback key said op (
              store.read_operation key
                (Readback.readback_of rt lane key now store said evidence v r s).1)
    unfolding Readback.readback_of
    of_read v none s o h = cc
    of_read v (some op) s o h =
        let (ambiguous, after) = of_record v op s o h in (op, refl, ambiguous, after)

    -- In a store that keeps the laws of operation records, a readback that returns has found a record
    -- of the operation, of this lane and IN_FLIGHT or UNKNOWN, and what a read finds afterwards is
    -- a record with the state that the readback says, CONFIRMED if the write was observed,
    -- RECONCILED_NOT_OBSERVED if it was seen missing and UNKNOWN if neither, and the same request
    -- digest; or a corrupt state.
    pub readback_returns :
        (s : S) (o : OperationRead)
        → (record_authoritative_readback rt lane key now store said evidence s).0 ≡ ok o
        → (op : OperationRecord) × (when_ok
              (store.read_operation key s).status
              (store.read_operation key s).record_read
            ≡ some op)
          × IsAmbiguousOn lane op
          × AfterReadback key said op (
              store.read_operation key
                (record_authoritative_readback rt lane key now store said evidence s).1)
    unfolding record_authoritative_readback
    readback_returns s o h =
        of_read (store.read_operation key s).version
          (when_ok (store.read_operation key s).status (store.read_operation key s).record_read) s o
          h
