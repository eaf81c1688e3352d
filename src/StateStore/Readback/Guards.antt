-- ===== src/StateStore/Readback/Guards.antt =====
-- What a readback needs, and what it and an unknown write leave of an operation's record.
use universal_execution_syst.Prelude.{
  ℕ, String, ◌≢◌, sym, ◌∙◌, subst, Bool, true, false, not, if◌then◌else◌, Option, none, some, inl,
  inr, ◌==◌, eq_iff, Bool-cases,
}
use universal_execution_syst.Prelude.Results.{Result, ok, raise, Result-cases}
use universal_execution_syst.Prelude.Execs
use universal_execution_syst.Prelude.Execs.{Exec, pure, gets, lift, attempt, ◌>>=◌}
use universal_execution_syst.Json.{Json}
use universal_execution_syst.Runtime.{Runtime}
use universal_execution_syst.StateStore.Model.{
  OperationRecord, OperationRead, WorkstreamRuntimeRecord, reconciled_not_observed, when_ok,
}
use universal_execution_syst.StateStore.Interface.{StateStore, OperationLaws, ReadsBack}
use universal_execution_syst.StateStore.Claim.Keeps.{
  Blocked, Leaves, pure_rules, Leaves-cas_workstream, Leaves-cas_operation, Leaves-bind,
  Leaves-gets,
}
use universal_execution_syst.StateStore.Readback
use universal_execution_syst.StateStore.Readback.{
  record_unknown_write, record_authoritative_readback, is_ambiguous, unknown_record,
  readback_record, state_of,
}

-- `m` keeps the record of the key `k` blocked.
pub record KeepsBlocked {S A : Type 0} (store : StateStore S) (k : String) (m : Exec S A)
    : Type 0 where
  pub at :
      (s : S) → Blocked k (store.read_operation k s) → Blocked k (store.read_operation k (m s).1)

module _ {S : Type 0} (store : StateStore S) (laws : OperationLaws store) (k : String) where
  of_Leaves : {A : Type 0} (m : Exec S A) → Leaves store k m → KeepsBlocked store k m
  of_Leaves m l = record { at = λ s b. subst (Blocked k) (sym (l.at s)) b }

  keeps-continue :
      {A B : Type 0} (r : Result A) (f : A → Exec S B)
      → ((a : A) → KeepsBlocked store k (f a))
      → KeepsBlocked store k (Execs.continue r f)
  keeps-continue (ok a) f h = h a
  keeps-continue (raise e) f h = record { at = λ s b. b }

  keeps-bind :
      {A B : Type 0} (m : Exec S A) (f : A → Exec S B)
      → KeepsBlocked store k m
      → ((a : A) → KeepsBlocked store k (f a))
      → KeepsBlocked store k (m >>= f)
  keeps-bind m f h g = record { at = λ s b. (keeps-continue (m s).0 f g).at (m s).1 (h.at s b) }

  keeps-if :
      {A : Type 0} (b : Bool) (m n : Exec S A)
      → KeepsBlocked store k m
      → KeepsBlocked store k n
      → KeepsBlocked store k (if b then m else n)
  keeps-if true m n h g = h
  keeps-if false m n h g = g

  ReadsBack-Blocked :
      (op : OperationRecord) (o : OperationRead)
      → op.state ≢ reconciled_not_observed
      → ReadsBack k op o
      → Blocked k o
  ReadsBack-Blocked op o f (inl c) = inl c
  ReadsBack-Blocked op o f (inr (p, s, r, e, st, d)) = inr (p, s, r, e, λ x. f (sym st ∙ x))

  same_key :
      (v : ℕ) (op : OperationRecord)
      → op.state ≢ reconciled_not_observed
      → KeepsBlocked store k (store.compare_and_swap_operation k v op)
  same_key v op f = record {
    at = λ s b. elim (Result-cases (store.compare_and_swap_operation k v op s).0) [
      | inl (o, e) ↦
          ReadsBack-Blocked op
            (store.read_operation k (store.compare_and_swap_operation k v op s).1) f
            (laws.read-cas_ok k v op s o e)
      | inr (x, e) ↦ subst (Blocked k) (sym (laws.read-cas_raise k k v op s x e)) b
    ];
  }

  keeps-cas_operation :
      (j : String) (v : ℕ) (op : OperationRecord)
      → op.state ≢ reconciled_not_observed
      → KeepsBlocked store k (store.compare_and_swap_operation j v op)
  keeps-cas_operation j v op f = elim (Bool-cases (j == k)) [
    | inl e ↦
        subst (λ i. KeepsBlocked store k (store.compare_and_swap_operation i v op))
          (sym ((eq_iff j k).0 e)) (same_key v op f)
    | inr e ↦ record {
      at = λ s b.
          subst (Blocked k) (sym (laws.read-cas_ne k j v op s (λ p. cc (e, (eq_iff j k).1 p)))) b;
    }
  ]

  pub write_lane-Leaves :
      (rt : Runtime) (lane key : String) (now : ℕ)
      (runtime : WorkstreamRuntimeRecord → WorkstreamRuntimeRecord) (saved : OperationRead) (v : ℕ)
      (r : Option WorkstreamRuntimeRecord)
      → Leaves store k (Readback.write_lane rt lane key now store runtime saved v r)
  unfolding Readback.write_lane
  write_lane-Leaves rt lane key now runtime saved v none = search pure_rules
  write_lane-Leaves rt lane key now runtime saved v (some r) =
      search (pure_rules, Leaves-cas_workstream)

  keeps-write_both :
      (rt : Runtime) (lane key : String) (now v : ℕ) (op : OperationRecord)
      (runtime : WorkstreamRuntimeRecord → WorkstreamRuntimeRecord)
      → op.state ≢ reconciled_not_observed
      → KeepsBlocked store k (Readback.write_both rt lane key now store v op runtime)
  unfolding Readback.write_both
  keeps-write_both rt lane key now v op runtime f =
      keeps-bind (store.compare_and_swap_operation key v op)
        (λ saved. gets (store.read_workstream lane) >>= (λ ws.
          Readback.write_lane rt lane key now store runtime saved ws.version
            (when_ok ws.status ws.record_read)))
        (keeps-cas_operation key v op f)
        (λ saved. of_Leaves _ (
          Leaves-bind (gets (store.read_workstream lane)) _
            (Leaves-gets (store.read_workstream lane))
            (λ ws.
              write_lane-Leaves rt lane key now runtime saved ws.version
                (when_ok ws.status ws.record_read))))

  keeps-unknown_of :
      (rt : Runtime) (lane key : String) (now : ℕ) (result : Json) (v : ℕ)
      (o : Option OperationRecord)
      → KeepsBlocked store k (Readback.unknown_of rt lane key now store result v o)
  unfolding Readback.unknown_of unknown_record
  keeps-unknown_of rt lane key now result v none = record { at = λ s b. b }
  keeps-unknown_of rt lane key now result v (some op) =
      keeps-if (op.lane_id == lane) _ _
        (keeps-write_both rt lane key now v (unknown_record rt lane key now result op) _ (λ p. cc))
        (record { at = λ s b. b })

  -- An unknown write, of any operation, keeps the record of the key blocked.
  pub keeps-unknown_write :
      (rt : Runtime) (lane key : String) (now : ℕ) (result : Json)
      → KeepsBlocked store k (record_unknown_write rt lane key now store result)
  unfolding record_unknown_write
  keeps-unknown_write rt lane key now result = record {
    at = λ s b.
        (keeps-unknown_of rt lane key now result (store.read_operation key s).version (
            when_ok (store.read_operation key s).status
              (store.read_operation key s).record_read)).at
          s b;
  }

  keeps-readback_of :
      (rt : Runtime) (lane key : String) (now : ℕ) (observed : Option Bool) (evidence : Json)
      (v : ℕ) (o : Option OperationRecord)
      → state_of observed ≢ reconciled_not_observed
      → KeepsBlocked store k (Readback.readback_of rt lane key now store observed evidence v o)
  unfolding Readback.readback_of readback_record
  keeps-readback_of rt lane key now observed evidence v none h = record { at = λ s b. b }
  keeps-readback_of rt lane key now observed evidence v (some op) h =
      keeps-if (not (op.lane_id == lane)) _ _ (record { at = λ s b. b })
        (keeps-if (not (is_ambiguous op.state)) _ _ (record { at = λ s b. b })
          (keeps-write_both rt lane key now v (readback_record rt lane key now observed evidence op)
            _ h))

  -- A readback that does not find the write missing, of any operation, keeps the record of the key
  -- blocked.
  pub keeps-readback :
      (rt : Runtime) (lane key : String) (now : ℕ) (observed : Option Bool) (evidence : Json)
      → state_of observed ≢ reconciled_not_observed
      → KeepsBlocked store k (record_authoritative_readback rt lane key now store observed evidence)
  unfolding record_authoritative_readback
  keeps-readback rt lane key now observed evidence h = record {
    at = λ s b.
        (keeps-readback_of rt lane key now observed evidence (store.read_operation key s).version
            (when_ok (store.read_operation key s).status (store.read_operation key s).record_read)
            h).at
          s b;
  }

  module _ (rt : Runtime) (lane key : String) (now : ℕ) (ne : key ≢ k) where
    write_both-Leaves :
        (v : ℕ) (op : OperationRecord) (runtime : WorkstreamRuntimeRecord → WorkstreamRuntimeRecord)
        → Leaves store k (Readback.write_both rt lane key now store v op runtime)
    unfolding Readback.write_both
    write_both-Leaves v op runtime = search (pure_rules, Leaves-cas_operation, write_lane-Leaves)

    readback_of-Leaves :
        (observed : Option Bool) (evidence : Json) (v : ℕ) (o : Option OperationRecord)
        → Leaves store k (Readback.readback_of rt lane key now store observed evidence v o)
    unfolding Readback.readback_of
    readback_of-Leaves observed evidence v none = search pure_rules
    readback_of-Leaves observed evidence v (some op) = search (pure_rules, write_both-Leaves)

    -- A readback of another operation leaves the record of the key.
    pub readback-Leaves :
        (observed : Option Bool) (evidence : Json)
        → Leaves store k (record_authoritative_readback rt lane key now store observed evidence)
    unfolding record_authoritative_readback
    readback-Leaves observed evidence = search (pure_rules, readback_of-Leaves)
