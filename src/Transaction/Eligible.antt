-- ===== src/Transaction/Eligible.antt =====
-- ues/transaction.py: what an authorized plan has checked, alone and with the write boundary of
-- ues/idempotency.py.
use universal_execution_syst.Prelude.{
  String, Bool, true, ◌&&◌, ◌≡◌, refl, sym, ap, ◌∙◌, arith, Option, some, List, [], if◌then◌else◌,
  Bool-cases, inl, inr,
}
use universal_execution_syst.Prelude.Lists.{empty_lem, is_empty}
use universal_execution_syst.Prelude.Results.{ok_injective, ok, >>=-eq-ok}
use universal_execution_syst.Idempotency.Records.{OperationEntry}
use universal_execution_syst.Idempotency.Boundary.{evaluate_write_boundary}
use universal_execution_syst.Idempotency.Serialization.{ready_iff}
use universal_execution_syst.Transaction.{
  Host, Envelope, MutationRequest, Validation, LeaseConflict, TransactionPlan,
}
use universal_execution_syst.Transaction.Validate.{normalized_paths, validate_authority}
use universal_execution_syst.Transaction.Authorized.{IsAuthorized, valid_iff}
use universal_execution_syst.Transaction.Leases.{AllApart, conflicts_all-none}
use universal_execution_syst.Transaction.Plan.{
  normalize_all, active_lease_conflicts, request_failures_of, Live, attempt_of, scope_of, make_plan,
  plan_mutation, as_mutation_plan,
}

some_injective {ℓ} : {A : Type ℓ} {a b : A} → some a ≡ some b → a ≡ b
some_injective e = cc

module _ (host : Host) (e : Envelope) (r : MutationRequest) (v : Live) where
  -- The plan's request is well formed, its envelope authorizes it, and its paths and resources are apart
  -- from every lease of another operation on the branch.
  pub record IsCleared : Type 0 where
    pub well_formed : is_empty (request_failures_of r) ≡ true
    pub authorized : IsAuthorized host e (attempt_of r v)
    pub paths : List String
    pub normalized : normalize_all (normalized_paths (attempt_of r v).proposed_paths) ≡ ok paths
    pub apart :
        AllApart host
          (record (scope_of r v (validate_authority host e (attempt_of r v))) { paths = paths })
          v.active_leases

  -- The decision is the authorization exactly if the three checks passed.
  decision-checks :
      (authority : Validation) (conflicts : List LeaseConflict)
      → (make_plan e r v authority conflicts).decision ≡ "AUTHORIZED_DRY_RUN"
      → (authority.valid ≡ true) × (is_empty (request_failures_of r) ≡ true) × (conflicts ≡ [])
  unfolding make_plan
  decision-checks authority conflicts h =
      elim (Bool-cases
        (authority.valid && is_empty (request_failures_of r) && is_empty conflicts)) [
          | inl all_pass ↦ (ground arith, ground arith, empty_lem conflicts (ground arith))
          | inr other ↦ cc (rw other at h)
        ]

  if_both :
      {A : Type 0} (a b : Bool) (x y : A) → a ≡ true → b ≡ true → (if a && b then x else y) ≡ x
  if_both a b x y ha hb = rw (ha, hb) refl

  cleared :
      (conflicts : List LeaseConflict)
      → (if (validate_authority host e (attempt_of r v)).valid && is_empty (request_failures_of r)
          then active_lease_conflicts host
              (scope_of r v (validate_authority host e (attempt_of r v)))
              v.active_leases
          else ok [])
        ≡ ok conflicts
      → (make_plan e r v (validate_authority host e (attempt_of r v)) conflicts).decision
        ≡ "AUTHORIZED_DRY_RUN"
      → IsCleared
  unfolding active_lease_conflicts validate_authority
  cleared conflicts found decided =
      let authority = validate_authority host e (attempt_of r v) in
      let (valid, formed, none_found) = decision-checks authority conflicts decided in
      let searched =
        sym (if_both authority.valid (is_empty (request_failures_of r)) _ _ valid formed) ∙ found in
      let (paths, normalized, search) =
        >>=-eq-ok (normalize_all authority.proposed_paths) _ searched in
      record {
        well_formed = formed;
        authorized = (valid_iff host e (attempt_of r v)).0 valid;
        paths = paths;
        normalized = normalized;
        apart = conflicts_all-none host _ v.active_leases (search ∙ ap (λ x. ok x) none_found);
      }

  planned_parts :
      (p : TransactionPlan)
      → plan_mutation host e r v ≡ ok p
      → (conflicts : List LeaseConflict) × ((if (validate_authority host e (attempt_of r v)).valid
              && is_empty (request_failures_of r)
            then active_lease_conflicts host
                (scope_of r v (validate_authority host e (attempt_of r v)))
                v.active_leases
            else ok [])
          ≡ ok conflicts)
        × (make_plan e r v (validate_authority host e (attempt_of r v)) conflicts ≡ p)
  unfolding plan_mutation
  planned_parts p planned =
      let (conflicts, found, made) = >>=-eq-ok _ _ planned in (conflicts, found, ok_injective made)

  -- A plan that is an authorized dry run comes from a well-formed request, its envelope authorizes it,
  -- and its paths and resource classes are apart from every lease of another operation that counts.
  pub authorized-IsCleared :
      (p : TransactionPlan)
      → plan_mutation host e r v ≡ ok p
      → p.decision ≡ "AUTHORIZED_DRY_RUN"
      → IsCleared
  authorized-IsCleared p planned decided =
      let (conflicts, found, made) = planned_parts p planned in
      cleared conflicts found (ap (λ q. q.decision) made ∙ decided)

  made-head :
      (authority : Validation) (conflicts : List LeaseConflict)
      → (make_plan e r v authority conflicts).live_head_sha ≡ v.live_head_sha
  unfolding make_plan
  made-head authority conflicts = refl

  -- If the write boundary calls a plan's write ready, then the plan is cleared and the head is still the
  -- one it was planned for.
  pub ready-IsCleared :
      (p : TransactionPlan) (op d repository ref head : String) (tree : Option String)
      (records : List OperationEntry)
      → plan_mutation host e r v ≡ ok p
      → (evaluate_write_boundary (as_mutation_plan p) op d repository ref head tree records).ready
        ≡ true
      → IsCleared × (head ≡ v.live_head_sha)
  ready-IsCleared p op d repository ref head tree records planned ready =
      let (decided, same_head, unmoved, executable, available) =
        (ready_iff (as_mutation_plan p) op d repository ref head tree records).0 ready in
      let (conflicts, found, made) = planned_parts p planned in
      let authority = validate_authority host e (attempt_of r v) in
      (
        authorized-IsCleared p planned (some_injective decided),
        sym (some_injective same_head)
            ∙ (sym (ap (λ q. q.live_head_sha) made) ∙ made-head authority conflicts),
      )
