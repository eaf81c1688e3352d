-- ===== src/Transaction/Plan.antt =====
-- ues/transaction.py: `active_lease_conflicts`, `plan_mutation` and `reconcile_post_write`.
use universal_execution_syst.Prelude.{
  ℕ, String, Bool, false, not, ◌&&◌, Option, none, some, List, [], ◌∷◌, ◌++◌, if◌then◌else◌, ◌==◌,
  or_else, text_or, leb, same_text,
}
use universal_execution_syst.Prelude.Lists.{is_empty}
use universal_execution_syst.Prelude.Results.{Result, ok, raise, ◌>>=◌}
use universal_execution_syst.Idempotency.Records.{truthy}
use universal_execution_syst.Idempotency.Boundary.{MutationPlan}
use universal_execution_syst.Transaction.{
  Host, Envelope, Attempt, Validation, ActiveLease, LeaseConflict, invalid_active_lease,
  lease_conflict, RawList, items, no_list, MutationRequest, RequestFailure, operation_missing,
  proposed_paths_invalid, resource_classes_invalid, TransactionPlan, Verdict, PostWrite,
  plan_not_authorized, unauthorized_post_write_paths, post_tree_mismatch,
  write_confirmed_expected_post_state, write_not_observed, post_state_requires_reconciliation,
}
use universal_execution_syst.Transaction.Paths.{normalize_path, any_matches}
use universal_execution_syst.Transaction.Validate.{parse_time, validate_authority}
use universal_execution_syst.Transaction.Sets.{sorted_set, without, shared}

-- `[_normalize_path(path) for path in paths]`
unfoldable pub normalize_all : List String → Result (List String)
unfolding normalize_path
normalize_all [] = ok []
normalize_all (path ∷ paths) = do p ← normalize_path path; ps ← normalize_all paths; ok (p ∷ ps)

-- What the scope of a lease is compared with.
pub record Scope : Type 0 where
  pub repository : String
  pub ref : String
  pub operation_id : String
  pub paths : List String
  pub resources : List String
  pub now : ℕ

-- The first three tests of the loop, each a `continue`.
unfoldable pub is_foreign : Scope → ActiveLease → Bool
is_foreign s l =
    text_or l.state "ACTIVE" == "ACTIVE"
    && (same_text l.repository (some s.repository) && same_text l.ref (some s.ref))
    && not (same_text l.operation_id (some s.operation_id))

abbrev pub hits_as : ActiveLease → List String → List String → List LeaseConflict
hits_as l paths resources =
    if is_empty paths && is_empty resources
    then []
    else lease_conflict l.lease_id l.operation_id paths resources ∷ []

abbrev pub items_of : RawList → List String
items_of (items xs) = xs
items_of no_list = []

abbrev pub invalid_list : RawList → RequestFailure → List RequestFailure
invalid_list (items xs) failure = []
invalid_list no_list failure = failure ∷ []

unfoldable pub request_failures_of : MutationRequest → List RequestFailure
request_failures_of r =
    (if or_else r.operation "" == "" then operation_missing ∷ [] else [])
    ++ (invalid_list r.proposed_paths proposed_paths_invalid
        ++ invalid_list r.resource_classes resource_classes_invalid)

-- The keyword arguments of `plan_mutation`.
pub record Live : Type 0 where
  pub repository : String
  pub ref : String
  pub live_head_sha : String
  pub live_tree_sha : Option String
  pub operation_id : Option String
  pub workstream_id : Option String
  pub active_leases : List ActiveLease
  pub now : ℕ

-- The arguments that `plan_mutation` gives to `validate_authority`.
abbrev pub attempt_of : MutationRequest → Live → Attempt
attempt_of r v = record {
  repository = v.repository;
  ref = v.ref;
  live_head_sha = v.live_head_sha;
  live_tree_sha = v.live_tree_sha;
  operation = or_else r.operation "";
  proposed_paths = items_of r.proposed_paths;
  resource_classes = items_of r.resource_classes;
  expected_operation_id = v.operation_id;
  expected_workstream_id = v.workstream_id;
  now = v.now;
}

abbrev pub scope_of : MutationRequest → Live → Validation → Scope
scope_of r v authority = record {
  repository = v.repository;
  ref = v.ref;
  operation_id = authority.operation_id;
  paths = authority.proposed_paths;
  resources = items_of r.resource_classes;
  now = v.now;
}

unfoldable pub make_plan :
    Envelope → MutationRequest → Live → Validation → List LeaseConflict → TransactionPlan
unfolding request_failures_of
make_plan e r v authority conflicts =
    let eligible = authority.valid && is_empty (request_failures_of r) && is_empty conflicts in
    record {
      decision = if eligible then "AUTHORIZED_DRY_RUN" else "REJECTED";
      eligible_for_future_execution = eligible;
      execution_enabled = false;
      safe_to_execute_now = false;
      request_failures = request_failures_of r;
      authority = authority;
      lease_conflicts = conflicts;
      expected_head_sha = e.expected_head_sha;
      expected_tree_sha = e.expected_tree_sha;
      live_head_sha = v.live_head_sha;
      live_tree_sha = v.live_tree_sha;
      lease_request =
          if eligible
          then some (record {
            operation_id = authority.operation_id;
            repository = v.repository;
            ref = v.ref;
            path_patterns = authority.proposed_paths;
            resource_classes = items_of r.resource_classes;
          })
          else none;
    }

module _ (host : Host) where
  unfoldable pub paths_hit : List String → List String → Result (List String)
  unfolding any_matches
  paths_hit patterns [] = ok []
  paths_hit patterns (path ∷ paths) = do
    hit ← any_matches host patterns path
    rest ← paths_hit patterns paths
    ok (if hit then path ∷ rest else rest)

  unfoldable pub lease_hits : Scope → ActiveLease → Result (List LeaseConflict)
  unfolding paths_hit sorted_set
  lease_hits s l = paths_hit l.path_patterns s.paths >>= λ hits.
      ok (hits_as l (sorted_set hits) (sorted_set (shared s.resources l.resource_classes)))

  -- A lease with an expiry: it is over, it cannot be read, or it counts.
  abbrev pub expiring :
      Scope → ActiveLease → Result ℕ → Result (List LeaseConflict) → Result (List LeaseConflict)
  expiring s l (ok expiry) hits = if leb expiry s.now then ok [] else hits
  expiring s l (raise e) hits = ok (invalid_active_lease l.lease_id ∷ [])

  unfoldable pub conflicts_of : Scope → ActiveLease → Result (List LeaseConflict)
  unfolding is_foreign parse_time lease_hits
  conflicts_of s l =
      if not (is_foreign s l)
      then ok []
      else if truthy l.expires_at
      then expiring s l (parse_time host (or_else l.expires_at "")) (lease_hits s l)
      else lease_hits s l

  unfoldable pub conflicts_all : Scope → List ActiveLease → Result (List LeaseConflict)
  unfolding conflicts_of
  conflicts_all s [] = ok []
  conflicts_all s (l ∷ ls) = do
    found ← conflicts_of s l
    rest ← conflicts_all s ls
    ok (found ++ rest)

  unfoldable pub active_lease_conflicts : Scope → List ActiveLease → Result (List LeaseConflict)
  unfolding normalize_all conflicts_all
  active_lease_conflicts s leases = do
    normalized ← normalize_all s.paths
    conflicts_all (record s { paths = normalized }) leases

  unfoldable pub plan_mutation : Envelope → MutationRequest → Live → Result TransactionPlan
  unfolding validate_authority active_lease_conflicts request_failures_of make_plan
  plan_mutation e r v =
      let authority = validate_authority host e (attempt_of r v) in
      (if authority.valid && is_empty (request_failures_of r)
        then active_lease_conflicts (scope_of r v authority) v.active_leases
        else ok [])
      >>= λ conflicts. ok (make_plan e r v authority conflicts)

-- What the write boundary reads of a plan.
abbrev pub as_mutation_plan : TransactionPlan → MutationPlan
as_mutation_plan p = record {
  decision = some p.decision;
  cas_live_head_sha = some p.live_head_sha;
  cas_live_tree_sha = p.live_tree_sha;
}

-- What is observed after the write, with the state that is expected.
pub record Observed : Type 0 where
  pub live_head_sha : String
  pub live_tree_sha : Option String
  pub observed_changed_paths : List String
  pub expected_post_sha : Option String
  pub expected_post_tree_sha : Option String

unfoldable pub verdict_of : TransactionPlan → Observed → List String → Verdict
verdict_of p o unexpected_paths =
    if not (p.decision == "AUTHORIZED_DRY_RUN")
    then plan_not_authorized
    else if not (is_empty unexpected_paths)
    then unauthorized_post_write_paths
    else if truthy o.expected_post_sha && same_text (some o.live_head_sha) o.expected_post_sha
    then (if truthy o.expected_post_tree_sha
          && not (same_text o.live_tree_sha o.expected_post_tree_sha)
        then post_tree_mismatch
        else write_confirmed_expected_post_state)
    else if o.live_head_sha == p.live_head_sha
    then write_not_observed
    else post_state_requires_reconciliation

abbrev pub post_write : TransactionPlan → Observed → List String → PostWrite
post_write p o observed =
    let unexpected_paths = sorted_set (without p.authority.proposed_paths observed) in
    record {
      verdict = verdict_of p o unexpected_paths;
      observed_changed_paths = observed;
      unexpected_paths = unexpected_paths;
      safe_to_blind_retry = false;
    }

unfoldable pub reconcile_post_write : TransactionPlan → Observed → Result PostWrite
unfolding normalize_all sorted_set verdict_of
reconcile_post_write p o = do
  observed ← normalize_all o.observed_changed_paths
  ok (post_write p o observed)
