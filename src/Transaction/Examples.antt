-- ===== src/Transaction/Examples.antt =====
-- Runs of ues/transaction.py, with a matcher that knows a single star, and one readable timestamp.
use universal_execution_syst.Prelude.{
  String, true, false, ◌≡◌, refl, ◌↔◌, ◌||◌, Option, none, some, List, [], ◌∷◌, if◌then◌else◌, ◌==◌,
}
use universal_execution_syst.Prelude.Results.{ok, raise, value_error}
use universal_execution_syst.TaskBudget.{pos}
use universal_execution_syst.Idempotency.Boundary.{evaluate_write_boundary}
use universal_execution_syst.Transaction.{
  Timestamp, Host, Envelope, ActiveLease, MutationRequest, items, TransactionPlan, PostWrite,
  write_confirmed_expected_post_state,
}
use universal_execution_syst.Transaction.Paths.{normalize_path, glob}
use universal_execution_syst.Transaction.Covers.{Covers, glob_iff}
use universal_execution_syst.Transaction.Segments.{IsContained, normalize_path-IsContained}
use universal_execution_syst.Transaction.Validate.{validate_authority}
use universal_execution_syst.Transaction.Authorized.{IsAuthorized, valid_iff}
use universal_execution_syst.Transaction.Plan.{
  Live, attempt_of, plan_mutation, as_mutation_plan, normalize_all, Observed, reconcile_post_write,
}
use universal_execution_syst.Transaction.Eligible.{IsCleared, authorized-IsCleared, ready-IsCleared}
use universal_execution_syst.Transaction.Confirm.{AllIn, IsExpected, confirmed_iff}

toy_time : String → Option Timestamp
toy_time s =
    if s == "2030-01-01T00:00:00+00:00"
    then some (record { has_zone = true; instant = 1000 })
    else none

abbrev toy : Host
toy = record {
  fnmatchcase = λ name pattern. name == pattern || pattern == "*";
  fromisoformat = toy_time;
}

abbrev tokens : List String
tokens = "src" ∷ "**" ∷ "*" ∷ []

abbrev segments : List String
segments = "src" ∷ "ues" ∷ "cli.py" ∷ []

glob_test : glob toy tokens segments ≡ true
unfolding glob
glob_test = refl

glob_iff_example : (glob toy tokens segments ≡ true) ↔ Covers toy tokens segments
glob_iff_example = glob_iff toy tokens segments

normalize_test : normalize_path ".\\src//a.py" ≡ ok "src/a.py"
unfolding normalize_path
normalize_test = refl

normalize_refuses : normalize_path "src/../../a" ≡ raise value_error
unfolding normalize_path
normalize_refuses = refl

-- The normalized path of a text may end in a space, and normalizing it again removes the space.
normalize_twice : (normalize_path "docs /." ≡ ok "docs ") × (normalize_path "docs " ≡ ok "docs")
unfolding normalize_path
normalize_twice = (refl, refl)

normalize_path-IsContained_example : IsContained "src/a.py"
normalize_path-IsContained_example =
    normalize_path-IsContained ".\\src//a.py" "src/a.py" normalize_test

abbrev envelope : Envelope
envelope = record {
  schema_version = some "0.4";
  operation_id = some "op";
  workstream_id = some "ws";
  repository = some "repo";
  ref = some "main";
  expected_head_sha = some "h";
  expected_tree_sha = none;
  operation = some "WRITE";
  allowed_paths = some ("src/**" ∷ []);
  prohibited_paths = "src/secret/**" ∷ [];
  resource_classes = "ci" ∷ [];
  stop_gate = some "NONE";
  expires_at = some "2030-01-01T00:00:00Z";
  max_changed_paths = some (pos 2);
}

abbrev request : MutationRequest
request = record {
  operation = some "WRITE";
  proposed_paths = items ("src/a.py" ∷ []);
  resource_classes = items ("ci" ∷ []);
}

-- A lease of another operation on another path.
abbrev other_lease : ActiveLease
other_lease = record {
  lease_id = some "l";
  operation_id = some "other";
  repository = some "repo";
  ref = some "main";
  state = none;
  expires_at = none;
  path_patterns = "docs/**" ∷ [];
  resource_classes = [];
}

abbrev live : Live
live = record {
  repository = "repo";
  ref = "main";
  live_head_sha = "h";
  live_tree_sha = some "t";
  operation_id = some "op";
  workstream_id = none;
  active_leases = other_lease ∷ [];
  now = 10;
}

valid_iff_example :
    ((validate_authority toy envelope (attempt_of request live)).valid ≡ true)
    ↔ IsAuthorized toy envelope (attempt_of request live)
valid_iff_example = valid_iff toy envelope (attempt_of request live)

valid_test : (validate_authority toy envelope (attempt_of request live)).valid ≡ true
unfolding validate_authority toy_time
valid_test = refl

abbrev planned : TransactionPlan
planned = record {
  decision = "AUTHORIZED_DRY_RUN";
  eligible_for_future_execution = true;
  execution_enabled = false;
  safe_to_execute_now = false;
  request_failures = [];
  authority = record {
    valid = true;
    operation_id = "op";
    workstream_id = "ws";
    stop_gate = some "NONE";
    expected_head_sha = some "h";
    expected_tree_sha = none;
    proposed_paths = "src/a.py" ∷ [];
    resource_classes = "ci" ∷ [];
    failures = [];
  };
  lease_conflicts = [];
  expected_head_sha = some "h";
  expected_tree_sha = none;
  live_head_sha = "h";
  live_tree_sha = some "t";
  lease_request = some (record {
    operation_id = "op";
    repository = "repo";
    ref = "main";
    path_patterns = "src/a.py" ∷ [];
    resource_classes = "ci" ∷ [];
  });
}

plan_test : plan_mutation toy envelope request live ≡ ok planned
unfolding plan_mutation toy_time
plan_test = refl

authorized-IsCleared_example : IsCleared toy envelope request live
authorized-IsCleared_example = authorized-IsCleared toy envelope request live planned plan_test refl

ready_test :
    (evaluate_write_boundary
      (as_mutation_plan planned)
      "op"
      "d"
      "repo"
      "main"
      "h"
      (some "t")
      []).ready
    ≡ true
unfolding evaluate_write_boundary
ready_test = refl

ready-IsCleared_example : IsCleared toy envelope request live × ("h" ≡ live.live_head_sha)
ready-IsCleared_example =
    ready-IsCleared toy envelope request live planned "op" "d" "repo" "main" "h" (some "t") []
      plan_test ready_test

abbrev after_write : Observed
after_write = record {
  live_head_sha = "n";
  live_tree_sha = some "u";
  observed_changed_paths = "./src/a.py" ∷ [];
  expected_post_sha = some "n";
  expected_post_tree_sha = none;
}

observed_test : normalize_all ("./src/a.py" ∷ []) ≡ ok ("src/a.py" ∷ [])
unfolding normalize_all
observed_test = refl

confirmed_iff_example :
    (w : PostWrite) × (reconcile_post_write planned after_write ≡ ok w)
    × ((w.verdict ≡ write_confirmed_expected_post_state) ↔ (
        (planned.decision ≡ "AUTHORIZED_DRY_RUN")
        × AllIn ("src/a.py" ∷ []) ("src/a.py" ∷ [])
        × IsExpected after_write))
confirmed_iff_example = confirmed_iff planned after_write ("src/a.py" ∷ []) observed_test
