-- ===== src/Failures/Examples.antt =====
-- Runs of ues/failures.py.
use universal_execution_syst.Prelude.{
  ◌≤◌, String, ◌≡◌, refl, ◌↔◌, true, false, none, some, List, [], ◌∷◌, one_of, if◌then◌else◌, leb,
}
use universal_execution_syst.Failures.{
  FailureSignals, classify_as, scope_blocker, classify_provider_failure, RootedFailure, rooted_in,
}
use universal_execution_syst.Failures.Collapse.{collapse_failure_cascade, count}
use universal_execution_syst.Failures.Cascade.{incidents, collapse_iff}

abbrev signals : FailureSignals
signals = record {
  origin = some "candidate";
  stage = some "lint";
  base_reproduces = none;
  retry_count = 0;
  transient = none;
  stale_candidate = false;
  flaky = false;
  security = false;
  billing = false;
  upstream = false;
}

lint_test : (classify_as signals "candidate" "lint").category ≡ "CANDIDATE_CODE_DEFECT"
unfolding classify_as
lint_test = refl

lint_scope_test : (scope_blocker "CANDIDATE_CODE_DEFECT" "w").blocks ≡ "w" ∷ []
unfolding scope_blocker
lint_scope_test = refl

rate_limit_test :
    (classify_provider_failure (record {
      status_code = some 429;
      network_error = false;
      protocol_error = false;
      write_outcome_unknown = true;
      retry_after = none;
    })).retry_class
    ≡ "AUTHORITATIVE_POST_READ_REQUIRED"
unfolding classify_provider_failure
rate_limit_test = refl

abbrev rooted : String → String → RootedFailure
rooted root lane = record {
  root_evidence_id = some root;
  shared_root_id = none;
  incident_id = none;
  lane_id = some lane;
  project = none;
  route = none;
  workstream = none;
  workstream_id = none;
}

abbrev reported : List RootedFailure
reported = rooted "db" "l1" ∷ rooted "net" "l2" ∷ rooted " db" "l3" ∷ []

cascade_test : incidents (collapse_failure_cascade reported) ≡ "db" ∷ []
unfolding collapse_failure_cascade
cascade_test = refl

collapse_iff_example :
    ((one_of "db" (incidents (collapse_failure_cascade reported)) ≡ true)
      ↔ (2 ≤ count "db" reported))
    × (rooted_in "db" (collapse_failure_cascade reported).unshared_failures
        ≡ (if leb 2 (count "db" reported) then [] else rooted_in "db" reported))
collapse_iff_example = collapse_iff reported "db"
