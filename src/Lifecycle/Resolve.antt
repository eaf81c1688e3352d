-- ===== src/Lifecycle/Resolve.antt =====
-- ues/lifecycle.py: `ensure_lifecycle_resolution` and `resolve_next_action`. The ladder of tests on
-- the state is one function per state.
use Prim.Native.String.{◌++◌}
use universal_execution_syst.Prelude.{
  String, Bool, false, ◌||◌, Option, none, some, List, [], ◌∷◌, or_else, ◌==◌, if◌then◌else◌,
}
use universal_execution_syst.Prelude.Results.{Result, ok, raise, forgotten_lane_error}
use universal_execution_syst.Lifecycle.States.{
  LifecycleState, LifecycleContext, LifecycleResolution, NextAction, StopGate, ActionCapability,
  ReviewOutcome, CiOutcome, WaitingClass, FailureClass, writer_active, candidate_published,
  ci_running, ci_classified, reviewer_active, review_result, correction_required,
  same_writer_continuation, new_sha, prior_review_stale, re_review, parent_review_pending,
  awaiting_user_feedback, failed, paused, value, findings, failure, policy_resolvable,
  environment_mismatch, ci_dependent, review_dependent, tool_limit, scope_or_new_task_required,
  owner_decision_required, recoverable, session_continuation_unavailable, candidate_defect,
  parent_required, owner_required, publish_candidate, run_exact_head_ci, classify_ci,
  start_exact_sha_review, capture_review_result, route_findings_to_same_writer,
  continue_same_writer, verify_candidate_sha, invalidate_prior_review, start_re_review,
  request_parent_review, continue_same_session, reconcile_ci_evidence, reconcile_review_evidence,
  recover_same_lineage, resume_paused_lane, parent_authority_required, parent_required_new_task,
  owner_authority_required, unclassified_waiting, unclassified_failure, pause_requires_authority,
  ci_failure_classification_required, incomplete_binding, invalid_binding, forgotten_lane,
  action_capability, coerce, review_outcome_of, ci_outcome_of, waiting_class_of, failure_class_of,
}

abbrev one_of_texts : String → List String → Bool
one_of_texts s [] = false
one_of_texts s (t ∷ ts) = t == s || one_of_texts s ts

-- `tuple(dict.fromkeys(…))`: the first occurrence of each, in order.
abbrev dedupe : List String → List String → List String
dedupe seen [] = []
dedupe seen (x ∷ xs) =
    let kept = dedupe (x ∷ seen) xs in if one_of_texts x seen then dedupe seen xs else x ∷ kept

unfoldable pub ensure_lifecycle_resolution :
    LifecycleState
    → Option LifecycleState
    → Option NextAction
    → Option StopGate
    → String
    → Option ActionCapability
    → List String
    → Result LifecycleResolution
ensure_lifecycle_resolution state next_state none none reason required_capability evidence =
    raise forgotten_lane_error
ensure_lifecycle_resolution state next_state action stop_gate reason required_capability evidence =
    ok (record {
      current_state = state;
      next_state = or_else next_state state;
      action = action;
      stop_gate = stop_gate;
      reason = reason;
      required_capability = or_else required_capability (action_capability action);
      required_evidence = dedupe [] evidence;
    })

unfoldable pub stop : LifecycleState → StopGate → String → Result LifecycleResolution
stop state gate reason = ensure_lifecycle_resolution state none none (some gate) reason none []

unfoldable pub transition :
    LifecycleContext
    → LifecycleState
    → NextAction
    → String
    → List String
    → Result LifecycleResolution
transition context target action reason required_evidence =
    ensure_lifecycle_resolution context.state (some target) (some action) none reason
      (some (action_capability (some action))) required_evidence

-- The table `simple`.
abbrev pub simple : LifecycleState → Option (LifecycleState × NextAction)
simple writer_active = some (candidate_published, publish_candidate)
simple candidate_published = some (ci_running, run_exact_head_ci)
simple ci_running = some (ci_classified, classify_ci)
simple reviewer_active = some (review_result, capture_review_result)
simple correction_required = some (same_writer_continuation, continue_same_writer)
simple same_writer_continuation = some (new_sha, verify_candidate_sha)
simple new_sha = some (prior_review_stale, invalidate_prior_review)
simple prior_review_stale = some (ci_running, run_exact_head_ci)
simple re_review = some (reviewer_active, start_re_review)
simple _ = none

-- The block for CI_CLASSIFIED, at the two coerced values.
unfoldable pub ci_passed : LifecycleContext → Result LifecycleResolution
ci_passed c =
    transition c (if c.review_stale then re_review else reviewer_active)
      (if c.review_stale then start_re_review else start_exact_sha_review)
      "passing exact-head CI semantically requires exact-SHA review" ("exact_head_ci_evidence" ∷ [])

unfoldable pub resolve_ci_classified :
    LifecycleContext → Option CiOutcome → Option FailureClass → Result LifecycleResolution
resolve_ci_classified c (some CiOutcome.pass) failed_as = ci_passed c
resolve_ci_classified c (some failure) (some candidate_defect) =
    transition c correction_required continue_same_writer
      "candidate defect semantically returns to same writer" ("classified_ci_failure" ∷ [])
resolve_ci_classified c (some failure) (some recoverable) =
    transition c ci_running run_exact_head_ci
      "recoverable CI failure stays in same semantic lineage" ("classified_ci_failure" ∷ [])
resolve_ci_classified c (some failure) (some owner_required) =
    stop c.state owner_authority_required "CI failure requires Owner authority"
resolve_ci_classified c (some failure) (some parent_required) =
    stop c.state parent_authority_required "CI failure exceeds Domain A authority"
resolve_ci_classified c (some failure) (some session_continuation_unavailable) =
    stop c.state parent_authority_required "CI failure exceeds Domain A authority"
resolve_ci_classified c outcome failed_as =
    stop c.state ci_failure_classification_required
      "CI outcome/failure class is incomplete or unknown"

unfoldable pub resolve_review_result :
    LifecycleContext → Option ReviewOutcome → Result LifecycleResolution
resolve_review_result c (some ReviewOutcome.pass) =
    transition c parent_review_pending request_parent_review
      "PASS is not acceptance; Parent review remains a control signal"
      ("exact_sha_review_evidence" ∷ [])
resolve_review_result c (some findings) =
    transition c correction_required route_findings_to_same_writer
      "findings semantically route to same writer lineage" ("exact_sha_review_evidence" ∷ [])
resolve_review_result c none = stop c.state invalid_binding "review result must be PASS or FINDINGS"

-- A waiting class that the session itself can answer: the class's value opens the reason.
unfoldable pub continue_waiting :
    LifecycleContext → String → Option LifecycleState → Result LifecycleResolution
continue_waiting c waiting none =
    stop c.state incomplete_binding "waiting transition requires a proven semantic resume state"
continue_waiting c waiting (some resume) =
    transition c resume continue_same_session
      (waiting ++ " has a same-session semantic continuation candidate")
      ("current_provider_state" ∷ "latest_relevant_activity" ∷ [])

unfoldable pub resolve_waiting : LifecycleContext → Option WaitingClass → Result LifecycleResolution
resolve_waiting c (some policy_resolvable) = continue_waiting c "POLICY_RESOLVABLE" c.resume_state
resolve_waiting c (some environment_mismatch) =
    continue_waiting c "ENVIRONMENT_MISMATCH" c.resume_state
resolve_waiting c (some tool_limit) = continue_waiting c "TOOL_LIMIT" c.resume_state
resolve_waiting c (some ci_dependent) =
    transition c ci_classified reconcile_ci_evidence
      "CI-dependent waiting resolves from exact CI evidence" ("exact_head_ci_evidence" ∷ [])
resolve_waiting c (some review_dependent) =
    transition c review_result reconcile_review_evidence
      "review-dependent waiting resolves from exact review evidence"
      ("exact_sha_review_evidence" ∷ [])
resolve_waiting c (some WaitingClass.shared_contract_required) =
    stop c.state StopGate.shared_contract_required "shared contract needs integration authority"
resolve_waiting c (some scope_or_new_task_required) =
    stop c.state parent_required_new_task "new scope/task needs Parent budget authority"
resolve_waiting c (some owner_decision_required) =
    stop c.state owner_authority_required "Owner decision required"
resolve_waiting c waiting = stop c.state unclassified_waiting "unclassified waiting fails closed"

unfoldable pub recover : LifecycleContext → Option LifecycleState → Result LifecycleResolution
recover c (some resume) =
    transition c resume recover_same_lineage
      "recoverable failure has same-lineage semantic recovery candidate" ("classified_failure" ∷ [])
recover c none =
    stop c.state incomplete_binding "recoverable failure needs a proven semantic resume state"

unfoldable pub resolve_failed : LifecycleContext → Option FailureClass → Result LifecycleResolution
resolve_failed c (some recoverable) = recover c c.resume_state
resolve_failed c (some candidate_defect) =
    transition c correction_required continue_same_writer
      "candidate defect semantically returns to same writer" ("classified_failure" ∷ [])
resolve_failed c (some session_continuation_unavailable) =
    stop c.state parent_required_new_task
      "terminal session may recommend but cannot spend task budget"
resolve_failed c (some parent_required) =
    stop c.state parent_authority_required "Parent authority required"
resolve_failed c (some owner_required) =
    stop c.state owner_authority_required "Owner authority required"
resolve_failed c failed_as =
    stop c.state unclassified_failure "failed state must be classified before action"

unfoldable pub resolve_paused :
    LifecycleContext → Option LifecycleState → Result LifecycleResolution
resolve_paused c (some resume) =
    transition c resume resume_paused_lane "paused lane has explicit semantic resume candidate"
      ("current_provider_state" ∷ [])
resolve_paused c none =
    stop c.state pause_requires_authority "pause without proven resume state fails closed"

-- The tests on the state below the table `simple`; the last clause is FORGOTTEN's.
unfoldable pub resolve_special : LifecycleState → LifecycleContext → Result LifecycleResolution
resolve_special ci_classified c =
    resolve_ci_classified c (coerce ci_outcome_of c.ci_outcome)
      (coerce failure_class_of c.failure_class)
resolve_special review_result c =
    resolve_review_result c (coerce review_outcome_of c.review_outcome)
resolve_special parent_review_pending c =
    stop c.state parent_authority_required "Parent adjudication is outside Domain A"
resolve_special awaiting_user_feedback c =
    resolve_waiting c (coerce waiting_class_of c.waiting_class)
resolve_special failed c = resolve_failed c (coerce failure_class_of c.failure_class)
resolve_special paused c = resolve_paused c c.resume_state
resolve_special _ c = stop c.state forgotten_lane "forgotten or unknown lifecycle state is invalid"

unfoldable pub follow :
    Option (LifecycleState × NextAction) → LifecycleContext → Result LifecycleResolution
follow (some (target, action)) c =
    transition c target action
      (value c.state ++ (" has deterministic semantic transition to " ++ value target)) []
follow none c = resolve_special c.state c

unfoldable pub resolve_next_action : LifecycleContext → Result LifecycleResolution
resolve_next_action context = follow (simple context.state) context
