-- ===== src/RecoveryCatalog/Ladder.antt =====
-- ues/recovery_catalog.py: `plan_recovery`. Its branches are one function for each group of them, in
-- their order.
use Prim.Native.String.{◌++◌ as concat}
use universal_execution_syst.Prelude.{
  String, Bool, true, false, not, ◌&&◌, ◌||◌, Option, some, [], ◌∷◌, ◌++◌, if◌then◌else◌, ◌==◌,
  one_of, leb,
}
use universal_execution_syst.Runtime.{Runtime}
use universal_execution_syst.RecoveryCatalog.{
  ExternalIntent, Observation, RecoveryDecision, reconcile, gated, effect, missing_if, gate_of,
  Facts, facts, replacement_decision,
}

unfoldable pub recover_external_intent : ExternalIntent → RecoveryDecision
unfolding gated
recover_external_intent i =
    if i.provider_ack_proven
    then gated "RECONCILE_EXTERNAL_INTENT_ACK_TO_PROVIDER_SESSION_BINDING"
        "EXTERNAL_INTENT_ACK_WITHOUT_AUTHORITATIVE_SESSION_BINDING"
        (some "NO_BLIND_RETRY+AUTHORITATIVE_PROVIDER_SESSION_READBACK_REQUIRED")
    else if i.provider_observation_after_signal_complete
    then gated "RECONCILE_EXTERNAL_INTENT_NO_EFFECT"
        "EXTERNAL_INTENT_PERSISTED_NO_PROVIDER_SESSION_AFTER_AUTHORITATIVE_OBSERVATION"
        (some "NO_BLIND_RETRY+PARENT_OR_PROVIDER_ACK_RECONCILIATION_REQUIRED")
    else gated "WAIT_FOR_AUTHORITATIVE_PROVIDER_OBSERVATION_AFTER_EXTERNAL_INTENT"
        "EXTERNAL_INTENT_PERSISTED_PROVIDER_EFFECT_UNKNOWN"
        (some "NO_BLIND_RETRY+AUTHORITATIVE_PROVIDER_OBSERVATION_REQUIRED")

unfoldable pub recover_unbound : Facts → Bool → RecoveryDecision
unfolding effect gated gate_of
recover_unbound f proven =
    if f.work_remaining && proven && f.duplicate_absent && f.budget_safe && f.prompt_ready
    then effect "CREATE_OR_ADOPT_SAME_LOGICAL_LINEAGE_GENERATION"
        "SESSION_BINDING_MISSING_REPLACEMENT_PROVEN"
    else gated "RECONCILE_BINDING_OR_PREPARE_SAME_LINEAGE_REPLACEMENT" "SESSION_BINDING_MISSING" (
        gate_of (
          missing_if (proven && not f.duplicate_absent) "ACTIVE_DUPLICATE_CHECK_REQUIRED"
          ++ (missing_if (proven && not f.budget_safe) "TASK_BUDGET_OR_NEW_SESSION_AUTHORITY"
              ++ missing_if (proven && not f.prompt_ready) "EXACT_REPLACEMENT_TASK_SPEC")))

abbrev pub is_reviewer : String → Bool
is_reviewer role = one_of role ("REVIEWER" ∷ "ASSURANCE" ∷ [])

unfoldable pub recover_stale_review : Facts → RecoveryDecision
unfolding effect reconcile
recover_stale_review f =
    if is_reviewer f.role
      && f.state == "COMPLETED"
      && f.work_remaining
      && f.budget_safe
      && f.prompt_ready
      && f.duplicate_absent
    then effect "CREATE_NEXT_SESSION_GENERATION_SAME_LINEAGE"
        "STALE_REVIEW_REQUIRES_CURRENT_SHA_REREVIEW"
    else reconcile "INVALIDATE_STALE_REVIEW_AND_ROUTE_CURRENT_SHA" "REVIEW_SHA_STALE"

unfoldable pub recover_waiting : Observation → RecoveryDecision
unfolding effect reconcile
recover_waiting o =
    if o.waiting_has_newer_or_equal_user_response
    then reconcile "WAIT_FOR_AGENT_ON_SAME_SESSION"
        "WAITING_ALREADY_HAS_NEWER_OR_EQUAL_USER_RESPONSE"
    else if o.same_session_prompt_ready
    then effect "CONTINUE_SAME_SESSION" "WAITING_INPUT_CONTROLLER_RESOLVABLE"
    else reconcile "RESOLVE_WAITING_INPUT_CONTENT_OR_POLICY" "WAITING_INPUT_REQUIRES_RECONCILIATION"

-- The candidate's continuous integration, with the three root causes of its outcomes.
unfoldable pub recover_candidate : Facts → String → String → String → RecoveryDecision
unfolding reconcile
recover_candidate f missing passed otherwise =
    if f.ci_reason == "REQUIRED_CI_MISSING"
    then reconcile "DIAGNOSE_AND_REMEDIATE_CI_TRIGGER" missing
    else if f.ci_verdict == "PASS"
    then reconcile "ROUTE_CURRENT_SHA_TO_REVIEWER_LINEAGE" passed
    else reconcile "VALIDATE_EXACT_WRITER_CANDIDATE" otherwise

-- `a.lower() != b.lower()`, where both are given
abbrev pub differs : Runtime → String → String → Bool
differs rt a b = not (a == "") && not (b == "") && not (rt.lower a == rt.lower b)

unfoldable pub recover_writer : Runtime → Observation → Facts → RecoveryDecision
unfolding replacement_decision reconcile recover_candidate
recover_writer rt o f =
    if f.handoff_status == "CONTEXT_EXHAUSTED" && f.work_remaining
    then replacement_decision f "CONTEXT_EXHAUSTED_REPORTED"
    else if f.work_remaining && leb 2 o.consecutive_noop_writer_successors
    then (if not o.noop_evidence_authoritative
        then reconcile "RECONCILE_AUTHORITATIVE_WRITER_DELTA_EVIDENCE"
            "REPEATED_WRITER_NOOP_EVIDENCE_UNPROVEN"
        else replacement_decision f "REPEATED_WRITER_NOOP_SESSION_INEFFECTIVE")
    else if differs rt f.handoff_candidate_sha f.current_sha
    then recover_candidate f "STALE_WRITER_HANDOFF_CURRENT_SHA_CI_MISSING"
        "STALE_WRITER_HANDOFF_RECONCILED_TO_CURRENT_SHA"
        "STALE_WRITER_HANDOFF_REQUIRES_CURRENT_SHA_VALIDATION"
    else if not (f.candidate_sha == "")
    then recover_candidate f "CI_TRIGGER_OR_EVIDENCE_MISSING"
        "WRITER_COMPLETED_CANDIDATE_READY_FOR_REVIEW"
        "WRITER_COMPLETED_REQUIRES_EXACT_HEAD_EVIDENCE"
    else if f.work_remaining
    then replacement_decision f "WRITER_COMPLETED_MORE_WORK_REQUIRED"
    else reconcile "CLOSE_WRITER_LINEAGE" "WRITER_WORK_COMPLETE"

unfoldable pub recover_reviewer : Runtime → Facts → RecoveryDecision
unfolding effect reconcile
recover_reviewer rt f =
    if f.verdict == "PASS"
      && not (f.reviewed_sha == "")
      && (f.current_sha == "" || rt.lower f.reviewed_sha == rt.lower f.current_sha)
    then reconcile "MARK_CURRENT_SHA_REVIEW_PASS" "STRUCTURED_REVIEW_PASS_CURRENT_SHA"
    else if one_of f.verdict ("FINDINGS" ∷ "FAIL" ∷ [])
    then effect "ROUTE_STRUCTURED_FINDINGS_TO_WRITER_LINEAGE" "REVIEW_FINDINGS_REQUIRE_CORRECTION"
    else reconcile "PARENT_ADJUDICATE_UNSTRUCTURED_COMPLETED_REVIEW"
        "COMPLETED_REVIEW_OUTPUT_UNSTRUCTURED_OR_UNBOUND"

unfoldable pub unclassified : RecoveryDecision
unfolding reconcile
unclassified = reconcile "ROOT_CAUSE_RECONCILIATION_REQUIRED" "UNCLASSIFIED_LIFECYCLE_STATE"

unfoldable pub recover_completed : Runtime → Observation → Facts → RecoveryDecision
unfolding recover_writer recover_reviewer unclassified
recover_completed rt o f =
    if f.role == "WRITER"
    then recover_writer rt o f
    else if is_reviewer f.role
    then recover_reviewer rt f
    else unclassified

unfoldable pub recover_failed : Facts → RecoveryDecision
unfolding reconcile replacement_decision
recover_failed f =
    if not f.work_remaining
    then reconcile "CLOSE_FAILED_LINEAGE_NO_REPLACEMENT" "TERMINAL_FAILURE_NO_MORE_WORK_REQUIRED"
    else replacement_decision f "TERMINAL_FAILED_SESSION"

unfoldable pub recover_state : Runtime → Observation → Facts → RecoveryDecision
unfolding recover_waiting reconcile recover_completed recover_failed unclassified
recover_state rt o f =
    if f.state == "AWAITING_USER_FEEDBACK"
    then recover_waiting o
    else if f.state == "IN_PROGRESS"
    then reconcile "OBSERVE_SAME_SESSION_PROGRESS" "SESSION_ACTIVE"
    else if one_of f.state ("QUEUED" ∷ "PLANNING" ∷ [])
    then reconcile "WAIT_ACTIVE_SAME_SESSION" (concat "SESSION_" f.state)
    else if f.state == "AWAITING_PLAN_APPROVAL"
    then reconcile "APPROVE_PLAN_OR_PARENT_RECONCILE_SAME_SESSION" "PLAN_APPROVAL_REQUIRED"
    else if f.state == "PAUSED"
    then reconcile "RECONCILE_PAUSED_SAME_SESSION" "SESSION_PAUSED"
    else if f.state == "COMPLETED"
    then recover_completed rt o f
    else if f.state == "FAILED"
    then recover_failed f
    else unclassified

-- What is decided where neither the branch, the binding, a write nor an intent is in doubt.
unfoldable pub recover_settled : Runtime → Observation → Facts → RecoveryDecision
unfolding recover_unbound recover_stale_review recover_state
recover_settled rt o f =
    if f.binding == "UNBOUND"
    then recover_unbound f o.replacement_required_proven
    else if differs rt f.current_sha f.reviewed_sha
    then recover_stale_review f
    else recover_state rt o f

-- `observation.get("pr_branch_match") is False`
abbrev pub is_drifted : Option Bool → Bool
is_drifted (some false) = true
is_drifted _ = false

abbrev pub is_unresolved : ExternalIntent → Bool
is_unresolved i = i.signal_persisted && not i.provider_session_readback_proven

unfoldable pub plan_recovery : Runtime → Observation → RecoveryDecision
unfolding reconcile recover_external_intent recover_settled
plan_recovery rt o =
    let f = facts rt o in
    if is_drifted o.pr_branch_match
    then reconcile "RECONCILE_GITHUB_LINEAGE_BRANCH_DRIFT" "PR_HEAD_BRANCH_DRIFT"
    else if f.binding == "AMBIGUOUS"
    then reconcile "RECONCILE_EXACT_LINEAGE_BINDING" "MULTIPLE_EXACT_LINEAGE_SESSION_MATCHES"
    else if o.unknown_write_state
    then reconcile "AUTHORITATIVE_POST_WRITE_RECONCILIATION" "UNKNOWN_PROVIDER_WRITE"
    else if is_unresolved o.external_intent
    then recover_external_intent o.external_intent
    else recover_settled rt o f
