-- ===== src/Lifecycle/Graph.antt =====
-- The diagram of the lifecycle, drawn without the code: which action leads from which state to
-- which. A session that waits, has failed or is paused goes back to the state proven for it.
use universal_execution_syst.Lifecycle.States.{
  LifecycleState, NextAction, writer_active, candidate_published, ci_running, ci_classified,
  reviewer_active, review_result, correction_required, same_writer_continuation, new_sha,
  prior_review_stale, re_review, parent_review_pending, awaiting_user_feedback, failed, paused,
  publish_candidate, run_exact_head_ci, classify_ci, start_exact_sha_review, capture_review_result,
  route_findings_to_same_writer, continue_same_writer, verify_candidate_sha,
  invalidate_prior_review, start_re_review, request_parent_review, continue_same_session,
  reconcile_ci_evidence, reconcile_review_evidence, recover_same_lineage, resume_paused_lane,
}

pub data Edge : LifecycleState → NextAction → LifecycleState → Type 0 where
  publish : Edge writer_active publish_candidate candidate_published
  start_ci : Edge candidate_published run_exact_head_ci ci_running
  classify : Edge ci_running classify_ci ci_classified
  capture : Edge reviewer_active capture_review_result review_result
  continue : Edge correction_required continue_same_writer same_writer_continuation
  verify : Edge same_writer_continuation verify_candidate_sha new_sha
  invalidate : Edge new_sha invalidate_prior_review prior_review_stale
  restart_ci : Edge prior_review_stale run_exact_head_ci ci_running
  start_again : Edge re_review start_re_review reviewer_active
  first_review : Edge ci_classified start_exact_sha_review reviewer_active
  second_review : Edge ci_classified start_re_review re_review
  correct_ci : Edge ci_classified continue_same_writer correction_required
  rerun_ci : Edge ci_classified run_exact_head_ci ci_running
  ask_parent : Edge review_result request_parent_review parent_review_pending
  route : Edge review_result route_findings_to_same_writer correction_required
  answer : (t : LifecycleState) → Edge awaiting_user_feedback continue_same_session t
  ci_evidence : Edge awaiting_user_feedback reconcile_ci_evidence ci_classified
  review_evidence : Edge awaiting_user_feedback reconcile_review_evidence review_result
  recover : (t : LifecycleState) → Edge failed recover_same_lineage t
  correct : Edge failed continue_same_writer correction_required
  resume : (t : LifecycleState) → Edge paused resume_paused_lane t
