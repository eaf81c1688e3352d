-- ===== src/Lifecycle/States.antt =====
-- ues/lifecycle.py: the enumerations, the context and the resolution.
use universal_execution_syst.Prelude.{
  String, Bool, true, false, not, ◌&&◌, Option, none, some, List, is_some, ◌==◌, if◌then◌else◌,
}

pub data LifecycleState : Type 0 where
  writer_active candidate_published ci_running ci_classified : LifecycleState
  reviewer_active review_result correction_required same_writer_continuation : LifecycleState
  new_sha prior_review_stale re_review parent_review_pending : LifecycleState
  awaiting_user_feedback failed paused forgotten : LifecycleState

abbrev pub value : LifecycleState → String
value writer_active = "WRITER_ACTIVE"
value candidate_published = "CANDIDATE_PUBLISHED"
value ci_running = "CI_RUNNING"
value ci_classified = "CI_CLASSIFIED"
value reviewer_active = "REVIEWER_ACTIVE"
value review_result = "REVIEW_RESULT"
value correction_required = "CORRECTION_REQUIRED"
value same_writer_continuation = "SAME_WRITER_CONTINUATION"
value new_sha = "NEW_SHA"
value prior_review_stale = "PRIOR_REVIEW_STALE"
value re_review = "RE_REVIEW"
value parent_review_pending = "PARENT_REVIEW_PENDING"
value awaiting_user_feedback = "AWAITING_USER_FEEDBACK"
value failed = "FAILED"
value paused = "PAUSED"
value forgotten = "FORGOTTEN"

pub data ReviewOutcome : Type 0 where
  pass findings : ReviewOutcome

pub data CiOutcome : Type 0 where
  pass failure : CiOutcome

pub data WaitingClass : Type 0 where
  policy_resolvable environment_mismatch ci_dependent review_dependent tool_limit : WaitingClass
  shared_contract_required scope_or_new_task_required owner_decision_required : WaitingClass
  unclassified : WaitingClass

pub data FailureClass : Type 0 where
  recoverable session_continuation_unavailable candidate_defect : FailureClass
  parent_required owner_required unclassified : FailureClass

pub data NextAction : Type 0 where
  publish_candidate run_exact_head_ci classify_ci start_exact_sha_review : NextAction
  capture_review_result route_findings_to_same_writer continue_same_writer : NextAction
  verify_candidate_sha invalidate_prior_review start_re_review request_parent_review : NextAction
  continue_same_session reconcile_ci_evidence reconcile_review_evidence : NextAction
  recover_same_lineage resume_paused_lane verify_action_in_flight : NextAction

pub data ActionCapability : Type 0 where
  read_only control_signal external_effect : ActionCapability

pub data AuthorizationDecision : Type 0 where
  authorized denied : AuthorizationDecision

pub data SourceBindingStatus : Type 0 where
  proven_explicit proposed_unverified ambiguous mismatch : SourceBindingStatus

pub data StopGate : Type 0 where
  parent_authority_required parent_required_new_task owner_authority_required : StopGate
  shared_contract_required unclassified_waiting unclassified_failure : StopGate
  pause_requires_authority ci_failure_classification_required : StopGate
  incomplete_binding invalid_binding forgotten_lane ambiguous_lane_binding : StopGate
  ambiguous_provider_session external_authorization_required : StopGate
  external_authorization_denied authorization_binding_mismatch : StopGate
  provider_source_binding_required ambiguous_provider_source_binding : StopGate
  provider_source_mismatch actor_binding_required ambiguous_actor_binding : StopGate
  evidence_incomplete binding_drift_reconciliation_required : StopGate

-- What a context's field may hold, before `_coerce`: `None`, a member, or a text.
pub data Given (E : Type 0) : Type 0 where
  absent : Given E
  member : E → Given E
  text : String → Given E

pub record LifecycleContext : Type 0 where
  pub state : LifecycleState
  pub review_outcome : Given ReviewOutcome
  pub ci_outcome : Given CiOutcome
  pub waiting_class : Given WaitingClass
  pub failure_class : Given FailureClass
  pub resume_state : Option LifecycleState
  pub review_stale : Bool
  pub authorization_decision : Option AuthorizationDecision
  pub authorized_action : Option NextAction
  pub source_binding_status : Option SourceBindingStatus

pub record LifecycleResolution : Type 0 where
  pub current_state : LifecycleState
  pub next_state : LifecycleState
  pub action : Option NextAction
  pub stop_gate : Option StopGate
  pub reason : String
  pub required_capability : ActionCapability
  pub required_evidence : List String

-- EXTERNAL_EFFECT_ACTIONS and CONTROL_SIGNAL_ACTIONS, as the test that the code makes of them.
abbrev pub in_external_effect_actions : NextAction → Bool
in_external_effect_actions publish_candidate = true
in_external_effect_actions run_exact_head_ci = true
in_external_effect_actions start_exact_sha_review = true
in_external_effect_actions route_findings_to_same_writer = true
in_external_effect_actions continue_same_writer = true
in_external_effect_actions start_re_review = true
in_external_effect_actions continue_same_session = true
in_external_effect_actions recover_same_lineage = true
in_external_effect_actions resume_paused_lane = true
in_external_effect_actions _ = false

abbrev pub in_control_signal_actions : NextAction → Bool
in_control_signal_actions request_parent_review = true
in_control_signal_actions _ = false

unfoldable pub action_capability : Option NextAction → ActionCapability
action_capability none = read_only
action_capability (some a) =
    if in_external_effect_actions a
    then external_effect
    else if in_control_signal_actions a
    then control_signal
    else read_only

abbrev pub is_external : ActionCapability → Bool
is_external external_effect = true
is_external _ = false

unfoldable pub action_requires_mutation : Option NextAction → Bool
unfolding action_capability
action_requires_mutation a = is_external (action_capability a)

unfoldable pub semantic_candidate : LifecycleResolution → Bool
semantic_candidate r = is_some r.action && not (is_some r.stop_gate)

unfoldable pub executable : LifecycleResolution → Bool
unfolding semantic_candidate
executable r = semantic_candidate r && not (is_external r.required_capability)

-- `_coerce`: a text that is no member's value is dropped.
abbrev pub coerce : {E : Type 0} → (String → Option E) → Given E → Option E
coerce of_value absent = none
coerce of_value (member e) = some e
coerce of_value (text s) = of_value s

unfoldable pub review_outcome_of : String → Option ReviewOutcome
review_outcome_of s =
    if s == "PASS" then some pass else if s == "FINDINGS" then some findings else none

unfoldable pub ci_outcome_of : String → Option CiOutcome
ci_outcome_of s = if s == "PASS" then some pass else if s == "FAILURE" then some failure else none

unfoldable pub waiting_class_of : String → Option WaitingClass
waiting_class_of s =
    if s == "POLICY_RESOLVABLE"
    then some policy_resolvable
    else if s == "ENVIRONMENT_MISMATCH"
    then some environment_mismatch
    else if s == "CI_DEPENDENT"
    then some ci_dependent
    else if s == "REVIEW_DEPENDENT"
    then some review_dependent
    else if s == "TOOL_LIMIT"
    then some tool_limit
    else if s == "SHARED_CONTRACT_REQUIRED"
    then some WaitingClass.shared_contract_required
    else if s == "SCOPE_OR_NEW_TASK_REQUIRED"
    then some scope_or_new_task_required
    else if s == "OWNER_DECISION_REQUIRED"
    then some owner_decision_required
    else if s == "UNCLASSIFIED"
    then some WaitingClass.unclassified
    else none

unfoldable pub failure_class_of : String → Option FailureClass
failure_class_of s =
    if s == "RECOVERABLE"
    then some recoverable
    else if s == "SESSION_CONTINUATION_UNAVAILABLE"
    then some session_continuation_unavailable
    else if s == "CANDIDATE_DEFECT"
    then some candidate_defect
    else if s == "PARENT_REQUIRED"
    then some parent_required
    else if s == "OWNER_REQUIRED"
    then some owner_required
    else if s == "UNCLASSIFIED"
    then some FailureClass.unclassified
    else none
