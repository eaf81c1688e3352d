-- ===== src/Generation.antt =====
-- ues/generation_transition.py: whether the first or the next physical generation of a logical lineage may
-- be created. A flag of the policy is its truth value; a generation's number is not negative.
mod Allowed
mod Examples
use universal_execution_syst.Prelude.{
  ℕ, suc, String, Bool, true, false, not, ◌&&◌, ◌||◌, Option, none, some, List, [], ◌∷◌, ◌++◌,
  if◌then◌else◌, ◌==◌, one_of, or_else, text_or, nat_eq,
}
use universal_execution_syst.Prelude.Lists.{is_empty}
use universal_execution_syst.Prelude.Texts.{strip, is_blank}
use universal_execution_syst.Json.{Json, Fields, text, number, object, end, field}
use universal_execution_syst.Runtime.{Runtime}
use universal_execution_syst.Idempotency.Key.{canonical_request_digest}

abbrev pub valid_replacement_causes : List String
valid_replacement_causes =
    "TERMINAL_WITH_REMAINING_WORK" ∷ "CONTINUATION_UNSUPPORTED" ∷ "CONTEXT_EXHAUSTED"
    ∷ "SESSION_CORRUPTED" ∷ "IRRECOVERABLY_INVALID_BINDING" ∷ "REPEATED_PROVEN_INEFFECTIVENESS"
    ∷ "FINAL_ASSURANCE_AUTHORIZED" ∷ "STALE_REVIEW_REQUIRES_CURRENT_SHA_REREVIEW"
    ∷ "STRUCTURED_HANDOFF_RECOVERY_REQUIRED" ∷ "OTHER_GOVERNED_REPLACEMENT_CAUSE" ∷ []

abbrev pub supported_generation_roles : List String
supported_generation_roles = "WRITER" ∷ "REVIEWER" ∷ "ASSURANCE" ∷ "FINAL_ASSURANCE" ∷ []

-- The causes that need no remaining work, and the roles that may recover a handoff.
abbrev pub causes_without_work : List String
causes_without_work =
    "FINAL_ASSURANCE_AUTHORIZED" ∷ "STRUCTURED_HANDOFF_RECOVERY_REQUIRED"
    ∷ "STALE_REVIEW_REQUIRES_CURRENT_SHA_REREVIEW" ∷ []

abbrev pub review_roles : List String
review_roles = "REVIEWER" ∷ "ASSURANCE" ∷ "FINAL_ASSURANCE" ∷ []

abbrev pub handoff_recovery : String
handoff_recovery = "STRUCTURED_HANDOFF_RECOVERY_REQUIRED"

-- The logical lineage, as the caller names it.
pub record Lineage : Type 0 where
  pub project : String
  pub route : String
  pub workstream : String
  pub role : String
  pub current_generation : ℕ
  pub predecessor_session_fingerprint : Option String
  pub candidate_sha : Option String

pub record CurrentPolicy : Type 0 where
  pub necessary_generation_authorized : Bool
  pub generation_effect_authorized : Bool
  pub generation_budget_safe : Bool
  pub hard_ceiling_reached : Bool

-- What was observed before the creation.
pub record Observations : Type 0 where
  pub active_duplicate_absent : Bool
  pub unknown_write_state : Bool
  pub exact_repository_binding : Bool
  pub exact_starting_ref_binding : Bool

pub data GenerationFailure : Type 0 where
  role_not_supported replacement_cause_not_governed no_remaining_work : GenerationFailure
  handoff_recovery_requires_review_role initial_lineage_already_exists : GenerationFailure
  current_project_authority_required generation_effect_not_authorized : GenerationFailure
  task_budget_not_proven_available direct_hard_ceiling_reached : GenerationFailure
  unknown_write_reconciliation_required effect_in_flight_reconciliation_required : GenerationFailure
  active_duplicate_check_required exact_repository_binding_required : GenerationFailure
  exact_starting_ref_binding_required initial_task_spec_required : GenerationFailure
  exact_replacement_task_spec_required : GenerationFailure

-- `if test: failures.append(failure)`
abbrev pub fails_if : Bool → GenerationFailure → List GenerationFailure
fails_if test failure = if test then failure ∷ [] else []

pub record GenerationAssessment : Type 0 where
  pub allowed : Bool
  pub failures : List GenerationFailure
  pub transition_key : Option String
  pub current_generation : ℕ
  pub next_generation : ℕ
  pub minimum_generation_count : ℕ
  pub safe_to_blind_retry : Bool

-- The tests that both assessments make of the policy.
unfoldable pub policy_failures : CurrentPolicy → List GenerationFailure
policy_failures p =
    fails_if (not p.necessary_generation_authorized) current_project_authority_required
    ++ (fails_if (not p.generation_effect_authorized) generation_effect_not_authorized
        ++ (fails_if (not p.generation_budget_safe) task_budget_not_proven_available
            ++ fails_if p.hard_ceiling_reached direct_hard_ceiling_reached))

-- The tests that both make of the duplicates and the bindings.
unfoldable pub binding_failures : Observations → List GenerationFailure
binding_failures o =
    fails_if (not o.active_duplicate_absent) active_duplicate_check_required
    ++ (fails_if (not o.exact_repository_binding) exact_repository_binding_required
        ++ fails_if (not o.exact_starting_ref_binding) exact_starting_ref_binding_required)

abbrev pub count_if : Bool → ℕ
count_if allowed = if allowed then 1 else 0

module _ (rt : Runtime) where
  abbrev pub role_name : String → String
  role_name role = rt.upper (strip role)

  -- `str(candidate_sha or "").strip().lower() or "NONE"`
  abbrev pub candidate_text : Option String → String
  candidate_text sha = text_or (some (rt.lower (strip (or_else sha "")))) "NONE"

  -- The payload is written with its keys sorted.
  unfoldable pub generation_transition_key : Lineage → String → String
  unfolding canonical_request_digest strip
  generation_transition_key l replacement_cause = canonical_request_digest rt (
      object (
        field "project" (text (strip l.project)) (
          field "route" (text (strip l.route)) (
            field "workstream" (text (strip l.workstream)) (
              field "role" (text (role_name l.role)) (
                field "current_generation" (number false l.current_generation) (
                  field "predecessor_session_fingerprint"
                    (text (text_or l.predecessor_session_fingerprint "NONE"))
                    (field "candidate_sha" (text (candidate_text l.candidate_sha)) (
                      field "replacement_cause" (text (rt.upper (strip replacement_cause)))
                        end)))))))))

  unfoldable pub initial_lineage_transition_key : Lineage → Fields → String
  unfolding canonical_request_digest strip
  initial_lineage_transition_key l initial_task_spec = canonical_request_digest rt (
      object (
        field "project" (text (strip l.project)) (
          field "route" (text (strip l.route)) (
            field "workstream" (text (strip l.workstream)) (
              field "role" (text (role_name l.role)) (
                field "creation_kind" (text "INITIAL_LOGICAL_LINEAGE") (
                  field "current_generation" (number false 0) (
                    field "predecessor_session_fingerprint" (text "NONE") (
                      field "candidate_sha" (text (candidate_text l.candidate_sha)) (
                        field "initial_task_spec_digest"
                          (text (canonical_request_digest rt (object initial_task_spec)))
                          end))))))))))

  abbrev pub has_fields : Fields → Bool
  has_fields end = false
  has_fields (field k v fs) = true

  unfoldable pub initial_failures :
      Lineage → CurrentPolicy → Observations → Bool → Fields → List GenerationFailure
  unfolding policy_failures binding_failures is_blank strip
  initial_failures l p o effect_in_flight task_spec =
      fails_if (not (one_of (role_name l.role) supported_generation_roles)) role_not_supported
      ++ (fails_if
            (not (nat_eq l.current_generation 0)
              || not (is_blank (or_else l.predecessor_session_fingerprint "")))
            initial_lineage_already_exists
          ++ (policy_failures p
              ++ (fails_if o.unknown_write_state unknown_write_reconciliation_required
                  ++ (fails_if effect_in_flight effect_in_flight_reconciliation_required
                      ++ (binding_failures o
                          ++ fails_if (not (has_fields task_spec)) initial_task_spec_required)))))

  unfoldable pub assess_initial_lineage_creation :
      Lineage → CurrentPolicy → Observations → Bool → Option Fields → GenerationAssessment
  unfolding initial_failures initial_lineage_transition_key
  assess_initial_lineage_creation l p o effect_in_flight initial_task_spec =
      let task_spec = or_else initial_task_spec end in
      let failures = initial_failures l p o effect_in_flight task_spec in
      record {
        allowed = is_empty failures;
        failures = failures;
        transition_key =
            if has_fields task_spec
            then some
                (initial_lineage_transition_key (record l { role = role_name l.role }) task_spec)
            else none;
        current_generation = 0;
        next_generation = 1;
        minimum_generation_count = count_if (is_empty failures);
        safe_to_blind_retry = false;
      }

  unfoldable pub transition_failures :
      Lineage → String → Bool → CurrentPolicy → Observations → Bool → List GenerationFailure
  unfolding policy_failures binding_failures strip
  transition_failures l replacement_cause work_remaining p o spec_ready =
      let role = role_name l.role in
      let cause = rt.upper (strip replacement_cause) in
      fails_if (not (one_of role supported_generation_roles)) role_not_supported
      ++ (fails_if (not (one_of cause valid_replacement_causes)) replacement_cause_not_governed
          ++ (fails_if (not work_remaining && not (one_of cause causes_without_work))
                no_remaining_work
              ++ (fails_if (cause == handoff_recovery && not (one_of role review_roles))
                    handoff_recovery_requires_review_role
                  ++ (policy_failures p
                      ++ (fails_if o.unknown_write_state unknown_write_reconciliation_required
                          ++ (binding_failures o
                              ++ fails_if (not spec_ready)
                                  exact_replacement_task_spec_required))))))

  unfoldable pub assess_generation_transition :
      Lineage → String → Bool → CurrentPolicy → Observations → Bool → GenerationAssessment
  unfolding transition_failures generation_transition_key strip
  assess_generation_transition l replacement_cause work_remaining p o spec_ready =
      let failures = transition_failures l replacement_cause work_remaining p o spec_ready in
      record {
        allowed = is_empty failures;
        failures = failures;
        transition_key = some (
            generation_transition_key (record l { role = role_name l.role })
              (rt.upper (strip replacement_cause)));
        current_generation = l.current_generation;
        next_generation = suc l.current_generation;
        minimum_generation_count = count_if (is_empty failures);
        safe_to_blind_retry = false;
      }
