-- ===== src/Lifecycle/Named.antt =====
-- ues/lifecycle.py: which member of an enumeration a context's field names, by the members' values.
use universal_execution_syst.Prelude.{
  ◌≡◌, refl, sym, ap, ◌∙◌, ◌↔◌, String, Option, none, some, if◌then◌else◌, ◌==◌, eq_iff, Bool-cases,
  inl, inr, Option-cases,
}
use universal_execution_syst.Lifecycle.States.{
  ReviewOutcome, CiOutcome, WaitingClass, FailureClass, Given, absent, member, text, coerce,
  review_outcome_of, ci_outcome_of, waiting_class_of, failure_class_of,
}

abbrev pub review_value : ReviewOutcome → String
review_value ReviewOutcome.pass = "PASS"
review_value ReviewOutcome.findings = "FINDINGS"

abbrev pub ci_value : CiOutcome → String
ci_value CiOutcome.pass = "PASS"
ci_value CiOutcome.failure = "FAILURE"

abbrev pub waiting_value : WaitingClass → String
waiting_value WaitingClass.policy_resolvable = "POLICY_RESOLVABLE"
waiting_value WaitingClass.environment_mismatch = "ENVIRONMENT_MISMATCH"
waiting_value WaitingClass.ci_dependent = "CI_DEPENDENT"
waiting_value WaitingClass.review_dependent = "REVIEW_DEPENDENT"
waiting_value WaitingClass.tool_limit = "TOOL_LIMIT"
waiting_value WaitingClass.shared_contract_required = "SHARED_CONTRACT_REQUIRED"
waiting_value WaitingClass.scope_or_new_task_required = "SCOPE_OR_NEW_TASK_REQUIRED"
waiting_value WaitingClass.owner_decision_required = "OWNER_DECISION_REQUIRED"
waiting_value WaitingClass.unclassified = "UNCLASSIFIED"

abbrev pub failure_value : FailureClass → String
failure_value FailureClass.recoverable = "RECOVERABLE"
failure_value FailureClass.session_continuation_unavailable = "SESSION_CONTINUATION_UNAVAILABLE"
failure_value FailureClass.candidate_defect = "CANDIDATE_DEFECT"
failure_value FailureClass.parent_required = "PARENT_REQUIRED"
failure_value FailureClass.owner_required = "OWNER_REQUIRED"
failure_value FailureClass.unclassified = "UNCLASSIFIED"

-- The field holds the member, or its value as a text.
pub Names : {E : Type 0} → (E → String) → Given E → E → Type 0
Names value absent e = ⊥
Names value (member d) e = d ≡ e
Names value (text s) e = s ≡ value e

-- `of_value` reads a text as the member whose value it is, and no other text.
pub Reads : {E : Type 0} → (E → String) → (String → Option E) → Type 0
Reads {E} value of_value = (s : String) (e : E) → (of_value s ≡ some e) ↔ (s ≡ value e)

-- One test of the ladder that looks a value up.
one_value :
    {E : Type 0} (value : E → String) (s : String) (d : E) {rest : Option E}
    → ((e : E) → rest ≡ some e → s ≡ value e)
    → (e : E) → (if s == value d then some d else rest) ≡ some e
    → s ≡ value e
one_value {E = E} value s d others e h = elim (Bool-cases (s == value d)) [
  | inl same ↦ (eq_iff s (value d)).0 same ∙ ap value (some_injective (rw same at h))
  | inr other ↦ others e (rw other at h)
]
  where
    some_injective : {a b : E} → some a ≡ some b → a ≡ b
    some_injective h = cc

no_value : {E : Type 0} (value : E → String) (s : String) (e : E) → none ≡ some e → s ≡ value e
no_value value s e h = cc

pub review-Reads : Reads review_value review_outcome_of
unfolding Reads review_outcome_of
review-Reads s e = (
  one_value review_value s ReviewOutcome.pass
      (one_value review_value s ReviewOutcome.findings (no_value review_value s)) e,
  λ h. rw h (back e),
)
  where
    back : (e : ReviewOutcome) → review_outcome_of (review_value e) ≡ some e
    back ReviewOutcome.pass = refl
    back ReviewOutcome.findings = refl

pub ci-Reads : Reads ci_value ci_outcome_of
unfolding Reads ci_outcome_of
ci-Reads s e = (
  one_value ci_value s CiOutcome.pass (one_value ci_value s CiOutcome.failure (no_value ci_value s))
      e,
  λ h. rw h (back e),
)
  where
    back : (e : CiOutcome) → ci_outcome_of (ci_value e) ≡ some e
    back CiOutcome.pass = refl
    back CiOutcome.failure = refl

pub waiting-Reads : Reads waiting_value waiting_class_of
unfolding Reads waiting_class_of
waiting-Reads s e = (
  reading WaitingClass.policy_resolvable
      (reading WaitingClass.environment_mismatch (
        reading WaitingClass.ci_dependent (
          reading WaitingClass.review_dependent (
            reading WaitingClass.tool_limit (
              reading WaitingClass.shared_contract_required (
                reading WaitingClass.scope_or_new_task_required (
                  reading WaitingClass.owner_decision_required
                    (reading WaitingClass.unclassified (no_value waiting_value s)))))))))
      e,
  λ h. rw h (back e),
)
  where
    reading :
        (d : WaitingClass) {rest : Option WaitingClass}
        → ((e : WaitingClass) → rest ≡ some e → s ≡ waiting_value e)
        → (e : WaitingClass) → (if s == waiting_value d then some d else rest) ≡ some e
        → s ≡ waiting_value e
    reading = one_value waiting_value s

    back : (e : WaitingClass) → waiting_class_of (waiting_value e) ≡ some e
    back WaitingClass.policy_resolvable = refl
    back WaitingClass.environment_mismatch = refl
    back WaitingClass.ci_dependent = refl
    back WaitingClass.review_dependent = refl
    back WaitingClass.tool_limit = refl
    back WaitingClass.shared_contract_required = refl
    back WaitingClass.scope_or_new_task_required = refl
    back WaitingClass.owner_decision_required = refl
    back WaitingClass.unclassified = refl

pub failure-Reads : Reads failure_value failure_class_of
unfolding Reads failure_class_of
failure-Reads s e = (
  reading FailureClass.recoverable
      (reading FailureClass.session_continuation_unavailable (
        reading FailureClass.candidate_defect (
          reading FailureClass.parent_required (
            reading FailureClass.owner_required
              (reading FailureClass.unclassified (no_value failure_value s))))))
      e,
  λ h. rw h (back e),
)
  where
    reading :
        (d : FailureClass) {rest : Option FailureClass}
        → ((e : FailureClass) → rest ≡ some e → s ≡ failure_value e)
        → (e : FailureClass) → (if s == failure_value d then some d else rest) ≡ some e
        → s ≡ failure_value e
    reading = one_value failure_value s

    back : (e : FailureClass) → failure_class_of (failure_value e) ≡ some e
    back FailureClass.recoverable = refl
    back FailureClass.session_continuation_unavailable = refl
    back FailureClass.candidate_defect = refl
    back FailureClass.parent_required = refl
    back FailureClass.owner_required = refl
    back FailureClass.unclassified = refl

module _ {E : Type 0} (value : E → String) (of_value : String → Option E)
    (reads : Reads value of_value) where
  pub coerce_iff : (g : Given E) (e : E) → (coerce of_value g ≡ some e) ↔ Names value g e
  unfolding Reads Names
  coerce_iff absent e = (λ h. cc, λ h. absurd h)
  coerce_iff (member d) e = (λ h. cc, λ h. ap some h)
  coerce_iff (text s) e = reads s e

  -- Nothing is read where the field names no member.
  pub coerce-none : (g : Given E) → (coerce of_value g ≡ none) ↔ ((e : E) → Names value g e → ⊥)
  coerce-none g = (
    λ h e named. none_some (sym h ∙ (coerce_iff g e).1 named),
    λ h. elim (Option-cases (coerce of_value g)) [
      | inl e ↦ e
      | inr (e, read) ↦ absurd (h e ((coerce_iff g e).0 read))
    ],
  )
    where
      none_some : {e : E} → none ≡ some e → ⊥
      none_some h = cc
