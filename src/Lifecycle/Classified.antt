-- ===== src/Lifecycle/Classified.antt =====
-- ues/lifecycle.py: when a lane stops because its classification is missing, unknown or "UNCLASSIFIED".
use universal_execution_syst.Prelude.{
  ◌≡◌, refl, sym, ap, ◌∙◌, ◌↔◌, ◌⊎◌, String, Option, none, some, inl, inr, subst,
}
use universal_execution_syst.Lifecycle.States
use universal_execution_syst.Lifecycle.States.{
  LifecycleState, LifecycleContext, LifecycleResolution, NextAction, StopGate, Given, coerce,
  ReviewOutcome, CiOutcome, WaitingClass, FailureClass, review_outcome_of, ci_outcome_of,
  waiting_class_of, failure_class_of,
}
use universal_execution_syst.Lifecycle.Resolve.{
  resolve_next_action, stop, resolve_ci_classified, resolve_review_result, resolve_special, follow,
  simple,
}
use universal_execution_syst.Lifecycle.Gates.{
  ClassificationGate, Halts, StopsAt, GatedAt, stop-Halts, transition-not_gated, stop-elsewhere,
  IsOpen, gated-ci, gated-review, gated-waiting, gated-failed, paused-not_gated, ci-stop,
  waiting-stop, failed-stop, none-stop,
}
use universal_execution_syst.Lifecycle.Named.{
  Names, Reads, review_value, ci_value, waiting_value, failure_value, coerce_iff, coerce-none,
  review-Reads, ci-Reads, waiting-Reads, failure-Reads,
}

-- The field names no member.
abbrev pub NamesNone : {E : Type 0} → (E → String) → Given E → Type 0
NamesNone {E} value g = (e : E) → Names value g e → ⊥

-- What the state needs, and the context does not give, with the gate for it.
pub data LacksClass (c : LifecycleContext) : StopGate → Type 0 where
  no_ci :
      c.state ≡ States.ci_classified
      → NamesNone ci_value c.ci_outcome
      → LacksClass c States.ci_failure_classification_required
  no_ci_failure :
      c.state ≡ States.ci_classified
      → Names ci_value c.ci_outcome CiOutcome.failure
      → NamesNone failure_value c.failure_class
        ⊎ Names failure_value c.failure_class FailureClass.unclassified
      → LacksClass c States.ci_failure_classification_required
  no_review :
      c.state ≡ States.review_result
      → NamesNone review_value c.review_outcome
      → LacksClass c States.invalid_binding
  no_waiting :
      c.state ≡ States.awaiting_user_feedback
      → NamesNone waiting_value c.waiting_class
        ⊎ Names waiting_value c.waiting_class WaitingClass.unclassified
      → LacksClass c States.unclassified_waiting
  no_failure :
      c.state ≡ States.failed
      → NamesNone failure_value c.failure_class
        ⊎ Names failure_value c.failure_class FailureClass.unclassified
      → LacksClass c States.unclassified_failure

module _ {E : Type 0} (value : E → String) (of_value : String → Option E)
    (reads : Reads value of_value) (unclassified : E) (g : Given E) where
  unclassified_iff :
      IsOpen unclassified (coerce of_value g) ↔ (NamesNone value g ⊎ Names value g unclassified)
  unclassified_iff = (
    λ lacking_class. elim lacking_class [
      | inl e ↦ inl ((coerce-none value of_value reads g).0 e)
      | inr e ↦ inr ((coerce_iff value of_value reads g unclassified).0 e)
    ],
    λ lacking. elim lacking [
      | inl h ↦ inl ((coerce-none value of_value reads g).1 h)
      | inr h ↦ inr ((coerce_iff value of_value reads g unclassified).1 h)
    ],
  )

module _ (c : LifecycleContext) {g : StopGate} (kind : ClassificationGate g) where
  -- A test on the state, below the table.
  gated-special :
      (s : LifecycleState) → c.state ≡ s → GatedAt g (resolve_special s c) → LacksClass c g
  unfolding resolve_special
  gated-special States.ci_classified e h =
      let (same, lacking_class) =
        gated-ci c kind (coerce ci_outcome_of c.ci_outcome)
          (coerce failure_class_of c.failure_class) h in
      subst (LacksClass c) same (elim lacking_class [
        | inl none_read ↦
            no_ci e ((coerce-none ci_value ci_outcome_of ci-Reads c.ci_outcome).0 none_read)
        | inr (failed, unclassified) ↦
            no_ci_failure e
              ((coerce_iff ci_value ci_outcome_of ci-Reads c.ci_outcome CiOutcome.failure).0 failed)
              ((unclassified_iff failure_value failure_class_of failure-Reads
                  FailureClass.unclassified c.failure_class).0
                unclassified)
      ])
  gated-special States.review_result e h =
      let (same, none_read) = gated-review c kind (coerce review_outcome_of c.review_outcome) h in
      subst (LacksClass c) same (
        no_review e
          ((coerce-none review_value review_outcome_of review-Reads c.review_outcome).0 none_read))
  gated-special States.awaiting_user_feedback e h =
      let (same, lacking_class) =
        gated-waiting c kind (coerce waiting_class_of c.waiting_class) h in
      subst (LacksClass c) same (
        no_waiting e (
          (unclassified_iff waiting_value waiting_class_of waiting-Reads WaitingClass.unclassified
              c.waiting_class).0
            lacking_class))
  gated-special States.failed e h =
      let (same, lacking_class) = gated-failed c kind (coerce failure_class_of c.failure_class) h in
      subst (LacksClass c) same (
        no_failure e (
          (unclassified_iff failure_value failure_class_of failure-Reads FailureClass.unclassified
              c.failure_class).0
            lacking_class))
  gated-special States.paused e h = absurd (paused-not_gated c kind c.resume_state h)
  gated-special _ e h = absurd (stop-elsewhere c.state _ _ refl kind h)

  gated-follow :
      (next : Option (LifecycleState × NextAction)) → GatedAt g (follow next c) → LacksClass c g
  unfolding follow
  gated-follow none h = gated-special c.state refl h
  gated-follow (some (target, action)) h = absurd (transition-not_gated c _ _ _ _ g h)

stop-StopsAt :
    (c : LifecycleContext) (g : StopGate) (reason : String)
    → resolve_next_action c ≡ stop c.state g reason
    → StopsAt g c
stop-StopsAt c g reason e = subst (Halts g c) (sym e) (stop-Halts c g reason)

-- A state that the table `simple` leaves out is resolved by its own test.
resolve-special :
    (c : LifecycleContext) (s : LifecycleState)
    → c.state ≡ s
    → simple s ≡ none
    → resolve_next_action c ≡ resolve_special s c
unfolding resolve_next_action follow
resolve-special c s e absent =
    subst (λ t. simple t ≡ none → resolve_next_action c ≡ resolve_special t c) e
      (λ absent. ap (λ next. follow next c) absent) absent

LacksClass-StopsAt : (c : LifecycleContext) (g : StopGate) → LacksClass c g → StopsAt g c
unfolding resolve_special resolve_review_result
LacksClass-StopsAt c g (no_ci e h) =
    let failed_as = coerce failure_class_of c.failure_class in
    stop-StopsAt c g _ (
      resolve-special c States.ci_classified e refl
      ∙ (ap (λ o. resolve_ci_classified c o failed_as)
            ((coerce-none ci_value ci_outcome_of ci-Reads c.ci_outcome).1 h)
          ∙ none-stop c failed_as))
LacksClass-StopsAt c g (no_ci_failure e f h) =
    let failed_as = coerce failure_class_of c.failure_class in
    stop-StopsAt c g _ (
      resolve-special c States.ci_classified e refl
      ∙ (ap (λ o. resolve_ci_classified c o failed_as)
            ((coerce_iff ci_value ci_outcome_of ci-Reads c.ci_outcome CiOutcome.failure).1 f)
          ∙ ci-stop c failed_as (
              (unclassified_iff failure_value failure_class_of failure-Reads
                  FailureClass.unclassified c.failure_class).1
                h)))
LacksClass-StopsAt c g (no_review e h) = stop-StopsAt c g _ (
    resolve-special c States.review_result e refl
    ∙ ap (resolve_review_result c)
        ((coerce-none review_value review_outcome_of review-Reads c.review_outcome).1 h))
LacksClass-StopsAt c g (no_waiting e h) = stop-StopsAt c g _ (
    resolve-special c States.awaiting_user_feedback e refl
    ∙ waiting-stop c (coerce waiting_class_of c.waiting_class) (
        (unclassified_iff waiting_value waiting_class_of waiting-Reads WaitingClass.unclassified
            c.waiting_class).1
          h))
LacksClass-StopsAt c g (no_failure e h) = stop-StopsAt c g _ (
    resolve-special c States.failed e refl
    ∙ failed-stop c (coerce failure_class_of c.failure_class) (
        (unclassified_iff failure_value failure_class_of failure-Reads FailureClass.unclassified
            c.failure_class).1
          h))

-- A lane stops at the gate for a missing classification exactly when its state needs one that the context
-- does not give: in CI_CLASSIFIED a CI outcome, and for a failure its class, in REVIEW_RESULT a review
-- outcome, in AWAITING_USER_FEEDBACK a waiting class, in FAILED a failure class. A field gives one when
-- it is a member or a member's value, other than UNCLASSIFIED. It then stops in its state, without an
-- action.
pub stops_unclassified_iff :
    (c : LifecycleContext) (g : StopGate) → ClassificationGate g → StopsAt g c ↔ LacksClass c g
unfolding resolve_next_action
stops_unclassified_iff c g kind = (
  λ (r, e, gated, _, _). gated-follow c kind (simple c.state) (r, e, gated),
  λ h. LacksClass-StopsAt c g h,
)
