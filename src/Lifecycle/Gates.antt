-- ===== src/Lifecycle/Gates.antt =====
-- ues/lifecycle.py: which functions of the ladder stop at the gate for a missing classification.
use universal_execution_syst.Prelude.{
  ◌≡◌, refl, ap, ◌⊎◌, String, Bool, true, false, Option, none, some, inl, inr, List,
}
use universal_execution_syst.Prelude.Results.{Result, ok}
use universal_execution_syst.Lifecycle.States
use universal_execution_syst.Lifecycle.States.{
  LifecycleState, LifecycleContext, LifecycleResolution, NextAction, StopGate, Given, coerce,
  ReviewOutcome, CiOutcome, WaitingClass, FailureClass, review_outcome_of, ci_outcome_of,
  waiting_class_of, failure_class_of,
}
use universal_execution_syst.Lifecycle.Resolve.{
  resolve_next_action, stop, transition, resolve_ci_classified, resolve_review_result,
  resolve_waiting, resolve_failed, resolve_paused, ci_passed, recover, continue_waiting,
  ensure_lifecycle_resolution,
}

-- The gates at which a lane waits for a classification.
pub data ClassificationGate : StopGate → Type 0 where
  for_ci : ClassificationGate States.ci_failure_classification_required
  for_review : ClassificationGate States.invalid_binding
  for_waiting : ClassificationGate States.unclassified_waiting
  for_failure : ClassificationGate States.unclassified_failure

-- What `m` returns stops at the gate.
abbrev pub GatedAt : StopGate → Result LifecycleResolution → Type 0
GatedAt g m = (r : LifecycleResolution) × (m ≡ ok r) × (r.stop_gate ≡ some g)

-- What `m` returns stops the lane at the gate, in its state and without an action.
abbrev pub Halts : StopGate → LifecycleContext → Result LifecycleResolution → Type 0
Halts g c m =
    (r : LifecycleResolution) × (m ≡ ok r)
    × (r.stop_gate ≡ some g)
    × (r.action ≡ none)
    × (r.next_state ≡ c.state)

abbrev pub StopsAt : StopGate → LifecycleContext → Type 0
StopsAt g c = Halts g c (resolve_next_action c)

pub stop-Halts :
    (c : LifecycleContext) (g : StopGate) (reason : String) → Halts g c (stop c.state g reason)
unfolding stop ensure_lifecycle_resolution
stop-Halts c g reason = (_, refl, refl, refl, refl)

-- A transition stops at no gate, a stop only at its own.
pub transition-not_gated :
    (c : LifecycleContext) (t : LifecycleState) (a : NextAction) (reason : String)
    (ev : List String) (g : StopGate)
    → GatedAt g (transition c t a reason ev)
    → ⊥
unfolding transition ensure_lifecycle_resolution
transition-not_gated c t a reason ev g (r, e, gated) = cc

pub stop-gate :
    (s : LifecycleState) (f : StopGate) (reason : String) (g : StopGate)
    → GatedAt g (stop s f reason)
    → f ≡ g
unfolding stop ensure_lifecycle_resolution
stop-gate s f reason g (r, e, gated) = cc

abbrev pub asks_class : StopGate → Bool
asks_class States.ci_failure_classification_required = true
asks_class States.invalid_binding = true
asks_class States.unclassified_waiting = true
asks_class States.unclassified_failure = true
asks_class _ = false

-- A stop at a gate of another kind is at no classification's gate.
pub stop-elsewhere :
    (s : LifecycleState) (f : StopGate) (reason : String) {g : StopGate}
    → asks_class f ≡ false
    → ClassificationGate g
    → GatedAt g (stop s f reason)
    → ⊥
stop-elsewhere s f reason {g} other kind gated = differs kind (stop-gate s f reason g gated)
  where
    differs : {g : StopGate} → ClassificationGate g → f ≡ g → ⊥
    differs for_ci e = cc (ap asks_class e, other)
    differs for_review e = cc (ap asks_class e, other)
    differs for_waiting e = cc (ap asks_class e, other)
    differs for_failure e = cc (ap asks_class e, other)

-- The value is missing, or the member for what is not classified.
abbrev pub IsOpen : {E : Type 0} → E → Option E → Type 0
IsOpen unclassified o = (o ≡ none) ⊎ (o ≡ some unclassified)

module _ (c : LifecycleContext) {g : StopGate} (kind : ClassificationGate g) where
  pub gated-ci :
      (o : Option CiOutcome) (k : Option FailureClass)
      → GatedAt g (resolve_ci_classified c o k)
      → (States.ci_failure_classification_required ≡ g)
        × ((o ≡ none) ⊎ ((o ≡ some CiOutcome.failure) × IsOpen FailureClass.unclassified k))
  unfolding resolve_ci_classified ci_passed
  gated-ci none none h = (stop-gate c.state _ _ g h, inl refl)
  gated-ci none (some k) h = (stop-gate c.state _ _ g h, inl refl)
  gated-ci (some CiOutcome.pass) k h = absurd (transition-not_gated c _ _ _ _ g h)
  gated-ci (some CiOutcome.failure) none h = (stop-gate c.state _ _ g h, inr (refl, inl refl))
  gated-ci (some CiOutcome.failure) (some FailureClass.unclassified) h =
      (stop-gate c.state _ _ g h, inr (refl, inr refl))
  gated-ci (some CiOutcome.failure) (some FailureClass.candidate_defect) h =
      absurd (transition-not_gated c _ _ _ _ g h)
  gated-ci (some CiOutcome.failure) (some FailureClass.recoverable) h =
      absurd (transition-not_gated c _ _ _ _ g h)
  gated-ci (some CiOutcome.failure) (some FailureClass.owner_required) h =
      absurd (stop-elsewhere c.state _ _ refl kind h)
  gated-ci (some CiOutcome.failure) (some FailureClass.parent_required) h =
      absurd (stop-elsewhere c.state _ _ refl kind h)
  gated-ci (some CiOutcome.failure) (some FailureClass.session_continuation_unavailable) h =
      absurd (stop-elsewhere c.state _ _ refl kind h)

  pub gated-review :
      (o : Option ReviewOutcome)
      → GatedAt g (resolve_review_result c o)
      → (States.invalid_binding ≡ g) × (o ≡ none)
  unfolding resolve_review_result
  gated-review none h = (stop-gate c.state _ _ g h, refl)
  gated-review (some ReviewOutcome.pass) h = absurd (transition-not_gated c _ _ _ _ g h)
  gated-review (some ReviewOutcome.findings) h = absurd (transition-not_gated c _ _ _ _ g h)

  continue-not_gated :
      (waiting : String) (resume : Option LifecycleState)
      → GatedAt g (continue_waiting c waiting resume)
      → ⊥
  unfolding continue_waiting
  continue-not_gated waiting none h = stop-elsewhere c.state _ _ refl kind h
  continue-not_gated waiting (some resume) h = transition-not_gated c _ _ _ _ g h

  pub gated-waiting :
      (w : Option WaitingClass)
      → GatedAt g (resolve_waiting c w)
      → (States.unclassified_waiting ≡ g) × IsOpen WaitingClass.unclassified w
  unfolding resolve_waiting
  gated-waiting none h = (stop-gate c.state _ _ g h, inl refl)
  gated-waiting (some WaitingClass.unclassified) h = (stop-gate c.state _ _ g h, inr refl)
  gated-waiting (some WaitingClass.policy_resolvable) h = absurd (continue-not_gated _ _ h)
  gated-waiting (some WaitingClass.environment_mismatch) h = absurd (continue-not_gated _ _ h)
  gated-waiting (some WaitingClass.tool_limit) h = absurd (continue-not_gated _ _ h)
  gated-waiting (some WaitingClass.ci_dependent) h = absurd (transition-not_gated c _ _ _ _ g h)
  gated-waiting (some WaitingClass.review_dependent) h = absurd (transition-not_gated c _ _ _ _ g h)
  gated-waiting (some WaitingClass.shared_contract_required) h =
      absurd (stop-elsewhere c.state _ _ refl kind h)
  gated-waiting (some WaitingClass.scope_or_new_task_required) h =
      absurd (stop-elsewhere c.state _ _ refl kind h)
  gated-waiting (some WaitingClass.owner_decision_required) h =
      absurd (stop-elsewhere c.state _ _ refl kind h)

  recover-not_gated : (resume : Option LifecycleState) → GatedAt g (recover c resume) → ⊥
  unfolding recover
  recover-not_gated none h = stop-elsewhere c.state _ _ refl kind h
  recover-not_gated (some resume) h = transition-not_gated c _ _ _ _ g h

  pub gated-failed :
      (k : Option FailureClass)
      → GatedAt g (resolve_failed c k)
      → (States.unclassified_failure ≡ g) × IsOpen FailureClass.unclassified k
  unfolding resolve_failed
  gated-failed none h = (stop-gate c.state _ _ g h, inl refl)
  gated-failed (some FailureClass.unclassified) h = (stop-gate c.state _ _ g h, inr refl)
  gated-failed (some FailureClass.recoverable) h = absurd (recover-not_gated c.resume_state h)
  gated-failed (some FailureClass.candidate_defect) h = absurd (transition-not_gated c _ _ _ _ g h)
  gated-failed (some FailureClass.session_continuation_unavailable) h =
      absurd (stop-elsewhere c.state _ _ refl kind h)
  gated-failed (some FailureClass.parent_required) h =
      absurd (stop-elsewhere c.state _ _ refl kind h)
  gated-failed (some FailureClass.owner_required) h =
      absurd (stop-elsewhere c.state _ _ refl kind h)

  pub paused-not_gated : (resume : Option LifecycleState) → GatedAt g (resolve_paused c resume) → ⊥
  unfolding resolve_paused
  paused-not_gated none h = stop-elsewhere c.state _ _ refl kind h
  paused-not_gated (some resume) h = transition-not_gated c _ _ _ _ g h

-- What the last clause of each function does with a value that is missing or unclassified.
pub ci-stop :
    (c : LifecycleContext) (k : Option FailureClass)
    → IsOpen FailureClass.unclassified k
    → resolve_ci_classified c (some CiOutcome.failure) k
      ≡ stop c.state States.ci_failure_classification_required
          "CI outcome/failure class is incomplete or unknown"
unfolding resolve_ci_classified
ci-stop c k (inl e) = rw e refl
ci-stop c k (inr e) = rw e refl

pub waiting-stop :
    (c : LifecycleContext) (w : Option WaitingClass)
    → IsOpen WaitingClass.unclassified w
    → resolve_waiting c w
      ≡ stop c.state States.unclassified_waiting "unclassified waiting fails closed"
unfolding resolve_waiting
waiting-stop c w (inl e) = rw e refl
waiting-stop c w (inr e) = rw e refl

pub failed-stop :
    (c : LifecycleContext) (k : Option FailureClass)
    → IsOpen FailureClass.unclassified k
    → resolve_failed c k
      ≡ stop c.state States.unclassified_failure "failed state must be classified before action"
unfolding resolve_failed
failed-stop c k (inl e) = rw e refl
failed-stop c k (inr e) = rw e refl

pub none-stop :
    (c : LifecycleContext) (k : Option FailureClass)
    → resolve_ci_classified c none k
      ≡ stop c.state States.ci_failure_classification_required
          "CI outcome/failure class is incomplete or unknown"
unfolding resolve_ci_classified
none-stop c none = refl
none-stop c (some k) = refl
