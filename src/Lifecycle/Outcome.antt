-- ===== src/Lifecycle/Outcome.antt =====
-- What every resolution of ues/lifecycle.py is: one action along the diagram, or one gate.
use universal_execution_syst.Prelude.{
  ◌≡◌, refl, sym, Bool, true, false, Option, none, some, if◌then◌else◌, subst, List, String,
}
use universal_execution_syst.Prelude.Results.{Result, ok, raise}
use universal_execution_syst.Lifecycle.States
use universal_execution_syst.Lifecycle.States.{
  LifecycleState, LifecycleContext, LifecycleResolution, NextAction, StopGate, read_only,
  external_effect, action_capability, CiOutcome, FailureClass, WaitingClass, ReviewOutcome,
}
use universal_execution_syst.Lifecycle.Graph.{
  Edge, publish, start_ci, classify, capture, continue, verify, invalidate, restart_ci, start_again,
  first_review, second_review, correct_ci, rerun_ci, ask_parent, route, answer, ci_evidence,
  review_evidence, recover, correct, resume,
}
use universal_execution_syst.Lifecycle.Resolve
use universal_execution_syst.Lifecycle.Resolve.{
  resolve_next_action, stop, transition, resolve_ci_classified, resolve_review_result,
  resolve_waiting, resolve_failed, resolve_paused, resolve_special, follow, ci_passed,
  continue_waiting, ensure_lifecycle_resolution, simple,
}

-- The two shapes of a resolution of the context `c`.
pub data Outcome (c : LifecycleContext) (r : LifecycleResolution) : Type 0 where
  stops :
      (g : StopGate)
      → r.stop_gate ≡ some g
      → r.action ≡ none
      → r.next_state ≡ c.state
      → r.required_capability ≡ read_only
      → Outcome c r
  acts :
      (a : NextAction)
      → r.stop_gate ≡ none
      → r.action ≡ some a
      → Edge c.state a r.next_state
      → r.required_capability ≡ action_capability (some a)
      → Outcome c r

-- `m` returns, does not raise, and what it returns has one of the two shapes.
abbrev pub Resolves : LifecycleContext → Result LifecycleResolution → Type 0
Resolves c (ok r) = (r.current_state ≡ c.state) × Outcome c r
Resolves c (raise e) = ⊥

stop-Resolves :
    (c : LifecycleContext) (g : StopGate) (reason : String) → Resolves c (stop c.state g reason)
unfolding stop ensure_lifecycle_resolution action_capability
stop-Resolves c g reason = (refl, stops g refl refl refl refl)

transition-Resolves :
    (c : LifecycleContext) (t : LifecycleState) (a : NextAction) (reason : String)
    (ev : List String) {s : LifecycleState}
    → c.state ≡ s
    → Edge s a t
    → Resolves c (transition c t a reason ev)
unfolding transition ensure_lifecycle_resolution
transition-Resolves c t a reason ev e edge =
    (refl, acts a refl refl (subst (λ s. Edge s a t) (sym e) edge) refl)

review-Resolves :
    (stale : Bool) (c : LifecycleContext) (reason : String) (ev : List String)
    → c.state ≡ States.ci_classified
    → Resolves c (
        transition c
          (if stale then States.re_review else States.reviewer_active)
          (if stale then States.start_re_review else States.start_exact_sha_review)
          reason
          ev)
review-Resolves true c reason ev e = transition-Resolves c _ _ reason ev e second_review
review-Resolves false c reason ev e = transition-Resolves c _ _ reason ev e first_review

ci_passed-Resolves :
    (c : LifecycleContext) → c.state ≡ States.ci_classified → Resolves c (ci_passed c)
unfolding ci_passed
ci_passed-Resolves c e = review-Resolves c.review_stale c _ _ e

ruleset shapes = (stop-Resolves, transition-Resolves, ci_passed-Resolves)

ruleset ci_edges = (correct_ci, rerun_ci)

ci_classified-Resolves :
    (c : LifecycleContext) (o : Option CiOutcome) (f : Option FailureClass)
    → c.state ≡ States.ci_classified
    → Resolves c (resolve_ci_classified c o f)
unfolding resolve_ci_classified
ci_classified-Resolves c (some CiOutcome.pass) f e = ci_passed-Resolves c e
ci_classified-Resolves c (some States.failure) (some States.candidate_defect) e =
    search (shapes, ci_edges)
ci_classified-Resolves c o f e = search (shapes, ci_edges)

review_result-Resolves :
    (c : LifecycleContext) (o : Option ReviewOutcome)
    → c.state ≡ States.review_result
    → Resolves c (resolve_review_result c o)
unfolding resolve_review_result
review_result-Resolves c none e = search shapes
review_result-Resolves c (some ReviewOutcome.pass) e = search (shapes, ask_parent)
review_result-Resolves c (some States.findings) e = search (shapes, route)

continue_waiting-Resolves :
    (c : LifecycleContext) (w : String) (t : Option LifecycleState)
    → c.state ≡ States.awaiting_user_feedback
    → Resolves c (continue_waiting c w t)
unfolding continue_waiting
continue_waiting-Resolves c w none e = search shapes
continue_waiting-Resolves c w (some t) e = search (shapes, answer)

waiting-Resolves :
    (c : LifecycleContext) (w : Option WaitingClass)
    → c.state ≡ States.awaiting_user_feedback
    → Resolves c (resolve_waiting c w)
unfolding resolve_waiting
waiting-Resolves c none e = search shapes
waiting-Resolves c (some States.policy_resolvable) e = continue_waiting-Resolves c _ _ e
waiting-Resolves c (some _) e =
    search (shapes, continue_waiting-Resolves, ci_evidence, review_evidence)

recover-Resolves :
    (c : LifecycleContext) (t : Option LifecycleState)
    → c.state ≡ States.failed
    → Resolves c (Resolve.recover c t)
unfolding Resolve.recover
recover-Resolves c none e = search shapes
recover-Resolves c (some t) e = search (shapes, recover)

failed-Resolves :
    (c : LifecycleContext) (f : Option FailureClass)
    → c.state ≡ States.failed
    → Resolves c (resolve_failed c f)
unfolding resolve_failed
failed-Resolves c none e = search shapes
failed-Resolves c (some States.candidate_defect) e = search (shapes, correct)
failed-Resolves c (some _) e = search (shapes, recover-Resolves, correct)

paused-Resolves :
    (c : LifecycleContext) (t : Option LifecycleState)
    → c.state ≡ States.paused
    → Resolves c (resolve_paused c t)
unfolding resolve_paused
paused-Resolves c none e = search shapes
paused-Resolves c (some t) e = search (shapes, resume)

special-Resolves :
    (s : LifecycleState) (c : LifecycleContext) → c.state ≡ s → Resolves c (resolve_special s c)
unfolding resolve_special
special-Resolves States.ci_classified c e = ci_classified-Resolves c _ _ e
special-Resolves States.review_result c e = review_result-Resolves c _ e
special-Resolves States.awaiting_user_feedback c e = waiting-Resolves c _ e
special-Resolves States.failed c e = failed-Resolves c _ e
special-Resolves States.paused c e = paused-Resolves c _ e
special-Resolves _ c e = search shapes

ruleset simple_edges =
    (publish, start_ci, classify, capture, continue, verify, invalidate, restart_ci, start_again)

follow-Resolves :
    (s : LifecycleState) (c : LifecycleContext) → c.state ≡ s → Resolves c (follow (simple s) c)
unfolding follow
follow-Resolves States.ci_classified c e = special-Resolves c.state c refl
follow-Resolves States.review_result c e = special-Resolves c.state c refl
follow-Resolves States.parent_review_pending c e = special-Resolves c.state c refl
follow-Resolves States.awaiting_user_feedback c e = special-Resolves c.state c refl
follow-Resolves States.failed c e = special-Resolves c.state c refl
follow-Resolves States.paused c e = special-Resolves c.state c refl
follow-Resolves States.forgotten c e = special-Resolves c.state c refl
follow-Resolves _ c e = search (shapes, simple_edges)

-- For every context, `resolve_next_action` returns and never raises `ForgottenLaneError`. Its
-- resolution names the context's state, and either it is a Stop Gate with no action, which keeps
-- the state and needs READ_ONLY alone, or it is an action with no gate, which follows an edge of the
-- diagram from that state and needs exactly the capability of the action.
pub resolve_next_action-Resolves : (c : LifecycleContext) → Resolves c (resolve_next_action c)
unfolding resolve_next_action
resolve_next_action-Resolves c = follow-Resolves c.state c refl
