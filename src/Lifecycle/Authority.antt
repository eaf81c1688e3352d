-- ===== src/Lifecycle/Authority.antt =====
-- What ues/lifecycle.py lets a lane do by itself.
use universal_execution_syst.Prelude.{
  ◌≡◌, refl, ◌∙◌, sym, ◌↔◌, true, false, Option, none, some, arith, subst,
}
use universal_execution_syst.Prelude.Results.{ok}
use universal_execution_syst.Lifecycle.States
use universal_execution_syst.Lifecycle.States.{
  LifecycleState, LifecycleContext, LifecycleResolution, NextAction, StopGate, Given, text,
  ReviewOutcome, request_parent_review, action_capability, executable, in_external_effect_actions,
  coerce, review_outcome_of, ci_outcome_of, waiting_class_of, failure_class_of,
}
use universal_execution_syst.Lifecycle.Graph.{Edge, ask_parent}
use universal_execution_syst.Lifecycle.Outcome.{
  Outcome, stops, acts, Resolves, resolve_next_action-Resolves,
}
use universal_execution_syst.Lifecycle.Resolve.{
  resolve_next_action, resolve_review_result, resolve_special, follow, transition, stop,
  ensure_lifecycle_resolution,
}

outcome :
    {c : LifecycleContext} {r : LifecycleResolution} → resolve_next_action c ≡ ok r → Outcome c r
outcome {c} e = (subst (Resolves c) e (resolve_next_action-Resolves c)).1

capability-executable :
    (a : NextAction) (r : LifecycleResolution)
    → r.stop_gate ≡ none
    → r.action ≡ some a
    → r.required_capability ≡ action_capability (some a)
    → executable r ≡ true
    → in_external_effect_actions a ≡ false
unfolding executable action_capability
capability-executable a r g e k x = ground arith

executable-of_local :
    (a : NextAction) (r : LifecycleResolution)
    → r.stop_gate ≡ none
    → r.action ≡ some a
    → r.required_capability ≡ action_capability (some a)
    → in_external_effect_actions a ≡ false
    → executable r ≡ true
unfolding executable action_capability
executable-of_local a r g e k x = ground arith

-- What a resolution of `resolve_next_action` may be executed on its own for.
abbrev pub IsLocal : LifecycleResolution → Type 0
IsLocal r = (a : NextAction) × (r.action ≡ some a) × (in_external_effect_actions a ≡ false)

not_executable_of_gate :
    (g : StopGate) (r : LifecycleResolution)
    → r.stop_gate ≡ some g
    → r.action ≡ none
    → executable r ≡ false
unfolding executable
not_executable_of_gate g r e f = ground arith

executable_by-Outcome :
    {c : LifecycleContext} {r : LifecycleResolution}
    → Outcome c r
    → (executable r ≡ true) ↔ IsLocal r
executable_by-Outcome {r = r} (stops g e f n k) =
    (λ x. cc (not_executable_of_gate g r e f), λ (a, p, q). cc)
executable_by-Outcome {r = r} (acts a g e edge k) = (
  λ x. (a, e, capability-executable a r g e k x),
  λ (b, p, q). executable-of_local b r g p (ground (arith, p)) q,
)

-- A resolution of the lifecycle is executable exactly when it carries an action outside
-- EXTERNAL_EFFECT_ACTIONS.
pub executable_iff :
    (c : LifecycleContext) (r : LifecycleResolution)
    → resolve_next_action c ≡ ok r
    → (executable r ≡ true) ↔ IsLocal r
executable_iff c r e = executable_by-Outcome (outcome e)

review_of_edge :
    {s t : LifecycleState} {a : NextAction}
    → Edge s a t
    → a ≡ request_parent_review
    → s ≡ States.review_result
review_of_edge ask_parent e = refl
review_of_edge _ e = cc

state_of_Outcome :
    {c : LifecycleContext} {r : LifecycleResolution}
    → Outcome c r
    → r.action ≡ some request_parent_review
    → c.state ≡ States.review_result
state_of_Outcome (stops g e f n k) p = cc
state_of_Outcome (acts a g e edge k) p = review_of_edge edge (cc)

resolve-review :
    (c : LifecycleContext)
    → c.state ≡ States.review_result
    → resolve_next_action c ≡ resolve_review_result c (coerce review_outcome_of c.review_outcome)
unfolding resolve_next_action follow resolve_special
resolve-review c e = ground arith

pass_of_request :
    (c : LifecycleContext) (o : Option ReviewOutcome) (r : LifecycleResolution)
    → resolve_review_result c o ≡ ok r
    → r.action ≡ some request_parent_review
    → o ≡ some ReviewOutcome.pass
unfolding resolve_review_result transition stop ensure_lifecycle_resolution
pass_of_request c o r e p = ground arith

-- A lane asks for Parent review only in REVIEW_RESULT, and only on a review that passed.
pub parent_review_needs_pass :
    (c : LifecycleContext) (r : LifecycleResolution)
    → resolve_next_action c ≡ ok r
    → r.action ≡ some request_parent_review
    → (c.state ≡ States.review_result)
      × (coerce review_outcome_of c.review_outcome ≡ some ReviewOutcome.pass)
parent_review_needs_pass c r e p =
    let s = state_of_Outcome (outcome e) p in
    (s, pass_of_request c _ r (sym (resolve-review c s) ∙ e) p)
