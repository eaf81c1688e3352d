-- ===== src/Lifecycle/Examples.antt =====
-- Tests and applications of the theorems on ues/lifecycle.py.
use universal_execution_syst.Prelude.{◌≡◌, refl, ◌↔◌, true, none, some, [], ◌∷◌}
use universal_execution_syst.Prelude.Results.{ok}
use universal_execution_syst.Lifecycle.States
use universal_execution_syst.Lifecycle.States.{
  LifecycleContext, LifecycleResolution, member, text, executable, coerce, review_outcome_of,
  ci_outcome_of, failure_class_of, ReviewOutcome, action_capability,
}
use universal_execution_syst.Lifecycle.Resolve.{
  resolve_next_action, follow, resolve_special, resolve_review_result, resolve_ci_classified,
  transition, stop, ensure_lifecycle_resolution,
}
use universal_execution_syst.Lifecycle.Outcome.{Resolves, resolve_next_action-Resolves}
use universal_execution_syst.Lifecycle.Authority.{IsLocal, executable_iff, parent_review_needs_pass}
use universal_execution_syst.Lifecycle.Gates.{StopsAt, for_ci}
use universal_execution_syst.Lifecycle.Classified.{LacksClass, stops_unclassified_iff}
use universal_execution_syst.Lifecycle.Progress.{passing, rounds, working_reaches_parent}

abbrev reviewed : LifecycleContext
reviewed = passing true States.review_result

abbrev asked : LifecycleResolution
asked = record {
  current_state = States.review_result;
  next_state = States.parent_review_pending;
  action = some States.request_parent_review;
  stop_gate = none;
  reason = "PASS is not acceptance; Parent review remains a control signal";
  required_capability = States.control_signal;
  required_evidence = "exact_sha_review_evidence" ∷ [];
}

reviewed_asks : resolve_next_action reviewed ≡ ok asked
unfolding resolve_next_action follow resolve_special resolve_review_result transition
    ensure_lifecycle_resolution action_capability
reviewed_asks = refl

asked-executable : executable asked ≡ true
unfolding executable
asked-executable = refl

resolve_next_action-Resolves_example : Resolves reviewed (resolve_next_action reviewed)
resolve_next_action-Resolves_example = resolve_next_action-Resolves reviewed

executable_iff_example : (executable asked ≡ true) ↔ IsLocal asked
executable_iff_example = executable_iff reviewed asked reviewed_asks

parent_review_needs_pass_example :
    (reviewed.state ≡ States.review_result)
    × (coerce review_outcome_of reviewed.review_outcome ≡ some ReviewOutcome.pass)
parent_review_needs_pass_example = parent_review_needs_pass reviewed asked reviewed_asks refl

abbrev garbled : LifecycleContext
garbled = record reviewed {
  state = States.ci_classified;
  ci_outcome = text "FAILURE";
  failure_class = text "candidate defect";
}

garbled_test :
    (resolve_next_action garbled)
    ≡ stop States.ci_classified States.ci_failure_classification_required
        "CI outcome/failure class is incomplete or unknown"
unfolding resolve_next_action follow resolve_special resolve_ci_classified failure_class_of
    ci_outcome_of
garbled_test = refl

stops_unclassified_iff_example :
    StopsAt States.ci_failure_classification_required garbled
    ↔ LacksClass garbled States.ci_failure_classification_required
stops_unclassified_iff_example =
    stops_unclassified_iff garbled States.ci_failure_classification_required for_ci

working_reaches_parent_example :
    rounds true 3 (rounds true 10 States.correction_required) ≡ States.parent_review_pending
working_reaches_parent_example = working_reaches_parent true States.correction_required 3 refl
