-- ===== src/Generation/Examples.antt =====
-- Runs of ues/generation_transition.py with a runtime that changes no letters.
use universal_execution_syst.Prelude.{true, false, ◌≡◌, refl, ◌↔◌, Option, none, some}
use universal_execution_syst.Prelude.Texts.{strip}
use universal_execution_syst.Json.{Fields, field, text, end}
use universal_execution_syst.Runtime.Plain.{plain}
use universal_execution_syst.Generation.{
  Lineage, CurrentPolicy, Observations, role_name, assess_generation_transition,
  assess_initial_lineage_creation,
}
use universal_execution_syst.Generation.Allowed.{
  IsGoverned, Permits, IsClear, IsNew, transition_allowed_iff, initial_allowed_iff,
}

abbrev writer : Lineage
writer = record {
  project = "p";
  route = "r";
  workstream = "w";
  role = " WRITER ";
  current_generation = 2;
  predecessor_session_fingerprint = some "f";
  candidate_sha = none;
}

abbrev permissive : CurrentPolicy
permissive = record {
  necessary_generation_authorized = true;
  generation_effect_authorized = true;
  generation_budget_safe = true;
  hard_ceiling_reached = false;
}

abbrev clear : Observations
clear = record {
  active_duplicate_absent = true;
  unknown_write_state = false;
  exact_repository_binding = true;
  exact_starting_ref_binding = true;
}

exhausted_test :
    (assess_generation_transition plain writer "CONTEXT_EXHAUSTED" true permissive clear
      true).allowed
    ≡ true
unfolding assess_generation_transition
exhausted_test = refl

-- A second generation is no first one.
initial_test :
    (assess_initial_lineage_creation plain writer permissive clear false none).allowed ≡ false
unfolding assess_initial_lineage_creation
initial_test = refl

transition_allowed_iff_example :
    ((assess_generation_transition plain writer "CONTEXT_EXHAUSTED" true permissive clear
        true).allowed
      ≡ true)
    ↔ (IsGoverned (role_name plain " WRITER ") (strip "CONTEXT_EXHAUSTED") true
        × Permits permissive
        × IsClear clear
        × (true ≡ true))
transition_allowed_iff_example =
    transition_allowed_iff plain writer "CONTEXT_EXHAUSTED" true permissive clear true

abbrev newcomer : Lineage
newcomer = record writer { current_generation = 0; predecessor_session_fingerprint = none }

abbrev some_task : Option Fields
some_task = some (field "title" (text "t") end)

initial_allowed_test :
    (assess_initial_lineage_creation plain newcomer permissive clear false some_task).allowed ≡ true
unfolding assess_initial_lineage_creation
initial_allowed_test = refl

initial_allowed_iff_example :
    ((assess_initial_lineage_creation plain newcomer permissive clear false some_task).allowed
      ≡ true)
    ↔ (IsNew plain newcomer × Permits permissive × IsClear clear × (false ≡ false) × (true ≡ true))
initial_allowed_iff_example = initial_allowed_iff plain newcomer permissive clear false some_task
