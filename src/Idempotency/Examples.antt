-- ===== src/Idempotency/Examples.antt =====
-- Tests and applications of the theorems on ues/idempotency.py.
use universal_execution_syst.Prelude.{
  String, ◌≡◌, refl, ◌↔◌, ◌⊎◌, true, false, none, some, List, [], ◌∷◌, ◌++◌, if◌then◌else◌,
}
use universal_execution_syst.Idempotency.Records.{
  OperationEntry, evaluate_idempotency, judge, matches, latest_records,
}
use universal_execution_syst.Idempotency.Decide.{
  IsRetryable, last_match, safe_to_execute_iff, evaluate-append,
}
use universal_execution_syst.Idempotency.Latest.{last_of}
use universal_execution_syst.Idempotency.Boundary.{
  MutationPlan, evaluate_branch_serialization, evaluate_write_boundary,
}
use universal_execution_syst.Runtime.{Runtime}
use universal_execution_syst.Idempotency.Effect.{EffectIdentity}
use universal_execution_syst.Idempotency.Key.{sort_keys, to_dict, effect_operation_key}
use universal_execution_syst.Idempotency.Identity.{SameEffect, effect_operation_key_injective}
use universal_execution_syst.Idempotency.Serialization.{
  IsActiveElsewhere, TreeKept, available_iff, ready_iff,
}

abbrev entry : String → String → String → OperationEntry
entry id state ref = record {
  operation_id = some id;
  operation_key = none;
  request_digest = some "d";
  state = some state;
  repository = some "r";
  ref = some ref;
  authoritative_readback = true;
}

abbrev log : List OperationEntry
log =
    entry "a" "IN_FLIGHT" "main"
    ∷ entry "b" "CONFIRMED" "main"
    ∷ entry "a" "RECONCILED_NOT_OBSERVED" "main"
    ∷ []

latest_records_test :
    latest_records log
    ≡ entry "a" "RECONCILED_NOT_OBSERVED" "main" ∷ entry "b" "CONFIRMED" "main" ∷ []
unfolding latest_records
latest_records_test = refl

abbrev ready_plan : MutationPlan
ready_plan = record {
  decision = some "AUTHORIZED_DRY_RUN";
  cas_live_head_sha = some "h";
  cas_live_tree_sha = some "t";
}

boundary_test :
    (evaluate_write_boundary ready_plan "a" "d" "r" "main" "h" (some "t") log).ready ≡ true
unfolding evaluate_write_boundary
boundary_test = refl

boundary_moved_test :
    (evaluate_write_boundary ready_plan "a" "d" "r" "main" "h" (some "u") log).ready ≡ false
unfolding evaluate_write_boundary
boundary_moved_test = refl

safe_to_execute_iff_example : ((evaluate_idempotency "a" "d" log).safe_to_execute ≡ true) ↔ (
    (last_match "a" log ≡ none)
    ⊎ ((r : OperationEntry) × (last_match "a" log ≡ some r) × IsRetryable "d" r))
safe_to_execute_iff_example = safe_to_execute_iff "a" "d" log

evaluate-append_example : evaluate_idempotency "a" "d" (log ++ entry "b" "UNKNOWN" "dev" ∷ []) ≡ (
    if matches "a" (entry "b" "UNKNOWN" "dev")
    then judge "a" "d" (some (entry "b" "UNKNOWN" "dev"))
    else evaluate_idempotency "a" "d" log)
evaluate-append_example = evaluate-append "a" "d" log (entry "b" "UNKNOWN" "dev")

available_iff_example : ((evaluate_branch_serialization "r" "main" "c" log).available ≡ true) ↔ (
    (k : String) (r : OperationEntry)
    → last_of k log ≡ some r
    → ¬ IsActiveElsewhere "r" "main" "c" r)
available_iff_example = available_iff "r" "main" "c" log

ready_iff_example :
    ((evaluate_write_boundary ready_plan "a" "d" "r" "main" "h" (some "t") log).ready ≡ true) ↔ (
      (ready_plan.decision ≡ some "AUTHORIZED_DRY_RUN")
      × (ready_plan.cas_live_head_sha ≡ some "h")
      × TreeKept ready_plan.cas_live_tree_sha (some "t")
      × ((evaluate_idempotency "a" "d" log).safe_to_execute ≡ true)
      × ((evaluate_branch_serialization "r" "main" "a" log).available ≡ true))
ready_iff_example = ready_iff ready_plan "a" "d" "r" "main" "h" (some "t") log

abbrev rt : Runtime
rt = record {
  lower = λ s. s;
  upper = λ s. s;
  isalnum = λ c. true;
  dumps = λ v. "{}";
  sha256_hex = λ s. "0";
  isoformat = λ n. "t";
  decimal = λ n. "n";
}

abbrev push_to : List (String × String) → EffectIdentity
push_to target = record {
  lane_id = "l";
  project = "p";
  route = "r";
  workstream_id = "w";
  action = "push";
  target = target;
}

-- One target in two orders.
abbrev one_order : EffectIdentity
one_order = push_to (("branch", "main") ∷ ("head", "h") ∷ [])

abbrev other_order : EffectIdentity
other_order = push_to (("head", "h") ∷ ("branch", "main") ∷ [])

effect_operation_key_injective_example : SameEffect one_order other_order
unfolding sort_keys to_dict effect_operation_key
effect_operation_key_injective_example =
    effect_operation_key_injective rt (λ s t. refl) one_order other_order (λ p. refl) (λ p. refl)
      refl
