-- ===== src/TaskBudget/Examples.antt =====
-- Tests and applications of the theorems on ues/task_budget.py.
use universal_execution_syst.Prelude.{ℕ, ◌+◌, ◌<◌, ◌≡◌, refl, ◌↔◌, true, false, none, some, []}
use universal_execution_syst.Prelude.Results.{ok}
use universal_execution_syst.Runtime.{Runtime}
use universal_execution_syst.TaskBudget.{
  pos, BudgetRequest, TaskBudget, evaluate_task_budget, evaluate_new_task_gate, remaining,
  common_of,
}
use universal_execution_syst.TaskBudget.Capacity.{budget_keeps_reserve, safe_remaining_exact}
use universal_execution_syst.TaskBudget.Observed.{IsLargestReport}
use universal_execution_syst.TaskBudget.Gate.{gate_iff}

abbrev rt : Runtime
rt = record {
  lower = λ s. s;
  upper = λ s. s;
  isalnum = λ c. true;
  dumps = λ v. "{}";
  sha256_hex = λ s. "0";
  isoformat = λ n. "t";
  decimal = λ n. "n";
}

-- A ceiling of ten, a reserve of two, and five tasks proven.
abbrev request : BudgetRequest
request = record {
  project = "p";
  ceiling = some (pos 10);
  reserve = pos 2;
  quota_window_consumption_known = some true;
  proven_quota_window_used = some (pos 5);
  current_window_enumerated_tasks = some (pos 4);
  unknown_quota_window_policy = none;
  hard_ceiling_reached = false;
  lifetime_consumption_known = none;
  proven_lifetime_used = none;
  current_enumerated_tasks = none;
  unknown_lifetime_policy = none;
}

abbrev budget : TaskBudget
budget = remaining (common_of rt request (some 10) 2 (some 5) (some 4) "DENY") 3

evaluate_test : evaluate_task_budget rt request ≡ ok budget
unfolding evaluate_task_budget
evaluate_test = refl

budget_keeps_reserve_example :
    (request.hard_ceiling_reached ≡ false)
    × (n : ℕ) × (r : ℕ) × (request.ceiling ≡ some (pos n))
    × (request.reserve ≡ pos r)
    × (budget.common.observed_lower_bound + r < n)
    × IsLargestReport request budget.common.observed_lower_bound
unfolding evaluate_task_budget
budget_keeps_reserve_example = budget_keeps_reserve rt request budget refl refl

safe_remaining_exact_example :
    (n : ℕ) × (r : ℕ) × (used : ℕ) × (left : ℕ) × (request.ceiling ≡ some (pos n))
    × (request.reserve ≡ pos r)
    × (budget.common.proven_window_used ≡ some used)
    × (budget.safe_remaining ≡ some left)
    × (0 < left)
    × (used + left + r ≡ n)
unfolding evaluate_task_budget common_of
safe_remaining_exact_example = safe_remaining_exact rt request budget refl refl refl

gate_iff_example :
    (((evaluate_new_task_gate budget true false).allowed ≡ true)
      ↔ ((budget.budget_allows_new_task ≡ true) × (true ≡ true)))
    × (((evaluate_new_task_gate budget true false).failures ≡ [])
        ↔ ((evaluate_new_task_gate budget true false).allowed ≡ true))
    × (((evaluate_new_task_gate budget true false).automatic_creation ≡ true)
        ↔ (((evaluate_new_task_gate budget true false).allowed ≡ true) × (false ≡ true)))
gate_iff_example = gate_iff budget true false
