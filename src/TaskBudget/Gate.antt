-- ===== src/TaskBudget/Gate.antt =====
-- What lets a new task be created (ues/task_budget.py, `evaluate_new_task_gate`).
use universal_execution_syst.Prelude.{◌≡◌, ◌↔◌, Bool, true, [], arith}
use universal_execution_syst.TaskBudget.{TaskBudget, evaluate_new_task_gate}

-- The gate opens exactly when the budget allows a task and the parent gate is satisfied, exactly then
-- it names no failure, and a task is created automatically only through an open gate and with
-- authorization.
pub gate_iff :
    (budget : TaskBudget) (parent automatic : Bool)
    → (((evaluate_new_task_gate budget parent automatic).allowed ≡ true)
        ↔ ((budget.budget_allows_new_task ≡ true) × (parent ≡ true)))
      × (((evaluate_new_task_gate budget parent automatic).failures ≡ [])
          ↔ ((evaluate_new_task_gate budget parent automatic).allowed ≡ true))
      × (((evaluate_new_task_gate budget parent automatic).automatic_creation ≡ true) ↔ (
          ((evaluate_new_task_gate budget parent automatic).allowed ≡ true) × (automatic ≡ true)))
unfolding evaluate_new_task_gate
gate_iff budget parent automatic = (
  (λ h. ground (arith, h), λ h. ground (arith, h)),
  (λ h. ground (arith, h), λ h. ground (arith, h)),
  (λ h. ground (arith, h), λ h. ground (arith, h)),
)
