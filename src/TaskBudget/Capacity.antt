-- ===== src/TaskBudget/Capacity.antt =====
-- What a budget that allows a task says of the quota window (ues/task_budget.py,
-- `evaluate_task_budget`).
use universal_execution_syst.Prelude.{
  ℕ, ◌+◌, ◌<◌, ◌≡◌, refl, ap, sym, ◌∙◌, subst, Bool, true, false, not, ◌||◌, Option, none, some,
  arith,
}
use universal_execution_syst.Prelude.Results.{ok}
use universal_execution_syst.Runtime.{Runtime}
use universal_execution_syst.TaskBudget.{
  pos, BudgetRequest, Common, TaskBudget, evaluate_task_budget, judge, common_of, reaches, limit_of,
}
use universal_execution_syst.TaskBudget.Observed.{IsLargestReport, observed-IsLargestReport}
use universal_execution_syst.TaskBudget.Sound.{
  Sound, IfOk-ok, judge-Sound, natural_lem, natural_if_given_lem, Evaluated, evaluated,
}

bounded_room :
    (hard : Bool) (observed : ℕ) (ceiling : Option ℕ) (reserve limit : ℕ)
    → hard || reaches observed (limit_of ceiling reserve) ≡ false
    → limit_of ceiling reserve ≡ some limit
    → (hard ≡ false) × (n : ℕ) × (ceiling ≡ some n) × (observed + reserve < n)
bounded_room hard observed none reserve limit h l = cc
bounded_room hard observed (some n) reserve limit h l =
    (ground (arith, h), n, refl, ground (arith, h))

exact_limit :
    (ceiling : Option ℕ) (reserve used left : ℕ)
    → 0 < left
    → limit_of ceiling reserve ≡ some (used + left)
    → (n : ℕ) × (ceiling ≡ some n) × (used + left + reserve ≡ n)
exact_limit none reserve used left h l = cc
exact_limit (some n) reserve used left h l = (n, refl, ground (arith, h, l))

module _ (rt : Runtime) (q : BudgetRequest) (b : TaskBudget) (e : Evaluated rt q b) where
  common : Common
  common = common_of rt q e.ceiling e.reserve e.proven e.current e.policy

  sound : Sound common b
  unfolding common
  sound = IfOk-ok (Sound common) (judge common) b (judge-Sound common) e.judged

  room :
      b.budget_allows_new_task ≡ true
      → (q.hard_ceiling_reached ≡ false)
        × (n : ℕ) × (r : ℕ) × (q.ceiling ≡ some (pos n))
        × (q.reserve ≡ pos r)
        × (b.common.observed_lower_bound + r < n)
        × IsLargestReport q b.common.observed_lower_bound
  unfolding common common_of
  room allows =
      let (d, limit, l) = sound.bounded allows in
      let (hard, n, c, below) =
        bounded_room q.hard_ceiling_reached common.observed_lower_bound e.ceiling e.reserve limit d
          l in
      (
        hard,
        n,
        e.reserve,
        natural_if_given_lem q.ceiling (e.read_ceiling ∙ ap ok c),
        natural_lem q.reserve e.read_reserve,
        subst (λ k. k.observed_lower_bound + e.reserve < n) (sym sound.same) below,
        subst (λ k. IsLargestReport q k.observed_lower_bound) (sym sound.same)
            (observed-IsLargestReport q e.current e.proven e.read_current e.read_proven),
      )

  exact :
      b.budget_allows_new_task ≡ true
      → b.common.window_known ≡ true
      → (n : ℕ) × (r : ℕ) × (used : ℕ) × (left : ℕ) × (q.ceiling ≡ some (pos n))
        × (q.reserve ≡ pos r)
        × (b.common.proven_window_used ≡ some used)
        × (b.safe_remaining ≡ some left)
        × (0 < left)
        × (used + left + r ≡ n)
  unfolding common common_of
  exact allows known =
      let (used, left, p, s, positive, l) =
        sound.spends allows (subst (λ k. k.window_known ≡ true) sound.same known) in
      let (n, c, sum) = exact_limit e.ceiling e.reserve used left positive l in
      (
        n,
        e.reserve,
        used,
        left,
        natural_if_given_lem q.ceiling (e.read_ceiling ∙ ap ok c),
        natural_lem q.reserve e.read_reserve,
        subst (λ k. k.proven_window_used ≡ some used) (sym sound.same) p,
        s,
        positive,
        sum,
      )

-- A budget that allows a new task was computed with a ceiling, without direct evidence that the ceiling
-- is reached, and its observed use leaves room for one more task below the ceiling and the reserve. The
-- observed use is the largest use of the window that the request reports, enumerated or proven, and 0
-- where it reports none; an older name counts only where the newer one is not given.
pub budget_keeps_reserve :
    (rt : Runtime) (q : BudgetRequest) (b : TaskBudget)
    → evaluate_task_budget rt q ≡ ok b
    → b.budget_allows_new_task ≡ true
    → (q.hard_ceiling_reached ≡ false)
      × (n : ℕ) × (r : ℕ) × (q.ceiling ≡ some (pos n))
      × (q.reserve ≡ pos r)
      × (b.common.observed_lower_bound + r < n)
      × IsLargestReport q b.common.observed_lower_bound
budget_keeps_reserve rt q b h allows = room rt q b (evaluated rt q b h) allows

-- Every budget that is returned is fail-closed exactly when it allows no task.
fail_closed_iff :
    (rt : Runtime) (q : BudgetRequest) (b : TaskBudget)
    → evaluate_task_budget rt q ≡ ok b
    → b.fail_closed ≡ not b.budget_allows_new_task
fail_closed_iff rt q b h =
    (IfOk-ok (Sound _) _ b (judge-Sound _) (evaluated rt q b h).judged).refuses

-- If a budget allows a new task and the use of the window is known, the budget's safe remainder is positive, and together with
-- the proven use and the reserve it makes up the ceiling exactly.
pub safe_remaining_exact :
    (rt : Runtime) (q : BudgetRequest) (b : TaskBudget)
    → evaluate_task_budget rt q ≡ ok b
    → b.budget_allows_new_task ≡ true
    → b.common.window_known ≡ true
    → (n : ℕ) × (r : ℕ) × (used : ℕ) × (left : ℕ) × (q.ceiling ≡ some (pos n))
      × (q.reserve ≡ pos r)
      × (b.common.proven_window_used ≡ some used)
      × (b.safe_remaining ≡ some left)
      × (0 < left)
      × (used + left + r ≡ n)
safe_remaining_exact rt q b h allows known = exact rt q b (evaluated rt q b h) allows known
