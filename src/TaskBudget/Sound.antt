-- ===== src/TaskBudget/Sound.antt =====
-- What holds of every budget that `evaluate_task_budget` returns (ues/task_budget.py), at the fields
-- that its return statements have in common.
use universal_execution_syst.Prelude.{
  ℕ, ◌+◌, ◌-◌, ◌<◌, ◌≡◌, refl, ap, ◌∙◌, subst, String, ◌==◌, Bool, true, false, not, Option, none,
  some, Bool-cases, inl, inr, arith, if◌then◌else◌,
}
use universal_execution_syst.Prelude.Results.{Result, ok, raise, >>=-eq-ok}
use universal_execution_syst.Runtime.{Runtime}
use universal_execution_syst.TaskBudget
use universal_execution_syst.TaskBudget.{
  ℤ, pos, negsuc, BudgetRequest, Common, TaskBudget, evaluate_task_budget, judge, judge_limit,
  judge_window, judge_known, common_of, reaches, limit_of, exceeds, remaining,
}

-- What holds of a budget that is made of `c`.
pub record Sound (c : Common) (b : TaskBudget) : Type 0 where
  pub same : b.common ≡ c
  pub refuses : b.fail_closed ≡ not b.budget_allows_new_task
  pub bounded :
      b.budget_allows_new_task ≡ true
      → (c.direct_limit_reached ≡ false) × (limit : ℕ) × (limit_of c.ceiling c.reserve ≡ some limit)
  pub spends :
      b.budget_allows_new_task ≡ true
      → c.window_known ≡ true
      → (used : ℕ) × (left : ℕ) × (c.proven_window_used ≡ some used)
        × (b.safe_remaining ≡ some left)
        × (0 < left)
        × (limit_of c.ceiling c.reserve ≡ some (used + left))

abbrev pub IfOk : (TaskBudget → Type 0) → Result TaskBudget → Type 0
IfOk P (ok b) = P b
IfOk P (raise e) = Unit

pub IfOk-ok :
    (P : TaskBudget → Type 0) (m : Result TaskBudget) (b : TaskBudget) → IfOk P m → m ≡ ok b → P b
IfOk-ok P m b h e = subst (IfOk P) e h

IfOk-if :
    (P : TaskBudget → Type 0) (b : Bool) (m n : Result TaskBudget)
    → (b ≡ true → IfOk P m)
    → (b ≡ false → IfOk P n)
    → IfOk P (if b then m else n)
IfOk-if P true m n h k = h refl
IfOk-if P false m n h k = k refl

refused :
    (c : Common) (b : TaskBudget)
    → b.common ≡ c
    → b.budget_allows_new_task ≡ false
    → b.fail_closed ≡ true
    → Sound c b
refused c b s a f = record { same = s; refuses = cc; bounded = λ h. cc; spends = λ h k. cc }

module _ (c : Common) (d : c.direct_limit_reached ≡ false) (limit : ℕ)
    (l : limit_of c.ceiling c.reserve ≡ some limit) where
  known-Sound :
      (used : Option ℕ) → c.proven_window_used ≡ used → IfOk (Sound c) (judge_known c limit used)
  unfolding judge_known
  known-Sound none p = tt
  known-Sound (some used) p = elim (Bool-cases (exceeds c.current_window used)) [
    | inl e ↦ rw e (refused c _ refl refl refl)
    | inr e ↦ rw e (record {
      same = refl;
      refuses = ground arith;
      bounded = λ h. (d, limit, l);
      spends = λ h k.
          let left : 0 < limit - used = ground (arith, h) in
          (used, limit - used, p, refl, left, l ∙ ap some (omega (arith, left)));
    })
  ]

  window-Sound : IfOk (Sound c) (judge_window c limit)
  unfolding judge_window
  window-Sound =
      IfOk-if (Sound c) c.window_known _ _ (λ k. known-Sound c.proven_window_used refl)
        (λ k.
          IfOk-if (Sound c) (c.policy == "DENY") _ _ (λ e. refused c _ refl refl refl)
            (λ e. record {
              same = refl;
              refuses = refl;
              bounded = λ h. (d, limit, l);
              spends = λ h known. cc;
            }))

limit-Sound :
    (c : Common) (d : c.direct_limit_reached ≡ false) (limit : Option ℕ)
    → limit_of c.ceiling c.reserve ≡ limit
    → IfOk (Sound c) (judge_limit c limit)
unfolding judge_limit
limit-Sound c d none l = refused c _ refl refl refl
limit-Sound c d (some limit) l = window-Sound c d limit l

pub judge-Sound : (c : Common) → IfOk (Sound c) (judge c)
unfolding judge
judge-Sound c =
    IfOk-if (Sound c) c.direct_limit_reached _ _ (λ d. refused c _ refl refl refl)
      (λ d. limit-Sound c d (limit_of c.ceiling c.reserve) refl)

pub natural_lem : (z : ℤ) {n : ℕ} → TaskBudget.natural z ≡ ok n → z ≡ pos n
natural_lem (pos n) h = cc
natural_lem (negsuc n) h = cc

pub natural_if_given_lem :
    (z : Option ℤ) {n : ℕ} → TaskBudget.natural_if_given z ≡ ok (some n) → z ≡ some (pos n)
natural_if_given_lem none h = cc
natural_if_given_lem (some (pos n)) h = cc
natural_if_given_lem (some (negsuc n)) h = cc

abbrev pub policy_of : Runtime → BudgetRequest → String
policy_of rt q =
    rt.upper (TaskBudget.policy_text q.unknown_quota_window_policy q.unknown_lifetime_policy)

-- The steps of a call that returned.
pub record Evaluated (rt : Runtime) (q : BudgetRequest) (b : TaskBudget) : Type 0 where
  pub ceiling : Option ℕ
  pub reserve : ℕ
  pub current : Option ℕ
  pub proven : Option ℕ
  pub policy : String
  pub read_ceiling : TaskBudget.natural_if_given q.ceiling ≡ ok ceiling
  pub read_reserve : TaskBudget.natural q.reserve ≡ ok reserve
  pub read_current :
      TaskBudget.natural_if_given
        (TaskBudget.first_given q.current_window_enumerated_tasks q.current_enumerated_tasks)
      ≡ ok current
  pub read_proven :
      TaskBudget.natural_if_given
        (TaskBudget.first_given q.proven_quota_window_used q.proven_lifetime_used)
      ≡ ok proven
  pub judged : judge (common_of rt q ceiling reserve proven current policy) ≡ ok b

pub evaluated :
    (rt : Runtime) (q : BudgetRequest) (b : TaskBudget)
    → evaluate_task_budget rt q ≡ ok b
    → Evaluated rt q b
unfolding evaluate_task_budget
evaluated rt q b h =
    let (ceiling, hc, h1) = >>=-eq-ok (TaskBudget.natural_if_given q.ceiling) _ h in
    let (reserve, hr, h2) = >>=-eq-ok (TaskBudget.natural q.reserve) _ h1 in
    let (u, hu, h3) =
      >>=-eq-ok (TaskBudget.guard (TaskBudget.within ceiling reserve) TaskBudget.value_error) _
        h2 in
    let (current, hcur, h4) =
      >>=-eq-ok
        (TaskBudget.natural_if_given
          (TaskBudget.first_given q.current_window_enumerated_tasks q.current_enumerated_tasks))
        _ h3 in
    let (proven, hp, h5) =
      >>=-eq-ok
        (TaskBudget.natural_if_given
          (TaskBudget.first_given q.proven_quota_window_used q.proven_lifetime_used))
        _ h4 in
    let (v, hv, h6) =
      >>=-eq-ok
        (TaskBudget.guard (TaskBudget.one_of (policy_of rt q) TaskBudget.policies)
          TaskBudget.value_error)
        (λ _. judge (common_of rt q ceiling reserve proven current (policy_of rt q))) h5 in
    record {
      ceiling = ceiling;
      reserve = reserve;
      current = current;
      proven = proven;
      policy = policy_of rt q;
      read_ceiling = hc;
      read_reserve = hr;
      read_current = hcur;
      read_proven = hp;
      judged = h6;
    }
