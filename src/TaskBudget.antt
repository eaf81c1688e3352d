-- ===== src/TaskBudget.antt =====
-- ues/task_budget.py: `evaluate_task_budget` and `evaluate_new_task_gate`. A number that the code takes
-- as an `int` may be negative, and is refused if it is; all that is computed then is a natural number.
pub mod Sound
mod Observed
pub mod Capacity
pub mod Gate
mod Examples
use universal_execution_syst.Prelude.{
  ℕ, ◌-◌, String, Bool, true, false, ◌&&◌, ◌||◌, Option, none, some, ltb, leb, or_else, ◌==◌,
  if◌then◌else◌, one_of, List, [], ◌∷◌,
}
use universal_execution_syst.Prelude.Results.{Result, ok, raise, value_error, guard, ◌>>=◌, ◌>>◌}
use universal_execution_syst.Runtime.{Runtime}

pub data ℤ : Type 0 where
  pos negsuc : ℕ → ℤ

-- The keyword arguments; the last four are the older names.
pub record BudgetRequest : Type 0 where
  pub project : String
  pub ceiling : Option ℤ
  pub reserve : ℤ
  pub quota_window_consumption_known : Option Bool
  pub proven_quota_window_used : Option ℤ
  pub current_window_enumerated_tasks : Option ℤ
  pub unknown_quota_window_policy : Option String
  pub hard_ceiling_reached : Bool
  pub lifetime_consumption_known : Option Bool
  pub proven_lifetime_used : Option ℤ
  pub current_enumerated_tasks : Option ℤ
  pub unknown_lifetime_policy : Option String

-- `common`
pub record Common : Type 0 where
  pub project : String
  pub ceiling : Option ℕ
  pub reserve : ℕ
  pub window_known : Bool
  pub proven_window_used : Option ℕ
  pub current_window : Option ℕ
  pub observed_lower_bound : ℕ
  pub policy : String
  pub direct_limit_reached : Bool

pub data BudgetState : Type 0 where
  direct_ceiling_or_reserve_boundary_reached capacity_ceiling_unresolved : BudgetState
  unknown_lifetime_consumption : BudgetState
  owner_policy_capacity_available_with_unknown_lifetime : BudgetState
  task_budget_evidence_inconsistent capacity_available reserve_or_ceiling_reached : BudgetState

pub record TaskBudget : Type 0 where
  pub common : Common
  pub state : BudgetState
  pub safe_remaining : Option ℕ
  pub observed_headroom : Option ℕ
  pub budget_allows_new_task : Bool
  pub automatic_new_task_creation : Bool
  pub fail_closed : Bool

-- A number that must not be negative.
abbrev pub natural : ℤ → Result ℕ
natural (pos n) = ok n
natural (negsuc n) = raise value_error

abbrev pub natural_if_given : Option ℤ → Result (Option ℕ)
natural_if_given none = ok none
natural_if_given (some (pos n)) = ok (some n)
natural_if_given (some (negsuc n)) = raise value_error

abbrev pub first_given : {A : Type 0} → Option A → Option A → Option A
first_given (some a) b = some a
first_given none b = b

abbrev pub larger : ℕ → ℕ → ℕ
larger m n = if leb m n then n else m

-- `unknown_lifetime_policy or "DENY"`
abbrev pub or_deny : Option String → String
or_deny none = "DENY"
or_deny (some s) = if s == "" then "DENY" else s

abbrev pub policy_text : Option String → Option String → String
policy_text (some s) t = s
policy_text none t = or_deny t

-- UNKNOWN_QUOTA_WINDOW_POLICIES
abbrev pub policies : List String
policies = "DENY" ∷ "ALLOW_UNLESS_DIRECT_CEILING_REACHED" ∷ []

abbrev pub within : Option ℕ → ℕ → Bool
within none reserve = true
within (some c) reserve = leb reserve c

-- `effective_limit`
abbrev pub limit_of : Option ℕ → ℕ → Option ℕ
limit_of none reserve = none
limit_of (some c) reserve = some (c - reserve)

abbrev pub reaches : ℕ → Option ℕ → Bool
reaches used none = false
reaches used (some limit) = leb limit used

abbrev pub exceeds : Option ℕ → ℕ → Bool
exceeds none used = false
exceeds (some n) used = ltb used n

abbrev pub closed : Common → BudgetState → Option ℕ → Option ℕ → TaskBudget
closed c state safe headroom = record {
  common = c;
  state = state;
  safe_remaining = safe;
  observed_headroom = headroom;
  budget_allows_new_task = false;
  automatic_new_task_creation = false;
  fail_closed = true;
}

abbrev pub open_window : Common → ℕ → TaskBudget
open_window c headroom = record {
  common = c;
  state = owner_policy_capacity_available_with_unknown_lifetime;
  safe_remaining = none;
  observed_headroom = some headroom;
  budget_allows_new_task = true;
  automatic_new_task_creation = false;
  fail_closed = false;
}

abbrev pub remaining : Common → ℕ → TaskBudget
remaining c n = record {
  common = c;
  state = if ltb 0 n then capacity_available else reserve_or_ceiling_reached;
  safe_remaining = some n;
  observed_headroom = some n;
  budget_allows_new_task = ltb 0 n;
  automatic_new_task_creation = false;
  fail_closed = leb n 0;
}

unfoldable pub judge_known : Common → ℕ → Option ℕ → Result TaskBudget
judge_known c limit none = raise value_error
judge_known c limit (some used) =
    if exceeds c.current_window used
    then ok (closed c task_budget_evidence_inconsistent none none)
    else ok (remaining c (limit - used))

unfoldable pub judge_window : Common → ℕ → Result TaskBudget
unfolding judge_known
judge_window c limit =
    if c.window_known
    then judge_known c limit c.proven_window_used
    else if c.policy == "DENY"
    then ok (closed c unknown_lifetime_consumption none (some (limit - c.observed_lower_bound)))
    else ok (open_window c (limit - c.observed_lower_bound))

abbrev pub zero_if_known : Bool → Option ℕ
zero_if_known b = if b then some 0 else none

unfoldable pub judge_limit : Common → Option ℕ → Result TaskBudget
unfolding judge_window
judge_limit c none = ok (closed c capacity_ceiling_unresolved none none)
judge_limit c (some limit) = judge_window c limit

-- The return statements, at what is common to them.
unfoldable pub judge : Common → Result TaskBudget
unfolding judge_limit
judge c =
    if c.direct_limit_reached
    then ok (
        closed c direct_ceiling_or_reserve_boundary_reached (zero_if_known c.window_known) (some 0))
    else judge_limit c (limit_of c.ceiling c.reserve)

module _ (rt : Runtime) (q : BudgetRequest) where
  unfoldable pub common_of : Option ℕ → ℕ → Option ℕ → Option ℕ → String → Common
  common_of ceiling reserve proven current policy =
      let observed = larger (or_else current 0) (or_else proven 0) in
      record {
        project = q.project;
        ceiling = ceiling;
        reserve = reserve;
        window_known =
            or_else (first_given q.quota_window_consumption_known q.lifetime_consumption_known)
              false;
        proven_window_used = proven;
        current_window = current;
        observed_lower_bound = observed;
        policy = policy;
        direct_limit_reached =
            q.hard_ceiling_reached || reaches observed (limit_of ceiling reserve);
      }

  unfoldable pub evaluate_task_budget : Result TaskBudget
  unfolding common_of judge
  evaluate_task_budget = do
    ceiling ← natural_if_given q.ceiling
    reserve ← natural q.reserve
    guard (within ceiling reserve) value_error
    current ←
        natural_if_given (first_given q.current_window_enumerated_tasks q.current_enumerated_tasks)
    proven ← natural_if_given (first_given q.proven_quota_window_used q.proven_lifetime_used)
    let policy = rt.upper (policy_text q.unknown_quota_window_policy q.unknown_lifetime_policy)
    guard (one_of policy policies) value_error
    judge (common_of ceiling reserve proven current policy)

pub data GateFailure : Type 0 where
  task_budget_not_proven_available parent_gate_required : GateFailure

pub record NewTaskGate : Type 0 where
  pub allowed : Bool
  pub automatic_creation : Bool
  pub safe_remaining : Option ℕ
  pub observed_headroom : Option ℕ
  pub budget_state : BudgetState
  pub failures : List GateFailure

abbrev failure_unless : Bool → GateFailure → List GateFailure → List GateFailure
failure_unless b f rest = if b then rest else f ∷ rest

-- `evaluate_new_task_gate`, of a budget and whether the parent gate is satisfied and automatic creation
-- authorized.
unfoldable pub evaluate_new_task_gate : TaskBudget → Bool → Bool → NewTaskGate
evaluate_new_task_gate budget parent_gate_satisfied automatic_creation_authorized =
    let allowed = budget.budget_allows_new_task && parent_gate_satisfied in
    record {
      allowed = allowed;
      automatic_creation = allowed && automatic_creation_authorized;
      safe_remaining = budget.safe_remaining;
      observed_headroom = budget.observed_headroom;
      budget_state = budget.state;
      failures =
          failure_unless budget.budget_allows_new_task task_budget_not_proven_available
            (failure_unless parent_gate_satisfied parent_gate_required []);
    }
