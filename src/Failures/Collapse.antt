-- ===== src/Failures/Collapse.antt =====
-- ues/failures.py: `collapse_failure_cascade`. The indices of the failures, which the code keeps to tell equal
-- failures apart, are not needed: whether a failure is shared is told by its root.
use universal_execution_syst.Prelude.{
  ℕ, String, Bool, false, not, Option, none, some, List, [], ◌∷◌, leb, map,
}
use universal_execution_syst.Prelude.Lists.{select, length}
use universal_execution_syst.Transaction.Sets.{sorted_set}
use universal_execution_syst.Failures.{RootedFailure, root_identity, lane_identity, rooted_in}

pub record SharedBlocker : Type 0 where
  pub incident_id : String
  pub failure_count : ℕ
  pub affected_lanes : List String

pub record Cascade : Type 0 where
  pub shared_blockers : List SharedBlocker
  pub unshared_failures : List RootedFailure
  pub correction_task_count : ℕ
  pub duplicate_corrections : Bool

abbrev pub cons_given : Option String → List String → List String
cons_given none xs = xs
cons_given (some x) xs = x ∷ xs

-- The keys of `by_root`, and the lanes of the failures of one root.
unfoldable pub roots_of : List RootedFailure → List String
unfolding root_identity
roots_of [] = []
roots_of (f ∷ fs) = cons_given (root_identity f) (roots_of fs)

unfoldable pub lanes_of : List RootedFailure → List String
unfolding lane_identity
lanes_of [] = []
lanes_of (f ∷ fs) = cons_given (lane_identity f) (lanes_of fs)

abbrev pub count : String → List RootedFailure → ℕ
count root failures = length (rooted_in root failures)

abbrev pub is_shared_root : List RootedFailure → String → Bool
is_shared_root failures root = leb 2 (count root failures)

abbrev pub is_shared : List RootedFailure → Option String → Bool
is_shared failures none = false
is_shared failures (some root) = is_shared_root failures root

-- `sorted(shared_ids)`
unfoldable pub shared_ids : List RootedFailure → List String
unfolding roots_of sorted_set rooted_in
shared_ids failures = sorted_set (select (is_shared_root failures) (roots_of failures))

unfoldable pub blocker_of : List RootedFailure → String → SharedBlocker
unfolding lanes_of sorted_set rooted_in
blocker_of failures root = record {
  incident_id = root;
  failure_count = count root failures;
  affected_lanes = sorted_set (lanes_of (rooted_in root failures));
}

unfoldable pub collapse_failure_cascade : List RootedFailure → Cascade
unfolding shared_ids blocker_of root_identity
collapse_failure_cascade failures = record {
  shared_blockers = map (blocker_of failures) (shared_ids failures);
  unshared_failures = select (λ f. not (is_shared failures (root_identity f))) failures;
  correction_task_count = 0;
  duplicate_corrections = false;
}
