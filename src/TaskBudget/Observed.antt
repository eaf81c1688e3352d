-- ===== src/TaskBudget/Observed.antt =====
-- ues/task_budget.py: what the observed use of the window is, in terms of the arguments of
-- `evaluate_task_budget`.
use universal_execution_syst.Prelude.{
  ℕ, ◌≤◌, ◌≡◌, refl, ap, sym, ◌∙◌, ◌⊎◌, inl, inr, Option, none, some, or_else, leb, if_lem, arith,
}
use universal_execution_syst.Prelude.Results.{ok, ok_injective}
use universal_execution_syst.TaskBudget.{
  ℤ, pos, natural_if_given, first_given, larger, BudgetRequest,
}
use universal_execution_syst.TaskBudget.Sound.{natural_if_given_lem}

-- A use of the window that the request reports: the tasks that were enumerated and the use that is
-- proven, each under its name, and under the older name where the newer one is not given.
pub data Reports (q : BudgetRequest) (used : ℕ) : Type 0 where
  enumerated : q.current_window_enumerated_tasks ≡ some (pos used) → Reports q used
  enumerated_before :
      q.current_window_enumerated_tasks ≡ none
      → q.current_enumerated_tasks ≡ some (pos used)
      → Reports q used
  proven_used : q.proven_quota_window_used ≡ some (pos used) → Reports q used
  proven_before :
      q.proven_quota_window_used ≡ none → q.proven_lifetime_used ≡ some (pos used) → Reports q used

-- The largest of the reported uses, and 0 where none is reported.
pub record IsLargestReport (q : BudgetRequest) (n : ℕ) : Type 0 where
  pub largest : (used : ℕ) → Reports q used → used ≤ n
  pub reported : (n ≡ 0) ⊎ Reports q n

newer_read :
    (new old : Option ℤ) (used : ℕ) {read : Option ℕ}
    → natural_if_given (first_given new old) ≡ ok read
    → new ≡ some (pos used)
    → read ≡ some used
newer_read none old used h e = cc
newer_read (some z) old used h e = ok_injective (sym h ∙ ap natural_if_given e)

older_read :
    (new old : Option ℤ) (used : ℕ) {read : Option ℕ}
    → natural_if_given (first_given new old) ≡ ok read
    → new ≡ none
    → old ≡ some (pos used)
    → read ≡ some used
older_read none old used h e f = ok_injective (sym h ∙ ap natural_if_given f)
older_read (some z) old used h e f = cc

-- What was read was given under the newer name, or under the older one alone.
read_given :
    (new old : Option ℤ) {used : ℕ}
    → natural_if_given (first_given new old) ≡ ok (some used)
    → (new ≡ some (pos used)) ⊎ ((new ≡ none) × (old ≡ some (pos used)))
read_given none old h = inr (refl, natural_if_given_lem old h)
read_given (some z) old h = inl (natural_if_given_lem (some z) h)

module _ (q : BudgetRequest) (current proven : Option ℕ)
    (hc : natural_if_given
        (first_given q.current_window_enumerated_tasks q.current_enumerated_tasks)
      ≡ ok current)
    (hp : natural_if_given (first_given q.proven_quota_window_used q.proven_lifetime_used)
      ≡ ok proven) where
  current-Reports : (used : ℕ) → current ≡ some used → Reports q used
  current-Reports used e =
      elim (read_given q.current_window_enumerated_tasks q.current_enumerated_tasks
        (hc ∙ ap ok e)) [
          | inl now ↦ enumerated now
          | inr (absent, before) ↦ enumerated_before absent before
        ]

  proven-Reports : (used : ℕ) → proven ≡ some used → Reports q used
  proven-Reports used e =
      elim (read_given q.proven_quota_window_used q.proven_lifetime_used (hp ∙ ap ok e)) [
        | inl now ↦ proven_used now
        | inr (absent, before) ↦ proven_before absent before
      ]

  Reports-read : (used : ℕ) → Reports q used → (current ≡ some used) ⊎ (proven ≡ some used)
  Reports-read used (enumerated e) = inl (newer_read _ q.current_enumerated_tasks used hc e)
  Reports-read used (enumerated_before e f) =
      inl (older_read q.current_window_enumerated_tasks q.current_enumerated_tasks used hc e f)
  Reports-read used (proven_used e) = inr (newer_read _ q.proven_lifetime_used used hp e)
  Reports-read used (proven_before e f) =
      inr (older_read q.proven_quota_window_used q.proven_lifetime_used used hp e f)

  pub observed-IsLargestReport : IsLargestReport q (larger (or_else current 0) (or_else proven 0))
  observed-IsLargestReport = record {
    largest = λ used r. elim (Reports-read used r) [
      | inl e ↦ rw e (larger_left used (or_else proven 0))
      | inr e ↦ rw e (larger_right (or_else current 0) used)
    ];
    reported = chosen current proven current-Reports proven-Reports;
  }
    where
      larger_left : (m n : ℕ) → m ≤ larger m n
      larger_left m n = ground arith

      larger_right : (m n : ℕ) → n ≤ larger m n
      larger_right m n = ground arith

      chosen :
          (c p : Option ℕ)
          → ((used : ℕ) → c ≡ some used → Reports q used)
          → ((used : ℕ) → p ≡ some used → Reports q used)
          → (larger (or_else c 0) (or_else p 0) ≡ 0)
            ⊎ Reports q (larger (or_else c 0) (or_else p 0))
      chosen none none rc rp = inl refl
      chosen none (some n) rc rp =
          if_lem (λ k. (k ≡ 0) ⊎ Reports q k) (leb 0 n) n 0 (λ _. inr (rp n refl)) (λ _. inl refl)
      chosen (some m) none rc rp =
          if_lem (λ k. (k ≡ 0) ⊎ Reports q k) (leb m 0) 0 m (λ _. inl refl) (λ _. inr (rc m refl))
      chosen (some m) (some n) rc rp =
          if_lem (λ k. (k ≡ 0) ⊎ Reports q k) (leb m n) n m (λ _. inr (rp n refl))
            (λ _. inr (rc m refl))
