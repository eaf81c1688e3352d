-- ===== src/Accounting/Rounds.antt =====
-- ues/task_budget_accounting.py: the rounds of `record_confirmed_generation`.
use universal_execution_syst.Prelude.{
  ℕ, zero, suc, String, not, ◌||◌, Option, none, some, if◌then◌else◌, ◌==◌, nat_eq,
}
use universal_execution_syst.Prelude.Texts.{strip}
use universal_execution_syst.Prelude.Results.{
  Result, ok, raise, value_error, state_unavailable, state_version_conflict, guard, ◌>>=◌, ◌>>◌,
}
use universal_execution_syst.Prelude.Execs.{Exec, pure, lift, continue}
use universal_execution_syst.Json.{end}
use universal_execution_syst.Runtime.{Runtime}
use universal_execution_syst.StateStore.Model.{WorkstreamRuntimeRecord, StateRead, Status, when_ok}
use universal_execution_syst.StateStore.Persist.{
  make_workstream, workstream_to_dict, workstream_from_dict,
}
use universal_execution_syst.StateStore.Interface.{StateStore}
use universal_execution_syst.Identity.{Quoting, canonical_lane_id}
use universal_execution_syst.Accounting.{
  evidence_of, count_of, Confirmed, Accounted, idempotent_generation_already_accounted,
  budget_workstream, Round, new_record, counted_record, is_counted, judge_saved,
}

-- `WorkstreamRuntimeRecord.from_dict(read.record.to_dict())`
unfoldable pub copy_of : Runtime → WorkstreamRuntimeRecord → Result WorkstreamRuntimeRecord
unfolding workstream_to_dict workstream_from_dict
copy_of rt q = workstream_to_dict rt q >>= workstream_from_dict rt

module _ (rt : Runtime) (lane_id : String) (c : Confirmed) where
  abbrev pub stored_round : StateRead → Option WorkstreamRuntimeRecord → Result Round
  stored_round read none = raise state_unavailable
  stored_round read (some q) = copy_of rt q >>= λ r. ok (record {
    lane_record = r;
    expected = read.version;
    evidence = evidence_of r.evidence_bindings;
    version = read.version;
  })

  abbrev pub round_by : StateRead → Status → Result Round
  round_by read Status.missing = make_workstream rt (new_record lane_id c) >>= λ r.
      ok (record { lane_record = r; expected = 0; evidence = end; version = read.version })
  round_by read Status.corrupt = raise state_unavailable
  round_by read Status.ok = stored_round read read.record_read

  -- What a read gives to start from: a new record, or a copy of the stored one.
  unfoldable pub round_of : StateRead → Result Round
  unfolding make_workstream copy_of
  round_of read = round_by read read.status

  abbrev pub already : Round → Accounted
  already b = record {
    status = idempotent_generation_already_accounted;
    confirmed_generation_count = count_of b.evidence;
    version = b.version;
  }

  module _ {S : Type 0} (store : StateStore S) where
    -- After the write: a conflict is tried again while an attempt is left.
    abbrev pub after_write : ℕ → Exec S Accounted → Round → Result StateRead → Exec S Accounted
    after_write left again b (raise state_version_conflict) =
        if nat_eq left 0 then lift (raise state_version_conflict) else again
    after_write left again b (raise e) = lift (raise e)
    after_write left again b (ok saved) =
        lift
          (judge_saved (count_of b.evidence) saved.version (when_ok saved.status saved.record_read))

    abbrev pub write_count : ℕ → Exec S Accounted → Round → Exec S Accounted
    write_count left again b s =
        let m = store.compare_and_swap_workstream lane_id b.expected (counted_record c b) s in
        after_write left again b m.0 m.1

    -- The rounds of the loop, with the attempts that are left.
    unfoldable pub account_rounds : ℕ → Exec S Accounted
    unfolding round_of counted_record
    account_rounds zero s = (raise state_unavailable, s)
    account_rounds (suc left) s =
        let again = account_rounds left in
        continue (store.read_workstream lane_id s >>= round_of)
          (λ b. if is_counted c b.evidence then pure (already b) else write_count left again b) s

-- `range(3)`
abbrev pub attempts : ℕ
attempts = 3

module _ (rt : Runtime) (url : Quoting) {S : Type 0} (store : StateStore S) where
  unfoldable pub record_confirmed_generation : String → String → String → String → Exec S Accounted
  unfolding canonical_lane_id strip account_rounds
  record_confirmed_generation project route operation_key generation_transition_key s =
      let operation = strip operation_key in
      let transition = strip generation_transition_key in
      let c : Confirmed = record {
        project = project;
        route = route;
        operation_key = operation;
        transition_key = transition;
      } in
      continue
        (guard (not (operation == "" || transition == "")) value_error
          >> canonical_lane_id url (some project) (some route) (some budget_workstream))
        (λ lane_id. account_rounds rt lane_id c store attempts) s

  -- What `read_budget_accounting` reports: the count, and the status of the read.
  abbrev pub count_read : StateRead → ℕ × Status
  count_read read = elim (when_ok read.status read.record_read) [
    | none ↦ (0, read.status)
    | some q ↦ (count_of (evidence_of q.evidence_bindings), Status.ok)
  ]

  unfoldable pub read_budget_accounting : String → String → S → Result (ℕ × Status)
  unfolding canonical_lane_id
  read_budget_accounting project route s = do
    lane_id ← canonical_lane_id url (some project) (some route) (some budget_workstream)
    read ← store.read_workstream lane_id s
    ok (count_read read)
