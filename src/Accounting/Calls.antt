-- ===== src/Accounting/Calls.antt =====
-- ues/task_budget_accounting.py: two calls of `record_confirmed_generation`.
use universal_execution_syst.Prelude.{
  String, false, not, ◌||◌, ◌≡◌, refl, sym, ◌∙◌, subst, ◌⊎◌, some, arith, ◌==◌,
}
use universal_execution_syst.Prelude.Texts.{strip}
use universal_execution_syst.Prelude.Results.{
  ok_injective, Result, ok, raise, value_error, guard, ◌>>◌,
}
use universal_execution_syst.Prelude.Execs.{Exec, continue}
use universal_execution_syst.Records.Patterns.{sanitize_string}
use universal_execution_syst.Runtime.{Runtime}
use universal_execution_syst.Identity.{Quoting, canonical_lane_id}
use universal_execution_syst.StateStore.Interface.{StateStore, LaneLaws}
use universal_execution_syst.Accounting.{
  Confirmed, Accounted, generation_accounted, budget_workstream,
}
use universal_execution_syst.Accounting.Rounds.{
  account_rounds, attempts, record_confirmed_generation,
}
use universal_execution_syst.Accounting.Evidence.{IsPlain}
use universal_execution_syst.Accounting.Once.{IsCounted, Repeats, repeat-IsCounted, rounds-Counting}

module _ {S : Type 0} (rt : Runtime) (url : Quoting) (store : StateStore S)
    (laws : LaneLaws rt store) where
  call : String → String → String → String → Exec S Accounted
  call = record_confirmed_generation rt url store

  abbrev confirmed_as : String → String → String → String → Confirmed
  confirmed_as project route op transition = record {
    project = project;
    route = route;
    operation_key = strip op;
    transition_key = strip transition;
  }

  -- The checks before the rounds.
  abbrev checks : String → String → String → String → Result String
  checks project route op transition =
      guard (not (strip op == "" || strip transition == "")) value_error
      >> canonical_lane_id url (some project) (some route) (some budget_workstream)

  passed :
      (project route op transition lane : String)
      → checks project route op transition ≡ ok lane
      → ((strip op == "") ≡ false)
        × ((strip transition == "") ≡ false)
        × (canonical_lane_id url (some project) (some route) (some budget_workstream) ≡ ok lane)
  passed project route op transition lane h = ground arith

  -- If a call of `record_confirmed_generation` counts a generation, then a second call on the same
  -- project and route with the same operation key or the same transition key leaves the store as it is,
  -- and reports, where it returns, that the generation was counted already, with the same count. The
  -- redaction must leave the two keys of the first call as they are, and the store must keep LaneLaws.
  pub counted_once :
      (project route op transition op' transition' : String) (s : S) (a : Accounted)
      → (strip op ≡ strip op') ⊎ (strip transition ≡ strip transition')
      → sanitize_string rt (strip op) ≡ strip op
      → sanitize_string rt (strip transition) ≡ strip transition
      → (record_confirmed_generation rt url store project route op transition s).0 ≡ ok a
      → a.status ≡ generation_accounted
      → Repeats a.confirmed_generation_count
          (record_confirmed_generation rt url store project route op' transition')
          (record_confirmed_generation rt url store project route op transition s).1
  unfolding record_confirmed_generation
  counted_once project route op transition op' transition' s a same op_kept tr_kept returned
        counts =
      after_checks (checks project route op transition) refl returned
    where
      c : Confirmed
      c = confirmed_as project route op transition

      d : Confirmed
      d = confirmed_as project route op' transition'

      second :
          (lane : String) (m : Result String) (t : S)
          → (m ≡ checks project route op' transition')
          → checks project route op transition ≡ ok lane
          → IsCounted rt store laws lane c a.confirmed_generation_count t
          → IsPlain rt c
          → Repeats a.confirmed_generation_count
              (continue m (λ l. account_rounds rt l d store attempts))
              t
      second lane (raise e) t is h counted plain = (refl, λ a returned. cc)
      second lane (ok l) t is h counted plain =
          let (of, tf, made) = passed project route op transition lane h in
          let (of', tf', made') = passed project route op' transition' l (sym is) in
          subst (λ k. Repeats a.confirmed_generation_count (account_rounds rt k d store attempts) t)
            (ok_injective (sym made ∙ made'))
            (repeat-IsCounted rt store laws lane c d a.confirmed_generation_count 2 t same plain
              counted)

      after_checks :
          (m : Result String)
          → m ≡ checks project route op transition
          → (continue m (λ l. account_rounds rt l c store attempts) s).0 ≡ ok a
          → Repeats a.confirmed_generation_count
              (record_confirmed_generation rt url store project route op' transition')
              (continue m (λ l. account_rounds rt l c store attempts) s).1
      after_checks (raise e) is h = cc
      after_checks (ok lane) is h =
          let (op_filled, tr_filled, made) = passed project route op transition lane (sym is) in
          let plain : IsPlain rt c = record {
            operation_filled = op_filled;
            transition_filled = tr_filled;
            operation_kept = op_kept;
            transition_kept = tr_kept;
          } in
          second lane (checks project route op' transition') _ refl (sym is)
            (rounds-Counting rt store laws lane c attempts plain s a h counts) plain
