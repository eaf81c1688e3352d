-- ===== src/Accounting/Once.antt =====
-- ues/task_budget_accounting.py: a confirmed generation is counted at most once.
use universal_execution_syst.Prelude.{
  ℕ, zero, suc, ◌+◌, String, true, ◌≡◌, refl, ap, sym, ◌∙◌, ◌⊎◌, Option, some, arith, one_of,
  Bool-cases, Option-cases, inl, inr, if◌then◌else◌, nat_eq,
}
use universal_execution_syst.Prelude.Results.{
  ok_injective, Result, ok, raise, ◌>>=◌, >>=-eq-ok, value_error, state_unavailable,
  state_version_conflict, forgotten_lane_error, state_store_error, lease_collision,
}
use universal_execution_syst.Prelude.Execs.{Exec, continue, pure}
use universal_execution_syst.Json.{Fields, object}
use universal_execution_syst.Runtime.{Runtime}
use universal_execution_syst.Records.Sanitize.{sanitize_fields}
use universal_execution_syst.StateStore.Model.{WorkstreamRuntimeRecord, StateRead, Status, when_ok}
use universal_execution_syst.StateStore.Persist.{workstream_to_dict}
use universal_execution_syst.StateStore.Evidence.{written-evidence}
use universal_execution_syst.StateStore.Interface.{StateStore, LaneLaws}
use universal_execution_syst.Accounting.{
  seen, transitions, count_of, evidence_of, Confirmed, Accounted, generation_accounted,
  idempotent_generation_already_accounted, Round, counted, counted_record, is_counted, judge_saved,
}
use universal_execution_syst.Accounting.Rounds.{
  copy_of, stored_round, round_by, round_of, already, after_write, write_count, account_rounds,
}
use universal_execution_syst.Accounting.Evidence.{
  HasKeys, IsPlain, counted-HasKeys, sanitize-HasKeys, count-sanitize,
}

copy-evidence :
    (rt : Runtime) (q r : WorkstreamRuntimeRecord) (fs : Fields)
    → copy_of rt q ≡ ok r
    → q.evidence_bindings ≡ some (object fs)
    → r.evidence_bindings ≡ some (object (sanitize_fields rt fs))
unfolding copy_of
copy-evidence rt q r fs copied e =
    let (m, to_dict, from_dict) = >>=-eq-ok (workstream_to_dict rt q) _ copied in
    written-evidence rt q m r fs to_dict from_dict e

judged-count :
    (n version : ℕ) (q : WorkstreamRuntimeRecord) (a : Accounted)
    → judge_saved n version (some q) ≡ ok a
    → count_of (evidence_of q.evidence_bindings) ≡ a.confirmed_generation_count
judged-count n version q a h =
    elim (Bool-cases (nat_eq (count_of (evidence_of q.evidence_bindings)) (n + 1))) [
      | inl e ↦ ground arith
      | inr e ↦ cc (rw e at h)
    ]

-- A call that changes nothing and, where it returns, reports the count that was there.
abbrev pub Repeats : {S : Type 0} → ℕ → Exec S Accounted → S → Type 0
Repeats n m s =
    ((m s).1 ≡ s)
    × ((a : Accounted)
        → (m s).0 ≡ ok a
        → (a.status ≡ idempotent_generation_already_accounted) × (a.confirmed_generation_count ≡ n))

module _ {S : Type 0} (rt : Runtime) (store : StateStore S) (laws : LaneLaws rt store)
    (lane : String) where
  -- The lane's record in the store has both keys, and this count.
  pub record IsCounted (c : Confirmed) (n : ℕ) (s : S) : Type 0 where
    pub saved : StateRead
    pub row : WorkstreamRuntimeRecord
    pub fields : Fields
    pub reads : store.read_workstream lane s ≡ ok saved
    pub found : when_ok saved.status saved.record_read ≡ some row
    pub bound : row.evidence_bindings ≡ some (object fields)
    pub keys : HasKeys c fields
    pub count : count_of fields ≡ n

  -- One write that is judged a count.
  judged-IsCounted :
      (c : Confirmed) (b : Round) (s : S) (saved : StateRead) (a : Accounted)
      → IsPlain rt c
      → (store.compare_and_swap_workstream lane b.expected (counted_record c b) s).0 ≡ ok saved
      → judge_saved (count_of b.evidence) saved.version (when_ok saved.status saved.record_read)
        ≡ ok a
      → IsCounted c a.confirmed_generation_count
          (store.compare_and_swap_workstream lane b.expected (counted_record c b) s).1
  unfolding counted_record
  judged-IsCounted c b s saved a plain wrote judged =
      elim (Option-cases (when_ok saved.status saved.record_read)) [
        | inl e ↦ cc (rw e at judged)
        | inr (q, e) ↦
            let fs = counted c b.evidence in
            let bound =
              laws.evidence-cas lane b.expected (counted_record c b) q fs s saved wrote e refl in
            record {
              saved = saved;
              row = q;
              fields = sanitize_fields rt fs;
              reads = laws.read-cas lane b.expected (counted_record c b) s saved wrote;
              found = e;
              bound = bound;
              keys = sanitize-HasKeys rt c fs plain (counted-HasKeys rt c b.evidence plain);
              count =
                  sym (ap (λ o. count_of (evidence_of o)) bound)
                  ∙ judged-count (count_of b.evidence) saved.version q a (rw e at judged);
            }
      ]

  -- Where it counts, the lane's record has the keys afterwards.
  abbrev pub Counting : Confirmed → Exec S Accounted → Type 0
  Counting c m =
      (s : S) (a : Accounted)
      → (m s).0 ≡ ok a
      → a.status ≡ generation_accounted
      → IsCounted c a.confirmed_generation_count (m s).1

  module _ (c : Confirmed) (plain : IsPlain rt c) (left : ℕ) (again : Exec S Accounted)
      (b : Round) where
    conflict-Counting :
        Counting c again
        → (s : S) (a : Accounted)
        → (after_write rt lane c store left again b (raise state_version_conflict) s).0 ≡ ok a
        → a.status ≡ generation_accounted
        → IsCounted c a.confirmed_generation_count
            (after_write rt lane c store left again b (raise state_version_conflict) s).1
    conflict-Counting h s a returned counts = elim (Bool-cases (nat_eq left 0)) [
      | inl e ↦ cc (rw e at returned)
      | inr e ↦ rw e (h s a (rw e at returned) counts)
    ]

    after_write-Counting :
        Counting c again
        → (s : S) (r : Result StateRead)
        → (store.compare_and_swap_workstream lane b.expected (counted_record c b) s).0 ≡ r
        → (a : Accounted)
        → (after_write rt lane c store left again b r
            (store.compare_and_swap_workstream lane b.expected (counted_record c b) s).1).0
          ≡ ok a
        → a.status ≡ generation_accounted
        → IsCounted c a.confirmed_generation_count
            (after_write rt lane c store left again b r
              (store.compare_and_swap_workstream lane b.expected (counted_record c b) s).1).1
    after_write-Counting h s (ok saved) wrote a returned counts =
        judged-IsCounted c b s saved a plain wrote returned
    after_write-Counting h s (raise state_version_conflict) wrote a returned counts =
        conflict-Counting h _ a returned counts
    after_write-Counting h s (raise value_error) wrote a returned counts = cc
    after_write-Counting h s (raise forgotten_lane_error) wrote a returned counts = cc
    after_write-Counting h s (raise state_store_error) wrote a returned counts = cc
    after_write-Counting h s (raise state_unavailable) wrote a returned counts = cc
    after_write-Counting h s (raise lease_collision) wrote a returned counts = cc

  abbrev round_body : Confirmed → ℕ → Exec S Accounted → Round → Exec S Accounted
  round_body c left again b =
      if is_counted c b.evidence
      then pure (already rt lane c b)
      else write_count rt lane c store left again b

  body-Counting :
      (c : Confirmed) (left : ℕ) (again : Exec S Accounted) (b : Round)
      → IsPlain rt c
      → Counting c again
      → Counting c (round_body c left again b)
  body-Counting c left again b plain h s a returned counts =
      elim (Bool-cases (is_counted c b.evidence)) [
        | inl e ↦ cc (rw e at returned)
        | inr e ↦
            rw e (after_write-Counting c plain left again b h s _ refl a (rw e at returned) counts)
      ]

  start-Counting :
      (c : Confirmed) (left : ℕ) (again : Exec S Accounted) (m : Result Round) (s : S)
      (a : Accounted)
      → IsPlain rt c
      → Counting c again
      → (continue m (round_body c left again) s).0 ≡ ok a
      → a.status ≡ generation_accounted
      → IsCounted c a.confirmed_generation_count (continue m (round_body c left again) s).1
  start-Counting c left again (raise e) s a plain h returned counts = cc
  start-Counting c left again (ok b) s a plain h returned counts =
      body-Counting c left again b plain h s a returned counts

  -- The rounds of a call that counts.
  pub rounds-Counting :
      (c : Confirmed) (left : ℕ) → IsPlain rt c → Counting c (account_rounds rt lane c store left)
  unfolding account_rounds
  rounds-Counting c zero plain s a h counts = cc
  rounds-Counting c (suc left) plain s a h counts =
      start-Counting c left (account_rounds rt lane c store left) _ s a plain
        (rounds-Counting c left plain) h counts

  start-Repeats :
      (d : Confirmed) (n left : ℕ) (again : Exec S Accounted) (m : Result Round) (s : S)
      → ((b : Round) → m ≡ ok b → (is_counted d b.evidence ≡ true) × (count_of b.evidence ≡ n))
      → Repeats n (continue m (round_body d left again)) s
  start-Repeats d n left again (raise e) s h = (refl, λ a returned. cc)
  start-Repeats d n left again (ok b) s h =
      let (counted_before, same) = h b refl in
      rw counted_before (
        refl,
        λ a returned. (
          ap (λ x. x.status) (sym (ok_injective returned)),
          ap (λ x. x.confirmed_generation_count) (sym (ok_injective returned)) ∙ same,
        ),
      )

  kept_keys :
      (c d : Confirmed) (fs : Fields)
      → (c.operation_key ≡ d.operation_key) ⊎ (c.transition_key ≡ d.transition_key)
      → HasKeys c fs
      → is_counted d fs ≡ true
  kept_keys c d fs (inl e) h = ground (arith, h.operation, ap (λ k. one_of k (seen fs)) e)
  kept_keys c d fs (inr e) h = ground (arith, h.transition, ap (λ k. one_of k (transitions fs)) e)

  row-evidence :
      (d : Confirmed) (saved : StateRead) (q : WorkstreamRuntimeRecord) (fs : Fields) (b : Round)
      → q.evidence_bindings ≡ some (object fs)
      → stored_round rt lane d saved (some q) ≡ ok b
      → b.evidence ≡ sanitize_fields rt fs
  row-evidence d saved q fs b bound from_row =
      let (r, copied, made) = >>=-eq-ok (copy_of rt q) _ from_row in
      sym (ap (λ x. x.evidence) (ok_injective made))
      ∙ ap evidence_of (copy-evidence rt q r fs copied bound)

  status_ok :
      (status : Status) (row : Option WorkstreamRuntimeRecord) (q : WorkstreamRuntimeRecord)
      → when_ok status row ≡ some q
      → (status ≡ Status.ok) × (row ≡ some q)
  status_ok Status.ok row q h = (refl, h)
  status_ok Status.missing row q h = cc
  status_ok Status.corrupt row q h = cc

  stored-evidence :
      (d : Confirmed) (saved : StateRead) (q : WorkstreamRuntimeRecord) (fs : Fields) (b : Round)
      → when_ok saved.status saved.record_read ≡ some q
      → q.evidence_bindings ≡ some (object fs)
      → round_of rt lane d saved ≡ ok b
      → b.evidence ≡ sanitize_fields rt fs
  unfolding round_of
  stored-evidence d saved q fs b found bound started =
      let (fine, row) = status_ok saved.status saved.record_read q found in
      row-evidence d saved q fs b bound (
        ap (stored_round rt lane d saved) (sym row)
        ∙ (ap (round_by rt lane d saved) (sym fine) ∙ started))

  -- What is in the lane's record is not counted again.
  pub repeat-IsCounted :
      (c d : Confirmed) (n left : ℕ) (s : S)
      → (c.operation_key ≡ d.operation_key) ⊎ (c.transition_key ≡ d.transition_key)
      → IsPlain rt c
      → IsCounted c n s
      → Repeats n (account_rounds rt lane d store (suc left)) s
  unfolding account_rounds
  repeat-IsCounted c d n left s same plain h =
      start-Repeats d n left (account_rounds rt lane d store left) _ s again
    where
      again :
          (b : Round)
          → store.read_workstream lane s >>= round_of rt lane d ≡ ok b
          → (is_counted d b.evidence ≡ true) × (count_of b.evidence ≡ n)
      again b started =
          let (read, reads, from_read) = >>=-eq-ok (store.read_workstream lane s) _ started in
          let e =
            stored-evidence d h.saved h.row h.fields b h.found h.bound
              (ap (round_of rt lane d) (ok_injective (sym h.reads ∙ reads)) ∙ from_read) in
          (
            ap (is_counted d) e
                ∙ kept_keys c d _ same (sanitize-HasKeys rt c h.fields plain h.keys),
            ap count_of e ∙ (count-sanitize rt h.fields ∙ h.count),
          )
