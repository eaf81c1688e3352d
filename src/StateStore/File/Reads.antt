-- ===== src/StateStore/File/Reads.antt =====
-- ues/state_store.py: what `DeterministicFileStateStore.compare_and_swap_workstream` returns is what is read
-- afterwards.
use universal_execution_syst.Prelude.{
  ℕ, ◌+◌, String, ◌≡◌, refl, ap, sym, ◌∙◌, Option, some, inl, inr, arith, ◌==◌, eq_refl, Bool-cases,
  nat_eq,
}
use universal_execution_syst.Prelude.Lists.{lookup, lookup-insert}
use universal_execution_syst.Prelude.Texts.{strip, strip-strip}
use universal_execution_syst.Prelude.Results.{
  Result, ok, raise, guard, >>=-eq-ok, ok_injective, value_error, state_version_conflict,
}
use universal_execution_syst.Runtime.{Runtime}
use universal_execution_syst.Idempotency.Effect.{required_text}
use universal_execution_syst.StateStore.Model.{WorkstreamRuntimeRecord, StateRead, when_ok}
use universal_execution_syst.StateStore.Persist.{workstream_to_dict, workstream_from_dict}
use universal_execution_syst.StateStore.Evidence.{written-evidence}
use universal_execution_syst.StateStore.Interface.{LaneLaws}
use universal_execution_syst.StateStore.Document.{
  Document, FileStore, dict, read_doc, actual_version, check_overwrite, write_workstream,
  read_workstream, read_file, read_entry, read_as,
}
use universal_execution_syst.StateStore.File.{
  swap_workstream, finish_workstream, at_lane, compare_and_swap_workstream, file_store,
}

required_text_fixed : (lane l : String) → required_text lane ≡ ok l → required_text l ≡ ok l
unfolding required_text
required_text_fixed lane l h = elim (Bool-cases (strip lane == "")) [
  | inl e ↦ cc (rw e at h)
  | inr e ↦ ground (arith, strip-strip lane)
]

module _ (rt : Runtime) where
  -- A write that returns: the stripped lane, the new state, and what was written.
  pub record Written (lane : String) (v : ℕ) (r : WorkstreamRuntimeRecord) (s : FileStore)
      (saved : StateRead) : Type 0 where
    pub key : String
    pub after : FileStore
    pub stripped : required_text lane ≡ ok key
    pub swapped : swap_workstream rt key v r s ≡ ok after
    pub state : (compare_and_swap_workstream rt lane v r s).1 ≡ after
    pub reads : read_workstream rt key after ≡ ok saved

  swap_parts :
      (lane : String) (v : ℕ) (r : WorkstreamRuntimeRecord) (s : FileStore) (saved : StateRead)
      (m : Result String) (n : Result FileStore)
      → (key : String) → m ≡ ok key
      → (finish_workstream rt key s n).0 ≡ ok saved
      → (after : FileStore) × (n ≡ ok after)
        × ((finish_workstream rt key s n).1 ≡ after)
        × (read_workstream rt key after ≡ ok saved)
  swap_parts lane v r s saved m (ok after) key e h = (after, refl, refl, h)
  swap_parts lane v r s saved m (raise x) key e h = cc

  returned-Written :
      (lane : String) (v : ℕ) (r : WorkstreamRuntimeRecord) (s : FileStore) (saved : StateRead)
      → (compare_and_swap_workstream rt lane v r s).0 ≡ ok saved
      → Written lane v r s saved
  unfolding compare_and_swap_workstream
  returned-Written lane v r s saved h = by_key (required_text lane) refl h
    where
      by_key :
          (m : Result String)
          → required_text lane ≡ m
          → (at_lane rt m (λ l t. finish_workstream rt l t (swap_workstream rt l v r t)) s).0
            ≡ ok saved
          → Written lane v r s saved
      by_key (raise e) is h = cc
      by_key (ok key) is h =
          let (after, swapped, state, reads) =
            swap_parts lane v r s saved (ok key) (swap_workstream rt key v r s) key refl h in
          record {
            key = key;
            after = after;
            stripped = is;
            swapped = swapped;
            state =
                ap
                  (λ m.
                    (at_lane rt m (λ l t. finish_workstream rt l t (swap_workstream rt l v r t))
                      s).1)
                  is
                ∙ state;
            reads = reads;
          }

  -- The write of a lane that does not raise.
  swap_written :
      (key : String) (v : ℕ) (r : WorkstreamRuntimeRecord) (s after : FileStore)
      → swap_workstream rt key v r s ≡ ok after
      → (raw : WorkstreamRuntimeRecord) × (version : ℕ) × (doc : Document) × (workstream_to_dict rt
            (record r { updated_at = some s.clock })
          ≡ ok raw)
        × (write_workstream key version raw doc s ≡ after)
  unfolding swap_workstream
  swap_written key v r s after h =
      let (t1, a1, h1) = >>=-eq-ok (guard (r.lane_id == key) value_error) _ h in
      let (doc, a2, h2) = >>=-eq-ok (read_doc s.file) _ h1 in
      let (t3, a3, h3) =
        >>=-eq-ok
          (guard (nat_eq (actual_version (lookup key doc.workstreams)) v) state_version_conflict) _
          h2 in
      let (t4, a4, h4) =
        >>=-eq-ok (check_overwrite (workstream_from_dict rt) (lookup key doc.workstreams)) _ h3 in
      let (raw, made, e) =
        >>=-eq-ok (workstream_to_dict rt (record r { updated_at = some s.clock })) _ h4 in
      (raw, actual_version (lookup key doc.workstreams) + 1, doc, made, ok_injective e)

  read-written :
      (key : String) (version : ℕ) (raw : WorkstreamRuntimeRecord) (doc : Document) (s : FileStore)
      → read_file rt key (write_workstream key version raw doc s).file
        ≡ read_as key version (workstream_from_dict rt raw)
  unfolding read_file read_entry write_workstream
  read-written key version raw doc s =
      rw
        (
          lookup-insert key key (record { version = version; raw = dict raw }) doc.workstreams,
          eq_refl key,
        )
        refl

  read_as-row :
      (key : String) (version : ℕ) (m : Result WorkstreamRuntimeRecord)
      (q : WorkstreamRuntimeRecord)
      → when_ok (read_as key version m).status (read_as key version m).record_read ≡ some q
      → m ≡ ok q
  read_as-row key version (raise e) q h = cc
  read_as-row key version (ok r) q h = elim (Bool-cases (r.lane_id == key)) [
    | inl e ↦ ap (λ x. ok x) (some_lem (rw e at h))
    | inr e ↦ cc (rw e at h)
  ]
    where
      some_lem : some r ≡ some q → r ≡ q
      some_lem e = cc

  abbrev row_of : StateRead → Option WorkstreamRuntimeRecord
  row_of saved = when_ok saved.status saved.record_read

  key-read :
      (key : String) (s : FileStore) (saved : StateRead)
      → required_text key ≡ ok key
      → read_workstream rt key s ≡ ok saved
      → read_file rt key s.file ≡ saved
  unfolding read_workstream
  key-read key s saved fixed h = ok_injective (rw fixed at h)

  lane-read :
      (lane key : String) (s : FileStore)
      → required_text lane ≡ ok key
      → read_workstream rt lane s ≡ ok (read_file rt key s.file)
  unfolding read_workstream
  lane-read lane key s e = rw e refl

  -- In the file store a write of a lane that returns has returned what is read of the lane afterwards, and
  -- the evidence in the record that is read is the evidence that was written, redacted.
  pub file_store-LaneLaws : LaneLaws rt (file_store rt)
  file_store-LaneLaws = record {
    read-cas = λ lane v r s saved h.
        let w = returned-Written lane v r s saved h in
        ap (λ t. read_workstream rt lane t) w.state
        ∙ (lane-read lane w.key w.after w.stripped
            ∙ ap (λ x. ok x)
                (key-read w.key w.after saved (required_text_fixed lane w.key w.stripped) w.reads));
    evidence-cas = λ lane v r q fs s saved h found bound.
        let w = returned-Written lane v r s saved h in
        let (raw, version, doc, made, left) = swap_written w.key v r s w.after w.swapped in
        let read =
          sym (key-read w.key w.after saved (required_text_fixed lane w.key w.stripped) w.reads)
          ∙ (ap (λ t. read_file rt w.key t.file) (sym left)
              ∙ read-written w.key version raw doc s) in
        written-evidence rt (record r { updated_at = some s.clock }) raw q fs made
          (read_as-row w.key version (workstream_from_dict rt raw) q (ap row_of (sym read) ∙ found))
          bound;
  }
