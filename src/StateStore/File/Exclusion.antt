-- ===== src/StateStore/File/Exclusion.antt =====
-- A lease that has not run out keeps others from its lane (ues/state_store.py, `acquire_lease`, on the
-- file store).
use universal_execution_syst.Prelude.{
  ℕ, ◌<◌, String, ◌≡◌, refl, ap, Option, none, some, inl, inr, arith, Bool-cases, ◌==◌, leb,
}
use universal_execution_syst.Prelude.Lists.{lookup}
use universal_execution_syst.Prelude.Results.{
  Result, Error, ok, raise, value_error, lease_collision, ◌>>=◌,
}
use universal_execution_syst.Runtime.{Runtime}
use universal_execution_syst.Idempotency.Effect.{required_text}
use universal_execution_syst.StateStore.Model.{WorkstreamRuntimeRecord, Lease, StateRead}
use universal_execution_syst.StateStore.Persist.{workstream_from_dict}
use universal_execution_syst.StateStore.Document.{
  Entry, FileState, FileStore, absent, unreadable, document, decode, read_as, read_entry, read_file,
  read_workstream,
}
use universal_execution_syst.StateStore.File.{
  leasable, take_lease, acquire_lease, at_lane, finish_lease,
}

-- The lane's record has a lease that has not run out.
pub record Held (rt : Runtime) (lane : String) (now : ℕ) (s : FileStore) : Type 0 where
  pub read : StateRead
  pub runtime : WorkstreamRuntimeRecord
  pub lease : Lease
  pub found : read_workstream rt lane s ≡ ok read
  pub has : read.record_read ≡ some runtime
  pub leased : runtime.lease ≡ some lease
  pub unexpired : now < lease.expires_at

module _ (rt : Runtime) (r : WorkstreamRuntimeRecord) where
  leasable_as :
      (lane : String) (e : Entry WorkstreamRuntimeRecord) (m : Result WorkstreamRuntimeRecord)
      → decode (workstream_from_dict rt) e.raw ≡ m
      → (read_as lane e.version m).record_read ≡ some r
      → leasable rt lane (some e) ≡ ok (r, e.version)
  leasable_as lane e (raise x) d h = cc
  leasable_as lane e (ok q) d h = elim (Bool-cases (q.lane_id == lane)) [
    | inl same ↦ ground (arith, d, same, h)
    | inr other ↦ cc (rw other at h)
  ]

  leasable_entry :
      (lane : String) (o : Option (Entry WorkstreamRuntimeRecord))
      → (read_entry rt lane o).record_read ≡ some r
      → (v : ℕ) × (leasable rt lane o ≡ ok (r, v))
  unfolding read_entry
  leasable_entry lane none h = cc
  leasable_entry lane (some e) h = (e.version, leasable_as lane e _ refl h)

  module _ (l : Lease) (leased : r.lease ≡ some l) (now : ℕ) (unexpired : now < l.expires_at) where
    take_in :
        (lane owner op : String) (ttl : ℕ) (s : FileStore) (f : FileState)
        → s.file ≡ f
        → (read_file rt lane f).record_read ≡ some r
        → (e : Error) × (take_lease rt lane owner op ttl now s ≡ raise e)
    unfolding take_lease read_file
    take_in lane owner op ttl s absent e h = cc
    take_in lane owner op ttl s unreadable e h = cc
    take_in lane owner op ttl s (document d) e h =
        let (v, found) = leasable_entry lane (lookup lane d.workstreams) h in
        elim (Bool-cases (leb ttl 0)) [
          | inl none_left ↦ (value_error, ground (arith, none_left))
          | inr some_left ↦
              (lease_collision, ground (arith, e, found, leased, some_left, unexpired))
        ]

    acquire_as :
        (owner op : String) (ttl : ℕ) (s : FileStore) (m : Result String) (read : StateRead)
        → (m >>= λ lane. ok (read_file rt lane s.file)) ≡ ok read
        → read.record_read ≡ some r
        → (e : Error) × (at_lane rt m
              (λ lane s'. finish_lease rt s' (take_lease rt lane owner op ttl now s'))
              s
            ≡ (raise e, s))
    acquire_as owner op ttl s (raise x) read h has = cc
    acquire_as owner op ttl s (ok lane) read h has =
        let (x, raised) = take_in lane owner op ttl s s.file refl (cc (h, has)) in
        (x, ap (finish_lease rt s) raised)

-- While the lease has not run out, nobody can take another.
pub acquire-Held :
    (rt : Runtime) (lane owner op : String) (ttl now : ℕ) (s : FileStore)
    → Held rt lane now s
    → (e : Error) × (acquire_lease rt lane owner op ttl now s ≡ (raise e, s))
unfolding acquire_lease read_workstream
acquire-Held rt lane owner op ttl now s h =
    acquire_as rt h.runtime h.lease h.leased now h.unexpired owner op ttl s (required_text lane)
      h.read h.found h.has
