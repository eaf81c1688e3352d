-- ===== src/StateStore/File/Lanes.antt =====
-- What the lane's methods of the file store leave as it is: whatever a write of a lane and the taking of
-- a lease do not change.
use universal_execution_syst.Prelude.{
  ℕ, String, ◌≡◌, refl, inl, inr, Option, none, some, ◌==◌, Bool-cases,
}
use universal_execution_syst.Prelude.Results.{Result, ok, raise}
use universal_execution_syst.Prelude.Execs.{Exec}
use universal_execution_syst.Runtime.{Runtime}
use universal_execution_syst.Idempotency.Effect.{required_text}
use universal_execution_syst.StateStore.Model.{
  WorkstreamRuntimeRecord, Lease, LeaseAcquireResult, StateRead,
}
use universal_execution_syst.StateStore.Document.{FileStore}
use universal_execution_syst.StateStore.File.{
  swap_workstream, compare_and_swap_workstream, take_lease, acquire_lease, release_lease,
  finish_workstream, finish_lease, at_lane, give_back_lease, give_back, release_after,
}

-- What both of them keep.
pub record LanesKeep {X : Type 0} (rt : Runtime) (see : FileStore → X) : Type 0 where
  pub swap_keeps :
      (lane : String) (v : ℕ) (r : WorkstreamRuntimeRecord) (s s' : FileStore)
      → swap_workstream rt lane v r s ≡ ok s'
      → see s' ≡ see s
  pub take_keeps :
      (lane owner op : String) (ttl now : ℕ) (s s' : FileStore) (l : LeaseAcquireResult)
      → take_lease rt lane owner op ttl now s ≡ ok (l, s')
      → see s' ≡ see s

module _ {X : Type 0} (rt : Runtime) (see : FileStore → X) (keep : LanesKeep rt see) where
  finish_keeps :
      (lane : String) (s : FileStore) (m : Result FileStore)
      → ((s' : FileStore) → m ≡ ok s' → see s' ≡ see s)
      → see (finish_workstream rt lane s m).1 ≡ see s
  finish_keeps lane s (ok s') h = h s' refl
  finish_keeps lane s (raise e) h = refl

  at_lane_keeps :
      {A : Type 0} (m : Result String) (f : String → Exec FileStore A) (s : FileStore)
      → ((l : String) → see (f l s).1 ≡ see s)
      → see (at_lane rt m f s).1 ≡ see s
  at_lane_keeps (ok l) f s h = h l
  at_lane_keeps (raise e) f s h = refl

  pub cas_workstream_keeps :
      (lane : String) (v : ℕ) (r : WorkstreamRuntimeRecord) (s : FileStore)
      → see (compare_and_swap_workstream rt lane v r s).1 ≡ see s
  unfolding compare_and_swap_workstream
  cas_workstream_keeps lane v r s =
      at_lane_keeps (required_text lane) _ s
        (λ l. finish_keeps l s _ (λ s' e. keep.swap_keeps l v r s s' e))

  finish_lease_keeps :
      (s : FileStore) (m : Result (LeaseAcquireResult × FileStore))
      → ((l : LeaseAcquireResult) (s' : FileStore) → m ≡ ok (l, s') → see s' ≡ see s)
      → see (finish_lease rt s m).1 ≡ see s
  finish_lease_keeps s (ok (l, s')) h = h l s' refl
  finish_lease_keeps s (raise e) h = refl

  pub acquire_keeps :
      (lane owner op : String) (ttl now : ℕ) (s : FileStore)
      → see (acquire_lease rt lane owner op ttl now s).1 ≡ see s
  unfolding acquire_lease
  acquire_keeps lane owner op ttl now s =
      at_lane_keeps (required_text lane) _ s
        (λ l. finish_lease_keeps s _ (λ a s' e. keep.take_keeps l owner op ttl now s s' a e))

  give_back_lease_keeps :
      (lane : String) (read : StateRead) (now : ℕ) (r : WorkstreamRuntimeRecord) (l : Option Lease)
      (id : String) (s : FileStore)
      → see (give_back_lease rt lane read now r l id s).1 ≡ see s
  give_back_lease_keeps lane read now r none id s = refl
  give_back_lease_keeps lane read now r (some l) id s = elim (Bool-cases (l.lease_id == id)) [
    | inl e ↦ rw e (cas_workstream_keeps lane read.version _ s)
    | inr e ↦ rw e
  ]

  give_back_keeps :
      (lane : String) (read : StateRead) (now : ℕ) (o : Option WorkstreamRuntimeRecord)
      (id : String) (s : FileStore)
      → see (give_back rt lane read now o id s).1 ≡ see s
  give_back_keeps lane read now none id s = refl
  give_back_keeps lane read now (some r) id s = give_back_lease_keeps lane read now r r.lease id s

  release_after_keeps :
      (lane id : String) (now : ℕ) (m : Result StateRead) (s : FileStore)
      → see (release_after rt lane id now m s).1 ≡ see s
  release_after_keeps lane id now (ok read) s = give_back_keeps lane read now _ id s
  release_after_keeps lane id now (raise e) s = refl

  pub release_keeps :
      (lane id : String) (now : ℕ) (s : FileStore) → see (release_lease rt lane id now s).1 ≡ see s
  unfolding release_lease
  release_keeps lane id now s = release_after_keeps lane id now _ s
