-- ===== src/StateStore/Claim/Exclusion.antt =====
-- A lease that has not run out keeps every claim off its lane (ues/state_store.py, `claim_operation`, on
-- the file store).
use universal_execution_syst.Prelude.{◌≡◌, refl, false, inl, inr, Bool-cases}
use universal_execution_syst.Prelude.Results.{Error, raise}
use universal_execution_syst.Runtime.{Runtime}
use universal_execution_syst.Idempotency.Effect.{EffectIdentity}
use universal_execution_syst.StateStore.Model.{WorkstreamRuntimeRecord, OperationRead}
use universal_execution_syst.StateStore.Document.{FileStore}
use universal_execution_syst.StateStore.File.{file_store}
use universal_execution_syst.StateStore.File.Exclusion.{Held, acquire-Held}
use universal_execution_syst.StateStore.Authority.{Authority}
use universal_execution_syst.StateStore.Gate
use universal_execution_syst.StateStore.Gate.{ClaimRequest, refused, open_to}
use universal_execution_syst.StateStore.Claim
use universal_execution_syst.StateStore.Claim.{claim_operation}
use universal_execution_syst.StateStore.Claim.Refused.{is_allowed}

module _ (rt : Runtime) (q : ClaimRequest) (s : FileStore) where
  not_leased :
      (r : WorkstreamRuntimeRecord) (e : EffectIdentity) (a : Authority) (o : OperationRead)
      (x : Error)
      → (is_allowed (Claim.leased_as rt (file_store rt) q r e a o (raise x) s).0 ≡ false)
        × ((Claim.leased_as rt (file_store rt) q r e a o (raise x) s).1 ≡ s)
  unfolding Claim.leased_as
  not_leased r e a o x = elim (Bool-cases (Claim.is_lease_error x)) [
    | inl lease_error ↦ rw lease_error (refl, refl)
    | inr other ↦ rw other (refl, refl)
  ]

  proceed-Held :
      (g : Gate.Gate)
      → Held rt q.lane_id q.now s
      → (is_allowed (Claim.proceed rt (file_store rt) q g s).0 ≡ false)
        × ((Claim.proceed rt (file_store rt) q g s).1 ≡ s)
  unfolding Claim.proceed
  proceed-Held (refused d) h = (refl, refl)
  proceed-Held (open_to r e a o) h =
      let (x, failed) = acquire-Held rt q.lane_id q.owner q.operation_key q.ttl_seconds q.now s h in
      rw failed (not_leased r e a o x)

-- On the file store, while the lane's record has a lease that has not run out at the time of the claim,
-- a claim on the lane, whatever its owner, operation, effect and authority, is not allowed and
-- leaves the store as it is.
pub Held-lane_refuses :
    (rt : Runtime) (q : ClaimRequest) (s : FileStore)
    → Held rt q.lane_id q.now s
    → (is_allowed (claim_operation rt (file_store rt) q s).0 ≡ false)
      × ((claim_operation rt (file_store rt) q s).1 ≡ s)
unfolding claim_operation Claim.claim_after
Held-lane_refuses rt q s h = rw (h.found) (proceed-Held rt q s _ h)
