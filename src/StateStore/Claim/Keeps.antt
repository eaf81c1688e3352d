-- ===== src/StateStore/Claim/Keeps.antt =====
-- What a claim leaves of an operation's record: rules for the steps of `claim_operation`, for a
-- store that keeps the laws of operation records.
use universal_execution_syst.Prelude.{
  ℕ, String, ◌≡◌, ◌≢◌, refl, ◌∙◌, Bool, true, false, if◌then◌else◌, none, some, Option, ◌⊎◌,
}
use universal_execution_syst.Prelude.Results.{Result, ok, raise}
use universal_execution_syst.Prelude.Execs
use universal_execution_syst.Prelude.Execs.{Exec, pure, gets, lift, attempt, ◌>>=◌}
use universal_execution_syst.Json.{Json}
use universal_execution_syst.Runtime.{Runtime}
use universal_execution_syst.Idempotency.Effect.{EffectIdentity}
use universal_execution_syst.StateStore.Model.{
  ActivationMode, shadow, canary, active_auto_safe, OperationRecord, OperationRead, StateRead,
  LeaseAcquireResult, Status, WorkstreamRuntimeRecord, reconciled_not_observed,
}
use universal_execution_syst.StateStore.Interface.{StateStore, OperationLaws}
use universal_execution_syst.StateStore.Authority.{Authority}
use universal_execution_syst.StateStore.Gate.{ClaimRequest, ClaimDecision, Gate, refused, open_to}
use universal_execution_syst.StateStore.Claim

-- A key whose record stops every claim: it is corrupt, or of this key and in another state than
-- RECONCILED_NOT_OBSERVED.
abbrev pub Blocked : String → OperationRead → Type 0
Blocked k o =
    (o.status ≡ Status.corrupt)
    ⊎ ((r : OperationRecord) × (o.status ≡ Status.ok)
        × (o.record_read ≡ some r)
        × (r.operation_key ≡ k)
        × (r.state ≢ reconciled_not_observed))

-- `m` leaves the read of the key `k` as it is, whether it returns or raises.
pub record Leaves {S A : Type 0} (store : StateStore S) (k : String) (m : Exec S A) : Type 0 where
  pub at : (s : S) → store.read_operation k (m s).1 ≡ store.read_operation k s

module _ {S : Type 0} {store : StateStore S} {k : String} where
  pub Leaves-pure : {A : Type 0} (a : A) → Leaves store k (pure a)
  Leaves-pure a = record { at = λ s. refl }

  pub Leaves-lift : {A : Type 0} (r : Result A) → Leaves store k (lift r)
  Leaves-lift r = record { at = λ s. refl }

  pub Leaves-gets : {A : Type 0} (f : S → Result A) → Leaves store k (gets f)
  Leaves-gets f = record { at = λ s. refl }

  pub Leaves-attempt : {A : Type 0} (m : Exec S A) → Leaves store k m → Leaves store k (attempt m)
  Leaves-attempt m h = record { at = h.at }

  pub Leaves-if :
      {A : Type 0} (b : Bool) (m n : Exec S A)
      → Leaves store k m
      → Leaves store k n
      → Leaves store k (if b then m else n)
  Leaves-if true m n h g = h
  Leaves-if false m n h g = g

  pub Leaves-continue :
      {A B : Type 0} (r : Result A) (f : A → Exec S B)
      → ((a : A) → Leaves store k (f a))
      → Leaves store k (Execs.continue r f)
  Leaves-continue (ok a) f h = h a
  Leaves-continue (raise e) f h = record { at = λ s. refl }

  pub Leaves-bind :
      {A B : Type 0} (m : Exec S A) (f : A → Exec S B)
      → Leaves store k m
      → ((a : A) → Leaves store k (f a))
      → Leaves store k (m >>= f)
  Leaves-bind m f h g = record { at = λ s. (Leaves-continue (m s).0 f g).at (m s).1 ∙ h.at s }

pub ruleset pure_rules =
    (Leaves-pure, Leaves-lift, Leaves-gets, Leaves-attempt, Leaves-if, Leaves-bind)

module _ {S : Type 0} (store : StateStore S) (laws : OperationLaws store) (k : String) where
  pub Leaves-cas_workstream :
      (lane : String) (v : ℕ) (r : WorkstreamRuntimeRecord)
      → Leaves store k (store.compare_and_swap_workstream lane v r)
  Leaves-cas_workstream lane v r = record { at = λ s. laws.read-cas_workstream k lane v r s }

  Leaves-acquire :
      (lane owner op : String) (ttl now : ℕ)
      → Leaves store k (store.acquire_lease lane owner op ttl now)
  Leaves-acquire lane owner op ttl now = record {
    at = λ s. laws.read-acquire k lane owner op ttl now s;
  }

  Leaves-release : (lane id : String) (now : ℕ) → Leaves store k (store.release_lease lane id now)
  Leaves-release lane id now = record { at = λ s. laws.read-release k lane id now s }

  pub Leaves-cas_operation :
      (j : String) (v : ℕ) (r : OperationRecord)
      → j ≢ k
      → Leaves store k (store.compare_and_swap_operation j v r)
  Leaves-cas_operation j v r ne = record { at = λ s. laws.read-cas_ne k j v r s ne }

  consume_read-Leaves :
      (lane id : String) (effect : EffectIdentity) (key event : String) (now v : ℕ)
      (o : Option WorkstreamRuntimeRecord)
      → Leaves store k (Claim.consume_read store lane id effect key event now v o)
  unfolding Claim.consume_read
  consume_read-Leaves lane id effect key event now v none = search pure_rules
  consume_read-Leaves lane id effect key event now v (some r) =
      search (pure_rules, Leaves-cas_workstream)

  pub consume-Leaves :
      (lane id : String) (effect : EffectIdentity) (key event : String) (now : ℕ)
      → Leaves store k (Claim.consume_canary store lane id effect key event now)
  unfolding Claim.consume_canary
  consume-Leaves lane id effect key event now = search (pure_rules, consume_read-Leaves)

  module _ (rt : Runtime) (q : ClaimRequest) where
    released-Leaves :
        (d : ClaimDecision) (m : Result StateRead) → Leaves store k (Claim.released rt store q d m)
    unfolding Claim.released
    released-Leaves d (ok r) = search pure_rules
    released-Leaves d (raise e) = search pure_rules

    pub give_up-Leaves :
        (id : String) (d : ClaimDecision) → Leaves store k (Claim.give_up rt store q id d)
    unfolding Claim.give_up
    give_up-Leaves id d = search (pure_rules, Leaves-release, released-Leaves)

    noted-Leaves :
        (l : LeaseAcquireResult) (a : Authority) (o : OperationRead) (m : Result StateRead)
        → Leaves store k (Claim.noted rt store q l a o m)
    unfolding Claim.noted
    noted-Leaves l a o (ok r) = search pure_rules
    noted-Leaves l a o (raise e) = search pure_rules

    note_on-Leaves :
        (l : LeaseAcquireResult) (a : Authority) (o : OperationRead) (receipt : Json) (v : ℕ)
        (r : Option WorkstreamRuntimeRecord)
        → Leaves store k (Claim.note_on rt store q l a o receipt v r)
    unfolding Claim.note_on
    note_on-Leaves l a o receipt v none = search pure_rules
    note_on-Leaves l a o receipt v (some r) =
        search (pure_rules, Leaves-cas_workstream, noted-Leaves)

    pub note_receipt-Leaves :
        (l : LeaseAcquireResult) (a : Authority) (o : OperationRead) (receipt : Json)
        → Leaves store k (Claim.note_receipt rt store q l a o receipt)
    unfolding Claim.note_receipt
    note_receipt-Leaves l a o receipt = search (pure_rules, note_on-Leaves)

    module _ (ne : q.operation_key ≢ k) where
      save_attempt-Leaves :
          (v : ℕ) (m : Result OperationRecord) → Leaves store k (Claim.save_attempt rt store q v m)
      unfolding Claim.save_attempt
      save_attempt-Leaves v (ok op) = Leaves-cas_operation q.operation_key v op ne
      save_attempt-Leaves v (raise e) = search pure_rules

      saved_as-Leaves :
          (l : LeaseAcquireResult) (a : Authority) (receipt : Json) (m : Result OperationRead)
          → Leaves store k (Claim.saved_as rt store q l a receipt m)
      unfolding Claim.saved_as
      saved_as-Leaves l a receipt (ok o) = note_receipt-Leaves l a o receipt
      saved_as-Leaves l a receipt (raise e) = search (pure_rules, give_up-Leaves)

      save-Leaves :
          (r : WorkstreamRuntimeRecord) (e : EffectIdentity) (a : Authority) (o : OperationRead)
          (l : LeaseAcquireResult)
          → Leaves store k (Claim.save rt store q r e a o l)
      unfolding Claim.save
      save-Leaves r e a o l = search (pure_rules, save_attempt-Leaves, saved_as-Leaves)

      consumed_as-Leaves :
          (r : WorkstreamRuntimeRecord) (e : EffectIdentity) (a : Authority) (o : OperationRead)
          (l : LeaseAcquireResult) (m : Result StateRead)
          → Leaves store k (Claim.consumed_as rt store q r e a o l m)
      unfolding Claim.consumed_as
      consumed_as-Leaves r e a o l (ok s) = save-Leaves r e a o l
      consumed_as-Leaves r e a o l (raise x) = search (pure_rules, give_up-Leaves)

      spend-Leaves :
          (mode : ActivationMode) (r : WorkstreamRuntimeRecord) (e : EffectIdentity) (a : Authority)
          (o : OperationRead) (l : LeaseAcquireResult)
          → Leaves store k (Claim.spend rt store q mode r e a o l)
      unfolding Claim.spend
      spend-Leaves canary r e a o l = search (pure_rules, consume-Leaves, consumed_as-Leaves)
      spend-Leaves shadow r e a o l = save-Leaves r e a o l
      spend-Leaves active_auto_safe r e a o l = save-Leaves r e a o l

      leased_as-Leaves :
          (r : WorkstreamRuntimeRecord) (e : EffectIdentity) (a : Authority) (o : OperationRead)
          (m : Result LeaseAcquireResult)
          → Leaves store k (Claim.leased_as rt store q r e a o m)
      unfolding Claim.leased_as
      leased_as-Leaves r e a o (ok l) = spend-Leaves r.activation_mode r e a o l
      leased_as-Leaves r e a o (raise x) = search pure_rules

      proceed-Leaves : (g : Gate) → Leaves store k (Claim.proceed rt store q g)
      unfolding Claim.proceed
      proceed-Leaves (refused d) = search pure_rules
      proceed-Leaves (open_to r e a o) = search (pure_rules, Leaves-acquire, leased_as-Leaves)

      claim_after-Leaves : (ws : StateRead) → Leaves store k (Claim.claim_after rt store q ws)
      unfolding Claim.claim_after
      claim_after-Leaves ws = search (pure_rules, proceed-Leaves)

      -- A claim of one operation leaves the record of every other.
      pub claim-Leaves : Leaves store k (Claim.claim_operation rt store q)
      unfolding Claim.claim_operation
      claim-Leaves = search (pure_rules, claim_after-Leaves)
