-- ===== src/StateStore/Claim/Once.antt =====
-- Over any sequence of claims an operation is allowed at most once (ues/state_store.py).
use universal_execution_syst.Prelude.{
  ℕ, suc, ◌≤◌, String, ◌≡◌, refl, true, false, Bool, List, [], ◌∷◌, inl, inr, Bool-cases, arith,
  ◌&&◌, ◌==◌, eq_iff, if◌then◌else◌, ◌≢◌, subst, sym,
}
use universal_execution_syst.Runtime.{Runtime}
use universal_execution_syst.StateStore.Interface.{StateStore, OperationLaws}
use universal_execution_syst.StateStore.Gate.{ClaimRequest}
use universal_execution_syst.StateStore.Claim.{claim_operation}
use universal_execution_syst.StateStore.Claim.Keeps.{Blocked, claim-Leaves}
use universal_execution_syst.StateStore.Claim.Refused.{is_allowed, Blocked-refused}
use universal_execution_syst.StateStore.Claim.Secures.{allowed-Blocked}

module _ {S : Type 0} (rt : Runtime) (store : StateStore S) (k : String) where
  abbrev pub is_allowed_for : ClaimRequest → S → Bool
  is_allowed_for q s = q.operation_key == k && is_allowed (claim_operation rt store q s).0

  -- How many of the claims, made one after the other, are allowed for the operation `k`.
  unfoldable pub allowed_count : List ClaimRequest → S → ℕ
  allowed_count [] s = 0
  allowed_count (q ∷ qs) s =
      let rest = allowed_count qs (claim_operation rt store q s).1 in
      if is_allowed_for q s then suc rest else rest

  module _ (laws : OperationLaws store) where
    other_Blocked :
        (q : ClaimRequest) (s : S)
        → q.operation_key ≢ k
        → Blocked k (store.read_operation k s)
        → Blocked k (store.read_operation k (claim_operation rt store q s).1)
    other_Blocked q s ne b = subst (Blocked k) (sym ((claim-Leaves store laws k rt q ne).at s)) b

    same_step :
        (q : ClaimRequest) (s : S)
        → q.operation_key ≡ k
        → Blocked k (store.read_operation k s)
        → (is_allowed (claim_operation rt store q s).0 ≡ false)
          × ((claim_operation rt store q s).1 ≡ s)
    same_step q s e b =
        Blocked-refused rt store q s (subst (λ j. Blocked j (store.read_operation j s)) (sym e) b)

    -- A claim, of whatever operation, keeps a blocked record blocked and is not allowed for it.
    pub Blocked-step :
        (q : ClaimRequest) (s : S)
        → Blocked k (store.read_operation k s)
        → (is_allowed_for q s ≡ false)
          × Blocked k (store.read_operation k (claim_operation rt store q s).1)
    Blocked-step q s b = elim (Bool-cases (q.operation_key == k)) [
      | inl e ↦
          let (refused, kept) = same_step q s ((eq_iff q.operation_key k).0 e) b in
          (rw (e, refused), rw kept b)
      | inr e ↦ (rw e, other_Blocked q s (λ p. cc (e, (eq_iff q.operation_key k).1 p)) b)
    ]

    Blocked-none :
        (qs : List ClaimRequest) (s : S)
        → Blocked k (store.read_operation k s)
        → allowed_count qs s ≡ 0
    unfolding allowed_count
    Blocked-none [] s b = refl
    Blocked-none (q ∷ qs) s b =
        let (no_claim, still) = Blocked-step q s b in
        rw no_claim (Blocked-none qs (claim_operation rt store q s).1 still)

    pub allowed_step :
        (q : ClaimRequest) (s : S)
        → is_allowed_for q s ≡ true
        → Blocked k (store.read_operation k (claim_operation rt store q s).1)
    allowed_step q s h =
        let e : q.operation_key ≡ k = (eq_iff q.operation_key k).0 (ground (arith, h)) in
        subst (λ j. Blocked j (store.read_operation j (claim_operation rt store q s).1)) e
          (allowed-Blocked rt store laws q s (ground (arith, h)))

    -- In a store that keeps the laws of operation records, of any claims made one after the other,
    -- by any owners, on any lanes, in any modes and with any grants, at most one is allowed for one
    -- operation.
    pub allowed_at_most_once : (claims : List ClaimRequest) (s : S) → allowed_count claims s ≤ 1
    unfolding allowed_count
    allowed_at_most_once [] s = omega arith
    allowed_at_most_once (q ∷ qs) s = elim (Bool-cases (is_allowed_for q s)) [
      | inl e ↦
          rw (e, Blocked-none qs (claim_operation rt store q s).1 (allowed_step q s e))
            (omega arith)
      | inr e ↦ rw e (allowed_at_most_once qs (claim_operation rt store q s).1)
    ]
