-- ===== src/StateStore/Readback/Traces.antt =====
-- Claims, unknown writes and readbacks in any order (ues/state_store.py): how often one operation can
-- be allowed.
use universal_execution_syst.Prelude.{
  ℕ, suc, ◌≤◌, String, ◌≡◌, refl, true, false, Bool, Option, none, some, List, [], ◌∷◌, inl, inr,
  Bool-cases, arith, ◌&&◌, ◌==◌, eq_iff, if◌then◌else◌, ◌≢◌, subst, sym,
}
use universal_execution_syst.Json.{Json}
use universal_execution_syst.Runtime.{Runtime}
use universal_execution_syst.StateStore.Model.{reconciled_not_observed}
use universal_execution_syst.StateStore.Interface.{StateStore, OperationLaws}
use universal_execution_syst.StateStore.Gate.{ClaimRequest}
use universal_execution_syst.StateStore.Claim.{claim_operation}
use universal_execution_syst.StateStore.Claim.Keeps.{Blocked}
use universal_execution_syst.StateStore.Claim.Once.{is_allowed_for, Blocked-step, allowed_step}
use universal_execution_syst.StateStore.Readback.{
  record_unknown_write, record_authoritative_readback, state_of,
}
use universal_execution_syst.StateStore.Readback.Guards.{
  keeps-unknown_write, keeps-readback, readback-Leaves,
}

-- A call on the store, by lane, operation key and time.
pub data Event : Type 0 where
  claim : ClaimRequest → Event
  unknown_write : String → String → ℕ → Json → Event
  readback : String → String → ℕ → Option Bool → Json → Event

abbrev says_missing : Option Bool → Bool
says_missing (some false) = true
says_missing _ = false

says_missing_lem : (o : Option Bool) → says_missing o ≡ false → state_of o ≢ reconciled_not_observed
says_missing_lem none h p = cc
says_missing_lem (some true) h p = cc
says_missing_lem (some false) h p = cc

module _ {S : Type 0} (rt : Runtime) (store : StateStore S) (k : String) where
  unfoldable pub after : Event → S → S
  after (claim q) s = (claim_operation rt store q s).1
  after (unknown_write lane key now result) s =
      (record_unknown_write rt lane key now store result s).1
  after (readback lane key now observed evidence) s =
      (record_authoritative_readback rt lane key now store observed evidence s).1

  -- The event is a claim of `k` that is allowed.
  unfoldable pub allows : Event → S → Bool
  allows (claim q) s = is_allowed_for rt store k q s
  allows _ s = false

  -- The event is a readback of `k` that reports that the write did not happen.
  unfoldable pub is_missing : Event → Bool
  is_missing (readback lane key now observed evidence) = key == k && says_missing observed
  is_missing _ = false

  unfoldable pub allowances : List Event → S → ℕ
  unfolding after allows
  allowances [] s = 0
  allowances (e ∷ es) s =
      let rest = allowances es (after e s) in if allows e s then suc rest else rest

  unfoldable pub missing_readbacks : List Event → ℕ
  unfolding is_missing
  missing_readbacks [] = 0
  missing_readbacks (e ∷ es) =
      let rest = missing_readbacks es in if is_missing e then suc rest else rest

  module _ (laws : OperationLaws store) where
    after_readback :
        (lane key : String) (now : ℕ) (observed : Option Bool) (evidence : Json) (s : S)
        → is_missing (readback lane key now observed evidence) ≡ false
        → Blocked k (store.read_operation k s)
        → Blocked k (store.read_operation k (after (readback lane key now observed evidence) s))
    unfolding after is_missing
    after_readback lane key now observed evidence s h b = elim (Bool-cases (key == k)) [
      | inl e ↦
          (keeps-readback store laws k rt lane key now observed evidence
              (says_missing_lem observed (rw e at h))).at
            s b
      | inr e ↦
          subst (Blocked k)
            (sym (
              (readback-Leaves store laws k rt lane key now (λ p. cc (e, (eq_iff key k).1 p))
                  observed evidence).at
                s))
            b
    ]

    -- While the record is blocked no event is allowed, and only a readback that reports the write
    -- missing can free the record.
    Blocked-event :
        (e : Event) (s : S)
        → Blocked k (store.read_operation k s)
        → (allows e s ≡ false)
          × (is_missing e ≡ false → Blocked k (store.read_operation k (after e s)))
    unfolding after allows
    Blocked-event (claim q) s b =
        let (no_claim, still) = Blocked-step rt store k laws q s b in (no_claim, λ h. still)
    Blocked-event (unknown_write lane key now result) s b =
        (refl, λ h. (keeps-unknown_write store laws k rt lane key now result).at s b)
    Blocked-event (readback lane key now observed evidence) s b =
        (refl, λ h. after_readback lane key now observed evidence s h b)

    allowed_event :
        (e : Event) (s : S)
        → allows e s ≡ true
        → Blocked k (store.read_operation k (after e s)) × (is_missing e ≡ false)
    unfolding after allows is_missing
    allowed_event (claim q) s h = (allowed_step rt store k laws q s h, refl)
    allowed_event (unknown_write lane key now result) s h = cc
    allowed_event (readback lane key now observed evidence) s h = cc

    bound-Blocked :
        (e : Event) (es : List Event) (s : S)
        → (Blocked k (store.read_operation k (after e s))
            → allowances es (after e s) ≤ missing_readbacks es)
        → allowances es (after e s) ≤ suc (missing_readbacks es)
        → Blocked k (store.read_operation k s)
        → allowances (e ∷ es) s ≤ missing_readbacks (e ∷ es)
    unfolding allowances missing_readbacks
    bound-Blocked e es s from_blocked from_any b =
        let (no_claim, still) = Blocked-event e s b in
        elim (Bool-cases (is_missing e)) [
          | inl m ↦ rw (no_claim, m) from_any
          | inr m ↦ rw (no_claim, m) (from_blocked (still m))
        ]

    bound_any :
        (e : Event) (es : List Event) (s : S)
        → (Blocked k (store.read_operation k (after e s))
            → allowances es (after e s) ≤ missing_readbacks es)
        → allowances es (after e s) ≤ suc (missing_readbacks es)
        → allowances (e ∷ es) s ≤ suc (missing_readbacks (e ∷ es))
    unfolding allowances missing_readbacks
    bound_any e es s from_blocked from_any = elim (Bool-cases (allows e s)) [
      | inl a ↦
          let (b, m) = allowed_event e s a in rw (a, m) (let l = from_blocked b in omega (arith, l))
      | inr a ↦ elim (Bool-cases (is_missing e)) [
        | inl m ↦ rw (a, m) (omega (arith, from_any))
        | inr m ↦ rw (a, m) from_any
      ]
    ]

    -- From a blocked record and from any record.
    bounds :
        (events : List Event) (s : S)
        → (Blocked k (store.read_operation k s) → allowances events s ≤ missing_readbacks events)
          × (allowances events s ≤ suc (missing_readbacks events))
    unfolding allowances missing_readbacks
    bounds [] s = (λ b. omega arith, omega arith)
    bounds (e ∷ es) s =
        let (from_blocked, from_any) = bounds es (after e s) in
        (λ b. bound-Blocked e es s from_blocked from_any b, bound_any e es s from_blocked from_any)

    -- In a store that keeps the laws of operation records, in any sequence of claims, unknown writes
    -- and readbacks, of any operations, on any lanes and at any times, an operation is allowed at
    -- most once more than there are readbacks of it that report that its write did not happen.
    pub allowances_bounded :
        (events : List Event) (s : S) → allowances events s ≤ suc (missing_readbacks events)
    allowances_bounded events s = (bounds events s).1
