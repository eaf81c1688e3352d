-- ===== src/StateStore/Authority/Allows.antt =====
-- When the authority evaluations allow an effect (ues/state_store.py,
-- `evaluate_active_auto_safe_authority` and `evaluate_canary_grant`).
use universal_execution_syst.Prelude.{
  ℕ, ◌<◌, ◌⊎◌, inl, inr, sym, subst, String, ◌≡◌, refl, true, false, Option, none, some, List, [],
  ◌∷◌, ◌↔◌, arith, eq_iff,
}
use universal_execution_syst.Idempotency.Effect.{EffectIdentity}
use universal_execution_syst.StateStore.Model.{MutationAuthorization, WorkstreamRuntimeRecord}
use universal_execution_syst.StateStore.Authority.{
  same_items, same_effect, effect_matches_record, evaluate_active_auto_safe_authority, expired_by,
}

same_items_iff : (d e : List (String × String)) → (same_items d e ≡ true) ↔ (d ≡ e)
unfolding same_items
same_items_iff [] [] = (λ h. refl, λ h. refl)
same_items_iff [] (p ∷ e) = (λ h. cc, λ h. cc)
same_items_iff (p ∷ d) [] = (λ h. cc, λ h. cc)
same_items_iff ((k, v) ∷ d) ((j, w) ∷ e) = (
  λ h. ground (arith, h, eq_iff k j, eq_iff v w, same_items_iff d e),
  λ h. ground (arith, h, eq_iff k j, eq_iff v w, same_items_iff d e),
)

-- The record is of the effect's lane.
abbrev pub SameLane : WorkstreamRuntimeRecord → EffectIdentity → Type 0
SameLane r e =
    (e.lane_id ≡ r.lane_id)
    × (e.project ≡ r.project)
    × (e.route ≡ r.route)
    × (e.workstream_id ≡ r.workstream_id)

matches_iff :
    (r : WorkstreamRuntimeRecord) (e : EffectIdentity)
    → (effect_matches_record r e ≡ true) ↔ SameLane r e
unfolding effect_matches_record
matches_iff r e = (
  λ h. ground (
    arith,
    h,
    eq_iff e.lane_id r.lane_id,
    eq_iff e.project r.project,
    eq_iff e.route r.route,
    eq_iff e.workstream_id r.workstream_id,
  ),
  λ h. ground (
    arith,
    h,
    eq_iff e.lane_id r.lane_id,
    eq_iff e.project r.project,
    eq_iff e.route r.route,
    eq_iff e.workstream_id r.workstream_id,
  ),
)

module _ (e f : EffectIdentity) where
  same_fields :
      same_effect e f ≡ true
      → (e.lane_id ≡ f.lane_id)
        × (e.project ≡ f.project)
        × (e.route ≡ f.route)
        × (e.workstream_id ≡ f.workstream_id)
        × (e.action ≡ f.action)
        × (e.target ≡ f.target)
  unfolding same_effect
  same_fields h = ground (
    arith,
    h,
    eq_iff e.lane_id f.lane_id,
    eq_iff e.project f.project,
    eq_iff e.route f.route,
    eq_iff e.workstream_id f.workstream_id,
    eq_iff e.action f.action,
    same_items_iff e.target f.target,
  )

  same_effect_refl :
      (e.lane_id ≡ f.lane_id)
        × (e.project ≡ f.project)
        × (e.route ≡ f.route)
        × (e.workstream_id ≡ f.workstream_id)
        × (e.action ≡ f.action)
        × (e.target ≡ f.target)
      → same_effect e f ≡ true
  unfolding same_effect
  same_effect_refl h = ground (
    arith,
    h,
    eq_iff e.lane_id f.lane_id,
    eq_iff e.project f.project,
    eq_iff e.route f.route,
    eq_iff e.workstream_id f.workstream_id,
    eq_iff e.action f.action,
    same_items_iff e.target f.target,
  )

  same_effect_iff : (same_effect e f ≡ true) ↔ (e ≡ f)
  same_effect_iff = (
    λ h. let (l, p, r, w, a, t) = same_fields h in cc,
    λ h. same_effect_refl (cc, cc, cc, cc, cc, cc),
  )

-- No end is set, or it is still to come.
abbrev pub HasTime : Option ℕ → ℕ → Type 0
HasTime end now = (end ≡ none) ⊎ ((t : ℕ) × (end ≡ some t) × (now < t))

expired_by_iff : (end : Option ℕ) (now : ℕ) → (expired_by end now ≡ false) ↔ HasTime end now
expired_by_iff none now = (λ h. inl refl, λ h. refl)
expired_by_iff (some t) now = (
  λ h. inr (t, refl, ground arith),
  λ h. elim h [ inl e ↦ cc | inr (u, e, later) ↦ still later (some_injective e) ],
)
  where
    some_injective : {a b : ℕ} → some a ≡ some b → a ≡ b
    some_injective h = cc

    still : {u : ℕ} → now < u → t ≡ u → expired_by (some t) now ≡ false
    still later e = ground arith

-- The policy, the binding, the evidence and the time are in order.
abbrev pub IsInForce : MutationAuthorization → ℕ → Type 0
IsInForce a now =
    (a.project_policy_authorized ≡ true)
    × (a.exact_binding_proven ≡ true)
    × (a.evidence_verified ≡ true)
    × HasTime a.expires_at now

module _ (r : WorkstreamRuntimeRecord) (e : EffectIdentity) (a : MutationAuthorization)
    (now : ℕ) where
  tests_passed :
      (evaluate_active_auto_safe_authority r e (some a) now).allowed ≡ true
      → (same_effect e a.effect_identity ≡ true)
        × (effect_matches_record r e ≡ true)
        × IsInForce a now
  unfolding evaluate_active_auto_safe_authority
  tests_passed h = (
    ground (arith, h),
    ground (arith, h),
    (
      ground (arith, h),
      ground (arith, h),
      ground (arith, h),
      (expired_by_iff a.expires_at now).0 (ground (arith, h)),
    ),
  )

  passes :
      same_effect e a.effect_identity ≡ true
      → effect_matches_record r e ≡ true
      → IsInForce a now
      → (evaluate_active_auto_safe_authority r e (some a) now).allowed ≡ true
  unfolding evaluate_active_auto_safe_authority
  passes same lane (policy, binding, evidence, time) =
      ground
        (arith, same, lane, policy, binding, evidence, (expired_by_iff a.expires_at now).1 time)

-- Under ACTIVE_AUTO_SAFE an effect is allowed exactly when an authorization for this very effect is
-- given, the effect is of the record's lane, the project's policy, the exact binding and the evidence
-- are confirmed, and the authorization has not run out.
pub active_auto_safe_iff :
    (r : WorkstreamRuntimeRecord) (e : EffectIdentity) (auth : Option MutationAuthorization)
    (now : ℕ)
    → ((evaluate_active_auto_safe_authority r e auth now).allowed ≡ true) ↔ (
        (a : MutationAuthorization) × (auth ≡ some a)
        × (e ≡ a.effect_identity)
        × SameLane r e
        × IsInForce a now)
unfolding evaluate_active_auto_safe_authority
active_auto_safe_iff r e none now = (λ h. cc, λ h. let (a, given, e1, l1, f1) = h in cc)
active_auto_safe_iff r e (some a) now = (
  λ h.
      let (same, lane, force) = tests_passed r e a now h in
      (a, refl, (same_effect_iff e a.effect_identity).0 same, (matches_iff r e).0 lane, force),
  λ h.
      let (b, given, same, lane, force) = h in
      passes r e a now ((same_effect_iff e a.effect_identity).1 (cc)) ((matches_iff r e).1 lane)
        (subst (λ x. IsInForce x now) (sym (some_injective given)) force),
)
  where
    some_injective : {x y : MutationAuthorization} → some x ≡ some y → x ≡ y
    some_injective h = cc
