-- ===== src/Generation/Allowed.antt =====
-- ues/generation_transition.py: when a generation may be created.
use universal_execution_syst.Prelude.{
  String, Bool, true, false, not, ◌&&◌, ◌||◌, ◌≡◌, refl, ◌↔◌, ◌⊎◌, inl, inr, arith, Option, ◌==◌,
  eq_iff, one_of, or_else, nat_eq,
}
use universal_execution_syst.Prelude.Lists.{is_empty, is_empty-append}
use universal_execution_syst.Prelude.Texts.{strip, is_blank}
use universal_execution_syst.Json.{Fields, end}
use universal_execution_syst.Runtime.{Runtime}
use universal_execution_syst.Generation.{
  Lineage, CurrentPolicy, Observations, GenerationFailure, role_not_supported,
  initial_lineage_already_exists, effect_in_flight_reconciliation_required,
  initial_task_spec_required, replacement_cause_not_governed, no_remaining_work,
  handoff_recovery_requires_review_role, unknown_write_reconciliation_required,
  exact_replacement_task_spec_required, fails_if, policy_failures, binding_failures, role_name,
  supported_generation_roles, valid_replacement_causes, causes_without_work, review_roles,
  handoff_recovery, has_fields, initial_failures, assess_initial_lineage_creation,
  transition_failures, assess_generation_transition,
}

-- The project's policy authorizes a generation and its effect, within the budget and the ceiling.
pub record Permits (p : CurrentPolicy) : Type 0 where
  pub authority : p.necessary_generation_authorized ≡ true
  pub effect : p.generation_effect_authorized ≡ true
  pub budget : p.generation_budget_safe ≡ true
  pub ceiling : p.hard_ceiling_reached ≡ false

-- The bindings are exact, and there is no duplicate and no unknown write.
pub record IsClear (o : Observations) : Type 0 where
  pub no_unknown_write : o.unknown_write_state ≡ false
  pub no_duplicate : o.active_duplicate_absent ≡ true
  pub repository : o.exact_repository_binding ≡ true
  pub starting_ref : o.exact_starting_ref_binding ≡ true

policy_iff : (p : CurrentPolicy) → (is_empty (policy_failures p) ≡ true) ↔ Permits p
unfolding policy_failures
policy_iff p = (
  λ h. record {
    authority = ground arith;
    effect = ground arith;
    budget = ground arith;
    ceiling = ground arith;
  },
  λ h. ground arith,
)

fails_if-empty : (b : Bool) (f : GenerationFailure) → (is_empty (fails_if b f) ≡ true) ↔ (b ≡ false)
fails_if-empty true f = (λ h. cc, λ h. cc)
fails_if-empty false f = (λ h. refl, λ h. refl)

IsClear-iff :
    (o : Observations)
    → ((o.unknown_write_state ≡ false) × (is_empty (binding_failures o) ≡ true)) ↔ IsClear o
unfolding binding_failures
IsClear-iff o = (
  λ h. record {
    no_unknown_write = h.0;
    no_duplicate = ground arith;
    repository = ground arith;
    starting_ref = ground arith;
  },
  λ h. (h.no_unknown_write, ground arith),
)

not_iff : (b : Bool) → (not b ≡ false) ↔ (b ≡ true)
not_iff true = (λ h. refl, λ h. refl)
not_iff false = (λ h. cc, λ h. cc)

either_iff : (a b : Bool) → ((not a && not b) ≡ false) ↔ ((a ≡ true) ⊎ (b ≡ true))
either_iff true b = (λ h. inl refl, λ h. refl)
either_iff false true = (λ h. inr refl, λ h. refl)
either_iff false false = (λ h. cc, λ h. elim h [ inl e ↦ cc | inr e ↦ cc ])

implied_iff : (a b : Bool) → ((a && not b) ≡ false) ↔ (a ≡ true → b ≡ true)
implied_iff false b = (λ h e. cc, λ h. refl)
implied_iff true true = (λ h e. refl, λ h. refl)
implied_iff true false = (λ h e. cc, λ h. cc (h refl))

-- The cause of a replacement is a governed one, and fits what is left to do and the role.
pub record IsGoverned (role cause : String) (work_remaining : Bool) : Type 0 where
  pub role_supported : one_of role supported_generation_roles ≡ true
  pub cause_governed : one_of cause valid_replacement_causes ≡ true
  pub work : (work_remaining ≡ true) ⊎ (one_of cause causes_without_work ≡ true)
  pub recovery_by_review : cause ≡ handoff_recovery → one_of role review_roles ≡ true

module _ (role cause : String) (work_remaining : Bool) where
  -- The four tests of the role and the cause.
  abbrev CausePasses : Type 0
  CausePasses =
      (not (one_of role supported_generation_roles) ≡ false)
      × (not (one_of cause valid_replacement_causes) ≡ false)
      × ((not work_remaining && not (one_of cause causes_without_work)) ≡ false)
      × ((cause == handoff_recovery && not (one_of role review_roles)) ≡ false)

  IsGoverned-iff : CausePasses ↔ IsGoverned role cause work_remaining
  IsGoverned-iff = (
    λ (a, b, w, r). record {
      role_supported = (not_iff (one_of role supported_generation_roles)).0 a;
      cause_governed = (not_iff (one_of cause valid_replacement_causes)).0 b;
      work = (either_iff work_remaining (one_of cause causes_without_work)).0 w;
      recovery_by_review = λ e.
          (implied_iff (cause == handoff_recovery) (one_of role review_roles)).0 r
            ((eq_iff cause handoff_recovery).1 e);
    },
    λ h. (
      (not_iff (one_of role supported_generation_roles)).1 h.role_supported,
      (not_iff (one_of cause valid_replacement_causes)).1 h.cause_governed,
      (either_iff work_remaining (one_of cause causes_without_work)).1 h.work,
      (implied_iff (cause == handoff_recovery) (one_of role review_roles)).1
          (λ e. h.recovery_by_review ((eq_iff cause handoff_recovery).0 e)),
    ),
  )

module _ (rt : Runtime) (l : Lineage) where
  -- The assessment of the next generation allows it exactly when its cause is governed for the role and the
  -- work that is left, the policy permits it, nothing stands against it, and the task's specification is
  -- ready.
  pub transition_allowed_iff :
      (cause : String) (work_remaining : Bool) (p : CurrentPolicy) (o : Observations)
      (spec_ready : Bool)
      → ((assess_generation_transition rt l cause work_remaining p o spec_ready).allowed ≡ true) ↔ (
          IsGoverned (role_name rt l.role) (rt.upper (strip cause)) work_remaining
          × Permits p
          × IsClear o
          × (spec_ready ≡ true))
  unfolding assess_generation_transition transition_failures
  transition_allowed_iff cause work_remaining p o spec_ready = (
    λ h.
        let (a, h1) = (is_empty-append (fails_if _ _) _).0 h in
        let (b, h2) = (is_empty-append (fails_if _ _) _).0 h1 in
        let (w, h3) = (is_empty-append (fails_if _ _) _).0 h2 in
        let (r, h4) = (is_empty-append (fails_if _ _) _).0 h3 in
        let (policy, h5) = (is_empty-append (policy_failures p) _).0 h4 in
        let (unknown, h6) = (is_empty-append (fails_if _ _) _).0 h5 in
        let (bound, spec) = (is_empty-append (binding_failures o) _).0 h6 in
        (
          (IsGoverned-iff (role_name rt l.role) (rt.upper (strip cause)) work_remaining).0 (
            (fails_if-empty _ _).0 a,
            (fails_if-empty _ _).0 b,
            (fails_if-empty _ _).0 w,
            (fails_if-empty _ _).0 r,
          ),
          (policy_iff p).0 policy,
          (IsClear-iff o).0 ((fails_if-empty _ _).0 unknown, bound),
          (not_iff spec_ready).0 ((fails_if-empty _ _).0 spec),
        ),
    λ (governed, permits, clear, ready).
        let (a, b, w, r) =
          (IsGoverned-iff (role_name rt l.role) (rt.upper (strip cause)) work_remaining).1
            governed in
        let (unknown, bound) = (IsClear-iff o).1 clear in
        (is_empty-append _ _).1 (
          (fails_if-empty _ role_not_supported).1 a,
          (is_empty-append _ _).1 (
            (fails_if-empty _ replacement_cause_not_governed).1 b,
            (is_empty-append _ _).1 (
              (fails_if-empty _ no_remaining_work).1 w,
              (is_empty-append _ _).1 (
                (fails_if-empty _ handoff_recovery_requires_review_role).1 r,
                (is_empty-append _ _).1 (
                  (policy_iff p).1 permits,
                  (is_empty-append _ _).1 (
                    (fails_if-empty _ unknown_write_reconciliation_required).1 unknown,
                    (is_empty-append _ _).1 (
                      bound,
                      (fails_if-empty _ exact_replacement_task_spec_required).1
                          ((not_iff spec_ready).1 ready),
                    ),
                  ),
                ),
              ),
            ),
          ),
        ),
  )

  -- No generation of the lineage exists yet.
  pub record IsNew : Type 0 where
    pub role_supported : one_of (role_name rt l.role) supported_generation_roles ≡ true
    pub no_generation : l.current_generation ≡ 0
    pub no_predecessor : is_blank (or_else l.predecessor_session_fingerprint "") ≡ true

  new_iff :
      ((not (one_of (role_name rt l.role) supported_generation_roles) ≡ false)
        × ((not (nat_eq l.current_generation 0)
              || not (is_blank (or_else l.predecessor_session_fingerprint "")))
            ≡ false))
      ↔ IsNew
  new_iff = (
    λ (a, b). record {
      role_supported = (not_iff (one_of (role_name rt l.role) supported_generation_roles)).0 a;
      no_generation = ground (arith, b);
      no_predecessor = ground (arith, b);
    },
    λ h. (
      (not_iff (one_of (role_name rt l.role) supported_generation_roles)).1 h.role_supported,
      ground (arith, h.no_generation, h.no_predecessor),
    ),
  )

  -- The assessment of the first generation allows it exactly when none exists yet, the policy permits it,
  -- nothing stands against it, no effect is in flight, and a task is specified.
  pub initial_allowed_iff :
      (p : CurrentPolicy) (o : Observations) (effect_in_flight : Bool) (spec : Option Fields)
      → ((assess_initial_lineage_creation rt l p o effect_in_flight spec).allowed ≡ true) ↔ (
          IsNew
          × Permits p
          × IsClear o
          × (effect_in_flight ≡ false)
          × (has_fields rt (or_else spec end) ≡ true))
  unfolding assess_initial_lineage_creation initial_failures
  initial_allowed_iff p o effect_in_flight spec = (
    λ h.
        let (a, h1) = (is_empty-append (fails_if _ _) _).0 h in
        let (b, h2) = (is_empty-append (fails_if _ _) _).0 h1 in
        let (policy, h3) = (is_empty-append (policy_failures p) _).0 h2 in
        let (unknown, h4) = (is_empty-append (fails_if _ _) _).0 h3 in
        let (idle, h5) = (is_empty-append (fails_if _ _) _).0 h4 in
        let (bound, given) = (is_empty-append (binding_failures o) _).0 h5 in
        (
          new_iff.0 ((fails_if-empty _ _).0 a, (fails_if-empty _ _).0 b),
          (policy_iff p).0 policy,
          (IsClear-iff o).0 ((fails_if-empty _ _).0 unknown, bound),
          (fails_if-empty _ _).0 idle,
          (not_iff (has_fields rt (or_else spec end))).0 ((fails_if-empty _ _).0 given),
        ),
    λ (new, permits, clear, idle, given).
        let (a, b) = new_iff.1 new in
        let (unknown, bound) = (IsClear-iff o).1 clear in
        (is_empty-append _ _).1 (
          (fails_if-empty _ role_not_supported).1 a,
          (is_empty-append _ _).1 (
            (fails_if-empty _ initial_lineage_already_exists).1 b,
            (is_empty-append _ _).1 (
              (policy_iff p).1 permits,
              (is_empty-append _ _).1 (
                (fails_if-empty _ unknown_write_reconciliation_required).1 unknown,
                (is_empty-append _ _).1 (
                  (fails_if-empty _ effect_in_flight_reconciliation_required).1 idle,
                  (is_empty-append _ _).1 (
                    bound,
                    (fails_if-empty _ initial_task_spec_required).1
                        ((not_iff (has_fields rt (or_else spec end))).1 given),
                  ),
                ),
              ),
            ),
          ),
        ),
  )
