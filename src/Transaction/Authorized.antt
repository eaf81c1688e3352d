-- ===== src/Transaction/Authorized.antt =====
-- ues/transaction.py: when `validate_authority` finds no failure.
use universal_execution_syst.Prelude.{
  Option, none, some, ℕ, ◌<◌, String, Bool, true, false, ◌≡◌, refl, sym, ◌↔◌, ◌⊎◌, inl, inr, ap,
  ◌∙◌, arith, List, [], ◌∷◌, one_of, or_else, is_some, eq_iff, Bool-cases,
}
use universal_execution_syst.Prelude.Lists.{all, is_empty, length, is_empty-append}
use universal_execution_syst.Prelude.Results.{ok, Result-cases}
use universal_execution_syst.Idempotency.Records.{truthy}
use universal_execution_syst.Transaction.{Host, Envelope, Attempt, AuthorityFailure}
use universal_execution_syst.Transaction.Sets.{sorted_set, without, sorted_set-empty, without-empty}
use universal_execution_syst.Transaction.Permitted.{
  AllPermitted, AllPermitted-of_pass, pass-of_AllPermitted, length-normalized,
}
use universal_execution_syst.Transaction.Validate.{
  when, missing_fields, normalized_paths, unsafe_paths, unexpected, other_tree, mismatches,
  too_large, judge_expiry, outside, parse_time, expiry_failures, path_failures, authority_failures,
  validate_authority,
}

-- Every required field is there and is not empty.
pub record IsComplete (e : Envelope) : Type 0 where
  pub schema_version : truthy e.schema_version ≡ true
  pub operation_id : truthy e.operation_id ≡ true
  pub workstream_id : truthy e.workstream_id ≡ true
  pub repository : truthy e.repository ≡ true
  pub ref : truthy e.ref ≡ true
  pub expected_head_sha : truthy e.expected_head_sha ≡ true
  pub operation : truthy e.operation ≡ true
  pub allowed_paths : is_some e.allowed_paths ≡ true
  pub stop_gate : truthy e.stop_gate ≡ true

-- Nothing is expected, or this text.
abbrev pub IsAsExpected : Option String → String → Type 0
IsAsExpected expected actual = (truthy expected ≡ false) ⊎ (expected ≡ some actual)

-- The one is not given, the other is not given, or they are equal.
abbrev pub IsSameTree : Option String → Option String → Type 0
IsSameTree expected live = (truthy expected ≡ false) ⊎ ((truthy live ≡ false) ⊎ (expected ≡ live))

unexpected_iff : (o : Option String) (s : String) → (unexpected o s ≡ false) ↔ IsAsExpected o s
unexpected_iff none s = (λ h. inl refl, λ h. refl)
unexpected_iff (some t) s = (
  λ h. elim (Bool-cases (truthy (some t))) [
    | inl e ↦ inr (ground (arith, eq_iff t s))
    | inr e ↦ inl e
  ],
  λ h. elim h [ inl e ↦ rw e refl | inr e ↦ ground (arith, eq_iff t s) ],
)

other_tree_iff : (o p : Option String) → (other_tree o p ≡ false) ↔ IsSameTree o p
other_tree_iff none p = (λ h. inl refl, λ h. refl)
other_tree_iff (some s) none = (λ h. inr (inl refl), λ h. ground arith)
other_tree_iff (some s) (some t) = (
  λ h. elim (Bool-cases (truthy (some s))) [
    | inr e ↦ inl e
    | inl e ↦ elim (Bool-cases (truthy (some t))) [
      | inr f ↦ inr (inl f)
      | inl f ↦ inr (inr (ground (arith, eq_iff s t)))
    ]
  ],
  λ h. elim h [
    | inl e ↦ rw e refl
    | inr (inl e) ↦ ground (arith, e)
    | inr (inr e) ↦ ground (arith, eq_iff s t)
  ],
)

-- The envelope is for this attempt.
pub record Agrees (e : Envelope) (a : Attempt) : Type 0 where
  pub operation_id : IsAsExpected a.expected_operation_id (or_else e.operation_id "")
  pub workstream_id : IsAsExpected a.expected_workstream_id (or_else e.workstream_id "")
  pub repository : or_else e.repository "" ≡ a.repository
  pub ref : or_else e.ref "" ≡ a.ref
  pub head : or_else e.expected_head_sha "" ≡ a.live_head_sha
  pub tree : IsSameTree e.expected_tree_sha a.live_tree_sha
  pub operation : or_else e.operation "" ≡ a.operation

missing_fields_iff : (e : Envelope) → (is_empty (missing_fields e) ≡ true) ↔ IsComplete e
unfolding missing_fields
missing_fields_iff e = (
  λ h. record {
    schema_version = ground arith;
    operation_id = ground arith;
    workstream_id = ground arith;
    repository = ground arith;
    ref = ground arith;
    expected_head_sha = ground arith;
    operation = ground arith;
    allowed_paths = ground arith;
    stop_gate = ground arith;
  },
  λ h. ground arith,
)

mismatches_iff : (e : Envelope) (a : Attempt) → (is_empty (mismatches e a) ≡ true) ↔ Agrees e a
unfolding mismatches
mismatches_iff e a = (
  λ h. record {
    operation_id = operations.0 (ground arith);
    workstream_id = workstreams.0 (ground arith);
    repository = ground (arith, eq_iff (or_else e.repository "") a.repository);
    ref = ground (arith, eq_iff (or_else e.ref "") a.ref);
    head = ground (arith, eq_iff (or_else e.expected_head_sha "") a.live_head_sha);
    tree = trees.0 (ground arith);
    operation = ground (arith, eq_iff (or_else e.operation "") a.operation);
  },
  λ h. ground (
    arith,
    operations.1 h.operation_id,
    workstreams.1 h.workstream_id,
    trees.1 h.tree,
    eq_iff (or_else e.repository "") a.repository,
    eq_iff (or_else e.ref "") a.ref,
    eq_iff (or_else e.expected_head_sha "") a.live_head_sha,
    eq_iff (or_else e.operation "") a.operation,
  ),
)
  where
    operations :
        (unexpected a.expected_operation_id (or_else e.operation_id "") ≡ false)
        ↔ IsAsExpected a.expected_operation_id (or_else e.operation_id "")
    operations = unexpected_iff a.expected_operation_id (or_else e.operation_id "")

    workstreams :
        (unexpected a.expected_workstream_id (or_else e.workstream_id "") ≡ false)
        ↔ IsAsExpected a.expected_workstream_id (or_else e.workstream_id "")
    workstreams = unexpected_iff a.expected_workstream_id (or_else e.workstream_id "")

    trees :
        (other_tree e.expected_tree_sha a.live_tree_sha ≡ false)
        ↔ IsSameTree e.expected_tree_sha a.live_tree_sha
    trees = other_tree_iff e.expected_tree_sha a.live_tree_sha

outside-empty : (xs : List String) → is_empty (outside xs) ≡ is_empty xs
outside-empty [] = refl
outside-empty (x ∷ xs) = refl

resources_lem :
    (authorized requested : List String)
    → is_empty (outside (sorted_set (without authorized requested)))
      ≡ all (λ r. one_of r authorized) requested
resources_lem authorized requested =
    outside-empty (sorted_set (without authorized requested))
    ∙ (sorted_set-empty (without authorized requested) ∙ without-empty authorized requested)

when-empty : (b : Bool) (f : AuthorityFailure) → (is_empty (when b f) ≡ true) ↔ (b ≡ false)
when-empty true f = (λ h. cc, λ h. cc)
when-empty false f = (λ h. refl, λ h. refl)

module _ (host : Host) where
  -- No expiry is given, or it can be read and is still to come.
  abbrev pub IsInTime : Envelope → ℕ → Type 0
  IsInTime e now =
      (truthy e.expires_at ≡ false)
      ⊎ ((t : ℕ) × (parse_time host (or_else e.expires_at "") ≡ ok t) × (now < t))

  expiry_iff :
      (e : Envelope) (now : ℕ)
      → (is_empty (expiry_failures host now e.expires_at) ≡ true) ↔ IsInTime e now
  unfolding expiry_failures
  expiry_iff e now = elim (Bool-cases (truthy e.expires_at)) [
    | inr none_given ↦ (λ h. inl none_given, λ h. if_none none_given)
    | inl given ↦ elim (Result-cases (parse_time host (or_else e.expires_at ""))) [
      | inl (t, read) ↦
          (λ h. inr (t, read, ground (arith, if_given given)), λ h. ground (arith, if_given given))
      | inr (x, unread) ↦ (λ h. ground (arith, if_given given), λ h. ground (arith, if_given given))
    ]
  ]
    where
      if_none :
          truthy e.expires_at ≡ false → is_empty (expiry_failures host now e.expires_at) ≡ true
      if_none h = ground arith

      if_given :
          truthy e.expires_at ≡ true
          → expiry_failures host now e.expires_at
            ≡ judge_expiry now (parse_time host (or_else e.expires_at ""))
      if_given h = ground arith

  -- The envelope authorizes the attempt.
  pub record IsAuthorized (e : Envelope) (a : Attempt) : Type 0 where
    pub complete : IsComplete e
    pub agrees : Agrees e a
    pub in_time : IsInTime e a.now
    pub paths : AllPermitted host e a.proposed_paths
    pub resources : all (λ r. one_of r e.resource_classes) a.resource_classes ≡ true
    pub size : too_large e.max_changed_paths (length a.proposed_paths) ≡ false

  -- `validate_authority` calls an attempt valid exactly when the envelope has every required field, names
  -- the attempt's operation, repository, ref, head and tree, is not expired, permits every proposed path
  -- and every resource class, and allows as many paths.
  pub valid_iff :
      (e : Envelope) (a : Attempt) → ((validate_authority host e a).valid ≡ true) ↔ IsAuthorized e a
  unfolding validate_authority authority_failures
  valid_iff e a = (forth, back)
    where
      forth : (validate_authority host e a).valid ≡ true → IsAuthorized e a
      forth h =
          let (fields, h1) = (is_empty-append (missing_fields e) _).0 h in
          let (unsafe, h2) = (is_empty-append (unsafe_paths a.proposed_paths) _).0 h1 in
          let (agreed, h3) = (is_empty-append (mismatches e a) _).0 h2 in
          let (timely, h4) = (is_empty-append (expiry_failures host a.now e.expires_at) _).0 h3 in
          let (passed, h5) =
            (is_empty-append
                (path_failures host e.prohibited_paths (or_else e.allowed_paths [])
                  (normalized_paths a.proposed_paths))
                _).0
              h4 in
          let (covered, small) =
            (is_empty-append (outside (sorted_set (without e.resource_classes a.resource_classes)))
                _).0
              h5 in
          let permitted = AllPermitted-of_pass host e a.proposed_paths (unsafe, passed) in
          record {
            complete = (missing_fields_iff e).0 fields;
            agrees = (mismatches_iff e a).0 agreed;
            in_time = (expiry_iff e a.now).0 timely;
            paths = permitted;
            resources = sym (resources_lem e.resource_classes a.resource_classes) ∙ covered;
            size =
                ap (λ n. too_large e.max_changed_paths n)
                  (sym (length-normalized host e a.proposed_paths permitted))
                ∙ (when-empty _ _).0 small;
          }

      back : IsAuthorized e a → (validate_authority host e a).valid ≡ true
      back h =
          let (unsafe, passed) = pass-of_AllPermitted host e a.proposed_paths h.paths in
          (is_empty-append _ _).1 (
            (missing_fields_iff e).1 h.complete,
            (is_empty-append _ _).1 (
              unsafe,
              (is_empty-append _ _).1 (
                (mismatches_iff e a).1 h.agrees,
                (is_empty-append _ _).1 (
                  (expiry_iff e a.now).1 h.in_time,
                  (is_empty-append _ _).1 (
                    passed,
                    (is_empty-append _ _).1 (
                      resources_lem e.resource_classes a.resource_classes ∙ h.resources,
                      (when-empty _ _).1 (
                          ap (λ n. too_large e.max_changed_paths n)
                            (length-normalized host e a.proposed_paths h.paths)
                          ∙ h.size),
                    ),
                  ),
                ),
              ),
            ),
          )
