-- ===== src/Idempotency/Serialization.antt =====
-- When a branch is free for an operation (ues/idempotency.py, `evaluate_branch_serialization` and
-- `evaluate_write_boundary`).
use universal_execution_syst.Prelude.{
  String, ◌≡◌, ◌≢◌, refl, ◌∙◌, sym, ◌↔◌, inl, inr, Bool, true, false, Option, none, some, List, [],
  ◌∷◌, arith, ◌==◌, eq_iff, eq_refl, one_of, or_else, same_text, same_text_iff, Bool-cases,
  Option-cases, true-false,
}
use mathlib.Core.Bool.{false≢true}
use universal_execution_syst.Prelude.Lists.{lookup, is_empty}
use universal_execution_syst.Idempotency.Records.{
  OperationEntry, in_order, note_all, active_states, current_id, evaluate_idempotency,
}
use universal_execution_syst.Idempotency.Boundary.{
  conflicting, conflicts_in, evaluate_branch_serialization, evaluate_write_boundary, MutationPlan,
  tree_moved,
}
use universal_execution_syst.Idempotency.Latest.{last_of, lookup-note_all_empty, one_of-note_all}

module _ (repository ref operation_id : String) where
  -- Another operation that is still active on the branch.
  abbrev pub IsActiveElsewhere : OperationEntry → Type 0
  IsActiveElsewhere r =
      (current_id r ≢ some operation_id)
      × (r.repository ≡ some repository)
      × (r.ref ≡ some ref)
      × (one_of (or_else r.state "") active_states ≡ true)

  abbrev IsFree : List OperationEntry → Type 0
  IsFree rs = is_empty (conflicts_in repository ref operation_id rs) ≡ true

  conflicting_iff :
      (r : OperationEntry)
      → (conflicting repository ref operation_id r ≡ false) ↔ (¬ IsActiveElsewhere r)
  unfolding conflicting
  conflicting_iff r = (
    λ h p. ground (arith, ids, repositories, refs),
    λ h. elim (Bool-cases both) [
      | inl e ↦ absurd (h (ground (arith, ids, repositories, refs)))
      | inr e ↦ e
    ],
  )
    where
      ids :
          (same_text (current_id r) (some operation_id) ≡ true) ↔ (current_id r ≡ some operation_id)
      ids = same_text_iff (current_id r) operation_id

      repositories :
          (same_text r.repository (some repository) ≡ true) ↔ (r.repository ≡ some repository)
      repositories = same_text_iff r.repository repository

      refs : (same_text r.ref (some ref) ≡ true) ↔ (r.ref ≡ some ref)
      refs = same_text_iff r.ref ref

      both : Bool
      both = conflicting repository ref operation_id r

  IsFree-nil : IsFree []
  unfolding conflicts_in
  IsFree-nil = refl

  IsFree-cons :
      (r : OperationEntry) (rs : List OperationEntry)
      → IsFree (r ∷ rs) ↔ ((conflicting repository ref operation_id r ≡ false) × IsFree rs)
  unfolding conflicts_in
  IsFree-cons r rs = elim (Bool-cases (conflicting repository ref operation_id r)) [
    | inl e ↦ (λ h. cc (rw e at h), λ h. cc)
    | inr e ↦ (λ h. (e, rw e at h), λ h. rw e (h.1))
  ]

  -- No record that the dict holds at one of the ids conflicts.
  abbrev NoneConflicts : List (String × OperationEntry) → List String → Type 0
  NoneConflicts d ks =
      (k : String) (r : OperationEntry)
      → one_of k ks ≡ true
      → lookup k d ≡ some r
      → conflicting repository ref operation_id r ≡ false

  in_order-IsFree :
      (d : List (String × OperationEntry)) (ks : List String)
      → NoneConflicts d ks
      → IsFree (in_order d ks)
  unfolding in_order
  in_order-IsFree d [] h = IsFree-nil
  in_order-IsFree d (k ∷ ks) h = elim (Option-cases (lookup k d)) [
    | inl e ↦ rw (e, in_order) (in_order-IsFree d ks (λ j r m l. h j r (ground (arith, m)) l))
    | inr (r, e) ↦
        rw (e, in_order)
          ((IsFree-cons r (in_order d ks)).1 (
            h k r (ground (arith, eq_refl k)) e,
            in_order-IsFree d ks (λ j q m l. h j q (ground (arith, m)) l),
          ))
  ]

  NoneConflicts-of_free :
      (d : List (String × OperationEntry)) (ks : List String)
      → IsFree (in_order d ks)
      → NoneConflicts d ks
  unfolding in_order
  NoneConflicts-of_free d [] f k r m l = elim (false≢true m) [ ]
  NoneConflicts-of_free d (j ∷ ks) f k r m l = elim (Option-cases (lookup j d)) [
    | inl e ↦ elim (Bool-cases (k == j)) [
      | inl same ↦ cc ((eq_iff k j).0 same)
      | inr other ↦ NoneConflicts-of_free d ks (rw (e, in_order) at f) k r (rw other at m) l
    ]
    | inr (q, e) ↦
        let parts = (IsFree-cons q (in_order d ks)).0 (rw (e, in_order) at f) in
        elim (Bool-cases (k == j)) [
          | inl same ↦ ground (arith, (eq_iff k j).0 same, parts.0)
          | inr other ↦ NoneConflicts-of_free d ks parts.1 k r (rw other at m) l
        ]
  ]

  keys_iff :
      (rs : List OperationEntry)
      → NoneConflicts (note_all ([], []) rs).0 (note_all ([], []) rs).1
        ↔ ((k : String) (r : OperationEntry) → last_of k rs ≡ some r → ¬ IsActiveElsewhere r)
  keys_iff rs = (
    λ h k r e.
        (conflicting_iff r).0
          (h k r (rw (one_of-note_all k rs, e)) (lookup-note_all_empty k rs ∙ e)),
    λ h k r m l. (conflicting_iff r).1 (h k r (sym (lookup-note_all_empty k rs) ∙ l)),
  )

  -- A branch is available to an operation exactly when, for every operation id in the records, the
  -- last record of that id is not an active record of another operation on the branch.
  pub available_iff :
      (records : List OperationEntry)
      → ((evaluate_branch_serialization repository ref operation_id records).available ≡ true)
        ↔ ((k : String) (r : OperationEntry) → last_of k records ≡ some r → ¬ IsActiveElsewhere r)
  unfolding evaluate_branch_serialization
  available_iff rs = (
    λ h. (keys_iff rs).0 (NoneConflicts-of_free _ _ h),
    λ h. in_order-IsFree _ _ ((keys_iff rs).1 h),
  )

-- Where both trees are known they are the same one.
abbrev pub TreeKept : Option String → Option String → Type 0
TreeKept planned live = (p t : String) → planned ≡ some p → live ≡ some t → p ≢ "" → t ≢ "" → p ≡ t

tree_moved_iff :
    (planned live : Option String) → (tree_moved planned live ≡ false) ↔ TreeKept planned live
tree_moved_iff none live = (λ h p t e f filled known. cc, λ h. refl)
tree_moved_iff (some p) none = (λ h q t e f filled known. cc, λ h. ground arith)
tree_moved_iff (some p) (some t) = (
  λ h q u e f filled known.
      sym (some_injective e)
      ∙ (same h (λ empty. filled (sym (some_injective e) ∙ empty))
            (λ empty. known (sym (some_injective f) ∙ empty))
          ∙ some_injective f),
  λ h. elim (Bool-cases (p == "")) [
    | inl e ↦ rw e refl
    | inr filled ↦ elim (Bool-cases (t == "")) [
      | inl e ↦ ground arith
      | inr known ↦
          let kept = h p t refl refl (unequal filled) (unequal known) in
          rw ((eq_iff p t).1 kept) (ground arith)
    ]
  ],
)
  where
    some_injective : {a b : String} → some a ≡ some b → a ≡ b
    some_injective h = cc

    unequal : {s : String} → (s == "") ≡ false → s ≢ ""
    unequal {s} other same = true-false ((eq_iff s "").1 same) other

    same : tree_moved (some p) (some t) ≡ false → p ≢ "" → t ≢ "" → p ≡ t
    same h filled known = (eq_iff p t).0 (ground (arith, eq_iff p "", eq_iff t ""))

-- The five tests of the boundary.
tests_iff :
    (plan : MutationPlan) (op d repository ref head : String) (tree : Option String)
    (records : List OperationEntry)
    → ((evaluate_write_boundary plan op d repository ref head tree records).ready ≡ true) ↔ (
        (plan.decision ≡ some "AUTHORIZED_DRY_RUN")
        × (plan.cas_live_head_sha ≡ some head)
        × (tree_moved plan.cas_live_tree_sha tree ≡ false)
        × ((evaluate_idempotency op d records).safe_to_execute ≡ true)
        × ((evaluate_branch_serialization repository ref op records).available ≡ true))
unfolding evaluate_write_boundary
tests_iff plan op d repository ref head tree rs = (
  λ h. ground (
    arith,
    same_text_iff plan.decision "AUTHORIZED_DRY_RUN",
    same_text_iff plan.cas_live_head_sha head,
  ),
  λ h. ground (
    arith,
    same_text_iff plan.decision "AUTHORIZED_DRY_RUN",
    same_text_iff plan.cas_live_head_sha head,
  ),
)

-- A write is ready exactly when the plan is an authorized dry run, the head is still the planned
-- one, the tree, where both are known, is the planned one, the operation may execute, and its branch is available.
pub ready_iff :
    (plan : MutationPlan) (op d repository ref head : String) (tree : Option String)
    (records : List OperationEntry)
    → ((evaluate_write_boundary plan op d repository ref head tree records).ready ≡ true) ↔ (
        (plan.decision ≡ some "AUTHORIZED_DRY_RUN")
        × (plan.cas_live_head_sha ≡ some head)
        × TreeKept plan.cas_live_tree_sha tree
        × ((evaluate_idempotency op d records).safe_to_execute ≡ true)
        × ((evaluate_branch_serialization repository ref op records).available ≡ true))
ready_iff plan op d repository ref head tree rs =
    let tests = tests_iff plan op d repository ref head tree rs in
    let kept = tree_moved_iff plan.cas_live_tree_sha tree in
    (
      λ h.
          let (decided, same_head, unmoved, safe, available) = tests.0 h in
          (decided, same_head, kept.0 unmoved, safe, available),
      λ (decided, same_head, same_tree, safe, available).
          tests.1 (decided, same_head, kept.1 same_tree, safe, available),
    )
