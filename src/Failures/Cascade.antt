-- ===== src/Failures/Cascade.antt =====
-- ues/failures.py: which failures `collapse_failure_cascade` joins.
use universal_execution_syst.Prelude.{
  ◌≤◌, String, Bool, true, false, not, ◌&&◌, ◌≡◌, refl, ap, sym, ◌∙◌, ◌↔◌, List, [], ◌∷◌, leb, map,
  arith, one_of, ◌==◌, eq_iff, eq_refl, Bool-cases, Option-cases, inl, inr, if◌then◌else◌,
}
use universal_execution_syst.Prelude.Lists.{select}
use universal_execution_syst.Transaction.Sets.{one_of-sorted_set}
use universal_execution_syst.Failures.{RootedFailure, root_identity, has_root, rooted_in}
use universal_execution_syst.Failures.Collapse.{
  Cascade, roots_of, count, is_shared_root, is_shared, shared_ids, blocker_of,
  collapse_failure_cascade,
}

one_of-select :
    (p : String → Bool) (r : String) (xs : List String)
    → one_of r (select p xs) ≡ (one_of r xs && p r)
one_of-select p r [] = refl
one_of-select p r (x ∷ xs) = elim (Bool-cases (r == x)) [
  | inl e ↦ same (one_of-select p r xs) ((eq_iff r x).0 e)
  | inr e ↦ ground (arith, one_of-select p r xs)
]
  where
    same :
        one_of r (select p xs) ≡ (one_of r xs && p r)
        → r ≡ x
        → one_of r (select p (x ∷ xs)) ≡ (one_of r (x ∷ xs) && p r)
    same rest e = ground (arith, e, ap p e, eq_refl x, rest)

-- A root that some failure carries is one of the roots.
one_of-roots_of :
    (r : String) (fs : List RootedFailure) → 1 ≤ count r fs → one_of r (roots_of fs) ≡ true
unfolding rooted_in roots_of
one_of-roots_of r [] h = absurd (omega arith)
one_of-roots_of r (f ∷ fs) h = elim (Option-cases (root_identity f)) [
  | inl e ↦ rw e (one_of-roots_of r fs (rw e at h))
  | inr (root, e) ↦ rw e (elim (Bool-cases (root == r)) [
    | inl same ↦ ground (arith, eq_iff root r, eq_refl r)
    | inr other ↦ ground (arith, one_of-roots_of r fs (rw (e, other) at h))
  ])
]

-- The ids of the incidents that are reported.
abbrev pub incidents : Cascade → List String
incidents c = map (λ b. b.incident_id) c.shared_blockers

incidents-blockers :
    (fs : List RootedFailure) (roots : List String)
    → map (λ b. b.incident_id) (map (blocker_of fs) roots) ≡ roots
unfolding blocker_of
incidents-blockers fs [] = refl
incidents-blockers fs (r ∷ rs) = ap (λ l. r ∷ l) (incidents-blockers fs rs)

one_of-shared_ids :
    (r : String) (fs : List RootedFailure) → one_of r (shared_ids fs) ≡ is_shared_root fs r
unfolding shared_ids
one_of-shared_ids r fs =
    one_of-sorted_set r (select (is_shared_root fs) (roots_of fs))
    ∙ (one_of-select (is_shared_root fs) r (roots_of fs) ∙ listed)
  where
    listed : (one_of r (roots_of fs) && is_shared_root fs r) ≡ is_shared_root fs r
    listed = elim (Bool-cases (is_shared_root fs r)) [
      | inl e ↦ rw (e, one_of-roots_of r fs (ground arith)) refl
      | inr e ↦ ground (arith, e)
    ]

-- Of the failures of one root that are left unshared: none where the root is shared, else all.
rooted_in-unshared :
    (r : String) (all_failures fs : List RootedFailure)
    → rooted_in r (select (λ f. not (is_shared all_failures (root_identity f))) fs)
      ≡ (if is_shared_root all_failures r then [] else rooted_in r fs)
unfolding rooted_in
rooted_in-unshared r fs0 [] = ground arith
rooted_in-unshared r fs0 (f ∷ fs) = elim (Option-cases (root_identity f)) [
  | inl e ↦ ground (arith, e, rooted_in-unshared r fs0 fs)
  | inr (root, e) ↦
      step root (is_shared fs0 (root_identity f)) (has_root r (root_identity f))
        (is_shared_root fs0 root) refl refl refl (ap (is_shared fs0) e) (ap (has_root r) e)
        (rooted_in-unshared r fs0 fs)
]
  where
    same : (root : String) → true ≡ (root == r) → is_shared_root fs0 r ≡ is_shared_root fs0 root
    same root e = ap (is_shared_root fs0) (sym ((eq_iff root r).0 (sym e)))

    choose : (b : Bool) (xs ys : List RootedFailure) → b ≡ true → (if b then xs else ys) ≡ xs
    choose b xs ys e = rw e refl

    pick : (b : Bool) (xs ys : List RootedFailure) → b ≡ false → (if b then xs else ys) ≡ ys
    pick b xs ys e = rw e refl

    step :
        (root : String) (b h k : Bool)
        → is_shared fs0 (root_identity f) ≡ b
        → has_root r (root_identity f) ≡ h
        → is_shared_root fs0 root ≡ k
        → b ≡ k
        → h ≡ (root == r)
        → rooted_in r (select (λ f. not (is_shared fs0 (root_identity f))) fs)
          ≡ (if is_shared_root fs0 r then [] else rooted_in r fs)
        → rooted_in r (select (λ f. not (is_shared fs0 (root_identity f))) (f ∷ fs))
          ≡ (if is_shared_root fs0 r then [] else rooted_in r (f ∷ fs))
    step root true true k e1 e2 e3 e4 e5 rest =
        let s : is_shared_root fs0 r ≡ true = same root e5 ∙ (e3 ∙ sym e4) in
        rw (e1, e2, rooted_in)
          (rest
            ∙ (choose (is_shared_root fs0 r) [] (rooted_in r fs) s
                ∙ sym (choose (is_shared_root fs0 r) [] (f ∷ rooted_in r fs) s)))
    step root true false k e1 e2 e3 e4 e5 rest = rw (e1, e2, rooted_in) rest
    step root false true k e1 e2 e3 e4 e5 rest =
        let s : is_shared_root fs0 r ≡ false = same root e5 ∙ (e3 ∙ sym e4) in
        rw (e1, e2, rooted_in)
          (ap (λ l. f ∷ l) (rest ∙ pick (is_shared_root fs0 r) [] (rooted_in r fs) s)
            ∙ sym (pick (is_shared_root fs0 r) [] (f ∷ rooted_in r fs) s))
    step root false false k e1 e2 e3 e4 e5 rest = rw (e1, e2, rooted_in) rest

-- `collapse_failure_cascade` reports an incident for a root exactly when at least two of the failures carry
-- that root; then none of them is left unshared, and otherwise all of them are.
pub collapse_iff :
    (fs : List RootedFailure) (r : String)
    → ((one_of r (incidents (collapse_failure_cascade fs)) ≡ true) ↔ (2 ≤ count r fs))
      × (rooted_in r (collapse_failure_cascade fs).unshared_failures
          ≡ (if leb 2 (count r fs) then [] else rooted_in r fs))
unfolding collapse_failure_cascade
collapse_iff fs r =
    ((λ h. ground (arith, sym shared ∙ h), λ h. shared ∙ ground arith), rooted_in-unshared r fs fs)
  where
    shared : one_of r (incidents (collapse_failure_cascade fs)) ≡ is_shared_root fs r
    shared = ap (one_of r) (incidents-blockers fs (shared_ids fs)) ∙ one_of-shared_ids r fs
