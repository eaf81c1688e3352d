-- ===== src/Transaction/Leases.antt =====
-- ues/transaction.py: what it means that `active_lease_conflicts` finds no conflict.
use universal_execution_syst.Prelude.{
  ℕ, ◌<◌, String, true, false, ◌≡◌, refl, ◌⊎◌, inl, inr, ap, ◌∙◌, arith, List, [], ◌∷◌, ◌++◌, ◌==◌,
  one_of, or_else, eq_iff, Bool-cases, ◌≢◌, some, text_or, same_text, same_text_iff,
}
use universal_execution_syst.Prelude.Lists.{empty_lem, is_empty}
use universal_execution_syst.Prelude.Results.{ok, >>=-eq-ok}
use universal_execution_syst.Idempotency.Records.{truthy}
use universal_execution_syst.Transaction.{Host, ActiveLease, LeaseConflict}
use universal_execution_syst.Transaction.Sets.{sorted_set, shared, sorted_set-empty, shared-empty}
use universal_execution_syst.Transaction.Paths.{any_matches}
use universal_execution_syst.Transaction.Covers.{IsCovered, IsCovered-by_none}
use universal_execution_syst.Transaction.Validate.{parse_time}
use universal_execution_syst.Transaction.Plan.{
  Scope, is_foreign, hits_as, paths_hit, lease_hits, conflicts_of, conflicts_all,
}

module _ (host : Host) where
  -- The lease has no expiry, or one that can be read and is still to come.
  abbrev pub Counts : ℕ → ActiveLease → Type 0
  Counts now l =
      (truthy l.expires_at ≡ false)
      ⊎ ((t : ℕ) × (parse_time host (or_else l.expires_at "") ≡ ok t) × (now < t))

  -- The lease has no path and no resource class in common with the scope.
  pub record IsApart (s : Scope) (l : ActiveLease) : Type 0 where
    pub paths :
        (path pattern : String)
        → one_of path s.paths ≡ true
        → one_of pattern l.path_patterns ≡ true
        → ¬ IsCovered host pattern path
    pub resources : (r : String) → one_of r s.resources ≡ true → one_of r l.resource_classes ≡ false

  -- An active lease on the branch that another operation holds.
  pub record IsForeign (s : Scope) (l : ActiveLease) : Type 0 where
    pub active : text_or l.state "ACTIVE" ≡ "ACTIVE"
    pub repository : l.repository ≡ some s.repository
    pub ref : l.ref ≡ some s.ref
    pub other : l.operation_id ≢ some s.operation_id

  IsForeign-is_foreign : (s : Scope) (l : ActiveLease) → IsForeign s l → is_foreign s l ≡ true
  unfolding is_foreign
  IsForeign-is_foreign s l f =
      let active : (text_or l.state "ACTIVE" == "ACTIVE") ≡ true =
        (eq_iff (text_or l.state "ACTIVE") "ACTIVE").1 f.active in
      let repository = (same_text_iff l.repository s.repository).1 f.repository in
      let ref = (same_text_iff l.ref s.ref).1 f.ref in
      let other : same_text l.operation_id (some s.operation_id) ≡ false =
        elim (Bool-cases (same_text l.operation_id (some s.operation_id))) [
          | inl e ↦ absurd (f.other ((same_text_iff l.operation_id s.operation_id).0 e))
          | inr e ↦ e
        ] in
      rw (active, repository, ref, other) refl

  -- Each lease of another operation that counts is apart.
  abbrev pub AllApart : Scope → List ActiveLease → Type 0
  AllApart s [] = Unit
  AllApart s (l ∷ ls) = (IsForeign s l → Counts s.now l → IsApart s l) × AllApart s ls

  paths_hit-none :
      (patterns paths : List String)
      → paths_hit host patterns paths ≡ ok []
      → (path : String) → one_of path paths ≡ true
      → any_matches host patterns path ≡ ok false
  unfolding paths_hit
  paths_hit-none patterns [] h path listed = cc
  paths_hit-none patterns (q ∷ qs) h path listed =
      let (hit, found, more) = >>=-eq-ok (any_matches host patterns q) _ h in
      let (rest, others, e) = >>=-eq-ok (paths_hit host patterns qs) _ more in
      elim (Bool-cases hit) [
        | inl b ↦ cc (rw b at e)
        | inr b ↦ elim (Bool-cases (path == q)) [
          | inl same ↦ rw ((eq_iff path q).0 same) (found ∙ ap (λ x. ok x) b)
          | inr other ↦ paths_hit-none patterns qs (others ∙ (rw b at e)) path (rw other at listed)
        ]
      ]

  lease_hits-none : (s : Scope) (l : ActiveLease) → lease_hits host s l ≡ ok [] → IsApart s l
  unfolding lease_hits
  lease_hits-none s l h =
      let (hits, found, e) = >>=-eq-ok (paths_hit host l.path_patterns s.paths) _ h in
      let (no_paths, no_resources) = both hits e in
      record {
        paths = λ path pattern proposed listed.
            IsCovered-by_none host l.path_patterns path
              (paths_hit-none l.path_patterns s.paths
                (found ∙ ap (λ x. ok x) (empty_lem hits no_paths)) path proposed)
              pattern listed;
        resources = shared-empty s.resources l.resource_classes no_resources;
      }
    where
      both :
          (hits : List String)
          → ok (hits_as l (sorted_set hits) (sorted_set (shared s.resources l.resource_classes)))
            ≡ ok []
          → (is_empty hits ≡ true) × (is_empty (shared s.resources l.resource_classes) ≡ true)
      both hits e =
          ground
            (arith, sorted_set-empty hits, sorted_set-empty (shared s.resources l.resource_classes))

  conflicts_of-none :
      (s : Scope) (l : ActiveLease)
      → conflicts_of host s l ≡ ok []
      → is_foreign s l ≡ true
      → Counts s.now l
      → IsApart s l
  unfolding conflicts_of
  conflicts_of-none s l h foreign (inl endless) = lease_hits-none s l (rw (foreign, endless) at h)
  conflicts_of-none s l h foreign (inr (t, read, later)) = elim (Bool-cases (truthy l.expires_at)) [
    | inl given ↦ lease_hits-none s l (ground arith)
    | inr endless ↦ lease_hits-none s l (rw (foreign, endless) at h)
  ]

  pub conflicts_all-none :
      (s : Scope) (ls : List ActiveLease) → conflicts_all host s ls ≡ ok [] → AllApart s ls
  unfolding conflicts_all
  conflicts_all-none s [] h = tt
  conflicts_all-none s (l ∷ ls) h =
      let (found, first, more) = >>=-eq-ok (conflicts_of host s l) _ h in
      let (rest, others, e) = >>=-eq-ok (conflicts_all host s ls) _ more in
      let (none_here, none_there) = nothing found rest e in
      (
        λ foreign. conflicts_of-none s l (first ∙ none_here) (IsForeign-is_foreign s l foreign),
        conflicts_all-none s ls (others ∙ none_there),
      )
    where
      nothing :
          (xs ys : List LeaseConflict) → ok (xs ++ ys) ≡ ok [] → (ok xs ≡ ok []) × (ok ys ≡ ok [])
      nothing [] ys e = (refl, e)
      nothing (x ∷ xs) ys e = cc
