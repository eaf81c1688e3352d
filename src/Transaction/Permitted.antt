-- ===== src/Transaction/Permitted.antt =====
-- ues/transaction.py: the paths that `validate_authority` permits.
use universal_execution_syst.Prelude.{
  suc, String, Bool, true, false, ◌≡◌, refl, ◌↔◌, inl, inr, ap, List, [], ◌∷◌, or_else,
}
use universal_execution_syst.Prelude.Lists.{is_empty, length, is_empty-append}
use universal_execution_syst.Prelude.Results.{Result, ok, raise, Result-cases}
use universal_execution_syst.Transaction.{Host, Envelope}
use universal_execution_syst.Transaction.Paths.{normalize_path, any_matches}
use universal_execution_syst.Transaction.Validate.{
  normalized_paths, unsafe_paths, judge_path, path_failures,
}

module _ (host : Host) where
  -- A proposed path that can be normalized, that no prohibited pattern matches and some allowed one does.
  abbrev pub IsPermitted : Envelope → String → Type 0
  IsPermitted e raw =
      (p : String) × (normalize_path raw ≡ ok p)
      × (any_matches host e.prohibited_paths p ≡ ok false)
      × (any_matches host (or_else e.allowed_paths []) p ≡ ok true)

  abbrev pub AllPermitted : Envelope → List String → Type 0
  AllPermitted e [] = Unit
  AllPermitted e (raw ∷ raws) = IsPermitted e raw × AllPermitted e raws

  judge_path_iff :
      (path : String) (prohibited allowed : Result Bool)
      → (is_empty (judge_path path prohibited allowed) ≡ true)
        ↔ ((prohibited ≡ ok false) × (allowed ≡ ok true))
  judge_path_iff path (raise x) allowed = (λ h. cc, λ h. cc)
  judge_path_iff path (ok true) allowed = (λ h. cc, λ h. cc)
  judge_path_iff path (ok false) (raise x) = (λ h. cc, λ h. cc)
  judge_path_iff path (ok false) (ok true) = (λ h. (refl, refl), λ h. refl)
  judge_path_iff path (ok false) (ok false) = (λ h. cc, λ h. cc)

  -- What is left to check for the paths.
  abbrev PathsPass : Envelope → List String → Type 0
  PathsPass e raws =
      (is_empty (unsafe_paths raws) ≡ true)
      × (is_empty (
            path_failures host e.prohibited_paths (or_else e.allowed_paths [])
              (normalized_paths raws))
          ≡ true)

  pub AllPermitted-of_pass :
      (e : Envelope) (raws : List String) → PathsPass e raws → AllPermitted e raws
  unfolding unsafe_paths normalized_paths path_failures
  AllPermitted-of_pass e [] h = tt
  AllPermitted-of_pass e (raw ∷ raws) h = elim (Result-cases (normalize_path raw)) [
    | inl (p, n) ↦
        let (unsafe, failed) = (rw (n, normalized_paths, unsafe_paths) at h) in
        let (here, rest) = (is_empty-append _ _).0 failed in
        let (none_prohibited, one_allowed) = (judge_path_iff p _ _).0 here in
        ((p, n, none_prohibited, one_allowed), AllPermitted-of_pass e raws (unsafe, rest))
    | inr (x, n) ↦ cc (rw (n, unsafe_paths) at h.0)
  ]

  pub pass-of_AllPermitted :
      (e : Envelope) (raws : List String) → AllPermitted e raws → PathsPass e raws
  unfolding unsafe_paths normalized_paths path_failures
  pass-of_AllPermitted e [] h = (refl, refl)
  pass-of_AllPermitted e (raw ∷ raws) ((p, n, no_hit, hit), rest) =
      let (unsafe, failed) = pass-of_AllPermitted e raws rest in
      rw n (unsafe, (is_empty-append _ _).1 ((judge_path_iff p _ _).1 (no_hit, hit), failed))

  pub length-normalized :
      (e : Envelope) (raws : List String)
      → AllPermitted e raws
      → length (normalized_paths raws) ≡ length raws
  unfolding normalized_paths
  length-normalized e [] h = refl
  length-normalized e (raw ∷ raws) ((p, n, no_hit, hit), rest) =
      rw n (ap (λ k. suc k) (length-normalized e raws rest))
