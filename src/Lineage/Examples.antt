-- ===== src/Lineage/Examples.antt =====
-- Runs of ues/lineage_registry.py.
use universal_execution_syst.Prelude.{◌≡◌, refl, false, ◌↔◌, none, some, String, List, [], ◌∷◌}
use universal_execution_syst.Runtime.Plain.{plain}
use universal_execution_syst.Lineage.{
  Session, LineagePolicy, unbound, proven, ambiguous, is_governed, fingerprints_of,
  match_lineage_session, exact_governed_lineage_binding_branch_drift,
}
use universal_execution_syst.Lineage.Bound.{In, IsGoverned, match-IsGoverned}

abbrev session_of : String → String → String → Session
session_of repository fingerprint time = record {
  source_repository = some repository;
  session_fingerprint = some fingerprint;
  normalized_state = none;
  state = some "PAUSED";
  update_time = some time;
  create_time = none;
  source_starting_branch = some "main";
}

abbrev policy : LineagePolicy
policy = record {
  provider_starting_branch = some "work";
  known_session_fingerprints = "f1" ∷ " " ∷ "f2 " ∷ [];
}

abbrev sessions : List Session
sessions = session_of "r" "f1" "1" ∷ session_of "other" "f1" "9" ∷ session_of " r" "f2" "2" ∷ []

latest_test :
    (match_lineage_session plain (λ s. s) sessions policy "r").session
    ≡ some (session_of " r" "f2" "2")
unfolding match_lineage_session
latest_test = refl

drift_test :
    (match_lineage_session plain (λ s. s) sessions policy "r").reason
    ≡ exact_governed_lineage_binding_branch_drift
unfolding match_lineage_session
drift_test = refl

tied_test :
    (match_lineage_session plain
      (λ s. s)
      (session_of "r" "f1" "1" ∷ session_of "r" "f2" "1" ∷ [])
      policy
      "r").status
    ≡ ambiguous
unfolding match_lineage_session
tied_test = refl

match-IsGoverned_example :
    ((match_lineage_session plain (λ s. s) sessions policy "r").status ≡ unbound ↔ (
      (s : Session)
      → In s sessions
      → is_governed plain (λ s. s) (fingerprints_of plain policy) "r" s ≡ false))
    × ((match_lineage_session plain (λ s. s) sessions policy "r").status ≡ proven
        → (s : Session) × ((match_lineage_session plain (λ s. s) sessions policy "r").session
            ≡ some s)
          × IsGoverned plain (λ s. s) sessions policy "r" s)
match-IsGoverned_example = match-IsGoverned plain (λ s. s) sessions policy "r"
