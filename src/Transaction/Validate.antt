-- ===== src/Transaction/Validate.antt =====
-- ues/transaction.py: `_parse_time`, `validate_authority` and `active_lease_conflicts`.
use universal_execution_syst.Prelude.{
  ℕ, String, Bool, true, false, not, ◌&&◌, Option, none, some, List, [], ◌∷◌, ◌++◌, if◌then◌else◌,
  ◌==◌, or_else, ltb, leb, is_some, same_text,
}
use universal_execution_syst.Prelude.Lists.{is_empty, length}
use universal_execution_syst.Prelude.Splits.{replace}
use universal_execution_syst.Prelude.Results.{Result, ok, raise, value_error}
use universal_execution_syst.Idempotency.Records.{truthy}
use universal_execution_syst.TaskBudget.{ℤ, pos, negsuc}
use universal_execution_syst.Transaction.{
  Timestamp, Host, Envelope, Attempt, AuthorityFailure, Validation, authority_field_missing,
  unsafe_path, operation_id_mismatch, workstream_id_mismatch, repository_mismatch, ref_mismatch,
  head_mismatch, tree_mismatch, operation_mismatch, authority_expired, invalid_expiry,
  prohibited_path, path_outside_write_set, invalid_path_policy, resource_outside_authority,
  write_set_too_large,
}
use universal_execution_syst.Transaction.Sets.{sorted_set, without}
use universal_execution_syst.Transaction.Paths.{normalize_path, any_matches}

-- `if test: failures.append(failure)`
abbrev pub when : Bool → AuthorityFailure → List AuthorityFailure
when test failure = if test then failure ∷ [] else []

abbrev pub missing : String → Option String → List AuthorityFailure
missing key value = when (not (truthy value)) (authority_field_missing key)

unfoldable pub missing_fields : Envelope → List AuthorityFailure
missing_fields e =
    missing "schema_version" e.schema_version
    ++ (missing "operation_id" e.operation_id
        ++ (missing "workstream_id" e.workstream_id
            ++ (missing "repository" e.repository
                ++ (missing "ref" e.ref
                    ++ (missing "expected_head_sha" e.expected_head_sha
                        ++ (missing "operation" e.operation
                            ++ (when (not (is_some e.allowed_paths))
                                  (authority_field_missing "allowed_paths")
                                ++ missing "stop_gate" e.stop_gate)))))))

abbrev pub keep_path : Result String → List String → List String
keep_path (ok p) rest = p ∷ rest
keep_path (raise e) rest = rest

abbrev pub note_path : Result String → String → List AuthorityFailure → List AuthorityFailure
note_path (ok p) raw rest = rest
note_path (raise e) raw rest = unsafe_path raw ∷ rest

unfoldable pub normalized_paths : List String → List String
unfolding normalize_path
normalized_paths [] = []
normalized_paths (raw ∷ raws) = keep_path (normalize_path raw) (normalized_paths raws)

unfoldable pub unsafe_paths : List String → List AuthorityFailure
unfolding normalize_path
unsafe_paths [] = []
unsafe_paths (raw ∷ raws) = note_path (normalize_path raw) raw (unsafe_paths raws)

-- `if expected and actual != expected`
abbrev pub unexpected : Option String → String → Bool
unexpected expected actual = truthy expected && not (or_else expected "" == actual)

abbrev pub other_tree : Option String → Option String → Bool
other_tree expected live = truthy expected && truthy live && not (same_text expected live)

unfoldable pub mismatches : Envelope → Attempt → List AuthorityFailure
mismatches e a =
    when (unexpected a.expected_operation_id (or_else e.operation_id "")) operation_id_mismatch
    ++ (when (unexpected a.expected_workstream_id (or_else e.workstream_id ""))
          workstream_id_mismatch
        ++ (when (not (or_else e.repository "" == a.repository)) repository_mismatch
            ++ (when (not (or_else e.ref "" == a.ref)) ref_mismatch
                ++ (when (not (or_else e.expected_head_sha "" == a.live_head_sha)) head_mismatch
                    ++ (when (other_tree e.expected_tree_sha a.live_tree_sha) tree_mismatch
                        ++ when (not (or_else e.operation "" == a.operation))
                            operation_mismatch)))))

abbrev pub too_large : Option ℤ → ℕ → Bool
too_large none n = false
too_large (some (pos limit)) n = ltb limit n
too_large (some (negsuc k)) n = true

abbrev pub zoned : Option Timestamp → Result ℕ
zoned none = raise value_error
zoned (some t) = if t.has_zone then ok t.instant else raise value_error

abbrev pub judge_expiry : ℕ → Result ℕ → List AuthorityFailure
judge_expiry now (ok expiry) = when (leb expiry now) authority_expired
judge_expiry now (raise e) = invalid_expiry ∷ []

-- Whether a prohibited pattern matches the path, and whether an allowed one does.
abbrev pub judge_path : String → Result Bool → Result Bool → List AuthorityFailure
judge_path path (raise e) allowed = invalid_path_policy path ∷ []
judge_path path (ok true) allowed = prohibited_path path ∷ []
judge_path path (ok false) (raise e) = invalid_path_policy path ∷ []
judge_path path (ok false) (ok hit) = when (not hit) (path_outside_write_set path)

abbrev pub outside : List String → List AuthorityFailure
outside [] = []
outside (r ∷ rs) = resource_outside_authority r ∷ outside rs

module _ (host : Host) where
  unfoldable pub parse_time : String → Result ℕ
  unfolding replace
  parse_time value = zoned (host.fromisoformat (replace b'Z' "+00:00" value))

  unfoldable pub expiry_failures : ℕ → Option String → List AuthorityFailure
  unfolding parse_time
  expiry_failures now expires_at =
      if truthy expires_at then judge_expiry now (parse_time (or_else expires_at "")) else []

  unfoldable pub path_failures : List String → List String → List String → List AuthorityFailure
  unfolding any_matches
  path_failures prohibited allowed [] = []
  path_failures prohibited allowed (path ∷ paths) =
      judge_path path (any_matches host prohibited path) (any_matches host allowed path)
      ++ path_failures prohibited allowed paths

  unfoldable pub authority_failures : Envelope → Attempt → List AuthorityFailure
  unfolding missing_fields normalized_paths unsafe_paths mismatches expiry_failures path_failures
      sorted_set
  authority_failures e a =
      let paths = normalized_paths a.proposed_paths in
      missing_fields e
      ++ (unsafe_paths a.proposed_paths
          ++ (mismatches e a
              ++ (expiry_failures a.now e.expires_at
                  ++ (path_failures e.prohibited_paths (or_else e.allowed_paths []) paths
                      ++ (outside (sorted_set (without e.resource_classes a.resource_classes))
                          ++ when (too_large e.max_changed_paths (length paths))
                              write_set_too_large)))))

  unfoldable pub validate_authority : Envelope → Attempt → Validation
  unfolding authority_failures normalized_paths sorted_set
  validate_authority e a =
      let failures = authority_failures e a in
      record {
        valid = is_empty failures;
        operation_id = or_else e.operation_id "";
        workstream_id = or_else e.workstream_id "";
        stop_gate = e.stop_gate;
        expected_head_sha = e.expected_head_sha;
        expected_tree_sha = e.expected_tree_sha;
        proposed_paths = normalized_paths a.proposed_paths;
        resource_classes = sorted_set a.resource_classes;
        failures = failures;
      }
