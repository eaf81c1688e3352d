-- ===== src/Failures.antt =====
-- ues/failures.py: the classification of failures, the scope that a blocker gets, and the collapse of
-- failures with one root. A flag is its truth value.
use Prim.Native.String.{[] as empty, ◌∷◌ as cons, ◌++◌ as concat}
use Prim.Native.Char.{code}
use universal_execution_syst.Prelude.{
  ℕ, suc, String, Bool, true, false, not, ◌&&◌, ◌||◌, Option, none, some, List, [], ◌∷◌,
  if◌then◌else◌, ◌==◌, one_of, text_or, nat_eq, leb, map,
}
use universal_execution_syst.Prelude.Lists.{select}
use universal_execution_syst.Prelude.Texts.{strip, is_blank}
use universal_execution_syst.Runtime.{Runtime}
pub mod Collapse
mod Cascade
mod Examples

-- What `classify_failure` reads; `base_reproduces` and `transient` are tested by `is True` and `is False`.
pub record FailureSignals : Type 0 where
  pub origin : Option String
  pub stage : Option String
  pub base_reproduces : Option Bool
  pub retry_count : ℕ
  pub transient : Option Bool
  pub stale_candidate : Bool
  pub flaky : Bool
  pub security : Bool
  pub billing : Bool
  pub upstream : Bool

pub data Confidence : Type 0 where
  low medium high : Confidence

pub record Classification : Type 0 where
  pub category : String
  pub confidence : Confidence

-- CANDIDATE_STAGE_CATEGORY
unfoldable pub stage_category : String → Option String
stage_category stage =
    if one_of stage ("code" ∷ "lint" ∷ "typecheck" ∷ [])
    then some "CANDIDATE_CODE_DEFECT"
    else if stage == "test"
    then some "CANDIDATE_TEST_DEFECT"
    else if stage == "format"
    then some "CANDIDATE_FORMAT_DEFECT"
    else if stage == "build"
    then some "CANDIDATE_BUILD_DEFECT"
    else none

abbrev pub is_true : Option Bool → Bool
is_true (some true) = true
is_true _ = false

abbrev pub is_false : Option Bool → Bool
is_false (some false) = true
is_false _ = false

abbrev pub classified : String → Confidence → Classification
classified category confidence = record { category = category; confidence = confidence }

unfoldable pub classify_infrastructure : FailureSignals → Classification
classify_infrastructure f =
    if is_true f.transient
    then classified "INFRASTRUCTURE_TRANSIENT" high
    else if is_false f.transient && leb 1 f.retry_count
    then classified "INFRASTRUCTURE_PERSISTENT" medium
    else classified "UNKNOWN_REQUIRES_TRIAGE" low

-- The branches for a candidate, and the last two.
abbrev pub classify_stage : String → Option String → Classification
classify_stage origin (some category) =
    if origin == "candidate"
    then classified category high
    else if origin == "not-applicable"
    then classified "NOT_APPLICABLE" high
    else classified "UNKNOWN_REQUIRES_TRIAGE" low
classify_stage origin none =
    if origin == "not-applicable"
    then classified "NOT_APPLICABLE" high
    else classified "UNKNOWN_REQUIRES_TRIAGE" low

-- The branches of `classify_failure`, on the lower-case origin and stage.
unfoldable pub classify_as : FailureSignals → String → String → Classification
unfolding classify_infrastructure stage_category
classify_as f origin stage =
    if f.stale_candidate
    then classified "STALE_OR_WRONG_CANDIDATE" high
    else if f.billing || one_of origin ("authorization" ∷ "billing" ∷ [])
    then classified "AUTHORIZATION_OR_BILLING_BLOCKER" high
    else if f.upstream || origin == "upstream"
    then classified "UPSTREAM_SERVICE_FAILURE" medium
    else if origin == "infrastructure"
    then classify_infrastructure f
    else if origin == "ci"
    then classified "CI_CONFIGURATION_DEFECT" high
    else if f.security || origin == "dependency-security"
    then classified "DEPENDENCY_SECURITY_DEFECT" high
    else if is_true f.base_reproduces || origin == "baseline"
    then classified "SHARED_BASELINE_DEFECT" high
    else if f.flaky
    then classified "FLAKY_TEST_SUSPECTED" medium
    else classify_stage origin (stage_category stage)

unfoldable pub classify_failure : Runtime → FailureSignals → Classification
unfolding classify_as
classify_failure rt f =
    classify_as f (rt.lower (text_or f.origin "unknown")) (rt.lower (text_or f.stage "unknown"))

-- What `classify_provider_failure` reads; the status is `none` where it is no natural number.
pub record ProviderSignals : Type 0 where
  pub status_code : Option ℕ
  pub network_error : Bool
  pub protocol_error : Bool
  pub write_outcome_unknown : Bool
  pub retry_after : Option String

pub record ProviderClassification : Type 0 where
  pub category : String
  pub retry_class : String
  pub confidence : Confidence
  pub retry_after : Option String
  pub safe_to_blind_retry : Bool

abbrev pub status_is : Option ℕ → ℕ → Bool
status_is none n = false
status_is (some m) n = nat_eq m n

abbrev pub is_server_error : Option ℕ → Bool
is_server_error none = false
is_server_error (some n) = leb 500 n && leb n 599

abbrev pub provider_classified : ProviderSignals → String → String → ProviderClassification
provider_classified f category retry_class = record {
  category = category;
  retry_class = retry_class;
  confidence = if category == "UNKNOWN_REQUIRES_TRIAGE" then low else high;
  retry_after = if category == "PROVIDER_RATE_LIMIT" then f.retry_after else none;
  safe_to_blind_retry = false;
}

unfoldable pub classify_provider_failure : ProviderSignals → ProviderClassification
classify_provider_failure f =
    if f.write_outcome_unknown
    then provider_classified f "WRITE_OUTCOME_UNKNOWN" "AUTHORITATIVE_POST_READ_REQUIRED"
    else if status_is f.status_code 401
    then provider_classified f "PROVIDER_AUTHENTICATION" "NO_RETRY_WITHOUT_CREDENTIAL_CHANGE"
    else if status_is f.status_code 403
    then provider_classified f "PROVIDER_AUTHORIZATION" "NO_RETRY_WITHOUT_AUTHORITY_CHANGE"
    else if status_is f.status_code 404
    then provider_classified f "PROVIDER_NOT_FOUND" "NO_RETRY_WITHOUT_BINDING_RECONCILIATION"
    else if status_is f.status_code 429
    then provider_classified f "PROVIDER_RATE_LIMIT" "BOUNDED_READ_RETRY_ONLY"
    else if is_server_error f.status_code
    then provider_classified f "PROVIDER_SERVER_ERROR" "BOUNDED_READ_RETRY_ONLY"
    else if f.network_error
    then provider_classified f "PROVIDER_NETWORK_ERROR" "BOUNDED_READ_RETRY_ONLY"
    else if f.protocol_error
    then provider_classified f "PROVIDER_PROTOCOL_ERROR" "FAIL_CLOSED"
    else provider_classified f "UNKNOWN_REQUIRES_TRIAGE" "FAIL_CLOSED"

-- `text.startswith(prefix)`
unfoldable pub starts_with : String → String → Bool
starts_with empty s = true
starts_with (cons c p) empty = false
starts_with (cons c p) (cons d s) = let rest = starts_with p s in nat_eq (code c) (code d) && rest

pub record Blocker : Type 0 where
  pub scope : String
  pub blocks : List String
  pub remediation_owner : String

abbrev pub scoped : String → List String → String → Blocker
scoped scope blocks owner = record { scope = scope; blocks = blocks; remediation_owner = owner }

abbrev pub shared_categories : List String
shared_categories =
    "SHARED_BASELINE_DEFECT" ∷ "DEPENDENCY_SECURITY_DEFECT" ∷ "CI_CONFIGURATION_DEFECT" ∷ []

abbrev pub external_categories : List String
external_categories =
    "INFRASTRUCTURE_TRANSIENT" ∷ "INFRASTRUCTURE_PERSISTENT" ∷ "AUTHORIZATION_OR_BILLING_BLOCKER"
    ∷ "UPSTREAM_SERVICE_FAILURE" ∷ "PROVIDER_AUTHENTICATION" ∷ "PROVIDER_AUTHORIZATION"
    ∷ "PROVIDER_RATE_LIMIT" ∷ "PROVIDER_SERVER_ERROR" ∷ "PROVIDER_NETWORK_ERROR" ∷ []

unfoldable pub scope_blocker : String → String → Blocker
unfolding starts_with
scope_blocker category workstream_id =
    if starts_with "CANDIDATE_" category
    then scoped "WORKSTREAM" (workstream_id ∷ []) "CURRENT_WORKSTREAM"
    else if one_of category shared_categories
    then scoped "SHARED_DOMAIN" [] "SEPARATE_SHARED_LANE"
    else if one_of category external_categories
    then scoped "EXTERNAL" [] "PLATFORM_OR_EXTERNAL_OWNER"
    else if one_of category
        ("PROVIDER_NOT_FOUND" ∷ "PROVIDER_PROTOCOL_ERROR" ∷ "WRITE_OUTCOME_UNKNOWN" ∷ [])
    then scoped "EVIDENCE" (workstream_id ∷ []) "CONTROL_PLANE"
    else if category == "STALE_OR_WRONG_CANDIDATE"
    then scoped "EVIDENCE" (workstream_id ∷ []) "CONTROL_PLANE"
    else if category == "NOT_APPLICABLE"
    then scoped "NONE" [] "NONE"
    else scoped "UNKNOWN" (workstream_id ∷ []) "READ_ONLY_TRIAGE"

-- What the collapse reads of a failure; a field is `none` where it is no text.
pub record RootedFailure : Type 0 where
  pub root_evidence_id : Option String
  pub shared_root_id : Option String
  pub incident_id : Option String
  pub lane_id : Option String
  pub project : Option String
  pub route : Option String
  pub workstream : Option String
  pub workstream_id : Option String

-- A text that is not blank, stripped.
unfoldable pub filled : Option String → Option String
unfolding is_blank strip
filled none = none
filled (some s) = if is_blank s then none else some (strip s)

abbrev pub first_of : Option String → Option String → Option String
first_of none o = o
first_of (some s) o = some s

unfoldable pub root_identity : RootedFailure → Option String
unfolding filled
root_identity f =
    first_of (filled f.root_evidence_id) (first_of (filled f.shared_root_id) (filled f.incident_id))

-- `failure.get("workstream") or failure.get("workstream_id")`
abbrev pub given_or : Option String → Option String → Option String
given_or none o = o
given_or (some s) o = if s == "" then o else some s

abbrev pub lane_of_parts : Option String → Option String → Option String → Option String
lane_of_parts (some p) (some r) (some w) = some (concat p (concat "|" (concat r (concat "|" w))))
lane_of_parts p r w = w

unfoldable pub lane_identity : RootedFailure → Option String
unfolding filled
lane_identity f = first_of (filled f.lane_id) (
    lane_of_parts (filled f.project) (filled f.route)
      (filled (given_or f.workstream f.workstream_id)))

abbrev pub has_root : String → Option String → Bool
has_root root none = false
has_root root (some r) = r == root

-- `by_root[root]`
unfoldable pub rooted_in : String → List RootedFailure → List RootedFailure
unfolding root_identity
rooted_in root failures = select (λ f. has_root root (root_identity f)) failures
