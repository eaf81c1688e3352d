-- ===== src/Lineage.antt =====
-- ues/lineage_registry.py: which provider session a logical lineage is bound to. This file: the roles,
-- the lane of a lineage and `match_lineage_session`. `str.casefold` is a parameter.
use Prim.Native.String.{◌++◌}
use universal_execution_syst.Prelude.{
  ℕ, String, Bool, true, false, not, ◌&&◌, ◌||◌, Option, none, some, List, [], ◌∷◌, if◌then◌else◌,
  ◌==◌, one_of, text_or, ltb, nat_eq, map,
}
use universal_execution_syst.Prelude.Lists.{is_empty, select, length}
use universal_execution_syst.Prelude.Texts.{strip, is_blank}
use universal_execution_syst.Prelude.Results.{Result, ok, raise, value_error, ◌>>=◌}
use universal_execution_syst.Runtime.{Runtime}
use universal_execution_syst.Idempotency.Effect.{text_le}
use universal_execution_syst.Identity.{Quoting, text_of, canonical_lane_id}
mod Bound
mod Examples

abbrev pub terminal_session_states : List String
terminal_session_states = "COMPLETED" ∷ "FAILED" ∷ []

-- What the code reads of a provider's session.
pub record Session : Type 0 where
  pub source_repository : Option String
  pub session_fingerprint : Option String
  pub normalized_state : Option String
  pub state : Option String
  pub update_time : Option String
  pub create_time : Option String
  pub source_starting_branch : Option String

pub record LineagePolicy : Type 0 where
  pub provider_starting_branch : Option String
  pub known_session_fingerprints : List String

pub data Binding : Type 0 where
  unbound proven ambiguous : Binding

pub data BindingReason : Type 0 where
  exact_session_fingerprint_required : BindingReason
  no_exact_governed_session_fingerprint_match : BindingReason
  multiple_exact_lineage_session_matches : BindingReason
  exact_governed_lineage_binding : BindingReason
  exact_governed_lineage_binding_branch_drift : BindingReason
  exact_governed_lineage_binding_branch_metadata_unavailable : BindingReason

-- What a proven binding adds to the result.
pub record Proof : Type 0 where
  pub session_fingerprint : String
  pub provider_state : String
  pub continuation_disposition : String
  pub provider_starting_branch_metadata_missing : Bool
  pub provider_starting_branch_metadata_drift : Bool
  pub expected_provider_starting_branch : Option String
  pub observed_provider_starting_branch : Option String

pub record LineageMatch : Type 0 where
  pub status : Binding
  pub reason : BindingReason
  pub session : Option Session
  pub candidate_count : ℕ
  pub details : Option Proof

unfoldable pub no_binding : Binding → BindingReason → ℕ → LineageMatch
no_binding status reason n = record {
  status = status;
  reason = reason;
  session = none;
  candidate_count = n;
  details = none;
}

-- `value or None`, where the value is a text.
abbrev pub given : String → Option String
given s = if s == "" then none else some s

module _ (rt : Runtime) where
  unfoldable pub normalize_role : Option String → Result String
  unfolding strip
  normalize_role value =
      let role = rt.upper (strip (text_of value)) in
      if one_of role ("WRITER" ∷ "REVIEWER" ∷ "ASSURANCE" ∷ []) then ok role else raise value_error

  unfoldable pub continuation_disposition : String → String
  unfolding strip
  continuation_disposition state =
      let normalized = rt.upper (strip (text_or (some state) "UNKNOWN")) in
      if one_of normalized ("AWAITING_USER_FEEDBACK" ∷ "IN_PROGRESS" ∷ [])
      then "REUSE_SAME_SESSION"
      else if normalized == "AWAITING_PLAN_APPROVAL"
      then "APPROVE_PLAN_OR_RECONCILE_SAME_SESSION"
      else if one_of normalized ("QUEUED" ∷ "PLANNING" ∷ [])
      then "WAIT_ACTIVE_SAME_SESSION"
      else if normalized == "PAUSED"
      then "RECONCILE_PAUSED_SAME_SESSION"
      else if one_of normalized terminal_session_states
      then "TERMINAL_REPLACE_ONLY_IF_MORE_WORK_REQUIRED"
      else "RECONCILE_UNKNOWN_SESSION_STATE"

  unfoldable pub lineage_lane_id :
      Quoting → Option String → Option String → String → Option String → Result String
  unfolding normalize_role canonical_lane_id strip
  lineage_lane_id url project route workstream role = do
    r ← normalize_role role
    canonical_lane_id url project route (some ("LINEAGE::" ++ (strip workstream ++ ("::" ++ r))))

  -- The state of a session, with what stands for an absent one.
  unfoldable pub state_of_session : String → Session → String
  state_of_session absent s = rt.upper (text_or s.normalized_state (text_or s.state absent))

  unfoldable pub is_active : String → Session → Bool
  unfolding state_of_session
  is_active absent s = not (one_of (state_of_session absent s) terminal_session_states)

  -- The second component of `_sort_key`; the first one is `is_active`.
  unfoldable pub time_of : Session → String
  unfolding strip
  time_of s = strip (text_or s.update_time (text_of s.create_time))

  -- `_sort_key(a) < _sort_key(b)`, and whether the keys are equal.
  unfoldable pub key_before : Session → Session → Bool
  unfolding is_active time_of
  key_before a b = cond (is_active "UNKNOWN" a) (is_active "UNKNOWN" b)
    where
      earlier : Bool
      earlier = not (text_le (time_of b) (time_of a))

      cond : Bool → Bool → Bool
      cond false true = true
      cond true false = false
      cond _ _ = earlier

  unfoldable pub same_key : Session → Session → Bool
  unfolding key_before
  same_key a b = not (key_before a b) && not (key_before b a)

  -- `sorted(candidates, key=_sort_key, reverse=True)`: equal keys keep their order.
  unfoldable pub insert_session : Session → List Session → List Session
  unfolding key_before
  insert_session x [] = x ∷ []
  insert_session x (y ∷ ys) =
      let rest = insert_session x ys in if key_before x y then y ∷ rest else x ∷ y ∷ ys

  unfoldable pub sort_sessions : List Session → List Session
  unfolding insert_session
  sort_sessions [] = []
  sort_sessions (x ∷ xs) = insert_session x (sort_sessions xs)

  -- The head of the ordered candidates, where the next one does not have its key.
  unfoldable pub first_unless_tied : List Session → Option Session
  unfolding same_key
  first_unless_tied [] = none
  first_unless_tied (s ∷ []) = some s
  first_unless_tied (s ∷ t ∷ rest) = if same_key t s then none else some s

  unfoldable pub choose_active : List Session → List Session → Option Session
  unfolding first_unless_tied sort_sessions
  choose_active candidates (s ∷ []) = some s
  choose_active candidates _ = first_unless_tied (sort_sessions candidates)

  unfoldable pub choose : List Session → Option Session
  unfolding choose_active is_active
  choose (s ∷ []) = some s
  choose candidates = choose_active candidates (select (is_active "") candidates)

  -- `provider_branch and actual and actual != provider_branch`, then the binding of the chosen session.
  unfoldable pub bound : LineagePolicy → Session → LineageMatch
  unfolding continuation_disposition state_of_session strip
  bound policy s =
      let expected = strip (text_of policy.provider_starting_branch) in
      let actual = strip (text_of s.source_starting_branch) in
      let state = state_of_session "UNKNOWN" s in
      let missing = not (expected == "") && actual == "" in
      let drift = not (expected == "") && (not (actual == "") && not (actual == expected)) in
      record {
        status = proven;
        reason =
            if drift
            then exact_governed_lineage_binding_branch_drift
            else if missing
            then exact_governed_lineage_binding_branch_metadata_unavailable
            else exact_governed_lineage_binding;
        session = some s;
        candidate_count = 1;
        details = some (record {
          session_fingerprint = text_of s.session_fingerprint;
          provider_state = state;
          continuation_disposition = continuation_disposition state;
          provider_starting_branch_metadata_missing = missing;
          provider_starting_branch_metadata_drift = drift;
          expected_provider_starting_branch = given expected;
          observed_provider_starting_branch = given actual;
        });
      }

  unfoldable pub fingerprints_of : LineagePolicy → List String
  unfolding strip is_blank
  fingerprints_of policy =
      map (λ f. rt.lower (strip f))
        (select (λ f. not (is_blank f)) policy.known_session_fingerprints)

  unfoldable pub is_governed : (String → String) → List String → String → Session → Bool
  unfolding strip
  is_governed casefold fingerprints repository s =
      casefold (strip (text_of s.source_repository)) == casefold (strip repository)
      && one_of (rt.lower (strip (text_of s.session_fingerprint))) fingerprints

  unfoldable pub bind_chosen : LineagePolicy → List Session → Option Session → LineageMatch
  unfolding bound no_binding
  bind_chosen policy candidates (some s) = bound policy s
  bind_chosen policy candidates none =
      no_binding ambiguous multiple_exact_lineage_session_matches (length candidates)

  unfoldable pub match_lineage_session :
      (String → String) → List Session → LineagePolicy → String → LineageMatch
  unfolding fingerprints_of is_governed choose bind_chosen no_binding
  match_lineage_session casefold sessions policy repository =
      let candidates = select (is_governed casefold (fingerprints_of policy) repository) sessions in
      if is_empty (fingerprints_of policy)
      then no_binding unbound exact_session_fingerprint_required 0
      else if is_empty candidates
      then no_binding unbound no_exact_governed_session_fingerprint_match 0
      else bind_chosen policy candidates (choose candidates)
