-- ===== src/Recovery.antt =====
-- ues/recovery.py: what a checkpoint, or the provider's state after an attempted write, says of the
-- write. This file: both functions. A message that is no text counts as absent.
use universal_execution_syst.Prelude.{
  String, Bool, true, false, not, ◌&&◌, ◌||◌, Option, none, some, List, [], ◌∷◌, if◌then◌else◌,
  ◌==◌, one_of, is_some, same_text, text_or,
}
use universal_execution_syst.Prelude.Results.{Result, ok, raise, value_error}
use universal_execution_syst.Runtime.{Runtime}
mod Continue
mod Delivered
mod Examples

pub record Checkpoint : Type 0 where
  pub confirmed_head_sha : Option String
  pub expected_post_sha : Option String
  pub write_outcome : Option String

-- The values of `verdict` and of `next_action` of a checkpoint.
pub data CheckpointState : Type 0 where
  write_confirmed_by_post_state intended_remote_write_not_observed diverged_during_unknown_write
        checkpoint_match head_moved :
      CheckpointState

pub data CheckpointAction : Type 0 where
  continue_from_confirmed_post_state verify_operation_specific_post_state_before_retry
        stop_and_reconcile_live_state continue_from_checkpoint stop_and_rebaseline_or_reconcile :
      CheckpointAction

pub record CheckpointVerdict : Type 0 where
  pub verdict : CheckpointState
  pub next_action : CheckpointAction
  pub write_outcome : String
  pub checkpoint_head_sha : String
  pub expected_post_sha : Option String
  pub live_head_sha : String
  pub safe_to_blind_retry : Bool

-- `expected_post and live_head_sha == expected_post`
unfoldable pub at_post_state : Option String → String → Bool
at_post_state none live = false
at_post_state (some post) live = not (post == "") && live == post

-- The verdict and the next action for the confirmed head, the expected one, the outcome and the live head.
unfoldable pub verdict_and_action :
    String → Option String → String → String → CheckpointState × CheckpointAction
unfolding at_post_state
verdict_and_action confirmed post outcome live =
    if outcome == "UNKNOWN"
    then if at_post_state post live
      then (write_confirmed_by_post_state, continue_from_confirmed_post_state)
      else if live == confirmed
      then (intended_remote_write_not_observed, verify_operation_specific_post_state_before_retry)
      else (diverged_during_unknown_write, stop_and_reconcile_live_state)
    else if live == confirmed
    then (checkpoint_match, continue_from_checkpoint)
    else (head_moved, stop_and_rebaseline_or_reconcile)

unfoldable pub judged : String → Option String → String → String → CheckpointVerdict
unfolding verdict_and_action
judged confirmed post outcome live =
    let (verdict, next_action) = verdict_and_action confirmed post outcome live in
    record {
      verdict = verdict;
      next_action = next_action;
      write_outcome = outcome;
      checkpoint_head_sha = confirmed;
      expected_post_sha = post;
      live_head_sha = live;
      safe_to_blind_retry = false;
    }

unfoldable pub reconcile_checkpoint : Checkpoint → String → Result CheckpointVerdict
unfolding judged
reconcile_checkpoint checkpoint live =
    let confirmed = text_or checkpoint.confirmed_head_sha "" in
    if confirmed == ""
    then raise value_error
    else ok (
        judged confirmed checkpoint.expected_post_sha (text_or checkpoint.write_outcome "NONE")
          live)

-- `userMessaged` of an activity: absent or no mapping, or a mapping with its `userMessage`.
pub data UserMessaged : Type 0 where
  no_message : UserMessaged
  messaged : Option String → UserMessaged

-- An entry of `post_activities`: no mapping, or a mapping with its `name`, `id` and `userMessaged`.
pub data Activity : Type 0 where
  not_mapping : Activity
  activity : Option String → Option String → UserMessaged → Activity

-- `post_activities`: a list, where a value that is false counts as the empty one, or something else.
pub data PostActivities : Type 0 where
  listed : List Activity → PostActivities
  not_list : PostActivities

pub record ProviderObservation : Type 0 where
  pub authoritative_read_complete : Bool
  pub post_session_state : Option String
  pub pre_activity_ids : List String
  pub post_activities : PostActivities
  pub expected_user_message : Option String

pub data ProviderVerdict : Type 0 where
  authoritative_read_incomplete unknown_provider_state authoritative_activity_evidence_invalid
        write_confirmed_by_activity session_continuation_unavailable
        write_not_observed_after_authoritative_read :
      ProviderVerdict

-- `matched_activity` is a key of the result only where `none` is not its value here.
pub record ProviderRecovery : Type 0 where
  pub verdict : ProviderVerdict
  pub post_session_state : String
  pub retry_consideration : String
  pub safe_to_blind_retry : Bool
  pub matched_activity : Option (Option String)

unfoldable pub provider_recovery_result : ProviderVerdict → String → String → ProviderRecovery
provider_recovery_result verdict state retry_consideration = record {
  verdict = verdict;
  post_session_state = state;
  retry_consideration = retry_consideration;
  safe_to_blind_retry = false;
  matched_activity = none;
}

-- `str(activity.get("name") or activity.get("id") or "")`
unfoldable pub identity_of : Option String → Option String → String
identity_of name id = text_or name (text_or id "")

-- The test of one activity, with its identity where it is the delivery that is looked for.
unfoldable pub match_activity : List String → Option String → Activity → Option String
unfolding identity_of
match_activity pre_ids expected not_mapping = none
match_activity pre_ids expected (activity name id no_message) = none
match_activity pre_ids expected (activity name id (messaged message)) =
    let identity = identity_of name id in
    if one_of identity pre_ids
    then none
    else if is_some expected && same_text message expected
    then some identity
    else none

-- The loop: the first activity that matches.
unfoldable pub find_delivery : List String → Option String → List Activity → Option String
unfolding match_activity
find_delivery pre_ids expected [] = none
find_delivery pre_ids expected (a ∷ rest) =
    let later = find_delivery pre_ids expected rest in
    elim (match_activity pre_ids expected a) [ none ↦ later | some identity ↦ some identity ]

-- After the guards: a delivery with its identity, or none.
unfoldable pub delivered : String → Option String → ProviderRecovery
unfolding provider_recovery_result
delivered state (some identity) =
    (record (provider_recovery_result write_confirmed_by_activity state "NOT_REQUIRED") {
      matched_activity = some (if identity == "" then none else some identity);
    })
delivered state none =
    if one_of state ("FAILED" ∷ "COMPLETED" ∷ [])
    then provider_recovery_result session_continuation_unavailable state
        "NEW_TASK_RECOMMENDED_PARENT_ONLY"
    else provider_recovery_result write_not_observed_after_authoritative_read state
        "POLICY_OR_PARENT_DECISION_REQUIRED"

-- The activities that were read, in a known state.
unfoldable pub reconcile_activities :
    ProviderObservation → String → PostActivities → ProviderRecovery
unfolding provider_recovery_result find_delivery delivered
reconcile_activities o state not_list =
    provider_recovery_result authoritative_activity_evidence_invalid state
      "BLOCKED_UNTIL_AUTHORITATIVE_READ"
reconcile_activities o state (listed activities) =
    delivered state (find_delivery o.pre_activity_ids o.expected_user_message activities)

unfoldable pub reconcile_provider_write : Runtime → ProviderObservation → ProviderRecovery
unfolding provider_recovery_result reconcile_activities
reconcile_provider_write rt o =
    let state = rt.upper (text_or o.post_session_state "UNKNOWN") in
    if not o.authoritative_read_complete
    then provider_recovery_result authoritative_read_incomplete state
        "BLOCKED_UNTIL_AUTHORITATIVE_READ"
    else if state == "UNKNOWN"
    then provider_recovery_result unknown_provider_state state "BLOCKED_UNKNOWN_PROVIDER_STATE"
    else reconcile_activities o state o.post_activities
