-- ===== src/Recovery/Examples.antt =====
-- Runs of ues/recovery.py.
use universal_execution_syst.Prelude.{
  true, false, ◌≡◌, refl, ◌↔◌, ◌≢◌, none, some, List, [], ◌∷◌, text_or,
}
use universal_execution_syst.Prelude.Results.{ok, raise, value_error}
use universal_execution_syst.Runtime.Plain.{plain}
use universal_execution_syst.Recovery.{
  Checkpoint, write_confirmed_by_post_state, continue_from_confirmed_post_state,
  reconcile_checkpoint, no_message, messaged, not_mapping, activity, Activity, listed,
  ProviderObservation, reconcile_provider_write, write_confirmed_by_activity,
  session_continuation_unavailable,
}
use universal_execution_syst.Recovery.Delivered.{ListsDelivery, provider_write_iff}

abbrev unknown_write : Checkpoint
unknown_write = record {
  confirmed_head_sha = some "a";
  expected_post_sha = some "b";
  write_outcome = some "UNKNOWN";
}

no_head_test :
    reconcile_checkpoint (record unknown_write { confirmed_head_sha = none }) "a"
    ≡ raise value_error
unfolding reconcile_checkpoint
no_head_test = refl

post_state_test :
    reconcile_checkpoint unknown_write "b"
    ≡ ok (record {
      verdict = write_confirmed_by_post_state;
      next_action = continue_from_confirmed_post_state;
      write_outcome = "UNKNOWN";
      checkpoint_head_sha = "a";
      expected_post_sha = some "b";
      live_head_sha = "b";
      safe_to_blind_retry = false;
    })
unfolding reconcile_checkpoint
post_state_test = refl

abbrev activities : List Activity
activities =
    not_mapping
    ∷ activity (some "old") none (messaged (some "go"))
    ∷ activity none (some "x") no_message
    ∷ activity none (some "new") (messaged (some "go"))
    ∷ []

abbrev observation : ProviderObservation
observation = record {
  authoritative_read_complete = true;
  post_session_state = some "IN_PROGRESS";
  pre_activity_ids = "old" ∷ [];
  post_activities = listed activities;
  expected_user_message = some "go";
}

matched_test : (reconcile_provider_write plain observation).matched_activity ≡ some (some "new")
unfolding reconcile_provider_write
matched_test = refl

ended_test :
    (reconcile_provider_write plain (record observation {
      post_session_state = some "FAILED";
      expected_user_message = some "stop";
    })).verdict
    ≡ session_continuation_unavailable
unfolding reconcile_provider_write
ended_test = refl

provider_write_iff_example :
    ((reconcile_provider_write plain observation).verdict ≡ write_confirmed_by_activity) ↔ (
      (true ≡ true)
      × (plain.upper (text_or observation.post_session_state "UNKNOWN") ≢ "UNKNOWN")
      × ListsDelivery observation (listed activities))
provider_write_iff_example = provider_write_iff plain observation
