-- ===== src/RecoveryCatalog/Examples.antt =====
-- Runs of ues/recovery_catalog.py, with a runtime whose letters have no case.
use universal_execution_syst.Prelude.{Bool, true, false, ◌≡◌, refl, none, some, one_of}
use universal_execution_syst.Runtime.Plain.{plain}
use universal_execution_syst.RecoveryCatalog.{Handoff, ExternalIntent, Observation, facts}
use universal_execution_syst.RecoveryCatalog.Ladder.{plan_recovery}
use universal_execution_syst.RecoveryCatalog.Guarded.{creation_actions, MayCreate}
use universal_execution_syst.RecoveryCatalog.Effects.{
  IsCoherent, IsSettled, plan_recovery-IsCoherent, creation_guarded,
}

abbrev no_handoff : Handoff
no_handoff = record { status = none; verdict = none; candidate_sha = none; reviewed_sha = none }

abbrev no_intent : ExternalIntent
no_intent = record {
  signal_persisted = false;
  provider_ack_proven = false;
  provider_session_readback_proven = false;
  provider_observation_after_signal_complete = false;
}

abbrev failed_lineage : Bool → Observation
failed_lineage budget_safe = record {
  binding_status = some "PROVEN";
  provider_state = some "FAILED";
  role = some "WRITER";
  handoff = no_handoff;
  candidate_sha = none;
  current_sha = none;
  ci_reason = none;
  ci_verdict = none;
  waiting_has_newer_or_equal_user_response = false;
  same_session_prompt_ready = false;
  work_remaining = none;
  new_session_budget_safe = budget_safe;
  replacement_prompt_ready = true;
  replacement_required_proven = false;
  external_intent = no_intent;
  consecutive_noop_writer_successors = 0;
  noop_evidence_authoritative = false;
  active_duplicate_absent = true;
  pr_branch_match = none;
  unknown_write_state = false;
}

failed_creates :
    (plan_recovery plain (failed_lineage true)).action
    ≡ "CREATE_NEXT_SESSION_GENERATION_SAME_LINEAGE"
unfolding plan_recovery
failed_creates = refl

failed_prepares :
    (plan_recovery plain (failed_lineage false)).stop_gate
    ≡ some "TASK_BUDGET_OR_NEW_SESSION_AUTHORITY"
unfolding plan_recovery
failed_prepares = refl

failed_listed : one_of (plan_recovery plain (failed_lineage true)).action creation_actions ≡ true
unfolding plan_recovery
failed_listed = refl

plan_recovery-IsCoherent_example : IsCoherent (plan_recovery plain (failed_lineage false))
plan_recovery-IsCoherent_example = plan_recovery-IsCoherent plain (failed_lineage false)

creation_guarded_example :
    MayCreate (facts plain (failed_lineage true)) × IsSettled plain (failed_lineage true)
creation_guarded_example = creation_guarded plain (failed_lineage true) failed_listed
