-- ===== src/RecoveryCatalog.antt =====
-- ues/recovery_catalog.py: the next transition of an observed lineage. This file: the
-- observation and the decisions.
use Prim.Native.String.{◌++◌ as concat}
use universal_execution_syst.Prelude.{
  ℕ, String, Bool, true, false, not, ◌&&◌, ◌||◌, Option, none, some, List, [], ◌∷◌, ◌++◌,
  if◌then◌else◌, ◌==◌, one_of, or_else, text_or, leb,
}
use universal_execution_syst.Prelude.Lists.{is_empty}
use universal_execution_syst.Prelude.Splits.{join}
use universal_execution_syst.Runtime.{Runtime}
mod Ladder
mod Guarded
mod Effects
mod Examples

pub record Handoff : Type 0 where
  pub status : Option String
  pub verdict : Option String
  pub candidate_sha : Option String
  pub reviewed_sha : Option String

-- What the code reads of `external_intent`: whether each field `is True`.
pub record ExternalIntent : Type 0 where
  pub signal_persisted : Bool
  pub provider_ack_proven : Bool
  pub provider_session_readback_proven : Bool
  pub provider_observation_after_signal_complete : Bool

-- `unknown_write_state` by its truth value; a flag that is absent is `false`, except `work_remaining`;
-- `consecutive_noop_writer_successors` as the `try` block computes it.
pub record Observation : Type 0 where
  pub binding_status : Option String
  pub provider_state : Option String
  pub role : Option String
  pub handoff : Handoff
  pub candidate_sha : Option String
  pub current_sha : Option String
  pub ci_reason : Option String
  pub ci_verdict : Option String
  pub waiting_has_newer_or_equal_user_response : Bool
  pub same_session_prompt_ready : Bool
  pub work_remaining : Option Bool
  pub new_session_budget_safe : Bool
  pub replacement_prompt_ready : Bool
  pub replacement_required_proven : Bool
  pub external_intent : ExternalIntent
  pub consecutive_noop_writer_successors : ℕ
  pub noop_evidence_authoritative : Bool
  pub active_duplicate_absent : Bool
  pub pr_branch_match : Option Bool
  pub unknown_write_state : Bool

pub record RecoveryDecision : Type 0 where
  pub action : String
  pub root_cause : String
  pub executable : Bool
  pub external_effect : Bool
  pub stop_gate : Option String

-- `_decision` without a stop gate, and with one.
unfoldable pub reconcile : String → String → RecoveryDecision
reconcile action root_cause = record {
  action = action;
  root_cause = root_cause;
  executable = true;
  external_effect = false;
  stop_gate = none;
}

unfoldable pub gated : String → String → Option String → RecoveryDecision
gated action root_cause gate = record {
  action = action;
  root_cause = root_cause;
  executable = true;
  external_effect = false;
  stop_gate = gate;
}

unfoldable pub effect : String → String → RecoveryDecision
effect action root_cause = record {
  action = action;
  root_cause = root_cause;
  executable = true;
  external_effect = true;
  stop_gate = none;
}

-- `if test: missing.append(gate)`
abbrev pub missing_if : Bool → String → List String
missing_if test gate = if test then gate ∷ [] else []

-- `"+".join(missing) if missing else None`
unfoldable pub gate_of : List String → Option String
unfolding join
gate_of missing = if is_empty missing then none else some (join "+" missing)

-- The local variables of `plan_recovery`.
pub record Facts : Type 0 where
  pub binding : String
  pub state : String
  pub role : String
  pub handoff_status : String
  pub verdict : String
  pub handoff_candidate_sha : String
  pub candidate_sha : String
  pub reviewed_sha : String
  pub current_sha : String
  pub ci_reason : String
  pub ci_verdict : String
  pub work_remaining : Bool
  pub budget_safe : Bool
  pub prompt_ready : Bool
  pub duplicate_absent : Bool

abbrev pub facts : Runtime → Observation → Facts
facts rt o = record {
  binding = rt.upper (text_or o.binding_status "UNBOUND");
  state = rt.upper (text_or o.provider_state "UNKNOWN");
  role = rt.upper (text_or o.role "");
  handoff_status = rt.upper (text_or o.handoff.status "");
  verdict = rt.upper (text_or o.handoff.verdict "UNKNOWN");
  handoff_candidate_sha = text_or o.handoff.candidate_sha "";
  candidate_sha = text_or o.candidate_sha (text_or o.handoff.candidate_sha "");
  reviewed_sha = text_or o.handoff.reviewed_sha "";
  current_sha = text_or o.current_sha "";
  ci_reason = text_or o.ci_reason "";
  ci_verdict = rt.upper (text_or o.ci_verdict "");
  work_remaining = or_else o.work_remaining true;
  budget_safe = o.new_session_budget_safe;
  prompt_ready = o.replacement_prompt_ready;
  duplicate_absent = o.active_duplicate_absent;
}

unfoldable pub replacement_decision : Facts → String → RecoveryDecision
unfolding effect gated gate_of
replacement_decision f reason =
    if f.budget_safe && f.prompt_ready && f.duplicate_absent
    then effect "CREATE_NEXT_SESSION_GENERATION_SAME_LINEAGE" reason
    else gated "PREPARE_SAME_LINEAGE_REPLACEMENT" reason (
        gate_of (
          missing_if (not f.duplicate_absent) "ACTIVE_DUPLICATE_CHECK_REQUIRED"
          ++ (missing_if (not f.budget_safe) "TASK_BUDGET_OR_NEW_SESSION_AUTHORITY"
              ++ missing_if (not f.prompt_ready) "EXACT_REPLACEMENT_TASK_SPEC")))
