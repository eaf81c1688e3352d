-- ===== src/RecoveryCatalog/Guarded.antt =====
-- ues/recovery_catalog.py: every decision is one of a few kinds, each with what the observation showed.
use universal_execution_syst.Prelude.{
  String, Bool, true, false, ◌≡◌, refl, arith, Option, List, [], ◌∷◌, ◌==◌, one_of, if_lem, leb,
  is_some, not, ◌&&◌, ◌||◌, if◌then◌else◌,
}
use universal_execution_syst.Runtime.{Runtime}
use universal_execution_syst.RecoveryCatalog.{
  Observation, Facts, facts, RecoveryDecision, reconcile, gated, effect, gate_of,
  replacement_decision,
}
use universal_execution_syst.RecoveryCatalog.Ladder.{
  is_reviewer, recover_external_intent, recover_unbound, recover_stale_review, recover_waiting,
  recover_candidate, differs, recover_writer, recover_reviewer, unclassified, recover_completed,
  recover_failed, recover_state, recover_settled, is_drifted, is_unresolved, plan_recovery,
}

-- The actions that start a provider session.
abbrev pub creation_actions : List String
creation_actions =
    "CREATE_NEXT_SESSION_GENERATION_SAME_LINEAGE"
    ∷ "CREATE_OR_ADOPT_SAME_LOGICAL_LINEAGE_GENERATION" ∷ []

-- All actions that reach a provider.
abbrev pub effect_actions : List String
effect_actions =
    "CREATE_NEXT_SESSION_GENERATION_SAME_LINEAGE"
    ∷ "CREATE_OR_ADOPT_SAME_LOGICAL_LINEAGE_GENERATION" ∷ "CONTINUE_SAME_SESSION"
    ∷ "ROUTE_STRUCTURED_FINDINGS_TO_WRITER_LINEAGE" ∷ []

abbrev pub preparation : String
preparation = "PREPARE_SAME_LINEAGE_REPLACEMENT"

-- What must be so before a session is started.
pub record MayCreate (f : Facts) : Type 0 where
  pub work_remaining : f.work_remaining ≡ true
  pub budget_safe : f.budget_safe ≡ true
  pub prompt_ready : f.prompt_ready ≡ true
  pub duplicate_absent : f.duplicate_absent ≡ true

pub data Outcome (o : Observation) (f : Facts) : RecoveryDecision → Type 0 where
  observed :
      (a c : String)
      → one_of a effect_actions ≡ false
      → (a == preparation) ≡ false
      → Outcome o f (reconcile a c)
  waiting :
      (a c : String) (g : Option String)
      → one_of a effect_actions ≡ false
      → (a == preparation) ≡ false
      → Outcome o f (gated a c g)
  prepared :
      (c : String) (g : Option String) → is_some g ≡ true → Outcome o f (gated preparation c g)
  created :
      (a c : String) → one_of a creation_actions ≡ true → MayCreate f → Outcome o f (effect a c)
  continued :
      (c : String)
      → o.same_session_prompt_ready ≡ true
      → Outcome o f (effect "CONTINUE_SAME_SESSION" c)
  routed :
      (c : String)
      → one_of f.verdict ("FINDINGS" ∷ "FAIL" ∷ []) ≡ true
      → Outcome o f (effect "ROUTE_STRUCTURED_FINDINGS_TO_WRITER_LINEAGE" c)

module _ (o : Observation) (f : Facts) where
  -- One test of the ladder.
  branch :
      (b : Bool) (x y : RecoveryDecision)
      → (b ≡ true → Outcome o f x)
      → (b ≡ false → Outcome o f y)
      → Outcome o f (if b then x else y)
  branch = if_lem (Outcome o f)

  replacement-Outcome :
      (reason : String) → f.work_remaining ≡ true → Outcome o f (replacement_decision f reason)
  unfolding replacement_decision gate_of
  replacement-Outcome reason work =
      branch (f.budget_safe && f.prompt_ready && f.duplicate_absent) _ _
        (λ e. created _ reason refl (record {
          work_remaining = work;
          budget_safe = ground arith;
          prompt_ready = ground arith;
          duplicate_absent = ground arith;
        }))
        (λ e. prepared reason _ (ground arith))

  external_intent-Outcome : Outcome o f (recover_external_intent o.external_intent)
  unfolding recover_external_intent
  external_intent-Outcome =
      branch o.external_intent.provider_ack_proven _ _ (λ e. waiting _ _ _ refl refl)
        (λ e.
          branch o.external_intent.provider_observation_after_signal_complete _ _
            (λ e. waiting _ _ _ refl refl) (λ e. waiting _ _ _ refl refl))

  unbound-Outcome : (proven : Bool) → Outcome o f (recover_unbound f proven)
  unfolding recover_unbound
  unbound-Outcome proven =
      branch (f.work_remaining && proven && f.duplicate_absent && f.budget_safe && f.prompt_ready) _
        _
        (λ e. created _ _ refl (record {
          work_remaining = ground arith;
          budget_safe = ground arith;
          prompt_ready = ground arith;
          duplicate_absent = ground arith;
        }))
        (λ e. waiting _ _ _ refl refl)

  stale_review-Outcome : Outcome o f (recover_stale_review f)
  unfolding recover_stale_review
  stale_review-Outcome =
      branch
        (is_reviewer f.role
          && f.state == "COMPLETED"
          && f.work_remaining
          && f.budget_safe
          && f.prompt_ready
          && f.duplicate_absent)
        _ _
        (λ e. created _ _ refl (record {
          work_remaining = ground arith;
          budget_safe = ground arith;
          prompt_ready = ground arith;
          duplicate_absent = ground arith;
        }))
        (λ e. observed _ _ refl refl)

  waiting-Outcome : Outcome o f (recover_waiting o)
  unfolding recover_waiting
  waiting-Outcome =
      branch o.waiting_has_newer_or_equal_user_response _ _ (λ e. observed _ _ refl refl)
        (λ e.
          branch o.same_session_prompt_ready _ _ (λ ready. continued _ ready)
            (λ e. observed _ _ refl refl))

  candidate-Outcome :
      (missing passed otherwise : String)
      → Outcome o f (recover_candidate f missing passed otherwise)
  unfolding recover_candidate
  candidate-Outcome missing passed otherwise =
      branch (f.ci_reason == "REQUIRED_CI_MISSING") _ _ (λ e. observed _ _ refl refl)
        (λ e.
          branch (f.ci_verdict == "PASS") _ _ (λ e. observed _ _ refl refl)
            (λ e. observed _ _ refl refl))

  writer-Outcome : (rt : Runtime) → Outcome o f (recover_writer rt o f)
  unfolding recover_writer
  writer-Outcome rt =
      branch (f.handoff_status == "CONTEXT_EXHAUSTED" && f.work_remaining) _ _
        (λ e. replacement-Outcome _ (ground arith))
        (λ e.
          branch (f.work_remaining && leb 2 o.consecutive_noop_writer_successors) _ _
            (λ e.
              branch (not o.noop_evidence_authoritative) _ _ (λ e. observed _ _ refl refl)
                (λ e'. replacement-Outcome _ (ground arith)))
            (λ e.
              branch (differs rt f.handoff_candidate_sha f.current_sha) _ _
                (λ e. candidate-Outcome _ _ _)
                (λ e.
                  branch (not (f.candidate_sha == "")) _ _ (λ e. candidate-Outcome _ _ _)
                    (λ e.
                      branch f.work_remaining _ _ (λ work. replacement-Outcome _ work)
                        (λ e. observed _ _ refl refl)))))

  reviewer-Outcome : (rt : Runtime) → Outcome o f (recover_reviewer rt f)
  unfolding recover_reviewer
  reviewer-Outcome rt =
      branch
        (f.verdict == "PASS"
          && not (f.reviewed_sha == "")
          && (f.current_sha == "" || rt.lower f.reviewed_sha == rt.lower f.current_sha))
        _ _ (λ e. observed _ _ refl refl)
        (λ e.
          branch (one_of f.verdict ("FINDINGS" ∷ "FAIL" ∷ [])) _ _ (λ found. routed _ found)
            (λ e. observed _ _ refl refl))

  unclassified-Outcome : Outcome o f unclassified
  unfolding unclassified
  unclassified-Outcome = observed _ _ refl refl

  completed-Outcome : (rt : Runtime) → Outcome o f (recover_completed rt o f)
  unfolding recover_completed
  completed-Outcome rt =
      branch (f.role == "WRITER") _ _ (λ e. writer-Outcome rt)
        (λ e.
          branch (is_reviewer f.role) _ _ (λ e. reviewer-Outcome rt) (λ e. unclassified-Outcome))

  failed-Outcome : Outcome o f (recover_failed f)
  unfolding recover_failed
  failed-Outcome =
      branch (not f.work_remaining) _ _ (λ e. observed _ _ refl refl)
        (λ e. replacement-Outcome _ (ground arith))

  state-Outcome : (rt : Runtime) → Outcome o f (recover_state rt o f)
  unfolding recover_state
  state-Outcome rt =
      branch (f.state == "AWAITING_USER_FEEDBACK") _ _ (λ e. waiting-Outcome)
        (λ e.
          branch (f.state == "IN_PROGRESS") _ _ (λ e. observed _ _ refl refl)
            (λ e.
              branch (one_of f.state ("QUEUED" ∷ "PLANNING" ∷ [])) _ _ (λ e. observed _ _ refl refl)
                (λ e.
                  branch (f.state == "AWAITING_PLAN_APPROVAL") _ _ (λ e. observed _ _ refl refl)
                    (λ e.
                      branch (f.state == "PAUSED") _ _ (λ e. observed _ _ refl refl)
                        (λ e.
                          branch (f.state == "COMPLETED") _ _ (λ e. completed-Outcome rt)
                            (λ e.
                              branch (f.state == "FAILED") _ _ (λ e. failed-Outcome)
                                (λ e. unclassified-Outcome)))))))

  settled-Outcome : (rt : Runtime) → Outcome o f (recover_settled rt o f)
  unfolding recover_settled
  settled-Outcome rt =
      branch (f.binding == "UNBOUND") _ _ (λ e. unbound-Outcome o.replacement_required_proven)
        (λ e.
          branch (differs rt f.current_sha f.reviewed_sha) _ _ (λ e. stale_review-Outcome)
            (λ e. state-Outcome rt))

-- Each decision of `plan_recovery` is of one of the kinds of Outcome.
pub plan_recovery-Outcome :
    (rt : Runtime) (o : Observation) → Outcome o (facts rt o) (plan_recovery rt o)
unfolding plan_recovery
plan_recovery-Outcome rt o =
    let f = facts rt o in
    branch o f (is_drifted o.pr_branch_match) _ _ (λ e. observed _ _ refl refl)
      (λ e.
        branch o f (f.binding == "AMBIGUOUS") _ _ (λ e. observed _ _ refl refl)
          (λ e.
            branch o f o.unknown_write_state _ _ (λ e. observed _ _ refl refl)
              (λ e.
                branch o f (is_unresolved o.external_intent) _ _ (λ e. external_intent-Outcome o f)
                  (λ e. settled-Outcome o f rt))))
