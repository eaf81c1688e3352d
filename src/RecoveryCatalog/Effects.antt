-- ===== src/RecoveryCatalog/Effects.antt =====
-- ues/recovery_catalog.py: what a decision with an external effect presupposes.
use universal_execution_syst.Prelude.{
  String, true, false, ◌≡◌, refl, arith, none, ◌==◌, one_of, is_some, eq_iff, Bool-cases, inl, inr,
}
use universal_execution_syst.Runtime.{Runtime}
use universal_execution_syst.RecoveryCatalog.{
  Observation, Facts, facts, RecoveryDecision, reconcile, gated, effect,
}
use universal_execution_syst.RecoveryCatalog.Ladder.{
  is_drifted, is_unresolved, recover_external_intent, plan_recovery,
}
use universal_execution_syst.RecoveryCatalog.Guarded.{
  creation_actions, effect_actions, preparation, MayCreate, Outcome, observed, waiting, prepared,
  created, continued, routed, plan_recovery-Outcome,
}

-- A decision can be carried out; its action tells whether it has an effect; with an effect it has no stop
-- gate, and a replacement that is only prepared has one.
pub record IsCoherent (d : RecoveryDecision) : Type 0 where
  pub executable : d.executable ≡ true
  pub effect_by_action : d.external_effect ≡ one_of d.action effect_actions
  pub effect_ungated : d.external_effect ≡ true → d.stop_gate ≡ none
  pub prepared_gated : (d.action == preparation) ≡ true → is_some d.stop_gate ≡ true

creation_is_effect :
    (a : String)
    → one_of a creation_actions ≡ true
    → (one_of a effect_actions ≡ true) × ((a == preparation) ≡ false)
creation_is_effect a listed =
    let first : String = "CREATE_NEXT_SESSION_GENERATION_SAME_LINEAGE" in
    let second : String = "CREATE_OR_ADOPT_SAME_LOGICAL_LINEAGE_GENERATION" in
    elim (Bool-cases (a == first)) [
      | inl e ↦ rw ((eq_iff a first).0 e) (refl, refl)
      | inr e ↦ elim (Bool-cases (a == second)) [
        | inl f ↦ rw ((eq_iff a second).0 f) (refl, refl)
        | inr f ↦ ground arith
      ]
    ]

Outcome-IsCoherent :
    (o : Observation) (f : Facts) {d : RecoveryDecision} → Outcome o f d → IsCoherent d
unfolding reconcile gated effect
Outcome-IsCoherent o f (observed a c unlisted other) = record {
  executable = refl;
  effect_by_action = ground (arith, unlisted);
  effect_ungated = λ h. cc;
  prepared_gated = λ h. cc;
}
Outcome-IsCoherent o f (waiting a c g unlisted other) = record {
  executable = refl;
  effect_by_action = ground (arith, unlisted);
  effect_ungated = λ h. cc;
  prepared_gated = λ h. cc;
}
Outcome-IsCoherent o f (prepared c g given) = record {
  executable = refl;
  effect_by_action = refl;
  effect_ungated = λ h. cc;
  prepared_gated = λ h. given;
}
Outcome-IsCoherent o f (created a c listed may) = record {
  executable = refl;
  effect_by_action = ground (arith, creation_is_effect a listed);
  effect_ungated = λ h. refl;
  prepared_gated = λ h. ground (arith, creation_is_effect a listed);
}
Outcome-IsCoherent o f (continued c ready) = record {
  executable = refl;
  effect_by_action = refl;
  effect_ungated = λ h. refl;
  prepared_gated = λ h. cc;
}
Outcome-IsCoherent o f (routed c found) = record {
  executable = refl;
  effect_by_action = refl;
  effect_ungated = λ h. refl;
  prepared_gated = λ h. cc;
}

-- Every decision of `plan_recovery` can be carried out by the controller or the runtime, has an external
-- effect exactly if its action is one of four, then has no stop gate, and has a stop gate if it only
-- prepares a replacement.
pub plan_recovery-IsCoherent : (rt : Runtime) (o : Observation) → IsCoherent (plan_recovery rt o)
plan_recovery-IsCoherent rt o = Outcome-IsCoherent o (facts rt o) (plan_recovery-Outcome rt o)

-- Nothing about the lineage is in doubt: no drift of the branch, no second match, no unknown write, and
-- no intent outside that is not tied to a session.
pub record IsSettled (rt : Runtime) (o : Observation) : Type 0 where
  pub no_drift : is_drifted o.pr_branch_match ≡ false
  pub one_match : ((facts rt o).binding == "AMBIGUOUS") ≡ false
  pub no_unknown_write : o.unknown_write_state ≡ false
  pub no_open_intent : is_unresolved o.external_intent ≡ false

external_intent-no_effect :
    (o : Observation) → (recover_external_intent o.external_intent).external_effect ≡ false
unfolding recover_external_intent gated
external_intent-no_effect o = ground arith

effect-IsSettled :
    (rt : Runtime) (o : Observation) → (plan_recovery rt o).external_effect ≡ true → IsSettled rt o
unfolding plan_recovery reconcile
effect-IsSettled rt o effectful = record {
  no_drift = ground arith;
  one_match = ground arith;
  no_unknown_write = ground arith;
  no_open_intent = ground (arith, external_intent-no_effect o);
}

Outcome-creation :
    (o : Observation) (f : Facts) {d : RecoveryDecision}
    → Outcome o f d
    → one_of d.action creation_actions ≡ true
    → MayCreate f × (d.external_effect ≡ true)
unfolding reconcile gated effect
Outcome-creation o f (observed a c unlisted other) h = ground (arith, unlisted)
Outcome-creation o f (waiting a c g unlisted other) h = ground (arith, unlisted)
Outcome-creation o f (prepared c g given) h = cc
Outcome-creation o f (created a c listed may) h = (may, refl)
Outcome-creation o f (continued c ready) h = cc
Outcome-creation o f (routed c found) h = cc

-- If `plan_recovery` decides to start a provider session, then work remains, the budget is safe, the
-- prompt is ready and no active duplicate exists, and the lineage has no drifted branch, no ambiguous
-- binding, no unknown write and no unresolved external intent.
pub creation_guarded :
    (rt : Runtime) (o : Observation)
    → one_of (plan_recovery rt o).action creation_actions ≡ true
    → MayCreate (facts rt o) × IsSettled rt o
creation_guarded rt o creates =
    let (may, effectful) = Outcome-creation o (facts rt o) (plan_recovery-Outcome rt o) creates in
    (may, effect-IsSettled rt o effectful)
