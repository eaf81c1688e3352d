-- ===== src/Lifecycle/Progress.antt =====
-- Where a lane of ues/lifecycle.py goes when its resolutions are carried out.
use universal_execution_syst.Prelude.{ℕ, zero, suc, ◌≡◌, refl, Bool, true, false, none}
use universal_execution_syst.Prelude.Results.{Result, ok, raise}
use universal_execution_syst.Lifecycle.States
use universal_execution_syst.Lifecycle.States.{
  LifecycleState, LifecycleContext, CiOutcome, ReviewOutcome, member, absent,
}
use universal_execution_syst.Lifecycle.Resolve.{
  resolve_next_action, follow, resolve_special, resolve_ci_classified, resolve_review_result,
  ci_passed, transition, stop, ensure_lifecycle_resolution,
}

-- The context of a lane whose CI and whose review pass.
abbrev pub passing : Bool → LifecycleState → LifecycleContext
passing stale s = record {
  state = s;
  review_outcome = member ReviewOutcome.pass;
  ci_outcome = member CiOutcome.pass;
  waiting_class = absent;
  failure_class = absent;
  resume_state = none;
  review_stale = stale;
  authorization_decision = none;
  authorized_action = none;
  source_binding_status = none;
}

-- The state after a resolution has been carried out.
abbrev pub after : LifecycleState → Result States.LifecycleResolution → LifecycleState
after s (ok r) = r.next_state
after s (raise e) = s

-- `n` rounds of resolving and carrying out.
unfoldable pub rounds : Bool → ℕ → LifecycleState → LifecycleState
unfolding resolve_next_action follow resolve_special resolve_ci_classified resolve_review_result
    ci_passed transition stop ensure_lifecycle_resolution
rounds stale zero s = s
rounds stale (suc n) s = rounds stale n (after s (resolve_next_action (passing stale s)))

-- The states of a lane that is at work: all but those that wait for someone else.
abbrev pub is_working : LifecycleState → Bool
is_working States.awaiting_user_feedback = false
is_working States.failed = false
is_working States.paused = false
is_working States.forgotten = false
is_working _ = true

stays :
    (stale : Bool) (n : ℕ)
    → rounds stale n States.parent_review_pending ≡ States.parent_review_pending
unfolding rounds
stays stale zero = refl
stays stale (suc n) = stays stale n

arrives :
    (stale : Bool) (s : LifecycleState)
    → is_working s ≡ true
    → rounds stale 10 s ≡ States.parent_review_pending
unfolding rounds
arrives true States.writer_active h = refl
arrives false States.writer_active h = refl
arrives stale States.awaiting_user_feedback h = cc
arrives stale States.failed h = cc
arrives stale States.paused h = cc
arrives stale States.forgotten h = cc
arrives true _ h = refl
arrives false _ h = refl

-- From every working state, with CI and review passing and whether or not an earlier review is
-- stale, ten rounds bring the lane to PARENT_REVIEW_PENDING, and further rounds leave it there.
pub working_reaches_parent :
    (stale : Bool) (s : LifecycleState) (n : ℕ)
    → is_working s ≡ true
    → rounds stale n (rounds stale 10 s) ≡ States.parent_review_pending
working_reaches_parent stale s n h = rw (arrives stale s h) (stays stale n)
