-- ===== src/Recovery/Continue.antt =====
-- ues/recovery.py: when `reconcile_checkpoint` lets the work continue.
use universal_execution_syst.Prelude.{
  String, true, ◌≡◌, refl, ap, sym, ◌∙◌, ◌↔◌, ◌≢◌, inl, inr, Option, none, some, ◌==◌, eq_iff,
  text_or, arith, Bool-cases, true-false,
}
use universal_execution_syst.Prelude.Results.{ok, raise, value_error, ok_injective}
use universal_execution_syst.Recovery.{
  Checkpoint, CheckpointAction, continue_from_checkpoint, continue_from_confirmed_post_state,
  CheckpointVerdict, at_post_state, verdict_and_action, judged, reconcile_checkpoint,
}

at_post_state_iff :
    (post : Option String) (live : String)
    → (at_post_state post live ≡ true) ↔ ((live ≢ "") × (post ≡ some live))
unfolding at_post_state
at_post_state_iff none live = (λ h. cc, λ (_, h). cc)
at_post_state_iff (some post) live = (
  λ h.
      let same : live ≡ post = (eq_iff live post).0 (ground arith) in
      (
        λ empty. true-false ((eq_iff post "").1 (sym same ∙ empty)) (ground arith),
        ap (λ s. some s) (sym same),
      ),
  λ (filled, same).
      let said : live ≡ post = sym (some_injective same) in
      elim (Bool-cases (post == "")) [
        | inl e ↦ absurd (filled (said ∙ (eq_iff post "").0 e))
        | inr e ↦ rw (e, (eq_iff live post).1 said) refl
      ],
)
  where
    some_injective : {x y : String} → some x ≡ some y → x ≡ y
    some_injective h = cc

-- The action for a confirmed head, an expected one, an outcome and the live head.
abbrev action_of : String → Option String → String → String → CheckpointAction
action_of confirmed post outcome live = (judged confirmed post outcome live).next_action

action_of_iff :
    (confirmed : String) (post : Option String) (outcome live : String)
    → ((action_of confirmed post outcome live ≡ continue_from_confirmed_post_state)
        ↔ ((outcome ≡ "UNKNOWN") × (live ≢ "") × (post ≡ some live)))
      × ((action_of confirmed post outcome live ≡ continue_from_checkpoint)
          ↔ ((outcome ≢ "UNKNOWN") × (live ≡ confirmed)))
unfolding judged verdict_and_action
action_of_iff confirmed post outcome live =
    ground (arith, eq_iff outcome "UNKNOWN", eq_iff live confirmed, at_post_state_iff post live)

-- Where `reconcile_checkpoint` returns, the work continues from the post-state exactly when the outcome was
-- unknown and the live head is the expected one, which is not empty, and from the checkpoint exactly when
-- the outcome was not unknown and the live head is the confirmed one. It returns exactly when the
-- checkpoint has a confirmed head.
pub continue_iff :
    (c : Checkpoint) (live : String)
    → (((r : CheckpointVerdict) × (reconcile_checkpoint c live ≡ ok r))
        ↔ (text_or c.confirmed_head_sha "" ≢ ""))
      × ((r : CheckpointVerdict)
          → reconcile_checkpoint c live ≡ ok r
          → ((r.next_action ≡ continue_from_confirmed_post_state) ↔ (
              (text_or c.write_outcome "NONE" ≡ "UNKNOWN")
              × (live ≢ "")
              × (c.expected_post_sha ≡ some live)))
            × ((r.next_action ≡ continue_from_checkpoint) ↔ (
                (text_or c.write_outcome "NONE" ≢ "UNKNOWN")
                × (live ≡ text_or c.confirmed_head_sha ""))))
unfolding reconcile_checkpoint
continue_iff c live =
    let confirmed = text_or c.confirmed_head_sha "" in
    elim (Bool-cases (confirmed == "")) [
      | inl e ↦ (
        (
          λ (r, returned). absurd (no_result (rw e at returned)),
          λ given. absurd (given ((eq_iff confirmed "").0 e)),
        ),
        λ r returned. absurd (no_result (rw e at returned)),
      )
      | inr e ↦ (
        (
          λ _ empty. true-false ((eq_iff confirmed "").1 empty) e,
          λ _. (
            judged confirmed c.expected_post_sha (text_or c.write_outcome "NONE") live,
            rw e refl,
          ),
        ),
        λ r returned.
            let same = ok_injective (rw e at returned) in
            rw (sym same)
              (action_of_iff confirmed c.expected_post_sha (text_or c.write_outcome "NONE") live),
      )
    ]
  where
    no_result : {r : CheckpointVerdict} → raise value_error ≡ ok r → ⊥
    no_result h = cc
