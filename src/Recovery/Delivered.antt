-- ===== src/Recovery/Delivered.antt =====
-- ues/recovery.py: when `reconcile_provider_write` finds that the write was delivered.
use universal_execution_syst.Prelude.{
  String, true, false, ◌≡◌, refl, ap, sym, ◌∙◌, ◌↔◌, ◌≢◌, ◌⊎◌, inl, inr, Option, none, some, List,
  [], ◌∷◌, ◌==◌, eq_iff, one_of, is_some, same_text_iff, text_or, arith, Bool-cases, true-false,
  Option-cases,
}
use universal_execution_syst.Runtime.{Runtime}
use universal_execution_syst.Recovery.{
  no_message, messaged, Activity, not_mapping, activity, PostActivities, listed, not_list,
  ProviderObservation, provider_recovery_result, write_confirmed_by_activity, identity_of,
  match_activity, find_delivery, reconcile_provider_write, delivered, reconcile_activities,
}

-- A message of the user with the expected text, in an activity that was not there before the write.
pub IsDelivery : List String → Option String → Activity → Type 0
IsDelivery pre_ids expected not_mapping = ⊥
IsDelivery pre_ids expected (activity name id no_message) = ⊥
IsDelivery pre_ids expected (activity name id (messaged message)) =
    (one_of (identity_of name id) pre_ids ≡ false)
    × ((text : String) × (expected ≡ some text) × (message ≡ some text))

pub HasDelivery : List String → Option String → List Activity → Type 0
HasDelivery pre_ids expected [] = ⊥
HasDelivery pre_ids expected (a ∷ rest) =
    IsDelivery pre_ids expected a ⊎ HasDelivery pre_ids expected rest

pub ListsDelivery : ProviderObservation → PostActivities → Type 0
ListsDelivery o not_list = ⊥
ListsDelivery o (listed rest) = HasDelivery o.pre_activity_ids o.expected_user_message rest

match-IsDelivery :
    (pre_ids : List String) (expected : Option String) (a : Activity)
    → (is_some (match_activity pre_ids expected a) ≡ true) ↔ IsDelivery pre_ids expected a
unfolding match_activity IsDelivery
match-IsDelivery pre_ids expected not_mapping = (λ h. cc, λ h. absurd h)
match-IsDelivery pre_ids expected (activity name id no_message) = (λ h. cc, λ h. absurd h)
match-IsDelivery pre_ids none (activity name id (messaged m)) = (λ h. ground arith, λ h. cc)
match-IsDelivery pre_ids (some t) (activity name id (messaged m)) = (
  λ h. (ground arith, (t, refl, (same_text_iff m t).0 (ground arith))),
  λ (fresh, (text, e, said)). rw (fresh, (same_text_iff m t).1 (said ∙ sym e)) refl,
)

find-HasDelivery :
    (pre_ids : List String) (expected : Option String) (rest : List Activity)
    → (is_some (find_delivery pre_ids expected rest) ≡ true) ↔ HasDelivery pre_ids expected rest
unfolding find_delivery HasDelivery
find-HasDelivery pre_ids expected [] = (λ h. cc, λ h. absurd h)
find-HasDelivery pre_ids expected (a ∷ rest) =
    let here = match-IsDelivery pre_ids expected a in
    let there = find-HasDelivery pre_ids expected rest in
    elim (Option-cases (match_activity pre_ids expected a)) [
      | inl e ↦ (
        λ h. inr (there.0 (rw (e, is_some) at h)),
        λ d. elim d [
          | inl first ↦ absurd (no_match e (here.1 first))
          | inr later ↦ rw (e, is_some) (there.1 later)
        ],
      )
      | inr (identity, e) ↦ (λ h. inl (here.0 (rw (e, is_some) refl)), λ d. rw (e, is_some) refl)
    ]
  where
    no_match : {o : Option String} → o ≡ none → is_some o ≡ true → ⊥
    no_match e h = true-false h (ap is_some e)

delivered-verdict :
    (state : String) (d : Option String)
    → ((delivered state d).verdict ≡ write_confirmed_by_activity) ↔ (is_some d ≡ true)
unfolding delivered provider_recovery_result
delivered-verdict state (some identity) = (λ h. refl, λ h. refl)
delivered-verdict state none = elim (Bool-cases (one_of state ("FAILED" ∷ "COMPLETED" ∷ []))) [
  | inl e ↦ (λ h. cc, λ h. cc)
  | inr e ↦ (λ h. cc, λ h. cc)
]

activities-verdict :
    (o : ProviderObservation) (state : String) (p : PostActivities)
    → ((reconcile_activities o state p).verdict ≡ write_confirmed_by_activity) ↔ ListsDelivery o p
unfolding reconcile_activities ListsDelivery provider_recovery_result
activities-verdict o state not_list = (λ h. cc, λ h. absurd h)
activities-verdict o state (listed rest) =
    let found = find_delivery o.pre_activity_ids o.expected_user_message rest in
    let said = delivered-verdict state found in
    let has = find-HasDelivery o.pre_activity_ids o.expected_user_message rest in
    (λ h. has.0 (said.0 h), λ h. said.1 (has.1 h))

-- `reconcile_provider_write` says that the write is confirmed exactly when the authoritative read is complete,
-- the provider's state is known, and the activities are a list with one that was not there before and
-- carries the expected message.
pub provider_write_iff :
    (rt : Runtime) (o : ProviderObservation)
    → ((reconcile_provider_write rt o).verdict ≡ write_confirmed_by_activity) ↔ (
        (o.authoritative_read_complete ≡ true)
        × (rt.upper (text_or o.post_session_state "UNKNOWN") ≢ "UNKNOWN")
        × ListsDelivery o o.post_activities)
unfolding reconcile_provider_write provider_recovery_result
provider_write_iff rt o =
    let state = rt.upper (text_or o.post_session_state "UNKNOWN") in
    let known = activities-verdict o state o.post_activities in
    elim (Bool-cases o.authoritative_read_complete) [
      | inl e ↦ elim (Bool-cases (state == "UNKNOWN")) [
        | inl u ↦ (λ h. cc, λ (_, other, _). absurd (other ((eq_iff state "UNKNOWN").0 u)))
        | inr u ↦ (
          λ h. (e, unknown-not u, known.0 (rw (e, u) at h)),
          λ (_, _, lists). rw (e, u) (known.1 lists),
        )
      ]
      | inr e ↦ (λ h. cc, λ (complete, _, _). cc)
    ]
  where
    unknown-not : {s : String} → (s == "UNKNOWN") ≡ false → s ≢ "UNKNOWN"
    unknown-not {s} other same = true-false ((eq_iff s "UNKNOWN").1 same) other
