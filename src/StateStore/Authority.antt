-- ===== src/StateStore/Authority.antt =====
-- ues/state_store.py: the authority for an effect, under CANARY and under ACTIVE_AUTO_SAFE.
pub mod Allows
use universal_execution_syst.Prelude.{
  ℕ, String, Bool, true, false, not, ◌&&◌, Option, none, some, List, [], ◌∷◌, ltb, leb, ◌==◌,
  if◌then◌else◌, same_text,
}
use universal_execution_syst.Prelude.Lists.{lookup, select}
use universal_execution_syst.Idempotency.Effect.{EffectIdentity, sort_items, drop_missing, dict}
use universal_execution_syst.StateStore.Model.{
  CanaryGrant, consumed, MutationAuthorization, WorkstreamRuntimeRecord,
}

pub data AuthorityDecision : Type 0 where
  canary_lane_mismatch canary_grant_not_found canary_grant_ambiguous : AuthorityDecision
  canary_grant_not_yet_valid canary_grant_expired canary_grant_consumed : AuthorityDecision
  canary_expected_start_mismatch canary_grant_match : AuthorityDecision
  action_authority_required action_authority_effect_mismatch : AuthorityDecision
  action_authority_lane_mismatch project_policy_denied exact_binding_required : AuthorityDecision
  evidence_required action_authority_expired active_auto_safe_authorized : AuthorityDecision
  shadow_mode : AuthorityDecision

pub record Authority : Type 0 where
  pub allowed : Bool
  pub decision : AuthorityDecision
  pub authority_event_id : Option String

abbrev pub denied : AuthorityDecision → Authority
denied d = record { allowed = false; decision = d; authority_event_id = none }

abbrev pub granted : AuthorityDecision → String → Authority
granted d event = record { allowed = true; decision = d; authority_event_id = some event }

-- `observed.get(k) == v` for every item, and equality of two dicts.
abbrev pub holds_all : List (String × String) → List (String × String) → Bool
holds_all d [] = true
holds_all d ((k, v) ∷ items) = same_text (lookup k d) (some v) && holds_all d items

unfoldable pub same_dict : List (String × String) → List (String × String) → Bool
unfolding lookup
same_dict d e = holds_all d e && holds_all e d

-- `==` of two targets, which are tuples of pairs.
unfoldable pub same_items : List (String × String) → List (String × String) → Bool
same_items [] [] = true
same_items ((k, v) ∷ d) ((j, w) ∷ e) = k == j && (v == w && same_items d e)
same_items _ _ = false

unfoldable pub same_effect : EffectIdentity → EffectIdentity → Bool
unfolding same_items
same_effect left right =
    left.lane_id == right.lane_id
    && (left.project == right.project
        && (left.route == right.route
            && (left.workstream_id == right.workstream_id
                && (left.action == right.action && same_items left.target right.target))))

unfoldable pub effect_matches_record : WorkstreamRuntimeRecord → EffectIdentity → Bool
effect_matches_record r effect =
    effect.lane_id == r.lane_id
    && (effect.project == r.project
        && (effect.route == r.route && effect.workstream_id == r.workstream_id))

-- The grants of exactly this effect.
unfoldable pub grant_matches : EffectIdentity → CanaryGrant → Bool
unfolding same_dict dict
grant_matches effect g =
    g.lane_id == effect.lane_id
    && (g.project == effect.project
        && (g.route == effect.route
            && (g.workstream_id == effect.workstream_id
                && (g.effect_type == effect.action && same_dict g.target (dict effect.target)))))

abbrev pub event_matches : Option String → CanaryGrant → Bool
event_matches none g = true
event_matches (some event) g = g.authority_event_id == event

-- `grant.expected_start and any(…)`
abbrev pub start_differs : List (String × String) → Option (List (String × String)) → Bool
start_differs observed none = false
start_differs observed (some expected) = not (holds_all observed expected)

-- `_exact` of a mapping or `None`
abbrev pub exact : Option (List (String × Option String)) → List (String × String)
exact none = []
exact (some d) = drop_missing (sort_items d)

-- The tests on the one candidate.
unfoldable pub judge_grant : List (String × String) → ℕ → CanaryGrant → Authority
unfolding consumed
judge_grant observed current g =
    if ltb current g.issued_at
    then denied canary_grant_not_yet_valid
    else if leb g.expires_at current
    then denied canary_grant_expired
    else if consumed g
    then denied canary_grant_consumed
    else if start_differs observed g.expected_start
    then denied canary_expected_start_mismatch
    else granted canary_grant_match g.authority_event_id

unfoldable pub judge_candidates : List (String × String) → ℕ → List CanaryGrant → Authority
unfolding judge_grant
judge_candidates observed current [] = denied canary_grant_not_found
judge_candidates observed current (g ∷ []) = judge_grant observed current g
judge_candidates observed current (g ∷ h ∷ gs) = denied canary_grant_ambiguous

unfoldable pub evaluate_canary_grant :
    WorkstreamRuntimeRecord
    → EffectIdentity
    → Option (List (String × Option String))
    → Option String
    → ℕ
    → Authority
unfolding effect_matches_record grant_matches judge_candidates
evaluate_canary_grant r effect observed_start authority_event_id current =
    if effect_matches_record r effect
    then judge_candidates (exact observed_start) current
        (select (λ g. grant_matches effect g && event_matches authority_event_id g) r.canary_grants)
    else denied canary_lane_mismatch

abbrev pub expired_by : Option ℕ → ℕ → Bool
expired_by none current = false
expired_by (some t) current = leb t current

unfoldable pub evaluate_active_auto_safe_authority :
    WorkstreamRuntimeRecord → EffectIdentity → Option MutationAuthorization → ℕ → Authority
unfolding same_effect effect_matches_record
evaluate_active_auto_safe_authority r effect none current = denied action_authority_required
evaluate_active_auto_safe_authority r effect (some a) current =
    if not (same_effect effect a.effect_identity)
    then denied action_authority_effect_mismatch
    else if not (effect_matches_record r effect)
    then denied action_authority_lane_mismatch
    else if not a.project_policy_authorized
    then denied project_policy_denied
    else if not a.exact_binding_proven
    then denied exact_binding_required
    else if not a.evidence_verified
    then denied evidence_required
    else if expired_by a.expires_at current
    then denied action_authority_expired
    else granted active_auto_safe_authorized a.authority_event_id
