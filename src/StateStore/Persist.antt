-- ===== src/StateStore/Persist.antt =====
-- ues/state_store.py: `to_dict` and `from_dict` of the records, composed the way a store does: what
-- is written is sanitized, and what is read is checked by `__post_init__`. A dict is represented by
-- a value of the record's own type.
use universal_execution_syst.Prelude.{
  ℕ, String, not, ◌&&◌, Option, none, some, List, [], ◌∷◌, leb, nat_eq, ◌==◌, if◌then◌else◌, map,
}
use universal_execution_syst.Prelude.Lists.{insert, is_empty}
use universal_execution_syst.Prelude.Results.{Result, ok, value_error, guard, ◌>>=◌, ◌>>◌}
use universal_execution_syst.Json.{Json, object, end}
use universal_execution_syst.Records.Patterns.{sanitize_string}
use universal_execution_syst.Runtime.{Runtime}
use universal_execution_syst.Records.Keys.{is_sensitive_key}
use universal_execution_syst.Records.Sanitize.{sanitize_receipt}
use universal_execution_syst.Idempotency.Effect.{required_text, sort_items}
use universal_execution_syst.StateStore.Model.{
  CanaryGrant, WorkstreamRuntimeRecord, OperationRecord,
}

abbrev pub map_some : {A B : Type 0} → (A → B) → Option A → Option B
map_some f none = none
map_some f (some a) = some (f a)

-- `str(v) if v else None`
abbrev pub text_or_none : Option String → Option String
text_or_none none = none
text_or_none (some s) = if s == "" then none else some s

-- `v if isinstance(v, dict) else None`, and with `{}`.
abbrev pub dict_or_none : Option Json → Option Json
dict_or_none none = none
dict_or_none (some (object fs)) = some (object fs)
dict_or_none (some _) = none

abbrev pub dict_or_empty : Json → Json
dict_or_empty (object fs) = object fs
dict_or_empty _ = object end

-- `int(v or 1)`
abbrev pub one_if_zero : ℕ → ℕ
one_if_zero n = if nat_eq n 0 then 1 else n

-- `CanaryGrant.__post_init__`
unfoldable pub make_grant : CanaryGrant → Result CanaryGrant
unfolding required_text sort_items
make_grant g = do
  required_text g.authority_event_id
  required_text g.lane_id
  required_text g.project
  required_text g.route
  required_text g.workstream_id
  required_text g.effect_type
  guard (not (is_empty g.target)) value_error
  guard (not (leb g.expires_at g.issued_at)) value_error
  guard (not (leb g.maximum_effect_count 0) && leb g.consumed_count g.maximum_effect_count)
      value_error
  ok (record g {
    target = sort_items g.target;
    expected_start = map_some sort_items g.expected_start;
  })

-- `CanaryGrant.from_dict`
unfoldable pub grant_from_dict : CanaryGrant → Result CanaryGrant
unfolding make_grant
grant_from_dict g =
    make_grant (record g { maximum_effect_count = one_if_zero g.maximum_effect_count })

unfoldable pub grants_from_dicts : List CanaryGrant → Result (List CanaryGrant)
unfolding grant_from_dict
grants_from_dicts [] = ok []
grants_from_dicts (g ∷ gs) = do g' ← grant_from_dict g; gs' ← grants_from_dicts gs; ok (g' ∷ gs')

module _ (rt : Runtime) where
  sanitize_pairs : List (String × String) → List (String × String)
  sanitize_pairs [] = []
  sanitize_pairs ((k, v) ∷ d) =
      (k, if is_sensitive_key k then "[REDACTED]" else sanitize_string rt v) ∷ sanitize_pairs d

  -- `CanaryGrant.to_dict`: `sanitize_receipt` of the whole grant, none of whose own field names is
  -- a sensitive key.
  unfoldable pub grant_to_dict : CanaryGrant → CanaryGrant
  unfolding sanitize_pairs
  grant_to_dict g = record g {
    authority_event_id = sanitize_string rt g.authority_event_id;
    lane_id = sanitize_string rt g.lane_id;
    project = sanitize_string rt g.project;
    route = sanitize_string rt g.route;
    workstream_id = sanitize_string rt g.workstream_id;
    effect_type = sanitize_string rt g.effect_type;
    target = sanitize_pairs g.target;
    expected_start = map_some sanitize_pairs g.expected_start;
    consumed_operation_keys = map (sanitize_string rt) g.consumed_operation_keys;
  }

  -- `_sanitize_actor_bindings`
  unfoldable pub sanitize_actor_bindings :
      List (String × Json) → List (String × Json) → Result (List (String × Json))
  unfolding required_text insert sanitize_receipt
  sanitize_actor_bindings result [] = ok result
  sanitize_actor_bindings result ((role, binding) ∷ rest) = do
    name ← required_text role
    sanitize_actor_bindings (insert (rt.upper name) (sanitize_receipt rt binding) result) rest

  -- `WorkstreamRuntimeRecord.__post_init__`
  unfoldable pub make_workstream : WorkstreamRuntimeRecord → Result WorkstreamRuntimeRecord
  unfolding required_text sanitize_actor_bindings
  make_workstream r = do
    required_text r.lane_id
    required_text r.project
    required_text r.route
    required_text r.workstream_id
    actors ← sanitize_actor_bindings [] r.actor_bindings
    ok (record r { actor_bindings = actors })

  -- `WorkstreamRuntimeRecord.to_dict`
  unfoldable pub workstream_to_dict : WorkstreamRuntimeRecord → Result WorkstreamRuntimeRecord
  unfolding sanitize_actor_bindings sanitize_receipt grant_to_dict
  workstream_to_dict r = do
    actors ← sanitize_actor_bindings [] r.actor_bindings
    ok (record r {
      actor_bindings = actors;
      authority_provenance = map_some (sanitize_receipt rt) r.authority_provenance;
      evidence_bindings = map_some (sanitize_receipt rt) r.evidence_bindings;
      operation_receipt = map_some (sanitize_receipt rt) r.operation_receipt;
      canary_grants = map grant_to_dict r.canary_grants;
    })

  -- `WorkstreamRuntimeRecord.from_dict`
  unfoldable pub workstream_from_dict : WorkstreamRuntimeRecord → Result WorkstreamRuntimeRecord
  unfolding sanitize_actor_bindings grants_from_dicts make_workstream
  workstream_from_dict r = do
    actors ← sanitize_actor_bindings [] r.actor_bindings
    grants ← grants_from_dicts r.canary_grants
    make_workstream (record r {
      actor_bindings = actors;
      operation_key = text_or_none r.operation_key;
      canary_grants = grants;
      authority_provenance = dict_or_none r.authority_provenance;
      evidence_bindings = dict_or_none r.evidence_bindings;
      action_in_flight = dict_or_none r.action_in_flight;
      operation_receipt = dict_or_none r.operation_receipt;
      last_observed_provider_state = dict_or_none r.last_observed_provider_state;
      last_observed_github_state = dict_or_none r.last_observed_github_state;
      last_successful_transition = dict_or_none r.last_successful_transition;
      unknown_write_state = dict_or_none r.unknown_write_state;
    })

  -- `OperationRecord.to_dict`
  unfoldable pub operation_to_dict : OperationRecord → OperationRecord
  unfolding sanitize_receipt
  operation_to_dict r = record r {
    receipt = sanitize_receipt rt r.receipt;
    authoritative_readback = map_some (sanitize_receipt rt) r.authoritative_readback;
    effect_identity = map_some (sanitize_receipt rt) r.effect_identity;
  }

abbrev or_text : String → String → String
or_text s d = if s == "" then d else s

-- `OperationRecord.__post_init__`
unfoldable pub make_operation : OperationRecord → Result OperationRecord
unfolding required_text
make_operation r = do
  required_text r.operation_key
  required_text r.lane_id
  required_text r.workstream_id
  required_text r.request_digest
  ok r

-- `OperationRecord.from_dict`
unfoldable pub operation_from_dict : OperationRecord → Result OperationRecord
unfolding make_operation
operation_from_dict r = make_operation (record r {
  action = or_text r.action "unknown";
  owner = or_text r.owner "unknown";
  attempt = one_if_zero r.attempt;
  receipt = dict_or_empty r.receipt;
  authoritative_readback = dict_or_none r.authoritative_readback;
  effect_identity = dict_or_none r.effect_identity;
})
