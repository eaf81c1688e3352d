-- ===== src/Idempotency/Key.antt =====
-- ues/idempotency.py: `canonical_request_digest`, `effect_operation_key` and the keys built on it.
use Prim.Native.Char.{Char, code}
use Prim.Native.String.{◌++◌, [], ◌∷◌}
use universal_execution_syst.Prelude.{
  String, Bool, ◌||◌, Option, some, List, nat_eq, if◌then◌else◌, ◌==◌,
}
use universal_execution_syst.Prelude.Results.{Result, ok, raise, value_error, ◌>>=◌}
use universal_execution_syst.Json.{
  Json, Items, Fields, null, bool, number, text, array, object, nil, cons, end, field,
}
use universal_execution_syst.Runtime.{Runtime}
use universal_execution_syst.Idempotency.Effect.{
  EffectIdentity, canonical_effect_identity, dict, text_le,
}

insert_field : String → Json → Fields → Fields
insert_field k v end = field k v end
insert_field k v (field j w fs) =
    if text_le k j then field k v (field j w fs) else field j w (insert_field k v fs)

-- `sort_keys=True`
unfoldable mutual
  unfolding insert_field

  pub sort_keys : Json → Json
  sort_keys null = null
  sort_keys (bool b) = bool b
  sort_keys (number s n) = number s n
  sort_keys (text s) = text s
  sort_keys (array xs) = array (sort_items_keys xs)
  sort_keys (object fs) = object (sort_fields fs)

  pub sort_items_keys : Items → Items
  sort_items_keys nil = nil
  sort_items_keys (cons x xs) = cons (sort_keys x) (sort_items_keys xs)

  pub sort_fields : Fields → Fields
  sort_fields end = end
  sort_fields (field k v fs) = insert_field k (sort_keys v) (sort_fields fs)

abbrev pub fields_of : List (String × String) → Fields
fields_of List.[] = end
fields_of (List.◌∷◌ (k, v) d) = field k (text v) (fields_of d)

-- `EffectIdentity.to_dict`
unfoldable pub to_dict : EffectIdentity → Json
unfolding dict
to_dict e = object (
    field "lane_id" (text e.lane_id) (
      field "project" (text e.project) (
        field "route" (text e.route) (
          field "workstream_id" (text e.workstream_id) (
            field "action" (text e.action)
              (field "target" (object (fields_of (dict e.target))) end))))))

abbrev is_kept : (Char → Bool) → Char → Bool
is_kept isalnum c = isalnum c || (nat_eq (code c) b'-' || nat_eq (code c) b'_')

-- The characters that are no letter, digit, dash or underscore become dashes.
unfoldable pub keep_safe : (Char → Bool) → String → String
keep_safe isalnum [] = []
keep_safe isalnum (c ∷ s) =
    if is_kept isalnum c then c ∷ keep_safe isalnum s else "-" ++ keep_safe isalnum s

module _ (rt : Runtime) where
  unfoldable pub canonical_request_digest : Json → String
  unfolding sort_keys
  canonical_request_digest value = rt.sha256_hex (rt.dumps (sort_keys value))

  unfoldable pub effect_operation_key : EffectIdentity → String
  unfolding canonical_request_digest to_dict keep_safe
  effect_operation_key effect =
      ("ues-v2:" ++ (keep_safe rt.isalnum (rt.lower effect.action) ++ ":"))
      ++ canonical_request_digest (to_dict effect)

  unfoldable pub build_operation_key :
      String → String → String → String → String → List (String × Option String) → Result String
  unfolding canonical_effect_identity effect_operation_key
  build_operation_key lane_id action project route workstream_id identity = do
    effect ← canonical_effect_identity lane_id project route workstream_id action identity
    ok (effect_operation_key effect)

  -- The answer's digest is request evidence, and the key does not use it.
  unfoldable pub waiting_answer_operation_key :
      String → String → String → String → String → String → Option String → Result String
  unfolding build_operation_key
  waiting_answer_operation_key lane_id project route workstream_id session_id waiting_activity_id
        answer_digest =
      build_operation_key lane_id "waiting-answer" project route workstream_id (
        List.◌∷◌ ("provider", some "jules")
          (List.◌∷◌ ("session_id", some session_id)
            (List.◌∷◌ ("waiting_activity_id", some waiting_activity_id) List.[])))

  unfoldable pub correction_packet_operation_key :
      String → String → String → String → String → String → String → Option String → Result String
  unfolding build_operation_key
  correction_packet_operation_key lane_id project route workstream_id writer_session_id
        reviewer_session_id candidate_sha findings_digest =
      build_operation_key lane_id "reviewer-writer-correction" project route workstream_id (
        List.◌∷◌ ("writer_session_id", some writer_session_id)
          (List.◌∷◌ ("reviewer_session_id", some reviewer_session_id)
            (List.◌∷◌ ("candidate_sha", some candidate_sha) List.[])))

  unfoldable pub reviewer_dispatch_operation_key :
      String → String → String → String → String → String → String → Bool → Result String
  unfolding build_operation_key
  reviewer_dispatch_operation_key lane_id project route workstream_id candidate_sha reviewer_lineage
        dispatch_target re_review =
      build_operation_key lane_id
        (if re_review then "reviewer-rereview-dispatch" else "reviewer-dispatch") project route
        workstream_id
        (List.◌∷◌ ("candidate_sha", some candidate_sha)
          (List.◌∷◌ ("reviewer_lineage", some reviewer_lineage)
            (List.◌∷◌ ("dispatch_target", some dispatch_target) List.[])))

  unfoldable pub task_session_operation_key :
      String → String → String → String → String → String → String → String → Result String
  unfolding build_operation_key
  task_session_operation_key lane_id project route workstream_id intent task_kind lineage
        authority_event_id =
      if intent == "recommendation" || intent == "create"
      then build_operation_key lane_id ("task-session-" ++ intent) project route workstream_id (
          List.◌∷◌ ("task_kind", some task_kind)
            (List.◌∷◌ ("lineage", some lineage)
              (List.◌∷◌ ("authority_event_id", some authority_event_id) List.[])))
      else raise value_error
