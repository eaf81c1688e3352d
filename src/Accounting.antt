-- ===== src/Accounting.antt =====
-- ues/task_budget_accounting.py: `record_confirmed_generation` and `read_budget_accounting`, over any
-- store. What the evidence holds under the code's own keys is taken as it writes it: a natural number
-- and lists of texts; a value of another kind counts as absent.
mod Rounds
mod Evidence
mod Once
mod Calls
mod Examples
use universal_execution_syst.Prelude.{
  ℕ, zero, suc, ◌+◌, ◌-◌, String, Bool, true, false, not, ◌||◌, Option, none, some, List, [], ◌∷◌,
  ◌++◌, if◌then◌else◌, ◌==◌, one_of, or_else, nat_eq,
}
use universal_execution_syst.Prelude.Lists.{length}
use universal_execution_syst.Prelude.Texts.{strip}
use universal_execution_syst.Prelude.Results as Results
use universal_execution_syst.Prelude.Results.{
  Result, Error, ok, raise, value_error, state_unavailable, state_version_conflict, guard, ◌>>=◌,
  ◌>>◌,
}
use universal_execution_syst.Prelude.Execs.{Exec, pure, lift, continue}
use universal_execution_syst.Json.{
  Json, Items, Fields, null, bool, number, text, array, object, nil, cons, end, field,
}
use universal_execution_syst.Runtime.{Runtime}
use universal_execution_syst.StateStore.Model as Model
use universal_execution_syst.StateStore.Model.{
  WorkstreamRuntimeRecord, StateRead, Status, when_ok, shadow,
}
use universal_execution_syst.StateStore.Persist.{
  make_workstream, workstream_to_dict, workstream_from_dict,
}
use universal_execution_syst.StateStore.Interface.{StateStore}
use universal_execution_syst.Identity.{Quoting, canonical_lane_id}
use universal_execution_syst.StateStore.Gate.{with_fields}

-- `evidence.get(key)`
unfoldable pub field_at : String → Fields → Option Json
field_at key end = none
field_at key (field k v fs) = if k == key then some v else field_at key fs

-- `[str(item) for item in items if str(item)]`
unfoldable pub texts_in : Items → List String
texts_in nil = []
texts_in (cons (text s) xs) = if s == "" then texts_in xs else s ∷ texts_in xs
texts_in (cons _ xs) = texts_in xs

abbrev pub texts_of : Option Json → List String
texts_of (some (array xs)) = texts_in xs
texts_of _ = []

abbrev pub count_in : Option Json → ℕ
count_in (some (number false n)) = n
count_in _ = 0

abbrev pub operation_keys_field : String
operation_keys_field = "confirmed_generation_operation_keys"

abbrev pub transition_keys_field : String
transition_keys_field = "confirmed_generation_transition_keys"

abbrev pub count_field : String
count_field = "ues_confirmed_generation_count"

abbrev pub seen : Fields → List String
seen fs = texts_of (field_at operation_keys_field fs)

abbrev pub transitions : Fields → List String
transitions fs = texts_of (field_at transition_keys_field fs)

abbrev pub count_of : Fields → ℕ
count_of fs = count_in (field_at count_field fs)

-- `dict(record.evidence_bindings or {})`
abbrev pub evidence_of : Option Json → Fields
evidence_of (some (object fs)) = fs
evidence_of _ = end

unfoldable pub drop {ℓ} : {A : Type ℓ} → ℕ → List A → List A
drop zero xs = xs
drop (suc n) [] = []
drop (suc n) (x ∷ xs) = drop n xs

-- `xs[-512:]`
abbrev pub last_512 : List String → List String
last_512 xs = drop (length xs - 512) xs

unfoldable pub items_of_texts : List String → Items
items_of_texts [] = nil
items_of_texts (s ∷ ss) = cons (text s) (items_of_texts ss)

-- The arguments of `record_confirmed_generation`, with the two keys stripped.
pub record Confirmed : Type 0 where
  pub project : String
  pub route : String
  pub operation_key : String
  pub transition_key : String

pub data AccountingStatus : Type 0 where
  idempotent_generation_already_accounted generation_accounted : AccountingStatus

pub record Accounted : Type 0 where
  pub status : AccountingStatus
  pub confirmed_generation_count : ℕ
  pub version : ℕ

abbrev pub budget_workstream : String
budget_workstream = "TASK-BUDGET-ACCOUNTING"

-- What a round of the loop starts from.
pub record Round : Type 0 where
  pub lane_record : WorkstreamRuntimeRecord
  pub expected : ℕ
  pub evidence : Fields
  pub version : ℕ

abbrev pub new_record : String → Confirmed → WorkstreamRuntimeRecord
new_record lane_id c = record {
  lane_id = lane_id;
  project = c.project;
  route = c.route;
  workstream_id = budget_workstream;
  activation_mode = shadow;
  actor_bindings = [];
  authority_provenance = none;
  evidence_bindings = none;
  action_in_flight = none;
  lease = none;
  operation_key = none;
  operation_receipt = none;
  last_observed_provider_state = none;
  last_observed_github_state = none;
  last_successful_transition = none;
  unknown_write_state = none;
  canary_grants = [];
  updated_at = none;
}

-- The evidence after one more confirmed generation.
unfoldable pub counted : Confirmed → Fields → Fields
unfolding with_fields items_of_texts
counted c fs = with_fields fs (
    field count_field (number false (count_of fs + 1)) (
      field operation_keys_field
        (array (items_of_texts (last_512 (seen fs ++ c.operation_key ∷ []))))
        (field transition_keys_field
          (array (items_of_texts (last_512 (transitions fs ++ c.transition_key ∷ []))))
          (field "complete_lifetime_usage_proven" (bool false) (
            field "historical_audit_only" (bool true)
              (field "capacity_gate_consumption" (bool false) end))))))

abbrev pub provenance : Json
provenance = object (
    field "scope" (text "UES_CONFIRMED_PROVIDER_GENERATION_ACCOUNTING") (
      field "complete_lifetime_usage_proven" (bool false) (
        field "counter_is_durable_lower_bound_only" (bool true) (
          field "historical_audit_only" (bool true)
            (field "capacity_gate_consumption" (bool false) end)))))

abbrev pub transition_note : Confirmed → Json
transition_note c = object (
    field "kind" (text "CONFIRMED_GENERATION_ACCOUNTED") (
      field "operation_key" (text c.operation_key)
        (field "generation_transition_key" (text c.transition_key) end)))

unfoldable pub counted_record : Confirmed → Round → WorkstreamRuntimeRecord
unfolding counted
counted_record c b = record (b.lane_record) {
  activation_mode = shadow;
  actor_bindings = [];
  authority_provenance = some provenance;
  evidence_bindings = some (object (counted c b.evidence));
  last_successful_transition = some (transition_note c);
}

abbrev pub is_counted : Confirmed → Fields → Bool
is_counted c fs = one_of c.operation_key (seen fs) || one_of c.transition_key (transitions fs)

-- The test of what was saved.
abbrev pub judge_saved : ℕ → ℕ → Option WorkstreamRuntimeRecord → Result Accounted
judge_saved count version none = raise state_unavailable
judge_saved count version (some q) =
    if nat_eq (count_of (evidence_of q.evidence_bindings)) (count + 1)
    then ok (record {
      status = generation_accounted;
      confirmed_generation_count = count + 1;
      version = version;
    })
    else raise state_unavailable
