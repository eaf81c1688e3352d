-- ===== src/Idempotency/Effect.antt =====
-- ues/idempotency.py: the canonical effect identity and the operation key made of it.
use Prim.Native.String.{compare}
use Prim.Native.Nat.{Ordering}
use universal_execution_syst.Prelude.{
  String, Bool, true, false, not, Option, none, some, List, [], ◌∷◌, ◌==◌, if◌then◌else◌,
}
use universal_execution_syst.Prelude.Texts.{strip}
use universal_execution_syst.Prelude.Lists.{insert, is_empty}
use universal_execution_syst.Prelude.Results.{Result, ok, raise, value_error, ◌>>=◌, ◌>>◌, guard}

pub record EffectIdentity : Type 0 where
  pub lane_id : String
  pub project : String
  pub route : String
  pub workstream_id : String
  pub action : String
  pub target : List (String × String)

-- `_required_text` of a text.
unfoldable pub required_text : String → Result String
required_text value =
    let stripped = strip value in if stripped == "" then raise value_error else ok stripped

abbrev pub text_le : String → String → Bool
text_le s t = elim (compare s t) [ Ordering.gt ↦ false | _ ↦ true ]

-- `sorted(target.items(), key=…)`, which is stable: an earlier item stays before those with an equal key.
unfoldable pub insert_item {ℓ} : {V : Type ℓ} → String × V → List (String × V) → List (String × V)
insert_item (k, v) [] = (k, v) ∷ []
insert_item (k, v) ((j, w) ∷ d) =
    if text_le k j then (k, v) ∷ (j, w) ∷ d else (j, w) ∷ insert_item (k, v) d

unfoldable pub sort_items {ℓ} : {V : Type ℓ} → List (String × V) → List (String × V)
unfolding insert_item
sort_items [] = []
sort_items (item ∷ d) = insert_item item (sort_items d)

unfoldable pub drop_missing : List (String × Option String) → List (String × String)
drop_missing [] = []
drop_missing ((k, none) ∷ d) = drop_missing d
drop_missing ((k, some v) ∷ d) = (k, v) ∷ drop_missing d

unfoldable pub normalize_target : List (String × Option String) → Result (List (String × String))
unfolding drop_missing sort_items
normalize_target target =
    let normalized = drop_missing (sort_items target) in
    if is_empty normalized then raise value_error else ok normalized

-- The constructor with `__post_init__`.
unfoldable pub make_effect_identity :
    String → String → String → String → String → List (String × String) → Result EffectIdentity
unfolding required_text
make_effect_identity lane_id project route workstream_id action target = do
  required_text lane_id
  required_text project
  required_text route
  required_text workstream_id
  required_text action
  guard (not (is_empty target)) value_error
  ok (record {
    lane_id = lane_id;
    project = project;
    route = route;
    workstream_id = workstream_id;
    action = action;
    target = target;
  })

unfoldable pub canonical_effect_identity :
    String
    → String
    → String
    → String
    → String
    → List (String × Option String)
    → Result EffectIdentity
unfolding required_text normalize_target make_effect_identity
canonical_effect_identity lane_id project route workstream_id action target = do
  lane ← required_text lane_id
  project' ← required_text project
  route' ← required_text route
  workstream ← required_text workstream_id
  action' ← required_text action
  target' ← normalize_target target
  make_effect_identity lane project' route' workstream action' target'

unfoldable pub dict_from : List (String × String) → List (String × String) → List (String × String)
dict_from d [] = d
dict_from d ((k, v) ∷ rest) = dict_from (insert k v d) rest

-- `dict(items)`: a later item with the same key takes the earlier one's place.
unfoldable pub dict : List (String × String) → List (String × String)
unfolding dict_from insert
dict items = dict_from [] items
