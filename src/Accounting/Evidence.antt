-- ===== src/Accounting/Evidence.antt =====
-- ues/task_budget_accounting.py: what the evidence of a lane holds after a count, and after the store has
-- redacted it.
use universal_execution_syst.Prelude.{
  ℕ, zero, suc, ◌+◌, ◌-◌, ◌≤◌, String, true, false, ◌≡◌, refl, ap, ◌∙◌, Option, none, some, List,
  [], ◌∷◌, ◌++◌, arith, ◌==◌, one_of, eq_iff, eq_refl, Bool-cases, inl, inr, if◌then◌else◌,
}
use universal_execution_syst.Prelude.Lists.{length}
use universal_execution_syst.Json.{
  Json, Items, Fields, null, bool, number, text, array, object, nil, cons, end, field,
}
use universal_execution_syst.Records.Patterns.{sanitize_string}
use universal_execution_syst.Runtime.{Runtime}
use universal_execution_syst.Records.Keys.{is_sensitive_key}
use universal_execution_syst.Records.Sanitize.{sanitize_receipt, sanitize_items, sanitize_fields}
use universal_execution_syst.StateStore.Persist.{map_some}
use universal_execution_syst.StateStore.Gate.{set_field, with_fields}
use universal_execution_syst.Accounting.{
  field_at, texts_in, texts_of, count_in, operation_keys_field, transition_keys_field, count_field,
  seen, transitions, count_of, drop, last_512, items_of_texts, Confirmed, counted,
}

field_at-set_field :
    (k j : String) (v : Json) (fs : Fields)
    → field_at k (set_field j v fs) ≡ (if j == k then some v else field_at k fs)
unfolding field_at set_field
field_at-set_field k j v end = refl
field_at-set_field k j v (field i w fs) =
    ground (arith, eq_iff i j, eq_iff i k, eq_iff j k, field_at-set_field k j v fs)

field_at-sanitize_fields :
    (rt : Runtime) (k : String) (fs : Fields)
    → is_sensitive_key k ≡ false
    → field_at k (sanitize_fields rt fs) ≡ map_some (sanitize_receipt rt) (field_at k fs)
unfolding field_at sanitize_fields
field_at-sanitize_fields rt k end harmless = refl
field_at-sanitize_fields rt k (field j v fs) harmless = elim (Bool-cases (j == k)) [
  | inl e ↦ rw (e, (eq_iff j k).0 e, harmless) refl
  | inr e ↦ rw e (field_at-sanitize_fields rt k fs harmless)
]

-- The last of a list is kept when no more than the others are dropped.
one_of-drop :
    (k : String) (xs : List String) (n : ℕ)
    → n ≤ length xs
    → one_of k (drop n (xs ++ k ∷ [])) ≡ true
unfolding drop
one_of-drop k [] zero h = ground (arith, eq_refl k)
one_of-drop k [] (suc n) h = absurd (omega arith)
one_of-drop k (x ∷ xs) zero h = ground (arith, one_of-drop k xs zero (omega arith))
one_of-drop k (x ∷ xs) (suc n) h = one_of-drop k xs n (omega arith)

length-append_one : (xs : List String) (k : String) → length (xs ++ k ∷ []) ≡ length xs + 1
length-append_one [] k = refl
length-append_one (x ∷ xs) k = omega (arith, length-append_one xs k)

one_of-last_512 : (k : String) (xs : List String) → one_of k (last_512 (xs ++ k ∷ [])) ≡ true
one_of-last_512 k xs =
    one_of-drop k xs (length (xs ++ k ∷ []) - 512) (omega (arith, length-append_one xs k))

texts-items_of_texts :
    (k : String) (ts : List String)
    → (k == "") ≡ false
    → one_of k ts ≡ true
    → one_of k (texts_in (items_of_texts ts)) ≡ true
unfolding texts_in items_of_texts
texts-items_of_texts k [] filled h = h
texts-items_of_texts k (t ∷ ts) filled h =
    ground (arith, eq_iff k t, eq_iff t "", eq_iff k "", texts-items_of_texts k ts)

module _ (rt : Runtime) (k : String) (filled : (k == "") ≡ false)
    (plain : sanitize_string rt k ≡ k) where
  texts-sanitize_items :
      (xs : Items)
      → one_of k (texts_in xs) ≡ true
      → one_of k (texts_in (sanitize_items rt xs)) ≡ true
  unfolding texts_in sanitize_items sanitize_receipt
  texts-sanitize_items nil h = h
  texts-sanitize_items (cons null xs) h = texts-sanitize_items xs h
  texts-sanitize_items (cons (bool b) xs) h = texts-sanitize_items xs h
  texts-sanitize_items (cons (number s n) xs) h = texts-sanitize_items xs h
  texts-sanitize_items (cons (array ys) xs) h = texts-sanitize_items xs h
  texts-sanitize_items (cons (object fs) xs) h = texts-sanitize_items xs h
  texts-sanitize_items (cons (text s) xs) h = elim (Bool-cases (k == s)) [
    | inl e ↦ rw (← (eq_iff k s).0 e, plain, filled, eq_refl k) refl
    | inr e ↦ skip (sanitize_string rt s) (texts-sanitize_items xs (rest e h))
  ]
    where
      rest :
          (k == s) ≡ false
          → one_of k (texts_in (cons (text s) xs)) ≡ true
          → one_of k (texts_in xs) ≡ true
      rest e h = ground arith

      skip :
          (t : String)
          → one_of k (texts_in (sanitize_items rt xs)) ≡ true
          → one_of k (texts_in (cons (text t) (sanitize_items rt xs))) ≡ true
      skip t h = ground arith

  texts-sanitize :
      (o : Option Json)
      → one_of k (texts_of o) ≡ true
      → one_of k (texts_of (map_some (sanitize_receipt rt) o)) ≡ true
  unfolding sanitize_receipt
  texts-sanitize none h = h
  texts-sanitize (some (array xs)) h = texts-sanitize_items xs h
  texts-sanitize (some null) h = h
  texts-sanitize (some (bool b)) h = h
  texts-sanitize (some (number s n)) h = h
  texts-sanitize (some (text s)) h = h
  texts-sanitize (some (object fs)) h = h

field_at_ne :
    (k j : String) (v : Json) (fs : Fields)
    → (j == k) ≡ false
    → field_at k (set_field j v fs) ≡ field_at k fs
field_at_ne k j v fs other =
    field_at-set_field k j v fs ∙ ap (λ b. if b then some v else field_at k fs) other

field_at_self : (k : String) (v : Json) (fs : Fields) → field_at k (set_field k v fs) ≡ some v
field_at_self k v fs =
    field_at-set_field k k v fs ∙ ap (λ b. if b then some v else field_at k fs) (eq_refl k)

abbrev with_count : Fields → Fields
with_count fs = set_field count_field (number false (count_of fs + 1)) fs

abbrev new_operations : Confirmed → Fields → Json
new_operations c fs = array (items_of_texts (last_512 (seen fs ++ c.operation_key ∷ [])))

abbrev new_transitions : Confirmed → Fields → Json
new_transitions c fs = array (items_of_texts (last_512 (transitions fs ++ c.transition_key ∷ [])))

-- The fields that a count leaves.
counted-seen :
    (c : Confirmed) (fs : Fields)
    → field_at operation_keys_field (counted c fs)
      ≡ some (array (items_of_texts (last_512 (seen fs ++ c.operation_key ∷ []))))
unfolding counted with_fields
counted-seen c fs =
    field_at_ne operation_keys_field "capacity_gate_consumption" (bool false) _ refl
    ∙ (field_at_ne operation_keys_field "historical_audit_only" (bool true) _ refl
        ∙ (field_at_ne operation_keys_field "complete_lifetime_usage_proven" (bool false) _ refl
            ∙ (field_at_ne operation_keys_field transition_keys_field (new_transitions c fs) _ refl
                ∙ field_at_self operation_keys_field (new_operations c fs) (with_count fs))))

counted-transitions :
    (c : Confirmed) (fs : Fields)
    → field_at transition_keys_field (counted c fs)
      ≡ some (array (items_of_texts (last_512 (transitions fs ++ c.transition_key ∷ []))))
unfolding counted with_fields
counted-transitions c fs =
    field_at_ne transition_keys_field "capacity_gate_consumption" (bool false) _ refl
    ∙ (field_at_ne transition_keys_field "historical_audit_only" (bool true) _ refl
        ∙ (field_at_ne transition_keys_field "complete_lifetime_usage_proven" (bool false) _ refl
            ∙ field_at_self transition_keys_field (new_transitions c fs)
                (set_field operation_keys_field (new_operations c fs) (with_count fs))))

-- The evidence has both keys in it.
pub record HasKeys (c : Confirmed) (fs : Fields) : Type 0 where
  pub operation : one_of c.operation_key (seen fs) ≡ true
  pub transition : one_of c.transition_key (transitions fs) ≡ true

-- The two keys are no empty texts, and the redaction leaves them as they are.
pub record IsPlain (rt : Runtime) (c : Confirmed) : Type 0 where
  pub operation_filled : (c.operation_key == "") ≡ false
  pub transition_filled : (c.transition_key == "") ≡ false
  pub operation_kept : sanitize_string rt c.operation_key ≡ c.operation_key
  pub transition_kept : sanitize_string rt c.transition_key ≡ c.transition_key

pub counted-HasKeys :
    (rt : Runtime) (c : Confirmed) (fs : Fields) → IsPlain rt c → HasKeys c (counted c fs)
counted-HasKeys rt c fs plain = record {
  operation =
      ap (λ o. one_of c.operation_key (texts_of o)) (counted-seen c fs)
      ∙ texts-items_of_texts c.operation_key _ plain.operation_filled
          (one_of-last_512 c.operation_key (seen fs));
  transition =
      ap (λ o. one_of c.transition_key (texts_of o)) (counted-transitions c fs)
      ∙ texts-items_of_texts c.transition_key _ plain.transition_filled
          (one_of-last_512 c.transition_key (transitions fs));
}

operations_harmless : is_sensitive_key operation_keys_field ≡ false
unfolding is_sensitive_key
operations_harmless = refl

transitions_harmless : is_sensitive_key transition_keys_field ≡ false
unfolding is_sensitive_key
transitions_harmless = refl

count_harmless : is_sensitive_key count_field ≡ false
unfolding is_sensitive_key
count_harmless = refl

-- The redaction keeps both keys in the evidence.
pub sanitize-HasKeys :
    (rt : Runtime) (c : Confirmed) (fs : Fields)
    → IsPlain rt c
    → HasKeys c fs
    → HasKeys c (sanitize_fields rt fs)
sanitize-HasKeys rt c fs plain h = record {
  operation =
      ap (λ o. one_of c.operation_key (texts_of o))
        (field_at-sanitize_fields rt operation_keys_field fs operations_harmless)
      ∙ texts-sanitize rt c.operation_key plain.operation_filled plain.operation_kept _ h.operation;
  transition =
      ap (λ o. one_of c.transition_key (texts_of o))
        (field_at-sanitize_fields rt transition_keys_field fs transitions_harmless)
      ∙ texts-sanitize rt c.transition_key plain.transition_filled plain.transition_kept _
          h.transition;
}

count_in-sanitize :
    (rt : Runtime) (o : Option Json) → count_in (map_some (sanitize_receipt rt) o) ≡ count_in o
unfolding sanitize_receipt
count_in-sanitize rt none = refl
count_in-sanitize rt (some null) = refl
count_in-sanitize rt (some (bool b)) = refl
count_in-sanitize rt (some (number true n)) = refl
count_in-sanitize rt (some (number false n)) = refl
count_in-sanitize rt (some (text s)) = refl
count_in-sanitize rt (some (array xs)) = refl
count_in-sanitize rt (some (object fs)) = refl

-- The redaction keeps the count.
pub count-sanitize : (rt : Runtime) (fs : Fields) → count_of (sanitize_fields rt fs) ≡ count_of fs
count-sanitize rt fs =
    ap count_in (field_at-sanitize_fields rt count_field fs count_harmless)
    ∙ count_in-sanitize rt (field_at count_field fs)
