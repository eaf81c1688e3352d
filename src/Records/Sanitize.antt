-- ===== src/Records/Sanitize.antt =====
-- ues/operation_records.py: `sanitize_receipt`, and what it guarantees.
use universal_execution_syst.Prelude.{◌≡◌, refl, sym, ap, Bool, true, false, if◌then◌else◌}
use universal_execution_syst.Records.Patterns.{sanitize_string}
use universal_execution_syst.Runtime.{Runtime}
use universal_execution_syst.Json.{
  Json, Items, Fields, null, bool, number, text, array, object, nil, cons, end, field,
}
use universal_execution_syst.Records.Keys.{is_sensitive_key, HasWord, is_sensitive_key-HasWord}

abbrev pub redacted : Json
redacted = text "[REDACTED]"

-- What a field may hold: under a sensitive key the redaction mark alone.
abbrev pub FieldSanitized : Bool → Json → Type 0 → Type 0
FieldSanitized true v rest = v ≡ redacted
FieldSanitized false v rest = rest

-- Under every key with a sensitive word, at any depth, the redaction mark alone.
unfoldable mutual
  pub HidesSecrets : Json → Type 0
  HidesSecrets null = Unit
  HidesSecrets (bool b) = Unit
  HidesSecrets (number s n) = Unit
  HidesSecrets (text s) = Unit
  HidesSecrets (array xs) = ItemsHide xs
  HidesSecrets (object fs) = FieldsHide fs

  pub ItemsHide : Items → Type 0
  ItemsHide nil = Unit
  ItemsHide (cons x xs) = HidesSecrets x × ItemsHide xs

  pub FieldsHide : Fields → Type 0
  FieldsHide end = Unit
  FieldsHide (field k v fs) = (HasWord k → v ≡ redacted) × HidesSecrets v × FieldsHide fs

value_hidden : (b : Bool) (v : Json) → HidesSecrets v → HidesSecrets (if b then redacted else v)
unfolding HidesSecrets
value_hidden true v h = tt
value_hidden false v h = h

module _ (rt : Runtime) where
  -- `_sanitize_string` is `sanitize_string rt`.
  unfoldable mutual
    pub sanitize_receipt : Json → Json
    sanitize_receipt null = null
    sanitize_receipt (bool b) = bool b
    sanitize_receipt (number s n) = number s n
    sanitize_receipt (text s) = text (sanitize_string rt s)
    sanitize_receipt (array xs) = array (sanitize_items xs)
    sanitize_receipt (object fs) = object (sanitize_fields fs)

    pub sanitize_items : Items → Items
    sanitize_items nil = nil
    sanitize_items (cons x xs) = cons (sanitize_receipt x) (sanitize_items xs)

    pub sanitize_fields : Fields → Fields
    sanitize_fields end = end
    sanitize_fields (field k v fs) =
        field k (if is_sensitive_key k then redacted else sanitize_receipt v) (sanitize_fields fs)

  -- No text is left that a pattern still changes, and no sensitive key with a value of its own.
  unfoldable mutual
    pub IsSanitized : Json → Type 0
    IsSanitized null = Unit
    IsSanitized (bool b) = Unit
    IsSanitized (number s n) = Unit
    IsSanitized (text s) = sanitize_string rt s ≡ s
    IsSanitized (array xs) = AreSanitized xs
    IsSanitized (object fs) = FieldsSanitized fs

    pub AreSanitized : Items → Type 0
    AreSanitized nil = Unit
    AreSanitized (cons x xs) = IsSanitized x × AreSanitized xs

    pub FieldsSanitized : Fields → Type 0
    FieldsSanitized end = Unit
    FieldsSanitized (field k v fs) =
        FieldSanitized (is_sensitive_key k) v (IsSanitized v) × FieldsSanitized fs

  mutual
    unfolding sanitize_receipt sanitize_items sanitize_fields HidesSecrets ItemsHide FieldsHide

    receipt-HidesSecrets : (v : Json) → HidesSecrets (sanitize_receipt v)
    receipt-HidesSecrets null = tt
    receipt-HidesSecrets (bool b) = tt
    receipt-HidesSecrets (number s n) = tt
    receipt-HidesSecrets (text s) = tt
    receipt-HidesSecrets (array xs) = items-ItemsHide xs
    receipt-HidesSecrets (object fs) = fields-FieldsHide fs

    items-ItemsHide : (xs : Items) → ItemsHide (sanitize_items xs)
    items-ItemsHide nil = tt
    items-ItemsHide (cons x xs) = (receipt-HidesSecrets x, items-ItemsHide xs)

    fields-FieldsHide : (fs : Fields) → FieldsHide (sanitize_fields fs)
    fields-FieldsHide end = tt
    fields-FieldsHide (field k v fs) = (
      λ secret. rw (is_sensitive_key-HasWord k secret) refl,
      value_hidden (is_sensitive_key k) (sanitize_receipt v) (receipt-HidesSecrets v),
      fields-FieldsHide fs,
    )

  -- Whatever the receipt, in what `sanitize_receipt` returns every key, at any depth, in which a word of
  -- the sensitive-key pattern stands, in capitals or not, holds "[REDACTED]".
  pub sanitize_receipt-HidesSecrets : (v : Json) → HidesSecrets (sanitize_receipt v)
  sanitize_receipt-HidesSecrets v = receipt-HidesSecrets v

  field_fixed :
      (b : Bool) (v w : Json)
      → FieldSanitized b v (IsSanitized v)
      → (IsSanitized v → w ≡ v)
      → (if b then redacted else w) ≡ v
  field_fixed true v w h k = sym h
  field_fixed false v w h k = k h

  mutual
    unfolding sanitize_receipt sanitize_items sanitize_fields IsSanitized AreSanitized
        FieldsSanitized

    receipt_fixed : (v : Json) → IsSanitized v → sanitize_receipt v ≡ v
    receipt_fixed null h = refl
    receipt_fixed (bool b) h = refl
    receipt_fixed (number s n) h = refl
    receipt_fixed (text s) h = ap text h
    receipt_fixed (array xs) h = ap array (items_fixed xs h)
    receipt_fixed (object fs) h = ap object (fields_fixed fs h)

    items_fixed : (xs : Items) → AreSanitized xs → sanitize_items xs ≡ xs
    items_fixed nil h = refl
    items_fixed (cons x xs) h = cc (receipt_fixed x h.0, items_fixed xs h.1)

    fields_fixed : (fs : Fields) → FieldsSanitized fs → sanitize_fields fs ≡ fs
    fields_fixed end h = refl
    fields_fixed (field k v fs) h = cc (
      field_fixed (is_sensitive_key k) v (sanitize_receipt v) h.0 (receipt_fixed v),
      fields_fixed fs h.1,
    )
