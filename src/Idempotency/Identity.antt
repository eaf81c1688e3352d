-- ===== src/Idempotency/Identity.antt =====
-- An operation key names one effect (ues/idempotency.py, `effect_operation_key`).
use Prim.Native.String.{◌++◌, count}
use package.text.Mathlib.TextLemmas.{append_inj, length-append}
use universal_execution_syst.Prelude.{String, ◌≡◌, refl, ap, sym, ◌∙◌, arith}
use universal_execution_syst.Json.{Json, Fields, text, object, field, end}
use universal_execution_syst.Runtime.{Runtime}
use universal_execution_syst.Idempotency.Effect.{EffectIdentity, dict}
use universal_execution_syst.Idempotency.Key.{
  sort_keys, sort_fields, fields_of, to_dict, effect_operation_key,
}

-- Texts that end in parts of one length end in the same part.
suffix_eq : (s t d e : String) → s ++ d ≡ t ++ e → count d ≡ count e → d ≡ e
suffix_eq s t d e h k =
    (append_inj h (omega (arith, k, length-append s d, length-append t e, ap count h))).1

-- The two effects agree in every field, their targets as dicts.
pub record SameEffect (e f : EffectIdentity) : Type 0 where
  pub lane_id : e.lane_id ≡ f.lane_id
  pub project : e.project ≡ f.project
  pub route : e.route ≡ f.route
  pub workstream_id : e.workstream_id ≡ f.workstream_id
  pub action : e.action ≡ f.action
  pub target : sort_fields (fields_of (dict e.target)) ≡ sort_fields (fields_of (dict f.target))

-- The value that is written: an effect's fields in the order of their names.
written : String → String → String → String → Fields → String → Json
written action lane_id project route target workstream_id = object (
    field "action" (text action) (
      field "lane_id" (text lane_id) (
        field "project" (text project) (
          field "route" (text route)
            (field "target" (object target) (field "workstream_id" (text workstream_id) end))))))

sort_keys-to_dict :
    (e : EffectIdentity)
    → sort_keys (to_dict e)
      ≡ written e.action e.lane_id e.project e.route
          (sort_fields (fields_of (dict e.target)))
          e.workstream_id
unfolding sort_keys to_dict written
sort_keys-to_dict e = refl

written_injective :
    (a l p r : String) (t : Fields) (w a' l' p' r' : String) (t' : Fields) (w' : String)
    → written a l p r t w ≡ written a' l' p' r' t' w'
    → (a ≡ a') × (l ≡ l') × (p ≡ p') × (r ≡ r') × (t ≡ t') × (w ≡ w')
unfolding written
written_injective a l p r t w a' l' p' r' t' w' h = (cc, cc, cc, cc, cc, cc)

SameEffect-of_sorted :
    (e f : EffectIdentity) → sort_keys (to_dict e) ≡ sort_keys (to_dict f) → SameEffect e f
SameEffect-of_sorted e f h =
    let (a, l, p, r, t, w) =
      written_injective _ _ _ _ _ _ _ _ _ _ _ _
        (sym (sort_keys-to_dict e) ∙ (h ∙ sort_keys-to_dict f)) in
    record { lane_id = l; project = p; route = r; workstream_id = w; action = a; target = t }

-- The text of which an effect's digest is the SHA-256.
abbrev pub canonical_text : Runtime → EffectIdentity → String
canonical_text rt e = rt.dumps (sort_keys (to_dict e))

-- If digests have one length, and for these two effects equal digests come of equal JSON texts and
-- equal JSON texts of equal values, then equal operation keys are keys of the same effect: the
-- actions, of which the key shows only a simplified text, agree too.
pub effect_operation_key_injective :
    (rt : Runtime)
    → ((s t : String) → count (rt.sha256_hex s) ≡ count (rt.sha256_hex t))
    → (e f : EffectIdentity)
    → (canonical_text rt e ≡ canonical_text rt f → sort_keys (to_dict e) ≡ sort_keys (to_dict f))
    → (rt.sha256_hex (canonical_text rt e) ≡ rt.sha256_hex (canonical_text rt f)
        → canonical_text rt e ≡ canonical_text rt f)
    → effect_operation_key rt e ≡ effect_operation_key rt f
    → SameEffect e f
unfolding effect_operation_key
effect_operation_key_injective rt lengths e f same_value no_collision h =
    SameEffect-of_sorted e f (same_value (no_collision (suffix_eq _ _ _ _ h (lengths _ _))))
