-- ===== src/Identity/Roundtrip.antt =====
-- ues/identity.py: `parse_lane_id` accepts the canonical texts and no other, and reads back their key.
use Prim.Native.String.{◌++◌}
use universal_execution_syst.Prelude.{
  String, true, false, ◌≡◌, refl, sym, ap, ◌∙◌, ◌↔◌, inl, inr, arith, Option, some, [], ◌∷◌, ◌==◌,
  eq_iff, eq_refl, Bool-cases,
}
use universal_execution_syst.Prelude.Texts.{strip, is_blank, strip-strip}
use universal_execution_syst.Prelude.Splits.{split, join, is_free, split-is_free, split-append}
use universal_execution_syst.Prelude.Results.{ok_injective, ok, >>=-eq-ok}
use universal_execution_syst.Identity.{
  Quoting, IsQuoting, bar, prefix, text_of, component, LaneKey, encode, canonical_lane_id,
  lane_id_from_key, decode, check_canonical, parse_lane_id,
}

-- What `_component` returns: a stripped text that is not empty.
abbrev pub IsComponent : String → Type 0
IsComponent s = (strip s ≡ s) × (s == "" ≡ false)

component-ok :
    (v : Option String) (s : String) → component v ≡ ok s → (s ≡ strip (text_of v)) × IsComponent s
unfolding component
component-ok v s returned = elim (Bool-cases (strip (text_of v) == "")) [
  | inl e ↦ ground arith
  | inr e ↦ ground (arith, strip-strip (text_of v))
]

component_fixed : (s : String) → IsComponent s → component (some s) ≡ ok s
unfolding component
component_fixed s (fixed, filled) = rw (fixed, filled) refl

abbrev key_of : String → String → String → LaneKey
key_of p r w = record { project = p; route = r; workstream = w }

-- The stripped form of a key that the three components have.
abbrev pub stripped : Option String → Option String → Option String → LaneKey
stripped p r w = key_of (strip (text_of p)) (strip (text_of r)) (strip (text_of w))

module _ (url : Quoting) (h : IsQuoting url) where
  split-bar : (p s : String) → is_free bar p ≡ true → split bar (p ++ ("|" ++ s)) ≡ p ∷ split bar s
  split-bar p s free = split-append bar p "|" s free refl

  split-encode :
      (p r w : String)
      → split bar (encode url p r w) ≡ prefix ∷ url.quote p ∷ url.quote r ∷ url.quote w ∷ []
  unfolding encode join
  split-encode p r w =
      rw
        (
          split-bar prefix (url.quote p ++ ("|" ++ (url.quote r ++ ("|" ++ url.quote w)))) refl,
          split-bar (url.quote p) (url.quote r ++ ("|" ++ url.quote w)) (h.no_bar p),
          split-bar (url.quote r) (url.quote w) (h.no_bar r),
          split-is_free bar (url.quote w) (h.no_bar w),
        )
        refl

  decode-parts :
      (p r w : String)
      → IsComponent p
      → IsComponent r
      → IsComponent w
      → decode url (prefix ∷ url.quote p ∷ url.quote r ∷ url.quote w ∷ []) ≡ ok (key_of p r w)
  unfolding decode is_blank
  decode-parts p r w hp hr hw =
      rw (h.reads_back p, h.reads_back r, h.reads_back w, hp.0, hr.0, hw.0, hp.1, hr.1, hw.1) refl

  canonical-components :
      (p r w : String)
      → IsComponent p
      → IsComponent r
      → IsComponent w
      → canonical_lane_id url (some p) (some r) (some w) ≡ ok (encode url p r w)
  unfolding canonical_lane_id
  canonical-components p r w hp hr hw =
      rw (component_fixed p hp, component_fixed r hr, component_fixed w hw) refl

  canonical-ok :
      (p r w : Option String) (v : String)
      → canonical_lane_id url p r w ≡ ok v
      → (component p ≡ ok (strip (text_of p)))
        × (component r ≡ ok (strip (text_of r)))
        × (component w ≡ ok (strip (text_of w)))
        × (v ≡ encode url (strip (text_of p)) (strip (text_of r)) (strip (text_of w)))
  unfolding canonical_lane_id
  canonical-ok p r w v returned =
      let (a, ha, rest) = >>=-eq-ok (component p) _ returned in
      let (b, hb, rest') = >>=-eq-ok (component r) _ rest in
      let (c, hc, rest'') = >>=-eq-ok (component w) _ rest' in
      grind (arith, component-ok p a ha, component-ok r b hb, component-ok w c hc)

  -- Where `canonical_lane_id` returns a text, `parse_lane_id` of that text returns the three components,
  -- stripped, provided `unquote` reads back what `quote` writes and `quote` leaves no bar.
  pub parse-canonical :
      (p r w : Option String) (v : String)
      → canonical_lane_id url p r w ≡ ok v
      → parse_lane_id url (some v) ≡ ok (stripped p r w)
  unfolding parse_lane_id check_canonical lane_id_from_key
  parse-canonical p r w v returned =
      let (hp, hr, hw, e) = canonical-ok p r w v returned in
      let cp = (component-ok p _ hp).1 in
      let cr = (component-ok r _ hr).1 in
      let cw = (component-ok w _ hw).1 in
      let a = strip (text_of p) in
      let b = strip (text_of r) in
      let c = strip (text_of w) in
      rw
        (
          e,
          split-encode a b c,
          decode-parts a b c cp cr cw,
          canonical-components a b c cp cr cw,
          eq_refl (encode url a b c),
        )
        refl

  check-ok :
      (v : String) (found key : LaneKey)
      → check_canonical url v found ≡ ok key
      → (found ≡ key) × (lane_id_from_key url key ≡ ok v)
  unfolding check_canonical
  check-ok v found key returned =
      let (encoded, made, rest) = >>=-eq-ok (lane_id_from_key url found) _ returned in
      elim (Bool-cases (encoded == v)) [
        | inl e ↦ grind (arith, eq_iff encoded v)
        | inr e ↦ ground arith
      ]

  parse-ok :
      (v : String) (key : LaneKey)
      → parse_lane_id url (some v) ≡ ok key
      → lane_id_from_key url key ≡ ok v
  unfolding parse_lane_id
  parse-ok v key returned =
      let (found, decoded, rest) = >>=-eq-ok (decode url (split bar v)) _ returned in
      (check-ok v found key rest).1

  -- `parse_lane_id` returns a key for a text if and only if the text is what `lane_id_from_key` makes of
  -- that key and the key's components are stripped, provided `unquote` reads back what `quote` writes and
  -- `quote` leaves no bar.
  pub parse_iff :
      (v : String) (key : LaneKey)
      → (parse_lane_id url (some v) ≡ ok key) ↔ (
          (lane_id_from_key url key ≡ ok v)
          × (key ≡ stripped (some key.project) (some key.route) (some key.workstream)))
  unfolding lane_id_from_key
  parse_iff v key = (forth, back)
    where
      reparsed :
          lane_id_from_key url key ≡ ok v
          → parse_lane_id url (some v)
            ≡ ok (stripped (some key.project) (some key.route) (some key.workstream))
      reparsed made =
          parse-canonical (some key.project) (some key.route) (some key.workstream) v made

      forth :
          parse_lane_id url (some v) ≡ ok key
          → (lane_id_from_key url key ≡ ok v)
            × (key ≡ stripped (some key.project) (some key.route) (some key.workstream))
      forth returned = (
        parse-ok v key returned,
        ok_injective (sym returned ∙ reparsed (parse-ok v key returned)),
      )

      back :
          (lane_id_from_key url key ≡ ok v)
            × (key ≡ stripped (some key.project) (some key.route) (some key.workstream))
          → parse_lane_id url (some v) ≡ ok key
      back (made, fixed) = reparsed made ∙ ap (λ k. ok k) (sym fixed)
