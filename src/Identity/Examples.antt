-- ===== src/Identity/Examples.antt =====
-- Runs of ues/identity.py with a quoting that escapes the bar and the percent sign.
use Prim.Native.Char.{Char, code}
use text.Mathlib.TextEquality.{Char-path}
use Prim.Native.String.{[], ◌∷◌}
use universal_execution_syst.Prelude.{
  String, true, false, ◌≡◌, refl, ◌↔◌, inl, inr, arith, some, if◌then◌else◌, nat_eq, Bool-cases,
}
use universal_execution_syst.Prelude.Texts.{strip}
use universal_execution_syst.Prelude.Splits.{join, is_free}
use universal_execution_syst.Prelude.Results.{ok}
use universal_execution_syst.Identity.{
  Quoting, IsQuoting, bar, LaneKey, component, encode, canonical_lane_id, lane_id_from_key,
  parse_lane_id,
}
use universal_execution_syst.Identity.Roundtrip.{stripped, parse-canonical, parse_iff}

abbrev percent : Char
percent = "%"

-- A bar becomes `%b`, a percent sign `%%`.
toy_quote : String → String
toy_quote [] = []
toy_quote (c ∷ s) =
    let rest = toy_quote s in
    if nat_eq (code c) bar
    then percent ∷ "b" ∷ rest
    else if nat_eq (code c) (code percent)
    then percent ∷ percent ∷ rest
    else c ∷ rest

toy_unquote : String → String
toy_unquote [] = []
toy_unquote (c ∷ []) = c ∷ []
toy_unquote (c ∷ d ∷ s) =
    let escaped = toy_unquote s in
    let plain = toy_unquote (d ∷ s) in
    if nat_eq (code c) (code percent)
    then (if nat_eq (code d) (code "b") then "|" ∷ escaped else d ∷ escaped)
    else c ∷ plain

toy_unquote-plain :
    (c : Char) (s : String)
    → nat_eq (code c) (code percent) ≡ false
    → toy_unquote (c ∷ s) ≡ c ∷ toy_unquote s
unfolding toy_unquote
toy_unquote-plain c [] h = refl
toy_unquote-plain c (d ∷ s) h = rw h refl

same_char : (c d : Char) → nat_eq (code c) (code d) ≡ true → c ≡ d
same_char c d h = Char-path c d (ground arith)

toy-reads_back : (s : String) → toy_unquote (toy_quote s) ≡ s
unfolding toy_unquote toy_quote
toy-reads_back [] = refl
toy-reads_back (c ∷ s) = elim (Bool-cases (nat_eq (code c) bar)) [
  | inl e ↦ rw (e, same_char c "|" e, toy-reads_back s) refl
  | inr e ↦ elim (Bool-cases (nat_eq (code c) (code percent))) [
    | inl f ↦ rw (e, f, same_char c percent f, toy-reads_back s) refl
    | inr f ↦ rw (e, f, toy_unquote-plain c (toy_quote s) f, toy-reads_back s) refl
  ]
]

toy-no_bar : (s : String) → is_free bar (toy_quote s) ≡ true
unfolding toy_quote
toy-no_bar [] = refl
toy-no_bar (c ∷ s) = ground (arith, toy-no_bar s)

abbrev toy : Quoting
toy = record { quote = toy_quote; unquote = toy_unquote }

toy-IsQuoting : IsQuoting toy
toy-IsQuoting = record { reads_back = toy-reads_back; no_bar = toy-no_bar }

abbrev sample_id : String
sample_id = "ues-lane:v1|rp|a%b%%|w 1"

sample-made : canonical_lane_id toy (some " rp ") (some "a|%") (some "w 1") ≡ ok sample_id
unfolding canonical_lane_id component encode join toy_quote strip
sample-made = refl

parse-canonical_example :
    parse_lane_id toy (some sample_id) ≡ ok (stripped (some " rp ") (some "a|%") (some "w 1"))
parse-canonical_example =
    parse-canonical toy toy-IsQuoting (some " rp ") (some "a|%") (some "w 1") sample_id sample-made

abbrev sample_key : LaneKey
sample_key = record { project = "rp"; route = "a|%"; workstream = "w 1" }

parse_iff_example : (parse_lane_id toy (some sample_id) ≡ ok sample_key) ↔ (
    (lane_id_from_key toy sample_key ≡ ok sample_id)
    × (sample_key ≡ stripped (some "rp") (some "a|%") (some "w 1")))
parse_iff_example = parse_iff toy toy-IsQuoting sample_id sample_key
