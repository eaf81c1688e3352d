-- ===== src/Identity.antt =====
-- ues/identity.py: the text that names a lane.
-- `quote(item, safe="")` and `unquote` of urllib.parse are parameters, as the fields of Quoting.
use Prim.Native.String.{◌++◌}
use universal_execution_syst.Prelude.{
  ℕ, String, Bool, true, not, ◌||◌, ◌≡◌, Option, none, some, List, [], ◌∷◌, if◌then◌else◌, ◌==◌,
  one_of,
}
use universal_execution_syst.Prelude.Texts.{strip, is_blank}
use universal_execution_syst.Prelude.Splits.{split, join, is_free}
use universal_execution_syst.Prelude.Results.{Result, ok, raise, value_error, ◌>>=◌, ◌>>◌}
mod Roundtrip
mod Examples

pub record Quoting : Type 0 where
  pub quote : String → String
  pub unquote : String → String

abbrev pub bar : ℕ
bar = b'|'

-- Documented behaviour of urllib.parse on texts without lone surrogates: `unquote` reads back what
-- `quote` wrote, and with `safe=""` the bar is written as an escape.
pub record IsQuoting (url : Quoting) : Type 0 where
  pub reads_back : (s : String) → url.unquote (url.quote s) ≡ s
  pub no_bar : (s : String) → is_free bar (url.quote s) ≡ true

abbrev pub prefix : String
prefix = "ues-lane:v1"

-- A value that may be `None`, as its text.
abbrev pub text_of : Option String → String
text_of none = ""
text_of (some s) = s

unfoldable pub component : Option String → Result String
unfolding strip
component value =
    let text = strip (text_of value) in if text == "" then raise value_error else ok text

pub record LaneKey : Type 0 where
  pub project : String
  pub route : String
  pub workstream : String

module _ (url : Quoting) where
  -- `_PREFIX + "|" + "|".join(encoded)`
  unfoldable pub encode : String → String → String → String
  unfolding join
  encode p r w = prefix ++ ("|" ++ join "|" (url.quote p ∷ url.quote r ∷ url.quote w ∷ []))

  unfoldable pub canonical_lane_id : Option String → Option String → Option String → Result String
  unfolding component encode
  canonical_lane_id project route workstream = do
    p ← component project
    r ← component route
    w ← component workstream
    ok (encode p r w)

  unfoldable pub lane_id_from_key : LaneKey → Result String
  unfolding canonical_lane_id
  lane_id_from_key key = canonical_lane_id (some key.project) (some key.route) (some key.workstream)

  unfoldable pub decode : List String → Result LaneKey
  unfolding is_blank
  decode (head ∷ p ∷ r ∷ w ∷ []) =
      if not (head == prefix)
      then raise value_error
      else if is_blank (url.unquote p) || (is_blank (url.unquote r) || is_blank (url.unquote w))
      then raise value_error
      else ok
          (record { project = url.unquote p; route = url.unquote r; workstream = url.unquote w })
  decode _ = raise value_error

  -- The key is accepted when the text is its canonical encoding.
  unfoldable pub check_canonical : String → LaneKey → Result LaneKey
  unfolding lane_id_from_key
  check_canonical value key = do
    encoded ← lane_id_from_key key
    if encoded == value then ok key else raise value_error

  unfoldable pub parse_lane_id : Option String → Result LaneKey
  unfolding split decode check_canonical
  parse_lane_id lane_id =
      let value = text_of lane_id in decode (split bar value) >>= check_canonical value
