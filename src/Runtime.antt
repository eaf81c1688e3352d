-- ===== src/Runtime.antt =====
-- What the code takes from the Python runtime and does not implement: letter tables, JSON text, SHA-256, and the text of times and numbers.
pub mod Plain
use Prim.Native.Char.{Char}
use universal_execution_syst.Prelude.{ℕ, String, Bool}
use universal_execution_syst.Json.{Json}

pub record Runtime : Type 0 where
  -- `str.lower` and `str.upper`
  pub lower : String → String
  pub upper : String → String
  -- `str.isalnum` of one character
  pub isalnum : Char → Bool
  -- `json.dumps` of a value whose objects are written in the order given
  pub dumps : Json → String
  -- `sha256(text.encode("utf-8")).hexdigest()`
  pub sha256_hex : String → String
  -- `_iso` of a time, in microseconds since the epoch, and `str` of a number
  pub isoformat : ℕ → String
  pub decimal : ℕ → String
