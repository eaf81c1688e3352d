-- ===== src/Records/Examples.antt =====
-- Tests and applications of the theorems on ues/operation_records.py.
use Prim.Native.Char.{Char, code}
use universal_execution_syst.Prelude.{Bool, leb, ◌&&◌, ◌||◌, ◌≡◌, refl, true, false}
use universal_execution_syst.Json.{Json, text, object, field, end}
use universal_execution_syst.Runtime.{Runtime}
use universal_execution_syst.Records.Patterns.{sanitize_string}
use universal_execution_syst.Records.Keys.{is_sensitive_key}
use universal_execution_syst.Records.Sanitize.{
  sanitize_receipt, sanitize_receipt-HidesSecrets, HidesSecrets,
}

-- `str.isalnum` on ASCII, which the texts here are.
abbrev is_ascii : Char → Bool
is_ascii c =
    let n = code c in
    (leb b'0' n && leb n b'9') || (leb b'A' n && leb n b'Z') || (leb b'a' n && leb n b'z')

abbrev rt : Runtime
rt = record {
  lower = λ s. s;
  upper = λ s. s;
  isalnum = is_ascii;
  dumps = λ v. "";
  sha256_hex = λ s. s;
  isoformat = λ n. "";
  decimal = λ n. "";
}

bearer_test : sanitize_string rt "with bearer  ab.c_1/= done" ≡ "with [REDACTED] done"
unfolding sanitize_string
bearer_test = refl

token_test :
    sanitize_string rt "(ghp_abcdefghij0123456789) xghp_abcdefghij0123456789 ghp_short"
    ≡ "([REDACTED]) xghp_abcdefghij0123456789 ghp_short"
unfolding sanitize_string
token_test = refl

pat_test : sanitize_string rt "github_pat_abcdefghij_0123456789" ≡ "[REDACTED]"
unfolding sanitize_string
pat_test = refl

keys_test : (is_sensitive_key "GitHub_ToKen" ≡ true) × (is_sensitive_key "state" ≡ false)
unfolding is_sensitive_key
keys_test = (refl, refl)

abbrev receipt : Json
receipt = object (field "api_key" (text "k") (field "note" (text "Bearer x") end))

receipt_test :
    sanitize_receipt rt receipt
    ≡ object (field "api_key" (text "[REDACTED]") (field "note" (text "[REDACTED]") end))
unfolding sanitize_receipt is_sensitive_key sanitize_string
receipt_test = refl

sanitize_receipt-HidesSecrets_example : HidesSecrets (sanitize_receipt rt receipt)
sanitize_receipt-HidesSecrets_example = sanitize_receipt-HidesSecrets rt receipt

abbrev clean : Json
clean = object (field "token" (text "[REDACTED]") (field "note" (text "ok") end))
