-- ===== src/Records/Patterns.antt =====
-- ues/operation_records.py: SENSITIVE_VALUE_PATTERNS and `_sanitize_string`. A pattern is the function
-- from the text at a position to the length of the match there, 0 where there is none; no pattern
-- matches the empty text.
use Prim.Native.Char.{Char, code}
use Prim.Native.String.{String, [], ◌∷◌, ◌++◌}
use universal_execution_syst.Prelude.{
  ℕ, zero, suc, ◌+◌, Bool, true, false, not, ◌&&◌, ◌||◌, Option, none, some, leb, nat_eq,
  if◌then◌else◌,
}
use universal_execution_syst.Prelude.Texts.{is_space}
use universal_execution_syst.Runtime.{Runtime}
use universal_execution_syst.Records.Keys.{fold_case}

-- What follows a prefix that stands at the front of the text, letters compared after `fold`.
unfoldable pub after_prefix : (ℕ → ℕ) → String → String → Option String
after_prefix fold [] s = some s
after_prefix fold (p ∷ ps) [] = none
after_prefix fold (p ∷ ps) (c ∷ s) =
    let rest = after_prefix fold ps s in if nat_eq (fold (code c)) (code p) then rest else none

-- The longest run of characters of a class at the front: its length, and what follows.
unfoldable pub run : (Char → Bool) → String → ℕ × String
run p [] = (0, [])
run p (c ∷ s) = let (n, rest) = run p s in if p c then (n + 1, rest) else (0, c ∷ s)

-- `[A-Za-z0-9]` of a code point.
abbrev is_ascii_alnum : ℕ → Bool
is_ascii_alnum n =
    (leb b'0' n && leb n b'9') || (leb b'A' n && leb n b'Z') || (leb b'a' n && leb n b'z')

-- `[A-Za-z0-9._~+/=-]` under re.IGNORECASE
unfoldable pub is_bearer_char : Char → Bool
unfolding fold_case
is_bearer_char c =
    let n = fold_case (code c) in
    is_ascii_alnum n
    || nat_eq n b'.'
    || nat_eq n b'_'
    || nat_eq n b'~'
    || nat_eq n b'+'
    || nat_eq n b'/'
    || nat_eq n b'='
    || nat_eq n b'-'

-- `[A-Za-z0-9_]`
unfoldable pub is_token_char : Char → Bool
is_token_char c = is_ascii_alnum (code c) || nat_eq (code c) b'_'

-- `[pousr]`
abbrev is_token_kind : Char → Bool
is_token_kind c =
    nat_eq (code c) b'p'
    || nat_eq (code c) b'o'
    || nat_eq (code c) b'u'
    || nat_eq (code c) b's'
    || nat_eq (code c) b'r'

module _ (rt : Runtime) where
  -- `\w`
  unfoldable pub is_word : Char → Bool
  is_word c = rt.isalnum c || nat_eq (code c) b'_'

  -- `\b` after a character of a word: the text is at its end, or goes on with no such character.
  unfoldable pub at_word_end : String → Bool
  unfolding is_word
  at_word_end [] = true
  at_word_end (c ∷ s) = not (is_word c)

  -- `\s+[A-Za-z0-9._~+/=-]+` after "Bearer": the length of the match, 0 where there is none.
  unfoldable pub bearer_tail : Option String → ℕ
  unfolding run is_space is_bearer_char
  bearer_tail none = 0
  bearer_tail (some s) =
      let (spaces, rest) = run is_space s in
      let (length, after) = run is_bearer_char rest in
      if nat_eq spaces 0 || nat_eq length 0 then 0 else 6 + spaces + length

  -- `\bBearer\s+[A-Za-z0-9._~+/=-]+`; `before` says whether a character of a word comes before.
  unfoldable pub bearer : Bool → String → ℕ
  unfolding after_prefix fold_case bearer_tail
  bearer before s = if before then 0 else bearer_tail (after_prefix fold_case "bearer" s)

  -- `[A-Za-z0-9_]{20,}\b` after a prefix of the given length.
  unfoldable pub token_tail : ℕ → Option String → ℕ
  unfolding run is_token_char at_word_end
  token_tail prefix none = 0
  token_tail prefix (some s) =
      let (length, after) = run is_token_char s in
      if leb 20 length && at_word_end after then prefix + length else 0

  -- `[pousr]_` after "gh".
  unfoldable pub after_kind : Option String → Option String
  unfolding after_prefix
  after_kind none = none
  after_kind (some []) = none
  after_kind (some (c ∷ s)) =
      let rest = after_prefix (λ n. n) "_" s in if is_token_kind c then rest else none

  -- `\bgh[pousr]_[A-Za-z0-9_]{20,}\b`
  unfoldable pub github_token : Bool → String → ℕ
  unfolding after_prefix after_kind token_tail
  github_token before s =
      if before then 0 else token_tail 4 (after_kind (after_prefix (λ n. n) "gh" s))

  -- `\bgithub_pat_[A-Za-z0-9_]{20,}\b`
  unfoldable pub github_pat : Bool → String → ℕ
  unfolding after_prefix token_tail
  github_pat before s = if before then 0 else token_tail 11 (after_prefix (λ n. n) "github_pat_" s)

  -- `pattern.sub("[REDACTED]", text)` from a position on: whether a character of a word comes before it,
  -- and how many characters of a match are still to be left out.
  unfoldable pub substitute : (Bool → String → ℕ) → Bool → ℕ → String → String
  unfolding is_word
  substitute pattern before skip [] = []
  substitute pattern before (suc skip) (c ∷ s) = substitute pattern (is_word c) skip s
  substitute pattern before zero (c ∷ s) = elim (pattern before (c ∷ s)) [
    | zero ↦ c ∷ substitute pattern (is_word c) zero s
    | suc n ↦ "[REDACTED]" ++ substitute pattern (is_word c) n s
  ]

  unfoldable pub sanitize_string : String → String
  unfolding substitute bearer github_token github_pat
  sanitize_string value =
      let without_bearer = substitute bearer false zero value in
      let without_tokens = substitute github_token false zero without_bearer in
      substitute github_pat false zero without_tokens
