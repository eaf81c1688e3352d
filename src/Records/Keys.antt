-- ===== src/Records/Keys.antt =====
-- ues/operation_records.py: SENSITIVE_KEY_RE, a search for one of eleven words in a key.
use Prim.Native.Char.{code}
use Prim.Native.String.{String, [], ◌∷◌}
use mathlib.Core.List.{List, ◌∷◌ as cons}
use mathlib.Core.List as L
use universal_execution_syst.Prelude.{
  ℕ, ◌+◌, ◌≡◌, refl, arith, Bool, true, false, ◌&&◌, ◌||◌, leb, nat_eq, if◌then◌else◌, one_of, ◌==◌,
  eq_iff, Bool-cases, inl, inr,
}

-- re.IGNORECASE on these words' letters: ASCII capitals, the Kelvin sign, the long s and the
-- dotted and dotless i.
unfoldable pub fold_case : ℕ → ℕ
fold_case n =
    if leb b'A' n && leb n b'Z'
    then n + 32
    else if nat_eq n 0x212a
    then b'k'
    else if nat_eq n 0x17f
    then b's'
    else if nat_eq n 0x130 || nat_eq n 0x131
    then b'i'
    else n

abbrev pub folded : String → List ℕ
folded [] = List.[]
folded (c ∷ s) = List.◌∷◌ (fold_case (code c)) (folded s)

-- `pattern` stands at the front of `s`.
starts : String → List ℕ → Bool
starts [] s = true
starts (c ∷ p) List.[] = false
starts (c ∷ p) (List.◌∷◌ d s) = nat_eq (code c) d && starts p s

-- One of the words stands at the front of `s`.
starts_any : List String → List ℕ → Bool
unfolding starts
starts_any List.[] s = false
starts_any (List.◌∷◌ w ws) s = starts w s || starts_any ws s

-- The alternatives; `[_-]?` is written out.
abbrev words : List String
words = cons "authorization" (
    cons "cookie" (
      cons "password" (
        cons "passwd" (
          cons "secret" (
            cons "token" (
              cons "apikey" (
                cons "api_key" (
                  cons "api-key" (
                    cons "privatekey"
                      (cons "private_key" (cons "private-key" (cons "credential" List.[]))))))))))))

word_starts : List ℕ → Bool
unfolding starts_any
word_starts s = starts_any words s

contains_word : List ℕ → Bool
unfolding word_starts
contains_word List.[] = false
contains_word (List.◌∷◌ d s) = word_starts (List.◌∷◌ d s) || contains_word s

-- `SENSITIVE_KEY_RE.search(key)`
unfoldable pub is_sensitive_key : String → Bool
unfolding contains_word fold_case
is_sensitive_key key = contains_word (folded key)

-- The words of the pattern, `api[_-]?key` and `private[_-]?key` written out.
pub data SensitiveWord : String → Type 0 where
  authorization : SensitiveWord "authorization"
  cookie : SensitiveWord "cookie"
  password : SensitiveWord "password"
  passwd : SensitiveWord "passwd"
  secret : SensitiveWord "secret"
  token : SensitiveWord "token"
  apikey : SensitiveWord "apikey"
  api_key : SensitiveWord "api_key"
  api_dash_key : SensitiveWord "api-key"
  privatekey : SensitiveWord "privatekey"
  private_key : SensitiveWord "private_key"
  private_dash_key : SensitiveWord "private-key"
  credential : SensitiveWord "credential"

-- The code points of a text, before those of the rest.
abbrev pub codes_before : String → List ℕ → List ℕ
codes_before [] rest = rest
codes_before (c ∷ s) rest = List.◌∷◌ (code c) (codes_before s rest)

-- A word of the pattern stands somewhere in the key, up to case.
pub HasWord : String → Type 0
HasWord key =
    (word : String) × SensitiveWord word
    × (before : List ℕ) × (after : List ℕ) × (folded key ≡ L.◌++◌ before (codes_before word after))

starts-codes_before :
    (word : String) (after : List ℕ) → starts word (codes_before word after) ≡ true
unfolding starts
starts-codes_before [] after = refl
starts-codes_before (c ∷ word) after = ground (arith, starts-codes_before word after)

or_right : (a : Bool) {b : Bool} → b ≡ true → a || b ≡ true
or_right true h = refl
or_right false h = h

starts_any-word :
    (word : String) (ws : List String) (s : List ℕ)
    → one_of word ws ≡ true
    → starts word s ≡ true
    → starts_any ws s ≡ true
unfolding starts_any
starts_any-word word List.[] s h e = cc
starts_any-word word (List.◌∷◌ w ws) s h e = elim (Bool-cases (word == w)) [
  | inl same ↦ rw (← (eq_iff word w).0 same, e) refl
  | inr other ↦ or_right (starts w s) (starts_any-word word ws s (rw other at h) e)
]

SensitiveWord-one_of : {word : String} → SensitiveWord word → one_of word words ≡ true
SensitiveWord-one_of authorization = refl
SensitiveWord-one_of cookie = refl
SensitiveWord-one_of password = refl
SensitiveWord-one_of passwd = refl
SensitiveWord-one_of secret = refl
SensitiveWord-one_of token = refl
SensitiveWord-one_of apikey = refl
SensitiveWord-one_of api_key = refl
SensitiveWord-one_of api_dash_key = refl
SensitiveWord-one_of privatekey = refl
SensitiveWord-one_of private_key = refl
SensitiveWord-one_of private_dash_key = refl
SensitiveWord-one_of credential = refl

word_starts-empty : word_starts List.[] ≡ true → ⊥
unfolding word_starts starts_any starts
word_starts-empty h = cc

contains_word-append :
    (before s : List ℕ) → word_starts s ≡ true → contains_word (L.◌++◌ before s) ≡ true
unfolding contains_word
contains_word-append List.[] List.[] h = absurd (word_starts-empty h)
contains_word-append List.[] (List.◌∷◌ d s) h = rw h refl
contains_word-append (List.◌∷◌ d before) s h =
    or_right (word_starts (List.◌∷◌ d (L.◌++◌ before s))) (contains_word-append before s h)

-- A key with such a word is sensitive.
pub is_sensitive_key-HasWord : (key : String) → HasWord key → is_sensitive_key key ≡ true
unfolding is_sensitive_key HasWord word_starts
is_sensitive_key-HasWord key (word, kind, before, after, e) =
    let front =
      starts_any-word word words (codes_before word after) (SensitiveWord-one_of kind)
        (starts-codes_before word after) in
    rw e (contains_word-append before (codes_before word after) front)
