-- ===== src/Transaction/Paths.antt =====
-- ues/transaction.py: `_normalize_path`, with what it uses of PurePosixPath, and the glob patterns of
-- `_matches`.
use Prim.Native.String.{[] as empty, ◌∷◌ as cons}
use Prim.Native.Char.{code}
use universal_execution_syst.Prelude.{
  ℕ, String, Bool, true, false, not, ◌&&◌, ◌||◌, List, [], ◌∷◌, if◌then◌else◌, ◌==◌, one_of, nat_eq,
}
use universal_execution_syst.Prelude.Lists.{select, is_empty}
use universal_execution_syst.Prelude.Texts.{strip}
use universal_execution_syst.Prelude.Splits.{split, join, replace}
use universal_execution_syst.Prelude.Results.{Result, ok, raise, value_error, ◌>>=◌}
use universal_execution_syst.Transaction.{Host}

abbrev pub slash : ℕ
slash = b'/'

abbrev pub backslash : ℕ
backslash = 92

-- `PurePosixPath(raw).is_absolute()`
abbrev pub is_absolute : String → Bool
is_absolute empty = false
is_absolute (cons c s) = nat_eq (code c) slash

abbrev pub is_part : String → Bool
is_part part = not (part == "") && not (part == ".")

-- The parts of a relative PurePosixPath: neither empty ones nor single dots.
abbrev pub parts_of : String → List String
parts_of raw = select is_part (split slash raw)

-- `as_posix()` of a relative path with these parts
abbrev pub as_posix : List String → String
as_posix parts = if is_empty parts then "." else join "/" parts

unfoldable pub normalize_raw : String → Result String
unfolding split join
normalize_raw raw =
    if raw == ""
    then raise value_error
    else if is_absolute raw || one_of ".." (parts_of raw)
    then raise value_error
    else ok (as_posix (parts_of raw))

unfoldable pub normalize_path : String → Result String
unfolding normalize_raw strip replace
normalize_path value = normalize_raw (strip (replace backslash "/" value))

module _ (host : Host) where
  -- `match` of `_matches`: the patterns of the segments against the segments.
  unfoldable pub glob : List String → List String → Bool
  glob [] [] = true
  glob [] (s ∷ ss) = false
  glob (t ∷ ts) [] = let rest = glob ts [] in t == "**" && rest
  glob (t ∷ ts) (s ∷ ss) =
      let skip = glob ts (s ∷ ss) in
      let take = glob (t ∷ ts) ss in
      let rest = glob ts ss in if t == "**" then skip || take else host.fnmatchcase s t && rest

  unfoldable pub matches_path : String → String → Result Bool
  unfolding normalize_path glob split
  matches_path pattern path = do
    p ← normalize_path pattern
    q ← normalize_path path
    ok (glob (split slash p) (split slash q))

  -- `any(_matches(pattern, path) for pattern in patterns)`
  unfoldable pub any_matches : List String → String → Result Bool
  unfolding matches_path
  any_matches [] path = ok false
  any_matches (pattern ∷ patterns) path =
      let rest = any_matches patterns path in
      matches_path pattern path >>= λ hit. if hit then ok true else rest
