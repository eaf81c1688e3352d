-- ===== src/Transaction/Segments.antt =====
-- ues/transaction.py: the segments of a path that `_normalize_path` returns.
use Prim.Native.String.{[] as empty, ◌∷◌ as cons}
use Prim.Native.Char.{Char, code}
use universal_execution_syst.Prelude.{
  ℕ, String, Bool, true, false, ◌≡◌, refl, subst, ap, ◌∙◌, ◌⊎◌, inl, inr, arith, List, [], ◌∷◌,
  ◌==◌, eq_iff, Bool-cases, ◌||◌, ◌&&◌, not, one_of, nat_eq,
}
use universal_execution_syst.Prelude.Lists.{all, select, is_empty}
use universal_execution_syst.Prelude.Texts.{strip}
use universal_execution_syst.Prelude.Splits.{
  split, join, replace, is_free, split-is_free, split-append, extend_first,
}
use universal_execution_syst.Prelude.Results.{ok}
use universal_execution_syst.Transaction.Paths.{
  slash, backslash, is_absolute, is_part, parts_of, normalize_raw, normalize_path,
}

split-free : (n : ℕ) (s : String) → all (is_free n) (split n s) ≡ true
unfolding split
split-free n empty = refl
split-free n (cons c s) = elim (Bool-cases (nat_eq (code c) n)) [
  | inl e ↦ rw e (split-free n s)
  | inr e ↦ rw e (extend_first-free n c (split n s) e (split-free n s))
]
  where
    extend_first-free :
        (n : ℕ) (c : Char) (ps : List String)
        → nat_eq (code c) n ≡ false
        → all (is_free n) ps ≡ true
        → all (is_free n) (extend_first c ps) ≡ true
    extend_first-free n c [] e h = rw e refl
    extend_first-free n c (p ∷ ps) e h = rw e h

-- The parts that are joined are those that the split finds.
split-join :
    (ps : List String)
    → all (is_free slash) ps ≡ true
    → is_empty ps ≡ false
    → split slash (join "/" ps) ≡ ps
unfolding join
split-join [] free filled = cc
split-join (p ∷ []) free filled = split-is_free slash p (ground arith)
split-join (p ∷ q ∷ ps) free filled =
    split-append slash p "/" (join "/" (q ∷ ps)) (ground arith) refl
    ∙ ap (λ l. p ∷ l) (split-join (q ∷ ps) (ground arith) refl)

all-select : (f p : String → Bool) (xs : List String) → all f xs ≡ true → all f (select p xs) ≡ true
all-select f p [] h = refl
all-select f p (x ∷ xs) h = ground (arith, all-select f p xs)

-- A segment that names an entry of its directory: not empty, no dot and no pair of dots.
abbrev pub is_entry : String → Bool
is_entry s = is_part s && not (s == "..")

selected-entries :
    (xs : List String)
    → one_of ".." (select is_part xs) ≡ false
    → all is_entry (select is_part xs) ≡ true
selected-entries [] h = refl
selected-entries (x ∷ xs) h = elim (Bool-cases (is_part x)) [
  | inl e ↦ ground (arith, eq_iff x "..", eq_iff ".." x, selected-entries xs)
  | inr e ↦ rw e (selected-entries xs (rw e at h))
]

-- A path that names only entries below the root.
abbrev pub IsContained : String → Type 0
IsContained p = (p ≡ ".") ⊎ (all is_entry (split slash p) ≡ true)

normalize_raw-IsContained : (raw p : String) → normalize_raw raw ≡ ok p → IsContained p
unfolding normalize_raw
normalize_raw-IsContained raw p returned = elim (Bool-cases (raw == "")) [
  | inl e ↦ cc (rw e at returned)
  | inr e ↦ elim (Bool-cases (is_absolute raw || one_of ".." (parts_of raw))) [
    | inl f ↦ cc (rw (e, f) at returned)
    | inr f ↦ elim (Bool-cases (is_empty (parts_of raw))) [
      | inl g ↦ inl (ground arith)
      | inr g ↦ inr (
          subst (λ v. all is_entry (split slash v) ≡ true) (to_result e f g)
            (rejoined g (ground arith)))
    ]
  ]
]
  where
    to_result :
        (raw == "") ≡ false
        → (is_absolute raw || one_of ".." (parts_of raw)) ≡ false
        → is_empty (parts_of raw) ≡ false
        → join "/" (parts_of raw) ≡ p
    to_result e f g = ground arith

    rejoined :
        is_empty (parts_of raw) ≡ false
        → one_of ".." (parts_of raw) ≡ false
        → all is_entry (split slash (join "/" (parts_of raw))) ≡ true
    rejoined g h =
        rw
          (split-join (parts_of raw)
            (all-select (is_free slash) is_part (split slash raw) (split-free slash raw)) g)
          (selected-entries (split slash raw) h)

-- A path that `_normalize_path` returns is the single dot, or its segments are not empty, no dot and no
-- pair of dots, so that it starts with no slash and leaves no directory.
pub normalize_path-IsContained : (value p : String) → normalize_path value ≡ ok p → IsContained p
unfolding normalize_path
normalize_path-IsContained value p returned =
    normalize_raw-IsContained (strip (replace backslash "/" value)) p returned
