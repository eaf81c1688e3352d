-- ===== src/Prelude/Splits.antt =====
-- Python's `str.split`, `str.join` and `str.replace` for a separator of one character.
use Prim.Native.Char.{Char, code}
use Prim.Native.String.{String, [], ◌∷◌, ◌++◌}
use universal_execution_syst.Prelude.Tests.{nat_eq, if◌then◌else◌}
use Prim.Native.Nat.{ℕ}
use mathlib.Core.Bool.{Bool, true, not, ◌&&◌}
use mathlib.Core.List as L
use mathlib.Core.List.{List}
use mathlib.Core.Path.{◌≡◌, refl}
use native.Mathlib.Omega.{arith}
use text.Mathlib.TextLemmas.{nil-append, cons-append}

-- A character put before the first part.
abbrev pub extend_first : Char → List String → List String
extend_first c L.[] = L.◌∷◌ (c ∷ []) L.[]
extend_first c (L.◌∷◌ p ps) = L.◌∷◌ (c ∷ p) ps

-- `text.split(separator)`, the separator by its code point.
unfoldable pub split : ℕ → String → List String
split n [] = L.◌∷◌ [] L.[]
split n (c ∷ s) =
    let rest = split n s in if nat_eq (code c) n then L.◌∷◌ [] rest else extend_first c rest

-- `separator.join(parts)`
unfoldable pub join : String → List String → String
join sep L.[] = []
join sep (L.◌∷◌ p L.[]) = p
join sep (L.◌∷◌ p (L.◌∷◌ q ps)) = p ++ (sep ++ join sep (L.◌∷◌ q ps))

-- `text.replace(character, replacement)`
unfoldable pub replace : ℕ → String → String → String
replace n with_text [] = []
replace n with_text (c ∷ s) =
    let rest = replace n with_text s in if nat_eq (code c) n then with_text ++ rest else c ∷ rest

-- The text has no separator in it.
abbrev pub is_free : ℕ → String → Bool
is_free n [] = true
is_free n (c ∷ s) = not (nat_eq (code c) n) && is_free n s

pub split-is_free : (n : ℕ) (p : String) → is_free n p ≡ true → split n p ≡ L.◌∷◌ p L.[]
unfolding split
split-is_free n [] free = refl
split-is_free n (c ∷ p) free = ground (arith, split-is_free n p)

split-append_cons :
    (n : ℕ) (p : String) (c : Char) (s : String)
    → is_free n p ≡ true
    → nat_eq (code c) n ≡ true
    → split n (p ++ (c ∷ s)) ≡ L.◌∷◌ p (split n s)
unfolding split
split-append_cons n [] c s free same = rw (nil-append (c ∷ s)) (ground arith)
split-append_cons n (d ∷ p) c s free same =
    rw (cons-append d p (c ∷ s)) (ground (arith, split-append_cons n p c s))

-- A part without the separator, then the separator, then the rest.
pub split-append :
    (n : ℕ) (p : String) (c : Char) (s : String)
    → is_free n p ≡ true
    → nat_eq (code c) n ≡ true
    → split n (p ++ ((c ∷ []) ++ s)) ≡ L.◌∷◌ p (split n s)
split-append n p c s free same =
    rw (cons-append c [] s, nil-append s) (split-append_cons n p c s free same)
