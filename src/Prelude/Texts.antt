-- ===== src/Prelude/Texts.antt =====
-- Python's `str.strip` and its emptiness test, over code points.
use Prim.Native.Char.{Char, code}
use Prim.Native.String.{String, [], ◌∷◌}
use universal_execution_syst.Prelude.Tests.{leb, nat_eq, ◌==◌, if◌then◌else◌, Bool-cases}
use mathlib.Core.Bool.{Bool, false, ◌&&◌, ◌||◌}
use mathlib.Core.Path.{◌≡◌, refl, ap}
use mathlib.Core.Logic.{inl, inr}
use native.Mathlib.Omega.{arith}

-- `str.isspace` of one character.
unfoldable pub is_space : Char → Bool
is_space c =
    let n = code c in
    (leb 9 n && leb n 13)
    || (leb 28 n && leb n 32)
    || nat_eq n 0x85
    || nat_eq n 0xa0
    || nat_eq n 0x1680
    || (leb 0x2000 n && leb n 0x200a)
    || nat_eq n 0x2028
    || nat_eq n 0x2029
    || nat_eq n 0x202f
    || nat_eq n 0x205f
    || nat_eq n 0x3000

lstrip : String → String
lstrip [] = []
lstrip (c ∷ s) = if is_space c then lstrip s else c ∷ s

-- The cons of a character that is dropped when it is a trailing space.
push_back : Char → String → String
push_back c [] = if is_space c then [] else c ∷ []
push_back c (d ∷ s) = c ∷ d ∷ s

rstrip : String → String
rstrip [] = []
rstrip (c ∷ s) = push_back c (rstrip s)

unfoldable pub strip : String → String
unfolding lstrip rstrip push_back is_space
strip s = rstrip (lstrip s)

-- `not text` after `strip`.
unfoldable pub is_blank : String → Bool
unfolding strip
is_blank s = strip s == ""

rstrip-push_back : (c : Char) (s : String) → rstrip s ≡ s → rstrip (push_back c s) ≡ push_back c s
unfolding rstrip push_back
rstrip-push_back c [] h = elim (Bool-cases (is_space c)) [ inl e ↦ rw e | inr e ↦ rw e (rw e) ]
rstrip-push_back c (d ∷ s) h = ap (push_back c) h

rstrip-rstrip : (s : String) → rstrip (rstrip s) ≡ rstrip s
unfolding rstrip
rstrip-rstrip [] = refl
rstrip-rstrip (c ∷ s) = rstrip-push_back c (rstrip s) (rstrip-rstrip s)

lstrip-push_back :
    (c : Char) (s : String) → is_space c ≡ false → lstrip (push_back c s) ≡ push_back c s
unfolding lstrip push_back
lstrip-push_back c [] h = ground arith
lstrip-push_back c (d ∷ s) h = ground arith

lstrip-rstrip-lstrip : (s : String) → lstrip (rstrip (lstrip s)) ≡ rstrip (lstrip s)
unfolding lstrip rstrip
lstrip-rstrip-lstrip [] = refl
lstrip-rstrip-lstrip (c ∷ s) = elim (Bool-cases (is_space c)) [
  | inl e ↦ ground (arith, lstrip-rstrip-lstrip s)
  | inr e ↦ ground (arith, lstrip-push_back c (rstrip s))
]

strip_lem : (s : String) → strip s ≡ rstrip (lstrip s)
unfolding strip
strip_lem s = refl

-- A stripped text is a fixed point of `strip`.
pub strip-strip : (s : String) → strip (strip s) ≡ strip s
strip-strip s =
    rw (strip_lem (strip s), strip_lem s, lstrip-rstrip-lstrip s) (rstrip-rstrip (lstrip s))
