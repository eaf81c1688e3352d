-- ===== src/Transaction/Sets.antt =====
-- ues/transaction.py: what it does with Python sets of texts, as lists.
use universal_execution_syst.Prelude.{
  String, true, false, not, ◌≡◌, refl, ◌∙◌, ap, ◌||◌, arith, List, [], ◌∷◌, if◌then◌else◌, ◌==◌,
  one_of, Bool-cases, inl, inr, eq_iff,
}
use universal_execution_syst.Prelude.Lists.{all, select, is_empty}
use universal_execution_syst.Idempotency.Effect.{text_le}

-- `sorted(set(xs))`
unfoldable pub insert_text : String → List String → List String
insert_text x [] = x ∷ []
insert_text x (y ∷ ys) =
    let rest = insert_text x ys in
    if x == y then y ∷ ys else if text_le x y then x ∷ y ∷ ys else y ∷ rest

unfoldable pub sorted_set : List String → List String
unfolding insert_text
sorted_set [] = []
sorted_set (x ∷ xs) = insert_text x (sorted_set xs)

-- `requested - authorized`
abbrev pub without : List String → List String → List String
without authorized requested = select (λ r. not (one_of r authorized)) requested

-- `requested & set(authorized)`
abbrev pub shared : List String → List String → List String
shared requested others = select (λ r. one_of r others) requested

insert_text-filled : (x : String) (ys : List String) → is_empty (insert_text x ys) ≡ false
unfolding insert_text
insert_text-filled x [] = refl
insert_text-filled x (y ∷ ys) = ground arith

pub sorted_set-empty : (xs : List String) → is_empty (sorted_set xs) ≡ is_empty xs
unfolding sorted_set
sorted_set-empty [] = refl
sorted_set-empty (x ∷ xs) = insert_text-filled x (sorted_set xs)

pub without-empty :
    (authorized requested : List String)
    → is_empty (without authorized requested) ≡ all (λ r. one_of r authorized) requested
without-empty authorized [] = refl
without-empty authorized (r ∷ rs) = ground (arith, without-empty authorized rs)

-- No shared text is left when none of the requested ones is among the others.
pub shared-empty :
    (requested others : List String)
    → is_empty (shared requested others) ≡ true
    → (r : String) → one_of r requested ≡ true
    → one_of r others ≡ false
shared-empty [] others h r listed = cc
shared-empty (q ∷ qs) others h r listed = elim (Bool-cases (one_of q others)) [
  | inl e ↦ cc (rw e at h)
  | inr e ↦ elim (Bool-cases (r == q)) [
    | inl same ↦ rw ((eq_iff r q).0 same) e
    | inr other ↦ shared-empty qs others (rw e at h) r (rw other at listed)
  ]
]

one_of-insert_text :
    (r x : String) (ys : List String) → one_of r (insert_text x ys) ≡ one_of r (x ∷ ys)
unfolding insert_text
one_of-insert_text r x [] = refl
one_of-insert_text r x (y ∷ ys) =
    ground (arith, eq_iff x y, eq_iff r x, eq_iff r y, one_of-insert_text r x ys)

-- The set has the elements of the list.
pub one_of-sorted_set : (r : String) (xs : List String) → one_of r (sorted_set xs) ≡ one_of r xs
unfolding sorted_set
one_of-sorted_set r [] = refl
one_of-sorted_set r (x ∷ xs) =
    one_of-insert_text r x (sorted_set xs) ∙ ap (λ b. r == x || b) (one_of-sorted_set r xs)
