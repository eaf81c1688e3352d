-- ===== src/Prelude/Execs.antt =====
-- Methods that change a store and may raise: what was written before a raise stays written.
use universal_execution_syst.Prelude.Results.{Result, ok, raise}

abbrev pub Exec : Type 0 → Type 0 → Type 0
Exec S A = S → Result A × S

module _ {S A : Type 0} where
  abbrev pub pure : A → Exec S A
  pure a s = (ok a, s)

  -- A read, which changes nothing and may raise.
  abbrev pub gets : (S → Result A) → Exec S A
  gets f s = (f s, s)

  abbrev pub lift : Result A → Exec S A
  lift r s = (r, s)

  -- `try: x = m`, with what was raised as a value.
  abbrev pub attempt : Exec S A → Exec S (Result A)
  attempt m s = (ok (m s).0, (m s).1)

module _ {S A B : Type 0} where
  abbrev pub continue : Result A → (A → Exec S B) → Exec S B
  continue (ok a) f s = f a s
  continue (raise e) f s = (raise e, s)

  infixl 10 ◌>>=◌
  abbrev pub ◌>>=◌ : Exec S A → (A → Exec S B) → Exec S B
  ◌>>=◌ m f s = continue (m s).0 f (m s).1
