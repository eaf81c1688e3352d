-- ===== src/Transaction/Covers.antt =====
-- ues/transaction.py: what the patterns of `_matches` mean. Two stars stand for any number of segments,
-- every other token for one segment that it matches.
use universal_execution_syst.Prelude.{
  String, Bool, true, false, ◌≡◌, refl, sym, subst, ◌↔◌, ◌⊎◌, inl, inr, arith, List, [], ◌∷◌, ◌++◌,
  ◌==◌, eq_iff, eq_refl, Bool-cases, one_of,
}
use universal_execution_syst.Prelude.Splits.{split}
use universal_execution_syst.Prelude.Results.{ok, >>=-eq-ok}
use universal_execution_syst.Transaction.{Host}
use universal_execution_syst.Transaction.Paths.{
  slash, normalize_path, glob, matches_path, any_matches,
}

module _ (host : Host) where
  -- The tokens of a pattern cover the segments of a path.
  pub data Covers : List String → List String → Type 0 where
    finished : Covers [] []
    stars :
        (t : String) (ts before after : List String)
        → (t == "**") ≡ true
        → Covers ts after
        → Covers (t ∷ ts) (before ++ after)
    one :
        (t s : String) (ts ss : List String)
        → (t == "**") ≡ false
        → host.fnmatchcase s t ≡ true
        → Covers ts ss
        → Covers (t ∷ ts) (s ∷ ss)

  glob-stars :
      (t : String) (ts before after : List String)
      → (t == "**") ≡ true
      → glob host ts after ≡ true
      → glob host (t ∷ ts) (before ++ after) ≡ true
  unfolding glob
  glob-stars t ts [] [] e h = rw e h
  glob-stars t ts [] (s ∷ ss) e h = rw (e, h) refl
  glob-stars t ts (b ∷ bs) after e h = ground (arith, glob-stars t ts bs after e h)

  glob-of_Covers : {ts ss : List String} → Covers ts ss → glob host ts ss ≡ true
  unfolding glob
  glob-of_Covers finished = refl
  glob-of_Covers (stars t ts before after e c) = glob-stars t ts before after e (glob-of_Covers c)
  glob-of_Covers (one t s ts ss other hit c) = rw (other, hit) (glob-of_Covers c)

  -- Stars that cover some segments cover one more in front of them.
  widen :
      (t s : String) {ts ss us : List String}
      → (t == "**") ≡ true
      → Covers us ss
      → us ≡ t ∷ ts
      → Covers us (s ∷ ss)
  widen t s e finished same = cc
  widen t s e (stars r ts before after f c) same = stars r ts (s ∷ before) after f c
  widen t s e (one r q ts ss other hit c) same = ground arith

  Covers-of_glob : (ts ss : List String) → glob host ts ss ≡ true → Covers ts ss
  unfolding glob
  Covers-of_glob [] [] h = finished
  Covers-of_glob [] (s ∷ ss) h = cc
  Covers-of_glob (t ∷ ts) [] h = elim (Bool-cases (t == "**")) [
    | inl e ↦ stars t ts [] [] e (Covers-of_glob ts [] (ground arith))
    | inr e ↦ ground arith
  ]
  Covers-of_glob (t ∷ ts) (s ∷ ss) h = elim (Bool-cases (t == "**")) [
    | inl e ↦ elim (Bool-cases (glob host ts (s ∷ ss))) [
      | inl skip ↦ stars t ts [] (s ∷ ss) e (Covers-of_glob ts (s ∷ ss) skip)
      | inr miss ↦ widen t s e (Covers-of_glob (t ∷ ts) ss (ground arith)) refl
    ]
    | inr e ↦ one t s ts ss e (ground arith) (Covers-of_glob ts ss (ground arith))
  ]

  -- `match` of `_matches` succeeds exactly on the paths that the pattern covers.
  pub glob_iff : (ts ss : List String) → (glob host ts ss ≡ true) ↔ Covers ts ss
  glob_iff ts ss = (Covers-of_glob ts ss, glob-of_Covers)

  -- Pattern and path are well formed, and the one covers the other.
  abbrev pub IsCovered : String → String → Type 0
  IsCovered pattern path =
      (p : String) × (q : String) × (normalize_path pattern ≡ ok p)
      × (normalize_path path ≡ ok q)
      × Covers (split slash p) (split slash q)

  matches-ok :
      (pattern path : String) (b : Bool)
      → matches_path host pattern path ≡ ok b
      → (p : String) × (q : String) × (normalize_path pattern ≡ ok p)
        × (normalize_path path ≡ ok q)
        × (glob host (split slash p) (split slash q) ≡ b)
  unfolding matches_path
  matches-ok pattern path b returned =
      let (p, hp, rest) = >>=-eq-ok (normalize_path pattern) _ returned in
      let (q, hq, last) = >>=-eq-ok (normalize_path path) _ rest in (p, q, hp, hq, cc)

  matches_true :
      (pattern path : String) → matches_path host pattern path ≡ ok true → IsCovered pattern path
  matches_true pattern path h =
      let (p, q, hp, hq, e) = matches-ok pattern path true h in
      (p, q, hp, hq, Covers-of_glob (split slash p) (split slash q) e)

  matches_false :
      (pattern path : String) → matches_path host pattern path ≡ ok false → ¬ IsCovered pattern path
  matches_false pattern path h (p', q', hp', hq', c) =
      let (p, q, hp, hq, e) = matches-ok pattern path false h in
      let same : glob host (split slash p') (split slash q') ≡ false = cc in cc (glob-of_Covers c)

  any_matches-cons :
      (pattern : String) (patterns : List String) (path : String) (b : Bool)
      → any_matches host (pattern ∷ patterns) path ≡ ok b
      → ((matches_path host pattern path ≡ ok true) × (b ≡ true))
        ⊎ ((matches_path host pattern path ≡ ok false) × (any_matches host patterns path ≡ ok b))
  unfolding any_matches
  any_matches-cons pattern patterns path b returned =
      let (hit, found, rest) = >>=-eq-ok (matches_path host pattern path) _ returned in
      elim (Bool-cases hit) [ inl e ↦ inl (ground arith) | inr e ↦ inr (ground arith) ]

  -- One of the patterns covers the path.
  pub IsCovered-by_one :
      (patterns : List String) (path : String)
      → any_matches host patterns path ≡ ok true
      → (pattern : String) × (one_of pattern patterns ≡ true) × IsCovered pattern path
  unfolding any_matches
  IsCovered-by_one [] path h = cc
  IsCovered-by_one (t ∷ ts) path h = elim (any_matches-cons t ts path true h) [
    | inl (hit, e) ↦ (t, ground (arith, eq_refl t), matches_true t path hit)
    | inr (miss, rest) ↦
        let (pattern, listed, c) = IsCovered-by_one ts path rest in (pattern, ground arith, c)
  ]

  -- None of the patterns covers the path.
  pub IsCovered-by_none :
      (patterns : List String) (path : String)
      → any_matches host patterns path ≡ ok false
      → (pattern : String) → one_of pattern patterns ≡ true
      → ¬ IsCovered pattern path
  unfolding any_matches
  IsCovered-by_none [] path h pattern listed = cc
  IsCovered-by_none (t ∷ ts) path h pattern listed = elim (any_matches-cons t ts path false h) [
    | inl (hit, e) ↦ cc
    | inr (miss, rest) ↦ elim (Bool-cases (pattern == t)) [
      | inl e ↦
          subst (λ v. ¬ IsCovered v path) (sym ((eq_iff pattern t).0 e)) (matches_false t path miss)
      | inr e ↦ IsCovered-by_none ts path rest pattern (rw e at listed)
    ]
  ]
