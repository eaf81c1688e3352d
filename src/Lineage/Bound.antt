-- ===== src/Lineage/Bound.antt =====
-- ues/lineage_registry.py: which session `match_lineage_session` binds.
use universal_execution_syst.Prelude.{
  String, Bool, true, false, ◌≡◌, refl, sym, ap, ◌∙◌, ◌↔◌, ◌≢◌, ◌⊎◌, inl, inr, none, some, List, [],
  ◌∷◌, eq_iff, one_of, arith, Bool-cases, Option-cases, true-false,
}
use universal_execution_syst.Prelude.Lists.{is_empty, select, empty_lem}
use universal_execution_syst.Prelude.Texts.{strip}
use universal_execution_syst.Runtime.{Runtime}
use universal_execution_syst.Identity.{text_of}
use universal_execution_syst.Lineage.{
  Session, LineagePolicy, unbound, proven, is_governed, fingerprints_of, insert_session,
  sort_sessions, first_unless_tied, choose_active, choose, bound, bind_chosen, no_binding,
  is_active, key_before, match_lineage_session, same_key,
}

-- A session of the list.
pub In : Session → List Session → Type 0
In s [] = ⊥
In s (t ∷ ts) = (s ≡ t) ⊎ In s ts

select-In :
    (p : Session → Bool) (s : Session) (ss : List Session)
    → In s (select p ss)
    → In s ss × (p s ≡ true)
unfolding In
select-In p s [] h = absurd h
select-In p s (t ∷ ts) h = elim (Bool-cases (p t)) [
  | inl e ↦ elim (the_in (rw e at h)) [
    | inl same ↦ (inl same, ap p same ∙ e)
    | inr later ↦ let (listed, holds) = select-In p s ts later in (inr listed, holds)
  ]
  | inr e ↦ let (listed, holds) = select-In p s ts (rw e at h) in (inr listed, holds)
]
  where
    the_in : In s (t ∷ select p ts) → (s ≡ t) ⊎ In s (select p ts)
    the_in h = h

select-none :
    (p : Session → Bool) (ss : List Session)
    → (is_empty (select p ss) ≡ true) ↔ ((s : Session) → In s ss → p s ≡ false)
unfolding In
select-none p [] = (λ _ s h. absurd h, λ _. refl)
select-none p (t ∷ ts) = elim (Bool-cases (p t)) [
  | inl e ↦ (λ h. absurd (true-false (rw e at h) refl), λ h. absurd (true-false e (h t (inl refl))))
  | inr e ↦ (
    λ h s listed. either s ((select-none p ts).0 (rw e at h) s) listed e,
    λ h. rw e ((select-none p ts).1 (λ s listed. h s (inr listed))),
  )
]
  where
    either : (s : Session) → (In s ts → p s ≡ false) → (s ≡ t) ⊎ In s ts → p t ≡ false → p s ≡ false
    either s h (inl same) e = ap p same ∙ e
    either s h (inr listed) e = h listed

module _ (rt : Runtime) where
  insert_session-In :
      (s x : Session) (ys : List Session) → In s (insert_session rt x ys) → (s ≡ x) ⊎ In s ys
  unfolding insert_session In
  insert_session-In s x [] h = h
  insert_session-In s x (y ∷ ys) h = elim (Bool-cases (key_before rt x y)) [
    | inl e ↦ later (insert_session-In s x ys) (rw e at h)
    | inr e ↦ rw e at h
  ]
    where
      later :
          (In s (insert_session rt x ys) → (s ≡ x) ⊎ In s ys)
          → (s ≡ y) ⊎ In s (insert_session rt x ys)
          → (s ≡ x) ⊎ ((s ≡ y) ⊎ In s ys)
      later rest (inl same) = inr (inl same)
      later rest (inr h) = elim (rest h) [ inl same ↦ inl same | inr listed ↦ inr (inr listed) ]

  sort_sessions-In : (s : Session) (xs : List Session) → In s (sort_sessions rt xs) → In s xs
  unfolding sort_sessions In
  sort_sessions-In s [] h = h
  sort_sessions-In s (x ∷ xs) h = elim (insert_session-In s x (sort_sessions rt xs) h) [
    | inl same ↦ inl same
    | inr listed ↦ inr (sort_sessions-In s xs listed)
  ]

  first_unless_tied-In :
      (s : Session) (xs : List Session) → first_unless_tied rt xs ≡ some s → In s xs
  unfolding first_unless_tied In
  first_unless_tied-In s [] h = cc
  first_unless_tied-In s (x ∷ []) h = inl cc
  first_unless_tied-In s (x ∷ y ∷ xs) h = elim (Bool-cases (same_key rt y x)) [
    | inl e ↦ absurd (none_some (rw e at h))
    | inr e ↦ inl (sym (some_injective (rw e at h)))
  ]
    where
      none_some : {t : Session} → none ≡ some t → ⊥
      none_some h = cc

      some_injective : {t u : Session} → some t ≡ some u → t ≡ u
      some_injective h = cc

  choose_active-In :
      (s : Session) (xs actives : List Session)
      → ((t : Session) → In t actives → In t xs)
      → choose_active rt xs actives ≡ some s
      → In s xs
  unfolding choose_active In
  choose_active-In s xs [] among h =
      sort_sessions-In s xs (first_unless_tied-In s (sort_sessions rt xs) h)
  choose_active-In s xs (a ∷ []) among h = among s (inl cc)
  choose_active-In s xs (a ∷ b ∷ rest) among h =
      sort_sessions-In s xs (first_unless_tied-In s (sort_sessions rt xs) h)

  choose-In : (s : Session) (xs : List Session) → choose rt xs ≡ some s → In s xs
  unfolding choose In
  choose-In s [] h = choose_active-In s [] [] (λ t listed. listed) h
  choose-In s (x ∷ []) h = inl cc
  choose-In s (x ∷ y ∷ xs) h =
      choose_active-In s (x ∷ y ∷ xs) (select (is_active rt "") (x ∷ y ∷ xs))
        (λ t listed. (select-In (is_active rt "") t (x ∷ y ∷ xs) listed).0) h

  bind_chosen-bound :
      (policy : LineagePolicy) (xs : List Session)
      → ((bind_chosen rt policy xs (choose rt xs)).status ≢ unbound)
        × ((bind_chosen rt policy xs (choose rt xs)).status ≡ proven
            → (s : Session) × ((bind_chosen rt policy xs (choose rt xs)).session ≡ some s)
              × In s xs)
  unfolding bind_chosen bound no_binding
  bind_chosen-bound policy xs = elim (Option-cases (choose rt xs)) [
    | inl e ↦ rw e (λ h. cc, λ h. cc)
    | inr (s, e) ↦ (rw e (λ h. cc), λ h. (s, rw e refl, choose-In s xs e))
  ]

  module _ (casefold : String → String) (sessions : List Session) (policy : LineagePolicy)
      (repository : String) where
    -- The session is one of those given, in the expected repository, and its fingerprint is the policy's.
    pub record IsGoverned (s : Session) : Type 0 where
      pub listed : In s sessions
      pub repository_matches :
          casefold (strip (text_of s.source_repository)) ≡ casefold (strip repository)
      pub fingerprint_known :
          one_of (rt.lower (strip (text_of s.session_fingerprint))) (fingerprints_of rt policy)
          ≡ true

    is_governed-IsGoverned :
        (s : Session)
        → In s sessions
        → is_governed rt casefold (fingerprints_of rt policy) repository s ≡ true
        → IsGoverned s
    unfolding is_governed
    is_governed-IsGoverned s listed governed = record {
      listed = listed;
      repository_matches =
          (eq_iff (casefold (strip (text_of s.source_repository))) (casefold (strip repository))).0
            (ground arith);
      fingerprint_known = ground arith;
    }

    is_governed-none :
        (s : Session)
        → is_empty (fingerprints_of rt policy) ≡ true
        → is_governed rt casefold (fingerprints_of rt policy) repository s ≡ false
    unfolding is_governed
    is_governed-none s e = rw (empty_lem (fingerprints_of rt policy) e) (ground arith)

    -- `match_lineage_session` leaves a lineage unbound exactly when none of the sessions is in the expected
    -- repository with a fingerprint that the policy knows; where it proves a binding, it names a session,
    -- which is one of those given, in that repository, and with such a fingerprint.
    pub match-IsGoverned :
        ((match_lineage_session rt casefold sessions policy repository).status ≡ unbound ↔ (
          (s : Session)
          → In s sessions
          → is_governed rt casefold (fingerprints_of rt policy) repository s ≡ false))
        × ((match_lineage_session rt casefold sessions policy repository).status ≡ proven
            → (s : Session) × ((match_lineage_session rt casefold sessions policy
                  repository).session
                ≡ some s)
              × IsGoverned s)
    unfolding match_lineage_session no_binding
    match-IsGoverned =
        let known = fingerprints_of rt policy in
        let governed = is_governed rt casefold known repository in
        let candidates = select governed sessions in
        elim (Bool-cases (is_empty known)) [
          | inl e ↦ (
            (λ h s listed. is_governed-none s e, λ h. rw e refl),
            λ h. absurd (unbound_proven (rw e at h)),
          )
          | inr e ↦ elim (Bool-cases (is_empty candidates)) [
            | inl c ↦ (
              (λ h. (select-none governed sessions).0 c, λ h. rw (e, c) refl),
              λ h. absurd (unbound_proven (rw (e, c) at h)),
            )
            | inr c ↦
                let (some_binding, found) = bind_chosen-bound policy candidates in
                (
                  (
                    λ h. absurd (some_binding (rw (e, c) at h)),
                    λ h. absurd (true-false ((select-none governed sessions).1 h) c),
                  ),
                  λ h.
                      let (s, named, chosen) = found (rw (e, c) at h) in
                      let (listed, holds) = select-In governed s sessions chosen in
                      (s, rw (e, c) named, is_governed-IsGoverned s listed holds),
                )
          ]
        ]
      where
        unbound_proven : unbound ≡ proven → ⊥
        unbound_proven h = cc
