-- ===== src/Transaction/Confirm.antt =====
-- ues/transaction.py: what a confirmed write has shown.
use universal_execution_syst.Prelude.{
  String, true, false, ◌≡◌, refl, sym, ◌↔◌, ◌⊎◌, ◌∙◌, arith, Option, none, some, List, one_of,
  eq_iff, same_text, inl, inr, Bool-cases,
}
use universal_execution_syst.Prelude.Lists.{is_empty, all}
use universal_execution_syst.Prelude.Results.{ok}
use universal_execution_syst.Idempotency.Records.{truthy}
use universal_execution_syst.Transaction.{
  TransactionPlan, PostWrite, write_confirmed_expected_post_state,
}
use universal_execution_syst.Transaction.Sets.{sorted_set, without, sorted_set-empty, without-empty}
use universal_execution_syst.Transaction.Plan.{
  normalize_all, Observed, verdict_of, post_write, reconcile_post_write,
}

same_text_eq : (a b : Option String) → (same_text a b ≡ true) ↔ (a ≡ b)
same_text_eq none none = (λ h. refl, λ h. refl)
same_text_eq none (some t) = (λ h. cc, λ h. cc)
same_text_eq (some s) none = (λ h. cc, λ h. cc)
same_text_eq (some s) (some t) = (λ h. ground (arith, eq_iff s t), λ h. ground (arith, eq_iff s t))

-- Every observed path is one of the authorized ones.
abbrev pub AllIn : List String → List String → Type 0
AllIn authorized observed = all (λ path. one_of path authorized) observed ≡ true

-- The head is the expected one, and so is the tree where one is expected.
pub record IsExpected (o : Observed) : Type 0 where
  pub given : truthy o.expected_post_sha ≡ true
  pub head : some o.live_head_sha ≡ o.expected_post_sha
  pub tree :
      (truthy o.expected_post_tree_sha ≡ false) ⊎ (o.live_tree_sha ≡ o.expected_post_tree_sha)

verdict-confirmed :
    (p : TransactionPlan) (o : Observed) (u : List String)
    → verdict_of p o u ≡ write_confirmed_expected_post_state
    → (p.decision ≡ "AUTHORIZED_DRY_RUN") × (is_empty u ≡ true) × IsExpected o
unfolding verdict_of
verdict-confirmed p o u h = (
  ground (arith, eq_iff p.decision "AUTHORIZED_DRY_RUN"),
  ground arith,
  record {
    given = ground arith;
    head = ground (arith, same_text_eq (some o.live_head_sha) o.expected_post_sha);
    tree = elim (Bool-cases (truthy o.expected_post_tree_sha)) [
      | inl e ↦ inr (ground (arith, same_text_eq o.live_tree_sha o.expected_post_tree_sha))
      | inr e ↦ inl e
    ];
  },
)

confirmed-verdict :
    (p : TransactionPlan) (o : Observed) (u : List String)
    → p.decision ≡ "AUTHORIZED_DRY_RUN"
    → is_empty u ≡ true
    → IsExpected o
    → verdict_of p o u ≡ write_confirmed_expected_post_state
unfolding verdict_of
confirmed-verdict p o u decided none_other expected = ground (
  arith,
  eq_iff p.decision "AUTHORIZED_DRY_RUN",
  same_text_eq (some o.live_head_sha) o.expected_post_sha,
  same_text_eq o.live_tree_sha o.expected_post_tree_sha,
  expected.given,
  expected.head,
  expected.tree,
)

unexpected-empty :
    (authorized observed : List String)
    → is_empty (sorted_set (without authorized observed))
      ≡ all (λ path. one_of path authorized) observed
unexpected-empty authorized observed =
    sorted_set-empty (without authorized observed) ∙ without-empty authorized observed

-- A write is confirmed exactly when its plan was an authorized dry run, every observed path is one of the
-- plan's, the head is the expected one, and so is the tree where one is expected, provided the observed
-- paths can be normalized.
pub confirmed_iff :
    (p : TransactionPlan) (o : Observed) (observed : List String)
    → normalize_all o.observed_changed_paths ≡ ok observed
    → (w : PostWrite) × (reconcile_post_write p o ≡ ok w)
      × ((w.verdict ≡ write_confirmed_expected_post_state) ↔ (
          (p.decision ≡ "AUTHORIZED_DRY_RUN")
          × AllIn p.authority.proposed_paths observed
          × IsExpected o))
unfolding reconcile_post_write
confirmed_iff p o observed normalized =
    let u = sorted_set (without p.authority.proposed_paths observed) in
    let same = unexpected-empty p.authority.proposed_paths observed in
    (
      post_write p o observed,
      rw normalized refl,
      (
        λ h.
            let (decided, none_other, expected) = verdict-confirmed p o u h in
            (decided, sym same ∙ none_other, expected),
        λ (decided, all_in, expected). confirmed-verdict p o u decided (same ∙ all_in) expected,
      ),
    )
