-- ===== src/Idempotency/Decide.antt =====
-- When the records of an operation let it run (ues/idempotency.py, `evaluate_idempotency`).
use universal_execution_syst.Prelude.{
  String, ◌≡◌, refl, ap, ◌≢◌, ◌⊎◌, inl, inr, ◌↔◌, Bool, true, false, Option, none, some, List, [],
  ◌∷◌, ◌++◌, arith, ◌==◌, if◌then◌else◌, same_text, same_text_iff, eq_iff, Bool-cases, Option-cases,
}
use mathlib.Core.List.{append-nil}
use universal_execution_syst.Prelude.Lists.{select, last?, last?-append_one, select-append}
use universal_execution_syst.Idempotency.Records.{
  OperationEntry, judge, judge_state, matches, evaluate_idempotency, or_unknown,
}

-- The last record under an operation's id.
abbrev pub last_match : String → List OperationEntry → Option OperationEntry
last_match operation_id records = last? (select (matches operation_id) records)

-- The last attempt had this request, and an authoritative readback did not see its effect.
abbrev pub IsRetryable : String → OperationEntry → Type 0
IsRetryable request_digest r =
    (r.request_digest ≡ some request_digest)
    × (r.state ≡ some "RECONCILED_NOT_OBSERVED")
    × (r.authoritative_readback ≡ true)

judge_state_safe :
    (op t : String) (b : Bool)
    → (judge_state op t b).safe_to_execute ≡ true
    → (t ≡ "RECONCILED_NOT_OBSERVED") × (b ≡ true)
unfolding judge_state
judge_state_safe op t b h = (ground (arith, eq_iff t "RECONCILED_NOT_OBSERVED"), ground arith)

judge_state_unsafe :
    (op t : String) (b : Bool)
    → t ≢ "RECONCILED_NOT_OBSERVED"
    → (judge_state op t b).safe_to_execute ≡ false
unfolding judge_state
judge_state_unsafe op t b h = ground (arith, eq_iff t "RECONCILED_NOT_OBSERVED")

unknown_unsafe : (op : String) (b : Bool) → (judge_state op "UNKNOWN" b).safe_to_execute ≡ false
unfolding judge_state
unknown_unsafe op b = refl

-- A state that is missing or empty is read as "UNKNOWN", which is not retryable.
state_retryable :
    (op : String) (o : Option String) (b : Bool)
    → (judge_state op (or_unknown o) b).safe_to_execute ≡ true
    → (o ≡ some "RECONCILED_NOT_OBSERVED") × (b ≡ true)
state_retryable op none b h = cc (unknown_unsafe op b)
state_retryable op (some s) b h = elim (Bool-cases (s == "")) [
  | inl e ↦ cc (unknown_unsafe op b, rw e at h)
  | inr e ↦ let x = judge_state_safe op s b (rw e at h) in (ap some x.0, x.1)
]

retryable_safe :
    (op : String) (b : Bool)
    → b ≡ true
    → (judge_state op "RECONCILED_NOT_OBSERVED" b).safe_to_execute ≡ true
unfolding judge_state
retryable_safe op b h = h

judge_safe :
    (op d : String) (r : OperationEntry)
    → ((judge op d (some r)).safe_to_execute ≡ true) ↔ IsRetryable d r
unfolding judge
judge_safe op d r = (
  λ h. elim (Bool-cases (same_text r.request_digest (some d))) [
    | inl e ↦
        let x = state_retryable op r.state r.authoritative_readback (rw e at h) in
        ((same_text_iff _ _).0 e, x.0, x.1)
    | inr e ↦ cc (rw e at h)
  ],
  λ (e, f, g). rw ((same_text_iff _ d).1 e, f) (retryable_safe op _ g),
)

judge-none : (op d : String) → (judge op d none).safe_to_execute ≡ true
unfolding judge
judge-none op d = refl

-- An operation may execute exactly when no record has its id, or when the last record that has it
-- is of the same request, is RECONCILED_NOT_OBSERVED, and carries an authoritative readback.
pub safe_to_execute_iff :
    (operation_id request_digest : String) (records : List OperationEntry)
    → ((evaluate_idempotency operation_id request_digest records).safe_to_execute ≡ true) ↔ (
        (last_match operation_id records ≡ none)
        ⊎ ((r : OperationEntry) × (last_match operation_id records ≡ some r)
            × IsRetryable request_digest r))
unfolding evaluate_idempotency
safe_to_execute_iff op d rs = elim (Option-cases (last_match op rs)) [
  | inl e ↦ (λ h. inl e, λ h. rw e (judge-none op d))
  | inr (r, e) ↦ (
    λ h. inr (r, e, (judge_safe op d r).0 (rw e at h)),
    elim [ inl n ↦ cc | inr (q, f, k) ↦ rw f ((judge_safe op d q).1 k) ],
  )
]

last_match-append :
    (op : String) (rs : List OperationEntry) (r : OperationEntry)
    → last_match op (rs ++ r ∷ []) ≡ (if matches op r then some r else last_match op rs)
last_match-append op rs r = elim (Bool-cases (matches op r)) [
  | inl e ↦ rw (select-append, e) (last?-append_one _ r)
  | inr e ↦ rw (select-append, e, append-nil)
]

-- A record appended to the log decides for its own operation, whatever came before it, and changes
-- the answer for no other operation.
pub evaluate-append :
    (operation_id request_digest : String) (records : List OperationEntry) (r : OperationEntry)
    → evaluate_idempotency operation_id request_digest (records ++ r ∷ []) ≡ (
        if matches operation_id r
        then judge operation_id request_digest (some r)
        else evaluate_idempotency operation_id request_digest records)
unfolding evaluate_idempotency
evaluate-append op d rs r = elim (Bool-cases (matches op r)) [
  | inl e ↦ rw (last_match-append op rs r, e)
  | inr e ↦ rw (last_match-append op rs r, e)
]
