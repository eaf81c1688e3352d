-- ===== src/StateStore/File/Swap.antt =====
-- What a compare-and-swap of an operation has found, and what a read finds after it.
use universal_execution_syst.Prelude.{
  ℕ, ◌+◌, String, ◌≡◌, ◌≢◌, refl, ◌∙◌, inl, inr, arith, eq_iff, eq_refl,
}
use universal_execution_syst.Prelude.Lists.{lookup, lookup-insert}
use universal_execution_syst.Prelude.Results.{Result, ok, raise}
use universal_execution_syst.Runtime.{Runtime}
use universal_execution_syst.StateStore.Model.{OperationRecord}
use universal_execution_syst.StateStore.Persist.{operation_to_dict, operation_from_dict}
use universal_execution_syst.StateStore.Document.{
  Document, Entry, dict, FileState, FileStore, absent, unreadable, document, actual_version,
  write_operation, read_operation, operation_as,
}
use universal_execution_syst.StateStore.Interface.{ReadsBack}
use universal_execution_syst.StateStore.File.{swap_operation}

-- A write of `r` at the key `k` that does not raise: what it has found and what it leaves.
pub record Swapped (rt : Runtime) (k : String) (v : ℕ) (r : OperationRecord) (s s' : FileStore)
    : Type 0 where
  pub doc : Document
  pub was : s.file ≡ document doc
  pub version : actual_version (lookup k doc.operations) ≡ v
  pub key : r.operation_key ≡ k
  pub left : s' ≡ write_operation k (v + 1) (operation_to_dict rt r) doc s

module _ (rt : Runtime) (k : String) (v : ℕ) (r : OperationRecord) (s s' : FileStore) where
  needs_file : s.file ≡ absent → swap_operation rt k v r s ≡ ok s' → ⊥
  unfolding swap_operation
  needs_file e h = ground arith

  needs_document : s.file ≡ unreadable → swap_operation rt k v r s ≡ ok s' → ⊥
  unfolding swap_operation
  needs_document e h = ground arith

  Swapped-file :
      (f : FileState) → s.file ≡ f → swap_operation rt k v r s ≡ ok s' → Swapped rt k v r s s'
  unfolding swap_operation
  Swapped-file absent e h = absurd (needs_file e h)
  Swapped-file unreadable e h = absurd (needs_document e h)
  Swapped-file (document d) e h = record {
    doc = d;
    was = e;
    version = ground arith;
    key = ground (arith, eq_iff r.operation_key k);
    left = ground arith;
  }

  pub swap_operation-Swapped : swap_operation rt k v r s ≡ ok s' → Swapped rt k v r s s'
  swap_operation-Swapped h = Swapped-file s.file refl h

abbrev pub written_entry : Runtime → ℕ → OperationRecord → Entry OperationRecord
written_entry rt v r = record { version = v + 1; raw = dict (operation_to_dict rt r) }

pub Swapped-read_ne :
    (rt : Runtime) (j k : String) (v : ℕ) (r : OperationRecord) (s s' : FileStore)
    → k ≢ j
    → Swapped rt k v r s s'
    → read_operation j s' ≡ read_operation j s
unfolding read_operation write_operation
Swapped-read_ne rt j k v r s s' ne w =
    ground
      (arith, w.was, w.left, lookup-insert k j (written_entry rt v r) w.doc.operations, eq_iff k j)

from_dict_keeps :
    (r q : OperationRecord)
    → operation_from_dict r ≡ ok q
    → (q.operation_key ≡ r.operation_key)
      × (q.state ≡ r.state)
      × (q.request_digest ≡ r.request_digest)
unfolding operation_from_dict
from_dict_keeps r q h = ground arith

pub Swapped-read_self :
    (rt : Runtime) (k : String) (v : ℕ) (r : OperationRecord) (s s' : FileStore)
    → Swapped rt k v r s s'
    → read_operation k s' ≡ operation_as k (v + 1) (operation_from_dict (operation_to_dict rt r))
unfolding read_operation write_operation
Swapped-read_self rt k v r s s' w =
    rw (w.left, lookup-insert k k (written_entry rt v r) w.doc.operations, eq_refl k)

to_dict_keeps :
    (rt : Runtime) (r : OperationRecord)
    → ((operation_to_dict rt r).operation_key ≡ r.operation_key)
      × ((operation_to_dict rt r).state ≡ r.state)
      × ((operation_to_dict rt r).request_digest ≡ r.request_digest)
unfolding operation_to_dict
to_dict_keeps rt r = (refl, refl, refl)

operation_as-ReadsBack :
    (rt : Runtime) (k : String) (v : ℕ) (r : OperationRecord) (m : Result OperationRecord)
    → r.operation_key ≡ k
    → operation_from_dict (operation_to_dict rt r) ≡ m
    → ReadsBack k r (operation_as k v m)
operation_as-ReadsBack rt k v r (raise e) h p = inl refl
operation_as-ReadsBack rt k v r (ok q) h p =
    let (a, b, c) = from_dict_keeps _ q p in
    let (d, e, f) = to_dict_keeps rt r in
    let same : q.operation_key ≡ k = a ∙ (d ∙ h) in
    rw ((eq_iff q.operation_key k).1 same) (inr (q, refl, refl, same, b ∙ e, c ∙ f))

pub Swapped-ReadsBack :
    (rt : Runtime) (k : String) (v : ℕ) (r : OperationRecord) (s s' : FileStore)
    → Swapped rt k v r s s'
    → ReadsBack k r (read_operation k s')
Swapped-ReadsBack rt k v r s s' w =
    rw (Swapped-read_self rt k v r s s' w) (operation_as-ReadsBack rt k (v + 1) r _ w.key refl)
