-- ===== src/Idempotency/Latest.antt =====
-- `latest_records` of ues/idempotency.py against its meaning: the last record of each operation.
use universal_execution_syst.Prelude.{
  String, ◌≡◌, refl, ◌∙◌, ◌||◌, Option, none, some, List, [], ◌∷◌, ◌++◌, arith, ◌==◌, if◌then◌else◌,
  is_some, eq_iff, one_of,
}
use universal_execution_syst.Prelude.Lists.{lookup, lookup-insert}
use universal_execution_syst.Idempotency.Records.{OperationEntry, entry_id, note, note_all}

-- The last record of an operation, by recursion; a record with no id belongs to none.
unfoldable pub last_of : String → List OperationEntry → Option OperationEntry
last_of k [] = none
last_of k (r ∷ rs) = elim (last_of k rs) [
  | some q ↦ some q
  | none ↦ if entry_id r == k then (if k == "" then none else some r) else none
]

abbrev or_found : Option OperationEntry → Option OperationEntry → Option OperationEntry
or_found none o = o
or_found (some r) o = some r

abbrev State : Type 0
State = List (String × OperationEntry) × List String

lookup-note :
    (k : String) (st : State) (r : OperationEntry)
    → lookup k (note st r).0
      ≡ (if entry_id r == k then (if k == "" then lookup k st.0 else some r) else lookup k st.0)
unfolding note
lookup-note k (d, o) r = ground (
  arith,
  lookup-insert (entry_id r) k r d,
  eq_iff (entry_id r) "",
  eq_iff (entry_id r) k,
  eq_iff k "",
)

lookup-note_all :
    (k : String) (st : State) (rs : List OperationEntry)
    → lookup k (note_all st rs).0 ≡ or_found (last_of k rs) (lookup k st.0)
unfolding note_all last_of
lookup-note_all k st [] = refl
lookup-note_all k st (r ∷ rs) = ground (arith, lookup-note_all k (note st r) rs, lookup-note k st r)

one_of-append :
    (k : String) (xs ys : List String) → one_of k (xs ++ ys) ≡ (one_of k xs || one_of k ys)
one_of-append k [] ys = refl
one_of-append k (x ∷ xs) ys = ground (arith, one_of-append k xs ys)

-- The keys of `order` are those of `latest`.
abbrev Agrees : State → Type 0
Agrees st = (k : String) → one_of k st.1 ≡ is_some (lookup k st.0)

note-Agrees : (st : State) (r : OperationEntry) → Agrees st → Agrees (note st r)
unfolding note
note-Agrees (d, o) r h k = ground (
  arith,
  h k,
  h (entry_id r),
  lookup-insert (entry_id r) k r d,
  one_of-append k o (entry_id r ∷ []),
  eq_iff (entry_id r) k,
  eq_iff k (entry_id r),
)

note_all-Agrees : (st : State) (rs : List OperationEntry) → Agrees st → Agrees (note_all st rs)
unfolding note_all
note_all-Agrees st [] h = h
note_all-Agrees st (r ∷ rs) h = note_all-Agrees (note st r) rs (note-Agrees st r h)

or_found-none : (o : Option OperationEntry) → or_found o none ≡ o
or_found-none none = refl
or_found-none (some r) = refl

none_yet : Agrees ([], [])
unfolding lookup
none_yet k = refl

-- The dict and the order that the loop of `latest_records` leaves: at each id the last record of it,
-- and every id in the order exactly when it has one.
pub lookup-note_all_empty :
    (k : String) (rs : List OperationEntry) → lookup k (note_all ([], []) rs).0 ≡ last_of k rs
unfolding lookup
lookup-note_all_empty k rs = rw (lookup-note_all k ([], []) rs) (or_found-none (last_of k rs))

pub one_of-note_all :
    (k : String) (rs : List OperationEntry)
    → one_of k (note_all ([], []) rs).1 ≡ is_some (last_of k rs)
one_of-note_all k rs = note_all-Agrees ([], []) rs none_yet k ∙ rw (lookup-note_all_empty k rs)
