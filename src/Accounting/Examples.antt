-- ===== src/Accounting/Examples.antt =====
-- Runs of ues/task_budget_accounting.py on a file store, with a quoting that changes nothing.
use universal_execution_syst.Prelude.{◌≡◌, refl, inl, []}
use universal_execution_syst.Prelude.Results.{ok}
use universal_execution_syst.Prelude.Texts.{strip}
use universal_execution_syst.Records.Patterns.{sanitize_string}
use universal_execution_syst.Runtime.Plain.{plain}
use universal_execution_syst.Identity.{Quoting}
use universal_execution_syst.StateStore.Model.{Status}
use universal_execution_syst.StateStore.Document
use universal_execution_syst.StateStore.File
use universal_execution_syst.Prelude.Lists.{lookup}
use universal_execution_syst.Records.Keys.{is_sensitive_key}
use universal_execution_syst.StateStore.Document.{FileState, FileStore}
use universal_execution_syst.StateStore.File.{file_store}
use universal_execution_syst.StateStore.File.Reads.{file_store-LaneLaws}
use universal_execution_syst.Accounting.{field_at, Accounted, generation_accounted}
use universal_execution_syst.Accounting.Rounds.{record_confirmed_generation, read_budget_accounting}
use universal_execution_syst.Accounting.Once.{Repeats}
use universal_execution_syst.Accounting.Calls.{counted_once}

abbrev plain_url : Quoting
plain_url = record { quote = λ s. s; unquote = λ s. s }

abbrev empty_store : FileStore
empty_store = record {
  file = FileState.document (record { store_revision = 0; workstreams = []; operations = [] });
  clock = 5;
}

abbrev first_count : Accounted
first_count = record { status = generation_accounted; confirmed_generation_count = 1; version = 1 }

abbrev after_first : FileStore
after_first =
    (record_confirmed_generation plain plain_url (file_store plain) "p" "r" "op" "t1" empty_store).1

first_test :
    (record_confirmed_generation plain plain_url (file_store plain) "p" "r" "op" "t1" empty_store).0
    ≡ ok first_count
unfolding record_confirmed_generation Document.read_workstream lookup field_at
    File.compare_and_swap_workstream is_sensitive_key
first_test = refl

op_stripped : strip "op" ≡ strip " op"
unfolding strip
op_stripped = refl

counted_once_example :
    Repeats 1
      (record_confirmed_generation plain plain_url (file_store plain) "p" "r" " op" "t2")
      after_first
unfolding strip sanitize_string
counted_once_example =
    counted_once plain plain_url (file_store plain) (file_store-LaneLaws plain) "p" "r" "op" "t1"
      " op" "t2" empty_store first_count (inl op_stripped) refl refl first_test refl

read_test :
    read_budget_accounting plain plain_url (file_store plain) "p" "r" after_first
    ≡ ok (1, Status.ok)
unfolding record_confirmed_generation read_budget_accounting Document.read_workstream lookup
    field_at File.compare_and_swap_workstream is_sensitive_key
read_test = refl
