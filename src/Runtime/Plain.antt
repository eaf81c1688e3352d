-- ===== src/Runtime/Plain.antt =====
-- A runtime for the runs of the examples: letters have no case.
use universal_execution_syst.Prelude.{true}
use universal_execution_syst.Runtime.{Runtime}

abbrev pub plain : Runtime
plain = record {
  lower = λ s. s;
  upper = λ s. s;
  isalnum = λ c. true;
  dumps = λ v. "{}";
  sha256_hex = λ s. s;
  isoformat = λ n. "t";
  decimal = λ n. "n";
}
