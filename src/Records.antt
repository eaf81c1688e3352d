-- ===== src/Records.antt =====
-- ues/operation_records.py: the redaction of receipts. `Keys` has the test on sensitive keys,
-- `Patterns` the substitutions in texts, `Sanitize` the redaction and what it guarantees.
pub mod Keys
pub mod Patterns
pub mod Sanitize
mod Examples
