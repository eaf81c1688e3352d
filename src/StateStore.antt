-- ===== src/StateStore.antt =====
-- ues/state_store.py. `Model` has the dataclasses, `Persist` what a record is after it was written
-- and read, `Interface` the abstract store, `File` the file backend, `Authority` the grants, `Claim`
-- the claim of an operation and `Readback` what ends it.
pub mod Model
pub mod Persist
pub mod Interface
pub mod Document
pub mod File
pub mod Authority
pub mod Evidence
pub mod Gate
pub mod Claim
pub mod Readback
mod Examples
