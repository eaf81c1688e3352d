-- ===== src/Idempotency.antt =====
-- ues/idempotency.py. `Records` decides whether an operation may run from the records of earlier
-- attempts, `Boundary` whether a branch and a write are free, and `Effect` names an effect by a key.
pub mod Records
pub mod Decide
pub mod Boundary
pub mod Latest
pub mod Serialization
pub mod Effect
pub mod Key
pub mod Identity
mod Examples
