-- ===== src/Lifecycle.antt =====
-- ues/lifecycle.py: the lane lifecycle. `States` has the enumerations and the dataclasses,
-- `Resolve` the resolution of the next action, and the other modules prove what they say.
pub mod States
pub mod Resolve
pub mod Outcome
pub mod Graph
mod Named
mod Gates
pub mod Classified
pub mod Authority
pub mod Progress
mod Examples
