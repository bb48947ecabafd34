-- ===== src/Tests.antt =====
-- Runs of the modelled code on small concrete inputs.
pub mod Serving
pub mod Pages
pub mod Panics
pub mod Executor
pub mod Calls
pub mod Bits
pub mod Field
pub mod Proofs
pub mod Felts
pub mod Node
pub mod Reads
pub mod Machine
pub mod Start
pub mod Sound
pub mod Started
pub mod Genuine
