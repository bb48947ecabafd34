-- ===== src/Gen.antt =====
-- src/gen.rs, the generated data types and client of the JSON-RPC specification.
pub mod Felt
pub mod Keys
pub mod Numbers
pub mod Types
pub mod Blocks
pub mod Fees
pub mod Events
pub mod Classes
pub mod Transactions
pub mod Broadcasts
pub mod Receipts
pub mod Updates
pub mod Traces
pub mod Answers
pub mod Api
pub mod Client
pub mod Server
pub mod Blocking
pub mod Errors
