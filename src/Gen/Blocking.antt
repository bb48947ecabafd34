-- ===== src/Gen/Blocking.antt =====
-- The blocking half of src/gen.rs: the client over a blocking `HttpClient`, which the executor reads
-- the state with (`gen::client::blocking`), and the server (`gen::blocking`).
pub mod Bodies
pub mod Chain
pub mod Txns
pub mod Impl
pub mod ServeChain
pub mod ServeTxns
pub mod Dispatch
pub mod Same
