-- ===== src/Lib.antt =====
-- Beerus, a Starknet light client: the check of Merkle proofs, the server's answers and the state
-- that the executor reads, with the theorems that make them right.
--
-- The program. The files named here are under src/ of the repository. A client trusts the state of
-- one block (client.rs, `State`: number, hash and root), which the gateway tells (feeder.rs) and
-- the server program (bin/beerus.rs) polls. The server (rpc.rs) answers the methods of the RPC
-- specification (gen.rs): most are passed on to a node that is not trusted, `getStorageAt` is
-- answered with a Merkle proof that is checked (proof.rs, with util.rs for the bits of a key), and
-- `call` is executed locally (exe/mod.rs; the virtual machine is a parameter) over a state that
-- reads from the node through caches (exe/cache.rs).
--
-- Prelude: tests, lists, texts, the outcome of a fallible operation (`Outcome`: ok, err, and panic
-- for an index out of range or an `unwrap`), signed integers. Prelude/Effects: operations that
-- talk to a service, as functions that pass the world on (`Run`, `Io`).
-- Gen: src/gen.rs. Felt is `Felt::try_new` with its repair of the text; Keys and Numbers are the
-- other validated types; Types, Blocks, Fees, Events, Classes, Transactions, Broadcasts, Receipts,
-- Updates, Traces and Answers are the data types of the specification. Api is the trait `Rpc`: a
-- method (`Method`), the types of its arguments and its result, and an implementation as a
-- function of the three. Client is the client, over a parameter `post` for HTTP and `Serde` for
-- JSON: its methods are in Client/Chain and Client/Txns, Client/Impl is its `Rpc`. Server is the
-- other end: the body of a handler, the handlers (Server/Chain, Server/Txns) and `gen::handle`
-- (Server/Dispatch); Server/Reach and Server/Results are about the requests it gets, Server/Wire
-- joins the two ends. Blocking is the blocking copy of both (`gen::blocking`,
-- `gen::client::blocking`), through whose client the executor reads: its methods have bodies of
-- their own (Blocking/Bodies), which Blocking/Same compares. Errors has the codes of `gen::error`.
-- Util: src/util.rs over `StarkCrypto` (the field and the hashes) and `BitView` (bitvec); the laws
-- assumed of them are `FieldLaws` and `BitLaws` of Util/Laws.
-- Proof: src/proof.rs. `parse_proof` is the loop (`climb`, with `visit_edge` and `visit_binary` as
-- its body); Proof/Verify is `GetProofResult::verify`. Proof/Trie is the trie that the code is
-- about, Proof/Honest what an honest node sends; Proof/Nodes has the data that nodes commit to and
-- when a proof is whole, which the code does not look at. Steps, Binding, Forge, Complete,
-- Accepted, Returns, Total, Panics, OffKey, Descent, Sound, Forged, Genuine, Truncated and Whole
-- prove. Proof/State says what is true of a value under a root.
-- Client: `State` of src/client.rs.
-- Rpc: the context of src/rpc.rs, its blocks and `getStorageAt`; Rpc/Context is its `Rpc`, with
-- the methods that are passed on in Rpc/Chain and Rpc/Txns; Rpc/Genuine and Rpc/Older are about
-- what `getStorageAt` answers; Rpc/Batch is `handle_request`; Rpc/Answer joins the dispatch and
-- `getStorageAt`, and Rpc/Answer/Genuine the state of the chain.
-- Exe: src/exe. Map has err.rs and the field elements of map.rs, Classes the contract classes of
-- map.rs, Proxy the `StateProxy` of mod.rs, Cache cache.rs. Call is `exe::call`: the virtual
-- machine is a tree of reads and writes (`Program`), which Call/Run runs over the cached state.
-- Rpc/Local is the whole server on one world: `gen::handle` on the context with the executor and
-- its caches; Rpc/Serving adds the update loop, as steps in any order.
-- Feeder: the answers of the gateway (feeder.rs); Feeder/Gateway its requests. Config: the gateway
-- of a chain and the data directory (config.rs). Start: `Client::new`; Execute: `Client::execute`
-- and `as_felt` (client.rs). Poll: the update loop of bin/beerus.rs over the answers of the
-- gateway. Rpc/Sockets: `serve` (rpc.rs), up to the start of its task. Main: `main` of
-- bin/beerus.rs. Config/Server: the server's configuration. Http: the HTTP of the client
-- (client.rs). BeerusWeb: the object of a page (web/beerus-web/src/lib.rs).
-- Tests: runs on small inputs, over a field of two elements and a node that answers honestly.
--
-- Bounds. The `i64` and `usize` of proof.rs are 64-bit patterns that wrap around, as in a release
-- build; a block number is a natural number below 2^63 where a theorem says so. No definition runs
-- on fuel: the loops go over lists, and a run over a `Program`.
--
-- Not modelled: the libraries for HTTP and JSON, which are parameters, sockets, logging and
-- timers, with the server's task and its shutdown; the virtual machine (blockifier) and the
-- compiler of contract classes, parameters too; locks (a request reads the shared state once,
-- under a read lock). The names that serde gives to fields and variants are part of the JSON
-- parameter.
pub mod Prelude
pub mod Gen
pub mod Util
pub mod Proof
pub mod Client
pub mod Rpc
pub mod Feeder
pub mod Config
pub mod Start
pub mod Execute
pub mod Poll
pub mod Main
pub mod Exe
pub mod Tests
pub mod Http
pub mod BeerusWeb
