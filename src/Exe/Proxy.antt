-- ===== src/Exe/Proxy.antt =====
-- `StateProxy` of src/exe/mod.rs: what the virtual machine reads of the state comes from the node,
-- and a storage value that is not zero with a Merkle proof. Writes are dropped.
pub mod Reads
pub mod Genuine
use Prim.Native.String.{String}
use beerus.Prelude.{
  ℕ, Bool, true, false, none, some, List, [], ◌∷◌, ◌++◌, if◌then◌else◌, Str, text, str_eq, Outcome,
  ok, err, panic, map_err, Error,
}
use beerus.Prelude.Effects.{Io, Run, ◌>>=◌, lift}
use beerus.Gen.Felt.{Felt}
use beerus.Gen.Keys.{StorageKey, try_storage_key}
use beerus.Gen.Types.{Address, BlockHash, GetProofResult}
use beerus.Gen.Blocks.{BlockId}
use beerus.Gen.Classes.{GetClassResult}
use beerus.Gen.Client.{Serde, Request, Response}
use beerus.Gen.Blocking.Chain.{get_proof, get_storage_at, get_nonce, get_class_hash_at, get_class}
use beerus.Client.{State}
use beerus.Util.{StarkCrypto, BitView}
use beerus.Proof.Verify.{verify}
use beerus.Exe.Map.{
  ExeError, iam_groot, StateError, state_read_error, undeclared_class_hash, Texts, state_error,
  VmFelt, felt_to_vm, felt_from_vm,
}

pub record StateProxy : Type 0 where
  pub url : Str
  pub state : State

-- What `starknet_api` adds: the text of a storage key, and the machine's form
-- `K` of a contract class, which src/exe/map.rs compiles (Exe/Classes).
pub record Vm (K F : Type 0) : Type 0 where
  pub key_text : F → Str
  pub compile : GetClassResult → Outcome ExeError K

-- The calls of `BlockifierState`.
pub data Write (K F : Type 0) : Type 0 where
  set_storage_at : F → F → F → Write K F
  increment_nonce : F → Write K F
  set_class_hash_at : F → F → Write K F
  set_contract_class : F → K → Write K F
  set_compiled_class_hash : F → F → Write K F
  add_visited_pcs : F → List ℕ → Write K F

unfoldable pub block_of : StateProxy → BlockId
block_of proxy = BlockId.block_hash (record { felt = proxy.state.block_hash })

module _ {F : Type 0} (texts : Texts) where
  -- `map_err(Into::<Error>::into)?` on the answer of the client.
  unfoldable pub from_client {ℓ} : {A : Type ℓ} → Outcome Error A → Outcome (StateError F) A
  unfolding state_error
  from_client = map_err (λ e. state_error texts (iam_groot e))

module _ {F : Type 0} (texts : Texts) (vm_felt : VmFelt F) where
  -- A contract's address as the RPC writes it.
  unfoldable pub address_of : F → Outcome (StateError F) Address
  unfolding state_error
  address_of contract_address =
      map_err (state_error texts) (elim (felt_from_vm vm_felt contract_address) [
        | ok felt ↦ ok (record { felt = felt })
        | err e ↦ err e
        | panic ↦ panic
      ])

module _ {V K W F : Type 0} (serde : Serde V) (post : Str → Request V → Io W (Response V))
    (crypto : StarkCrypto F) (bits : BitView) (texts : Texts) (vm_felt : VmFelt F)
    (vm : Vm K F) where
  abbrev pub run_client : {A : Type 0} → Io W A → Run (StateError F) W A
  run_client m w = (from_client texts (m w).0, (m w).1)

  pub not_verified : Error → StateError F
  not_verified e = state_read_error (text "Failed to verify merkle proof: " ++ texts.debug_rpc e)

  -- The value that the node sends, after its proof.
  unfoldable pub with_proof : StateProxy → Address → StorageKey → Felt → Run (StateError F) W F
  unfolding block_of not_verified
  with_proof proxy address key ret = do
    proof ← run_client (get_proof serde post proxy.url (block_of proxy) address (key ∷ []))
    _ ← lift (map_err not_verified (verify crypto bits proof proxy.state.root address key ret))
    lift (ok (felt_to_vm vm_felt ret))

  unfoldable pub proxy_get_storage_at : StateProxy → F → F → Run (StateError F) W F
  unfolding block_of
  proxy_get_storage_at proxy contract_address storage_key = do
    address ← lift (address_of texts vm_felt contract_address)
    key ← lift (from_client texts (try_storage_key (vm.key_text storage_key)))
    ret ← run_client (get_storage_at serde post proxy.url address key (block_of proxy))
    if str_eq ret.value (text "0x0")
        then lift (ok (felt_to_vm vm_felt ret))
        else with_proof proxy address key ret

  unfoldable pub proxy_get_nonce_at : StateProxy → F → Run (StateError F) W F
  unfolding block_of
  proxy_get_nonce_at proxy contract_address = do
    address ← lift (address_of texts vm_felt contract_address)
    ret ← run_client (get_nonce serde post proxy.url (block_of proxy) address)
    lift (ok (felt_to_vm vm_felt ret))

  unfoldable pub proxy_get_class_hash_at : StateProxy → F → Run (StateError F) W F
  unfolding block_of
  proxy_get_class_hash_at proxy contract_address = do
    address ← lift (address_of texts vm_felt contract_address)
    ret ← run_client (get_class_hash_at serde post proxy.url (block_of proxy) address)
    lift (ok (felt_to_vm vm_felt ret))

  unfoldable pub proxy_get_compiled_contract_class : StateProxy → F → Run (StateError F) W K
  unfolding block_of state_error
  proxy_get_compiled_contract_class proxy class_hash = do
    hash ← lift (map_err (state_error texts) (felt_from_vm vm_felt class_hash))
    ret ← run_client (get_class serde post proxy.url (block_of proxy) hash)
    lift (map_err (state_error texts) (vm.compile ret))

  unfoldable pub proxy_get_compiled_class_hash : StateProxy → F → Run (StateError F) W F
  proxy_get_compiled_class_hash proxy class_hash = lift (err (undeclared_class_hash class_hash))

  -- The writes of `BlockifierState` succeed and change nothing.
  unfoldable pub proxy_write : StateProxy → Write K F → Run (StateError F) W (Unit {0})
  proxy_write proxy write = lift (ok tt)
