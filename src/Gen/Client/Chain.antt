-- ===== src/Gen/Client/Chain.antt =====
-- The methods of src/gen.rs (`impl Rpc for Client`) that ask for blocks, classes and the state.
use beerus.Prelude.{List, Str, text, ok}
use beerus.Prelude.Effects.{Io}
use beerus.Gen.Api.{Method}
use beerus.Gen.Answers.{
  BlockHashAndNumberResult, GetBlockWithReceiptsResult, GetBlockWithTxsResult, SyncingResult,
}
use beerus.Gen.Blocks.{BlockId, GetBlockWithTxHashesResult}
use beerus.Gen.Classes.{GetClassAtResult, GetClassResult}
use beerus.Gen.Events.{EventsChunk, GetEventsFilter}
use beerus.Gen.Felt.{Felt}
use beerus.Gen.Keys.{ChainId, StorageKey}
use beerus.Gen.Numbers.{BlockNumber, GetBlockTransactionCountResult}
use beerus.Gen.Types.{Address, GetProofResult}
use beerus.Gen.Updates.{GetStateUpdateResult}
use beerus.Gen.Client.{Serde, Request, Response, call_method}

module _ {V W : Type 0} (serde : Serde V) (post : Str → Request V → Io W (Response V)) where
  unfoldable pub get_proof : Str → BlockId → Address → List StorageKey → Io W GetProofResult
  get_proof url block_id contract_address keys =
      call_method serde post url (text "pathfinder_getProof")
        (serde.args_to_value Method.get_proof (block_id, contract_address, keys))
        (serde.ret_from_value Method.get_proof)

  unfoldable pub version : Str → Io W Str
  version url =
      call_method serde post url (text "pathfinder_version") (ok serde.empty_array)
        (serde.ret_from_value Method.version)

  unfoldable pub block_hash_and_number : Str → Io W BlockHashAndNumberResult
  block_hash_and_number url =
      call_method serde post url (text "starknet_blockHashAndNumber") (ok serde.empty_array)
        (serde.ret_from_value Method.block_hash_and_number)

  unfoldable pub block_number : Str → Io W BlockNumber
  block_number url =
      call_method serde post url (text "starknet_blockNumber") (ok serde.empty_array)
        (serde.ret_from_value Method.block_number)

  unfoldable pub chain_id : Str → Io W ChainId
  chain_id url =
      call_method serde post url (text "starknet_chainId") (ok serde.empty_array)
        (serde.ret_from_value Method.chain_id)

  unfoldable pub get_block_transaction_count : Str → BlockId → Io W GetBlockTransactionCountResult
  get_block_transaction_count url block_id =
      call_method serde post url (text "starknet_getBlockTransactionCount")
        (serde.args_to_value Method.get_block_transaction_count block_id)
        (serde.ret_from_value Method.get_block_transaction_count)

  unfoldable pub get_block_with_receipts : Str → BlockId → Io W GetBlockWithReceiptsResult
  get_block_with_receipts url block_id =
      call_method serde post url (text "starknet_getBlockWithReceipts")
        (serde.args_to_value Method.get_block_with_receipts block_id)
        (serde.ret_from_value Method.get_block_with_receipts)

  unfoldable pub get_block_with_tx_hashes : Str → BlockId → Io W GetBlockWithTxHashesResult
  get_block_with_tx_hashes url block_id =
      call_method serde post url (text "starknet_getBlockWithTxHashes")
        (serde.args_to_value Method.get_block_with_tx_hashes block_id)
        (serde.ret_from_value Method.get_block_with_tx_hashes)

  unfoldable pub get_block_with_txs : Str → BlockId → Io W GetBlockWithTxsResult
  get_block_with_txs url block_id =
      call_method serde post url (text "starknet_getBlockWithTxs")
        (serde.args_to_value Method.get_block_with_txs block_id)
        (serde.ret_from_value Method.get_block_with_txs)

  unfoldable pub get_class : Str → BlockId → Felt → Io W GetClassResult
  get_class url block_id class_hash =
      call_method serde post url (text "starknet_getClass")
        (serde.args_to_value Method.get_class (block_id, class_hash))
        (serde.ret_from_value Method.get_class)

  unfoldable pub get_class_at : Str → BlockId → Address → Io W GetClassAtResult
  get_class_at url block_id contract_address =
      call_method serde post url (text "starknet_getClassAt")
        (serde.args_to_value Method.get_class_at (block_id, contract_address))
        (serde.ret_from_value Method.get_class_at)

  unfoldable pub get_class_hash_at : Str → BlockId → Address → Io W Felt
  get_class_hash_at url block_id contract_address =
      call_method serde post url (text "starknet_getClassHashAt")
        (serde.args_to_value Method.get_class_hash_at (block_id, contract_address))
        (serde.ret_from_value Method.get_class_hash_at)

  unfoldable pub get_events : Str → GetEventsFilter → Io W EventsChunk
  get_events url filter =
      call_method serde post url (text "starknet_getEvents")
        (serde.args_to_value Method.get_events filter) (serde.ret_from_value Method.get_events)

  unfoldable pub get_nonce : Str → BlockId → Address → Io W Felt
  get_nonce url block_id contract_address =
      call_method serde post url (text "starknet_getNonce")
        (serde.args_to_value Method.get_nonce (block_id, contract_address))
        (serde.ret_from_value Method.get_nonce)

  unfoldable pub get_state_update : Str → BlockId → Io W GetStateUpdateResult
  get_state_update url block_id =
      call_method serde post url (text "starknet_getStateUpdate")
        (serde.args_to_value Method.get_state_update block_id)
        (serde.ret_from_value Method.get_state_update)

  unfoldable pub get_storage_at : Str → Address → StorageKey → BlockId → Io W Felt
  get_storage_at url contract_address key block_id =
      call_method serde post url (text "starknet_getStorageAt")
        (serde.args_to_value Method.get_storage_at (contract_address, key, block_id))
        (serde.ret_from_value Method.get_storage_at)

  unfoldable pub spec_version : Str → Io W Str
  spec_version url =
      call_method serde post url (text "starknet_specVersion") (ok serde.empty_array)
        (serde.ret_from_value Method.spec_version)

  unfoldable pub syncing : Str → Io W SyncingResult
  syncing url =
      call_method serde post url (text "starknet_syncing") (ok serde.empty_array)
        (serde.ret_from_value Method.syncing)
