-- ===== src/Rpc/Chain.antt =====
-- The methods of src/rpc.rs that are passed on to the node: blocks, classes and the state.
use beerus.Prelude.{List, Str}
use beerus.Prelude.Effects.{Io}
use beerus.Gen.Answers.{
  BlockHashAndNumberResult, GetBlockWithReceiptsResult, GetBlockWithTxsResult, SyncingResult,
}
use beerus.Gen.Blocks.{BlockId, GetBlockWithTxHashesResult}
use beerus.Gen.Classes.{GetClassAtResult, GetClassResult}
use beerus.Gen.Events.{EventsChunk, GetEventsFilter}
use beerus.Gen.Felt.{Felt}
use beerus.Gen.Keys.{ChainId, StorageKey}
use beerus.Gen.Numbers.{BlockNumber, GetBlockTransactionCountResult}
use beerus.Gen.Types.{Address, GetProofResult}
use beerus.Gen.Updates.{GetStateUpdateResult}
use beerus.Gen.Client.{Serde, Request, Response}
use beerus.Gen.Client.Chain.{
  get_proof, version, block_hash_and_number, block_number, chain_id, get_block_transaction_count,
  get_block_with_receipts, get_block_with_tx_hashes, get_block_with_txs, get_class, get_class_at,
  get_class_hash_at, get_events, get_nonce, get_state_update, spec_version, syncing,
}

module _ {V W : Type 0} (serde : Serde V) (post : Str → Request V → Io W (Response V))
    (url : Str) where
  unfoldable pub context_get_proof : BlockId → Address → List StorageKey → Io W GetProofResult
  context_get_proof block_id contract_address keys =
      get_proof serde post url block_id contract_address keys

  unfoldable pub context_version : Io W Str
  context_version = version serde post url

  unfoldable pub context_block_hash_and_number : Io W BlockHashAndNumberResult
  context_block_hash_and_number = block_hash_and_number serde post url

  unfoldable pub context_block_number : Io W BlockNumber
  context_block_number = block_number serde post url

  unfoldable pub context_chain_id : Io W ChainId
  context_chain_id = chain_id serde post url

  unfoldable pub context_get_block_transaction_count : BlockId → Io W GetBlockTransactionCountResult
  context_get_block_transaction_count block_id = get_block_transaction_count serde post url block_id

  unfoldable pub context_get_block_with_receipts : BlockId → Io W GetBlockWithReceiptsResult
  context_get_block_with_receipts block_id = get_block_with_receipts serde post url block_id

  unfoldable pub context_get_block_with_tx_hashes : BlockId → Io W GetBlockWithTxHashesResult
  context_get_block_with_tx_hashes block_id = get_block_with_tx_hashes serde post url block_id

  unfoldable pub context_get_block_with_txs : BlockId → Io W GetBlockWithTxsResult
  context_get_block_with_txs block_id = get_block_with_txs serde post url block_id

  unfoldable pub context_get_class : BlockId → Felt → Io W GetClassResult
  context_get_class block_id class_hash = get_class serde post url block_id class_hash

  unfoldable pub context_get_class_at : BlockId → Address → Io W GetClassAtResult
  context_get_class_at block_id contract_address =
      get_class_at serde post url block_id contract_address

  unfoldable pub context_get_class_hash_at : BlockId → Address → Io W Felt
  context_get_class_hash_at block_id contract_address =
      get_class_hash_at serde post url block_id contract_address

  unfoldable pub context_get_events : GetEventsFilter → Io W EventsChunk
  context_get_events filter = get_events serde post url filter

  unfoldable pub context_get_nonce : BlockId → Address → Io W Felt
  context_get_nonce block_id contract_address = get_nonce serde post url block_id contract_address

  unfoldable pub context_get_state_update : BlockId → Io W GetStateUpdateResult
  context_get_state_update block_id = get_state_update serde post url block_id

  unfoldable pub context_spec_version : Io W Str
  context_spec_version = spec_version serde post url

  unfoldable pub context_syncing : Io W SyncingResult
  context_syncing = syncing serde post url
