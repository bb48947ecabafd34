-- ===== src/Gen/Blocking/Dispatch.antt =====
-- `gen::blocking::handle` of src/gen.rs: a request is given to the handler of its method.
use beerus.Prelude.{List, [], ◌∷◌, Str, text}
use beerus.Prelude.Effects.{Io}
use beerus.Gen.Api.{Rpc}
use beerus.Gen.Client.{Serde, Request}
use beerus.Gen.Server.{Reply}
use beerus.Gen.Blocking.Bodies.{blocking_find, blocking_with_id}
use beerus.Gen.Blocking.ServeChain.{
  handle_get_proof, handle_version, handle_block_hash_and_number, handle_block_number,
  handle_chain_id, handle_get_block_transaction_count, handle_get_block_with_receipts,
  handle_get_block_with_tx_hashes, handle_get_block_with_txs, handle_get_class, handle_get_class_at,
  handle_get_class_hash_at, handle_get_events, handle_get_nonce, handle_get_state_update,
  handle_get_storage_at, handle_spec_version, handle_syncing,
}
use beerus.Gen.Blocking.ServeTxns.{
  handle_get_tx_status, handle_add_declare_transaction, handle_add_deploy_account_transaction,
  handle_add_invoke_transaction, handle_call, handle_estimate_fee, handle_estimate_message_fee,
  handle_get_transaction_by_block_id_and_index, handle_get_transaction_by_hash,
  handle_get_transaction_receipt, handle_get_transaction_status, handle_simulate_transactions,
  handle_trace_block_transactions, handle_trace_transaction,
}

module _ {V W : Type 0} (serde : Serde V) (rpc : Rpc W) where
  -- The arms of the match.
  unfoldable pub blocking_arms : List (Str × (V → Io W (Reply V)))
  blocking_arms =
      (text "pathfinder_getProof", handle_get_proof serde rpc)
      ∷ (text "pathfinder_getTxStatus", handle_get_tx_status serde rpc)
      ∷ (text "pathfinder_version", handle_version serde rpc)
      ∷ (text "starknet_addDeclareTransaction", handle_add_declare_transaction serde rpc)
      ∷ (
        text "starknet_addDeployAccountTransaction",
        handle_add_deploy_account_transaction serde rpc,
      )
      ∷ (text "starknet_addInvokeTransaction", handle_add_invoke_transaction serde rpc)
      ∷ (text "starknet_blockHashAndNumber", handle_block_hash_and_number serde rpc)
      ∷ (text "starknet_blockNumber", handle_block_number serde rpc)
      ∷ (text "starknet_call", handle_call serde rpc)
      ∷ (text "starknet_chainId", handle_chain_id serde rpc)
      ∷ (text "starknet_estimateFee", handle_estimate_fee serde rpc)
      ∷ (text "starknet_estimateMessageFee", handle_estimate_message_fee serde rpc)
      ∷ (text "starknet_getBlockTransactionCount", handle_get_block_transaction_count serde rpc)
      ∷ (text "starknet_getBlockWithReceipts", handle_get_block_with_receipts serde rpc)
      ∷ (text "starknet_getBlockWithTxHashes", handle_get_block_with_tx_hashes serde rpc)
      ∷ (text "starknet_getBlockWithTxs", handle_get_block_with_txs serde rpc)
      ∷ (text "starknet_getClass", handle_get_class serde rpc)
      ∷ (text "starknet_getClassAt", handle_get_class_at serde rpc)
      ∷ (text "starknet_getClassHashAt", handle_get_class_hash_at serde rpc)
      ∷ (text "starknet_getEvents", handle_get_events serde rpc)
      ∷ (text "starknet_getNonce", handle_get_nonce serde rpc)
      ∷ (text "starknet_getStateUpdate", handle_get_state_update serde rpc)
      ∷ (text "starknet_getStorageAt", handle_get_storage_at serde rpc)
      ∷ (
        text "starknet_getTransactionByBlockIdAndIndex",
        handle_get_transaction_by_block_id_and_index serde rpc,
      )
      ∷ (text "starknet_getTransactionByHash", handle_get_transaction_by_hash serde rpc)
      ∷ (text "starknet_getTransactionReceipt", handle_get_transaction_receipt serde rpc)
      ∷ (text "starknet_getTransactionStatus", handle_get_transaction_status serde rpc)
      ∷ (text "starknet_simulateTransactions", handle_simulate_transactions serde rpc)
      ∷ (text "starknet_specVersion", handle_spec_version serde rpc)
      ∷ (text "starknet_syncing", handle_syncing serde rpc)
      ∷ (text "starknet_traceBlockTransactions", handle_trace_block_transactions serde rpc)
      ∷ (text "starknet_traceTransaction", handle_trace_transaction serde rpc)
      ∷ []

  unfoldable pub blocking_handle : Request V → Io W (Reply V)
  blocking_handle req w =
      let done = blocking_find serde rpc blocking_arms req.method req.params w in
      (blocking_with_id serde rpc req.id done.0, done.1)
