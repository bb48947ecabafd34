-- ===== src/Gen/Client/Impl.antt =====
-- `impl Rpc for Client` of src/gen.rs: the client as an implementation of the trait.
use beerus.Prelude.{Str}
use beerus.Prelude.Effects.{Io}
use beerus.Gen.Api.{Method, Rpc}
use beerus.Gen.Client.{Serde, Request, Response}
use beerus.Gen.Client.Chain.{
  get_proof, version, block_hash_and_number, block_number, chain_id, get_block_transaction_count,
  get_block_with_receipts, get_block_with_tx_hashes, get_block_with_txs, get_class, get_class_at,
  get_class_hash_at, get_events, get_nonce, get_state_update, get_storage_at, spec_version, syncing,
}
use beerus.Gen.Client.Txns.{
  get_tx_status, add_declare_transaction, add_deploy_account_transaction, add_invoke_transaction,
  call, estimate_fee, estimate_message_fee, get_transaction_by_block_id_and_index,
  get_transaction_by_hash, get_transaction_receipt, get_transaction_status, simulate_transactions,
  trace_block_transactions, trace_transaction,
}

module _ {V W : Type 0} (serde : Serde V) (post : Str → Request V → Io W (Response V))
    (url : Str) where
  unfoldable pub client : Rpc W
  client Method.get_proof args = get_proof serde post url args.0 args.1 args.2
  client Method.get_tx_status args = get_tx_status serde post url args
  client Method.version args = version serde post url
  client Method.add_declare_transaction args = add_declare_transaction serde post url args
  client Method.add_deploy_account_transaction args =
      add_deploy_account_transaction serde post url args
  client Method.add_invoke_transaction args = add_invoke_transaction serde post url args
  client Method.block_hash_and_number args = block_hash_and_number serde post url
  client Method.block_number args = block_number serde post url
  client Method.call args = call serde post url args.0 args.1
  client Method.chain_id args = chain_id serde post url
  client Method.estimate_fee args = estimate_fee serde post url args.0 args.1 args.2
  client Method.estimate_message_fee args = estimate_message_fee serde post url args.0 args.1
  client Method.get_block_transaction_count args = get_block_transaction_count serde post url args
  client Method.get_block_with_receipts args = get_block_with_receipts serde post url args
  client Method.get_block_with_tx_hashes args = get_block_with_tx_hashes serde post url args
  client Method.get_block_with_txs args = get_block_with_txs serde post url args
  client Method.get_class args = get_class serde post url args.0 args.1
  client Method.get_class_at args = get_class_at serde post url args.0 args.1
  client Method.get_class_hash_at args = get_class_hash_at serde post url args.0 args.1
  client Method.get_events args = get_events serde post url args
  client Method.get_nonce args = get_nonce serde post url args.0 args.1
  client Method.get_state_update args = get_state_update serde post url args
  client Method.get_storage_at args = get_storage_at serde post url args.0 args.1 args.2
  client Method.get_transaction_by_block_id_and_index args =
      get_transaction_by_block_id_and_index serde post url args.0 args.1
  client Method.get_transaction_by_hash args = get_transaction_by_hash serde post url args
  client Method.get_transaction_receipt args = get_transaction_receipt serde post url args
  client Method.get_transaction_status args = get_transaction_status serde post url args
  client Method.simulate_transactions args =
      simulate_transactions serde post url args.0 args.1 args.2
  client Method.spec_version args = spec_version serde post url
  client Method.syncing args = syncing serde post url
  client Method.trace_block_transactions args = trace_block_transactions serde post url args
  client Method.trace_transaction args = trace_transaction serde post url args
