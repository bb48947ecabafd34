-- ===== src/Gen/Server/Chain.antt =====
-- The handlers of src/gen.rs for the methods that ask for blocks, classes and the state.
use beerus.Prelude.Effects.{Io}
use beerus.Gen.Api.{Method, Rpc}
use beerus.Gen.Client.{Serde}
use beerus.Gen.Server.{Reply, handle_method, handle_plain}

module _ {V W : Type 0} (serde : Serde V) (rpc : Rpc W) where
  unfoldable pub handle_get_proof : V → Io W (Reply V)
  handle_get_proof = handle_method serde rpc Method.get_proof

  unfoldable pub handle_version : V → Io W (Reply V)
  handle_version = handle_plain serde rpc Method.version tt

  unfoldable pub handle_block_hash_and_number : V → Io W (Reply V)
  handle_block_hash_and_number = handle_plain serde rpc Method.block_hash_and_number tt

  unfoldable pub handle_block_number : V → Io W (Reply V)
  handle_block_number = handle_plain serde rpc Method.block_number tt

  unfoldable pub handle_chain_id : V → Io W (Reply V)
  handle_chain_id = handle_plain serde rpc Method.chain_id tt

  unfoldable pub handle_get_block_transaction_count : V → Io W (Reply V)
  handle_get_block_transaction_count = handle_method serde rpc Method.get_block_transaction_count

  unfoldable pub handle_get_block_with_receipts : V → Io W (Reply V)
  handle_get_block_with_receipts = handle_method serde rpc Method.get_block_with_receipts

  unfoldable pub handle_get_block_with_tx_hashes : V → Io W (Reply V)
  handle_get_block_with_tx_hashes = handle_method serde rpc Method.get_block_with_tx_hashes

  unfoldable pub handle_get_block_with_txs : V → Io W (Reply V)
  handle_get_block_with_txs = handle_method serde rpc Method.get_block_with_txs

  unfoldable pub handle_get_class : V → Io W (Reply V)
  handle_get_class = handle_method serde rpc Method.get_class

  unfoldable pub handle_get_class_at : V → Io W (Reply V)
  handle_get_class_at = handle_method serde rpc Method.get_class_at

  unfoldable pub handle_get_class_hash_at : V → Io W (Reply V)
  handle_get_class_hash_at = handle_method serde rpc Method.get_class_hash_at

  unfoldable pub handle_get_events : V → Io W (Reply V)
  handle_get_events = handle_method serde rpc Method.get_events

  unfoldable pub handle_get_nonce : V → Io W (Reply V)
  handle_get_nonce = handle_method serde rpc Method.get_nonce

  unfoldable pub handle_get_state_update : V → Io W (Reply V)
  handle_get_state_update = handle_method serde rpc Method.get_state_update

  unfoldable pub handle_get_storage_at : V → Io W (Reply V)
  handle_get_storage_at = handle_method serde rpc Method.get_storage_at

  unfoldable pub handle_spec_version : V → Io W (Reply V)
  handle_spec_version = handle_plain serde rpc Method.spec_version tt

  unfoldable pub handle_syncing : V → Io W (Reply V)
  handle_syncing = handle_plain serde rpc Method.syncing tt
