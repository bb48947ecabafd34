-- ===== src/Gen/Blocking/ServeChain.antt =====
-- The handlers of the blocking server of src/gen.rs (`gen::blocking`) for the methods
-- that ask for blocks, classes and the state.
use beerus.Prelude.Effects.{Io}
use beerus.Gen.Api.{Method, Rpc}
use beerus.Gen.Client.{Serde}
use beerus.Gen.Server.{Reply}
use beerus.Gen.Blocking.Bodies.{blocking_method, blocking_plain}

module _ {V W : Type 0} (serde : Serde V) (rpc : Rpc W) where
  unfoldable pub handle_get_proof : V → Io W (Reply V)
  handle_get_proof = blocking_method serde rpc Method.get_proof

  unfoldable pub handle_version : V → Io W (Reply V)
  handle_version = blocking_plain serde rpc Method.version tt

  unfoldable pub handle_block_hash_and_number : V → Io W (Reply V)
  handle_block_hash_and_number = blocking_plain serde rpc Method.block_hash_and_number tt

  unfoldable pub handle_block_number : V → Io W (Reply V)
  handle_block_number = blocking_plain serde rpc Method.block_number tt

  unfoldable pub handle_chain_id : V → Io W (Reply V)
  handle_chain_id = blocking_plain serde rpc Method.chain_id tt

  unfoldable pub handle_get_block_transaction_count : V → Io W (Reply V)
  handle_get_block_transaction_count = blocking_method serde rpc Method.get_block_transaction_count

  unfoldable pub handle_get_block_with_receipts : V → Io W (Reply V)
  handle_get_block_with_receipts = blocking_method serde rpc Method.get_block_with_receipts

  unfoldable pub handle_get_block_with_tx_hashes : V → Io W (Reply V)
  handle_get_block_with_tx_hashes = blocking_method serde rpc Method.get_block_with_tx_hashes

  unfoldable pub handle_get_block_with_txs : V → Io W (Reply V)
  handle_get_block_with_txs = blocking_method serde rpc Method.get_block_with_txs

  unfoldable pub handle_get_class : V → Io W (Reply V)
  handle_get_class = blocking_method serde rpc Method.get_class

  unfoldable pub handle_get_class_at : V → Io W (Reply V)
  handle_get_class_at = blocking_method serde rpc Method.get_class_at

  unfoldable pub handle_get_class_hash_at : V → Io W (Reply V)
  handle_get_class_hash_at = blocking_method serde rpc Method.get_class_hash_at

  unfoldable pub handle_get_events : V → Io W (Reply V)
  handle_get_events = blocking_method serde rpc Method.get_events

  unfoldable pub handle_get_nonce : V → Io W (Reply V)
  handle_get_nonce = blocking_method serde rpc Method.get_nonce

  unfoldable pub handle_get_state_update : V → Io W (Reply V)
  handle_get_state_update = blocking_method serde rpc Method.get_state_update

  unfoldable pub handle_get_storage_at : V → Io W (Reply V)
  handle_get_storage_at = blocking_method serde rpc Method.get_storage_at

  unfoldable pub handle_spec_version : V → Io W (Reply V)
  handle_spec_version = blocking_plain serde rpc Method.spec_version tt

  unfoldable pub handle_syncing : V → Io W (Reply V)
  handle_syncing = blocking_plain serde rpc Method.syncing tt
