-- ===== src/Gen/Blocking/ServeTxns.antt =====
-- The handlers of the blocking server of src/gen.rs (`gen::blocking`) for the methods
-- for transactions, calls and traces.
use beerus.Prelude.Effects.{Io}
use beerus.Gen.Api.{Method, Rpc}
use beerus.Gen.Client.{Serde}
use beerus.Gen.Server.{Reply}
use beerus.Gen.Blocking.Bodies.{blocking_method}

module _ {V W : Type 0} (serde : Serde V) (rpc : Rpc W) where
  unfoldable pub handle_get_tx_status : V → Io W (Reply V)
  handle_get_tx_status = blocking_method serde rpc Method.get_tx_status

  unfoldable pub handle_add_declare_transaction : V → Io W (Reply V)
  handle_add_declare_transaction = blocking_method serde rpc Method.add_declare_transaction

  unfoldable pub handle_add_deploy_account_transaction : V → Io W (Reply V)
  handle_add_deploy_account_transaction =
      blocking_method serde rpc Method.add_deploy_account_transaction

  unfoldable pub handle_add_invoke_transaction : V → Io W (Reply V)
  handle_add_invoke_transaction = blocking_method serde rpc Method.add_invoke_transaction

  unfoldable pub handle_call : V → Io W (Reply V)
  handle_call = blocking_method serde rpc Method.call

  unfoldable pub handle_estimate_fee : V → Io W (Reply V)
  handle_estimate_fee = blocking_method serde rpc Method.estimate_fee

  unfoldable pub handle_estimate_message_fee : V → Io W (Reply V)
  handle_estimate_message_fee = blocking_method serde rpc Method.estimate_message_fee

  unfoldable pub handle_get_transaction_by_block_id_and_index : V → Io W (Reply V)
  handle_get_transaction_by_block_id_and_index =
      blocking_method serde rpc Method.get_transaction_by_block_id_and_index

  unfoldable pub handle_get_transaction_by_hash : V → Io W (Reply V)
  handle_get_transaction_by_hash = blocking_method serde rpc Method.get_transaction_by_hash

  unfoldable pub handle_get_transaction_receipt : V → Io W (Reply V)
  handle_get_transaction_receipt = blocking_method serde rpc Method.get_transaction_receipt

  unfoldable pub handle_get_transaction_status : V → Io W (Reply V)
  handle_get_transaction_status = blocking_method serde rpc Method.get_transaction_status

  unfoldable pub handle_simulate_transactions : V → Io W (Reply V)
  handle_simulate_transactions = blocking_method serde rpc Method.simulate_transactions

  unfoldable pub handle_trace_block_transactions : V → Io W (Reply V)
  handle_trace_block_transactions = blocking_method serde rpc Method.trace_block_transactions

  unfoldable pub handle_trace_transaction : V → Io W (Reply V)
  handle_trace_transaction = blocking_method serde rpc Method.trace_transaction
