-- ===== src/Rpc/Txns.antt =====
-- The methods of src/rpc.rs that are passed on to the node: transactions, fees and traces.
use beerus.Prelude.{List, Str}
use beerus.Prelude.Effects.{Io}
use beerus.Gen.Answers.{GetTransactionByBlockIdAndIndexResult, GetTransactionByHashResult}
use beerus.Gen.Blocks.{BlockId, TxnHash}
use beerus.Gen.Broadcasts.{
  AddDeclareTransactionResult, AddDeployAccountTransactionResult, AddInvokeTransactionResult,
  BroadcastedDeclareTxn, BroadcastedDeployAccountTxn, BroadcastedInvokeTxn, BroadcastedTxn,
  SimulationFlag, SimulationFlagForEstimateFee,
}
use beerus.Gen.Events.{MsgFromL1}
use beerus.Gen.Fees.{FeeEstimate}
use beerus.Gen.Numbers.{GetTransactionByBlockIdAndIndexIndex}
use beerus.Gen.Receipts.{GetTransactionStatusResult, TxGatewayStatus, TxnReceiptWithBlockInfo}
use beerus.Gen.Traces.{BlockTransactionTrace, SimulatedTransaction, TransactionTrace}
use beerus.Gen.Client.{Serde, Request, Response}
use beerus.Gen.Client.Txns.{
  get_tx_status, add_declare_transaction, add_deploy_account_transaction, add_invoke_transaction,
  estimate_fee, estimate_message_fee, get_transaction_by_block_id_and_index,
  get_transaction_by_hash, get_transaction_receipt, get_transaction_status, simulate_transactions,
  trace_block_transactions, trace_transaction,
}

module _ {V W : Type 0} (serde : Serde V) (post : Str → Request V → Io W (Response V))
    (url : Str) where
  unfoldable pub context_get_tx_status : TxnHash → Io W TxGatewayStatus
  context_get_tx_status transaction_hash = get_tx_status serde post url transaction_hash

  unfoldable pub context_add_declare_transaction :
      BroadcastedDeclareTxn → Io W AddDeclareTransactionResult
  context_add_declare_transaction declare_transaction =
      add_declare_transaction serde post url declare_transaction

  unfoldable pub context_add_deploy_account_transaction :
      BroadcastedDeployAccountTxn → Io W AddDeployAccountTransactionResult
  context_add_deploy_account_transaction deploy_account_transaction =
      add_deploy_account_transaction serde post url deploy_account_transaction

  unfoldable pub context_add_invoke_transaction :
      BroadcastedInvokeTxn → Io W AddInvokeTransactionResult
  context_add_invoke_transaction invoke_transaction =
      add_invoke_transaction serde post url invoke_transaction

  unfoldable pub context_estimate_fee :
      List BroadcastedTxn → List SimulationFlagForEstimateFee → BlockId → Io W (List FeeEstimate)
  context_estimate_fee request simulation_flags block_id =
      estimate_fee serde post url request simulation_flags block_id

  unfoldable pub context_estimate_message_fee : MsgFromL1 → BlockId → Io W FeeEstimate
  context_estimate_message_fee message block_id =
      estimate_message_fee serde post url message block_id

  unfoldable pub context_get_transaction_by_block_id_and_index :
      BlockId → GetTransactionByBlockIdAndIndexIndex → Io W GetTransactionByBlockIdAndIndexResult
  context_get_transaction_by_block_id_and_index block_id index =
      get_transaction_by_block_id_and_index serde post url block_id index

  unfoldable pub context_get_transaction_by_hash : TxnHash → Io W GetTransactionByHashResult
  context_get_transaction_by_hash transaction_hash =
      get_transaction_by_hash serde post url transaction_hash

  unfoldable pub context_get_transaction_receipt : TxnHash → Io W TxnReceiptWithBlockInfo
  context_get_transaction_receipt transaction_hash =
      get_transaction_receipt serde post url transaction_hash

  unfoldable pub context_get_transaction_status : TxnHash → Io W GetTransactionStatusResult
  context_get_transaction_status transaction_hash =
      get_transaction_status serde post url transaction_hash

  unfoldable pub context_simulate_transactions :
      BlockId → List BroadcastedTxn → List SimulationFlag → Io W (List SimulatedTransaction)
  context_simulate_transactions block_id transactions simulation_flags =
      simulate_transactions serde post url block_id transactions simulation_flags

  unfoldable pub context_trace_block_transactions : BlockId → Io W (List BlockTransactionTrace)
  context_trace_block_transactions block_id = trace_block_transactions serde post url block_id

  unfoldable pub context_trace_transaction : TxnHash → Io W TransactionTrace
  context_trace_transaction transaction_hash = trace_transaction serde post url transaction_hash
