-- ===== src/Gen/Blocking/Txns.antt =====
-- The methods of the blocking client of src/gen.rs (`gen::client::blocking`) for transactions, calls and traces.
use beerus.Prelude.{List, Str, text}
use beerus.Prelude.Effects.{Io}
use beerus.Gen.Api.{Method}
use beerus.Gen.Answers.{GetTransactionByBlockIdAndIndexResult, GetTransactionByHashResult}
use beerus.Gen.Blocks.{BlockId, TxnHash}
use beerus.Gen.Broadcasts.{
  AddDeclareTransactionResult, AddDeployAccountTransactionResult, AddInvokeTransactionResult,
  BroadcastedDeclareTxn, BroadcastedDeployAccountTxn, BroadcastedInvokeTxn, BroadcastedTxn,
  SimulationFlag, SimulationFlagForEstimateFee,
}
use beerus.Gen.Events.{MsgFromL1}
use beerus.Gen.Fees.{FeeEstimate}
use beerus.Gen.Felt.{Felt}
use beerus.Gen.Numbers.{GetTransactionByBlockIdAndIndexIndex}
use beerus.Gen.Receipts.{GetTransactionStatusResult, TxGatewayStatus, TxnReceiptWithBlockInfo}
use beerus.Gen.Traces.{BlockTransactionTrace, SimulatedTransaction, TransactionTrace}
use beerus.Gen.Types.{FunctionCall}
use beerus.Gen.Client.{Serde, Request, Response}
use beerus.Gen.Blocking.Bodies.{blocking_call}

module _ {V W : Type 0} (serde : Serde V) (post : Str → Request V → Io W (Response V)) where
  unfoldable pub get_tx_status : Str → TxnHash → Io W TxGatewayStatus
  get_tx_status url transaction_hash =
      blocking_call serde post url (text "pathfinder_getTxStatus")
        (serde.args_to_value Method.get_tx_status transaction_hash)
        (serde.ret_from_value Method.get_tx_status)

  unfoldable pub add_declare_transaction :
      Str → BroadcastedDeclareTxn → Io W AddDeclareTransactionResult
  add_declare_transaction url declare_transaction =
      blocking_call serde post url (text "starknet_addDeclareTransaction")
        (serde.args_to_value Method.add_declare_transaction declare_transaction)
        (serde.ret_from_value Method.add_declare_transaction)

  unfoldable pub add_deploy_account_transaction :
      Str → BroadcastedDeployAccountTxn → Io W AddDeployAccountTransactionResult
  add_deploy_account_transaction url deploy_account_transaction =
      blocking_call serde post url (text "starknet_addDeployAccountTransaction")
        (serde.args_to_value Method.add_deploy_account_transaction deploy_account_transaction)
        (serde.ret_from_value Method.add_deploy_account_transaction)

  unfoldable pub add_invoke_transaction :
      Str → BroadcastedInvokeTxn → Io W AddInvokeTransactionResult
  add_invoke_transaction url invoke_transaction =
      blocking_call serde post url (text "starknet_addInvokeTransaction")
        (serde.args_to_value Method.add_invoke_transaction invoke_transaction)
        (serde.ret_from_value Method.add_invoke_transaction)

  unfoldable pub call : Str → FunctionCall → BlockId → Io W (List Felt)
  call url request block_id =
      blocking_call serde post url (text "starknet_call")
        (serde.args_to_value Method.call (request, block_id)) (serde.ret_from_value Method.call)

  unfoldable pub estimate_fee :
      Str
      → List BroadcastedTxn
      → List SimulationFlagForEstimateFee
      → BlockId
      → Io W (List FeeEstimate)
  estimate_fee url request simulation_flags block_id =
      blocking_call serde post url (text "starknet_estimateFee")
        (serde.args_to_value Method.estimate_fee (request, simulation_flags, block_id))
        (serde.ret_from_value Method.estimate_fee)

  unfoldable pub estimate_message_fee : Str → MsgFromL1 → BlockId → Io W FeeEstimate
  estimate_message_fee url message block_id =
      blocking_call serde post url (text "starknet_estimateMessageFee")
        (serde.args_to_value Method.estimate_message_fee (message, block_id))
        (serde.ret_from_value Method.estimate_message_fee)

  unfoldable pub get_transaction_by_block_id_and_index :
      Str
      → BlockId
      → GetTransactionByBlockIdAndIndexIndex
      → Io W GetTransactionByBlockIdAndIndexResult
  get_transaction_by_block_id_and_index url block_id index =
      blocking_call serde post url (text "starknet_getTransactionByBlockIdAndIndex")
        (serde.args_to_value Method.get_transaction_by_block_id_and_index (block_id, index))
        (serde.ret_from_value Method.get_transaction_by_block_id_and_index)

  unfoldable pub get_transaction_by_hash : Str → TxnHash → Io W GetTransactionByHashResult
  get_transaction_by_hash url transaction_hash =
      blocking_call serde post url (text "starknet_getTransactionByHash")
        (serde.args_to_value Method.get_transaction_by_hash transaction_hash)
        (serde.ret_from_value Method.get_transaction_by_hash)

  unfoldable pub get_transaction_receipt : Str → TxnHash → Io W TxnReceiptWithBlockInfo
  get_transaction_receipt url transaction_hash =
      blocking_call serde post url (text "starknet_getTransactionReceipt")
        (serde.args_to_value Method.get_transaction_receipt transaction_hash)
        (serde.ret_from_value Method.get_transaction_receipt)

  unfoldable pub get_transaction_status : Str → TxnHash → Io W GetTransactionStatusResult
  get_transaction_status url transaction_hash =
      blocking_call serde post url (text "starknet_getTransactionStatus")
        (serde.args_to_value Method.get_transaction_status transaction_hash)
        (serde.ret_from_value Method.get_transaction_status)

  unfoldable pub simulate_transactions :
      Str → BlockId → List BroadcastedTxn → List SimulationFlag → Io W (List SimulatedTransaction)
  simulate_transactions url block_id transactions simulation_flags =
      blocking_call serde post url (text "starknet_simulateTransactions")
        (serde.args_to_value Method.simulate_transactions
          (block_id, transactions, simulation_flags))
        (serde.ret_from_value Method.simulate_transactions)

  unfoldable pub trace_block_transactions : Str → BlockId → Io W (List BlockTransactionTrace)
  trace_block_transactions url block_id =
      blocking_call serde post url (text "starknet_traceBlockTransactions")
        (serde.args_to_value Method.trace_block_transactions block_id)
        (serde.ret_from_value Method.trace_block_transactions)

  unfoldable pub trace_transaction : Str → TxnHash → Io W TransactionTrace
  trace_transaction url transaction_hash =
      blocking_call serde post url (text "starknet_traceTransaction")
        (serde.args_to_value Method.trace_transaction transaction_hash)
        (serde.ret_from_value Method.trace_transaction)
