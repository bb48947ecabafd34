-- ===== src/Gen/Api.antt =====
-- The trait `Rpc` of src/gen.rs: the methods of the JSON-RPC specification, with their arguments and
-- results.
pub mod Names
use beerus.Prelude.{List, Str}
use beerus.Prelude.Effects.{Io}
use beerus.Gen.Answers.{
  BlockHashAndNumberResult, GetBlockWithReceiptsResult, GetBlockWithTxsResult,
  GetTransactionByBlockIdAndIndexResult, GetTransactionByHashResult, SyncingResult,
}
use beerus.Gen.Blocks.{BlockId, GetBlockWithTxHashesResult, TxnHash}
use beerus.Gen.Broadcasts.{
  AddDeclareTransactionResult, AddDeployAccountTransactionResult, AddInvokeTransactionResult,
  BroadcastedDeclareTxn, BroadcastedDeployAccountTxn, BroadcastedInvokeTxn, BroadcastedTxn,
  SimulationFlag, SimulationFlagForEstimateFee,
}
use beerus.Gen.Classes.{GetClassAtResult, GetClassResult}
use beerus.Gen.Events.{EventsChunk, GetEventsFilter, MsgFromL1}
use beerus.Gen.Fees.{FeeEstimate}
use beerus.Gen.Felt.{Felt}
use beerus.Gen.Keys.{ChainId, StorageKey}
use beerus.Gen.Numbers.{
  BlockNumber, GetBlockTransactionCountResult, GetTransactionByBlockIdAndIndexIndex,
}
use beerus.Gen.Receipts.{GetTransactionStatusResult, TxGatewayStatus, TxnReceiptWithBlockInfo}
use beerus.Gen.Traces.{BlockTransactionTrace, SimulatedTransaction, TransactionTrace}
use beerus.Gen.Types.{Address, FunctionCall, GetProofResult}
use beerus.Gen.Updates.{GetStateUpdateResult}

pub data Method : Type 0 where
  get_proof get_tx_status version add_declare_transaction add_deploy_account_transaction
        add_invoke_transaction block_hash_and_number block_number call chain_id estimate_fee
        estimate_message_fee get_block_transaction_count get_block_with_receipts
        get_block_with_tx_hashes get_block_with_txs get_class get_class_at get_class_hash_at
        get_events get_nonce get_state_update get_storage_at get_transaction_by_block_id_and_index
        get_transaction_by_hash get_transaction_receipt get_transaction_status simulate_transactions
        spec_version syncing trace_block_transactions trace_transaction :
      Method

-- The arguments, in the order of the signature.
abbrev pub Args : Method → Type 0
Args Method.get_proof = BlockId × Address × List StorageKey
Args Method.get_tx_status = TxnHash
Args Method.version = Unit {0}
Args Method.add_declare_transaction = BroadcastedDeclareTxn
Args Method.add_deploy_account_transaction = BroadcastedDeployAccountTxn
Args Method.add_invoke_transaction = BroadcastedInvokeTxn
Args Method.block_hash_and_number = Unit {0}
Args Method.block_number = Unit {0}
Args Method.call = FunctionCall × BlockId
Args Method.chain_id = Unit {0}
Args Method.estimate_fee = List BroadcastedTxn × List SimulationFlagForEstimateFee × BlockId
Args Method.estimate_message_fee = MsgFromL1 × BlockId
Args Method.get_block_transaction_count = BlockId
Args Method.get_block_with_receipts = BlockId
Args Method.get_block_with_tx_hashes = BlockId
Args Method.get_block_with_txs = BlockId
Args Method.get_class = BlockId × Felt
Args Method.get_class_at = BlockId × Address
Args Method.get_class_hash_at = BlockId × Address
Args Method.get_events = GetEventsFilter
Args Method.get_nonce = BlockId × Address
Args Method.get_state_update = BlockId
Args Method.get_storage_at = Address × StorageKey × BlockId
Args Method.get_transaction_by_block_id_and_index = BlockId × GetTransactionByBlockIdAndIndexIndex
Args Method.get_transaction_by_hash = TxnHash
Args Method.get_transaction_receipt = TxnHash
Args Method.get_transaction_status = TxnHash
Args Method.simulate_transactions = BlockId × List BroadcastedTxn × List SimulationFlag
Args Method.spec_version = Unit {0}
Args Method.syncing = Unit {0}
Args Method.trace_block_transactions = BlockId
Args Method.trace_transaction = TxnHash

abbrev pub Ret : Method → Type 0
Ret Method.get_proof = GetProofResult
Ret Method.get_tx_status = TxGatewayStatus
Ret Method.version = Str
Ret Method.add_declare_transaction = AddDeclareTransactionResult
Ret Method.add_deploy_account_transaction = AddDeployAccountTransactionResult
Ret Method.add_invoke_transaction = AddInvokeTransactionResult
Ret Method.block_hash_and_number = BlockHashAndNumberResult
Ret Method.block_number = BlockNumber
Ret Method.call = List Felt
Ret Method.chain_id = ChainId
Ret Method.estimate_fee = List FeeEstimate
Ret Method.estimate_message_fee = FeeEstimate
Ret Method.get_block_transaction_count = GetBlockTransactionCountResult
Ret Method.get_block_with_receipts = GetBlockWithReceiptsResult
Ret Method.get_block_with_tx_hashes = GetBlockWithTxHashesResult
Ret Method.get_block_with_txs = GetBlockWithTxsResult
Ret Method.get_class = GetClassResult
Ret Method.get_class_at = GetClassAtResult
Ret Method.get_class_hash_at = Felt
Ret Method.get_events = EventsChunk
Ret Method.get_nonce = Felt
Ret Method.get_state_update = GetStateUpdateResult
Ret Method.get_storage_at = Felt
Ret Method.get_transaction_by_block_id_and_index = GetTransactionByBlockIdAndIndexResult
Ret Method.get_transaction_by_hash = GetTransactionByHashResult
Ret Method.get_transaction_receipt = TxnReceiptWithBlockInfo
Ret Method.get_transaction_status = GetTransactionStatusResult
Ret Method.simulate_transactions = List SimulatedTransaction
Ret Method.spec_version = Str
Ret Method.syncing = SyncingResult
Ret Method.trace_block_transactions = List BlockTransactionTrace
Ret Method.trace_transaction = TransactionTrace

-- An implementation of the trait, over a world `W` outside.
abbrev pub Rpc : Type 0 → Type 0
Rpc W = (m : Method) → Args m → Io W (Ret m)
