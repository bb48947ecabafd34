-- ===== src/Gen/Receipts.antt =====
-- Types of src/gen.rs. Receipts of transactions, and what became of them.
use beerus.Prelude.{Option, List, Str}
use beerus.Gen.Blocks.{TxnHash}
use beerus.Gen.Events.{Event, MsgToL1}
use beerus.Gen.Fees.{ExecutionResources, FeePayment}
use beerus.Gen.Felt.{Felt}
use beerus.Gen.Keys.{NumAsHex}
use beerus.Gen.Numbers.{BlockNumber}
use beerus.Gen.Transactions.{Txn}
use beerus.Gen.Types.{BlockHash}

pub data RevertedCommonReceiptPropertiesExecutionStatus : Type 0 where
  reverted : RevertedCommonReceiptPropertiesExecutionStatus

pub record RevertedCommonReceiptProperties : Type 0 where
  pub execution_status : RevertedCommonReceiptPropertiesExecutionStatus
  pub revert_reason : Str

pub data SuccessfulCommonReceiptPropertiesExecutionStatus : Type 0 where
  succeeded : SuccessfulCommonReceiptPropertiesExecutionStatus

pub record SuccessfulCommonReceiptProperties : Type 0 where
  pub execution_status : SuccessfulCommonReceiptPropertiesExecutionStatus

pub data ResultCommonReceiptProperties : Type 0 where
  successful_common_receipt_properties :
      SuccessfulCommonReceiptProperties → ResultCommonReceiptProperties
  reverted_common_receipt_properties :
      RevertedCommonReceiptProperties → ResultCommonReceiptProperties

pub data TxnFinalityStatus : Type 0 where
  accepted_on_l2 accepted_on_l1 : TxnFinalityStatus

pub record CommonReceiptProperties : Type 0 where
  pub actual_fee : FeePayment
  pub events : List Event
  pub execution_resources : ExecutionResources
  pub finality_status : TxnFinalityStatus
  pub messages_sent : List MsgToL1
  pub transaction_hash : TxnHash
  pub result_common_receipt_properties : ResultCommonReceiptProperties

pub data DeclareTxnReceiptType : Type 0 where
  declare : DeclareTxnReceiptType

pub record DeclareTxnReceipt : Type 0 where
  pub type : DeclareTxnReceiptType
  pub common_receipt_properties : CommonReceiptProperties

pub data DeployAccountTxnReceiptType : Type 0 where
  deploy_account : DeployAccountTxnReceiptType

pub record DeployAccountTxnReceipt : Type 0 where
  pub common_receipt_properties : CommonReceiptProperties
  pub contract_address : Felt
  pub type : DeployAccountTxnReceiptType

pub data DeployTxnReceiptType : Type 0 where
  deploy : DeployTxnReceiptType

pub record DeployTxnReceipt : Type 0 where
  pub common_receipt_properties : CommonReceiptProperties
  pub contract_address : Felt
  pub type : DeployTxnReceiptType

pub data InvokeTxnReceiptType : Type 0 where
  invoke : InvokeTxnReceiptType

pub record InvokeTxnReceipt : Type 0 where
  pub type : InvokeTxnReceiptType
  pub common_receipt_properties : CommonReceiptProperties

pub data L1HandlerTxnReceiptType : Type 0 where
  l1_handler : L1HandlerTxnReceiptType

pub record L1HandlerTxnReceipt : Type 0 where
  pub message_hash : NumAsHex
  pub type : L1HandlerTxnReceiptType
  pub common_receipt_properties : CommonReceiptProperties

pub data TxnReceipt : Type 0 where
  invoke_txn_receipt : InvokeTxnReceipt → TxnReceipt
  l1_handler_txn_receipt : L1HandlerTxnReceipt → TxnReceipt
  declare_txn_receipt : DeclareTxnReceipt → TxnReceipt
  deploy_txn_receipt : DeployTxnReceipt → TxnReceipt
  deploy_account_txn_receipt : DeployAccountTxnReceipt → TxnReceipt

pub record TransactionAndReceipt : Type 0 where
  pub receipt : TxnReceipt
  pub transaction : Txn

pub data TxGatewayStatus : Type 0 where
  not_received received pending rejected accepted_on_l1 accepted_on_l2 reverted aborted :
      TxGatewayStatus

pub data TxnExecutionStatus : Type 0 where
  succeeded reverted : TxnExecutionStatus

pub record TxnReceiptWithBlockInfo : Type 0 where
  pub txn_receipt : TxnReceipt
  pub block_hash : Option BlockHash
  pub block_number : Option BlockNumber

pub data TxnStatus : Type 0 where
  received rejected accepted_on_l2 accepted_on_l1 : TxnStatus

pub record GetTransactionStatusResult : Type 0 where
  pub execution_status : Option TxnExecutionStatus
  pub finality_status : TxnStatus
