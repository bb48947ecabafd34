-- ===== src/Gen/Answers.antt =====
-- Types of src/gen.rs. Blocks with transactions, and the other answers of a node.
use beerus.Prelude.{Bool, List}
use beerus.Gen.Blocks.{BlockHeader, BlockStatus, PendingBlockHeader, TxnHash}
use beerus.Gen.Numbers.{BlockNumber}
use beerus.Gen.Receipts.{TransactionAndReceipt}
use beerus.Gen.Transactions.{Txn}
use beerus.Gen.Types.{BlockHash}

pub record BlockBodyWithReceipts : Type 0 where
  pub transactions : List TransactionAndReceipt

pub record TransactionsInBlock : Type 0 where
  pub txn : Txn
  pub transaction_hash : TxnHash

pub record BlockBodyWithTxs : Type 0 where
  pub transactions : List TransactionsInBlock

pub record BlockWithReceipts : Type 0 where
  pub status : BlockStatus
  pub block_header : BlockHeader
  pub block_body_with_receipts : BlockBodyWithReceipts

pub record BlockWithTxs : Type 0 where
  pub status : BlockStatus
  pub block_header : BlockHeader
  pub block_body_with_txs : BlockBodyWithTxs

pub record PendingBlockWithReceipts : Type 0 where
  pub block_body_with_receipts : BlockBodyWithReceipts
  pub pending_block_header : PendingBlockHeader

pub record PendingBlockWithTxs : Type 0 where
  pub block_body_with_txs : BlockBodyWithTxs
  pub pending_block_header : PendingBlockHeader

pub record SyncStatus : Type 0 where
  pub current_block_hash : BlockHash
  pub current_block_num : BlockNumber
  pub highest_block_hash : BlockHash
  pub highest_block_num : BlockNumber
  pub starting_block_hash : BlockHash
  pub starting_block_num : BlockNumber

pub data GetBlockWithTxsResult : Type 0 where
  block_with_txs : BlockWithTxs → GetBlockWithTxsResult
  pending_block_with_txs : PendingBlockWithTxs → GetBlockWithTxsResult

pub data GetBlockWithReceiptsResult : Type 0 where
  block_with_receipts : BlockWithReceipts → GetBlockWithReceiptsResult
  pending_block_with_receipts : PendingBlockWithReceipts → GetBlockWithReceiptsResult

pub record GetTransactionByHashResult : Type 0 where
  pub txn : Txn
  pub transaction_hash : TxnHash

pub record GetTransactionByBlockIdAndIndexResult : Type 0 where
  pub txn : Txn
  pub transaction_hash : TxnHash

pub record BlockHashAndNumberResult : Type 0 where
  pub block_hash : BlockHash
  pub block_number : BlockNumber

pub data SyncingResult : Type 0 where
  false : Bool → SyncingResult
  sync_status : SyncStatus → SyncingResult
