-- ===== src/Gen/Blocks.antt =====
-- How src/gen.rs names blocks, and the blocks with transaction hashes that a node answers with.
use beerus.Prelude.{Option, List, Str}
use beerus.Gen.Felt.{Felt}
use beerus.Gen.Numbers.{BlockNumber, BlockHeaderTimestamp, PendingBlockHeaderTimestamp}
use beerus.Gen.Types.{BlockHash}

pub data BlockTag : Type 0 where
  latest pending : BlockTag

pub data BlockId : Type 0 where
  block_hash : BlockHash → BlockId
  block_number : BlockNumber → BlockId
  block_tag : BlockTag → BlockId

pub data BlockStatus : Type 0 where
  pending accepted_on_l2 accepted_on_l1 rejected : BlockStatus

pub data BlockHeaderL1DaMode : Type 0 where
  blob calldata : BlockHeaderL1DaMode

pub record ResourcePrice : Type 0 where
  pub price_in_fri : Felt
  pub price_in_wei : Felt

pub record TxnHash : Type 0 where
  pub felt : Felt

pub record BlockBodyWithTxHashes : Type 0 where
  pub transactions : List TxnHash

pub record BlockHeader : Type 0 where
  pub block_hash : BlockHash
  pub block_number : BlockNumber
  pub l1_da_mode : Option BlockHeaderL1DaMode
  pub l1_data_gas_price : Option ResourcePrice
  pub l1_gas_price : ResourcePrice
  pub new_root : Felt
  pub parent_hash : BlockHash
  pub sequencer_address : Felt
  pub starknet_version : Str
  pub timestamp : BlockHeaderTimestamp

pub record BlockWithTxHashes : Type 0 where
  pub status : BlockStatus
  pub block_header : BlockHeader
  pub block_body_with_tx_hashes : BlockBodyWithTxHashes

pub data PendingBlockHeaderL1DaMode : Type 0 where
  blob calldata : PendingBlockHeaderL1DaMode

pub record PendingBlockHeader : Type 0 where
  pub l1_da_mode : PendingBlockHeaderL1DaMode
  pub l1_data_gas_price : ResourcePrice
  pub l1_gas_price : ResourcePrice
  pub parent_hash : BlockHash
  pub sequencer_address : Felt
  pub starknet_version : Str
  pub timestamp : PendingBlockHeaderTimestamp

pub record PendingBlockWithTxHashes : Type 0 where
  pub block_body_with_tx_hashes : BlockBodyWithTxHashes
  pub pending_block_header : PendingBlockHeader

pub data GetBlockWithTxHashesResult : Type 0 where
  block_with_tx_hashes : BlockWithTxHashes → GetBlockWithTxHashesResult
  pending_block_with_tx_hashes : PendingBlockWithTxHashes → GetBlockWithTxHashesResult
