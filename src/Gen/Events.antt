-- ===== src/Gen/Events.antt =====
-- Types of src/gen.rs. Events and messages, and the question for a page of them.
use beerus.Prelude.{ℤ, Option, List, Str}
use beerus.Gen.Blocks.{BlockId, TxnHash}
use beerus.Gen.Felt.{Felt}
use beerus.Gen.Keys.{EthAddress}
use beerus.Gen.Numbers.{BlockNumber, ResultPageRequestChunkSize}
use beerus.Gen.Types.{Address, BlockHash}

pub record EventContent : Type 0 where
  pub event_data : List Felt
  pub keys : List Felt

pub record Event : Type 0 where
  pub from_address : Address
  pub event_content : EventContent

pub record EmittedEvent : Type 0 where
  pub event : Event
  pub block_hash : Option BlockHash
  pub block_number : Option BlockNumber
  pub transaction_hash : TxnHash

pub record EventFilter : Type 0 where
  pub address : Option Address
  pub from_block : Option BlockId
  pub keys : Option (List (List Felt))
  pub to_block : Option BlockId

pub record EventsChunk : Type 0 where
  pub continuation_token : Option Str
  pub events : List EmittedEvent

pub record MsgFromL1 : Type 0 where
  pub entry_point_selector : Felt
  pub from_address : EthAddress
  pub payload : List Felt
  pub to_address : Address

pub record MsgToL1 : Type 0 where
  pub from_address : Felt
  pub payload : List Felt
  pub to_address : Felt

pub record OrderedEvent : Type 0 where
  pub order : Option ℤ
  pub event : Event

pub record OrderedMessage : Type 0 where
  pub order : Option ℤ
  pub msg_to_l1 : MsgToL1

pub record ResultPageRequest : Type 0 where
  pub chunk_size : ResultPageRequestChunkSize
  pub continuation_token : Option Str

pub record GetEventsFilter : Type 0 where
  pub event_filter : EventFilter
  pub result_page_request : ResultPageRequest
