-- ===== src/Gen/Broadcasts.antt =====
-- Types of src/gen.rs. Transactions as a client sends them.
use beerus.Prelude.{List}
use beerus.Gen.Blocks.{TxnHash}
use beerus.Gen.Classes.{ContractClass, DeprecatedContractClass}
use beerus.Gen.Fees.{DaMode, ResourceBoundsMapping}
use beerus.Gen.Felt.{Felt}
use beerus.Gen.Keys.{U64}
use beerus.Gen.Transactions.{DeployAccountTxn, InvokeTxn, Signature}
use beerus.Gen.Types.{Address}

pub data BroadcastedDeclareTxnV1Type : Type 0 where
  declare : BroadcastedDeclareTxnV1Type

pub data BroadcastedDeclareTxnV1Version : Type 0 where
  v0x1 v0x100000000000000000000000000000001 : BroadcastedDeclareTxnV1Version

pub record BroadcastedDeclareTxnV1 : Type 0 where
  pub contract_class : DeprecatedContractClass
  pub max_fee : Felt
  pub nonce : Felt
  pub type : BroadcastedDeclareTxnV1Type
  pub sender_address : Address
  pub signature : Signature
  pub version : BroadcastedDeclareTxnV1Version

pub data BroadcastedDeclareTxnV2Type : Type 0 where
  declare : BroadcastedDeclareTxnV2Type

pub data BroadcastedDeclareTxnV2Version : Type 0 where
  v0x2 v0x100000000000000000000000000000002 : BroadcastedDeclareTxnV2Version

pub record BroadcastedDeclareTxnV2 : Type 0 where
  pub compiled_class_hash : Felt
  pub contract_class : ContractClass
  pub max_fee : Felt
  pub nonce : Felt
  pub type : BroadcastedDeclareTxnV2Type
  pub sender_address : Address
  pub signature : Signature
  pub version : BroadcastedDeclareTxnV2Version

pub data BroadcastedDeclareTxnV3Type : Type 0 where
  declare : BroadcastedDeclareTxnV3Type

pub data BroadcastedDeclareTxnV3Version : Type 0 where
  v0x3 v0x100000000000000000000000000000003 : BroadcastedDeclareTxnV3Version

pub record BroadcastedDeclareTxnV3 : Type 0 where
  pub account_deployment_data : List Felt
  pub compiled_class_hash : Felt
  pub contract_class : ContractClass
  pub fee_data_availability_mode : DaMode
  pub nonce : Felt
  pub nonce_data_availability_mode : DaMode
  pub paymaster_data : List Felt
  pub type : BroadcastedDeclareTxnV3Type
  pub resource_bounds : ResourceBoundsMapping
  pub sender_address : Address
  pub signature : Signature
  pub tip : U64
  pub version : BroadcastedDeclareTxnV3Version

pub data BroadcastedDeclareTxn : Type 0 where
  broadcasted_declare_txn_v1 : BroadcastedDeclareTxnV1 → BroadcastedDeclareTxn
  broadcasted_declare_txn_v2 : BroadcastedDeclareTxnV2 → BroadcastedDeclareTxn
  broadcasted_declare_txn_v3 : BroadcastedDeclareTxnV3 → BroadcastedDeclareTxn

pub record BroadcastedDeployAccountTxn : Type 0 where
  pub deploy_account_txn : DeployAccountTxn

pub record BroadcastedInvokeTxn : Type 0 where
  pub invoke_txn : InvokeTxn

pub data BroadcastedTxn : Type 0 where
  broadcasted_invoke_txn : BroadcastedInvokeTxn → BroadcastedTxn
  broadcasted_declare_txn : BroadcastedDeclareTxn → BroadcastedTxn
  broadcasted_deploy_account_txn : BroadcastedDeployAccountTxn → BroadcastedTxn

pub data SimulationFlag : Type 0 where
  skip_validate skip_fee_charge : SimulationFlag

pub data SimulationFlagForEstimateFee : Type 0 where
  skip_validate : SimulationFlagForEstimateFee

pub record AddInvokeTransactionResult : Type 0 where
  pub transaction_hash : TxnHash

pub record AddDeclareTransactionResult : Type 0 where
  pub class_hash : Felt
  pub transaction_hash : TxnHash

pub record AddDeployAccountTransactionResult : Type 0 where
  pub contract_address : Felt
  pub transaction_hash : TxnHash
