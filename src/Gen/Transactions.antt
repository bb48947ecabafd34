-- ===== src/Gen/Transactions.antt =====
-- Types of src/gen.rs. Transactions as a node keeps them.
use beerus.Prelude.{List}
use beerus.Gen.Fees.{DaMode, ResourceBoundsMapping}
use beerus.Gen.Felt.{Felt}
use beerus.Gen.Keys.{NumAsHex, U64}
use beerus.Gen.Types.{Address, FunctionCall}

pub data DeclareTxnV0Type : Type 0 where
  declare : DeclareTxnV0Type

pub data DeclareTxnV0Version : Type 0 where
  v0x0 v0x100000000000000000000000000000000 : DeclareTxnV0Version

abbrev pub Signature : Type 0
Signature = List Felt

pub record DeclareTxnV0 : Type 0 where
  pub class_hash : Felt
  pub max_fee : Felt
  pub type : DeclareTxnV0Type
  pub sender_address : Address
  pub signature : Signature
  pub version : DeclareTxnV0Version

pub data DeclareTxnV1Type : Type 0 where
  declare : DeclareTxnV1Type

pub data DeclareTxnV1Version : Type 0 where
  v0x1 v0x100000000000000000000000000000001 : DeclareTxnV1Version

pub record DeclareTxnV1 : Type 0 where
  pub class_hash : Felt
  pub max_fee : Felt
  pub nonce : Felt
  pub type : DeclareTxnV1Type
  pub sender_address : Address
  pub signature : Signature
  pub version : DeclareTxnV1Version

pub data DeclareTxnV2Type : Type 0 where
  declare : DeclareTxnV2Type

pub data DeclareTxnV2Version : Type 0 where
  v0x2 v0x100000000000000000000000000000002 : DeclareTxnV2Version

pub record DeclareTxnV2 : Type 0 where
  pub class_hash : Felt
  pub compiled_class_hash : Felt
  pub max_fee : Felt
  pub nonce : Felt
  pub type : DeclareTxnV2Type
  pub sender_address : Address
  pub signature : Signature
  pub version : DeclareTxnV2Version

pub data DeclareTxnV3Type : Type 0 where
  declare : DeclareTxnV3Type

pub data DeclareTxnV3Version : Type 0 where
  v0x3 v0x100000000000000000000000000000003 : DeclareTxnV3Version

pub record DeclareTxnV3 : Type 0 where
  pub account_deployment_data : List Felt
  pub class_hash : Felt
  pub compiled_class_hash : Felt
  pub fee_data_availability_mode : DaMode
  pub nonce : Felt
  pub nonce_data_availability_mode : DaMode
  pub paymaster_data : List Felt
  pub type : DeclareTxnV3Type
  pub resource_bounds : ResourceBoundsMapping
  pub sender_address : Address
  pub signature : Signature
  pub tip : U64
  pub version : DeclareTxnV3Version

pub data DeclareTxn : Type 0 where
  declare_txn_v0 : DeclareTxnV0 → DeclareTxn
  declare_txn_v1 : DeclareTxnV1 → DeclareTxn
  declare_txn_v2 : DeclareTxnV2 → DeclareTxn
  declare_txn_v3 : DeclareTxnV3 → DeclareTxn

pub data DeployAccountTxnV1Type : Type 0 where
  deploy_account : DeployAccountTxnV1Type

pub data DeployAccountTxnV1Version : Type 0 where
  v0x1 v0x100000000000000000000000000000001 : DeployAccountTxnV1Version

pub record DeployAccountTxnV1 : Type 0 where
  pub class_hash : Felt
  pub constructor_calldata : List Felt
  pub contract_address_salt : Felt
  pub max_fee : Felt
  pub nonce : Felt
  pub type : DeployAccountTxnV1Type
  pub signature : Signature
  pub version : DeployAccountTxnV1Version

pub data DeployAccountTxnV3Type : Type 0 where
  deploy_account : DeployAccountTxnV3Type

pub data DeployAccountTxnV3Version : Type 0 where
  v0x3 v0x100000000000000000000000000000003 : DeployAccountTxnV3Version

pub record DeployAccountTxnV3 : Type 0 where
  pub class_hash : Felt
  pub constructor_calldata : List Felt
  pub contract_address_salt : Felt
  pub fee_data_availability_mode : DaMode
  pub nonce : Felt
  pub nonce_data_availability_mode : DaMode
  pub paymaster_data : List Felt
  pub type : DeployAccountTxnV3Type
  pub resource_bounds : ResourceBoundsMapping
  pub signature : Signature
  pub tip : U64
  pub version : DeployAccountTxnV3Version

pub data DeployAccountTxn : Type 0 where
  deploy_account_txn_v1 : DeployAccountTxnV1 → DeployAccountTxn
  deploy_account_txn_v3 : DeployAccountTxnV3 → DeployAccountTxn

pub data DeployTxnType : Type 0 where
  deploy : DeployTxnType

pub record DeployTxn : Type 0 where
  pub class_hash : Felt
  pub constructor_calldata : List Felt
  pub contract_address_salt : Felt
  pub type : DeployTxnType
  pub version : Felt

pub data InvokeTxnV0Type : Type 0 where
  invoke : InvokeTxnV0Type

pub data InvokeTxnV0Version : Type 0 where
  v0x0 v0x100000000000000000000000000000000 : InvokeTxnV0Version

pub record InvokeTxnV0 : Type 0 where
  pub calldata : List Felt
  pub contract_address : Address
  pub entry_point_selector : Felt
  pub max_fee : Felt
  pub type : InvokeTxnV0Type
  pub signature : Signature
  pub version : InvokeTxnV0Version

pub data InvokeTxnV1Type : Type 0 where
  invoke : InvokeTxnV1Type

pub data InvokeTxnV1Version : Type 0 where
  v0x1 v0x100000000000000000000000000000001 : InvokeTxnV1Version

pub record InvokeTxnV1 : Type 0 where
  pub calldata : List Felt
  pub max_fee : Felt
  pub nonce : Felt
  pub type : InvokeTxnV1Type
  pub sender_address : Address
  pub signature : Signature
  pub version : InvokeTxnV1Version

pub data InvokeTxnV3Type : Type 0 where
  invoke : InvokeTxnV3Type

pub data InvokeTxnV3Version : Type 0 where
  v0x3 v0x100000000000000000000000000000003 : InvokeTxnV3Version

pub record InvokeTxnV3 : Type 0 where
  pub account_deployment_data : List Felt
  pub calldata : List Felt
  pub fee_data_availability_mode : DaMode
  pub nonce : Felt
  pub nonce_data_availability_mode : DaMode
  pub paymaster_data : List Felt
  pub type : InvokeTxnV3Type
  pub resource_bounds : ResourceBoundsMapping
  pub sender_address : Address
  pub signature : Signature
  pub tip : U64
  pub version : InvokeTxnV3Version

pub data InvokeTxn : Type 0 where
  invoke_txn_v0 : InvokeTxnV0 → InvokeTxn
  invoke_txn_v1 : InvokeTxnV1 → InvokeTxn
  invoke_txn_v3 : InvokeTxnV3 → InvokeTxn

pub data L1HandlerTxnType : Type 0 where
  l1_handler : L1HandlerTxnType

pub data L1HandlerTxnVersion : Type 0 where
  v0x0 : L1HandlerTxnVersion

pub record L1HandlerTxn : Type 0 where
  pub nonce : NumAsHex
  pub type : L1HandlerTxnType
  pub version : L1HandlerTxnVersion
  pub function_call : FunctionCall

pub data Txn : Type 0 where
  invoke_txn : InvokeTxn → Txn
  l1_handler_txn : L1HandlerTxn → Txn
  declare_txn : DeclareTxn → Txn
  deploy_txn : DeployTxn → Txn
  deploy_account_txn : DeployAccountTxn → Txn

pub data TxnType : Type 0 where
  declare deploy deploy_account invoke l1_handler : TxnType
