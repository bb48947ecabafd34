-- ===== src/Gen/Updates.antt =====
-- Types of src/gen.rs. Differences between states.
use beerus.Prelude.{Option, List}
use beerus.Gen.Felt.{Felt}
use beerus.Gen.Types.{Address, BlockHash}

pub record StorageDiffItem : Type 0 where
  pub key : Option Felt
  pub value : Option Felt

pub record ContractStorageDiffItem : Type 0 where
  pub address : Felt
  pub storage_entries : List StorageDiffItem

pub record DeployedContractItem : Type 0 where
  pub address : Felt
  pub class_hash : Felt

pub record NewClasses : Type 0 where
  pub class_hash : Option Felt
  pub compiled_class_hash : Option Felt

pub record NonceUpdate : Type 0 where
  pub contract_address : Option Address
  pub nonce : Option Felt

pub record ReplacedClass : Type 0 where
  pub class_hash : Option Felt
  pub contract_address : Option Address

pub record StateDiff : Type 0 where
  pub declared_classes : List NewClasses
  pub deployed_contracts : List DeployedContractItem
  pub deprecated_declared_classes : List Felt
  pub nonces : List NonceUpdate
  pub replaced_classes : List ReplacedClass
  pub storage_diffs : List ContractStorageDiffItem

pub record PendingStateUpdate : Type 0 where
  pub old_root : Felt
  pub state_diff : StateDiff

pub record StateUpdate : Type 0 where
  pub block_hash : BlockHash
  pub new_root : Felt
  pub old_root : Felt
  pub state_diff : StateDiff

pub data GetStateUpdateResult : Type 0 where
  state_update : StateUpdate → GetStateUpdateResult
  pending_state_update : PendingStateUpdate → GetStateUpdateResult
