-- ===== src/Gen/Classes.antt =====
-- Types of src/gen.rs. Contract classes, the deprecated ones with their interfaces.
use beerus.Prelude.{ℤ, Option, List, Str}
use beerus.Gen.Felt.{Felt}
use beerus.Gen.Keys.{DeprecatedContractClassProgram, NumAsHex}
use beerus.Gen.Numbers.{StructAbiEntrySize}

pub data EventAbiType : Type 0 where
  event : EventAbiType

pub record TypedParameter : Type 0 where
  pub name : Str
  pub type : Str

pub record EventAbiEntry : Type 0 where
  pub event_data : List TypedParameter
  pub keys : List TypedParameter
  pub name : Str
  pub type : EventAbiType

pub data FunctionAbiType : Type 0 where
  function l1_handler constructor : FunctionAbiType

pub data FunctionStateMutability : Type 0 where
  view : FunctionStateMutability

pub record FunctionAbiEntry : Type 0 where
  pub inputs : List TypedParameter
  pub name : Str
  pub outputs : List TypedParameter
  pub type : FunctionAbiType
  pub statemutability : Option FunctionStateMutability

pub data StructAbiType : Type 0 where
  struct : StructAbiType

pub record StructMember : Type 0 where
  pub typed_parameter : TypedParameter
  pub offset : Option ℤ

pub record StructAbiEntry : Type 0 where
  pub members : List StructMember
  pub name : Str
  pub type : StructAbiType
  pub size : StructAbiEntrySize

pub data ContractAbiEntry : Type 0 where
  function_abi_entry : FunctionAbiEntry → ContractAbiEntry
  event_abi_entry : EventAbiEntry → ContractAbiEntry
  struct_abi_entry : StructAbiEntry → ContractAbiEntry

abbrev pub ContractAbi : Type 0
ContractAbi = List ContractAbiEntry

pub record SierraEntryPoint : Type 0 where
  pub function_idx : ℤ
  pub selector : Felt

pub record ContractClassEntryPointsByType : Type 0 where
  pub constructor : List SierraEntryPoint
  pub external : List SierraEntryPoint
  pub l1_handler : List SierraEntryPoint

pub record ContractClass : Type 0 where
  pub abi : Option Str
  pub contract_class_version : Str
  pub entry_points_by_type : ContractClassEntryPointsByType
  pub sierra_program : List Felt

pub record DeprecatedCairoEntryPoint : Type 0 where
  pub offset : NumAsHex
  pub selector : Felt

pub record DeprecatedContractClassEntryPointsByType : Type 0 where
  pub constructor : Option (List DeprecatedCairoEntryPoint)
  pub external : Option (List DeprecatedCairoEntryPoint)
  pub l1_handler : Option (List DeprecatedCairoEntryPoint)

pub record DeprecatedContractClass : Type 0 where
  pub abi : Option ContractAbi
  pub entry_points_by_type : DeprecatedContractClassEntryPointsByType
  pub program : DeprecatedContractClassProgram

pub data EntryPointType : Type 0 where
  external l1_handler constructor : EntryPointType

pub data GetClassResult : Type 0 where
  deprecated_contract_class : DeprecatedContractClass → GetClassResult
  contract_class : ContractClass → GetClassResult

pub data GetClassAtResult : Type 0 where
  deprecated_contract_class : DeprecatedContractClass → GetClassAtResult
  contract_class : ContractClass → GetClassAtResult
