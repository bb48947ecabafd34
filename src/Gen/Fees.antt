-- ===== src/Gen/Fees.antt =====
-- Types of src/gen.rs. What a transaction costs, and the resources that it uses.
use beerus.Prelude.{ℤ, Option}
use beerus.Gen.Felt.{Felt}
use beerus.Gen.Keys.{U128, U64}

pub record ComputationResources : Type 0 where
  pub bitwise_builtin_applications : Option ℤ
  pub ec_op_builtin_applications : Option ℤ
  pub ecdsa_builtin_applications : Option ℤ
  pub keccak_builtin_applications : Option ℤ
  pub memory_holes : Option ℤ
  pub pedersen_builtin_applications : Option ℤ
  pub poseidon_builtin_applications : Option ℤ
  pub range_check_builtin_applications : Option ℤ
  pub segment_arena_builtin : Option ℤ
  pub steps : ℤ

pub data DaMode : Type 0 where
  l1 l2 : DaMode

pub record ExecutionResourcesDataAvailability : Type 0 where
  pub l1_data_gas : ℤ
  pub l1_gas : ℤ

pub record ExecutionResources : Type 0 where
  pub computation_resources : ComputationResources
  pub data_availability : Option ExecutionResourcesDataAvailability

pub data PriceUnit : Type 0 where
  wei fri : PriceUnit

pub record FeeEstimate : Type 0 where
  pub data_gas_consumed : Option Felt
  pub data_gas_price : Option Felt
  pub gas_consumed : Felt
  pub gas_price : Felt
  pub overall_fee : Felt
  pub unit : PriceUnit

pub record FeePayment : Type 0 where
  pub amount : Felt
  pub unit : PriceUnit

pub record ResourceBounds : Type 0 where
  pub max_amount : U64
  pub max_price_per_unit : U128

pub record ResourceBoundsMapping : Type 0 where
  pub l1_gas : ResourceBounds
  pub l2_gas : ResourceBounds
