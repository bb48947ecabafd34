-- ===== src/Gen/Types.antt =====
-- The types of src/gen.rs that the modelled code builds and takes apart: Merkle proofs, addresses
-- and keys. Serde's (de)serialisers of them are not modelled here.
use beerus.Prelude.{ℕ, Option, List}
use beerus.Gen.Felt.{Felt}

pub record Address : Type 0 where
  pub felt : Felt

pub record BlockHash : Type 0 where
  pub felt : Felt

-- `len` is an `i64`, given by its 64-bit pattern.
pub record EdgeNodePath : Type 0 where
  pub len : ℕ
  pub value : Felt

pub record EdgeNodeEdge : Type 0 where
  pub child : Felt
  pub path : EdgeNodePath

pub record EdgeNode : Type 0 where
  pub edge : EdgeNodeEdge

pub record BinaryNodeBinary : Type 0 where
  pub left : Felt
  pub right : Felt

pub record BinaryNode : Type 0 where
  pub binary : BinaryNodeBinary

pub data Node : Type 0 where
  binary_node : BinaryNode → Node
  edge_node : EdgeNode → Node

abbrev pub Proof : Type 0
Proof = List Node

pub record ContractData : Type 0 where
  pub class_hash : Felt
  pub contract_state_hash_version : Felt
  pub nonce : Felt
  pub root : Felt
  pub storage_proofs : Option (List Proof)

pub record GetProofResult : Type 0 where
  pub class_commitment : Option Felt
  pub contract_data : Option ContractData
  pub contract_proof : Proof
  pub state_commitment : Option Felt

pub record FunctionCall : Type 0 where
  pub calldata : List Felt
  pub contract_address : Address
  pub entry_point_selector : Felt
