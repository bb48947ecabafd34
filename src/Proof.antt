-- ===== src/Proof.antt =====
-- src/proof.rs: the check of a Merkle-Patricia proof. `parse_proof` hashes from the leaf towards the
-- root; `verify` runs it for the storage of a contract and for the contract itself.
-- The integers wrap around, as they do in a release build, and `usize` has 64 bits.
pub mod Verify
pub mod Steps
pub mod Binding
pub mod Forge
pub mod Trie
pub mod Complete
pub mod Accepted
pub mod Honest
pub mod Returns
pub mod OffKey
pub mod Total
pub mod Panics
pub mod Nodes
pub mod Descent
pub mod Sound
pub mod Forged
pub mod Genuine
pub mod State
pub mod Truncated
pub mod Whole
use Prim.Native.String.{String}
use beerus.Prelude.{
  ℕ, zero, suc, ◌+◌, ◌-◌, ◌%◌, ◌^◌, Bool, true, false, not, ◌&&◌, ◌||◌, Option, none, some, List,
  [], ◌∷◌, ◌++◌, map, reverse, ◌==◌, if◌then◌else◌, length, get_elem?, Str, text, str_eq, Outcome,
  ok, err, panic, ◌>>=◌, map_err, ok_or, Error, ℤ, negsuc,
}
use beerus.Gen.Felt
use beerus.Gen.Felt.{Felt}
use beerus.Gen.Keys.{StorageKey}
use beerus.Gen.Types.{
  Address, EdgeNode, EdgeNodeEdge, BinaryNode, Node, binary_node, edge_node, Proof, ContractData,
  GetProofResult,
}
use beerus.Util.{StarkCrypto, BitView, felt_to_bits, felt_from_bits}

-- `jsonrpc::Error::new(code, message)`, for the codes -32700 and -32701.
abbrev pub error_32700 : Str → Error
error_32700 message = record { code = negsuc 32699; message = message }

abbrev pub no_field_element : Error
no_field_element = record { code = negsuc 32700; message = text "Failed to create Field Element" }

pub data Direction : Type 0 where
  left right : Direction

unfoldable pub direction : Bool → Direction
direction true = right
direction false = left

-- `251 - n as usize`, and `+=` on an `i64`, by their 64-bit patterns.
abbrev pub from_251 : ℕ → ℕ
from_251 n = (251 + 2 ^ 64 - n % 2 ^ 64) % 2 ^ 64

abbrev pub add_i64 : ℕ → ℕ → ℕ
add_i64 a b = (a + b) % 2 ^ 64

-- The two variables of the loop.
pub record Walk (F : Type 0) : Type 0 where
  pub hold : F
  pub path_len : ℕ

module _ {F : Type 0} (crypto : StarkCrypto F) where
  unfoldable pub field_element : Str → Outcome Error F
  field_element s = ok_or no_field_element (crypto.from_hex s)

  -- `Felt::try_new(&format!("0x{:x}", hash))`
  unfoldable pub hash_text : F → Outcome Error Felt
  unfolding Felt.try_new
  hash_text hash = Felt.try_new (text "0x" ++ crypto.to_hex hash)

  -- What follows the loop: the hash at the top, or the `None` of an early return.
  unfoldable pub finish : Option (Walk F) → Outcome Error (Option Felt)
  unfolding hash_text
  finish none = ok none
  finish (some w) = do root ← hash_text w.hold; ok (some root)

module _ {F : Type 0} (crypto : StarkCrypto F) (bits : BitView) where
  open crypto use {field_eq, field_add, from_u64, pedersen_hash}

  -- The test of the leaf edge: `none` is an early `return Ok(None)`.
  check_leaf : List Bool → ℕ → F → F → Walk F → Outcome Error (Option (Walk F))
  check_leaf key len value provided next =
      elim (felt_from_bits bits crypto key (some (from_251 len))) [
        | ok masked_key ↦
            if field_eq provided (field_add (pedersen_hash value masked_key) (from_u64 len))
            then ok (some next)
            else ok none
        | err _ ↦ ok none
        | panic ↦ panic
      ]

  -- The body of the loop at an edge node; `i` is the counter of `enumerate`.
  unfoldable pub visit_edge :
      List Bool → F → ℕ → EdgeNodeEdge → Walk F → Outcome Error (Option (Walk F))
  unfolding field_element check_leaf
  visit_edge key value i edge w = do
    child_felt ← field_element crypto edge.child.value
    path_value ← field_element crypto edge.path.value.value
    let provided_hash = field_add (pedersen_hash child_felt path_value) (from_u64 edge.path.len)
    let next : Walk F = record { hold = provided_hash; path_len = add_i64 w.path_len edge.path.len }
    if i == 0 then check_leaf key edge.path.len value provided_hash next else ok (some next)

  unfoldable pub expected_hash : Direction → F → F → F → F
  expected_hash left hold left_felt right_felt = pedersen_hash hold right_felt
  expected_hash right hold left_felt right_felt = pedersen_hash left_felt hold

  -- The body of the loop at a binary node; an index out of range panics.
  unfoldable pub visit_binary : List Bool → BinaryNode → Walk F → Outcome Error (Option (Walk F))
  unfolding field_element expected_hash direction
  visit_binary key node w = do
    let path_len = add_i64 w.path_len 1
    left_felt ← field_element crypto node.binary.left.value
    right_felt ← field_element crypto node.binary.right.value
    flag ← elim (get_elem? key (from_251 path_len)) [ none ↦ panic | some b ↦ ok b ]
    let hold = pedersen_hash left_felt right_felt
    if field_eq hold (expected_hash (direction flag) w.hold left_felt right_felt)
        then ok (some (record { hold = hold; path_len = path_len }))
        else ok none

  unfoldable pub visit : List Bool → F → ℕ → Node → Walk F → Outcome Error (Option (Walk F))
  unfolding visit_edge visit_binary
  visit key value i (edge_node node) w = visit_edge key value i node.edge w
  visit key value i (binary_node node) w = visit_binary key node w

  -- The loop over the reversed proof.
  unfoldable pub climb : List Bool → F → ℕ → List Node → Walk F → Outcome Error (Option (Walk F))
  climb key value i [] w = ok (some w)
  climb key value i (node ∷ nodes) w = do
    step ← visit key value i node w
    elim step [ none ↦ ok none | some w' ↦ climb key value (suc i) nodes w' ]

  unfoldable pub parse_proof : Str → Felt → Proof → Outcome Error (Option Felt)
  parse_proof key value proof = do
    key_felt ← field_element crypto key
    let key_bits = felt_to_bits bits (crypto.to_bytes_be key_felt)
    if not (length key_bits == 251) then ok none else (do
      value_felt ← field_element crypto value.value
      end ← climb key_bits value_felt 0 (reverse proof) (record { hold = value_felt; path_len = 0 })
      finish crypto end)
