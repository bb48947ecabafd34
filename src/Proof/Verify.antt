-- ===== src/Proof/Verify.antt =====
-- `GetProofResult::verify` of src/proof.rs: the storage proof against the storage root of the
-- contract, then the contract's proof against the state root.
use beerus.Prelude.{
  ◌&&◌, Option, none, some, List, [], ◌∷◌, ◌++◌, if◌then◌else◌, text, str_eq, Outcome, ok, err,
  panic, ◌>>=◌, map_err, ok_or, Error, ℕ,
}
use beerus.Gen.Felt.{Felt}
use beerus.Gen.Keys.{StorageKey}
use beerus.Gen.Types.{Address, ContractData, GetProofResult}
use beerus.Util.{StarkCrypto, BitView}
use beerus.Proof.{parse_proof, field_element, hash_text, error_32700, no_field_element}

-- The first element; an empty list panics.
unfoldable pub first {ℓ} : {A : Type ℓ} → List A → Outcome Error A
first [] = panic
first (x ∷ xs) = ok x

-- The bytes of `b"STARKNET_STATE_V0"`.
abbrev pub starknet_state_v0 : List ℕ
starknet_state_v0 = text "STARKNET_STATE_V0"

module _ {F : Type 0} (crypto : StarkCrypto F) where
  open crypto use {pedersen_hash, poseidon_hash_many, field_zero, from_bytes_be_slice}

  -- The contract state hash is H(H(H(class hash, root), nonce), 0).
  unfoldable pub calculate_contract_state_hash : ContractData → Outcome Error Felt
  unfolding field_element
  calculate_contract_state_hash contract_data = do
    class_hash ← field_element crypto contract_data.class_hash.value
    root ← field_element crypto contract_data.root.value
    let hash = pedersen_hash class_hash root
    nonce ← field_element crypto contract_data.nonce.value
    map_err (λ _. no_field_element)
        (hash_text crypto (pedersen_hash (pedersen_hash hash nonce) field_zero))

  unfoldable pub calculate_global_root : Felt → Felt → Outcome Error Felt
  unfolding field_element
  calculate_global_root class_commitment storage_commitment = do
    let global_state_ver = from_bytes_be_slice starknet_state_v0
    storage ← field_element crypto storage_commitment.value
    classes ← field_element crypto class_commitment.value
    map_err (λ _. no_field_element)
        (hash_text crypto (poseidon_hash_many (global_state_ver ∷ storage ∷ classes ∷ [])))

module _ {F : Type 0} (crypto : StarkCrypto F) (bits : BitView) where
  unfoldable pub check_storage_root : Felt → Option Felt → Outcome Error (Unit {0})
  check_storage_root root none =
      err (error_32700 (text "Proof invalid for root -> " ++ (root.value ++ text "\n")))
  check_storage_root root (some computed_root) =
      if str_eq computed_root.value root.value
      then ok tt
      else err (
          error_32700 (
            text "Proof invalid:\nprovided-root -> "
            ++ (root.value ++ (text "\ncomputed-root -> " ++ (computed_root.value ++ text "\n")))))

  unfoldable pub verify_storage_proofs : ContractData → StorageKey → Felt → Outcome Error (Unit {0})
  unfolding first check_storage_root
  verify_storage_proofs contract_data key value = do
    proofs ← ok_or (error_32700 (text "No storage proof found")) contract_data.storage_proofs
    storage_proof ← first proofs
    computed ← parse_proof crypto bits key.value value storage_proof
    check_storage_root contract_data.root computed

  unfoldable pub check_global_root : GetProofResult → Felt → Option Felt → Outcome Error (Unit {0})
  check_global_root proof global_root none =
      err (error_32700 (text "Could not parse global root for root: " ++ global_root.value))
  check_global_root proof global_root (some storage_commitment) = do
    class_commitment ← ok_or (error_32700 (text "No class commitment")) proof.class_commitment
    parsed_global_root ←
        map_err (λ _. error_32700 (text "Failed to calculate global root"))
          (calculate_global_root crypto class_commitment storage_commitment)
    state_commitment ← ok_or (error_32700 (text "No state commitment")) proof.state_commitment
    if str_eq state_commitment.value parsed_global_root.value
          && str_eq global_root.value parsed_global_root.value
        then ok tt
        else err (
            error_32700 (
              text "Proof invalid:\nstate commitment -> "
              ++ (state_commitment.value
                  ++ (text "\nparsed global root -> "
                      ++ (parsed_global_root.value
                          ++ (text "\n global root -> " ++ global_root.value))))))

  unfoldable pub verify_contract_proof :
      GetProofResult → ContractData → Felt → Address → Outcome Error (Unit {0})
  unfolding check_global_root
  verify_contract_proof proof contract_data global_root contract_address = do
    state_hash ← calculate_contract_state_hash crypto contract_data
    computed ← parse_proof crypto bits contract_address.felt.value state_hash proof.contract_proof
    check_global_root proof global_root computed

  unfoldable pub verify :
      GetProofResult → Felt → Address → StorageKey → Felt → Outcome Error (Unit {0})
  unfolding verify_storage_proofs verify_contract_proof
  verify proof global_root contract_address key value = do
    contract_data ← ok_or (error_32700 (text "No contract data found")) proof.contract_data
    _ ← verify_storage_proofs contract_data key value
    verify_contract_proof proof contract_data global_root contract_address
