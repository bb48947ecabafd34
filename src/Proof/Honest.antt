-- ===== src/Proof/Honest.antt =====
-- `GetProofResult::verify` of src/proof.rs on what an honest node sends.
use beerus.Prelude.{◌≡◌, refl, ap, some, [], ◌∷◌, ok, map_err}
use beerus.Gen.Felt.{Felt}
use beerus.Gen.Keys.{StorageKey}
use beerus.Gen.Types.{Address, Proof, ContractData, GetProofResult}
use beerus.Util.{StarkCrypto, BitView, felt_to_bits}
use beerus.Util.Laws.{FieldLaws, BitLaws}
use beerus.Proof.{no_field_element}
use beerus.Proof.Steps.{felt_text, hash_text_lem}
use beerus.Proof.Trie.{Trie, Opens, trie_hash, prove}
use beerus.Proof.Complete.{parse_proof-prove}
use beerus.Proof.Accepted.{verify_iff}
use beerus.Proof.Verify.{
  calculate_contract_state_hash, calculate_global_root, verify, starknet_state_v0,
}

-- A contract as the state keeps it: its class, its nonce and its storage.
pub record Contract (F : Type 0) : Type 0 where
  pub class_hash : F
  pub nonce : F
  pub storage : Trie F

module _ {F : Type 0} (crypto : StarkCrypto F) (bits : BitView) where
  unfoldable pub contract_state : Contract F → F
  contract_state c =
      crypto.pedersen_hash
        (crypto.pedersen_hash (crypto.pedersen_hash c.class_hash (trie_hash crypto bits c.storage))
          c.nonce)
        crypto.field_zero

  -- The root of a state: the trie of the contracts' states, and the commitment to the classes.
  unfoldable pub state_root : Trie F → F → F
  state_root contracts classes = crypto.poseidon_hash_many (
      crypto.from_bytes_be_slice starknet_state_v0 ∷ trie_hash crypto bits contracts ∷ classes ∷ [])

  -- What a node sends for one key of a contract.
  unfoldable pub honest_data : Contract F → Felt → Proof → ContractData
  honest_data c version storage_proof = record {
    class_hash = felt_text crypto c.class_hash;
    contract_state_hash_version = version;
    nonce = felt_text crypto c.nonce;
    root = felt_text crypto (trie_hash crypto bits c.storage);
    storage_proofs = some (storage_proof ∷ []);
  }

  unfoldable pub honest_result : Contract F → Felt → Trie F → F → Proof → Proof → GetProofResult
  honest_result c version contracts classes storage_proof contract_proof = record {
    class_commitment = some (felt_text crypto classes);
    contract_data = some (honest_data c version storage_proof);
    contract_proof = contract_proof;
    state_commitment = some (felt_text crypto (state_root contracts classes));
  }

module _ {F : Type 0} {crypto : StarkCrypto F} {bits : BitView} (laws : FieldLaws crypto)
    (bit_laws : BitLaws bits) where
  state_hash_lem :
      (c : Contract F) (version : Felt) (p : Proof)
      → calculate_contract_state_hash crypto (honest_data crypto bits c version p)
        ≡ ok (felt_text crypto (contract_state crypto bits c))
  unfolding calculate_contract_state_hash contract_state honest_data
  state_hash_lem c version p =
      rw
        (
          laws.from_hex-to_hex c.class_hash,
          laws.from_hex-to_hex (trie_hash crypto bits c.storage),
          laws.from_hex-to_hex c.nonce,
        )
        (ap (map_err (λ _. no_field_element)) (hash_text_lem laws _))

  global_root_lem :
      (contracts : Trie F) (classes : F)
      → calculate_global_root crypto
          (felt_text crypto classes)
          (felt_text crypto (trie_hash crypto bits contracts))
        ≡ ok (felt_text crypto (state_root crypto bits contracts classes))
  unfolding calculate_global_root state_root
  global_root_lem contracts classes =
      rw (laws.from_hex-to_hex (trie_hash crypto bits contracts), laws.from_hex-to_hex classes)
        (ap (map_err (λ _. no_field_element)) (hash_text_lem laws _))

  -- A key of a contract's storage, and the contract's address in the state: the result that an
  -- honest node builds of the two proofs is accepted for the value and the root of the state.
  pub verify-honest :
      (contract : Contract F) (version : Felt) (contracts : Trie F) (classes value k a : F)
      (address : Address) (key : StorageKey)
      (in_storage : Opens value contract.storage (felt_to_bits bits (crypto.to_bytes_be k)))
      (in_state : Opens
        (contract_state crypto bits contract)
        contracts
        (felt_to_bits bits (crypto.to_bytes_be a)))
      → crypto.from_hex key.value ≡ some k
      → crypto.from_hex address.felt.value ≡ some a
      → verify crypto bits
          (honest_result crypto bits contract version contracts classes
            (prove crypto bits in_storage)
            (prove crypto bits in_state))
          (felt_text crypto (state_root crypto bits contracts classes))
          address
          key
          (felt_text crypto value)
        ≡ ok tt
  unfolding honest_result honest_data
  verify-honest contract version contracts classes value k a address key in_storage in_state ek ea =
      (verify_iff crypto bits _ _ address key _).1 (record {
        contract_data = honest_data crypto bits contract version (prove crypto bits in_storage);
        storage_proof = prove crypto bits in_storage;
        more_proofs = [];
        state_hash = felt_text crypto (contract_state crypto bits contract);
        storage_commitment = felt_text crypto (trie_hash crypto bits contracts);
        class_commitment = felt_text crypto classes;
        has_data = refl;
        has_proofs = refl;
        storage_opens =
            parse_proof-prove laws bit_laws key.value k value contract.storage in_storage ek;
        has_hash = state_hash_lem contract version (prove crypto bits in_storage);
        contract_opens =
            parse_proof-prove laws bit_laws address.felt.value a _ contracts in_state ea;
        has_classes = refl;
        has_root = global_root_lem contracts classes;
        has_state = refl;
      })
