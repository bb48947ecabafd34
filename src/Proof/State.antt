-- ===== src/Proof/State.antt =====
-- src/proof.rs against a state of the chain: what is true of a storage value under a root, and when a
-- result of a node is whole.
use beerus.Prelude.{◌≡◌, ◌∙◌, ◌⊎◌, some, List, ◌∷◌}
use beerus.Gen.Felt.{Felt}
use beerus.Gen.Keys.{StorageKey}
use beerus.Gen.Types.{Address, Proof, ContractData, GetProofResult}
use beerus.Util.{StarkCrypto, BitView, felt_to_bits}
use beerus.Util.Laws.{FieldLaws, BitLaws}
use beerus.Proof.Steps.{felt_text}
use beerus.Proof.Trie.{Trie, Opens}
use beerus.Proof.Accepted.{Accepted, verify_iff}
use beerus.Proof.Honest.{Contract, contract_state, state_root}
use beerus.Proof.Nodes.{IsWhole}
use beerus.Proof.Descent.{Canonical}
use beerus.Proof.Forged.{StateForged}
use beerus.Proof.Genuine.{verify_sound}

module _ {F : Type 0} (crypto : StarkCrypto F) where
  -- Both proofs of a result are whole; of the storage proofs the first one is looked at.
  pub record IsWholeResult (proof : GetProofResult) : Type 0 where
    pub data_sent : ContractData
    pub storage_proof : Proof
    pub more : List Proof
    pub has_data : proof.contract_data ≡ some data_sent
    pub has_proofs : data_sent.storage_proofs ≡ some (storage_proof ∷ more)
    pub storage_whole : IsWhole crypto storage_proof
    pub contract_whole : IsWhole crypto proof.contract_proof

  -- The state with this root holds the value at the key of the address, in tries with no empty edge.
  pub record Holds (bits : BitView) (root : Felt) (address : Address) (key : StorageKey) (v : F)
      : Type 0 where
    pub contract : Contract F
    pub contracts : Trie F
    pub classes : F
    pub key_felt : F
    pub address_felt : F
    pub has_key : crypto.from_hex key.value ≡ some key_felt
    pub has_address : crypto.from_hex address.felt.value ≡ some address_felt
    pub in_storage : Opens v contract.storage (felt_to_bits bits (crypto.to_bytes_be key_felt))
    pub in_state :
        Opens
          (contract_state crypto bits contract)
          contracts
          (felt_to_bits bits (crypto.to_bytes_be address_felt))
    pub canonical_storage : Canonical contract.storage
    pub canonical_state : Canonical contracts
    pub has_root : root ≡ felt_text crypto (state_root crypto bits contracts classes)

-- The text is that of the value, or there are other data with a hash of the state.
abbrev pub IsGenuine :
    {F : Type 0} {crypto : StarkCrypto F} {bits : BitView} {root : Felt} {address : Address}
    {key : StorageKey} {v : F}
    → Holds crypto bits root address key v
    → Felt
    → Type 0
IsGenuine {crypto = crypto} {bits = bits} {v = v} h value =
    (crypto.from_hex value.value ≡ some v)
    ⊎ StateForged crypto bits h.contract h.contracts h.classes

pub Accepted-IsGenuine :
    {F : Type 0} {crypto : StarkCrypto F} {bits : BitView} (laws : FieldLaws crypto)
    (bit_laws : BitLaws bits) (proof : GetProofResult) (root root' : Felt) (address : Address)
    (key : StorageKey) (value : Felt) (v : F) (holds : Holds crypto bits root' address key v)
    → root ≡ root'
    → IsWholeResult crypto proof
    → Accepted crypto bits proof root address key value
    → IsGenuine holds value
Accepted-IsGenuine {crypto = crypto} {bits = bits} laws bit_laws proof root root' address key value
      v h same whole accepted =
    verify_sound laws bit_laws h.contract h.contracts h.classes address h.key_felt h.address_felt v
      proof whole.data_sent whole.storage_proof whole.more key value h.in_storage h.in_state
      h.canonical_storage h.canonical_state h.has_key h.has_address whole.has_data whole.has_proofs
      whole.storage_whole whole.contract_whole
      ((verify_iff crypto bits proof _ address key value).1 (rw (same ∙ h.has_root) at accepted))
