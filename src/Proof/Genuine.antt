-- ===== src/Proof/Genuine.antt =====
-- `GetProofResult::verify` of src/proof.rs: what an accepted result shows of the state behind the
-- root, for proofs that are whole.
use beerus.Prelude.{
  ◌≡◌, ◌⊎◌, inl, inr, ap, sym, subst, ◌∙◌, some, List, [], ◌∷◌, ok, ok_or, ok_or-inv, map_err-inv,
  >>=-inv,
}
use beerus.Gen.Felt.{Felt}
use beerus.Gen.Keys.{StorageKey}
use beerus.Gen.Types.{Proof, Address, ContractData, GetProofResult}
use beerus.Util.{StarkCrypto, BitView, felt_to_bits}
use beerus.Util.Laws.{FieldLaws, BitLaws}
use beerus.Proof.{hash_text}
use beerus.Proof.Steps.{hash_text-injective, hash_text_lem, felt_text}
use beerus.Proof.Trie.{Trie, Opens, trie_hash}
use beerus.Proof.Verify.{
  calculate_contract_state_hash, calculate_global_root, verify, starknet_state_v0,
}
use beerus.Proof.Accepted.{Accepted, verify_iff}
use beerus.Proof.Honest.{Contract, contract_state, state_root}
use beerus.Proof.Nodes.{IsWhole}
use beerus.Proof.Forged.{
  StateForged, storage_node, contract_node, contract_fields, state_roots, state-inv, roots-inv,
}
use beerus.Proof.Descent.{Canonical}
use beerus.Proof.Sound.{parse_proof_sound}

module _ {F : Type 0} (crypto : StarkCrypto F) where
  state_hash-inv :
      (d : ContractData) (s : Felt)
      → calculate_contract_state_hash crypto d ≡ ok s
      → (class : F) × (root : F) × (nonce : F) × (crypto.from_hex d.root.value ≡ some root)
        × (hash_text crypto (
              crypto.pedersen_hash
                (crypto.pedersen_hash (crypto.pedersen_hash class root) nonce)
                crypto.field_zero)
            ≡ ok s)
  unfolding calculate_contract_state_hash
  state_hash-inv d s h =
      let (class, ec, h₁) = >>=-inv (ok_or _ (crypto.from_hex d.class_hash.value)) _ h in
      let (root, er, h₂) = >>=-inv (ok_or _ (crypto.from_hex d.root.value)) _ h₁ in
      let (nonce, en, h₃) = >>=-inv (ok_or _ (crypto.from_hex d.nonce.value)) _ h₂ in
      (class, root, nonce, ok_or-inv _ _ er, map_err-inv _ _ h₃)

  global_root-inv :
      (classes storage g : Felt)
      → calculate_global_root crypto classes storage ≡ ok g
      → (c : F) × (s : F) × (crypto.from_hex storage.value ≡ some s)
        × (hash_text crypto (
              crypto.poseidon_hash_many (crypto.from_bytes_be_slice starknet_state_v0 ∷ s ∷ c ∷ []))
            ≡ ok g)
  unfolding calculate_global_root
  global_root-inv classes storage g h =
      let (s, es, h₁) = >>=-inv (ok_or _ (crypto.from_hex storage.value)) _ h in
      let (c, ec, h₂) = >>=-inv (ok_or _ (crypto.from_hex classes.value)) _ h₁ in
      (c, s, ok_or-inv _ _ es, map_err-inv _ _ h₂)

module _ {F : Type 0} {crypto : StarkCrypto F} (laws : FieldLaws crypto) where
  -- A text that a hash is written in is read as that hash.
  from_hex-hash_text :
      (a : F) {t : Felt} → hash_text crypto a ≡ ok t → crypto.from_hex t.value ≡ some a
  from_hex-hash_text a {t} h =
      let shown : felt_text crypto a ≡ t = cc (hash_text_lem laws a) in
      ap (λ (f : Felt). crypto.from_hex f.value) (sym shown) ∙ laws.from_hex-to_hex a

-- What follows from what holds or else from a collision, and another collision for one.
and_then {ℓ κ μ} : {A : Type ℓ} {B : Type κ} {C : Type μ} → A ⊎ C → (A → B ⊎ C) → B ⊎ C
and_then (inl a) f = f a
and_then (inr c) f = inr c

because {ℓ κ μ} : {A : Type ℓ} {B : Type κ} {C : Type μ} → (B → C) → A ⊎ B → A ⊎ C
because f (inl a) = inl a
because f (inr b) = inr (f b)

module _ {F : Type 0} {crypto : StarkCrypto F} {bits : BitView} (laws : FieldLaws crypto)
    (bit_laws : BitLaws bits) (contract : Contract F) (contracts : Trie F) (classes : F)
    (address : Address) where
  -- The storage root that is sent is that of the contract in the state.
  root_sound :
      (a : F) (proof : GetProofResult) (key : StorageKey) (value : Felt)
      (acc : Accepted crypto bits proof
        (felt_text crypto (state_root crypto bits contracts classes))
        address
        key
        value)
      → Opens
          (contract_state crypto bits contract)
          contracts
          (felt_to_bits bits (crypto.to_bytes_be a))
      → Canonical contracts
      → crypto.from_hex address.felt.value ≡ some a
      → IsWhole crypto proof.contract_proof
      → (crypto.from_hex acc.contract_data.root.value
          ≡ some (trie_hash crypto bits contract.storage))
        ⊎ StateForged crypto bits contract contracts classes
  unfolding state_root contract_state
  root_sound a proof key value acc o canonical ea whole =
      let (c, s, es, eg) =
        global_root-inv crypto acc.class_commitment acc.storage_commitment _ acc.has_root in
      let (class, root, nonce, er, eh) =
        state_hash-inv crypto acc.contract_data acc.state_hash acc.has_hash in
      let hashed = from_hex-hash_text laws _ eh in
      let roots = hash_text-injective laws _ _ eg (hash_text_lem laws _) in
      and_then (because state_roots (roots-inv laws bits contracts classes s c roots)) (λ top.
        and_then
          (because contract_node (
            parse_proof_sound laws bit_laws address.felt.value acc.state_hash acc.storage_commitment
              proof.contract_proof a _ contracts o canonical ea (es ∙ ap some top) whole
              acc.contract_opens))
          (λ state.
            and_then (because contract_fields (state-inv laws bits contract class root nonce (cc)))
              (λ same. inl (er ∙ ap some same))))

  -- A value that `verify` accepts under the root of a state whose tries have no empty edge, with proofs
  -- that are whole, is the one that the state has for the address and the key, or there are other
  -- data with a hash that the state has: of a node of one of the two tries, of the contract's fields
  -- or of the state's roots. A proof is whole if its nodes stand for the 251 bits of a key, an edge
  -- at the leaf for a bit at least, and every other edge names the hash of the node below it.
  pub verify_sound :
      (k a v : F) (proof : GetProofResult) (data_sent : ContractData) (storage_proof : Proof)
      (more : List Proof) (key : StorageKey) (value : Felt)
      → Opens v contract.storage (felt_to_bits bits (crypto.to_bytes_be k))
      → Opens
          (contract_state crypto bits contract)
          contracts
          (felt_to_bits bits (crypto.to_bytes_be a))
      → Canonical contract.storage
      → Canonical contracts
      → crypto.from_hex key.value ≡ some k
      → crypto.from_hex address.felt.value ≡ some a
      → proof.contract_data ≡ some data_sent
      → data_sent.storage_proofs ≡ some (storage_proof ∷ more)
      → IsWhole crypto storage_proof
      → IsWhole crypto proof.contract_proof
      → verify crypto bits proof
          (felt_text crypto (state_root crypto bits contracts classes))
          address
          key
          value
        ≡ ok tt
      → (crypto.from_hex value.value ≡ some v) ⊎ StateForged crypto bits contract contracts classes
  verify_sound k a v proof data_sent storage_proof more key value o o' can can' ek ea ed ep whole
        whole' h =
      let acc = (verify_iff crypto bits proof _ address key value).0 h in
      let one : acc.contract_data ≡ data_sent = cc acc.has_data in
      let sent = ap (λ (d : ContractData). d.storage_proofs) one in
      let used : acc.storage_proof ≡ storage_proof = cc acc.has_proofs in
      and_then (root_sound a proof key value acc o' can' ea whole') (λ root. because storage_node (
        parse_proof_sound laws bit_laws key.value value acc.contract_data.root acc.storage_proof k v
          contract.storage o can ek root (subst (IsWhole crypto) (sym used) whole)
          acc.storage_opens))
