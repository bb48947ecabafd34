-- ===== src/Proof/Truncated.antt =====
-- `GetProofResult::verify` of src/proof.rs on a storage proof with no nodes: `parse_proof` does not ask
-- how far down the key the nodes lead.
use beerus.Prelude.{◌≡◌, refl, ap, sym, ◌∙◌, some, [], ◌∷◌, Str, ok}
use beerus.Gen.Felt.{Felt}
use beerus.Gen.Keys.{StorageKey}
use beerus.Gen.Types.{Address, Proof, ContractData, GetProofResult}
use beerus.Util.{StarkCrypto, BitView}
use beerus.Util.Laws.{FieldLaws, BitLaws}
use beerus.Proof.{parse_proof, climb}
use beerus.Proof.Steps.{parse_proof-inv, parse_proof-of_climb, hash_text_lem, felt_text}
use beerus.Proof.Verify.{calculate_contract_state_hash, verify}
use beerus.Proof.Accepted.{verify_iff}

-- The result with a list of one storage proof that has no nodes.
abbrev pub without_nodes : GetProofResult → ContractData → GetProofResult
without_nodes proof d = record proof {
  contract_data = some (record d { storage_proofs = some ([] ∷ []) });
}

module _ {F : Type 0} {crypto : StarkCrypto F} {bits : BitView} (laws : FieldLaws crypto)
    (bit_laws : BitLaws bits) where
  -- With no nodes a hash proves itself, for every key.
  parse_proof-nil :
      (name name' : Str) (value root : Felt) (proof : Proof) (k : F)
      → parse_proof crypto bits name value proof ≡ ok (some root)
      → crypto.from_hex name' ≡ some k
      → parse_proof crypto bits name' root [] ≡ ok (some root)
  unfolding climb
  parse_proof-nil name name' value root proof k h ek =
      let (_, _, u, _, _, _, text_of) = parse_proof-inv crypto bits name value proof h in
      let shown : felt_text crypto u.hold ≡ root = cc (hash_text_lem laws u.hold) in
      let read : crypto.from_hex root.value ≡ some u.hold =
        ap (λ (f : Felt). crypto.from_hex f.value) (sym shown) ∙ laws.from_hex-to_hex u.hold in
      parse_proof-of_climb laws bit_laws name' root [] k u.hold
        (record { hold = u.hold; path_len = 0 }) ek read refl text_of

  -- Of a result that is accepted for one key, the result without the nodes of its storage proof is
  -- accepted for every key that reads as a field element, with the storage root as the value.
  pub verify-truncated :
      (proof : GetProofResult) (global_root : Felt) (address : Address) (key key' : StorageKey)
      (value : Felt) (d : ContractData) (k : F)
      → verify crypto bits proof global_root address key value ≡ ok tt
      → proof.contract_data ≡ some d
      → crypto.from_hex key'.value ≡ some k
      → verify crypto bits (without_nodes proof d) global_root address key' d.root ≡ ok tt
  unfolding calculate_contract_state_hash
  verify-truncated proof global_root address key key' value d k h ed ek =
      let acc = (verify_iff crypto bits proof global_root address key value).0 h in
      let one : acc.contract_data ≡ d = cc acc.has_data in
      (verify_iff crypto bits (without_nodes proof d) global_root address key' d.root).1 (record {
        contract_data = record d { storage_proofs = some ([] ∷ []) };
        storage_proof = [];
        more_proofs = [];
        state_hash = acc.state_hash;
        storage_commitment = acc.storage_commitment;
        class_commitment = acc.class_commitment;
        has_data = refl;
        has_proofs = refl;
        storage_opens =
            parse_proof-nil key.value key'.value value d.root acc.storage_proof k
              (rw one at acc.storage_opens) ek;
        has_hash = rw one at acc.has_hash;
        contract_opens = acc.contract_opens;
        has_classes = acc.has_classes;
        has_root = acc.has_root;
        has_state = acc.has_state;
      })
