-- ===== src/Proof/Total.antt =====
-- src/proof.rs: when the check of a proof returns, and when it panics.
use beerus.Prelude.{
  ◌≤◌, ◌≡◌, ◌≢◌, refl, Option, none, some, List, [], ◌∷◌, ◌++◌, reverse, arith, ◌==◌, length,
  Bool-cases, Str, text, Outcome, ok, err, panic, inl, inr, Error, ok_or, map_err,
}
use beerus.Gen.Felt
use beerus.Gen.Felt.{Felt}
use beerus.Gen.Keys.{StorageKey}
use beerus.Gen.Types.{Address, Proof, ContractData, GetProofResult}
use beerus.Util.{StarkCrypto, BitView, felt_to_bits}
use beerus.Proof.{Walk, field_element, hash_text, finish, climb, parse_proof}
use beerus.Proof.Verify.{
  verify, verify_storage_proofs, verify_contract_proof, check_storage_root, check_global_root,
  calculate_contract_state_hash, calculate_global_root,
}
use beerus.Proof.Returns.{
  path_bits, path_bits-reverse, bind-returns, field_element-returns, climb-returns,
}

module _ {F : Type 0} (crypto : StarkCrypto F) (bits : BitView) where
  hash_text-returns : (hash : F) → hash_text crypto hash ≢ panic
  unfolding hash_text Felt.try_new
  hash_text-returns hash h =
      elim (Bool-cases (Felt.is_match (Felt.fix (text "0x" ++ crypto.to_hex hash)))) [
        | inl e ↦ absurd (ground arith)
        | inr e ↦ absurd (ground arith)
      ]

  finish-returns : (end : Option (Walk F)) → finish crypto end ≢ panic
  unfolding finish
  finish-returns none h = cc
  finish-returns (some w) h =
      bind-returns (hash_text crypto w.hold) _ (hash_text-returns w.hold) (λ root e h. cc) h

  -- A proof whose nodes go over at most the 251 bits of a key is accepted or refused: `parse_proof`
  -- returns or fails, and does not panic.
  pub parse_proof-returns :
      (key : Str) (value : Felt) (proof : Proof)
      → path_bits proof ≤ 251
      → parse_proof crypto bits key value proof ≢ panic
  unfolding parse_proof
  parse_proof-returns key value proof small =
      bind-returns (field_element crypto key) _ (field_element-returns crypto key) (λ k e.
        elim (Bool-cases (length (felt_to_bits bits (crypto.to_bytes_be k)) == 251)) [
          | inr other ↦ rw other (λ h. ground arith)
          | inl whole ↦ rw whole (
              bind-returns (field_element crypto value.value) _
                (field_element-returns crypto value.value)
                (λ v e'.
                  bind-returns
                    (climb crypto bits (felt_to_bits bits (crypto.to_bytes_be k)) v 0
                      (reverse proof) (record { hold = v; path_len = 0 }))
                    _
                    (climb-returns crypto bits (felt_to_bits bits (crypto.to_bytes_be k))
                      (ground arith) v 0 (reverse proof) (record { hold = v; path_len = 0 })
                      (let e = path_bits-reverse proof in omega arith))
                    (λ end e. finish-returns end)))
        ])

  ok_or-returns : {A : Type 0} (e : Error) (o : Option A) → ok_or e o ≢ panic
  ok_or-returns e none h = cc
  ok_or-returns e (some a) h = cc

  map_err-returns :
      {A : Type 0} (f : Error → Error) (m : Outcome Error A) → m ≢ panic → map_err f m ≢ panic
  map_err-returns f (ok a) safe h = cc
  map_err-returns f (err e) safe h = cc
  map_err-returns f panic safe h = safe refl

  state_hash-returns :
      (data_sent : ContractData) → calculate_contract_state_hash crypto data_sent ≢ panic
  unfolding calculate_contract_state_hash
  state_hash-returns data_sent =
      bind-returns (field_element crypto data_sent.class_hash.value) _
        (field_element-returns crypto data_sent.class_hash.value)
        (λ c e.
          bind-returns (field_element crypto data_sent.root.value) _
            (field_element-returns crypto data_sent.root.value)
            (λ r e.
              bind-returns (field_element crypto data_sent.nonce.value) _
                (field_element-returns crypto data_sent.nonce.value)
                (λ n e. map_err-returns _ _ (hash_text-returns _))))

  global_root-returns :
      (classes storage : Felt) → calculate_global_root crypto classes storage ≢ panic
  unfolding calculate_global_root
  global_root-returns classes storage =
      bind-returns (field_element crypto storage.value) _
        (field_element-returns crypto storage.value)
        (λ s e.
          bind-returns (field_element crypto classes.value) _
            (field_element-returns crypto classes.value)
            (λ c e. map_err-returns _ _ (hash_text-returns _)))

  check_storage_root-returns :
      (root : Felt) (computed : Option Felt) → check_storage_root crypto bits root computed ≢ panic
  unfolding check_storage_root
  check_storage_root-returns root none h = cc
  check_storage_root-returns root (some r) h = ground arith

  check_global_root-returns :
      (proof : GetProofResult) (root : Felt) (computed : Option Felt)
      → check_global_root crypto bits proof root computed ≢ panic
  unfolding check_global_root
  check_global_root-returns proof root none h = cc
  check_global_root-returns proof root (some storage) h =
      bind-returns (ok_or _ proof.class_commitment) _ (ok_or-returns _ proof.class_commitment)
        (λ classes e.
          bind-returns (map_err _ (calculate_global_root crypto classes storage)) _
            (map_err-returns _ _ (global_root-returns classes storage))
            (λ parsed e.
              bind-returns (ok_or _ proof.state_commitment) _
                (ok_or-returns _ proof.state_commitment) (λ sent e k. ground arith)))
        h

-- What is asked of the proofs that the node sends: the first storage proof is there, if the list is,
-- and with the contract's proof goes over at most the 251 bits of a key.
abbrev pub FirstBounded : Option (List Proof) → Type 0
FirstBounded none = Unit
FirstBounded (some []) = ⊥
FirstBounded (some (proof ∷ proofs)) = path_bits proof ≤ 251

abbrev pub DataBounded : Option ContractData → Type 0
DataBounded none = Unit
DataBounded (some data_sent) = FirstBounded data_sent.storage_proofs

module _ {F : Type 0} (crypto : StarkCrypto F) (bits : BitView) where
  verify_storage_proofs-returns :
      (data_sent : ContractData) (key : StorageKey) (value : Felt) (proofs : Option (List Proof))
      → data_sent.storage_proofs ≡ proofs
      → FirstBounded proofs
      → verify_storage_proofs crypto bits data_sent key value ≢ panic
  unfolding verify_storage_proofs
  verify_storage_proofs-returns data_sent key value none e small h = absurd (cc (rw e at h))
  verify_storage_proofs-returns data_sent key value (some []) e small h = absurd small
  verify_storage_proofs-returns data_sent key value (some (proof ∷ proofs)) e small h =
      bind-returns (parse_proof crypto bits key.value value proof) _
        (parse_proof-returns crypto bits key.value value proof small)
        (λ computed e. check_storage_root-returns crypto bits data_sent.root computed) (rw e at h)

  verify_contract_proof-returns :
      (proof : GetProofResult) (data_sent : ContractData) (root : Felt) (address : Address)
      → path_bits proof.contract_proof ≤ 251
      → verify_contract_proof crypto bits proof data_sent root address ≢ panic
  unfolding verify_contract_proof
  verify_contract_proof-returns proof data_sent root address small =
      bind-returns (calculate_contract_state_hash crypto data_sent) _
        (state_hash-returns crypto bits data_sent)
        (λ hash e.
          bind-returns (parse_proof crypto bits address.felt.value hash proof.contract_proof) _
            (parse_proof-returns crypto bits address.felt.value hash proof.contract_proof small)
            (λ computed e. check_global_root-returns crypto bits proof root computed))

  verify_of_data-returns :
      (proof : GetProofResult) (root : Felt) (address : Address) (key : StorageKey) (value : Felt)
      (sent : Option ContractData)
      → proof.contract_data ≡ sent
      → DataBounded sent
      → path_bits proof.contract_proof ≤ 251
      → verify crypto bits proof root address key value ≢ panic
  unfolding verify
  verify_of_data-returns proof root address key value none e small below h = absurd (cc (rw e at h))
  verify_of_data-returns proof root address key value (some data_sent) e small below h =
      bind-returns (verify_storage_proofs crypto bits data_sent key value) _
        (verify_storage_proofs-returns data_sent key value data_sent.storage_proofs refl small)
        (λ u e. verify_contract_proof-returns proof data_sent root address below) (rw e at h)

  pub verify-returns :
      (proof : GetProofResult) (root : Felt) (address : Address) (key : StorageKey) (value : Felt)
      → DataBounded proof.contract_data
      → path_bits proof.contract_proof ≤ 251
      → verify crypto bits proof root address key value ≢ panic
  verify-returns proof root address key value =
      verify_of_data-returns proof root address key value proof.contract_data refl
