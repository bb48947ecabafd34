-- ===== src/Proof/Panics.antt =====
-- `GetProofResult::verify` of src/proof.rs: the results that make it panic.
use beerus.Prelude.{
  ◌≤◌, ◌≡◌, ◌↔◌, ◌⊎◌, inl, inr, refl, sym, subst, Option, Option-cases, none, some, List, [], ◌∷◌,
  arith, panic,
}
use beerus.Gen.Felt.{Felt}
use beerus.Gen.Keys.{StorageKey}
use beerus.Gen.Types.{Address, Proof, ContractData, GetProofResult}
use beerus.Util.{StarkCrypto, BitView}
use beerus.Proof.Verify.{verify}
use beerus.Proof.Returns.{path_bits}
use beerus.Proof.Total.{FirstBounded, DataBounded, verify-returns}

module _ {F : Type 0} (crypto : StarkCrypto F) (bits : BitView) where
  bounded_or_empty :
      (data_sent : ContractData) (proofs : Option (List Proof))
      → ((first : Proof) (more : List Proof) → proofs ≡ some (first ∷ more) → path_bits first ≤ 251)
      → FirstBounded proofs ⊎ (proofs ≡ some [])
  bounded_or_empty data_sent none short = inl tt
  bounded_or_empty data_sent (some []) short = inr refl
  bounded_or_empty data_sent (some (first ∷ more)) short = inl (short first more refl)

  -- If the proofs that are looked at, the first storage proof and the contract's, each go over at most
  -- 251 bits, `verify` panics exactly when the node sends a list of storage proofs that is empty; in
  -- every other case it accepts or refuses.
  pub verify-panic_iff :
      (proof : GetProofResult) (root : Felt) (address : Address) (key : StorageKey) (value : Felt)
      → ((data_sent : ContractData) (first : Proof) (more : List Proof)
          → proof.contract_data ≡ some data_sent
          → data_sent.storage_proofs ≡ some (first ∷ more)
          → path_bits first ≤ 251)
      → path_bits proof.contract_proof ≤ 251
      → (verify crypto bits proof root address key value ≡ panic) ↔ (
          (data_sent : ContractData) × (proof.contract_data ≡ some data_sent)
          × (data_sent.storage_proofs ≡ some []))
  unfolding verify
  verify-panic_iff proof root address key value short below = (
    λ h. elim (Option-cases proof.contract_data) [
      | inl e ↦ absurd (
          verify-returns crypto bits proof root address key value (subst DataBounded (sym e) tt)
            below h)
      | inr (data_sent, e) ↦
          elim (bounded_or_empty data_sent data_sent.storage_proofs
            (λ p ps. short data_sent p ps e)) [
              | inl small ↦ absurd (
                  verify-returns crypto bits proof root address key value
                    (subst DataBounded (sym e) small) below h)
              | inr empty ↦ (data_sent, e, empty)
            ]
    ],
    λ sent. let (data_sent, e, empty) = sent in ground arith,
  )
