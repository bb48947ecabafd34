-- ===== src/Proof/Accepted.antt =====
-- What `GetProofResult::verify` of src/proof.rs accepts.
use beerus.Prelude.{
  ◌≡◌, ◌↔◌, inl, inr, refl, ap, true, Option, none, some, List, [], ◌∷◌, arith, Bool-cases,
  Option-cases, Str, str_eq, str_eq→≡, ok_or, ok_or-inv, >>=-inv, str_eq_refl, Outcome-cases, ok,
}
use beerus.Gen.Felt.{Felt}
use beerus.Gen.Keys.{StorageKey}
use beerus.Gen.Types.{Address, Proof, ContractData, GetProofResult}
use beerus.Util.{StarkCrypto, BitView}
use beerus.Proof.{parse_proof}
use beerus.Proof.Verify.{
  first, calculate_contract_state_hash, calculate_global_root, check_storage_root,
  verify_storage_proofs, check_global_root, verify_contract_proof, verify,
}

felt_eq : (a b : Felt) → str_eq a.value b.value ≡ true → a ≡ b
felt_eq a b h = ap (λ (v : Str). record { value = v }) (str_eq→≡ a.value b.value h)

module _ {F : Type 0} (crypto : StarkCrypto F) (bits : BitView) where
  -- The parts that an accepted result has, and how they hang together.
  pub record Accepted (proof : GetProofResult) (global_root : Felt) (address : Address)
      (key : StorageKey) (value : Felt) : Type 0 where
    pub contract_data : ContractData
    pub storage_proof : Proof
    pub more_proofs : List Proof
    pub state_hash : Felt
    pub storage_commitment : Felt
    pub class_commitment : Felt
    pub has_data : proof.contract_data ≡ some contract_data
    pub has_proofs : contract_data.storage_proofs ≡ some (storage_proof ∷ more_proofs)
    pub storage_opens :
        parse_proof crypto bits key.value value storage_proof ≡ ok (some contract_data.root)
    pub has_hash : calculate_contract_state_hash crypto contract_data ≡ ok state_hash
    pub contract_opens :
        parse_proof crypto bits address.felt.value state_hash proof.contract_proof
        ≡ ok (some storage_commitment)
    pub has_classes : proof.class_commitment ≡ some class_commitment
    pub has_root : calculate_global_root crypto class_commitment storage_commitment ≡ ok global_root
    pub has_state : proof.state_commitment ≡ some global_root

  check_storage_root-inv :
      (root : Felt) (computed : Option Felt) {u : Unit {0}}
      → check_storage_root crypto bits root computed ≡ ok u
      → computed ≡ some root
  unfolding check_storage_root
  check_storage_root-inv root none h = cc
  check_storage_root-inv root (some c) h = elim (Bool-cases (str_eq c.value root.value)) [
    | inl same ↦ ap some (felt_eq c root same)
    | inr other ↦ absurd (ground arith)
  ]

  first-inv :
      (proofs : List Proof) {p : Proof}
      → first proofs ≡ ok p
      → (ps : List Proof) × (proofs ≡ p ∷ ps)
  unfolding first
  first-inv [] h = cc
  first-inv (p ∷ ps) h = (ps, cc)

  verify_storage_proofs-inv :
      (d : ContractData) (key : StorageKey) (value : Felt) {u : Unit {0}}
      → verify_storage_proofs crypto bits d key value ≡ ok u
      → (p : Proof) × (ps : List Proof) × (d.storage_proofs ≡ some (p ∷ ps))
        × (parse_proof crypto bits key.value value p ≡ ok (some d.root))
  unfolding verify_storage_proofs
  verify_storage_proofs-inv d key value h =
      let (proofs, e, h₁) = >>=-inv (ok_or _ d.storage_proofs) _ h in
      let (p, ep, h₂) = >>=-inv (first proofs) _ h₁ in
      let (computed, ec, h₃) = >>=-inv (parse_proof crypto bits key.value value p) _ h₂ in
      let (ps, eps) = first-inv proofs ep in
      (p, ps, cc (ok_or-inv _ d.storage_proofs e), cc (check_storage_root-inv d.root computed h₃))

  check_global_root-inv :
      (proof : GetProofResult) (root : Felt) (computed : Option Felt) {u : Unit {0}}
      → check_global_root crypto bits proof root computed ≡ ok u
      → (s : Felt) × (c : Felt) × (computed ≡ some s)
        × (proof.class_commitment ≡ some c)
        × (calculate_global_root crypto c s ≡ ok root)
        × (proof.state_commitment ≡ some root)
  unfolding check_global_root
  check_global_root-inv proof root none h = cc
  check_global_root-inv proof root (some s) h = elim (Option-cases proof.class_commitment) [
    | inl e ↦ absurd (ground arith)
    | inr (c, ec) ↦ elim (Outcome-cases (calculate_global_root crypto c s)) [
      | inr (inl (e, ee)) ↦ absurd (ground arith)
      | inr (inr e) ↦ absurd (ground arith)
      | inl (g, eg) ↦ elim (Option-cases proof.state_commitment) [
        | inl e ↦ absurd (ground arith)
        | inr (st, es) ↦ elim (Bool-cases (str_eq st.value g.value)) [
          | inr e ↦ absurd (ground arith)
          | inl e₁ ↦ elim (Bool-cases (str_eq root.value g.value)) [
            | inr e ↦ absurd (ground arith)
            | inl e₂ ↦
                (s, c, refl, ec, cc (felt_eq root g e₂), cc (felt_eq st g e₁, felt_eq root g e₂))
          ]
        ]
      ]
    ]
  ]

  module _ (proof : GetProofResult) (global_root : Felt) (address : Address) (key : StorageKey)
      (value : Felt) where
    verify-of_Accepted :
        Accepted proof global_root address key value
        → verify crypto bits proof global_root address key value ≡ ok tt
    unfolding verify
    verify-of_Accepted a =
        ground (arith, str_eq_refl a.contract_data.root.value, str_eq_refl global_root.value)

    Accepted-verify :
        verify crypto bits proof global_root address key value ≡ ok tt
        → Accepted proof global_root address key value
    unfolding verify verify_contract_proof
    Accepted-verify h =
        let (d, has_data, h₁) = >>=-inv (ok_or _ proof.contract_data) _ h in
        let (_, h₂, h₃) = >>=-inv (verify_storage_proofs crypto bits d key value) _ h₁ in
        let (p, ps, has_proofs, storage_opens) = verify_storage_proofs-inv d key value h₂ in
        let (state, has_hash, h₄) = >>=-inv (calculate_contract_state_hash crypto d) _ h₃ in
        let (computed, opens, h₅) =
          >>=-inv (parse_proof crypto bits address.felt.value state proof.contract_proof) _ h₄ in
        let (s, c, es, has_classes, has_root, has_state) =
          check_global_root-inv proof global_root computed h₅ in
        record {
          contract_data = d;
          storage_proof = p;
          more_proofs = ps;
          state_hash = state;
          storage_commitment = s;
          class_commitment = c;
          has_data = ok_or-inv _ proof.contract_data has_data;
          has_proofs = has_proofs;
          storage_opens = storage_opens;
          has_hash = has_hash;
          contract_opens = cc;
          has_classes = has_classes;
          has_root = has_root;
          has_state = has_state;
        }

    -- `verify` accepts exactly the results whose parts are there and hang together.
    pub verify_iff :
        (verify crypto bits proof global_root address key value ≡ ok tt)
        ↔ Accepted proof global_root address key value
    verify_iff = (Accepted-verify, verify-of_Accepted)
