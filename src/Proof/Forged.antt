-- ===== src/Proof/Forged.antt =====
-- src/proof.rs: other data with a hash that a state of the chain has, between the storage of a
-- contract and the root.
use beerus.Prelude.{◌≡◌, ◌≢◌, refl, ◌⊎◌, inl, inr, [], ◌∷◌}
use beerus.Util.{StarkCrypto, BitView}
use beerus.Util.Laws.{FieldLaws, eq-cases}
use beerus.Proof.Trie.{Trie, trie_hash}
use beerus.Proof.Verify.{starknet_state_v0}
use beerus.Proof.Honest.{Contract, contract_state, state_root}
use beerus.Proof.Nodes.{NodeCollision}

module _ {F : Type 0} (crypto : StarkCrypto F) (bits : BitView) where
  -- The pairs that are hashed on the way to the state of a contract.
  abbrev pub InState : Contract F → F → F → Type 0
  InState contract a b =
      let root = trie_hash crypto bits contract.storage in
      let of_class = crypto.pedersen_hash contract.class_hash root in
      ((a ≡ contract.class_hash) × (b ≡ root))
      ⊎ (((a ≡ of_class) × (b ≡ contract.nonce))
          ⊎ ((a ≡ crypto.pedersen_hash of_class contract.nonce) × (b ≡ crypto.field_zero)))

  -- Another pair with the hash of one of those of a contract.
  pub record StateCollision (contract : Contract F) : Type 0 where
    pub a : F
    pub b : F
    pub c : F
    pub d : F
    pub in_state : InState contract c d
    pub same_hash : crypto.pedersen_hash a b ≡ crypto.pedersen_hash c d
    pub differ : (a ≢ c) ⊎ (b ≢ d)

  -- Another pair of roots with the state root of these tries.
  pub record RootCollision (contracts : Trie F) (classes : F) : Type 0 where
    pub a : F
    pub b : F
    pub same_hash :
        crypto.poseidon_hash_many (crypto.from_bytes_be_slice starknet_state_v0 ∷ a ∷ b ∷ [])
        ≡ crypto.poseidon_hash_many (
            crypto.from_bytes_be_slice starknet_state_v0
            ∷ trie_hash crypto bits contracts
            ∷ classes
            ∷ [])
    pub differ : a ≢ trie_hash crypto bits contracts

  -- Other data with a hash that is taken between the storage of a contract and the state root.
  pub data StateForged (contract : Contract F) (contracts : Trie F) (classes : F) : Type 0 where
    storage_node :
        NodeCollision crypto bits contract.storage → StateForged contract contracts classes
    contract_node : NodeCollision crypto bits contracts → StateForged contract contracts classes
    contract_fields : StateCollision contract → StateForged contract contracts classes
    state_roots : RootCollision contracts classes → StateForged contract contracts classes

module _ {F : Type 0} {crypto : StarkCrypto F} (laws : FieldLaws crypto) (bits : BitView) where
  pair-inv :
      (contract : Contract F) (a b c d : F)
      → InState crypto bits contract c d
      → crypto.pedersen_hash a b ≡ crypto.pedersen_hash c d
      → ((a ≡ c) × (b ≡ d)) ⊎ StateCollision crypto bits contract
  pair-inv contract a b c d i h = elim (eq-cases laws a c) [
    | inr ne ↦
        inr (record { a = a; b = b; c = c; d = d; in_state = i; same_hash = h; differ = inl ne })
    | inl p ↦ elim (eq-cases laws b d) [
      | inl q ↦ inl (p, q)
      | inr ne ↦
          inr (record { a = a; b = b; c = c; d = d; in_state = i; same_hash = h; differ = inr ne })
    ]
  ]

  -- The second of three fields that are hashed to the state of a contract is its storage root.
  pub state-inv :
      (contract : Contract F) (class root nonce : F)
      → crypto.pedersen_hash
          (crypto.pedersen_hash (crypto.pedersen_hash class root) nonce)
          crypto.field_zero
        ≡ contract_state crypto bits contract
      → (root ≡ trie_hash crypto bits contract.storage) ⊎ StateCollision crypto bits contract
  unfolding contract_state
  state-inv contract class root nonce h =
      elim (pair-inv contract _ _ _ _ (inr (inr (refl, refl))) h) [
        | inr c ↦ inr c
        | inl p ↦ elim (pair-inv contract _ _ _ _ (inr (inl (refl, refl))) p.0) [
          | inr c ↦ inr c
          | inl q ↦ elim (pair-inv contract _ _ _ _ (inl (refl, refl)) q.0) [
            | inr c ↦ inr c
            | inl r ↦ inl r.1
          ]
        ]
      ]

  pub roots-inv :
      (contracts : Trie F) (classes a b : F)
      → crypto.poseidon_hash_many (crypto.from_bytes_be_slice starknet_state_v0 ∷ a ∷ b ∷ [])
        ≡ state_root crypto bits contracts classes
      → (a ≡ trie_hash crypto bits contracts) ⊎ RootCollision crypto bits contracts classes
  unfolding state_root
  roots-inv contracts classes a b h = elim (eq-cases laws a (trie_hash crypto bits contracts)) [
    | inl e ↦ inl e
    | inr ne ↦ inr (record { a = a; b = b; same_hash = h; differ = ne })
  ]
