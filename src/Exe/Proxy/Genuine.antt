-- ===== src/Exe/Proxy/Genuine.antt =====
-- src/exe/mod.rs: what the virtual machine reads, against the state of the chain.
use beerus.Prelude.{◌≡◌, refl, ap, [], ◌∷◌, Str, ok}
use beerus.Prelude.Effects.{Io}
use beerus.Gen.Felt.{Felt}
use beerus.Gen.Keys.{StorageKey}
use beerus.Gen.Types.{Address, GetProofResult}
use beerus.Gen.Blocks.{BlockId}
use beerus.Gen.Client.{Serde, Request, Response}
use beerus.Gen.Blocking.Chain.{get_proof}
use beerus.Util.{StarkCrypto, BitView}
use beerus.Util.Laws.{FieldLaws, BitLaws}
use beerus.Proof.State.{IsWholeResult}
use beerus.Exe.Map.{Texts, VmFelt}
use beerus.Exe.Proxy.{
  StateProxy, Vm, block_of, proxy_get_nonce_at, proxy_get_class_hash_at,
  proxy_get_compiled_contract_class,
}

module _ {V K W F : Type 0} (serde : Serde V) (post : Str → Request V → Io W (Response V))
    {crypto : StarkCrypto F} {bits : BitView} (laws : FieldLaws crypto) (bit_laws : BitLaws bits)
    (texts : Texts) (vm_felt : VmFelt F) (vm : Vm K F) where
  -- The node proves the key of the address by whole proofs.
  abbrev pub SendsWhole : StateProxy → Address → StorageKey → Type 0
  SendsWhole proxy address key =
      (block : BlockId) (before after : W) (proof : GetProofResult)
      → get_proof serde post proxy.url block address (key ∷ []) before ≡ (ok proof, after)
      → IsWholeResult crypto proof

module _ {V K W F : Type 0} (serde : Serde V) (post : Str → Request V → Io W (Response V))
    (crypto : StarkCrypto F) (bits : BitView) (texts : Texts) (vm_felt : VmFelt F)
    (vm : Vm K F) where
  -- Nonces, class hashes and classes reach the virtual machine with no proof: two proxies of one node
  -- for one block hash read the same, whatever roots they trust.
  pub proxy-unproved :
      (p q : StateProxy) (a : F) (w : W)
      → p.url ≡ q.url
      → p.state.block_hash ≡ q.state.block_hash
      → (proxy_get_nonce_at serde post crypto bits texts vm_felt vm p a w
          ≡ proxy_get_nonce_at serde post crypto bits texts vm_felt vm q a w)
        × (proxy_get_class_hash_at serde post crypto bits texts vm_felt vm p a w
            ≡ proxy_get_class_hash_at serde post crypto bits texts vm_felt vm q a w)
        × (proxy_get_compiled_contract_class serde post crypto bits texts vm_felt vm p a w
            ≡ proxy_get_compiled_contract_class serde post crypto bits texts vm_felt vm q a w)
  unfolding proxy_get_nonce_at proxy_get_class_hash_at proxy_get_compiled_contract_class
  proxy-unproved p q a w same_url same_hash =
      let same_block : block_of p ≡ block_of q =
        unfold block_of in ap (λ (h : Felt). BlockId.block_hash (record { felt = h })) same_hash in
      (
        rw (same_url, same_block) refl,
        rw (same_url, same_block) refl,
        rw (same_url, same_block) refl,
      )
