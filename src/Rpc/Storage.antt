-- ===== src/Rpc/Storage.antt =====
-- src/rpc.rs: what stands behind a value that `getStorageAt` returns.
use beerus.Prelude.{◌≡◌, ap, ◌∙◌, Error, ok, [], ◌∷◌, Str, ◌<◌, ◌^◌, Outcome}
use beerus.Prelude.Effects.{Io, then_do-inv, ok-pair}
use beerus.Gen.Felt.{Felt}
use beerus.Gen.Keys.{StorageKey}
use beerus.Gen.Types.{Address, GetProofResult}
use beerus.Gen.Blocks.{BlockId}
use beerus.Gen.Client.{Serde, Request, Response}
use beerus.Gen.Client.Chain.{get_proof, get_storage_at}
use beerus.Client.{State}
use beerus.Util.{StarkCrypto, BitView}
use beerus.Proof.Verify.{verify}
use beerus.Proof.Accepted.{Accepted, verify_iff}
use beerus.Rpc.{resolve_block_id, rpc_get_storage_at}
use beerus.Rpc.Resolve.{Resolved, resolve_block_id-Resolved}

module _ {V W F : Type 0} (serde : Serde V) (post : Str → Request V → Io W (Response V)) (url : Str)
    (crypto : StarkCrypto F) (bits : BitView) where
  -- The three exchanges behind an answer, in order, and what their results have to do with it.
  pub record Proved (state : State) (address : Address) (key : StorageKey) (asked : BlockId)
      (value : Felt) (w w' : W) : Type 0 where
    pub block : BlockId
    pub root : Felt
    pub after_block : W
    pub after_value : W
    pub proof : GetProofResult
    pub resolution : resolve_block_id serde post url state asked w ≡ (ok (block, root), after_block)
    pub resolved : Resolved serde post url state asked block root w after_block
    pub value_sent :
        get_storage_at serde post url address key block after_block ≡ (ok value, after_value)
    pub proof_sent : get_proof serde post url block address (key ∷ []) after_value ≡ (ok proof, w')
    pub accepted : Accepted crypto bits proof root address key value

  -- While the number of the trusted block fits an `i64`, a value that `getStorageAt` returns is the
  -- one that the node sent for a resolved block, and the proof that the node sent next is accepted
  -- for it against the root of that block.
  pub rpc_get_storage_at-Proved :
      (state : State) (address : Address) (key : StorageKey) (asked : BlockId) (w w' : W)
      {value : Felt}
      → state.block_number < 2 ^ 63
      → rpc_get_storage_at serde post url crypto bits state address key asked w ≡ (ok value, w')
      → Proved state address key asked value w w'
  unfolding rpc_get_storage_at
  rpc_get_storage_at-Proved state address key asked w w' {value} small h =
      let (r, e₁, h₁) = then_do-inv (resolve_block_id serde post url state asked w) _ h in
      let w₁ = (resolve_block_id serde post url state asked w).1 in
      let (v, e₂, h₂) = then_do-inv (get_storage_at serde post url address key r.0 w₁) _ h₁ in
      let w₂ = (get_storage_at serde post url address key r.0 w₁).1 in
      let (p, e₃, h₃) = then_do-inv (get_proof serde post url r.0 address (key ∷ []) w₂) _ h₂ in
      let w₃ = (get_proof serde post url r.0 address (key ∷ []) w₂).1 in
      let (u, e₄, h₄) = then_do-inv (verify crypto bits p r.1 address key v, w₃) _ h₃ in
      let (v≡value, w₃≡w') = ok-pair h₄ in
      record {
        block = r.0;
        root = r.1;
        after_block = w₁;
        after_value = w₂;
        proof = p;
        resolution = e₁;
        resolved = resolve_block_id-Resolved serde post url state asked w w₁ small e₁;
        value_sent = e₂ ∙ ap (λ (x : Felt). (ok x, w₂)) v≡value;
        proof_sent = e₃ ∙ ap (λ (x : W). (ok p, x)) w₃≡w';
        accepted =
            (verify_iff crypto bits p r.1 address key value).0
              (rw (← v≡value) (ap (λ (o : Outcome Error (Unit {0}) × W). o.0) e₄));
      }
