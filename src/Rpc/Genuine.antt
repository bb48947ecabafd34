-- ===== src/Rpc/Genuine.antt =====
-- src/rpc.rs: the values that `getStorageAt` answers, against the state of the chain.
use beerus.Prelude.{◌^◌, ◌<◌, ◌≤◌, ◌≡◌, arith, [], ◌∷◌, true, str_eq, str_eq_refl, Str, ok, as_u64}
use beerus.Prelude.Effects.{Io}
use beerus.Gen.Felt.{Felt}
use beerus.Gen.Keys.{StorageKey}
use beerus.Gen.Numbers.{BlockNumber}
use beerus.Gen.Types.{Address, BlockHash, GetProofResult}
use beerus.Gen.Blocks.{BlockId, BlockTag}
use beerus.Gen.Client.{Serde, Request, Response}
use beerus.Gen.Client.Chain.{get_proof}
use beerus.Client.{State}
use beerus.Util.{StarkCrypto, BitView}
use beerus.Util.Laws.{FieldLaws, BitLaws}
use beerus.Proof.State.{IsWholeResult, Holds, IsGenuine, Accepted-IsGenuine}
use beerus.Rpc.{
  resolve_block_by_number, resolve_block_by_hash, resolve_block_id, rpc_get_storage_at,
}
use beerus.Rpc.Resolve.{current_block_lem}
use beerus.Rpc.Storage.{Proved, rpc_get_storage_at-Proved}

-- The request asks for the trusted block: the latest one, a number from that of the block on, or its
-- hash.
pub data AsksTrusted (s : State) : BlockId → Type 0 where
  for_latest : AsksTrusted s (BlockId.block_tag BlockTag.latest)
  for_number :
      (n : BlockNumber) → s.block_number ≤ as_u64 n.value → AsksTrusted s (BlockId.block_number n)
  for_hash : (h : BlockHash) → h.felt ≡ s.block_hash → AsksTrusted s (BlockId.block_hash h)

module _ {V W : Type 0} (serde : Serde V) (post : Str → Request V → Io W (Response V))
    (url : Str) where
  trusted_root :
      (s : State) (asked : BlockId) (w w' : W) {b : BlockId} {root : Felt}
      → AsksTrusted s asked
      → s.block_number < 2 ^ 63
      → resolve_block_id serde post url s asked w ≡ (ok (b, root), w')
      → root ≡ s.root
  unfolding resolve_block_id resolve_block_by_number resolve_block_by_hash
  trusted_root s _ w w' for_latest small h =
      ground (arith, current_block_lem serde post url s small)
  trusted_root s _ w w' (for_number n above) small h =
      ground (arith, current_block_lem serde post url s small)
  trusted_root s _ w w' (for_hash hash same) small h =
      let equal : str_eq hash.felt.value s.block_hash.value ≡ true =
        rw same (str_eq_refl s.block_hash.value) in
      ground arith

module _ {V W F : Type 0} (serde : Serde V) (post : Str → Request V → Io W (Response V)) (url : Str)
    {crypto : StarkCrypto F} {bits : BitView} (laws : FieldLaws crypto)
    (bit_laws : BitLaws bits) where
  -- The node proves the key of the address by whole proofs.
  abbrev pub ProvesWhole : Address → StorageKey → Type 0
  ProvesWhole address key =
      (block : BlockId) (before after : W) (proof : GetProofResult)
      → get_proof serde post url block address (key ∷ []) before ≡ (ok proof, after)
      → IsWholeResult crypto proof

  pub Proved-IsGenuine :
      (state : State) (address : Address) (key : StorageKey) (asked : BlockId) (value : Felt)
      (w w' : W) (v : F) (holds : Holds crypto bits state.root address key v)
      → state.block_number < 2 ^ 63
      → AsksTrusted state asked
      → ProvesWhole address key
      → Proved serde post url crypto bits state address key asked value w w'
      → IsGenuine holds value
  Proved-IsGenuine state address key asked value w w' v holds small current whole proved =
      let same = trusted_root serde post url state asked w _ current small proved.resolution in
      Accepted-IsGenuine laws bit_laws proved.proof proved.root state.root address key value v holds
        same (whole proved.block proved.after_value w' proved.proof proved.proof_sent)
        proved.accepted

  -- A node whose proofs for the key are whole: what `getStorageAt` answers about the trusted block is
  -- the value that the state of that block holds in tries with no empty edge, or there are other data
  -- with a hash of that state. It holds while the number of the trusted block fits an `i64`.
  pub rpc_get_storage_at-IsGenuine :
      (state : State) (address : Address) (key : StorageKey) (asked : BlockId) (w w' : W) (v : F)
      (holds : Holds crypto bits state.root address key v) {value : Felt}
      → state.block_number < 2 ^ 63
      → AsksTrusted state asked
      → ProvesWhole address key
      → rpc_get_storage_at serde post url crypto bits state address key asked w ≡ (ok value, w')
      → IsGenuine holds value
  rpc_get_storage_at-IsGenuine state address key asked w w' v holds {value} small current whole h =
      Proved-IsGenuine state address key asked value w w' v holds small current whole
        (rpc_get_storage_at-Proved serde post url crypto bits state address key asked w w' small h)
