-- ===== src/Rpc/Answer/Genuine.antt =====
-- `gen::handle` and src/rpc.rs: a reply to a `starknet_getStorageAt` request, against the state of the
-- chain.
use beerus.Prelude.{◌≡◌, subst, ◌<◌, ◌^◌, some, Str, text, ok}
use beerus.Prelude.Effects.{Io}
use beerus.Gen.Api.{Method, Args}
use beerus.Gen.Felt.{Felt}
use beerus.Gen.Keys.{StorageKey}
use beerus.Gen.Types.{Address}
use beerus.Gen.Blocks.{BlockId}
use beerus.Gen.Client.{Serde, Request, Response}
use beerus.Gen.Server.{Reply, read_args}
use beerus.Gen.Server.Dispatch.{handle}
use beerus.Client.{State}
use beerus.Exe.Map.{Texts, VmFelt}
use beerus.Util.{StarkCrypto, BitView}
use beerus.Util.Laws.{FieldLaws, BitLaws}
use beerus.Proof.State.{Holds, IsGenuine}
use beerus.Rpc.Context.{Executor}
use beerus.Rpc.Answer.{server, handle-Backed}
use beerus.Rpc.Storage.{Proved}
use beerus.Rpc.Genuine.{AsksTrusted, ProvesWhole, Proved-IsGenuine}

module _ {V J W F : Type 0} (outer : Serde V) (serde : Serde J)
    (post : Str → Request J → Io W (Response J)) (url : Str) {crypto : StarkCrypto F}
    {bits : BitView} (laws : FieldLaws crypto) (bit_laws : BitLaws bits) (texts : Texts)
    (vm : VmFelt F) (executor : Executor F W) (state : State) where
  -- If the server replies with a result to a `starknet_getStorageAt` request about the trusted block,
  -- and the node's proofs for the key are whole, the result is the JSON of the value that the state of
  -- that block holds in tries with no empty edge, or there are other data with a hash of that
  -- state. It holds while
  -- the number of the trusted block fits an `i64`.
  pub handle-IsGenuine :
      (req : Request V) (w w' : W) (address : Address) (key : StorageKey) (asked : BlockId) (v : F)
      (holds : Holds crypto bits state.root address key v) {reply : Reply V} {j : V}
      → req.method ≡ text "starknet_getStorageAt"
      → read_args outer
          (server outer serde post url crypto bits texts vm executor state)
          Method.get_storage_at
          req.params
        ≡ ok (address, key, asked)
      → state.block_number < 2 ^ 63
      → AsksTrusted state asked
      → ProvesWhole serde post url laws bit_laws address key
      → handle outer (server outer serde post url crypto bits texts vm executor state) req w
        ≡ (ok reply, w')
      → reply.result ≡ some j
      → (value : Felt) × (outer.ret_to_value Method.get_storage_at value ≡ ok j)
        × IsGenuine holds value
  handle-IsGenuine req w w' address key asked v holds named read small current whole h r =
      let b =
        handle-Backed outer serde post url crypto bits texts vm executor state req w w' named small
          h r in
      let same : ◌≡◌ {A = Args Method.get_storage_at} (b.address, b.key, b.asked)
          (address, key, asked) =
        cc b.args_read in
      let proved =
        subst
          (λ (args : Args Method.get_storage_at).
            Proved serde post url crypto bits state args.0 args.1 args.2 b.value w w')
          same b.proved in
      (
        b.value,
        b.written,
        Proved-IsGenuine serde post url laws bit_laws state address key asked b.value w w' v holds
            small current whole proved,
      )
