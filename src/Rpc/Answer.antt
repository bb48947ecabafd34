-- ===== src/Rpc/Answer.antt =====
-- src/rpc.rs and `gen::handle`: what the server answers to a `starknet_getStorageAt` request.
pub mod Genuine
use beerus.Prelude.{ℕ, ◌≡◌, ◌<◌, ◌^◌, Option, some, Str, text, ok}
use beerus.Prelude.Effects.{Io}
use beerus.Gen.Api.{Method, Rpc}
use beerus.Gen.Felt.{Felt}
use beerus.Gen.Keys.{StorageKey}
use beerus.Gen.Types.{Address}
use beerus.Gen.Blocks.{BlockId}
use beerus.Gen.Client.{Serde, Request, Response}
use beerus.Gen.Server.{Reply, read_args}
use beerus.Gen.Server.Dispatch.{handle}
use beerus.Gen.Server.Results.{Call, from_params, from_nothing, handle-Call_at}
use beerus.Client.{State}
use beerus.Exe.Map.{Texts, VmFelt}
use beerus.Util.{StarkCrypto, BitView}
use beerus.Rpc.Context.{Executor, context}
use beerus.Rpc.Storage.{Proved, rpc_get_storage_at-Proved}

module _ {V J W F : Type 0} (outer : Serde V) (serde : Serde J)
    (post : Str → Request J → Io W (Response J)) (url : Str) (crypto : StarkCrypto F)
    (bits : BitView) (texts : Texts) (vm : VmFelt F) (executor : Executor F W) (state : State) where
  -- The server's implementation of the methods.
  abbrev pub server : Rpc W
  server = context serde post url crypto bits texts vm executor state

  -- What stands behind a result: the arguments of the request, a proved value, and its JSON.
  pub record Backed (req : Request V) (v : V) (id : Option ℕ) (w w' : W) : Type 0 where
    pub address : Address
    pub key : StorageKey
    pub asked : BlockId
    pub value : Felt
    pub args_read :
        read_args outer server Method.get_storage_at req.params ≡ ok (address, key, asked)
    pub proved : Proved serde post url crypto bits state address key asked value w w'
    pub written : outer.ret_to_value Method.get_storage_at value ≡ ok v
    pub same_id : id ≡ req.id

  Call-Backed :
      (req : Request V) (v : V) (id : Option ℕ) (w w' : W)
      → state.block_number < 2 ^ 63
      → id ≡ req.id
      → Call outer server Method.get_storage_at req.params v w w'
      → Backed req v id w w'
  unfolding context
  Call-Backed req v id w w' small same call = elim call.reading [
    | from_params plain r ↦ record {
      address = call.args.0;
      key = call.args.1;
      asked = call.args.2;
      value = call.ret;
      args_read = r;
      proved =
          rpc_get_storage_at-Proved serde post url crypto bits state call.args.0 call.args.1
            call.args.2 w w' small call.called;
      written = call.written;
      same_id = same;
    }
    | from_nothing plain ↦ cc
  ]

  -- If the server replies to a `starknet_getStorageAt` request with a result, the result is the JSON
  -- of a value that is proved for the arguments of the request, and the reply has the request's id.
  -- It holds while the number of the trusted block fits an `i64`.
  pub handle-Backed :
      (req : Request V) (w w' : W) {reply : Reply V} {v : V}
      → req.method ≡ text "starknet_getStorageAt"
      → state.block_number < 2 ^ 63
      → handle outer server req w ≡ (ok reply, w')
      → reply.result ≡ some v
      → Backed req v reply.id w w'
  handle-Backed req w w' {reply} {v} named small h r =
      let (call, same) = handle-Call_at outer server Method.get_storage_at req w w' named h r in
      Call-Backed req v reply.id w w' small same call
