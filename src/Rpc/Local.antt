-- ===== src/Rpc/Local.antt =====
-- The whole server: the context of src/rpc.rs behind `gen::handle`, with the executor of
-- src/exe/mod.rs and its caches, on one world.
use beerus.Prelude.{◌≡◌, none, Str, List, Outcome, ok, err, panic}
use beerus.Prelude.Effects.{Io}
use beerus.Prelude.Keeps.{Keeps}
use beerus.Gen.Api.{Rpc}
use beerus.Gen.Client.{Serde, Request, Response}
use beerus.Gen.Server.Dispatch.{handle}
use beerus.Gen.Server.Keeps.{handle-Keeps}
use beerus.Gen.Types.{FunctionCall}
use beerus.Client.{State}
use beerus.Util.{StarkCrypto, BitView}
use beerus.Exe.Map.{ExeError, Texts, VmFelt}
use beerus.Exe.Proxy.{Vm}
use beerus.Exe.Cache.{Lru, Words, Caches}
use beerus.Exe.Cache.Coherent.{LruLaws, Coherent}
use beerus.Exe.Call.{Blockifier}
use beerus.Exe.Call.Run.{exe_call}
use beerus.Exe.Call.Fed.{Vouched, exe_call-Coherent}
use beerus.Rpc.Context.{Executor, context}
use beerus.Rpc.Keeps.{context-Keeps}

-- HTTP beside the caches.
unfoldable pub beside :
    {V L₁ L₂ L₃ W : Type 0}
    → (Str → Request V → Io W (Response V))
    → Str
    → Request V
    → Io (Caches L₁ L₂ L₃ W) (Response V)
beside post url req s = let r = post url req s.world in (r.0, record s { world = r.1 })

-- The return data of a call.
unfoldable pub data_of :
    {F R : Type 0} → (R → List F) → Outcome ExeError R → Outcome ExeError (List F)
data_of retdata (ok r) = ok (retdata r)
data_of retdata (err e) = err e
data_of retdata panic = panic

module _ {J W U F K L₁ L₂ L₃ R C : Type 0} (words : Words U F) (storages : Lru L₁ (U × U × U) F)
    (class_hashes : Lru L₂ (U × U) F) (classes : Lru L₃ (U × U) K) (serde : Serde J)
    (post : Str → Request J → Io W (Response J)) (url : Str) (crypto : StarkCrypto F)
    (bits : BitView) (texts : Texts) (vm_felt : VmFelt F) (vm : Vm K F)
    (blockifier : Blockifier F K R C) (join_text : Str) where
  -- `exe::call` with the blocking client of the server's URL.
  unfoldable pub local_executor : Executor F (Caches L₁ L₂ L₃ W)
  unfolding data_of
  local_executor = record {
    exe_call = λ request state s.
        let r =
          exe_call serde post crypto bits texts vm_felt vm words storages class_hashes classes
            blockifier url request state s in
        (data_of blockifier.retdata r.0, r.1);
    join_text = join_text;
  }

  abbrev pub local_server : State → Rpc (Caches L₁ L₂ L₃ W)
  local_server state =
      context serde (beside post) url crypto bits texts vm_felt local_executor state

  module _ {V : Type 0} (outer : Serde V) (laws : LruLaws storages) (Trusted : State → Type 0) where
    -- Every entry of the storage cache is vouched for.
    abbrev pub CachesVouched : Caches L₁ L₂ L₃ W → Type 0
    CachesVouched s =
        Coherent storages
          (Vouched words storages laws class_hashes classes serde post crypto bits texts vm_felt vm
            Trusted)
          s.storage

    -- The worlds that a server comes to: it starts with an empty storage cache, handles requests on
    -- states that it trusts, and meanwhile the world outside goes on.
    pub data Reached : Caches L₁ L₂ L₃ W → Type 0 where
      start :
          (s : Caches L₁ L₂ L₃ W)
          → ((k : U × U × U) → (storages.get s.storage k).0 ≡ none)
          → Reached s
      handled :
          (s : Caches L₁ L₂ L₃ W) (state : State) (req : Request V)
          → Reached s
          → Trusted state
          → Reached (handle outer (local_server state) req s).1
      outside : (s : Caches L₁ L₂ L₃ W) (w : W) → Reached s → Reached (record s { world = w })

    local_executor-Keeps :
        (request : FunctionCall) (state : State)
        → Trusted state
        → Keeps CachesVouched (local_executor.exe_call request state)
    unfolding local_executor
    local_executor-Keeps request state trusted s h =
        exe_call-Coherent words storages laws class_hashes classes serde post crypto bits texts
          vm_felt vm Trusted blockifier url request state s trusted h

    -- On every state that it trusts, a server handles every request so that the storage cache stays
    -- vouched for: whatever the server comes to, each entry was read as the node sent it and, unless it
    -- is the zero, with an accepted proof against the root of a state that was trusted.
    pub Reached-Vouched : (s : Caches L₁ L₂ L₃ W) → Reached s → CachesVouched s
    unfolding beside
    Reached-Vouched _ (start s empty) = λ k v h. absurd (cc (empty k, h))
    Reached-Vouched _ (handled s state req r trusted) =
        handle-Keeps outer (local_server state) CachesVouched
          (context-Keeps serde (beside post) CachesVouched (λ url req s h. h) url crypto bits texts
            vm_felt local_executor state (λ request. local_executor-Keeps request state trusted))
          req s (Reached-Vouched s r)
    Reached-Vouched _ (outside s w r) = Reached-Vouched s r
