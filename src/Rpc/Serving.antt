-- ===== src/Rpc/Serving.antt =====
-- The server program as a whole: the update loop of src/bin/beerus.rs writes the state that the gateway
-- tells, and the server of src/rpc.rs handles requests on it, in any order.
use beerus.Prelude.{◌≡◌, none, Str, ok, err}
use beerus.Prelude.Effects.{Io}
use beerus.Client.{State}
use beerus.Exe.Cache.{Lru, Words, Caches}
use beerus.Exe.Cache.Coherent.{LruLaws}
use beerus.Exe.Call.{Blockifier}
use beerus.Exe.Map.{Texts, VmFelt}
use beerus.Exe.Proxy.{Vm}
use beerus.Feeder.{JsonView, Report, read_state}
use beerus.Feeder.Told.{Told}
use beerus.Gen.Client.{Serde, Request, Response}
use beerus.Gen.Server.Dispatch.{handle}
use beerus.Poll.{Polling, poll_start, poll_step}
use beerus.Rpc.Local.{local_server, Reached}
use beerus.Util.{StarkCrypto, BitView}

module _ {G V J W U F K L₁ L₂ L₃ R C : Type 0} (gateway : JsonView G) (words : Words U F)
    (storages : Lru L₁ (U × U × U) F) (class_hashes : Lru L₂ (U × U) F) (classes : Lru L₃ (U × U) K)
    (serde : Serde J) (post : Str → Request J → Io W (Response J)) (url : Str)
    (crypto : StarkCrypto F) (bits : BitView) (texts : Texts) (vm_felt : VmFelt F) (vm : Vm K F)
    (blockifier : Blockifier F K R C) (join_text : Str) (outer : Serde V)
    (laws : LruLaws storages) where
  -- A state that an answer of the gateway tells of a block accepted on L2.
  abbrev pub FromGateway : State → Type 0
  FromGateway state = (answer : G) × Told gateway answer state

  -- The lock and the loop's copy, and the world with its caches, after any steps of the program.
  pub data Serving : Polling → Caches L₁ L₂ L₃ W → Type 0 where
    started :
        (answer : G) (state : State) (s : Caches L₁ L₂ L₃ W)
        → read_state gateway answer ≡ ok state
        → ((k : U × U × U) → (storages.get s.storage k).0 ≡ none)
        → Serving (poll_start state) s
    polled :
        (p : Polling) (s : Caches L₁ L₂ L₃ W) (answer : G)
        → Serving p s
        → Serving (poll_step (read_state gateway answer) p) s
    failed :
        (p : Polling) (s : Caches L₁ L₂ L₃ W) (e : Report)
        → Serving p s
        → Serving (poll_step (err e) p) s
    requested :
        (p : Polling) (s : Caches L₁ L₂ L₃ W) (req : Request V)
        → Serving p s
        → Serving p
            (handle outer
              (local_server words storages class_hashes classes serde post url crypto bits texts
                vm_felt vm blockifier join_text p.shared)
              req
              s).1
    went_on :
        (p : Polling) (s : Caches L₁ L₂ L₃ W) (w : W)
        → Serving p s
        → Serving p (record s { world = w })

  abbrev ReachedHere : Caches L₁ L₂ L₃ W → Type 0
  ReachedHere =
      Reached words storages class_hashes classes serde post url crypto bits texts vm_felt vm
        blockifier join_text outer laws FromGateway
