-- ===== src/Exe/Call/Writes.antt =====
-- src/exe/mod.rs: what becomes of the writes of a call.
use beerus.Prelude.{Str, ◌≡◌, refl, Outcome, ok, err, panic}
use beerus.Prelude.Effects.{Io, Run}
use beerus.Gen.Client.{Serde, Request, Response}
use beerus.Util.{StarkCrypto, BitView}
use beerus.Exe.Map.{ExeError, Texts, VmFelt}
use beerus.Exe.Proxy.{StateProxy, Vm, proxy_write}
use beerus.Exe.Cache.{Lru, Words, Caches, below, cached_write}
use beerus.Exe.Call.{Program, finished, asking, telling}
use beerus.Exe.Call.Run.{resume, run, run_over}

-- The program without its writes, each of which it takes for done.
abbrev pub without_writes : {F K R : Type 0} → Program F K R → Program F K R
without_writes (finished result) = finished result
without_writes (asking q next) = asking q (λ o. without_writes (next o))
without_writes (telling write next) = without_writes (next (ok tt))

resume_same :
    {E E' S A B : Type 0} (m : Outcome E A) (s : S) {f g : Outcome E A → Run E' S B}
    → ((o : Outcome E A) (t : S) → f o t ≡ g o t)
    → resume m s f ≡ resume m s g
unfolding resume
resume_same (ok a) s same = same (ok a) s
resume_same (err e) s same = same (err e) s
resume_same panic s same = refl

module _ {V W U F K L₁ L₂ L₃ : Type 0} (words : Words U F) (storages : Lru L₁ (U × U × U) F)
    (class_hashes : Lru L₂ (U × U) F) (classes : Lru L₃ (U × U) K) (serde : Serde V)
    (post : Str → Request V → Io W (Response V)) (crypto : StarkCrypto F) (bits : BitView)
    (texts : Texts) (vm_felt : VmFelt F) (vm : Vm K F) (proxy : StateProxy) where
  abbrev run_program : {R : Type 0} → Program F K R → Run ExeError (Caches L₁ L₂ L₃ W) R
  run_program =
      run_over serde post crypto bits texts vm_felt vm words storages class_hashes classes proxy

  -- A call runs as it would without its writes: it ends in the same result, the same caches and the
  -- same world.
  pub run_over-without_writes :
      {R : Type 0} (program : Program F K R) (s : Caches L₁ L₂ L₃ W)
      → run_program program s ≡ run_program (without_writes program) s
  unfolding run_over run proxy_write cached_write below resume
  run_over-without_writes (finished result) s = refl
  run_over-without_writes (asking q next) s =
      resume_same _ _ (λ o t. run_over-without_writes (next o) t)
  run_over-without_writes (telling write next) s = run_over-without_writes (next (ok tt)) s
