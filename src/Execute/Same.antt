-- ===== src/Execute/Same.antt =====
-- `Client::execute` of src/client.rs and `call` of src/rpc.rs: the two ways to the executor.
use beerus.Prelude.{
  ◌>>=◌, ◌≡◌, ◌↔◌, refl, ap, List, [], ◌∷◌, Outcome, ok, err, panic, Error, map_err, map_err-inv,
  arith,
}
use beerus.Prelude.Effects.{Run, then_do, lift}
use beerus.Gen.Felt.{Felt}
use beerus.Gen.Blocks.{BlockId}
use beerus.Gen.Types.{FunctionCall}
use beerus.Client.{State}
use beerus.Exe.Map.{ExeError, Texts, VmFelt, felt_from_vm, rpc_error}
use beerus.Feeder.{Report}
use beerus.Execute.{as_felt, felts_of, execute}
use beerus.Execute.Agree.{as_felt_iff}
use beerus.Rpc.Context.{Executor, joined, retdata_felts, context_call}

-- The step of both loops over the data of a call.
abbrev collected : {E A : Type 0} → Outcome E A → Outcome E (List A) → Outcome E (List A)
collected first rest = elim first [
  | err e ↦ err e
  | panic ↦ panic
  | ok f ↦ elim rest [ err e ↦ err e | panic ↦ panic | ok fs ↦ ok (f ∷ fs) ]
]

collected-inv :
    {E A : Type 0} (first : Outcome E A) (rest : Outcome E (List A)) {fs : List A}
    → collected first rest ≡ ok fs
    → (f : A) × (gs : List A) × (first ≡ ok f) × (rest ≡ ok gs) × (fs ≡ f ∷ gs)
collected-inv (ok f) (ok gs) h = (f, gs, refl, refl, ground arith)
collected-inv (ok f) (err e) h = absurd (ground arith)
collected-inv (ok f) panic h = absurd (ground arith)
collected-inv (err e) rest h = absurd (ground arith)
collected-inv panic rest h = absurd (ground arith)

collected_ok :
    {E A : Type 0} {first : Outcome E A} {rest : Outcome E (List A)} {f : A} {fs gs : List A}
    → first ≡ ok f
    → rest ≡ ok gs
    → fs ≡ f ∷ gs
    → collected first rest ≡ ok fs
collected_ok e r same = rw (e, r, same) refl

module _ {F : Type 0} (vm : VmFelt F) where
  felts_of-retdata :
      (felts : List F) (fs : List Felt) → felts_of vm felts ≡ ok fs → retdata_felts vm felts ≡ ok fs
  unfolding felts_of retdata_felts
  felts_of-retdata [] fs h = ground arith
  felts_of-retdata (x ∷ felts) fs h =
      let (f, gs, e, r, same) =
        collected-inv (as_felt vm (vm.vm_bytes_be x)) (felts_of vm felts) h in
      collected_ok ((as_felt_iff vm x f).0 e) (felts_of-retdata felts gs r) same

  retdata-felts_of :
      (felts : List F) (fs : List Felt) → retdata_felts vm felts ≡ ok fs → felts_of vm felts ≡ ok fs
  unfolding felts_of retdata_felts
  retdata-felts_of [] fs h = ground arith
  retdata-felts_of (x ∷ felts) fs h =
      let (f, gs, e, r, same) = collected-inv (felt_from_vm vm x) (retdata_felts vm felts) h in
      collected_ok ((as_felt_iff vm x f).1 e) (retdata-felts_of felts gs r) same

module _ {F W : Type 0} (texts : Texts) (vm : VmFelt F) (report : ExeError → Report)
    (executor : Executor F W) where
  -- The client's `?` makes a report of an error of the executor.
  abbrev pub reported : FunctionCall → State → Run Report W (List F)
  reported request state w = let r = executor.exe_call request state w in (map_err report r.0, r.1)

  abbrev server_result : Outcome ExeError (List F) → Outcome Error (List Felt)
  server_result m = joined texts vm executor.join_text m >>= λ retdata.
      map_err (rpc_error texts) (retdata_felts vm retdata)

  to_server :
      (m : Outcome ExeError (List F)) (w w' : W) (fs : List Felt)
      → then_do {W = W} (map_err report m) w (λ retdata. lift (felts_of vm retdata)) ≡ (ok fs, w')
      → ◌≡◌ {A = Outcome Error (List Felt) × W} (server_result m, w) (ok fs, w')
  unfolding joined
  to_server (ok felts) w w' fs h =
      rw (felts_of-retdata vm felts fs (ap (λ o. o.0) h)) (cc (ap (λ o. o.1) h))
  to_server (err e) w w' fs h = absurd (ground arith)
  to_server panic w w' fs h = absurd (ground arith)

  to_client :
      (m : Outcome ExeError (List F)) (w w' : W) (fs : List Felt)
      → ◌≡◌ {A = Outcome Error (List Felt) × W} (server_result m, w) (ok fs, w')
      → then_do {W = W} (map_err report m) w (λ retdata. lift (felts_of vm retdata)) ≡ (ok fs, w')
  unfolding joined
  to_client (ok felts) w w' fs h =
      rw
        (retdata-felts_of vm felts fs
          (map_err-inv (rpc_error texts) (retdata_felts vm felts) (ap (λ o. o.0) h)))
        (cc (ap (λ o. o.1) h))
  to_client (err e) w w' fs h = absurd (ground arith)
  to_client panic w w' fs h = absurd (ground arith)

  -- The client's `execute` and the server's `call` return the same field elements for a call on a
  -- state, and leave the world alike: one returns a result exactly if the other does, whatever
  -- block the server is asked for.
  pub execute_iff :
      (request : FunctionCall) (state : State) (block_id : BlockId) (w w' : W) (fs : List Felt)
      → (execute vm reported request state w ≡ (ok fs, w'))
        ↔ (context_call texts vm executor state request block_id w ≡ (ok fs, w'))
  unfolding execute context_call
  execute_iff request state block_id w w' fs = (
    to_server (executor.exe_call request state w).0 (executor.exe_call request state w).1 w' fs,
    to_client (executor.exe_call request state w).0 (executor.exe_call request state w).1 w' fs,
  )
