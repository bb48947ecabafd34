-- ===== src/Exe/Call/Run.antt =====
-- `exe::call` of src/exe/mod.rs, run: the machine over `CachedState` over `StateProxy`.
use beerus.Prelude.{map, Str, Outcome, ok, err, panic}
use beerus.Prelude.Effects.{Io, Run, ◌>>=◌, lift}
use beerus.Gen.Types.{FunctionCall}
use beerus.Gen.Client.{Serde, Request, Response}
use beerus.Client.{State}
use beerus.Util.{StarkCrypto, BitView}
use beerus.Exe.Map.{ExeError, StateError, Texts, VmFelt, felt_to_vm}
use beerus.Exe.Proxy.{
  StateProxy, Vm, Write, proxy_get_storage_at, proxy_get_nonce_at, proxy_get_class_hash_at,
  proxy_get_compiled_contract_class, proxy_get_compiled_class_hash, proxy_write,
}
use beerus.Exe.Cache.{
  Lru, Words, StateReader, Caches, cached_get_storage_at, cached_get_nonce_at,
  cached_get_class_hash_at, cached_get_compiled_contract_class, cached_get_compiled_class_hash,
  cached_write,
}
use beerus.Exe.Call.{
  Query, Found, Program, finished, asking, telling, Blockifier, tx_context, call_entry_point,
}

-- An operation of the state is done, and the machine goes on with what it returned, unless it panicked.
unfoldable pub resume :
    {E E' S A B : Type 0} → Outcome E A → S → (Outcome E A → Run E' S B) → Outcome E' B × S
resume panic s next = (panic, s)
resume (ok a) s next = next (ok a) s
resume (err e) s next = next (err e) s

module _ {W U F K L₁ L₂ L₃ : Type 0} (words : Words U F) (storages : Lru L₁ (U × U × U) F)
    (class_hashes : Lru L₂ (U × U) F) (classes : Lru L₃ (U × U) K)
    (inner : StateReader (StateError F) W F K) where
  -- The reads of `CachedState`.
  unfoldable pub cached_query : (q : Query F) → Run (StateError F) (Caches L₁ L₂ L₃ W) (Found K q)
  cached_query (Query.storage_at address key) =
      cached_get_storage_at words storages class_hashes classes inner address key
  cached_query (Query.nonce_at address) =
      cached_get_nonce_at words storages class_hashes classes inner address
  cached_query (Query.class_hash_at address) =
      cached_get_class_hash_at words storages class_hashes classes inner address
  cached_query (Query.compiled_contract_class hash) =
      cached_get_compiled_contract_class words storages class_hashes classes inner hash
  cached_query (Query.compiled_class_hash hash) =
      cached_get_compiled_class_hash words storages class_hashes classes inner hash

  -- A machine over `CachedState`.
  unfoldable pub run :
      {R : Type 0}
      → (Write K F → Run (StateError F) W (Unit {0}))
      → Program F K R
      → Run ExeError (Caches L₁ L₂ L₃ W) R
  unfolding resume
  run inner_write (finished result) s = (result, s)
  run inner_write (asking query next) s =
      let r = cached_query query s in resume r.0 r.1 (λ found. run inner_write (next found))
  run inner_write (telling write next) s =
      let r = cached_write words storages class_hashes classes inner inner_write write s in
      resume r.0 r.1 (λ done. run inner_write (next done))

module _ {V W F K : Type 0} (serde : Serde V) (post : Str → Request V → Io W (Response V))
    (crypto : StarkCrypto F) (bits : BitView) (texts : Texts) (vm_felt : VmFelt F)
    (vm : Vm K F) where
  -- `StateProxy` as a state reader, with its block's hash.
  unfoldable pub proxy_reader : StateProxy → StateReader (StateError F) W F K
  proxy_reader proxy = record {
    get_block_hash = proxy.state.block_hash;
    get_storage_at = proxy_get_storage_at serde post crypto bits texts vm_felt vm proxy;
    get_nonce_at = proxy_get_nonce_at serde post crypto bits texts vm_felt vm proxy;
    get_class_hash_at = proxy_get_class_hash_at serde post crypto bits texts vm_felt vm proxy;
    get_compiled_contract_class =
        proxy_get_compiled_contract_class serde post crypto bits texts vm_felt vm proxy;
    get_compiled_class_hash =
        proxy_get_compiled_class_hash serde post crypto bits texts vm_felt vm proxy;
  }

  unfoldable pub run_over :
      {U R L₁ L₂ L₃ : Type 0}
      → Words U F
      → Lru L₁ (U × U × U) F
      → Lru L₂ (U × U) F
      → Lru L₃ (U × U) K
      → StateProxy
      → Program F K R
      → Run ExeError (Caches L₁ L₂ L₃ W) R
  unfolding proxy_reader
  run_over words storages class_hashes classes proxy =
      run words storages class_hashes classes (proxy_reader proxy)
        (proxy_write serde post crypto bits texts vm_felt vm proxy)

  -- `call`, with the client's URL.
  unfoldable pub exe_call :
      {U R C L₁ L₂ L₃ : Type 0}
      → Words U F
      → Lru L₁ (U × U × U) F
      → Lru L₂ (U × U) F
      → Lru L₃ (U × U) K
      → Blockifier F K R C
      → Str
      → FunctionCall
      → State
      → Run ExeError (Caches L₁ L₂ L₃ W) R
  unfolding run_over
  exe_call words storages class_hashes classes blockifier url function_call state = do
    context ← lift (blockifier.new_context (tx_context blockifier))
    storage_address ←
        lift (blockifier.contract_address (felt_to_vm vm_felt function_call.contract_address.felt))
    run_over words storages class_hashes classes (record { url = url; state = state })
        (blockifier.execute
          (call_entry_point blockifier (felt_to_vm vm_felt function_call.entry_point_selector)
            (map (felt_to_vm vm_felt) function_call.calldata) storage_address)
          context)
