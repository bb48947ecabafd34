-- ===== src/Exe/Call/Fed.antt =====
-- src/exe/mod.rs and src/exe/cache.rs: which storage values the virtual machine is fed with.
use beerus.Prelude.{◌≡◌, refl, ap, Str, Outcome, Outcome-cases, ok, err, panic, inl, inr}
use beerus.Prelude.Effects.{Io, Run}
use beerus.Gen.Types.{FunctionCall}
use beerus.Gen.Client.{Serde, Request, Response}
use beerus.Client.{State}
use beerus.Util.{StarkCrypto, BitView}
use beerus.Exe.Map.{ExeError, StateError, Texts, VmFelt, felt_to_vm}
use beerus.Exe.Proxy.{StateProxy, Vm, proxy_write}
use beerus.Exe.Proxy.Reads.{Read, proxy_get_storage_at-Read}
use beerus.Exe.Cache.{
  Lru, Words, StateReader, Caches, cached, below, storage_key, pair_key, cached_get_storage_at,
  cached_get_nonce_at, cached_get_class_hash_at, cached_get_compiled_contract_class,
  cached_get_compiled_class_hash, cached_write,
}
use beerus.Exe.Cache.Coherent.{LruLaws, Coherent, Answered, cached-Answered}
use beerus.Exe.Cache.Kept.{cached-Kept}
use beerus.Exe.Call.{Query, Found, Program, finished, asking, telling, Blockifier, tx_context}
use beerus.Exe.Call.Run.{resume, cached_query, run, proxy_reader, run_over, exe_call}

-- What a machine is given: each result of a read as the predicate says, until it ends.
abbrev pub Feed :
    {E S A : Type 0} → (A → Type 0) → Outcome E A → S → (Outcome E A → S → Type 0) → Type 0
Feed Right (ok a) s next = Right a × next (ok a) s
Feed Right (err e) s next = next (err e) s
Feed Right panic s next = Unit

module _ {V W U F K L₁ L₂ L₃ : Type 0} (words : Words U F) (storages : Lru L₁ (U × U × U) F)
    (laws : LruLaws storages) (class_hashes : Lru L₂ (U × U) F) (classes : Lru L₃ (U × U) K)
    (serde : Serde V) (post : Str → Request V → Io W (Response V)) (crypto : StarkCrypto F)
    (bits : BitView) (texts : Texts) (vm_felt : VmFelt F) (vm : Vm K F)
    (Trusted : State → Type 0) where
  -- A value was read below under this cache entry: as the node sent it and, unless it is the zero, with
  -- an accepted proof against the root of a trusted state of the entry's block hash.
  pub record Vouched (entry : U × U × U) (value : F) : Type 0 where
    pub proxy : StateProxy
    pub contract_address : F
    pub key : F
    pub before : W
    pub after : W
    pub trusted : Trusted proxy.state
    pub same_entry :
        storage_key {E = StateError F} words proxy.state.block_hash contract_address key ≡ ok entry
    pub read :
        Read serde post crypto bits texts vm_felt vm proxy contract_address key value before after

  -- A storage value is vouched for, under the entry that the trusted block, the address and the key have.
  abbrev pub Right : StateProxy → (q : Query F) → Found K q → Type 0
  Right proxy (Query.storage_at address key) value =
      (entry : U × U × U) × (storage_key {E = StateError F} words proxy.state.block_hash address key
        ≡ ok entry)
      × Vouched entry value
  Right proxy (Query.nonce_at address) value = Unit
  Right proxy (Query.class_hash_at address) value = Unit
  Right proxy (Query.compiled_contract_class hash) value = Unit
  Right proxy (Query.compiled_class_hash hash) value = Unit

  abbrev reader : StateProxy → StateReader (StateError F) W F K
  reader proxy = proxy_reader serde post crypto bits texts vm_felt vm proxy

  abbrev query_of : StateProxy → (q : Query F) → Run (StateError F) (Caches L₁ L₂ L₃ W) (Found K q)
  query_of proxy = cached_query words storages class_hashes classes (reader proxy)

  -- Every storage value that a program is given on its run is vouched for.
  abbrev pub Fed : {R : Type 0} → StateProxy → Program F K R → Caches L₁ L₂ L₃ W → Type 0
  Fed proxy (finished result) s = Unit
  Fed proxy (asking q next) s =
      Feed (Right proxy q) (query_of proxy q s).0 (query_of proxy q s).1
        (λ found. Fed proxy (next found))
  Fed proxy (telling write next) s = Fed proxy (next (ok tt)) s

  abbrev Held : Caches L₁ L₂ L₃ W → Type 0
  Held s = Coherent storages Vouched s.storage

  entry_of : StateProxy → F → F → Outcome (StateError F) (U × U × U)
  unfolding storage_key
  entry_of proxy address key = storage_key words proxy.state.block_hash address key

  -- A read of the storage, when it has a cache entry.
  storage_at-Answered :
      (proxy : StateProxy) (address key : F) (entry : U × U × U) (s : Caches L₁ L₂ L₃ W)
      → Trusted proxy.state
      → storage_key {E = StateError F} words proxy.state.block_hash address key ≡ ok entry
      → Held s
      → Answered storages
          (λ c. c.storage)
          Vouched
          entry
          (query_of proxy (Query.storage_at address key) s)
  unfolding cached_query cached_get_storage_at proxy_reader below
  storage_at-Answered proxy address key entry s trusted e h = rw e (
      cached-Answered laws (λ c. c.storage) (λ s l. record s { storage = l }) (λ s l. refl) Vouched
        entry
        (below words storages class_hashes classes (reader proxy)
          ((reader proxy).get_storage_at address key))
        (λ s c. c)
        (λ s s' v a. record {
          proxy = proxy;
          contract_address = address;
          key = key;
          before = s.world;
          after = s'.world;
          trusted = trusted;
          same_entry = e;
          read =
              proxy_get_storage_at-Read serde post crypto bits texts vm_felt vm proxy address key
                s.world s'.world (ap (λ p. (p.0, p.1.world)) a);
        })
        s h)

  -- What a read comes to: the cache is kept, and what it finds is right.
  record Answers (proxy : StateProxy) (q : Query F)
      (r : Outcome (StateError F) (Found K q) × Caches L₁ L₂ L₃ W) : Type 0 where
    kept : Held r.1
    right : (v : Found K q) → r.0 ≡ ok v → Right proxy q v

  storage_at-Answers :
      (proxy : StateProxy) (address key : F) (s : Caches L₁ L₂ L₃ W)
      → Trusted proxy.state
      → Held s
      → Answers proxy
          (Query.storage_at address key)
          (query_of proxy (Query.storage_at address key) s)
  unfolding cached_query cached_get_storage_at proxy_reader cached
  storage_at-Answers proxy address key s trusted h =
      elim (Outcome-cases
        (storage_key {E = StateError F} words proxy.state.block_hash address key)) [
          | inl (entry, e) ↦
              let a = storage_at-Answered proxy address key entry s trusted e h in
              record { kept = a.coherent; right = λ v o. (entry, e, a.admitted v o) }
          | inr (inl (x, e)) ↦ rw e (record { kept = h; right = λ v o. absurd (cc) })
          | inr (inr e) ↦ rw e (record { kept = h; right = λ v o. absurd (cc) })
        ]

  query-Answers :
      (proxy : StateProxy) (q : Query F) (s : Caches L₁ L₂ L₃ W)
      → Trusted proxy.state
      → Held s
      → Answers proxy q (query_of proxy q s)
  unfolding cached_query cached_get_nonce_at cached_get_class_hash_at
      cached_get_compiled_contract_class cached_get_compiled_class_hash below proxy_reader
  query-Answers proxy (Query.storage_at address key) s trusted h =
      storage_at-Answers proxy address key s trusted h
  query-Answers proxy (Query.nonce_at address) s trusted h = record { kept = h; right = λ v o. tt }
  query-Answers proxy (Query.class_hash_at address) s trusted h = record {
    kept =
        cached-Kept class_hashes (λ s. s.class_hash) (λ s l. record s { class_hash = l }) Held
          (below words storages class_hashes classes (reader proxy)
            ((reader proxy).get_class_hash_at address))
          (λ s l k. k) (λ s k. k) (pair_key words proxy.state.block_hash address) s h;
    right = λ v o. tt;
  }
  query-Answers proxy (Query.compiled_contract_class hash) s trusted h = record {
    kept =
        cached-Kept classes (λ s. s.contract_class) (λ s l. record s { contract_class = l }) Held
          (below words storages class_hashes classes (reader proxy)
            ((reader proxy).get_compiled_contract_class hash))
          (λ s l k. k) (λ s k. k) (pair_key words proxy.state.block_hash hash) s h;
    right = λ v o. tt;
  }
  query-Answers proxy (Query.compiled_class_hash hash) s trusted h = record {
    kept = h;
    right = λ v o. tt;
  }

  abbrev run_program :
      {R : Type 0} → StateProxy → Program F K R → Run ExeError (Caches L₁ L₂ L₃ W) R
  run_program proxy =
      run_over serde post crypto bits texts vm_felt vm words storages class_hashes classes proxy

  resumed :
      {R : Type 0} (proxy : StateProxy) (q : Query F)
      (next : Outcome (StateError F) (Found K q) → Program F K R)
      (m : Outcome (StateError F) (Found K q)) (s : Caches L₁ L₂ L₃ W)
      → Answers proxy q (m, s)
      → ((o : Outcome (StateError F) (Found K q)) (t : Caches L₁ L₂ L₃ W)
          → Held t
          → Fed proxy (next o) t × Held (run_program proxy (next o) t).1)
      → Feed (Right proxy q) m s (λ found. Fed proxy (next found))
        × Held (resume m s (λ found. run_program proxy (next found))).1
  unfolding resume
  resumed proxy q next (ok v) s a ih =
      let (fed, kept) = ih (ok v) s a.kept in ((a.right v refl, fed), kept)
  resumed proxy q next (err e) s a ih = ih (err e) s a.kept
  resumed proxy q next panic s a ih = (tt, a.kept)

  pub run_over-Fed :
      {R : Type 0} (proxy : StateProxy) (program : Program F K R) (s : Caches L₁ L₂ L₃ W)
      → Trusted proxy.state
      → Coherent storages Vouched s.storage
      → Fed proxy program s × Coherent storages Vouched (run_program proxy program s).1.storage
  unfolding run_over run proxy_write cached_write below resume
  run_over-Fed proxy (finished result) s trusted h = (tt, h)
  run_over-Fed proxy (asking q next) s trusted h =
      resumed proxy q next (query_of proxy q s).0 (query_of proxy q s).1
        (query-Answers proxy q s trusted h) (λ o t k. run_over-Fed proxy (next o) t trusted k)
  run_over-Fed proxy (telling write next) s trusted h =
      run_over-Fed proxy (next (ok tt)) s trusted h

  abbrev called :
      {R C : Type 0}
      → Blockifier F K R C
      → Str
      → FunctionCall
      → State
      → Run ExeError (Caches L₁ L₂ L₃ W) R
  called blockifier url request state =
      exe_call serde post crypto bits texts vm_felt vm words storages class_hashes classes
        blockifier url request state

  -- A call on a trusted state keeps the cache: if every entry of the storage cache is vouched for
  -- before the call, then so it is after the call, whether the call returns, fails or panics.
  pub exe_call-Coherent :
      {R C : Type 0} (blockifier : Blockifier F K R C) (url : Str) (request : FunctionCall)
      (state : State) (s : Caches L₁ L₂ L₃ W)
      → Trusted state
      → Coherent storages Vouched s.storage
      → Coherent storages Vouched (called blockifier url request state s).1.storage
  unfolding exe_call
  exe_call-Coherent blockifier url request state s trusted h =
      elim (Outcome-cases (blockifier.new_context (tx_context blockifier))) [
        | inl (context, e) ↦
            rw e
              (elim (Outcome-cases
                (blockifier.contract_address (felt_to_vm vm_felt request.contract_address.felt))) [
                  | inl (address, e') ↦
                      rw e' (run_over-Fed (record { url = url; state = state }) _ s trusted h).1
                  | inr (inl (x, e')) ↦ rw e' h
                  | inr (inr e') ↦ rw e' h
                ])
        | inr (inl (x, e)) ↦ rw e h
        | inr (inr e) ↦ rw e h
      ]
