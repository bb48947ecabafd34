-- ===== src/Exe/Cache.antt =====
-- src/exe/cache.rs: `CachedState`, which answers reads from three process-wide caches before it asks
-- the state below it. The cache (`lru`) and the 256-bit integers (`alloy_primitives`) are parameters.
pub mod Coherent
pub mod Again
pub mod Kept
use beerus.Prelude.{ℕ, Option, none, some, List, Str, Outcome, ok, err, panic}
use beerus.Prelude.Effects.{Run, ◌>>=◌, lift}
use beerus.Gen.Felt.{Felt}

-- `LruCache` with keys `Key` and values `Val`: a read also moves the entry to the front.
pub record Lru (L Key Val : Type 0) : Type 0 where
  pub get : L → Key → Option Val × L
  pub put : L → Key → Val → Option Val × L

-- `str::parse` to a U256, whose failure panics at the `unwrap`, and the bytes of a field element as
-- a U256.
pub record Words (U F : Type 0) : Type 0 where
  pub parse : Str → Option U
  pub from_felt : F → U

-- The state reader below the cache; `K` is a compiled contract class.
pub record StateReader (E W F K : Type 0) : Type 0 where
  pub get_block_hash : Felt
  pub get_storage_at : F → F → Run E W F
  pub get_nonce_at : F → Run E W F
  pub get_class_hash_at : F → Run E W F
  pub get_compiled_contract_class : F → Run E W K
  pub get_compiled_class_hash : F → Run E W F

-- The three caches, beside the world outside.
pub record Caches (L₁ L₂ L₃ W : Type 0) : Type 0 where
  pub storage : L₁
  pub class_hash : L₂
  pub contract_class : L₃
  pub world : W

module _ {E U F : Type 0} (words : Words U F) where
  unfoldable pub block_word : Felt → Outcome E U
  block_word block_hash = elim (words.parse block_hash.value) [ none ↦ panic | some u ↦ ok u ]

  -- `storage::key`, `class_hash::key` and `contract_class::key`
  unfoldable pub storage_key : Felt → F → F → Outcome E (U × U × U)
  unfolding block_word
  storage_key block_hash contract_address key = elim (block_word block_hash) [
    | ok u ↦ ok (u, words.from_felt contract_address, words.from_felt key)
    | err e ↦ err e
    | panic ↦ panic
  ]

  unfoldable pub pair_key : Felt → F → Outcome E (U × U)
  unfolding block_word
  pair_key block_hash felt = elim (block_word block_hash) [
    | ok u ↦ ok (u, words.from_felt felt)
    | err e ↦ err e
    | panic ↦ panic
  ]

module _ {E L Key Val S : Type 0} (lru : Lru L Key Val) (read : S → L) (write : S → L → S) where
  -- `get` of a cache module, and `set`, on the cache within the state `S`.
  unfoldable pub cache_get : Key → Run E S (Option Val)
  cache_get key s = let r = lru.get (read s) key in (ok r.0, write s r.1)

  unfoldable pub cache_set : Key → Val → Run E S (Option Val)
  cache_set key value s = let r = lru.put (read s) key value in (ok r.0, write s r.1)

  unfoldable pub remember : Key → Val → Run E S Val
  unfolding cache_set
  remember key value = do _ ← cache_set key value; lift (ok value)

  -- What is cached is returned; what is not is asked for, and put into the cache if it comes.
  unfoldable pub answer : Key → Run E S Val → Option Val → Run E S Val
  unfolding remember
  answer key ask (some ret) = lift (ok ret)
  answer key ask none = do ret ← ask; remember key ret

  unfoldable pub cached : Outcome E Key → Run E S Val → Run E S Val
  unfolding cache_get answer
  cached found_key ask = do key ← lift found_key; hit ← cache_get key; answer key ask hit

module _ {E W U F K L₁ L₂ L₃ : Type 0} (words : Words U F) (storages : Lru L₁ (U × U × U) F)
    (class_hashes : Lru L₂ (U × U) F) (classes : Lru L₃ (U × U) K)
    (inner : StateReader E W F K) where
  -- A read of the state below, beside the caches.
  unfoldable pub below : {A : Type 0} → Run E W A → Run E (Caches L₁ L₂ L₃ W) A
  below m s = let r = m s.world in (r.0, record s { world = r.1 })

  unfoldable pub cached_get_storage_at : F → F → Run E (Caches L₁ L₂ L₃ W) F
  unfolding cached storage_key below
  cached_get_storage_at contract_address key =
      cached storages (λ s. s.storage) (λ s l. record s { storage = l })
        (storage_key words inner.get_block_hash contract_address key)
        (below (inner.get_storage_at contract_address key))

  unfoldable pub cached_get_nonce_at : F → Run E (Caches L₁ L₂ L₃ W) F
  unfolding below
  cached_get_nonce_at contract_address = below (inner.get_nonce_at contract_address)

  unfoldable pub cached_get_class_hash_at : F → Run E (Caches L₁ L₂ L₃ W) F
  unfolding cached pair_key below
  cached_get_class_hash_at contract_address =
      cached class_hashes (λ s. s.class_hash) (λ s l. record s { class_hash = l })
        (pair_key words inner.get_block_hash contract_address)
        (below (inner.get_class_hash_at contract_address))

  unfoldable pub cached_get_compiled_contract_class : F → Run E (Caches L₁ L₂ L₃ W) K
  unfolding cached pair_key below
  cached_get_compiled_contract_class class_hash =
      cached classes (λ s. s.contract_class) (λ s l. record s { contract_class = l })
        (pair_key words inner.get_block_hash class_hash)
        (below (inner.get_compiled_contract_class class_hash))

  unfoldable pub cached_get_compiled_class_hash : F → Run E (Caches L₁ L₂ L₃ W) F
  unfolding below
  cached_get_compiled_class_hash class_hash = below (inner.get_compiled_class_hash class_hash)

  -- The writes of `BlockifierState`, each given to the state below as it is; the caches stay.
  unfoldable pub cached_write :
      {Op : Type 0} → (Op → Run E W (Unit {0})) → Op → Run E (Caches L₁ L₂ L₃ W) (Unit {0})
  unfolding below
  cached_write inner_write write = below (inner_write write)
