-- ===== src/Exe/Cache/Again.antt =====
-- src/exe/cache.rs: what a read of the storage cache leaves behind for the next one.
use beerus.Prelude.{◌≡◌, refl, ◌∙◌, Option, none, some, ok}
use beerus.Prelude.Effects.{Run, ok-pair, then_do-inv}
use beerus.Exe.Cache.{
  Lru, Words, StateReader, Caches, cached, cache_get, remember, answer, storage_key,
  cached_get_storage_at,
}
use beerus.Exe.Cache.Coherent.{Holds, LruLaws}

module _ {E L Key Val S : Type 0} {lru : Lru L Key Val} (laws : LruLaws lru) (read : S → L)
    (write : S → L → S) (read-write : (s : S) (l : L) → read (write s l) ≡ l) (key : Key)
    (ask : Run E S Val) where
  remember-Holds :
      (v : Val) (s s' : S) {u : Val}
      → remember {E = E} lru read write key v s ≡ (ok u, s')
      → Holds lru (read s') key u
  unfolding remember
  remember-Holds v s s' {u} h =
      let (e, e') = ok-pair h in rw (← e, ← e', read-write) (laws.get-put_self (read s) key v)

  -- After a read that returned a value the cache holds it.
  answer-Holds :
      (hit : Option Val) (s s' : S) {u : Val}
      → ((v : Val) → hit ≡ some v → Holds lru (read s) key v)
      → answer lru read write key ask hit s ≡ (ok u, s')
      → Holds lru (read s') key u
  unfolding answer
  answer-Holds (some v) s s' held h = let (e, e') = ok-pair h in rw (← e, ← e') (held v refl)
  answer-Holds none s s' held h =
      let (v, e, k) = then_do-inv (ask s) _ h in remember-Holds v (ask s).1 s' k

  cached-Holds :
      (s s' : S) {u : Val}
      → cached lru read write (ok key) ask s ≡ (ok u, s')
      → Holds lru (read s') key u
  unfolding cached cache_get
  cached-Holds s s' h =
      answer-Holds (lru.get (read s) key).0 (write s (lru.get (read s) key).1) s'
        (λ v e. rw read-write (laws.get-get (read s) key key ∙ e)) h

  cached-hit :
      (s : S) (v : Val)
      → Holds lru (read s) key v
      → cached lru read write (ok key) ask s ≡ (ok v, write s (lru.get (read s) key).1)
  unfolding cached answer cache_get
  cached-hit s v h = rw h

module _ {E W U F K L₁ L₂ L₃ : Type 0} (words : Words U F) {storages : Lru L₁ (U × U × U) F}
    (laws : LruLaws storages) (class_hashes : Lru L₂ (U × U) F) (classes : Lru L₃ (U × U) K) where
  -- A storage value that was read once is read again, by the same state or by another one of the
  -- same block hash, from the cache alone: the same value comes, and the world outside is not asked.
  pub cached_get_storage_at_again :
      (inner inner' : StateReader E W F K) (address key : F) (entry : U × U × U)
      (s s' : Caches L₁ L₂ L₃ W) {value : F}
      → storage_key {E = E} words inner.get_block_hash address key ≡ ok entry
      → inner'.get_block_hash ≡ inner.get_block_hash
      → cached_get_storage_at words storages class_hashes classes inner address key s
        ≡ (ok value, s')
      → (t : Caches L₁ L₂ L₃ W) × (cached_get_storage_at words storages class_hashes classes inner'
            address key s'
          ≡ (ok value, t))
        × (t.world ≡ s'.world)
  unfolding cached_get_storage_at
  cached_get_storage_at_again inner inner' address key entry s s' {value} found same h =
      let read : Caches L₁ L₂ L₃ W → L₁ = λ c. c.storage in
      let write : Caches L₁ L₂ L₃ W → L₁ → Caches L₁ L₂ L₃ W = λ c l. record c { storage = l } in
      let held = cached-Holds laws read write (λ c l. refl) entry _ s s' (rw found at h) in
      (
        write s' (storages.get s'.storage entry).1,
        rw (same, found) (cached-hit laws read write (λ c l. refl) entry _ s' value held),
        refl,
      )
