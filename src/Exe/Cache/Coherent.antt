-- ===== src/Exe/Cache/Coherent.antt =====
-- src/exe/cache.rs: what the entries of a cache have to do with the state below it.
use beerus.Prelude.{
  ◌≡◌, ◌⊎◌, inl, inr, refl, sym, ap, subst₂, ◌∙◌, Option, none, some, Outcome, ok, err, panic,
}
use beerus.Prelude.Effects.{Run, then_do}
use beerus.Exe.Cache.{
  Lru, Words, StateReader, Caches, cached, remember, answer, remember, below, storage_key,
  cached_get_storage_at,
}

-- The cache holds the value under the key.
abbrev pub Holds : {L Key Val : Type 0} → Lru L Key Val → L → Key → Val → Type 0
Holds lru l key value = (lru.get l key).0 ≡ some value

-- Documented of `lru`: a read changes no entry, and a write of an entry adds that entry and no other.
pub record LruLaws {L Key Val : Type 0} (lru : Lru L Key Val) : Type 0 where
  pub get-get : (l : L) (j k : Key) → (lru.get (lru.get l k).1 j).0 ≡ (lru.get l j).0
  pub get-put_self : (l : L) (k : Key) (v : Val) → Holds lru (lru.put l k v).1 k v
  pub get-put :
      (l : L) (j k : Key) (u v : Val)
      → Holds lru (lru.put l k v).1 j u
      → ((j ≡ k) × (u ≡ v)) ⊎ Holds lru l j u

-- Every entry is as the predicate says.
abbrev pub Coherent : {L Key Val : Type 0} → Lru L Key Val → (Key → Val → Type 0) → L → Type 0
Coherent {Key = Key} {Val = Val} lru Truth l = (k : Key) (v : Val) → Holds lru l k v → Truth k v

module _ {L Key Val : Type 0} {lru : Lru L Key Val} (laws : LruLaws lru)
    (Truth : Key → Val → Type 0) where
  get-Coherent : (l : L) (key : Key) → Coherent lru Truth l → Coherent lru Truth (lru.get l key).1
  get-Coherent l key c = λ k v h. c k v (sym (laws.get-get l k key) ∙ h)

  put-Coherent :
      (l : L) (key : Key) (value : Val)
      → Truth key value
      → Coherent lru Truth l
      → Coherent lru Truth (lru.put l key value).1
  put-Coherent l key value t c = λ k v h. elim (laws.get-put l k key v value h) [
    | inl same ↦ subst₂ Truth (sym same.0) (sym same.1) t
    | inr old ↦ c k v old
  ]

module _ {E L Key Val S : Type 0} (lru : Lru L Key Val) (read : S → L) (Truth : Key → Val → Type 0)
    (key : Key) where
  -- What a read comes to: a state whose cache is coherent, and a value that the predicate admits.
  pub record Answered (result : Outcome E Val × S) : Type 0 where
    pub coherent : Coherent lru Truth (read result.1)
    pub admitted : (v : Val) → result.0 ≡ ok v → Truth key v

module _ {E L Key Val S : Type 0} {lru : Lru L Key Val} (laws : LruLaws lru) (read : S → L)
    (write : S → L → S) (read-write : (s : S) (l : L) → read (write s l) ≡ l)
    (Truth : Key → Val → Type 0) (key : Key) (ask : Run E S Val)
    (ask-Coherent : (s : S) → Coherent lru Truth (read s) → Coherent lru Truth (read (ask s).1))
    (ask-Truth : (s s' : S) (v : Val) → ask s ≡ (ok v, s') → Truth key v) where
  remember-Answered :
      (m : Outcome E Val × S)
      → Coherent lru Truth (read m.1)
      → ((v : Val) → m.0 ≡ ok v → Truth key v)
      → Answered lru read Truth key (then_do m.0 m.1 (remember lru read write key))
  unfolding remember
  remember-Answered (ok v, s) c t = record {
    coherent = rw read-write (put-Coherent laws Truth (read s) key v (t v refl) c);
    admitted = t;
  }
  remember-Answered (err e, s) c t = record { coherent = c; admitted = λ v h. absurd (cc) }
  remember-Answered (panic, s) c t = record { coherent = c; admitted = λ v h. absurd (cc) }

  answer-Answered :
      (hit : Option Val) (s : S)
      → ((v : Val) → hit ≡ some v → Truth key v)
      → Coherent lru Truth (read s)
      → Answered lru read Truth key (answer lru read write key ask hit s)
  unfolding answer
  answer-Answered (some v) s t c = record { coherent = c; admitted = λ u h. t u (cc) }
  answer-Answered none s t c =
      remember-Answered (ask s) (ask-Coherent s c)
        (λ v h. ask-Truth s (ask s).1 v (ap (λ o. (o, (ask s).1)) h))

  pub cached-Answered :
      (s : S)
      → Coherent lru Truth (read s)
      → Answered lru read Truth key (cached lru read write (ok key) ask s)
  unfolding cached
  cached-Answered s c =
      answer-Answered (lru.get (read s) key).0 (write s (lru.get (read s) key).1) (λ v h. c key v h)
        (rw read-write (get-Coherent laws Truth (read s) key c))

module _ {E W U F K L₁ : Type 0} (words : Words U F) {storages : Lru L₁ (U × U × U) F}
    (laws : LruLaws storages) (inner : StateReader E W F K) where
  -- The value is one that the state below answers under some address and key of this cache entry.
  pub record Answer (entry : U × U × U) (value : F) : Type 0 where
    pub contract_address : F
    pub key : F
    pub before : W
    pub after : W
    pub same_entry : storage_key {E = E} words inner.get_block_hash contract_address key ≡ ok entry
    pub answered : inner.get_storage_at contract_address key before ≡ (ok value, after)

  -- If every entry of the storage cache is an answer of the state below under that entry, so it is
  -- after a read, however the read ends, and a value that the read returns is such an answer for
  -- the entry of the address and the key that were asked for.
  pub cached_get_storage_at-Answered :
      {L₂ L₃ : Type 0} (class_hashes : Lru L₂ (U × U) F) (classes : Lru L₃ (U × U) K)
      (address key : F) (entry : U × U × U) (s : Caches L₁ L₂ L₃ W)
      → storage_key {E = E} words inner.get_block_hash address key ≡ ok entry
      → Coherent storages Answer s.storage
      → Answered storages
          (λ c. c.storage)
          Answer
          entry
          (cached_get_storage_at words storages class_hashes classes inner address key s)
  unfolding cached_get_storage_at below
  cached_get_storage_at-Answered class_hashes classes address key entry s h c = rw h (
      cached-Answered laws (λ c. c.storage) (λ s l. record s { storage = l }) (λ s l. refl) Answer
        entry (below words storages class_hashes classes inner (inner.get_storage_at address key))
        (λ s c. c)
        (λ s s' v e. record {
          contract_address = address;
          key = key;
          before = s.world;
          after = s'.world;
          same_entry = h;
          answered = ap (λ p. (p.0, p.1.world)) e;
        })
        s c)
