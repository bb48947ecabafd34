-- ===== src/Exe/Cache/Kept.antt =====
-- src/exe/cache.rs: what a cached read keeps of the state.
use beerus.Prelude.{Option, none, some, Outcome, ok, err, panic}
use beerus.Prelude.Effects.{Run, then_do}
use beerus.Exe.Cache.{Lru, cached, answer, remember}

-- What a step of a cached read keeps: reads below and writes of the cache do.
module _ {E L Key Val S : Type 0} (lru : Lru L Key Val) (read : S → L) (write : S → L → S)
    (Kept : S → Type 0) (ask : Run E S Val)
    (write-Kept : (s : S) (l : L) → Kept s → Kept (write s l))
    (ask-Kept : (s : S) → Kept s → Kept (ask s).1) where
  then_remember-Kept :
      (key : Key) (m : Outcome E Val × S)
      → Kept m.1
      → Kept (then_do m.0 m.1 (remember lru read write key)).1
  unfolding remember
  then_remember-Kept key (ok v, s) k = write-Kept s (lru.put (read s) key v).1 k
  then_remember-Kept key (err e, s) k = k
  then_remember-Kept key (panic, s) k = k

  answer-Kept :
      (key : Key) (hit : Option Val) (s : S) → Kept s → Kept (answer lru read write key ask hit s).1
  unfolding answer
  answer-Kept key (some v) s k = k
  answer-Kept key none s k = then_remember-Kept key (ask s) (ask-Kept s k)

  pub cached-Kept :
      (found_key : Outcome E Key) (s : S) → Kept s → Kept (cached lru read write found_key ask s).1
  unfolding cached
  cached-Kept (err e) s k = k
  cached-Kept panic s k = k
  cached-Kept (ok key) s k =
      answer-Kept key (lru.get (read s) key).0 (write s (lru.get (read s) key).1)
        (write-Kept s (lru.get (read s) key).1 k)
