-- ===== src/Rpc/Older.antt =====
-- src/rpc.rs: requests about blocks before the trusted one.
use beerus.Prelude.{◌<◌, ◌≡◌, refl, false, arith, leb, Str, as_u64}
use beerus.Prelude.Effects.{Io}
use beerus.Gen.Keys.{StorageKey}
use beerus.Gen.Numbers.{BlockNumber}
use beerus.Gen.Types.{Address}
use beerus.Gen.Blocks.{BlockId}
use beerus.Gen.Client.{Serde, Request, Response}
use beerus.Client.{State}
use beerus.Util.{StarkCrypto, BitView}
use beerus.Rpc.{resolve_block_by_number, resolve_block_id, rpc_get_storage_at}

module _ {V W : Type 0} (serde : Serde V) (post : Str → Request V → Io W (Response V))
    (url : Str) where
  older_test :
      (n : BlockNumber) (s : State)
      → as_u64 n.value < s.block_number
      → leb s.block_number (as_u64 n.value) ≡ false
  older_test n s h = ground arith

  resolve-older :
      (n : BlockNumber) (s s' : State) (w : W)
      → as_u64 n.value < s.block_number
      → as_u64 n.value < s'.block_number
      → resolve_block_id serde post url s (BlockId.block_number n) w
        ≡ resolve_block_id serde post url s' (BlockId.block_number n) w
  unfolding resolve_block_id resolve_block_by_number
  resolve-older n s s' w below below' = rw (older_test n s below, older_test n s' below') refl

  module _ {F : Type 0} (crypto : StarkCrypto F) (bits : BitView) where
    -- What `getStorageAt` answers about a number below that of the trusted block is the same for any two
    -- trusted states: it depends on neither the trusted root nor the trusted hash.
    pub rpc_get_storage_at-older :
        (n : BlockNumber) (s s' : State) (address : Address) (key : StorageKey) (w : W)
        → as_u64 n.value < s.block_number
        → as_u64 n.value < s'.block_number
        → rpc_get_storage_at serde post url crypto bits s address key (BlockId.block_number n) w
          ≡ rpc_get_storage_at serde post url crypto bits s' address key (BlockId.block_number n) w
    unfolding rpc_get_storage_at
    rpc_get_storage_at-older n s s' address key w below below' =
        rw (resolve-older n s s' w below below') refl
