-- ===== src/Rpc.antt =====
-- src/rpc.rs: the server's context, which resolves the block of a request against the state that the
-- client trusts, and its method `getStorageAt`.
pub mod Resolve
pub mod Storage
pub mod Batch
pub mod Chain
pub mod Txns
pub mod Context
pub mod Sockets
pub mod Genuine
pub mod Older
pub mod Keeps
pub mod Local
pub mod Serving
pub mod Answer
use Prim.Native.String.{String}
use beerus.Prelude.{
  ℕ, ◌-◌, ◌%◌, ◌^◌, Bool, true, false, not, ◌||◌, Option, none, some, List, [], ◌∷◌, leb, ltb, ◌==◌,
  if◌then◌else◌, Str, text, str_eq, Outcome, ok, err, panic, Error, ℤ, pos, negsuc, as_u64,
}
use beerus.Prelude.Effects.{Io, ◌>>=◌, lift}
use beerus.Gen.Felt.{Felt}
use beerus.Gen.Keys.{StorageKey}
use beerus.Gen.Numbers.{BlockNumber, try_block_number}
use beerus.Gen.Types.{Address, BlockHash, GetProofResult}
use beerus.Gen.Blocks.{
  BlockId, BlockTag, BlockWithTxHashes, GetBlockWithTxHashesResult, block_with_tx_hashes,
  pending_block_with_tx_hashes,
}
use beerus.Gen.Client.{Serde, Request, Response}
use beerus.Gen.Client.Chain.{get_proof, get_storage_at, get_block_with_tx_hashes}
use beerus.Client.{State}
use beerus.Util.{StarkCrypto, BitView}
use beerus.Proof.Verify.{verify}

-- `as i64` of a `u64`.
unfoldable pub as_i64 : ℕ → ℤ
as_i64 n = if ltb (n % 2 ^ 64) (2 ^ 63) then pos (n % 2 ^ 64) else negsuc (2 ^ 64 - 1 - n % 2 ^ 64)

refusal : Str → Error
refusal message = record { code = negsuc 0; message = message }

module _ {V W : Type 0} (serde : Serde V) (post : Str → Request V → Io W (Response V))
    (url : Str) where
  unfoldable pub state_of_block : GetBlockWithTxHashesResult → Outcome Error State
  unfolding refusal as_u64
  state_of_block (block_with_tx_hashes block) = ok (record {
    block_number = as_u64 block.block_header.block_number.value;
    block_hash = block.block_header.block_hash.felt;
    root = block.block_header.new_root;
  })
  state_of_block (pending_block_with_tx_hashes _) = err (refusal (text "Pending block received"))

  -- The state of a block, as the node tells it.
  unfoldable pub get_state : BlockId → Io W State
  unfolding state_of_block
  get_state block_id = do
    block ← get_block_with_tx_hashes serde post url block_id
    lift (state_of_block block)

  -- The answer about an older block is taken if it is about the number that was asked for.
  unfoldable pub check_number : BlockNumber → State → Outcome Error (BlockId × Felt)
  unfolding refusal as_u64
  check_number block_number state =
      if not (state.block_number == as_u64 block_number.value)
      then err (refusal (text "Failed to verify requested block by number"))
      else ok (BlockId.block_number block_number, state.root)

  -- A block's id and root for the number of the trusted state.
  unfoldable pub current_block : State → Outcome Error (BlockId × Felt)
  unfolding as_i64 try_block_number
  current_block current = elim (try_block_number (as_i64 current.block_number)) [
    | ok n ↦ ok (BlockId.block_number n, current.root)
    | err e ↦ err e
    | panic ↦ panic
  ]

  unfoldable pub resolve_block_by_number : BlockNumber → State → Io W (BlockId × Felt)
  unfolding as_u64
  resolve_block_by_number block_number current =
      if leb current.block_number (as_u64 block_number.value)
      then lift (current_block current)
      else (do
        state ← get_state (BlockId.block_number block_number)
        lift (check_number block_number state))

  -- The answer about another block is taken if it is about that hash and about an older block.
  unfoldable pub check_hash : BlockHash → State → State → Outcome Error (BlockId × Felt)
  unfolding refusal
  check_hash block_hash current state =
      if not (str_eq block_hash.felt.value state.block_hash.value)
        || leb current.block_number state.block_number
      then err (refusal (text "Failed to verify requested block by hash"))
      else ok (BlockId.block_hash block_hash, state.root)

  unfoldable pub resolve_block_by_hash : BlockHash → State → Io W (BlockId × Felt)
  resolve_block_by_hash block_hash current =
      if str_eq block_hash.felt.value current.block_hash.value
      then lift (ok (BlockId.block_hash block_hash, current.root))
      else (do
        state ← get_state (BlockId.block_hash block_hash)
        lift (check_hash block_hash current state))

  -- The server's state is read once, and held while the block is resolved.
  unfoldable pub resolve_block_id : State → BlockId → Io W (BlockId × Felt)
  unfolding refusal
  resolve_block_id state (BlockId.block_number n) = resolve_block_by_number n state
  resolve_block_id state (BlockId.block_hash h) = resolve_block_by_hash h state
  resolve_block_id state (BlockId.block_tag BlockTag.latest) = lift (current_block state)
  resolve_block_id state (BlockId.block_tag BlockTag.pending) =
      lift (err (refusal (text "Pending block is not supported")))

  module _ {F : Type 0} (crypto : StarkCrypto F) (bits : BitView) where
    -- `getStorageAt` of the server.
    unfoldable pub rpc_get_storage_at : State → Address → StorageKey → BlockId → Io W Felt
    rpc_get_storage_at state contract_address key block_id = do
      resolved ← resolve_block_id state block_id
      let block = resolved.0
      let state_root = resolved.1
      result ← get_storage_at serde post url contract_address key block
      proof ← get_proof serde post url block contract_address (key ∷ [])
      _ ← lift (verify crypto bits proof state_root contract_address key result)
      lift (ok result)
