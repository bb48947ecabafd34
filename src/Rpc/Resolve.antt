-- ===== src/Rpc/Resolve.antt =====
-- src/rpc.rs: which root a request is checked against.
use beerus.Prelude.{
  ◌^◌, ◌<◌, ◌≡◌, inl, inr, ap, true, arith, leb, Bool-cases, Str, str_eq, str_eq→≡, ok, pos, as_u64,
}
use beerus.Prelude.Effects.{Io, then_do-inv}
use beerus.Gen.Felt.{Felt}
use beerus.Gen.Numbers.{BlockNumber}
use beerus.Gen.Types.{BlockHash}
use beerus.Gen.Blocks.{BlockId, BlockTag}
use beerus.Gen.Client.{Serde, Request, Response}
use beerus.Client.{State}
use beerus.Rpc.{
  get_state, check_number, current_block, resolve_block_by_number, check_hash,
  resolve_block_by_hash, resolve_block_id,
}

-- The block is the one of the state: by its number, or by its hash.
pub data Names (s : State) (b : BlockId) : Type 0 where
  by_number : b ≡ BlockId.block_number (record { value = pos s.block_number }) → Names s b
  by_hash : (h : BlockHash) → b ≡ BlockId.block_hash h → h.felt ≡ s.block_hash → Names s b

-- The block is the one that was asked for, and an answer of the node is about it.
pub data Matches (answer : State) (b : BlockId) : Type 0 where
  same_number :
      (n : BlockNumber)
      → b ≡ BlockId.block_number n
      → answer.block_number ≡ as_u64 n.value
      → Matches answer b
  same_hash :
      (h : BlockHash) → b ≡ BlockId.block_hash h → h.felt ≡ answer.block_hash → Matches answer b

module _ {V W : Type 0} (serde : Serde V) (post : Str → Request V → Io W (Response V))
    (url : Str) where
  -- Where the block and the root of a resolved request come from.
  pub data Resolved (s : State) (asked b : BlockId) (root : Felt) (w w' : W) : Type 0 where
    trusted : Names s b → root ≡ s.root → w' ≡ w → Resolved s asked b root w w'
    older :
        (answer : State)
        → get_state serde post url b w ≡ (ok answer, w')
        → b ≡ asked
        → Matches answer b
        → root ≡ answer.root
        → answer.block_number < s.block_number
        → Resolved s asked b root w w'

  pub current_block_lem :
      (s : State)
      → s.block_number < 2 ^ 63
      → current_block serde post url s
        ≡ ok (BlockId.block_number (record { value = pos s.block_number }), s.root)
  unfolding current_block
  current_block_lem s h = ground arith

  felt_eq : (a b : Felt) → str_eq a.value b.value ≡ true → a ≡ b
  felt_eq a b h = ap (λ (v : Str). record { value = v }) (str_eq→≡ a.value b.value h)

  by_number-Resolved :
      (n : BlockNumber) (s : State) (w w' : W) {b : BlockId} {root : Felt}
      → s.block_number < 2 ^ 63
      → resolve_block_by_number serde post url n s w ≡ (ok (b, root), w')
      → Resolved s (BlockId.block_number n) b root w w'
  unfolding resolve_block_by_number check_number
  by_number-Resolved n s w w' small h = elim (Bool-cases (leb s.block_number (as_u64 n.value))) [
    | inl above ↦
        trusted (by_number (ground (arith, current_block_lem s small)))
          (ground (arith, current_block_lem s small)) (ground arith)
    | inr below ↦
        let (answer, e, k) =
          then_do-inv (get_state serde post url (BlockId.block_number n) w) _ (rw below at h) in
        older answer (ground arith) (ground arith) (same_number n (ground arith) (ground arith))
          (ground arith) (ground arith)
  ]

  by_hash-Resolved :
      (hash : BlockHash) (s : State) (w w' : W) {b : BlockId} {root : Felt}
      → resolve_block_by_hash serde post url hash s w ≡ (ok (b, root), w')
      → Resolved s (BlockId.block_hash hash) b root w w'
  unfolding resolve_block_by_hash check_hash
  by_hash-Resolved hash s w w' h = elim (Bool-cases (str_eq hash.felt.value s.block_hash.value)) [
    | inl same ↦
        trusted (by_hash hash (ground arith) (felt_eq hash.felt s.block_hash same)) (ground arith)
          (ground arith)
    | inr other ↦
        let (answer, e, k) =
          then_do-inv (get_state serde post url (BlockId.block_hash hash) w) _ (rw other at h) in
        older answer (ground arith) (ground arith)
          (same_hash hash (ground arith) (ground (arith, felt_eq hash.felt answer.block_hash)))
          (ground arith) (ground arith)
  ]

  -- A request that is resolved is about the trusted block, with the trusted root and without a
  -- question to the node, or about an older block that the request names, with the root that the
  -- node tells of it. It holds while the number of the trusted block fits an `i64`.
  pub resolve_block_id-Resolved :
      (s : State) (asked : BlockId) (w w' : W) {b : BlockId} {root : Felt}
      → s.block_number < 2 ^ 63
      → resolve_block_id serde post url s asked w ≡ (ok (b, root), w')
      → Resolved s asked b root w w'
  unfolding resolve_block_id
  resolve_block_id-Resolved s (BlockId.block_number n) w w' small h =
      by_number-Resolved n s w w' small h
  resolve_block_id-Resolved s (BlockId.block_hash hash) w w' small h =
      by_hash-Resolved hash s w w' h
  resolve_block_id-Resolved s (BlockId.block_tag BlockTag.latest) w w' small h =
      trusted (by_number (ground (arith, current_block_lem s small)))
        (ground (arith, current_block_lem s small)) (ground arith)
  resolve_block_id-Resolved s (BlockId.block_tag BlockTag.pending) w w' small h =
      absurd (ground arith)
