-- ===== src/Rpc/Keeps.antt =====
-- The server of src/rpc.rs touches the world by its HTTP and by the executor alone.
use beerus.Prelude.{Str, Bool-cases, inl, inr, str_eq, leb, as_u64, [], ◌∷◌}
use beerus.Prelude.Effects.{Io}
use beerus.Prelude.Keeps.{Keeps, then_do-Keeps}
use beerus.Gen.Api.{Method, Args}
use beerus.Gen.Blocks.{BlockId, BlockTag}
use beerus.Gen.Client.{Serde, Request, Response}
use beerus.Gen.Client.Impl.{client}
use beerus.Gen.Client.Keeps.{client-Keeps}
use beerus.Gen.Numbers.{BlockNumber}
use beerus.Gen.Types.{Address, BlockHash, FunctionCall}
use beerus.Gen.Keys.{StorageKey}
use beerus.Client.{State}
use beerus.Exe.Map.{Texts, VmFelt}
use beerus.Util.{StarkCrypto, BitView}
use beerus.Proof.Verify.{verify}
use beerus.Rpc.{
  get_state, resolve_block_by_number, resolve_block_by_hash, resolve_block_id, rpc_get_storage_at,
}
use beerus.Rpc.Context.{Executor, context, context_call}
use beerus.Rpc.Context.Forward.{Forwarded, context-client}

-- Which methods the server answers itself.
data View : Method → Type 0 where
  forwarded : (m : Method) → Forwarded m → View m
  own_call : View Method.call
  own_storage : View Method.get_storage_at

view : (m : Method) → View m
view Method.call = own_call
view Method.get_storage_at = own_storage
view _ = forwarded _ tt

module _ {V W : Type 0} (serde : Serde V) (post : Str → Request V → Io W (Response V))
    (P : W → Type 0) (post-Keeps : (url : Str) (req : Request V) → Keeps P (post url req))
    (url : Str) where
  get_state-Keeps : (block_id : BlockId) → Keeps P (get_state serde post url block_id)
  unfolding get_state client
  get_state-Keeps block_id w p =
      then_do-Keeps P (client serde post url Method.get_block_with_tx_hashes block_id w) _
        (client-Keeps serde post P post-Keeps url Method.get_block_with_tx_hashes block_id w p)
        (λ block w p. p)

  resolve_block_by_number-Keeps :
      (n : BlockNumber) (current : State)
      → Keeps P (resolve_block_by_number serde post url n current)
  unfolding resolve_block_by_number
  resolve_block_by_number-Keeps n current w p =
      elim (Bool-cases (leb current.block_number (as_u64 n.value))) [
        | inl e ↦ rw e p
        | inr e ↦ rw e (
            then_do-Keeps P (get_state serde post url (BlockId.block_number n) w) _
              (get_state-Keeps (BlockId.block_number n) w p) (λ state w p. p))
      ]

  resolve_block_by_hash-Keeps :
      (h : BlockHash) (current : State) → Keeps P (resolve_block_by_hash serde post url h current)
  unfolding resolve_block_by_hash
  resolve_block_by_hash-Keeps h current w p =
      elim (Bool-cases (str_eq h.felt.value current.block_hash.value)) [
        | inl e ↦ rw e p
        | inr e ↦ rw e (
            then_do-Keeps P (get_state serde post url (BlockId.block_hash h) w) _
              (get_state-Keeps (BlockId.block_hash h) w p) (λ state w p. p))
      ]

  resolve_block_id-Keeps :
      (state : State) (block_id : BlockId)
      → Keeps P (resolve_block_id serde post url state block_id)
  unfolding resolve_block_id
  resolve_block_id-Keeps state (BlockId.block_number n) w p =
      resolve_block_by_number-Keeps n state w p
  resolve_block_id-Keeps state (BlockId.block_hash h) w p = resolve_block_by_hash-Keeps h state w p
  resolve_block_id-Keeps state (BlockId.block_tag BlockTag.latest) w p = p
  resolve_block_id-Keeps state (BlockId.block_tag BlockTag.pending) w p = p

  module _ {F : Type 0} (crypto : StarkCrypto F) (bits : BitView) where
    rpc_get_storage_at-Keeps :
        (state : State) (address : Address) (key : StorageKey) (block_id : BlockId)
        → Keeps P (rpc_get_storage_at serde post url crypto bits state address key block_id)
    unfolding rpc_get_storage_at client
    rpc_get_storage_at-Keeps state address key block_id w p =
        then_do-Keeps P (resolve_block_id serde post url state block_id w) _
          (resolve_block_id-Keeps state block_id w p)
          (λ resolved w p.
            then_do-Keeps P
              (client serde post url Method.get_storage_at (address, key, resolved.0) w) _
              (client-Keeps serde post P post-Keeps url Method.get_storage_at
                (address, key, resolved.0) w p)
              (λ result w p.
                then_do-Keeps P
                  (client serde post url Method.get_proof (resolved.0, address, key ∷ []) w) _
                  (client-Keeps serde post P post-Keeps url Method.get_proof
                    (resolved.0, address, key ∷ []) w p)
                  (λ proof w p.
                    then_do-Keeps P (verify crypto bits proof resolved.1 address key result, w) _ p
                      (λ u w p. p))))

    module _ (texts : Texts) (vm : VmFelt F) (executor : Executor F W) (state : State)
        (exe-Keeps : (request : FunctionCall) → Keeps P (executor.exe_call request state)) where
      View-Keeps :
          (m : Method)
          → View m
          → (args : Args m)
          → Keeps P (context serde post url crypto bits texts vm executor state m args)
      unfolding context context_call
      View-Keeps _ (forwarded m f) args w p =
          rw (context-client serde crypto bits texts vm executor state url post m args f)
            (client-Keeps serde post P post-Keeps url m args w p)
      View-Keeps Method.call own_call args w p = exe-Keeps args.0 w p
      View-Keeps Method.get_storage_at own_storage args w p =
          rpc_get_storage_at-Keeps state args.0 args.1 args.2 w p

      pub context-Keeps :
          (m : Method) (args : Args m)
          → Keeps P (context serde post url crypto bits texts vm executor state m args)
      context-Keeps m args w p = View-Keeps m (view m) args w p
