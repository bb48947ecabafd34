-- ===== src/Rpc/Context.antt =====
-- `impl Rpc for Context` of src/rpc.rs: the server. `call` is executed here, `getStorageAt` is checked
-- against the trusted state, and the other methods are passed on.
pub mod Forward
use Prim.Native.String.{String}
use beerus.Prelude.{
  List, [], ◌∷◌, ◌++◌, Str, text, Outcome, ok, err, panic, Error, pos, map_err, ◌>>=◌,
}
use beerus.Prelude.Effects.{Io, Run}
use beerus.Gen.Api.{Method, Rpc}
use beerus.Gen.Blocks.{BlockId}
use beerus.Gen.Client.{Serde, Request, Response}
use beerus.Gen.Felt.{Felt}
use beerus.Gen.Types.{FunctionCall}
use beerus.Client.{State}
use beerus.Exe.Map.{ExeError, Texts, rpc_error, VmFelt, felt_from_vm}
use beerus.Util.{StarkCrypto, BitView}
use beerus.Rpc.{rpc_get_storage_at}
use beerus.Rpc.Chain.{
  context_get_proof, context_version, context_block_hash_and_number, context_block_number,
  context_chain_id, context_get_block_transaction_count, context_get_block_with_receipts,
  context_get_block_with_tx_hashes, context_get_block_with_txs, context_get_class,
  context_get_class_at, context_get_class_hash_at, context_get_events, context_get_nonce,
  context_get_state_update, context_spec_version, context_syncing,
}
use beerus.Rpc.Txns.{
  context_get_tx_status, context_add_declare_transaction, context_add_deploy_account_transaction,
  context_add_invoke_transaction, context_estimate_fee, context_estimate_message_fee,
  context_get_transaction_by_block_id_and_index, context_get_transaction_by_hash,
  context_get_transaction_receipt, context_get_transaction_status, context_simulate_transactions,
  context_trace_block_transactions, context_trace_transaction,
}

-- What `Context` and the code behind it need: the executor is `exe::call` with the blocking client,
-- and `join_text` is tokio's word for a task that panicked.
pub record Executor (F W : Type 0) : Type 0 where
  pub exe_call : FunctionCall → State → Run ExeError W (List F)
  pub join_text : Str

module _ {F : Type 0} (vm : VmFelt F) where
  -- `map` and `collect` over the data that the call returned.
  unfoldable pub retdata_felts : List F → Outcome ExeError (List Felt)
  retdata_felts [] = ok []
  retdata_felts (felt ∷ felts) =
      let rest = retdata_felts felts in
      elim (felt_from_vm vm felt) [
        | err e ↦ err e
        | panic ↦ panic
        | ok f ↦ elim rest [ err e ↦ err e | panic ↦ panic | ok fs ↦ ok (f ∷ fs) ]
      ]

module _ {F : Type 0} (texts : Texts) (vm : VmFelt F) where
  -- `spawn_blocking(..).await.map_err(..)??`: a panic of the task is an error of the method.
  unfoldable pub joined : {A : Type 0} → Str → Outcome ExeError A → Outcome Error A
  joined join_text (ok a) = ok a
  joined join_text (err e) = err (rpc_error texts e)
  joined join_text panic =
      err (record { code = pos 500; message = text "join error: " ++ join_text })

  -- `call`: the block that is asked for is not looked at.
  unfoldable pub context_call :
      {W : Type 0} → Executor F W → State → FunctionCall → BlockId → Io W (List Felt)
  context_call executor state request block_id w =
      let done = executor.exe_call request state w in
      (
        (joined executor.join_text done.0 >>= λ retdata.
            map_err (rpc_error texts) (retdata_felts vm retdata)),
        done.1,
      )

module _ {V W F : Type 0} (serde : Serde V) (post : Str → Request V → Io W (Response V)) (url : Str)
    (crypto : StarkCrypto F) (bits : BitView) (texts : Texts) (vm : VmFelt F)
    (executor : Executor F W) (state : State) where
  unfoldable pub context : Rpc W
  context Method.get_proof args = context_get_proof serde post url args.0 args.1 args.2
  context Method.get_tx_status args = context_get_tx_status serde post url args
  context Method.version args = context_version serde post url
  context Method.add_declare_transaction args = context_add_declare_transaction serde post url args
  context Method.add_deploy_account_transaction args =
      context_add_deploy_account_transaction serde post url args
  context Method.add_invoke_transaction args = context_add_invoke_transaction serde post url args
  context Method.block_hash_and_number args = context_block_hash_and_number serde post url
  context Method.block_number args = context_block_number serde post url
  context Method.call args = context_call texts vm executor state args.0 args.1
  context Method.chain_id args = context_chain_id serde post url
  context Method.estimate_fee args = context_estimate_fee serde post url args.0 args.1 args.2
  context Method.estimate_message_fee args =
      context_estimate_message_fee serde post url args.0 args.1
  context Method.get_block_transaction_count args =
      context_get_block_transaction_count serde post url args
  context Method.get_block_with_receipts args = context_get_block_with_receipts serde post url args
  context Method.get_block_with_tx_hashes args =
      context_get_block_with_tx_hashes serde post url args
  context Method.get_block_with_txs args = context_get_block_with_txs serde post url args
  context Method.get_class args = context_get_class serde post url args.0 args.1
  context Method.get_class_at args = context_get_class_at serde post url args.0 args.1
  context Method.get_class_hash_at args = context_get_class_hash_at serde post url args.0 args.1
  context Method.get_events args = context_get_events serde post url args
  context Method.get_nonce args = context_get_nonce serde post url args.0 args.1
  context Method.get_state_update args = context_get_state_update serde post url args
  context Method.get_storage_at args =
      rpc_get_storage_at serde post url crypto bits state args.0 args.1 args.2
  context Method.get_transaction_by_block_id_and_index args =
      context_get_transaction_by_block_id_and_index serde post url args.0 args.1
  context Method.get_transaction_by_hash args = context_get_transaction_by_hash serde post url args
  context Method.get_transaction_receipt args = context_get_transaction_receipt serde post url args
  context Method.get_transaction_status args = context_get_transaction_status serde post url args
  context Method.simulate_transactions args =
      context_simulate_transactions serde post url args.0 args.1 args.2
  context Method.spec_version args = context_spec_version serde post url
  context Method.syncing args = context_syncing serde post url
  context Method.trace_block_transactions args =
      context_trace_block_transactions serde post url args
  context Method.trace_transaction args = context_trace_transaction serde post url args
