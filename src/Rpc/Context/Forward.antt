-- ===== src/Rpc/Context/Forward.antt =====
-- The methods of src/rpc.rs that are passed on, and what the node makes of them.
use beerus.Prelude.{◌≡◌, refl, ◌∙◌, ap, Str}
use beerus.Gen.Api.{Method, Args, Ret, Rpc}
use beerus.Gen.Client.{Serde, Request, Response}
use beerus.Gen.Client.Impl.{client}
use beerus.Gen.Server.Wire.{served, Sent, Returned, client-served}
use beerus.Prelude.Effects.{Io}
use beerus.Client.{State}
use beerus.Exe.Map.{Texts, VmFelt}
use beerus.Util.{StarkCrypto, BitView}
use beerus.Rpc.Chain.{
  context_get_proof, context_version, context_block_hash_and_number, context_block_number,
  context_chain_id, context_get_block_transaction_count, context_get_block_with_receipts,
  context_get_block_with_tx_hashes, context_get_block_with_txs, context_get_class,
  context_get_class_at, context_get_class_hash_at, context_get_events, context_get_nonce,
  context_get_state_update, context_spec_version, context_syncing,
}
use beerus.Rpc.Txns.{
  context_get_tx_status, context_add_declare_transaction, context_add_deploy_account_transaction,
  context_add_invoke_transaction, context_estimate_fee, context_estimate_message_fee,
  context_get_transaction_by_block_id_and_index, context_get_transaction_by_hash,
  context_get_transaction_receipt, context_get_transaction_status, context_simulate_transactions,
  context_trace_block_transactions, context_trace_transaction,
}
use beerus.Rpc.Context.{Executor, context}

-- The methods that are not answered by the server itself.
abbrev pub Forwarded : Method → Type 0
Forwarded Method.call = ⊥
Forwarded Method.get_storage_at = ⊥
Forwarded _ = Unit {0}

module _ {V W F : Type 0} (serde : Serde V) (crypto : StarkCrypto F) (bits : BitView)
    (texts : Texts) (vm : VmFelt F) (executor : Executor F W) (state : State) (url : Str) where
  pub context-client :
      (post : Str → Request V → Io W (Response V)) (m : Method) (args : Args m)
      → Forwarded m
      → context serde post url crypto bits texts vm executor state m args
        ≡ client serde post url m args
  unfolding context client context_get_proof context_get_tx_status context_version
      context_add_declare_transaction context_add_deploy_account_transaction
      context_add_invoke_transaction context_block_hash_and_number context_block_number
      context_chain_id context_estimate_fee context_estimate_message_fee
      context_get_block_transaction_count context_get_block_with_receipts
      context_get_block_with_tx_hashes context_get_block_with_txs context_get_class
      context_get_class_at context_get_class_hash_at context_get_events context_get_nonce
      context_get_state_update context_get_transaction_by_block_id_and_index
      context_get_transaction_by_hash context_get_transaction_receipt context_get_transaction_status
      context_simulate_transactions context_spec_version context_syncing
      context_trace_block_transactions context_trace_transaction
  context-client post Method.get_proof args f = refl
  context-client post Method.get_tx_status args f = refl
  context-client post Method.version args f = refl
  context-client post Method.add_declare_transaction args f = refl
  context-client post Method.add_deploy_account_transaction args f = refl
  context-client post Method.add_invoke_transaction args f = refl
  context-client post Method.block_hash_and_number args f = refl
  context-client post Method.block_number args f = refl
  context-client post Method.call args f = absurd f
  context-client post Method.chain_id args f = refl
  context-client post Method.estimate_fee args f = refl
  context-client post Method.estimate_message_fee args f = refl
  context-client post Method.get_block_transaction_count args f = refl
  context-client post Method.get_block_with_receipts args f = refl
  context-client post Method.get_block_with_tx_hashes args f = refl
  context-client post Method.get_block_with_txs args f = refl
  context-client post Method.get_class args f = refl
  context-client post Method.get_class_at args f = refl
  context-client post Method.get_class_hash_at args f = refl
  context-client post Method.get_events args f = refl
  context-client post Method.get_nonce args f = refl
  context-client post Method.get_state_update args f = refl
  context-client post Method.get_storage_at args f = absurd f
  context-client post Method.get_transaction_by_block_id_and_index args f = refl
  context-client post Method.get_transaction_by_hash args f = refl
  context-client post Method.get_transaction_receipt args f = refl
  context-client post Method.get_transaction_status args f = refl
  context-client post Method.simulate_transactions args f = refl
  context-client post Method.spec_version args f = refl
  context-client post Method.syncing args f = refl
  context-client post Method.trace_block_transactions args f = refl
  context-client post Method.trace_transaction args f = refl

  -- If the node runs `gen::handle` on an implementation of its own, a method that is passed on
  -- returns what that implementation returns, and leaves the world as it does, provided that the
  -- arguments and the result survive the way through JSON.
  pub context-forward :
      (node : Rpc W) (m : Method) (args : Args m) (w : W)
      → Forwarded m
      → Sent serde node m args
      → Returned serde node m (node m args w).0
      → context serde (served serde node) url crypto bits texts vm executor state m args w
        ≡ node m args w
  context-forward node m args w f sent back =
      ap (λ (run : Io W (Ret m)). run w) (context-client (served serde node) m args f)
      ∙ client-served serde node url m args w sent back
