-- ===== src/Gen/Blocking/Same.antt =====
-- The blocking copies of src/gen.rs against the asynchronous ones.
use beerus.Prelude.{
  ℕ, ◌≡◌, refl, ap, sym, ◌∙◌, Option, List, [], ◌∷◌, Str, Outcome, ok, err, panic, Error,
}
use beerus.Prelude.Effects.{Io}
use beerus.Gen.Api.{Method, Args, Rpc}
use beerus.Gen.Api.Names.{method_name}
use beerus.Gen.Client.{
  Serde, SerdeError, Request, Response, call_method, read_response, invalid_params,
  invalid_response, response_missing,
}
use beerus.Gen.Client.Calls.{sent_params, client-call}
use beerus.Gen.Client.Impl.{client}
use beerus.Gen.Server.{Reply, read_args, write_result, handle_method, handle_plain}
use beerus.Gen.Server.Dispatch.{arms, handle, find_arm, with_id}
use beerus.Gen.Server.Chain
use beerus.Gen.Server.Txns
use beerus.Gen.Blocking.ServeChain
use beerus.Gen.Blocking.ServeTxns
use beerus.Gen.Blocking.Bodies.{
  blocking_response, blocking_call, blocking_args, blocking_written, blocking_method,
  blocking_plain, blocking_find, blocking_with_id,
}
use beerus.Gen.Blocking.Impl.{blocking_client}
use beerus.Gen.Blocking.Dispatch.{blocking_arms, blocking_handle}
use beerus.Gen.Blocking.Chain.{
  get_proof, version, block_hash_and_number, block_number, chain_id, get_block_transaction_count,
  get_block_with_receipts, get_block_with_tx_hashes, get_block_with_txs, get_class, get_class_at,
  get_class_hash_at, get_events, get_nonce, get_state_update, get_storage_at, spec_version, syncing,
}
use beerus.Gen.Blocking.Txns.{
  get_tx_status, add_declare_transaction, add_deploy_account_transaction, add_invoke_transaction,
  call, estimate_fee, estimate_message_fee, get_transaction_by_block_id_and_index,
  get_transaction_by_hash, get_transaction_receipt, get_transaction_status, simulate_transactions,
  trace_block_transactions, trace_transaction,
}

module _ {V W : Type 0} (serde : Serde V) (post : Str → Request V → Io W (Response V)) where
  call-eq :
      {A : Type 0} (url method : Str) (args : Outcome SerdeError V)
      (from_value : V → Outcome SerdeError A)
      → blocking_call serde post url method args from_value
        ≡ call_method serde post url method args from_value
  unfolding blocking_call call_method blocking_response read_response invalid_params
      invalid_response response_missing
  call-eq url method args from_value = refl

  blocking_client-call :
      (url : Str) (m : Method) (args : Args m)
      → blocking_client serde post url m args
        ≡ blocking_call serde post url
            (method_name m)
            (sent_params serde post m args)
            (serde.ret_from_value m)
  unfolding blocking_client get_proof get_tx_status version add_declare_transaction
      add_deploy_account_transaction add_invoke_transaction block_hash_and_number block_number call
      chain_id estimate_fee estimate_message_fee get_block_transaction_count get_block_with_receipts
      get_block_with_tx_hashes get_block_with_txs get_class get_class_at get_class_hash_at
      get_events get_nonce get_state_update get_storage_at get_transaction_by_block_id_and_index
      get_transaction_by_hash get_transaction_receipt get_transaction_status simulate_transactions
      spec_version syncing trace_block_transactions trace_transaction
  blocking_client-call url Method.get_proof args = refl
  blocking_client-call url Method.get_tx_status args = refl
  blocking_client-call url Method.version args = refl
  blocking_client-call url Method.add_declare_transaction args = refl
  blocking_client-call url Method.add_deploy_account_transaction args = refl
  blocking_client-call url Method.add_invoke_transaction args = refl
  blocking_client-call url Method.block_hash_and_number args = refl
  blocking_client-call url Method.block_number args = refl
  blocking_client-call url Method.call args = refl
  blocking_client-call url Method.chain_id args = refl
  blocking_client-call url Method.estimate_fee args = refl
  blocking_client-call url Method.estimate_message_fee args = refl
  blocking_client-call url Method.get_block_transaction_count args = refl
  blocking_client-call url Method.get_block_with_receipts args = refl
  blocking_client-call url Method.get_block_with_tx_hashes args = refl
  blocking_client-call url Method.get_block_with_txs args = refl
  blocking_client-call url Method.get_class args = refl
  blocking_client-call url Method.get_class_at args = refl
  blocking_client-call url Method.get_class_hash_at args = refl
  blocking_client-call url Method.get_events args = refl
  blocking_client-call url Method.get_nonce args = refl
  blocking_client-call url Method.get_state_update args = refl
  blocking_client-call url Method.get_storage_at args = refl
  blocking_client-call url Method.get_transaction_by_block_id_and_index args = refl
  blocking_client-call url Method.get_transaction_by_hash args = refl
  blocking_client-call url Method.get_transaction_receipt args = refl
  blocking_client-call url Method.get_transaction_status args = refl
  blocking_client-call url Method.simulate_transactions args = refl
  blocking_client-call url Method.spec_version args = refl
  blocking_client-call url Method.syncing args = refl
  blocking_client-call url Method.trace_block_transactions args = refl
  blocking_client-call url Method.trace_transaction args = refl

module _ {V W : Type 0} (serde : Serde V) (rpc : Rpc W) where
  find-eq :
      (table : List (Str × (V → Io W (Reply V)))) (method : Str) (params : V) (w : W)
      → blocking_find serde rpc table method params w ≡ find_arm serde rpc table method params w
  unfolding blocking_find find_arm
  find-eq [] method params w = refl
  find-eq ((name, handler) ∷ rest) method params w = rw (find-eq rest method params w) refl

  with_id-eq :
      (id : Option ℕ) (o : Outcome Error (Reply V))
      → blocking_with_id serde rpc id o ≡ with_id serde rpc id o
  unfolding blocking_with_id with_id
  with_id-eq id (ok r) = refl
  with_id-eq id (err e) = refl
  with_id-eq id panic = refl

  blocking_arms-eq : blocking_arms serde rpc ≡ arms serde rpc
  unfolding blocking_arms arms ServeChain.handle_get_proof ServeTxns.handle_get_tx_status
      ServeChain.handle_version ServeTxns.handle_add_declare_transaction
      ServeTxns.handle_add_deploy_account_transaction ServeTxns.handle_add_invoke_transaction
      ServeChain.handle_block_hash_and_number ServeChain.handle_block_number ServeTxns.handle_call
      ServeChain.handle_chain_id ServeTxns.handle_estimate_fee ServeTxns.handle_estimate_message_fee
      ServeChain.handle_get_block_transaction_count ServeChain.handle_get_block_with_receipts
      ServeChain.handle_get_block_with_tx_hashes ServeChain.handle_get_block_with_txs
      ServeChain.handle_get_class ServeChain.handle_get_class_at ServeChain.handle_get_class_hash_at
      ServeChain.handle_get_events ServeChain.handle_get_nonce ServeChain.handle_get_state_update
      ServeChain.handle_get_storage_at ServeTxns.handle_get_transaction_by_block_id_and_index
      ServeTxns.handle_get_transaction_by_hash ServeTxns.handle_get_transaction_receipt
      ServeTxns.handle_get_transaction_status ServeTxns.handle_simulate_transactions
      ServeChain.handle_spec_version ServeChain.handle_syncing
      ServeTxns.handle_trace_block_transactions ServeTxns.handle_trace_transaction
      Chain.handle_get_proof Txns.handle_get_tx_status Chain.handle_version
      Txns.handle_add_declare_transaction Txns.handle_add_deploy_account_transaction
      Txns.handle_add_invoke_transaction Chain.handle_block_hash_and_number
      Chain.handle_block_number Txns.handle_call Chain.handle_chain_id Txns.handle_estimate_fee
      Txns.handle_estimate_message_fee Chain.handle_get_block_transaction_count
      Chain.handle_get_block_with_receipts Chain.handle_get_block_with_tx_hashes
      Chain.handle_get_block_with_txs Chain.handle_get_class Chain.handle_get_class_at
      Chain.handle_get_class_hash_at Chain.handle_get_events Chain.handle_get_nonce
      Chain.handle_get_state_update Chain.handle_get_storage_at
      Txns.handle_get_transaction_by_block_id_and_index Txns.handle_get_transaction_by_hash
      Txns.handle_get_transaction_receipt Txns.handle_get_transaction_status
      Txns.handle_simulate_transactions Chain.handle_spec_version Chain.handle_syncing
      Txns.handle_trace_block_transactions Txns.handle_trace_transaction handle_method
      blocking_method handle_plain blocking_plain read_args blocking_args write_result
      blocking_written
  blocking_arms-eq = refl

  blocking_handle-eq :
      (req : Request V) (w : W) → blocking_handle serde rpc req w ≡ handle serde rpc req w
  unfolding blocking_handle handle
  blocking_handle-eq req w =
      rw (blocking_arms-eq, find-eq (arms serde rpc) req.method req.params w)
        (let done = find_arm serde rpc (arms serde rpc) req.method req.params w in
          rw (with_id-eq req.id done.0) refl)

-- The blocking client calls every method as the asynchronous client does, and the blocking server
-- answers every request as the asynchronous server does and leaves the world like it.
pub blocking_same :
    {V W : Type 0} (serde : Serde V) (post : Str → Request V → Io W (Response V)) (url : Str)
    (rpc : Rpc W) (m : Method) (args : Args m) (req : Request V) (w : W)
    → (blocking_client serde post url m args w ≡ client serde post url m args w)
      × (blocking_handle serde rpc req w ≡ handle serde rpc req w)
blocking_same serde post url rpc m args req w =
    let called =
      blocking_client-call serde post url m args
      ∙ (call-eq serde post url (method_name m) (sent_params serde post m args)
            (serde.ret_from_value m)
          ∙ sym (client-call serde post url m args)) in
    (ap (λ f. f w) called, blocking_handle-eq serde rpc req w)
