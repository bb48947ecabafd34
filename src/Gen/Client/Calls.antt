-- ===== src/Gen/Client/Calls.antt =====
-- The methods of the client of src/gen.rs, as calls by the names of the specification.
use beerus.Prelude.{◌≡◌, refl, Option, none, some, Str, Outcome, ok}
use beerus.Prelude.Effects.{Io}
use beerus.Gen.Api.{Method, Args}
use beerus.Gen.Api.Names.{method_name, plain_args}
use beerus.Gen.Client.{Serde, SerdeError, Request, Response, call_method}
use beerus.Gen.Client.Impl.{client}
use beerus.Gen.Client.Chain.{
  get_proof, version, block_hash_and_number, block_number, chain_id, get_block_transaction_count,
  get_block_with_receipts, get_block_with_tx_hashes, get_block_with_txs, get_class, get_class_at,
  get_class_hash_at, get_events, get_nonce, get_state_update, get_storage_at, spec_version, syncing,
}
use beerus.Gen.Client.Txns.{
  get_tx_status, add_declare_transaction, add_deploy_account_transaction, add_invoke_transaction,
  call, estimate_fee, estimate_message_fee, get_transaction_by_block_id_and_index,
  get_transaction_by_hash, get_transaction_receipt, get_transaction_status, simulate_transactions,
  trace_block_transactions, trace_transaction,
}

module _ {V W : Type 0} (serde : Serde V) (post : Str → Request V → Io W (Response V)) where
  abbrev pub params_for : (m : Method) → Option (Args m) → Args m → Outcome SerdeError V
  params_for m none args = serde.args_to_value m args
  params_for m (some _) args = ok serde.empty_array

  abbrev pub sent_params : (m : Method) → Args m → Outcome SerdeError V
  sent_params m args = params_for m (plain_args m) args

  pub client-call :
      (url : Str) (m : Method) (args : Args m)
      → client serde post url m args
        ≡ call_method serde post url (method_name m) (sent_params m args) (serde.ret_from_value m)
  unfolding client get_proof get_tx_status version add_declare_transaction
      add_deploy_account_transaction add_invoke_transaction block_hash_and_number block_number call
      chain_id estimate_fee estimate_message_fee get_block_transaction_count get_block_with_receipts
      get_block_with_tx_hashes get_block_with_txs get_class get_class_at get_class_hash_at
      get_events get_nonce get_state_update get_storage_at get_transaction_by_block_id_and_index
      get_transaction_by_hash get_transaction_receipt get_transaction_status simulate_transactions
      spec_version syncing trace_block_transactions trace_transaction
  client-call url Method.get_proof args = refl
  client-call url Method.get_tx_status args = refl
  client-call url Method.version args = refl
  client-call url Method.add_declare_transaction args = refl
  client-call url Method.add_deploy_account_transaction args = refl
  client-call url Method.add_invoke_transaction args = refl
  client-call url Method.block_hash_and_number args = refl
  client-call url Method.block_number args = refl
  client-call url Method.call args = refl
  client-call url Method.chain_id args = refl
  client-call url Method.estimate_fee args = refl
  client-call url Method.estimate_message_fee args = refl
  client-call url Method.get_block_transaction_count args = refl
  client-call url Method.get_block_with_receipts args = refl
  client-call url Method.get_block_with_tx_hashes args = refl
  client-call url Method.get_block_with_txs args = refl
  client-call url Method.get_class args = refl
  client-call url Method.get_class_at args = refl
  client-call url Method.get_class_hash_at args = refl
  client-call url Method.get_events args = refl
  client-call url Method.get_nonce args = refl
  client-call url Method.get_state_update args = refl
  client-call url Method.get_storage_at args = refl
  client-call url Method.get_transaction_by_block_id_and_index args = refl
  client-call url Method.get_transaction_by_hash args = refl
  client-call url Method.get_transaction_receipt args = refl
  client-call url Method.get_transaction_status args = refl
  client-call url Method.simulate_transactions args = refl
  client-call url Method.spec_version args = refl
  client-call url Method.syncing args = refl
  client-call url Method.trace_block_transactions args = refl
  client-call url Method.trace_transaction args = refl
