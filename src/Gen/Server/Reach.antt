-- ===== src/Gen/Server/Reach.antt =====
-- Which handler of src/gen.rs a request reaches.
use beerus.Prelude.{
  ℕ, ◌≡◌, ◌≢◌, ◌⊎◌, inl, inr, refl, Bool-cases, Option, none, some, List, [], ◌∷◌, map, Str, text,
  str_eq, str_eq→≡, ok, negsuc,
}
use beerus.Prelude.Effects.{Io}
use beerus.Gen.Api.{Method, Args, Rpc}
use beerus.Gen.Api.Names.{method_name, all_methods, plain_args, Absent, absent, differ}
use beerus.Gen.Client.{Serde, Request}
use beerus.Gen.Server.{Reply, reply_error, handle_method, handle_plain}
use beerus.Gen.Server.Dispatch.{arms, find_arm, with_id, handle}
use beerus.Gen.Server.Chain.{
  handle_get_proof, handle_version, handle_block_hash_and_number, handle_block_number,
  handle_chain_id, handle_get_block_transaction_count, handle_get_block_with_receipts,
  handle_get_block_with_tx_hashes, handle_get_block_with_txs, handle_get_class, handle_get_class_at,
  handle_get_class_hash_at, handle_get_events, handle_get_nonce, handle_get_state_update,
  handle_get_storage_at, handle_spec_version, handle_syncing,
}
use beerus.Gen.Server.Txns.{
  handle_get_tx_status, handle_add_declare_transaction, handle_add_deploy_account_transaction,
  handle_add_invoke_transaction, handle_call, handle_estimate_fee, handle_estimate_message_fee,
  handle_get_transaction_by_block_id_and_index, handle_get_transaction_by_hash,
  handle_get_transaction_receipt, handle_get_transaction_status, handle_simulate_transactions,
  handle_trace_block_transactions, handle_trace_transaction,
}

module _ {V W : Type 0} (serde : Serde V) (rpc : Rpc W) where
  -- The handler that a method should have.
  abbrev pub handler_for : (m : Method) → Option (Args m) → V → Io W (Reply V)
  handler_for m none = handle_method serde rpc m
  handler_for m (some args) = handle_plain serde rpc m args

  abbrev pub handler_of : Method → V → Io W (Reply V)
  handler_of m = handler_for m (plain_args m)

  not_found : Reply V
  unfolding reply_error
  not_found = reply_error (negsuc 32600) (text "Method not found")

  abbrev arm_of : Method → Str × (V → Io W (Reply V))
  arm_of m = (method_name m, handler_of m)

  arms_lem : arms serde rpc ≡ map arm_of all_methods
  unfolding arms handle_get_proof handle_get_tx_status handle_version handle_add_declare_transaction
      handle_add_deploy_account_transaction handle_add_invoke_transaction
      handle_block_hash_and_number handle_block_number handle_call handle_chain_id
      handle_estimate_fee handle_estimate_message_fee handle_get_block_transaction_count
      handle_get_block_with_receipts handle_get_block_with_tx_hashes handle_get_block_with_txs
      handle_get_class handle_get_class_at handle_get_class_hash_at handle_get_events
      handle_get_nonce handle_get_state_update handle_get_storage_at
      handle_get_transaction_by_block_id_and_index handle_get_transaction_by_hash
      handle_get_transaction_receipt handle_get_transaction_status handle_simulate_transactions
      handle_spec_version handle_syncing handle_trace_block_transactions handle_trace_transaction
  arms_lem = refl

  -- What a list of methods makes of a name: the handler of a method with that name, or none has it.
  find_arm-cases :
      (ms : List Method) (name : Str) (params : V) (w : W)
      → ((m : Method) × (name ≡ method_name m)
          × (find_arm serde rpc (map arm_of ms) name params w ≡ handler_of m params w))
        ⊎ (Absent name ms × (find_arm serde rpc (map arm_of ms) name params w ≡ (ok not_found, w)))
  unfolding find_arm not_found
  find_arm-cases [] name params w = inr (tt, refl)
  find_arm-cases (m ∷ ms) name params w = elim (Bool-cases (str_eq name (method_name m))) [
    | inl same ↦ inl (m, str_eq→≡ name (method_name m) same, rw same)
    | inr other ↦ elim (find_arm-cases ms name params w) [
      | inl (k, e, f) ↦ inl (k, e, rw other f)
      | inr (a, f) ↦ inr ((λ e. differ name (method_name m) other e, a), rw other f)
    ]
  ]

  -- A request is handled by the handler of the method of its name, and if no method has the name it is
  -- refused with the error -32601 and nothing happens; the reply has the id of the request.
  pub handle-reaches :
      (req : Request V) (w : W)
      → ((m : Method) × (req.method ≡ method_name m)
          × (handle serde rpc req w ≡ (
            with_id serde rpc req.id (handler_of m req.params w).0,
            (handler_of m req.params w).1,
          )))
        ⊎ (((m : Method) → req.method ≢ method_name m)
            × (handle serde rpc req w ≡ (
              ok (record {
                error = some (record { code = negsuc 32600; message = text "Method not found" });
                result = none;
                id = req.id;
              }),
              w,
            )))
  unfolding handle not_found with_id reply_error
  handle-reaches req w = elim (find_arm-cases all_methods req.method req.params w) [
    | inl (m, e, f) ↦ inl (m, e, rw (arms_lem, f))
    | inr (a, f) ↦ inr (absent req.method a, rw (arms_lem, f))
  ]

  -- The name of a method is that of its own handler.
  pub handle-own :
      (m : Method) (params : V) (id : Option ℕ) (w : W)
      → handle serde rpc (record { method = method_name m; params = params; id = id }) w
        ≡ (with_id serde rpc id (handler_of m params w).0, (handler_of m params w).1)
  unfolding handle find_arm arms str_eq handle_get_proof handle_get_tx_status handle_version
      handle_add_declare_transaction handle_add_deploy_account_transaction
      handle_add_invoke_transaction handle_block_hash_and_number handle_block_number handle_call
      handle_chain_id handle_estimate_fee handle_estimate_message_fee
      handle_get_block_transaction_count handle_get_block_with_receipts
      handle_get_block_with_tx_hashes handle_get_block_with_txs handle_get_class handle_get_class_at
      handle_get_class_hash_at handle_get_events handle_get_nonce handle_get_state_update
      handle_get_storage_at handle_get_transaction_by_block_id_and_index
      handle_get_transaction_by_hash handle_get_transaction_receipt handle_get_transaction_status
      handle_simulate_transactions handle_spec_version handle_syncing
      handle_trace_block_transactions handle_trace_transaction
  handle-own Method.get_proof params id w = refl
  handle-own Method.get_tx_status params id w = refl
  handle-own Method.version params id w = refl
  handle-own Method.add_declare_transaction params id w = refl
  handle-own Method.add_deploy_account_transaction params id w = refl
  handle-own Method.add_invoke_transaction params id w = refl
  handle-own Method.block_hash_and_number params id w = refl
  handle-own Method.block_number params id w = refl
  handle-own Method.call params id w = refl
  handle-own Method.chain_id params id w = refl
  handle-own Method.estimate_fee params id w = refl
  handle-own Method.estimate_message_fee params id w = refl
  handle-own Method.get_block_transaction_count params id w = refl
  handle-own Method.get_block_with_receipts params id w = refl
  handle-own Method.get_block_with_tx_hashes params id w = refl
  handle-own Method.get_block_with_txs params id w = refl
  handle-own Method.get_class params id w = refl
  handle-own Method.get_class_at params id w = refl
  handle-own Method.get_class_hash_at params id w = refl
  handle-own Method.get_events params id w = refl
  handle-own Method.get_nonce params id w = refl
  handle-own Method.get_state_update params id w = refl
  handle-own Method.get_storage_at params id w = refl
  handle-own Method.get_transaction_by_block_id_and_index params id w = refl
  handle-own Method.get_transaction_by_hash params id w = refl
  handle-own Method.get_transaction_receipt params id w = refl
  handle-own Method.get_transaction_status params id w = refl
  handle-own Method.simulate_transactions params id w = refl
  handle-own Method.spec_version params id w = refl
  handle-own Method.syncing params id w = refl
  handle-own Method.trace_block_transactions params id w = refl
  handle-own Method.trace_transaction params id w = refl
