-- ===== src/Gen/Api/Names.antt =====
-- The methods of the JSON-RPC specification: their names, and which take no arguments.
use beerus.Prelude.{
  ◌≡◌, ◌≢◌, false, Option, none, some, List, [], ◌∷◌, Str, text, str_eq, str_eq_refl,
}
use beerus.Gen.Api.{Method, Args}

-- The names of the methods in the specification.
abbrev pub method_name : Method → Str
method_name Method.get_proof = text "pathfinder_getProof"
method_name Method.get_tx_status = text "pathfinder_getTxStatus"
method_name Method.version = text "pathfinder_version"
method_name Method.add_declare_transaction = text "starknet_addDeclareTransaction"
method_name Method.add_deploy_account_transaction = text "starknet_addDeployAccountTransaction"
method_name Method.add_invoke_transaction = text "starknet_addInvokeTransaction"
method_name Method.block_hash_and_number = text "starknet_blockHashAndNumber"
method_name Method.block_number = text "starknet_blockNumber"
method_name Method.call = text "starknet_call"
method_name Method.chain_id = text "starknet_chainId"
method_name Method.estimate_fee = text "starknet_estimateFee"
method_name Method.estimate_message_fee = text "starknet_estimateMessageFee"
method_name Method.get_block_transaction_count = text "starknet_getBlockTransactionCount"
method_name Method.get_block_with_receipts = text "starknet_getBlockWithReceipts"
method_name Method.get_block_with_tx_hashes = text "starknet_getBlockWithTxHashes"
method_name Method.get_block_with_txs = text "starknet_getBlockWithTxs"
method_name Method.get_class = text "starknet_getClass"
method_name Method.get_class_at = text "starknet_getClassAt"
method_name Method.get_class_hash_at = text "starknet_getClassHashAt"
method_name Method.get_events = text "starknet_getEvents"
method_name Method.get_nonce = text "starknet_getNonce"
method_name Method.get_state_update = text "starknet_getStateUpdate"
method_name Method.get_storage_at = text "starknet_getStorageAt"
method_name Method.get_transaction_by_block_id_and_index =
    text "starknet_getTransactionByBlockIdAndIndex"
method_name Method.get_transaction_by_hash = text "starknet_getTransactionByHash"
method_name Method.get_transaction_receipt = text "starknet_getTransactionReceipt"
method_name Method.get_transaction_status = text "starknet_getTransactionStatus"
method_name Method.simulate_transactions = text "starknet_simulateTransactions"
method_name Method.spec_version = text "starknet_specVersion"
method_name Method.syncing = text "starknet_syncing"
method_name Method.trace_block_transactions = text "starknet_traceBlockTransactions"
method_name Method.trace_transaction = text "starknet_traceTransaction"

abbrev pub all_methods : List Method
all_methods =
    Method.get_proof ∷ Method.get_tx_status ∷ Method.version ∷ Method.add_declare_transaction
    ∷ Method.add_deploy_account_transaction ∷ Method.add_invoke_transaction
    ∷ Method.block_hash_and_number ∷ Method.block_number ∷ Method.call ∷ Method.chain_id
    ∷ Method.estimate_fee ∷ Method.estimate_message_fee ∷ Method.get_block_transaction_count
    ∷ Method.get_block_with_receipts ∷ Method.get_block_with_tx_hashes ∷ Method.get_block_with_txs
    ∷ Method.get_class ∷ Method.get_class_at ∷ Method.get_class_hash_at ∷ Method.get_events
    ∷ Method.get_nonce ∷ Method.get_state_update ∷ Method.get_storage_at
    ∷ Method.get_transaction_by_block_id_and_index ∷ Method.get_transaction_by_hash
    ∷ Method.get_transaction_receipt ∷ Method.get_transaction_status ∷ Method.simulate_transactions
    ∷ Method.spec_version ∷ Method.syncing ∷ Method.trace_block_transactions
    ∷ Method.trace_transaction ∷ []

-- The empty arguments, if the method has none.
abbrev pub plain_args : (m : Method) → Option (Args m)
plain_args Method.get_proof = none
plain_args Method.get_tx_status = none
plain_args Method.version = some tt
plain_args Method.add_declare_transaction = none
plain_args Method.add_deploy_account_transaction = none
plain_args Method.add_invoke_transaction = none
plain_args Method.block_hash_and_number = some tt
plain_args Method.block_number = some tt
plain_args Method.call = none
plain_args Method.chain_id = some tt
plain_args Method.estimate_fee = none
plain_args Method.estimate_message_fee = none
plain_args Method.get_block_transaction_count = none
plain_args Method.get_block_with_receipts = none
plain_args Method.get_block_with_tx_hashes = none
plain_args Method.get_block_with_txs = none
plain_args Method.get_class = none
plain_args Method.get_class_at = none
plain_args Method.get_class_hash_at = none
plain_args Method.get_events = none
plain_args Method.get_nonce = none
plain_args Method.get_state_update = none
plain_args Method.get_storage_at = none
plain_args Method.get_transaction_by_block_id_and_index = none
plain_args Method.get_transaction_by_hash = none
plain_args Method.get_transaction_receipt = none
plain_args Method.get_transaction_status = none
plain_args Method.simulate_transactions = none
plain_args Method.spec_version = some tt
plain_args Method.syncing = some tt
plain_args Method.trace_block_transactions = none
plain_args Method.trace_transaction = none

pub differ : (a b : Str) → str_eq a b ≡ false → a ≢ b
differ a b h e = absurd (cc (rw e at h, str_eq_refl b))

-- None of the methods has the name.
abbrev pub Absent : Str → List Method → Type 0
Absent name [] = Unit {0}
Absent name (m ∷ ms) = (name ≢ method_name m) × Absent name ms

pub absent : (name : Str) → Absent name all_methods → (m : Method) → name ≢ method_name m
absent name a Method.get_proof = a.0
absent name a Method.get_tx_status = a.1.0
absent name a Method.version = a.1.1.0
absent name a Method.add_declare_transaction = a.1.1.1.0
absent name a Method.add_deploy_account_transaction = a.1.1.1.1.0
absent name a Method.add_invoke_transaction = a.1.1.1.1.1.0
absent name a Method.block_hash_and_number = a.1.1.1.1.1.1.0
absent name a Method.block_number = a.1.1.1.1.1.1.1.0
absent name a Method.call = a.1.1.1.1.1.1.1.1.0
absent name a Method.chain_id = a.1.1.1.1.1.1.1.1.1.0
absent name a Method.estimate_fee = a.1.1.1.1.1.1.1.1.1.1.0
absent name a Method.estimate_message_fee = a.1.1.1.1.1.1.1.1.1.1.1.0
absent name a Method.get_block_transaction_count = a.1.1.1.1.1.1.1.1.1.1.1.1.0
absent name a Method.get_block_with_receipts = a.1.1.1.1.1.1.1.1.1.1.1.1.1.0
absent name a Method.get_block_with_tx_hashes = a.1.1.1.1.1.1.1.1.1.1.1.1.1.1.0
absent name a Method.get_block_with_txs = a.1.1.1.1.1.1.1.1.1.1.1.1.1.1.1.0
absent name a Method.get_class = a.1.1.1.1.1.1.1.1.1.1.1.1.1.1.1.1.0
absent name a Method.get_class_at = a.1.1.1.1.1.1.1.1.1.1.1.1.1.1.1.1.1.0
absent name a Method.get_class_hash_at = a.1.1.1.1.1.1.1.1.1.1.1.1.1.1.1.1.1.1.0
absent name a Method.get_events = a.1.1.1.1.1.1.1.1.1.1.1.1.1.1.1.1.1.1.1.0
absent name a Method.get_nonce = a.1.1.1.1.1.1.1.1.1.1.1.1.1.1.1.1.1.1.1.1.0
absent name a Method.get_state_update = a.1.1.1.1.1.1.1.1.1.1.1.1.1.1.1.1.1.1.1.1.1.0
absent name a Method.get_storage_at = a.1.1.1.1.1.1.1.1.1.1.1.1.1.1.1.1.1.1.1.1.1.1.0
absent name a Method.get_transaction_by_block_id_and_index =
    a.1.1.1.1.1.1.1.1.1.1.1.1.1.1.1.1.1.1.1.1.1.1.1.0
absent name a Method.get_transaction_by_hash = a.1.1.1.1.1.1.1.1.1.1.1.1.1.1.1.1.1.1.1.1.1.1.1.1.0
absent name a Method.get_transaction_receipt = a.1.1.1.1.1.1.1.1.1.1.1.1.1.1.1.1.1.1.1.1.1.1.1.1.1.0
absent name a Method.get_transaction_status =
    a.1.1.1.1.1.1.1.1.1.1.1.1.1.1.1.1.1.1.1.1.1.1.1.1.1.1.0
absent name a Method.simulate_transactions =
    a.1.1.1.1.1.1.1.1.1.1.1.1.1.1.1.1.1.1.1.1.1.1.1.1.1.1.1.0
absent name a Method.spec_version = a.1.1.1.1.1.1.1.1.1.1.1.1.1.1.1.1.1.1.1.1.1.1.1.1.1.1.1.1.0
absent name a Method.syncing = a.1.1.1.1.1.1.1.1.1.1.1.1.1.1.1.1.1.1.1.1.1.1.1.1.1.1.1.1.1.0
absent name a Method.trace_block_transactions =
    a.1.1.1.1.1.1.1.1.1.1.1.1.1.1.1.1.1.1.1.1.1.1.1.1.1.1.1.1.1.1.0
absent name a Method.trace_transaction =
    a.1.1.1.1.1.1.1.1.1.1.1.1.1.1.1.1.1.1.1.1.1.1.1.1.1.1.1.1.1.1.1.0
