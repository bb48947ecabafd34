-- ===== src/Gen/Errors.antt =====
-- The error codes of src/gen.rs (`gen::error`), and the JSON-RPC errors that they stand for.
use beerus.Prelude.{Str, text, ℤ, pos, Error}

-- `Error(i64, &'static str)`
pub record ErrorCode : Type 0 where
  pub code : ℤ
  pub message : Str

abbrev pub block_not_found : ErrorCode
block_not_found = record { code = pos 24; message = text "Block not found" }

abbrev pub class_already_declared : ErrorCode
class_already_declared = record { code = pos 51; message = text "Class already declared" }

abbrev pub class_hash_not_found : ErrorCode
class_hash_not_found = record { code = pos 28; message = text "Class hash not found" }

abbrev pub compilation_failed : ErrorCode
compilation_failed = record { code = pos 56; message = text "Compilation failed" }

abbrev pub compiled_class_hash_mismatch : ErrorCode
compiled_class_hash_mismatch = record {
  code = pos 60;
  message = text "the compiled class hash did not match the one supplied in the transaction";
}

abbrev pub contract_class_size_is_too_large : ErrorCode
contract_class_size_is_too_large = record {
  code = pos 57;
  message = text "Contract class size it too large";
}

abbrev pub contract_error : ErrorCode
contract_error = record { code = pos 40; message = text "Contract error" }

abbrev pub contract_not_found : ErrorCode
contract_not_found = record { code = pos 20; message = text "Contract not found" }

abbrev pub duplicate_tx : ErrorCode
duplicate_tx = record {
  code = pos 59;
  message = text "A transaction with the same hash already exists in the mempool";
}

abbrev pub failed_to_receive_txn : ErrorCode
failed_to_receive_txn = record { code = pos 1; message = text "Failed to write transaction" }

abbrev pub insufficient_account_balance : ErrorCode
insufficient_account_balance = record {
  code = pos 54;
  message = text "Account balance is smaller than the transaction's max_fee";
}

abbrev pub insufficient_max_fee : ErrorCode
insufficient_max_fee = record {
  code = pos 53;
  message =
      text "Max fee is smaller than the minimal transaction cost (validation plus fee transfer)";
}

abbrev pub invalid_continuation_token : ErrorCode
invalid_continuation_token = record {
  code = pos 33;
  message = text "The supplied continuation token is invalid or unknown";
}

abbrev pub invalid_transaction_nonce : ErrorCode
invalid_transaction_nonce = record { code = pos 52; message = text "Invalid transaction nonce" }

abbrev pub invalid_txn_index : ErrorCode
invalid_txn_index = record { code = pos 27; message = text "Invalid transaction index in a block" }

abbrev pub non_account : ErrorCode
non_account = record { code = pos 58; message = text "Sender address in not an account contract" }

abbrev pub no_blocks : ErrorCode
no_blocks = record { code = pos 32; message = text "There are no blocks" }

abbrev pub no_trace_available : ErrorCode
no_trace_available = record { code = pos 10; message = text "No trace available for transaction" }

abbrev pub page_size_too_big : ErrorCode
page_size_too_big = record { code = pos 31; message = text "Requested page size is too big" }

abbrev pub proof_limit_exceeded : ErrorCode
proof_limit_exceeded = record { code = pos 10000; message = text "Too many storage keys requested" }

abbrev pub too_many_keys_in_filter : ErrorCode
too_many_keys_in_filter = record {
  code = pos 34;
  message = text "Too many keys provided in a filter";
}

abbrev pub transaction_execution_error : ErrorCode
transaction_execution_error = record { code = pos 41; message = text "Transaction execution error" }

abbrev pub txn_hash_not_found : ErrorCode
txn_hash_not_found = record { code = pos 29; message = text "Transaction hash not found" }

abbrev pub unexpected_error : ErrorCode
unexpected_error = record { code = pos 63; message = text "An unexpected error occurred" }

abbrev pub unsupported_contract_class_version : ErrorCode
unsupported_contract_class_version = record {
  code = pos 62;
  message = text "the contract class version is not supported";
}

abbrev pub unsupported_tx_version : ErrorCode
unsupported_tx_version = record {
  code = pos 61;
  message = text "the transaction version is not supported";
}

abbrev pub validation_failure : ErrorCode
validation_failure = record { code = pos 55; message = text "Account validation failed" }

-- `impl From<Error> for jsonrpc::Error`
unfoldable pub error_of : ErrorCode → Error
error_of e = record { code = e.code; message = e.message }
