-- ===== src/Gen/Numbers.antt =====
-- The integers of src/gen.rs that are checked against a range.
pub mod Laws
use beerus.Prelude.{◌++◌, if◌then◌else◌, Str, text, Outcome, ok, err, Error, ℤ, pos, ltb_ℤ, show_ℤ}

pub record BlockNumber : Type 0 where
  pub value : ℤ

pub record BlockHeaderTimestamp : Type 0 where
  pub value : ℤ

pub record PendingBlockHeaderTimestamp : Type 0 where
  pub value : ℤ

pub record ResultPageRequestChunkSize : Type 0 where
  pub value : ℤ

pub record StructAbiEntrySize : Type 0 where
  pub value : ℤ

pub record GetTransactionByBlockIdAndIndexIndex : Type 0 where
  pub value : ℤ

pub record GetBlockTransactionCountResult : Type 0 where
  pub value : ℤ

abbrev i64_max : ℤ
i64_max = pos 9223372036854775807

out_of_range : Str → ℤ → Str → ℤ → Error
unfolding show_ℤ
out_of_range name value side bound = record {
  code = pos 1001;
  message =
      name ++ (text " value " ++ (show_ℤ value ++ (text " must be " ++ (side ++ show_ℤ bound))));
}

-- The body that the seven constructors share: the value, or the error of the bound that it breaks.
in_range : Str → ℤ → ℤ → ℤ → Outcome Error ℤ
unfolding out_of_range
in_range name low high value =
    if ltb_ℤ value low
    then err (out_of_range name value (text "> ") low)
    else if ltb_ℤ high value
    then err (out_of_range name value (text "< ") high)
    else ok value

infixl 5 ◌<&>◌
abbrev ◌<&>◌ {ℓ κ} : {A : Type ℓ} {B : Type κ} → Outcome Error A → (A → B) → Outcome Error B
ok a <&> f = ok (f a)
err e <&> f = err e
Outcome.panic <&> f = Outcome.panic

unfoldable pub try_block_number : ℤ → Outcome Error BlockNumber
unfolding in_range
try_block_number value =
    in_range (text "BlockNumber") (pos 0) i64_max value <&> λ v. record { value = v }

unfoldable pub try_block_header_timestamp : ℤ → Outcome Error BlockHeaderTimestamp
unfolding in_range
try_block_header_timestamp value =
    in_range (text "BlockHeaderTimestamp") (pos 0) i64_max value <&> λ v. record { value = v }

unfoldable pub try_pending_block_header_timestamp : ℤ → Outcome Error PendingBlockHeaderTimestamp
unfolding in_range
try_pending_block_header_timestamp value =
    in_range (text "PendingBlockHeaderTimestamp") (pos 0) i64_max value <&> λ v. record {
      value = v;
    }

unfoldable pub try_result_page_request_chunk_size : ℤ → Outcome Error ResultPageRequestChunkSize
unfolding in_range
try_result_page_request_chunk_size value =
    in_range (text "ResultPageRequestChunkSize") (pos 1) i64_max value <&> λ v. record { value = v }

unfoldable pub try_struct_abi_entry_size : ℤ → Outcome Error StructAbiEntrySize
unfolding in_range
try_struct_abi_entry_size value =
    in_range (text "StructAbiEntrySize") (pos 1) i64_max value <&> λ v. record { value = v }

unfoldable pub try_transaction_index : ℤ → Outcome Error GetTransactionByBlockIdAndIndexIndex
unfolding in_range
try_transaction_index value =
    in_range (text "GetTransactionByBlockIdAndIndexIndex") (pos 0) i64_max value <&> λ v. record {
      value = v;
    }

unfoldable pub try_transaction_count : ℤ → Outcome Error GetBlockTransactionCountResult
unfolding in_range
try_transaction_count value =
    in_range (text "GetBlockTransactionCountResult") (pos 0) i64_max value <&> λ v. record {
      value = v;
    }
