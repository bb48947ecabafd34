-- ===== src/Tests/Node.antt =====
-- A node that answers every request honestly about one small state, and counts the requests.
use beerus.Prelude.{Outcome, ℕ, suc, none, some, [], if◌then◌else◌, Str, text, str_eq, ok, err, pos}
use beerus.Prelude.Effects.{Io}
use beerus.Gen.Felt.{Felt}
use beerus.Gen.Types.{GetProofResult, Address}
use beerus.Gen.Blocks.{
  BlockId, BlockStatus, ResourcePrice, GetBlockWithTxHashesResult, block_with_tx_hashes,
}
use beerus.Gen.Api.{Method, Args, Ret}
use beerus.Gen.Keys.{StorageKey}
use beerus.Gen.Client.{Serde, SerdeError, Request, Response}
use beerus.Client.{State}
use beerus.Tests.Proofs.{honest, honest_root, zero_text}

-- The JSON values of a conversation.
pub data Json : Type 0 where
  nothing_sent : Json
  storage_asked : Address → StorageKey → BlockId → Json
  nonce_asked : BlockId → Address → Json
  felt_sent : Felt → Json
  proof_sent : GetProofResult → Json
  block_sent : GetBlockWithTxHashesResult → Json

abbrev pub not_json : SerdeError
not_json = record { display = []; debug = [] }

abbrev pub args_written : (m : Method) → Args m → Outcome SerdeError Json
args_written Method.get_storage_at args = ok (storage_asked args.0 args.1 args.2)
args_written Method.get_nonce args = ok (nonce_asked args.0 args.1)
args_written _ _ = ok nothing_sent

abbrev pub args_read : (m : Method) → Json → Outcome SerdeError (Args m)
args_read Method.get_storage_at (storage_asked a k b) = ok (a, k, b)
args_read Method.get_nonce (nonce_asked b a) = ok (b, a)
args_read _ _ = err not_json

abbrev pub ret_written : (m : Method) → Ret m → Outcome SerdeError Json
ret_written Method.get_storage_at f = ok (felt_sent f)
ret_written Method.get_nonce f = ok (felt_sent f)
ret_written _ _ = err not_json

abbrev pub ret_read : (m : Method) → Json → Outcome SerdeError (Ret m)
ret_read Method.get_storage_at (felt_sent f) = ok f
ret_read Method.get_nonce (felt_sent f) = ok f
ret_read Method.get_proof (proof_sent p) = ok p
ret_read Method.get_block_with_tx_hashes (block_sent b) = ok b
ret_read _ _ = err not_json

abbrev pub json : Serde Json
json = record {
  empty_array = nothing_sent;
  args_to_value = args_written;
  args_by_pos = args_read;
  args_by_name = λ m v. err not_json;
  ret_to_value = ret_written;
  ret_from_value = ret_read;
}

abbrev pub one_felt : Felt
one_felt = record { value = text "0x1" }

abbrev pub zero_felt : Felt
zero_felt = record { value = zero_text }

abbrev price : ResourcePrice
price = record { price_in_fri = zero_felt; price_in_wei = zero_felt }

-- The block of number 3.
abbrev pub third_block : GetBlockWithTxHashesResult
third_block = block_with_tx_hashes (record {
  status = BlockStatus.accepted_on_l1;
  block_header = record {
    block_hash = record { felt = zero_felt };
    block_number = record { value = pos 3 };
    l1_da_mode = none;
    l1_data_gas_price = none;
    l1_gas_price = price;
    new_root = honest_root;
    parent_hash = record { felt = one_felt };
    sequencer_address = zero_felt;
    starknet_version = [];
    timestamp = record { value = pos 0 };
  };
  block_body_with_tx_hashes = record { transactions = [] };
})

abbrev pub reply : Json → Response Json
reply j = record { error = none; result = some j }

-- The node's answer to a question for a value is its parameter.
unfoldable pub node : Felt → Str → Request Json → Io ℕ (Response Json)
unfolding str_eq
node value url req w =
    if str_eq req.method (text "starknet_getStorageAt")
    then (ok (reply (felt_sent value)), suc w)
    else if str_eq req.method (text "pathfinder_getProof")
    then (ok (reply (proof_sent honest)), suc w)
    else (ok (reply (block_sent third_block)), suc w)

-- The trusted state: the block of number 5.
abbrev pub trusted_state : State
trusted_state = record { block_number = 5; block_hash = one_felt; root = honest_root }
