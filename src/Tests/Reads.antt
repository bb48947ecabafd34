-- ===== src/Tests/Reads.antt =====
-- Requests to the server of src/rpc.rs, against the small node.
use beerus.Prelude.{
  ℕ, suc, ◌≡◌, refl, Option, none, some, List, [], ◌∷◌, str_eq, ok, as_u64, pos, arith,
}
use beerus.Gen.Blocks.{BlockId}
use beerus.Gen.Client.{Request, call_method}
use beerus.Gen.Client.Chain.{get_storage_at, get_proof, get_block_with_tx_hashes}
use beerus.Gen.Api.{Rpc}
use beerus.Gen.Server.{Reply, handle_method, read_args, write_result, reply_result}
use beerus.Gen.Server.Dispatch.{handle, find_arm, arms, with_id}
use beerus.Gen.Server.Chain.{handle_get_storage_at}
use beerus.Rpc.Context.{Executor, context}
use beerus.Tests.Machine.{texts, vm_felt}
use beerus.Prelude.{Bool}
use beerus.Tests.Node.{storage_asked}
use beerus.Rpc.Answer.{Backed, handle-Backed}
use beerus.Prelude.{text}
use beerus.Tests.Node.{felt_sent}
use beerus.Rpc.{
  resolve_block_by_number, get_state, state_of_block, check_number, resolve_block_id,
  rpc_get_storage_at,
}
use beerus.Rpc.Resolve.{Resolved, resolve_block_id-Resolved}
use beerus.Rpc.Storage.{Proved, rpc_get_storage_at-Proved}
use beerus.Rpc.Batch.{many, batch, handle_request, answers, after_all, handle_request-answers}
use beerus.Tests.Bits.{msb0}
use beerus.Tests.Field.{two}
use beerus.Tests.Proofs.{honest_root, zero_address, zero_key, honest_accepted}
use beerus.Tests.Node.{json, node, one_felt, trusted_state, Json, nothing_sent}

abbrev pub number_three : BlockId
number_three = BlockId.block_number (record { value = pos 3 })

three_resolved :
    resolve_block_id json (node one_felt) [] trusted_state number_three 0
    ≡ (ok (number_three, honest_root), 1)
unfolding node resolve_block_id resolve_block_by_number get_state get_block_with_tx_hashes
    call_method state_of_block check_number as_u64
three_resolved = refl

resolve_block_id-Resolved_example :
    Resolved json (node one_felt) [] trusted_state number_three number_three honest_root 0 1
resolve_block_id-Resolved_example =
    resolve_block_id-Resolved json (node one_felt) [] trusted_state number_three 0 1 (omega arith)
      three_resolved

three_read :
    rpc_get_storage_at json
      (node one_felt)
      []
      two
      msb0
      trusted_state
      zero_address
      zero_key
      number_three
      0
    ≡ (ok one_felt, 3)
unfolding rpc_get_storage_at node get_storage_at get_proof call_method str_eq
three_read = rw (three_resolved, honest_accepted)

rpc_get_storage_at-Proved_example :
    Proved json
      (node one_felt)
      []
      two
      msb0
      trusted_state
      zero_address
      zero_key
      number_three
      one_felt
      0
      3
rpc_get_storage_at-Proved_example =
    rpc_get_storage_at-Proved json (node one_felt) [] two msb0 trusted_state zero_address zero_key
      number_three 0 3 (omega arith) three_read

-- Two requests and a notification between them; the answer is the number of requests before.
abbrev count : Request Json → ℕ → ℕ × ℕ
count req w = (w, suc w)

abbrev ask : Option ℕ → Request Json
ask id = record { method = []; params = nothing_sent; id = id }

abbrev asked : List (Request Json)
asked = ask (some 1) ∷ ask none ∷ ask (some 2) ∷ []

handle_request-answers_example :
    handle_request count (batch asked) 0 ≡ (many (answers count asked 0), after_all count asked 0)
handle_request-answers_example = handle_request-answers count asked 0

-- A server of the small node.
abbrev pub executor : Executor Bool ℕ
executor = record { exe_call = λ call state w. (ok [], w); join_text = [] }

abbrev small_server : Rpc ℕ
small_server = context json (node one_felt) [] two msb0 texts vm_felt executor trusted_state

abbrev pub storage_request : Request Json
storage_request = record {
  method = text "starknet_getStorageAt";
  params = storage_asked zero_address zero_key number_three;
  id = some 7;
}

abbrev storage_reply : Reply Json
storage_reply = record { error = none; result = some (felt_sent one_felt); id = some 7 }

storage_handled : handle json small_server storage_request 0 ≡ (ok storage_reply, 3)
unfolding handle find_arm arms with_id handle_get_storage_at handle_method read_args write_result
    reply_result str_eq context
storage_handled = rw three_read

handle-Backed_example :
    Backed json json
      (node one_felt)
      []
      two
      msb0
      texts
      vm_felt
      executor
      trusted_state
      storage_request
      (felt_sent one_felt)
      (some 7)
      0
      3
handle-Backed_example =
    handle-Backed json json (node one_felt) [] two msb0 texts vm_felt executor trusted_state
      storage_request 0 3 refl (omega arith) storage_handled refl
