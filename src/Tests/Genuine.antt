-- ===== src/Tests/Genuine.antt =====
-- The server and the executor against the small node, whose state is known.
use beerus.Prelude.{
  ℕ, ◌≡◌, refl, subst, pos, true, false, [], ◌∷◌, arith, text, str_eq, ok, as_u64, none, some,
}
use beerus.Prelude.Effects.{ok-pair}
use beerus.Gen.Felt.{Felt}
use beerus.Gen.Types.{GetProofResult}
use beerus.Gen.Blocks.{BlockId, BlockTag}
use beerus.Gen.Client.{Request, call_method}
use beerus.Gen.Client.Chain.{get_storage_at, get_proof}
use beerus.Gen.Blocking.Chain
use beerus.Util.{felt_to_bits}
use beerus.Proof.Honest.{contract_state, honest_result, honest_data}
use beerus.Proof.State.{IsWholeResult, Holds, IsGenuine}
use beerus.Proof.Trie.{prove}
use beerus.Proof.Whole.{prove-IsWhole}
use beerus.Client.{State}
use beerus.Exe.Proxy.{
  StateProxy, proxy_get_nonce_at, proxy_get_class_hash_at, proxy_get_compiled_contract_class,
}
use beerus.Exe.Proxy.Genuine.{proxy-unproved}
use beerus.Rpc.{resolve_block_id, current_block, rpc_get_storage_at}
use beerus.Rpc.Genuine.{for_latest}
use beerus.Rpc.Answer.{server}
use beerus.Rpc.Answer.Genuine.{handle-IsGenuine}
use beerus.Rpc.Context.{context}
use beerus.Gen.Api.{Method}
use beerus.Gen.Server.{Reply, handle_method, read_args, write_result, reply_result}
use beerus.Gen.Server.Dispatch.{handle, find_arm, arms, with_id}
use beerus.Gen.Server.Chain.{handle_get_storage_at}
use beerus.Rpc.Older.{rpc_get_storage_at-older}
use beerus.Tests.Bits.{msb0, msb0_laws}
use beerus.Tests.Field.{two, two_laws}
use beerus.Tests.Machine.{texts, vm_felt, vm, proxy}
use beerus.Tests.Node.{
  Json, storage_asked, felt_sent, json, node, one_felt, zero_felt, trusted_state,
}
use beerus.Tests.Proofs.{
  opening, contract, contracts, zero_address, zero_key, honest, honest_root, honest_accepted,
}
use beerus.Tests.Reads.{number_three, executor}

honest-Holds : Holds two msb0 honest_root zero_address zero_key true
unfolding str_eq felt_to_bits
honest-Holds = record {
  contract = contract;
  contracts = contracts;
  classes = true;
  key_felt = false;
  address_felt = false;
  has_key = refl;
  has_address = refl;
  in_storage = opening true;
  in_state = opening (contract_state two msb0 contract);
  canonical_storage = (omega arith, tt);
  canonical_state = (omega arith, tt);
  has_root = refl;
}

honest-IsWholeResult : IsWholeResult two honest
unfolding honest_result honest_data felt_to_bits
honest-IsWholeResult = record {
  data_sent = honest_data two msb0 contract zero_felt (prove two msb0 (opening true));
  storage_proof = prove two msb0 (opening true);
  more = [];
  has_data = refl;
  has_proofs = refl;
  storage_whole = prove-IsWhole two_laws msb0 (opening true) (omega arith, tt) refl;
  contract_whole =
      prove-IsWhole two_laws msb0 (opening (contract_state two msb0 contract)) (omega arith, tt)
        refl;
}

proof_of :
    (block : BlockId) (before after : ℕ) (proof : GetProofResult)
    → get_proof json (node one_felt) [] block zero_address (zero_key ∷ []) before
      ≡ (ok proof, after)
    → IsWholeResult two proof
unfolding get_proof call_method node str_eq
proof_of block before after proof h = subst (IsWholeResult two) (ok-pair h).0 honest-IsWholeResult

latest_read :
    rpc_get_storage_at json
      (node one_felt)
      []
      two
      msb0
      trusted_state
      zero_address
      zero_key
      (BlockId.block_tag BlockTag.latest)
      0
    ≡ (ok one_felt, 2)
unfolding rpc_get_storage_at resolve_block_id current_block node get_storage_at get_proof
    call_method str_eq
latest_read = rw honest_accepted

abbrev latest_block : BlockId
latest_block = BlockId.block_tag BlockTag.latest

abbrev latest_request : Request Json
latest_request = record {
  method = text "starknet_getStorageAt";
  params = storage_asked zero_address zero_key latest_block;
  id = some 8;
}

abbrev latest_reply : Reply Json
latest_reply = record { error = none; result = some (felt_sent one_felt); id = some 8 }

latest_handled :
    handle json
      (server json json (node one_felt) [] two msb0 texts vm_felt executor trusted_state)
      latest_request
      0
    ≡ (ok latest_reply, 2)
unfolding handle find_arm arms with_id handle_get_storage_at handle_method read_args write_result
    reply_result str_eq context
latest_handled = rw latest_read

latest_args :
    read_args json
      (server json json (node one_felt) [] two msb0 texts vm_felt executor trusted_state)
      Method.get_storage_at
      latest_request.params
    ≡ ok (zero_address, zero_key, latest_block)
unfolding read_args
latest_args = refl

handle-IsGenuine_example :
    (value : Felt) × (json.ret_to_value Method.get_storage_at value ≡ ok (felt_sent one_felt))
    × IsGenuine honest-Holds value
handle-IsGenuine_example =
    handle-IsGenuine json json (node one_felt) [] two_laws msb0_laws texts vm_felt executor
      trusted_state latest_request 0 2 zero_address zero_key latest_block true honest-Holds refl
      latest_args (omega arith) for_latest proof_of latest_handled refl

-- A state of another root.
abbrev other_state : State
other_state = record { block_number = 9; block_hash = one_felt; root = zero_felt }

rpc_get_storage_at-older_example :
    rpc_get_storage_at json
      (node one_felt)
      []
      two
      msb0
      trusted_state
      zero_address
      zero_key
      number_three
      0
    ≡ rpc_get_storage_at json
        (node one_felt)
        []
        two
        msb0
        other_state
        zero_address
        zero_key
        number_three
        0
unfolding as_u64
rpc_get_storage_at-older_example =
    rpc_get_storage_at-older json (node one_felt) [] two msb0 (record { value = pos 3 })
      trusted_state other_state zero_address zero_key 0 (omega arith) (omega arith)

abbrev other_proxy : StateProxy
other_proxy = record { url = []; state = other_state }

proxy-unproved_example :
    (proxy_get_nonce_at json (node one_felt) two msb0 texts vm_felt vm proxy false 0
      ≡ proxy_get_nonce_at json (node one_felt) two msb0 texts vm_felt vm other_proxy false 0)
    × (proxy_get_class_hash_at json (node one_felt) two msb0 texts vm_felt vm proxy false 0
        ≡ proxy_get_class_hash_at json
            (node one_felt)
            two
            msb0
            texts
            vm_felt
            vm
            other_proxy
            false
            0)
    × (proxy_get_compiled_contract_class json
          (node one_felt)
          two
          msb0
          texts
          vm_felt
          vm
          proxy
          false
          0
        ≡ proxy_get_compiled_contract_class json
            (node one_felt)
            two
            msb0
            texts
            vm_felt
            vm
            other_proxy
            false
            0)
proxy-unproved_example =
    proxy-unproved json (node one_felt) two msb0 texts vm_felt vm proxy other_proxy false 0 refl
      refl
