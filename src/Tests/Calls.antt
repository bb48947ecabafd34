-- ===== src/Tests/Calls.antt =====
-- Requests between a client, the server of src/rpc.rs and a node that counts what it answers.
use beerus.Prelude.{
  ℕ, suc, ◌≡◌, ◌≢◌, ◌⊎◌, refl, none, some, [], str_eq, text, ok, err, pos, negsuc, Error,
}
use beerus.Gen.Api.{Method, Args, Rpc}
use beerus.Gen.Api.Names.{method_name}
use beerus.Gen.Client.{Request}
use beerus.Gen.Client.Impl.{client}
use beerus.Gen.Server.{Reply, read_args, write_result, handle_method, reply_result}
use beerus.Gen.Server.Chain.{handle_get_nonce}
use beerus.Gen.Server.Dispatch.{handle, with_id, find_arm, arms}
use beerus.Gen.Server.Reach.{handler_of, handle-reaches}
use beerus.Gen.Server.Results.{Call, handle-Call}
use beerus.Gen.Server.Wire.{served, Sent, as_value, Returned, client-served}
use beerus.Gen.Blocking.Impl.{blocking_client}
use beerus.Gen.Blocking.Dispatch.{blocking_handle}
use beerus.Gen.Blocking.Same.{blocking_same}
use beerus.Rpc.Context.{context}
use beerus.Rpc.Context.Forward.{context-forward}
use beerus.Tests.Bits.{msb0}
use beerus.Tests.Field.{two}
use beerus.Tests.Machine.{texts, vm_felt}
use beerus.Tests.Node.{json, one_felt, trusted_state, Json, nonce_asked, felt_sent}
use beerus.Tests.Proofs.{zero_address}
use beerus.Tests.Reads.{number_three, executor}

abbrev no_answer : Error
no_answer = record { code = pos 20; message = text "Contract not found" }

abbrev nonces : Rpc ℕ
nonces Method.get_nonce args w = (ok one_felt, suc w)
nonces _ args w = (err no_answer, suc w)

abbrev of_zero : Args Method.get_nonce
of_zero = (number_three, zero_address)

nonce_read :
    read_args json nonces Method.get_nonce (nonce_asked number_three zero_address) ≡ ok of_zero
unfolding read_args
nonce_read = refl

nonce-Sent : Sent json nonces Method.get_nonce of_zero
nonce-Sent = as_value (nonce_asked number_three zero_address) refl refl nonce_read

nonce-Returned : Returned json nonces Method.get_nonce (nonces Method.get_nonce of_zero 4).0
nonce-Returned f e = (felt_sent f, refl, refl)

client-served_example :
    client json (served json nonces) [] Method.get_nonce of_zero 4 ≡ (ok one_felt, 5)
client-served_example =
    client-served json nonces [] Method.get_nonce of_zero 4 nonce-Sent nonce-Returned

context-forward_example :
    context json
      (served json nonces)
      []
      two
      msb0
      texts
      vm_felt
      executor
      trusted_state
      Method.get_nonce
      of_zero
      4
    ≡ (ok one_felt, 5)
context-forward_example =
    context-forward json two msb0 texts vm_felt executor trusted_state [] nonces Method.get_nonce
      of_zero 4 tt nonce-Sent nonce-Returned

abbrev nonce_request : Request Json
nonce_request = record {
  method = text "starknet_getNonce";
  params = nonce_asked number_three zero_address;
  id = some 7;
}

abbrev nonce_reply : Reply Json
nonce_reply = record { error = none; result = some (felt_sent one_felt); id = some 7 }

nonce_handled : handle json nonces nonce_request 4 ≡ (ok nonce_reply, 5)
unfolding handle find_arm arms with_id handle_get_nonce handle_method read_args write_result
    reply_result str_eq
nonce_handled = refl

handle-reaches_example :
    ((m : Method) × (nonce_request.method ≡ method_name m)
      × (handle json nonces nonce_request 4 ≡ (
        with_id json nonces (some 7) (handler_of json nonces m nonce_request.params 4).0,
        (handler_of json nonces m nonce_request.params 4).1,
      )))
    ⊎ (((m : Method) → nonce_request.method ≢ method_name m)
        × (handle json nonces nonce_request 4 ≡ (
          ok (record {
            error = some (record { code = negsuc 32600; message = text "Method not found" });
            result = none;
            id = some 7;
          }),
          4,
        )))
handle-reaches_example = handle-reaches json nonces nonce_request 4

handle-Call_example :
    (m : Method) × (nonce_request.method ≡ method_name m)
    × Call json nonces m nonce_request.params (felt_sent one_felt) 4 5
    × (nonce_reply.id ≡ nonce_request.id)
handle-Call_example = handle-Call json nonces nonce_request 4 5 nonce_handled refl

blocking_same_example :
    (blocking_client json (served json nonces) [] Method.get_nonce of_zero 4
      ≡ client json (served json nonces) [] Method.get_nonce of_zero 4)
    × (blocking_handle json nonces nonce_request 4 ≡ handle json nonces nonce_request 4)
blocking_same_example =
    blocking_same json (served json nonces) [] nonces Method.get_nonce of_zero nonce_request 4
