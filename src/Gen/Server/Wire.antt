-- ===== src/Gen/Server/Wire.antt =====
-- The two ends of src/gen.rs joined: a client whose HTTP reaches `gen::handle` of a server.
use beerus.Prelude.{
  ℕ, pos, negsuc, ◌≡◌, refl, Option, none, some, Str, text, Outcome, ok, err, panic, Error,
}
use beerus.Prelude.Effects.{Io, then_do, lift}
use beerus.Gen.Api.{Method, Args, Ret, Rpc}
use beerus.Gen.Client.{Serde, SerdeError, Request, Response, call_method, read_response}
use beerus.Gen.Client.Impl.{client}
use beerus.Gen.Server.{
  Reply, reply_error, reply_result, read_args, write_result, handle_method, handle_plain,
}
use beerus.Gen.Server.Dispatch.{handle, with_id}
use beerus.Gen.Api.Names.{plain_args}
use beerus.Gen.Server.Reach.{handler_of, handle-own}
use beerus.Gen.Client.Calls.{sent_params, client-call}

module _ {V W : Type 0} (serde : Serde V) (rpc : Rpc W) where
  -- The error and the result of a reply.
  unfoldable pub response_of : Outcome Error (Reply V) → Outcome Error (Response V)
  response_of (ok reply) = ok (record { error = reply.error; result = reply.result })
  response_of (err e) = err e
  response_of panic = panic

  -- HTTP to a server of `rpc`, whatever the URL.
  unfoldable pub served : Str → Request V → Io W (Response V)
  served url req w = (response_of (handle serde rpc req w).0, (handle serde rpc req w).1)

  -- The arguments are written as a JSON value that is read as the same arguments, or there are none.
  pub data Sent (m : Method) (args : Args m) : Type 0 where
    as_value :
        (v : V)
        → plain_args m ≡ none
        → serde.args_to_value m args ≡ ok v
        → read_args serde rpc m v ≡ ok args
        → Sent m args
    as_nothing : plain_args m ≡ some args → Sent m args

  -- A result is written as a JSON value that is read as the same result.
  abbrev pub Returned : (m : Method) → Outcome Error (Ret m) → Type 0
  Returned m result =
      (r : Ret m)
      → result ≡ ok r
      → (v : V) × (serde.ret_to_value m r ≡ ok v) × (serde.ret_from_value m v ≡ ok r)

  Sent-handler_of :
      (m : Method) (args : Args m) (w : W)
      → Sent m args
      → (v : V) × (failed : (SerdeError → Reply V)) × (sent_params serde served m args ≡ ok v)
        × (handler_of serde rpc m v w
            ≡ (write_result serde rpc m failed (rpc m args w).0, (rpc m args w).1))
  unfolding handle_method handle_plain
  Sent-handler_of m args w (as_value v plain written r) = (
    v,
    λ _. reply_error (negsuc 32602) (text "Internal error"),
    rw (plain, written),
    rw (plain, handle_method, r),
  )
  Sent-handler_of m args w (as_nothing plain) =
      (serde.empty_array, λ e. reply_error (pos 1003) e.debug, rw (plain), rw (plain))

  read_written :
      (m : Method) (id : Option ℕ) (failed : SerdeError → Reply V) (o : Outcome Error (Ret m))
      (w : W)
      → Returned m o
      → then_do
          (response_of (with_id serde rpc id (write_result serde rpc m failed o)))
          w
          (λ res. lift (read_response serde served (serde.ret_from_value m) res))
        ≡ (o, w)
  unfolding response_of with_id write_result read_response reply_error reply_result
  read_written m id failed (ok r) w back = let (v, e, e') = back r refl in rw (write_result, e, e')
  read_written m id failed (err e) w back = refl
  read_written m id failed panic w back = refl

  -- If the arguments of a method and its result survive the way through JSON, a call of the client
  -- is the call of the server: the same result or the same error, and the same world after it.
  pub client-served :
      (url : Str) (m : Method) (args : Args m) (w : W)
      → Sent m args
      → Returned m (rpc m args w).0
      → client serde served url m args w ≡ rpc m args w
  unfolding served call_method
  client-served url m args w sent back =
      let (v, failed, p, q) = Sent-handler_of m args w sent in
      rw (client-call serde served url m args, p, handle-own serde rpc m v (some 1) w, q)
        (read_written m (some 1) failed (rpc m args w).0 (rpc m args w).1 back)
