-- ===== src/Gen/Server/Results.antt =====
-- What stands behind a result that `gen::handle` of src/gen.rs replies with.
use beerus.Prelude.{
  ℕ, ℤ, pos, negsuc, ◌≡◌, refl, ap, sym, ◌∙◌, Option, none, some, inl, inr, arith, Str, text,
  Outcome, Outcome-cases, ok, err, panic, Error,
}
use beerus.Gen.Api.{Method, Args, Ret, Rpc}
use beerus.Gen.Api.Names.{method_name, plain_args}
use beerus.Gen.Client.{Serde, SerdeError, Request}
use beerus.Gen.Server.{
  Reply, reply_error, reply_result, read_args, write_result, handle_method, handle_plain,
}
use beerus.Gen.Server.Dispatch.{handle, with_id}
use beerus.Gen.Server.Reach.{handler_of, handler_for, handle-reaches, handle-own}

module _ {V W : Type 0} (serde : Serde V) (rpc : Rpc W) where
  write_result-inv :
      (m : Method) (code : ℤ) (failed : SerdeError → Str) (o : Outcome Error (Ret m))
      {reply : Reply V} {v : V}
      → write_result serde rpc m (λ e. reply_error code (failed e)) o ≡ ok reply
      → reply.result ≡ some v
      → (r : Ret m) × (o ≡ ok r) × (serde.ret_to_value m r ≡ ok v)
  unfolding write_result reply_result reply_error
  write_result-inv m code failed (ok r) h e = elim (Outcome-cases (serde.ret_to_value m r)) [
    | inl (v', e') ↦ (r, refl, ground arith)
    | inr (inl (x, e')) ↦ absurd (ground arith)
    | inr (inr e') ↦ absurd (ground arith)
  ]
  write_result-inv m code failed (err x) h e = absurd (ground arith)
  write_result-inv m code failed panic h e = cc

  -- The arguments that a handler calls its method with: those in the parameters, or the empty ones.
  pub data Reading (m : Method) (params : V) (args : Args m) : Type 0 where
    from_params :
        plain_args m ≡ none → read_args serde rpc m params ≡ ok args → Reading m params args
    from_nothing : plain_args m ≡ some args → Reading m params args

  -- A call of the method, which returned what the reply is written from.
  pub record Call (m : Method) (params v : V) (w w' : W) : Type 0 where
    pub args : Args m
    pub ret : Ret m
    pub reading : Reading m params args
    pub called : rpc m args w ≡ (ok ret, w')
    pub written : serde.ret_to_value m ret ≡ ok v

  handle_method-inv :
      (m : Method) (params : V) (w w' : W) {reply : Reply V} {v : V}
      → plain_args m ≡ none
      → handle_method serde rpc m params w ≡ (ok reply, w')
      → reply.result ≡ some v
      → Call m params v w w'
  unfolding handle_method reply_error
  handle_method-inv m params w w' plain h e = elim (Outcome-cases (read_args serde rpc m params)) [
    | inl (args, r) ↦
        let h' = rw (handle_method, r) at h in
        let (ret, o, v) =
          write_result-inv m (negsuc 32602) (λ _. text "Internal error") (rpc m args w).0
            (ap (λ o. o.0) h') e in
        record {
          args = args;
          ret = ret;
          reading = from_params plain r;
          called = cc (o, ap (λ o. o.1) h');
          written = v;
        }
    | inr (inl (x, r)) ↦ absurd (ground arith)
    | inr (inr r) ↦ absurd (ground arith)
  ]

  handler-inv :
      (m : Method) (plain : Option (Args m)) (params : V) (w w' : W) {reply : Reply V} {v : V}
      → plain_args m ≡ plain
      → handler_for serde rpc m plain params w ≡ (ok reply, w')
      → reply.result ≡ some v
      → Call m params v w w'
  unfolding handle_plain
  handler-inv m none params w w' same h e = handle_method-inv m params w w' same h e
  handler-inv m (some args) params w w' same h e =
      let (ret, o, v) =
        write_result-inv m (pos 1003) (λ x. x.debug) (rpc m args w).0 (ap (λ o. o.0) h) e in
      record {
        args = args;
        ret = ret;
        reading = from_nothing same;
        called = cc (o, ap (λ o. o.1) h);
        written = v;
      }

  with_id-inv :
      (id : Option ℕ) (m : Outcome Error (Reply V)) {reply : Reply V}
      → with_id serde rpc id m ≡ ok reply
      → (sent : Reply V) × (m ≡ ok sent) × (reply ≡ record sent { id = id })
  unfolding with_id
  with_id-inv id (ok r) h = (r, refl, cc)
  with_id-inv id (err e) h = cc
  with_id-inv id panic h = cc

  -- What a reply with a result says, when the method of the request is known.
  pub handle-Call_at :
      (m : Method) (req : Request V) (w w' : W) {reply : Reply V} {v : V}
      → req.method ≡ method_name m
      → handle serde rpc req w ≡ (ok reply, w')
      → reply.result ≡ some v
      → Call m req.params v w w' × (reply.id ≡ req.id)
  handle-Call_at m req w w' named h e =
      let f = ap (λ x. handle serde rpc (record req { method = x }) w) (sym named) ∙ h in
      let hf = sym (handle-own serde rpc m req.params req.id w) ∙ f in
      let (sent, hs, same) =
        with_id-inv req.id (handler_of serde rpc m req.params w).0 (ap (λ o. o.0) hf) in
      (
        handler-inv m (plain_args m) req.params w w' {reply = sent} refl (cc (hs, ap (λ o. o.1) hf))
            (ap (λ (x : Reply V). x.result) (sym same) ∙ e),
        ap (λ (x : Reply V). x.id) same,
      )

  -- If `handle` replies with a result, the request names a method, that method was called with the
  -- arguments that the parameters are read as, it returned without an error, and the result of the
  -- reply is what it returned, written; the reply has the id of the request.
  pub handle-Call :
      (req : Request V) (w w' : W) {reply : Reply V} {v : V}
      → handle serde rpc req w ≡ (ok reply, w')
      → reply.result ≡ some v
      → (m : Method) × (req.method ≡ method_name m) × Call m req.params v w w' × (reply.id ≡ req.id)
  handle-Call req w w' h e = elim (handle-reaches serde rpc req w) [
    | inl (m, named, f) ↦
        let (call, same) = handle-Call_at m req w w' named h e in (m, named, call, same)
    | inr (other, f) ↦ absurd (ground arith)
  ]
