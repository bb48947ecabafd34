-- ===== src/Gen/Client/Keeps.antt =====
-- The client of src/gen.rs touches the world by its HTTP alone.
use beerus.Prelude.{Str, Outcome, map_err, some}
use beerus.Prelude.Effects.{Io}
use beerus.Prelude.Keeps.{Keeps, then_do-Keeps}
use beerus.Gen.Api.{Method, Args}
use beerus.Gen.Client.{Serde, SerdeError, Request, Response, call_method, invalid_params}
use beerus.Gen.Client.Impl.{client}
use beerus.Gen.Client.Calls.{sent_params, client-call}
use beerus.Gen.Api.Names.{method_name}

module _ {V W : Type 0} (serde : Serde V) (post : Str → Request V → Io W (Response V))
    (P : W → Type 0) (post-Keeps : (url : Str) (req : Request V) → Keeps P (post url req)) where
  call_method-Keeps :
      {A : Type 0} (url method : Str) (args : Outcome SerdeError V)
      (from_value : V → Outcome SerdeError A)
      → Keeps P (call_method serde post url method args from_value)
  unfolding call_method
  call_method-Keeps url method args from_value w p =
      then_do-Keeps P (map_err invalid_params args, w) _ p
        (λ params w' p'.
          then_do-Keeps P (post url (record { method = method; params = params; id = some 1 }) w') _
            (post-Keeps url _ w' p') (λ res w p. p))

  pub client-Keeps :
      (url : Str) (m : Method) (args : Args m) → Keeps P (client serde post url m args)
  client-Keeps url m args w p = rw (client-call serde post url m args) (
      call_method-Keeps url (method_name m) (sent_params serde post m args) (serde.ret_from_value m)
        w p)
