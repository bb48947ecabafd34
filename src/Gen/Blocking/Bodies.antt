-- ===== src/Gen/Blocking/Bodies.antt =====
-- The bodies that the blocking methods of src/gen.rs have: of a method of the client
-- (`gen::client::blocking`), and of a handler and the dispatch of the server (`gen::blocking`).
use beerus.Prelude.{
  ℕ, ◌++◌, Option, none, some, List, [], ◌∷◌, if◌then◌else◌, Str, text, str_eq, Outcome, ok, err,
  panic, map_err, Error, pos, negsuc,
}
use beerus.Prelude.Effects.{Io, ◌>>=◌, lift}
use beerus.Gen.Api.{Method, Args, Ret, Rpc}
use beerus.Gen.Client.{Serde, SerdeError, Request, Response}
use beerus.Gen.Server.{Reply, reply_error, reply_result}

module _ {V W : Type 0} (serde : Serde V) (post : Str → Request V → Io W (Response V)) where
  unfoldable pub blocking_response {ℓ} :
      {A : Type ℓ} → (V → Outcome SerdeError A) → Response V → Outcome Error A
  blocking_response from_value res = elim res.error [
    | some e ↦ err e
    | none ↦ elim res.result [
      | some value ↦
          map_err
            (λ e. record {
              code = pos 5002;
              message = text "Invalid response object: " ++ (e.display ++ text ".");
            })
            (from_value value)
      | none ↦ err (record { code = pos 5003; message = text "Response missing" })
    ]
  ]

  unfoldable pub blocking_call :
      {A : Type 0} → Str → Str → Outcome SerdeError V → (V → Outcome SerdeError A) → Io W A
  unfolding blocking_response
  blocking_call url method args from_value = do
    params ← lift (
        map_err
          (λ e. record {
            code = pos 4001;
            message = text "Invalid params: " ++ (e.display ++ text ".");
          })
          args)
    res ← post url (record { method = method; params = params; id = some 1 })
    lift (blocking_response from_value res)

module _ {V W : Type 0} (serde : Serde V) (rpc : Rpc W) where
  unfoldable pub blocking_args : (m : Method) → V → Outcome SerdeError (Args m)
  blocking_args m params = elim (serde.args_by_name m params) [
    | ok args ↦ ok args
    | err _ ↦ serde.args_by_pos m params
    | panic ↦ panic
  ]

  unfoldable pub blocking_written :
      (m : Method) → (SerdeError → Reply V) → Outcome Error (Ret m) → Outcome Error (Reply V)
  blocking_written m failed (ok ret) = elim (serde.ret_to_value m ret) [
    | ok v ↦ ok (reply_result v)
    | err e ↦ ok (failed e)
    | panic ↦ panic
  ]
  blocking_written m failed (err e) = ok (reply_error e.code e.message)
  blocking_written m failed panic = panic

  -- The body of the handlers of methods with arguments.
  unfoldable pub blocking_method : Method → V → Io W (Reply V)
  blocking_method m params w = elim (blocking_args m params) [
    | ok args ↦ (
      blocking_written m (λ _. reply_error (negsuc 32602) (text "Internal error")) (rpc m args w).0,
      (rpc m args w).1,
    )
    | err _ ↦ (ok (reply_error (negsuc 32601) (text "Invalid params")), w)
    | panic ↦ (panic, w)
  ]

  -- The body of the handlers of methods without arguments: the parameters are not looked at.
  unfoldable pub blocking_plain : (m : Method) → Args m → V → Io W (Reply V)
  blocking_plain m args params w =
      (blocking_written m (λ e. reply_error (pos 1003) e.debug) (rpc m args w).0, (rpc m args w).1)

  -- The match on the method's name, and the id of the request.
  unfoldable pub blocking_find : List (Str × (V → Io W (Reply V))) → Str → V → Io W (Reply V)
  blocking_find [] method params w = (ok (reply_error (negsuc 32600) (text "Method not found")), w)
  blocking_find ((name, handler) ∷ rest) method params w =
      let other = blocking_find rest method params w in
      if str_eq method name then handler params w else other

  unfoldable pub blocking_with_id : Option ℕ → Outcome Error (Reply V) → Outcome Error (Reply V)
  blocking_with_id id (ok r) = ok (record r { id = id })
  blocking_with_id id (err e) = err e
  blocking_with_id id panic = panic
