-- ===== src/Gen/Server.antt =====
-- The body of the handlers of src/gen.rs: the arguments are read by name or by position, the server is
-- called, and the result or the error is written.
pub mod Chain
pub mod Txns
pub mod Dispatch
pub mod Reach
pub mod Wire
pub mod Results
pub mod Keeps
use Prim.Native.String.{String}
use beerus.Prelude.{
  ℕ, Option, none, some, Str, text, Outcome, ok, err, panic, Error, ℤ, pos, negsuc,
}
use beerus.Prelude.Effects.{Io}
use beerus.Gen.Api.{Method, Args, Ret, Rpc}
use beerus.Gen.Client.{Serde, SerdeError}

-- `jsonrpc::Response`.
pub record Reply (V : Type 0) : Type 0 where
  pub error : Option Error
  pub result : Option V
  pub id : Option ℕ

module _ {V : Type 0} where
  unfoldable pub reply_error : ℤ → Str → Reply V
  reply_error code message = record {
    error = some (record { code = code; message = message });
    result = none;
    id = none;
  }

  unfoldable pub reply_result : V → Reply V
  reply_result v = record { error = none; result = some v; id = none }

module _ {V W : Type 0} (serde : Serde V) (rpc : Rpc W) where
  -- `from_value::<ArgByName>`, and if that fails `from_value::<ArgByPos>`.
  unfoldable pub read_args : (m : Method) → V → Outcome SerdeError (Args m)
  read_args m params = elim (serde.args_by_name m params) [
    | ok args ↦ ok args
    | err _ ↦ serde.args_by_pos m params
    | panic ↦ panic
  ]

  -- The reply with a result, or with the error of the call; `failed` is for a result that cannot be
  -- written.
  unfoldable pub write_result :
      (m : Method) → (SerdeError → Reply V) → Outcome Error (Ret m) → Outcome Error (Reply V)
  unfolding reply_error reply_result
  write_result m failed (ok ret) = elim (serde.ret_to_value m ret) [
    | ok v ↦ ok (reply_result v)
    | err e ↦ ok (failed e)
    | panic ↦ panic
  ]
  write_result m failed (err e) = ok (reply_error e.code e.message)
  write_result m failed panic = panic

  -- The body of the handlers of methods with arguments.
  unfoldable pub handle_method : Method → V → Io W (Reply V)
  unfolding reply_error
  handle_method m params w = elim (read_args m params) [
    | ok args ↦ (
      write_result m (λ _. reply_error (negsuc 32602) (text "Internal error")) (rpc m args w).0,
      (rpc m args w).1,
    )
    | err _ ↦ (ok (reply_error (negsuc 32601) (text "Invalid params")), w)
    | panic ↦ (panic, w)
  ]

  -- The body of the handlers of methods without arguments, given the empty ones: the parameters are
  -- not looked at.
  unfoldable pub handle_plain : (m : Method) → Args m → V → Io W (Reply V)
  unfolding reply_error
  handle_plain m args params w =
      (write_result m (λ e. reply_error (pos 1003) e.debug) (rpc m args w).0, (rpc m args w).1)
