-- ===== src/Gen/Client.antt =====
-- The JSON-RPC client of src/gen.rs (`gen::client`; Gen/Blocking has the
-- blocking one): arguments to a request, the request over HTTP, the answer to a result.
-- The HTTP client and serde are parameters, and so are JSON values.
pub mod Chain
pub mod Txns
pub mod Impl
pub mod Calls
pub mod Keeps
use Prim.Native.String.{String}
use beerus.Prelude.{
  ℕ, Option, none, some, ◌++◌, Str, text, Outcome, ok, err, panic, map_err, Error, pos,
}
use beerus.Prelude.Effects.{Io, ◌>>=◌, lift}
use beerus.Gen.Api.{Method, Args, Ret}

-- `jsonrpc::Request`, with the id that the client gives, and the two parts of a `jsonrpc::Response`
-- that it reads.
pub record Request (V : Type 0) : Type 0 where
  pub method : Str
  pub params : V
  pub id : Option ℕ

pub record Response (V : Type 0) : Type 0 where
  pub error : Option Error
  pub result : Option V

-- `serde_json::Error`, as `{e}` and as `{e:?}`.
pub record SerdeError : Type 0 where
  pub display : Str
  pub debug : Str

-- `serde_json::to_value` and `from_value` at the types of the API: the arguments of a method, as the
-- tuple that the client writes (an array), and as a server reads them by position (`ArgByPos`) or by
-- name (`ArgByName`); and its result.
pub record Serde (V : Type 0) : Type 0 where
  pub empty_array : V
  pub args_to_value : (m : Method) → Args m → Outcome SerdeError V
  pub args_by_pos : (m : Method) → V → Outcome SerdeError (Args m)
  pub args_by_name : (m : Method) → V → Outcome SerdeError (Args m)
  pub ret_to_value : (m : Method) → Ret m → Outcome SerdeError V
  pub ret_from_value : (m : Method) → V → Outcome SerdeError (Ret m)

unfoldable pub invalid_params : SerdeError → Error
invalid_params e = record {
  code = pos 4001;
  message = text "Invalid params: " ++ (e.display ++ text ".");
}

unfoldable pub invalid_response : SerdeError → Error
invalid_response e = record {
  code = pos 5002;
  message = text "Invalid response object: " ++ (e.display ++ text ".");
}

unfoldable pub response_missing : Error
response_missing = record { code = pos 5003; message = text "Response missing" }

module _ {V W : Type 0} (serde : Serde V) (post : Str → Request V → Io W (Response V)) where
  -- What every method makes of the answer: its error first, then its result.
  unfoldable pub read_response {ℓ} :
      {A : Type ℓ} → (V → Outcome SerdeError A) → Response V → Outcome Error A
  unfolding invalid_response response_missing
  read_response from_value res = elim res.error [
    | some e ↦ err e
    | none ↦ elim res.result [
      | some value ↦ map_err invalid_response (from_value value)
      | none ↦ err response_missing
    ]
  ]

  unfoldable pub call_method :
      {A : Type 0} → Str → Str → Outcome SerdeError V → (V → Outcome SerdeError A) → Io W A
  unfolding invalid_params read_response
  call_method url method args from_value = do
    params ← lift (map_err invalid_params args)
    res ← post url (record { method = method; params = params; id = some 1 })
    lift (read_response from_value res)
