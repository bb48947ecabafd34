-- ===== src/Tests/Start.antt =====
-- The start of a client and its updates, against a gateway of plain values.
use beerus.Prelude.{
  ℕ, suc, ◌≡◌, ◌↔◌, false, Option, none, some, List, [], ◌∷◌, ◌++◌, Str, text, str_eq, Outcome, ok,
  err, panic, if◌then◌else◌,
}
use beerus.Prelude.Effects.{Io, Run}
use beerus.Gen.Felt.{is_match}
use beerus.Gen.Keys.{try_storage_key}
use beerus.Gen.Keys.Laws.{try_storage_key_of_zero}
use beerus.Gen.Api.{Method, Ret}
use beerus.Gen.Client.{Serde, SerdeError, Request, Response}
use beerus.Client.{State}
use beerus.Feeder.{JsonView, Report, said, read_state}
use beerus.Feeder.Told.{Told, read_state_iff}
use beerus.Feeder.Gateway.{GatewayClient}
use beerus.Start.{rpc_spec_version}
use beerus.Poll.{poll_all, poll_start, poll_all-last_told}
use beerus.Tests.Node.{one_felt, zero_felt, trusted_state}

-- JSON values: texts, numbers, pairs, and an object that maps names to values.
pub data Value : Type 0 where
  null : Value
  string : Str → Value
  number : ℕ → Value
  pair : Value → Value → Value
  object : (Str → Value) → Value

abbrev pub value_view : JsonView Value
value_view = record {
  member = λ v name. elim v [
    | object f ↦ f name
    | null ↦ null
    | string s ↦ null
    | number n ↦ null
    | pair a b ↦ null
  ];
  as_str = λ v. elim v [
    | string s ↦ some s
    | object f ↦ none
    | null ↦ none
    | number n ↦ none
    | pair a b ↦ none
  ];
  as_number = λ v. elim v [
    | number n ↦ some n
    | object f ↦ none
    | null ↦ none
    | string s ↦ none
    | pair a b ↦ none
  ];
  as_array = λ v. elim v [
    | pair a b ↦ some (a ∷ b ∷ [])
    | object f ↦ none
    | null ↦ none
    | string s ↦ none
    | number n ↦ none
  ];
}

abbrev pub latest : Value
unfolding str_eq
latest = object (λ name.
    if str_eq name (text "status")
    then string (text "ACCEPTED_ON_L2")
    else if str_eq name (text "block_number")
    then number 5
    else if str_eq name (text "block_hash")
    then string (text "0x1")
    else if str_eq name (text "state_root")
    then string (text "0x0")
    else if str_eq name (text "signature")
    then pair (string (text "0x2")) (string (text "0x3"))
    else null)

abbrev pub latest_state : State
latest_state = record { block_number = 5; block_hash = one_felt; root = zero_felt }

read_state_iff_example :
    (read_state value_view latest ≡ ok latest_state) ↔ Told value_view latest latest_state
read_state_iff_example = read_state_iff value_view latest latest_state

abbrev told : List (Outcome Report State)
told = ok latest_state ∷ err (said []) ∷ ok trusted_state ∷ panic ∷ ok latest_state ∷ []

poll_all-last_told_example : poll_all told (poll_start latest_state) ≡ poll_start trusted_state
poll_all-last_told_example = poll_all-last_told told latest_state

try_storage_key_of_zero_example :
    (try_storage_key (text "0x0" ++ (b'z' ∷ text "z"))
      ≡ ok (record { value = text "0x0" ++ (b'z' ∷ text "z") }))
    × (is_match (text "0x0" ++ (b'z' ∷ text "z")) ≡ false)
try_storage_key_of_zero_example = try_storage_key_of_zero b'z' (text "z")

-- A node of the right version, and a configuration without a gateway.
abbrev version_error : SerdeError
version_error = record { display = []; debug = [] }

abbrev version_read : (m : Method) → Str → Outcome SerdeError (Ret m)
version_read Method.spec_version s = ok s
version_read _ _ = err version_error

abbrev pub version_serde : Serde Str
version_serde = record {
  empty_array = [];
  args_to_value = λ m args. err version_error;
  args_by_pos = λ m v. err version_error;
  args_by_name = λ m v. err version_error;
  ret_to_value = λ m ret. err version_error;
  ret_from_value = version_read;
}

abbrev pub version_post : Str → Request Str → Io ℕ (Response Str)
version_post url req w = (ok (record { error = none; result = some rpc_spec_version }), suc w)

abbrev pub chain_post : Str → Str → Run Report ℕ Value
unfolding str_eq
chain_post url method w = (
  ok (
      object
        (λ name. if str_eq name (text "result") then string (text "0x534e5f4d41494e") else null)),
  suc w,
)

abbrev pub no_object : Value → Option (Outcome Report Str)
no_object v = none

abbrev pub mainnet : GatewayClient
mainnet = record { url = text "https://alpha-mainnet.starknet.io" }
