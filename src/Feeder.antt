-- ===== src/Feeder.antt =====
-- src/feeder.rs: what the gateway's answers are read as. JSON values are a parameter.
pub mod Told
pub mod Gateway
use Prim.Native.String.{String}
use beerus.Prelude.{
  ℕ, zero, suc, Bool, true, false, not, Option, none, some, List, [], ◌∷◌, ◌==◌, if◌then◌else◌,
  length, Str, text, str_eq, Outcome, ok, err, panic, ◌>>=◌, map_err, ok_or, Error,
}
use beerus.Gen.Felt
use beerus.Gen.Felt.{Felt}
use beerus.Client.{State}

-- `eyre::Report`: a message, or an error of the RPC.
pub data Report : Type 0 where
  said : Str → Report
  rpc_failed : Error → Report

-- `serde_json::Value`: a member of an object (`Null` if there is none), an element of an array, and
-- what a value is as a text, a number and an array.
pub record JsonView (V : Type 0) : Type 0 where
  pub member : V → Str → V
  pub as_str : V → Option Str
  pub as_number : V → Option ℕ
  pub as_array : V → Option (List V)

unfoldable pub felt_or_report : Str → Outcome Report Felt
felt_or_report s = map_err rpc_failed (Felt.try_new s)

-- An index that the test of the length keeps in range.
unfoldable pub element : {A : Type 0} → List A → ℕ → Outcome Report A
element [] n = panic
element (x ∷ xs) zero = ok x
element (x ∷ xs) (suc n) = element xs n

module _ {V : Type 0} (json : JsonView V) where
  open json use {member, as_str, as_number, as_array}

  -- `as_str().ok_or_eyre(message)` of a value.
  unfoldable pub text_of : Str → V → Outcome Report Str
  text_of message v = ok_or (said message) (as_str v)

  -- The two texts of a signature, of an array that has two elements.
  unfoldable pub read_pair : List V → Outcome Report (Str × Str)
  unfolding element text_of
  read_pair signature = do
    first ← element signature 0
    r ← text_of (text "gateway: invalid signature") first
    second ← element signature 1
    s ← text_of (text "gateway: invalid signature") second
    ok (r, s)

  unfoldable pub read_signature : Str → V → Outcome Report (Str × Str)
  unfolding text_of
  read_signature block_hash answer = do
    hash ← text_of (text "gateway: invalid block hash") (member answer (text "block_hash"))
    if not (str_eq hash block_hash) then err (said (text "gateway: invalid block hash")) else (do
      signature ←
          ok_or (said (text "gateway: invalid signature"))
            (as_array (member answer (text "signature")))
      if not (length signature == 2)
          then err (said (text "gateway: invalid signature"))
          else read_pair signature)

  is_text : Option Str → Str → Bool
  is_text none s = false
  is_text (some t) s = str_eq t s

  unfoldable pub read_state : V → Outcome Report State
  unfolding is_text text_of
  read_state answer =
      if not (is_text (as_str (member answer (text "status"))) (text "ACCEPTED_ON_L2"))
      then err (said (text "gateway: invalid block status"))
      else (do
        number ←
            ok_or (said (text "gateway: fetching block_number failed"))
              (as_number (member answer (text "block_number")))
        hash ←
            text_of (text "gateway: fetching block_hash failed") (member answer (text "block_hash"))
        root ←
            text_of (text "gateway: fetching state_root failed") (member answer (text "state_root"))
        block_hash ← felt_or_report hash
        state_root ← felt_or_report root
        ok (record { block_number = number; block_hash = block_hash; root = state_root }))
