-- ===== src/Exe/Map.antt =====
-- src/exe/map.rs and src/exe/err.rs: field elements between the virtual machine and the RPC, and the
-- errors of an execution.
use beerus.Prelude.{
  ℕ, [], ◌∷◌, ◌++◌, List, Str, text, trim_start_matches, Outcome, map_err, Error, pos,
}
use beerus.Gen.Felt
use beerus.Gen.Felt.{Felt}

-- `Error` of src/exe/err.rs. What the other libraries report is a parameter: its text.
pub data ExeError : Type 0 where
  iam_groot : Error → ExeError
  io base64 serde reqwest starknet_api state entry_point transaction sierra_compilation program :
      Str → ExeError
  custom : Str → ExeError

-- `blockifier`'s errors of a state reader, those that the program makes.
pub data StateError (F : Type 0) : Type 0 where
  state_read_error : Str → StateError F
  undeclared_class_hash : F → StateError F

-- `{error:?}` and `{error}` of an `Error`.
pub record Texts : Type 0 where
  pub debug : ExeError → Str
  pub display : ExeError → Str
  pub debug_rpc : Error → Str

module _ (texts : Texts) where
  unfoldable pub state_error : {F : Type 0} → ExeError → StateError F
  state_error e = state_read_error (texts.debug e)

  unfoldable pub rpc_error : ExeError → Error
  rpc_error (iam_groot e) = e
  rpc_error e = record { code = pos 500; message = texts.display e }

-- `hex::encode`, and `starknet_types_core::felt::Felt` as the virtual machine uses it.
pub record VmFelt (F : Type 0) : Type 0 where
  pub hex_encode : List ℕ → Str
  pub vm_bytes_be : F → List ℕ
  pub from_hex_unchecked : Str → F

unfoldable pub zero_if_empty : Str → Str
zero_if_empty [] = text "0"
zero_if_empty (c ∷ s) = c ∷ s

module _ {F : Type 0} (vm : VmFelt F) where
  unfoldable pub felt_to_vm : Felt → F
  felt_to_vm felt = vm.from_hex_unchecked felt.value

  -- The leading zeros are dropped so that the text matches the pattern of a felt.
  unfoldable pub felt_from_vm : F → Outcome ExeError Felt
  unfolding zero_if_empty trim_start_matches Felt.try_new
  felt_from_vm felt =
      let hex = trim_start_matches b'0' (vm.hex_encode (vm.vm_bytes_be felt)) in
      map_err iam_groot (Felt.try_new (text "0x" ++ zero_if_empty hex))
