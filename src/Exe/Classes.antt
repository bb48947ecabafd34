-- ===== src/Exe/Classes.antt =====
-- The contract classes of src/exe/map.rs: from what the node sends to what the virtual machine runs.
-- `serde_json`, the compiler of Sierra, `blockifier`, base64 and gzip are parameters.
use beerus.Prelude.{ℕ, Option, none, some, List, Str, text, Outcome, ok, map_err, ◌>>=◌}
use beerus.Gen.Classes.{GetClassResult, DeprecatedContractClass}
use beerus.Exe.Map.{ExeError, program}

-- `ContractClass` of `blockifier`.
pub data VmClass (K₀ K₁ : Type 0) : Type 0 where
  v0 : K₀ → VmClass K₀ K₁
  v1 : K₁ → VmClass K₀ K₁

-- JSON values `J`, the classes of Cairo (`C`) and their compiled form (`M`); `set_member` is `json[..] =`.
pub record ClassTools (J C M K₀ K₁ : Type 0) : Type 0 where
  pub class_to_value : GetClassResult → Outcome ExeError J
  pub deprecated_to_value : DeprecatedContractClass → Outcome ExeError J
  pub value_from_str : Str → Outcome ExeError J
  pub value_to_string : J → Outcome ExeError Str
  pub set_member : J → Str → J → J
  pub cairo_class : J → Outcome ExeError C
  pub casm_class : C → Outcome ExeError M
  pub v1_of_casm : M → Outcome Str K₁
  pub v0_from_json : Str → Outcome Str K₀
  pub base64_decode : Str → Outcome ExeError (List ℕ)
  pub gzip_read : List ℕ → Outcome ExeError Str

module _ {J C M K₀ K₁ : Type 0} (tools : ClassTools J C M K₀ K₁) where
  unfoldable pub decode_base64 : Str → Outcome ExeError (List ℕ)
  decode_base64 input = tools.base64_decode input

  unfoldable pub decompress : List ℕ → Outcome ExeError Str
  decompress input = tools.gzip_read input

  unfoldable pub decode_program : Str → Outcome ExeError Str
  unfolding decode_base64 decompress
  decode_program input = do packed ← decode_base64 input; decompress packed

  unfoldable pub build_contract_class : DeprecatedContractClass → Outcome ExeError K₀
  unfolding decode_program
  build_contract_class class = do
    decoded ← decode_program class.program.value
    value ← tools.deprecated_to_value class
    program_value ← tools.value_from_str decoded
    json ← tools.value_to_string (tools.set_member value (text "program") program_value)
    map_err program (tools.v0_from_json json)

  -- The ABI of a class is a text that holds JSON.
  unfoldable pub with_abi : Option Str → J → Outcome ExeError J
  with_abi none json = ok json
  with_abi (some abi) json = do
    value ← tools.value_from_str abi
    ok (tools.set_member json (text "abi") value)

  unfoldable pub class_try_from : GetClassResult → Outcome ExeError (VmClass K₀ K₁)
  unfolding with_abi build_contract_class
  class_try_from (GetClassResult.contract_class class) = do
    json ← tools.class_to_value (GetClassResult.contract_class class)
    full ← with_abi class.abi json
    contract_class ← tools.cairo_class full
    casm ← tools.casm_class contract_class
    compiled ← map_err program (tools.v1_of_casm casm)
    ok (v1 compiled)
  class_try_from (GetClassResult.deprecated_contract_class class) = do
    compiled ← build_contract_class class
    ok (v0 compiled)
