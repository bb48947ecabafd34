-- ===== src/Config.antt =====
-- src/config.rs: the gateway of the chain that a node serves, and the checks of a configuration.
-- HTTP, JSON values and the file system are parameters.
pub mod Server
use beerus.Prelude.{
  Bool, not, Option, none, some, ◌++◌, if◌then◌else◌, Str, text, str_eq, Outcome, ok, err, ◌>>=◌,
  ok_or,
}
use beerus.Prelude.Effects.{Run}
use beerus.Feeder.{Report, said, JsonView}

-- `Config`, of which the data directory is for the server alone.
pub record Config : Type 0 where
  pub starknet_rpc : Str
  pub gateway_url : Option Str
  pub data_dir : Str

abbrev pub mainnet_starknet_chainid : Str
mainnet_starknet_chainid = text "0x534e5f4d41494e"

abbrev pub sepolia_starknet_chainid : Str
sepolia_starknet_chainid = text "0x534e5f5345504f4c4941"

unfoldable pub gateway_of : Str → Outcome Report Str
gateway_of chain_id =
    if str_eq chain_id mainnet_starknet_chainid
    then ok (text "https://alpha-mainnet.starknet.io")
    else if str_eq chain_id sepolia_starknet_chainid
    then ok (text "https://alpha-sepolia.starknet.io")
    else err (said (text "Unexpected chain id: " ++ chain_id))

module _ {V W : Type 0} (json : JsonView V) (object_text : V → Option (Outcome Report Str))
    (post_method : Str → Str → Run Report W V) where
  open json use {member, as_str}

  -- An error that is a text, then one that is an object, then the result.
  unfoldable pub read_result : Str → V → Outcome Report Str
  read_result method response = elim (as_str (member response (text "error"))) [
    | some error ↦ err (said (text "rpc error: " ++ error))
    | none ↦ elim (object_text (member response (text "error"))) [
      | some shown ↦ (shown >>= λ error. err (said (text "rpc error: " ++ error)))
      | none ↦
          ok_or (said (text "Result missing for method=" ++ method))
            (as_str (member response (text "result")))
    ]
  ]

  unfoldable pub get_gateway_url : Str → Run Report W Str
  unfolding read_result gateway_of
  get_gateway_url starknet_rpc w =
      let method = text "starknet_chainId" in
      let response = post_method starknet_rpc method w in
      ((response.0 >>= λ r. read_result method r) >>= gateway_of, response.1)

-- What the file system says of a path: whether it is there, and whether it is read-only, if its
-- metadata can be read.
pub record Files : Type 0 where
  pub exists : Str → Bool
  pub read_only : Str → Option Bool

unfoldable pub check_data_dir : Files → Str → Outcome Report (Unit {0})
check_data_dir files path =
    if not (files.exists path)
    then err (said (text "path does not exist"))
    else elim (files.read_only path) [
      | none ↦ err (said (text "path metadata is missing"))
      | some flag ↦ if flag then err (said (text "path is readonly")) else ok tt
    ]
