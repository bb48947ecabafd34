-- ===== src/Tests/Pages.antt =====
-- A page, a configuration and the answers of a gateway.
use beerus.Prelude.{
  ℕ, suc, ◌≡◌, refl, Bool, true, false, if◌then◌else◌, none, some, List, [], text, str_eq, ok, err,
}
use beerus.Prelude.Effects.{Run}
use beerus.BeerusWeb.{
  PageJson, Page, web_execute, execute_on, ensure_state, stored_state, web_get_state,
}
use beerus.BeerusWeb.Stored.{Executed, web_execute-Executed}
use beerus.Client.{State}
use beerus.Config.{Config, check_data_dir}
use beerus.Config.Server.{
  ServerConfig, Surroundings, Configured, get_config, read_config, from_env, parsed_or, text_or,
  validate_server, get_config-Configured,
}
use beerus.Execute.{execute, felts_of}
use beerus.Feeder.{Report, said}
use beerus.Feeder.Gateway.{GatewayClient}
use beerus.Gen.Types.{FunctionCall}
use beerus.Tests.Executor.{small_call}
use beerus.Tests.Machine.{vm_felt}
use beerus.Tests.Node.{trusted_state, one_felt, zero_felt}

abbrev page_json : PageJson
page_json = record {
  config_from_str = λ s. err [];
  state_to_string = λ s. ok (text "{}");
  request_from_str = λ s. ok small_call;
  result_to_string = λ fs. ok (text "[]");
  report_text = λ e. [];
}

abbrev no_client : Config → Run Report ℕ GatewayClient
no_client config w = (err (said []), w)

abbrev told_state : GatewayClient → Run Report ℕ State
told_state gateway w = (ok trusted_state, suc w)

abbrev no_data : FunctionCall → State → Run Report ℕ (List Bool)
no_data request state w = (ok [], suc w)

abbrev new_page : Page ℕ
new_page = record { beerus = record { gateway = record { url = [] }; state = none }; world = 0 }

abbrev used_page : Page ℕ
used_page = record {
  beerus = record { gateway = record { url = [] }; state = some trusted_state };
  world = 2;
}

page_executed :
    web_execute page_json vm_felt no_client told_state no_data [] new_page
    ≡ (ok (text "[]"), used_page)
unfolding web_execute execute_on ensure_state stored_state web_get_state execute felts_of
page_executed = refl

web_execute-Executed_example :
    Executed page_json vm_felt no_client told_state no_data [] new_page used_page (text "[]")
web_execute-Executed_example =
    web_execute-Executed page_json vm_felt no_client told_state no_data [] new_page used_page
      page_executed

abbrev other_state : State
other_state = record { block_number = 6; block_hash = zero_felt; root = one_felt }

abbrev pub around : Surroundings (Unit {0})
around = record {
  var = λ name. if str_eq name (text "STARKNET_RPC") then some (text "http://node") else none;
  argument = none;
  read_to_string = λ path. err (said []);
  parse_u64 = λ s. err (said []);
  parse_addr = λ s. err (said []);
  parse_toml = λ s. err (said []);
  default_rpc_addr = tt;
  range_report = said [];
  files = record { exists = λ path. true; read_only = λ path. some false };
}

abbrev pub started_config : ServerConfig (Unit {0})
started_config = record {
  client = record { starknet_rpc = text "http://node"; gateway_url = none; data_dir = text "tmp" };
  poll_secs = 30;
  rpc_addr = tt;
}

pub config_read : get_config around ≡ ok started_config
unfolding get_config read_config from_env parsed_or text_or validate_server check_data_dir str_eq
config_read = refl

get_config-Configured_example : Configured around started_config
get_config-Configured_example = get_config-Configured around started_config config_read
