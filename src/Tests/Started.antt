-- ===== src/Tests/Started.antt =====
-- The start of the server program, with a gateway and a socket of plain values.
use beerus.Prelude.{ℕ, suc, ◌≡◌, refl, text, str_eq, ok}
use beerus.Gen.Felt
use beerus.Gen.Client.{call_method, read_response}
use beerus.Gen.Client.Chain.{spec_version}
use beerus.Feeder.{said, read_state, text_of, felt_or_report}
use beerus.Feeder.Gateway.{Web, gateway_get_state, get_json, gateway_new, ends_with_slash}
use beerus.Config.{gateway_of, get_gateway_url, read_result, check_data_dir}
use beerus.Config.Server.{get_config, read_config, from_env, parsed_or, text_or, validate_server}
use beerus.Start.{client_new}
use beerus.Poll.{poll_start}
use beerus.Rpc.Sockets.{Sockets, serve}
use beerus.Main.{Running, Started, main, main-Started}
use beerus.Tests.Pages.{around}
use beerus.Tests.Start.{
  Value, value_view, latest, latest_state, version_serde, version_post, chain_post, no_object,
  mainnet,
}

abbrev gateway_web : Web Value (Unit {0}) ℕ
gateway_web = record {
  send = λ url w. (ok tt, suc w);
  body_text = λ r w. (ok (text "0x1"), suc w);
  body_json = λ r w. (ok latest, suc w);
}

abbrev sockets : Sockets (Unit {0}) (Unit {0}) (Unit {0}) ℕ
sockets = record {
  bind = λ address w. (ok tt, suc w);
  build_client = λ connect request w. (ok tt, suc w);
  local_port = λ listener w. (ok 3030, w);
}

abbrev running : Running (Unit {0}) (Unit {0})
running = record {
  gateway = mainnet;
  period = 30;
  polling = poll_start latest_state;
  server = record {
    port = 3030;
    listener = tt;
    route = text "/rpc";
    context = record { url = text "http://node"; client_url = text "http://node"; http = tt };
  };
}

server_runs :
    main around version_serde version_post value_view no_object chain_post gateway_web sockets
      (λ e. said (text "error"))
      0
    ≡ (ok running, 6)
unfolding main get_config read_config from_env parsed_or text_or validate_server check_data_dir
    client_new get_gateway_url read_result gateway_of gateway_new ends_with_slash spec_version
    call_method read_response gateway_get_state get_json read_state text_of felt_or_report
    Felt.try_new serve str_eq
server_runs = refl

main-Started_example :
    Started around version_serde version_post value_view no_object chain_post gateway_web sockets
      (λ e. said (text "error"))
      0
      running
main-Started_example =
    main-Started around version_serde version_post value_view no_object chain_post gateway_web
      sockets (λ e. said (text "error")) 0 6 server_runs
