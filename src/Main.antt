-- ===== src/Main.antt =====
-- `main` of src/bin/beerus.rs up to the point where the server runs: the configuration, the client,
-- the first state and the socket, and what is started of them.
use beerus.Prelude.{
  ℕ, ◌≡◌, ◌∙◌, refl, ap, subst, Option, Str, text, ◌++◌, Outcome, ok, map_err, map_err-inv,
}
use beerus.Prelude.Effects.{Io, Run, ◌>>=◌, lift, then_do-inv, ok-pair}
use beerus.Client.{State}
use beerus.Config.Server.{ServerConfig, Surroundings, Configured, get_config, get_config-Configured}
use beerus.Exe.Map.{ExeError}
use beerus.Feeder.{JsonView, Report, read_state}
use beerus.Feeder.Gateway.{GatewayClient, Web, get_json, gateway_get_state}
use beerus.Gen.Client.{Serde, Request, Response}
use beerus.Poll.{Polling, poll_start}
use beerus.Rpc.Sockets.{Sockets, Server, Served, serve, serve-Served}
use beerus.Start.{Ready, client_new, client_new-Ready}

-- What runs from then on: the update loop with its period in seconds, over the gateway, and the
-- server; both hold the shared state.
pub record Running (L H : Type 0) : Type 0 where
  pub gateway : GatewayClient
  pub period : ℕ
  pub polling : Polling
  pub server : Server L H

module _ {A V J X W L H : Type 0} (around : Surroundings A) (serde : Serde V)
    (post : Str → Request V → Io W (Response V)) (json : JsonView J)
    (object_text : J → Option (Outcome Report Str)) (post_method : Str → Str → Run Report W J)
    (web : Web J X W) (sockets : Sockets A L H W) (report : ExeError → Report) where
  -- `report` is `eyre::Report` of an `Error`.
  unfoldable pub main : Run Report W (Running L H)
  main = do
    config ← lift (get_config around)
    gateway ← client_new serde post json object_text post_method config.client
    state ← gateway_get_state json web gateway
    server ← (λ (w : W).
        let r = serve sockets config.client.starknet_rpc config.rpc_addr w in
        (map_err report r.0, r.1))
    lift (
        ok (record {
          gateway = gateway;
          period = config.poll_secs;
          polling = poll_start state;
          server = server;
        }))

  -- What is known when the server runs.
  pub record Started (w : W) (running : Running L H) : Type 0 where
    pub config : ServerConfig A
    pub state : State
    pub answer : J
    pub after_client : W
    pub after_answer : W
    pub configured : Configured around config
    pub same_period : running.period ≡ config.poll_secs
    pub ready : Ready serde post json object_text post_method config.client running.gateway w
    pub made :
        client_new serde post json object_text post_method config.client w
        ≡ (ok running.gateway, after_client)
    pub told :
        get_json json web
          (running.gateway.url ++ text "/feeder_gateway/get_block?blockNumber=latest")
          after_client
        ≡ (ok answer, after_answer)
    pub first_state : read_state json answer ≡ ok state
    pub shared : running.polling ≡ poll_start state
    pub served :
        Served sockets config.client.starknet_rpc config.rpc_addr after_answer running.server

  state-inv :
      (gateway : GatewayClient) (w w' : W) {state : State}
      → gateway_get_state json web gateway w ≡ (ok state, w')
      → (answer : J) × (get_json json web
            (gateway.url ++ text "/feeder_gateway/get_block?blockNumber=latest")
            w
          ≡ (ok answer, w'))
        × (read_state json answer ≡ ok state)
  unfolding gateway_get_state
  state-inv gateway w w' h =
      let url = gateway.url ++ text "/feeder_gateway/get_block?blockNumber=latest" in
      let (answer, e, h₁) = then_do-inv (get_json json web url w) _ h in
      let there = ap (λ (o : Outcome Report State × W). o.1) h₁ in
      (
        answer,
        e ∙ ap (λ (w₁ : W). (ok answer, w₁)) there,
        ap (λ (o : Outcome Report State × W). o.0) h₁,
      )

  -- The server runs only with a configuration that was read from the file of its argument or from the
  -- environment, with a period of 1 to 3600 seconds and a data directory that is there and can be
  -- written, a node that says that it has the version 0.7.1, and a gateway that is the configured one
  -- or of a known chain. Its first state is what the gateway answered when the client was made, its
  -- port is that of a listener that was then bound at the configured address, and its node is the
  -- configured one.
  pub main-Started :
      (w w' : W) {running : Running L H} → main w ≡ (ok running, w') → Started w running
  unfolding main
  main-Started w w' {running} h =
      let (config, e₁, h₁) = then_do-inv (get_config around, w) _ h in
      let made = client_new serde post json object_text post_method config.client w in
      let (gateway, e₂, h₂) = then_do-inv made _ h₁ in
      let asked = gateway_get_state json web gateway made.1 in
      let (state, e₃, h₃) = then_do-inv asked _ h₂ in
      let (answer, heard, read) = state-inv gateway made.1 asked.1 e₃ in
      let r = serve sockets config.client.starknet_rpc config.rpc_addr asked.1 in
      let (server, e₄, h₄) = then_do-inv (map_err report r.0, r.1) _ h₃ in
      let made_of = ap (λ (o : Outcome Report (Server L H) × W). o.0) e₄ in
      let served : r ≡ (ok server, r.1) =
        ap (λ (o : Outcome ExeError (Server L H)). (o, r.1)) (map_err-inv report r.0 made_of) in
      let read_config : get_config around ≡ ok config =
        ap (λ (o : Outcome Report (ServerConfig A) × W). o.0) e₁ in
      subst (Started w) (ok-pair h₄).0 (record {
        config = config;
        state = state;
        answer = answer;
        after_client = made.1;
        after_answer = asked.1;
        configured = get_config-Configured around config read_config;
        same_period = refl;
        ready = client_new-Ready serde post json object_text post_method config.client w made.1 e₂;
        made = e₂;
        told = heard;
        first_state = read;
        shared = refl;
        served = serve-Served sockets config.client.starknet_rpc config.rpc_addr asked.1 r.1 served;
      })
