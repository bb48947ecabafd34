-- ===== src/Start.antt =====
-- `Client::new` of src/client.rs: the node's version and the gateway, before anything is trusted.
use beerus.Prelude.{
  ◌≡◌, ◌⊎◌, inl, inr, ap, sym, ◌∙◌, false, not, Option, none, some, ◌++◌, if◌then◌else◌, Bool-cases,
  Option-cases, Str, text, str_eq, str_eq→≡, Outcome, ok, err, map_err, map_err-inv, >>=-inv, Error,
}
use beerus.Prelude.Effects.{Io, Run, ◌>>=◌, lift, then_do-inv, ok-pair}
use beerus.Gen.Client.{Serde, Request, Response}
use beerus.Gen.Client.Chain.{spec_version}
use beerus.Feeder.{Report, said, rpc_failed, JsonView}
use beerus.Feeder.Gateway.{GatewayClient, gateway_new, ends_with_slash}
use beerus.Config.{Config, get_gateway_url, gateway_of}

abbrev pub rpc_spec_version : Str
rpc_spec_version = text "0.7.1"

module _ {V J W : Type 0} (serde : Serde V) (post : Str → Request V → Io W (Response V))
    (json : JsonView J) (object_text : J → Option (Outcome Report Str))
    (post_method : Str → Str → Run Report W J) where
  check_version : Str → Outcome Report (Unit {0})
  check_version version =
      if not (str_eq version rpc_spec_version)
      then err (
          said (
            text "RPC spec version mismatch: expected "
            ++ (rpc_spec_version ++ (text " but got " ++ version))))
      else ok tt

  choose_gateway : Config → Run Report W Str
  choose_gateway config w = elim config.gateway_url [
    | some url ↦ (ok url, w)
    | none ↦ get_gateway_url json object_text post_method config.starknet_rpc w
  ]

  -- The gateway of a new client, whose node is `config.starknet_rpc`.
  unfoldable pub client_new : Config → Run Report W GatewayClient
  unfolding check_version choose_gateway
  client_new config = do
    version ← (λ (w : W).
        let r = spec_version serde post config.starknet_rpc w in (map_err rpc_failed r.0, r.1))
    _ ← lift (check_version version)
    url ← choose_gateway config
    lift (gateway_new url)

  -- The node has the version that the client is for, and the gateway is the configured one, or one of
  -- the two of a known chain.
  pub record Ready (config : Config) (gateway : GatewayClient) (w : W) : Type 0 where
    pub after_version : W
    pub has_version :
        spec_version serde post config.starknet_rpc w ≡ (ok rpc_spec_version, after_version)
    pub no_slash : ends_with_slash gateway.url ≡ false
    pub chosen :
        (config.gateway_url ≡ some gateway.url)
        ⊎ ((config.gateway_url ≡ none)
            × ((chain_id : Str) × (gateway_of chain_id ≡ ok gateway.url)))

  check_version-inv :
      (version : Str) {u : Unit {0}} → check_version version ≡ ok u → version ≡ rpc_spec_version
  unfolding check_version
  check_version-inv version h = elim (Bool-cases (str_eq version rpc_spec_version)) [
    | inl same ↦ str_eq→≡ version rpc_spec_version same
    | inr other ↦ absurd (cc (rw other at h))
  ]

  gateway_new-inv :
      (url : Str) {g : GatewayClient}
      → gateway_new url ≡ ok g
      → (g.url ≡ url) × (ends_with_slash g.url ≡ false)
  unfolding gateway_new
  gateway_new-inv url {g} h = elim (Bool-cases (ends_with_slash url)) [
    | inl slash ↦ absurd (cc (rw slash at h))
    | inr none_there ↦
        let e : record { url = url } ≡ g = cc (rw none_there at h) in
        (ap (λ (c : GatewayClient). c.url) (sym e), rw (← e) none_there)
  ]

  get_gateway_url-inv :
      (rpc : Str) (w w' : W) {url : Str}
      → get_gateway_url json object_text post_method rpc w ≡ (ok url, w')
      → (chain_id : Str) × (gateway_of chain_id ≡ ok url)
  unfolding get_gateway_url
  get_gateway_url-inv rpc w w' h =
      let (chain_id, _, e) = >>=-inv _ gateway_of (ap (λ (o : Outcome Report Str × W). o.0) h) in
      (chain_id, e)

  choose_gateway-inv :
      (config : Config) (w w' : W) {url : Str}
      → choose_gateway config w ≡ (ok url, w')
      → (config.gateway_url ≡ some url)
        ⊎ ((config.gateway_url ≡ none) × ((chain_id : Str) × (gateway_of chain_id ≡ ok url)))
  unfolding choose_gateway
  choose_gateway-inv config w w' h = elim (Option-cases config.gateway_url) [
    | inl absent ↦ inr (absent, get_gateway_url-inv config.starknet_rpc w w' (rw absent at h))
    | inr present ↦ inl (present.1 ∙ ap some (ok-pair (rw present.1 at h)).0)
  ]

  -- A client is made only if the node says that it has the version 0.7.1, and its gateway does not end
  -- with a slash and is the configured one, or, if none is configured, that of a known chain.
  pub client_new-Ready :
      (config : Config) (w w' : W) {gateway : GatewayClient}
      → client_new config w ≡ (ok gateway, w')
      → Ready config gateway w
  unfolding client_new
  client_new-Ready config w w' {gateway} h =
      let asked = spec_version serde post config.starknet_rpc w in
      let (version, e₁, h₁) = then_do-inv (map_err rpc_failed asked.0, asked.1) _ h in
      let got : asked.0 ≡ ok version =
        map_err-inv rpc_failed asked.0 (ap (λ (o : Outcome Report Str × W). o.0) e₁) in
      let (u, e₂, h₂) = then_do-inv (check_version version, asked.1) _ h₁ in
      let right : version ≡ rpc_spec_version =
        check_version-inv version (ap (λ (o : Outcome Report (Unit {0}) × W). o.0) e₂) in
      let (url, e₃, h₃) = then_do-inv (choose_gateway config asked.1) _ h₂ in
      let (same, no_slash) =
        gateway_new-inv url (ap (λ (o : Outcome Report GatewayClient × W). o.0) h₃) in
      record {
        after_version = asked.1;
        has_version = ap (λ (o : Outcome Error Str). (o, asked.1)) (got ∙ ap ok right);
        no_slash = no_slash;
        chosen = rw same (choose_gateway-inv config asked.1 _ e₃);
      }
