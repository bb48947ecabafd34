-- ===== src/Feeder/Gateway.antt =====
-- src/feeder.rs: the gateway's client. HTTP is a parameter.
use beerus.Prelude.{
  Bool, false, [], ◌∷◌, ◌++◌, ◌==◌, if◌then◌else◌, Str, text, Outcome, ok, err, map_err,
}
use beerus.Prelude.Effects.{Run, ◌>>=◌, lift}
use beerus.Client.{State}
use beerus.Feeder.{Report, said, JsonView, read_signature, read_state}

-- `reqwest`: a GET, and the body of its answer as a text or as JSON.
pub record Web (V R W : Type 0) : Type 0 where
  pub send : Str → Run Str W R
  pub body_text : R → Run Str W Str
  pub body_json : R → Run Str W V

pub record GatewayClient : Type 0 where
  pub url : Str

unfoldable pub ends_with_slash : Str → Bool
ends_with_slash [] = false
ends_with_slash (c ∷ []) = c == b'/'
ends_with_slash (c ∷ d ∷ s) = ends_with_slash (d ∷ s)

unfoldable pub gateway_new : Str → Outcome Report GatewayClient
unfolding ends_with_slash
gateway_new url =
    if ends_with_slash url
    then err (said (text "Gateway URL must not end with '/'."))
    else ok (record { url = url })

-- `context` on a failed exchange.
abbrev pub in_context : {W A : Type 0} → Str → Run Str W A → Run Report W A
in_context message m w = (map_err (λ _. said message) (m w).0, (m w).1)

module _ {V R W : Type 0} (json : JsonView V) (web : Web V R W) where
  unfoldable pub get_json : Str → Run Report W V
  get_json url = do
    response ← in_context (text "failed to send gateway request") (web.send url)
    in_context (text "failed to receive gateway response") (web.body_json response)

  unfoldable pub get_pubkey : GatewayClient → Str → Run Report W Str
  get_pubkey gateway block_hash = do
    response ←
        in_context (text "failed to send gateway request") (
          web.send
            (gateway.url ++ (text "/feeder_gateway/get_public_key?blockHash=" ++ block_hash)))
    in_context (text "failed to receive gateway response") (web.body_text response)

  unfoldable pub get_signature : GatewayClient → Str → Run Report W (Str × Str)
  get_signature gateway block_hash = do
    answer ←
        get_json (gateway.url ++ (text "/feeder_gateway/get_signature?blockHash=" ++ block_hash))
    lift (read_signature json block_hash answer)

  unfoldable pub gateway_get_state : GatewayClient → Run Report W State
  gateway_get_state gateway = do
    answer ← get_json (gateway.url ++ text "/feeder_gateway/get_block?blockNumber=latest")
    lift (read_state json answer)
