-- ===== src/BeerusWeb.antt =====
-- src/web/beerus-web/src/lib.rs: the client in a web page. An object keeps the state that it was last
-- told, and executes calls on it. The page's values and JSON are parameters.
pub mod Stored
use beerus.Prelude.{
  Option, none, some, List, [], ◌++◌, Str, text, Outcome, ok, err, panic, ℤ, map_err,
}
use beerus.Prelude.Effects.{Io, Run, ◌>>=◌, lift}
use beerus.Gen.Felt.{Felt}
use beerus.Gen.Types.{FunctionCall}
use beerus.Client.{State}
use beerus.Config.{Config}
use beerus.Exe.Map.{VmFelt}
use beerus.Execute.{execute}
use beerus.Feeder.{Report}
use beerus.Feeder.Gateway.{GatewayClient}
use beerus.Http.{with_error}
use beerus.Rpc.{as_i64}

-- `dto::State` and `dto::Config`.
pub record StateDto : Type 0 where
  pub len : ℤ
  pub hash : Str
  pub root : Str

pub record ConfigDto : Type 0 where
  pub gateway_url : Str
  pub starknet_url : Str

-- `serde_json` at the types of the page, with its errors as texts, and `{e:?}` of a report.
pub record PageJson : Type 0 where
  pub config_from_str : Str → Outcome Str ConfigDto
  pub state_to_string : StateDto → Outcome Str Str
  pub request_from_str : Str → Outcome Str FunctionCall
  pub result_to_string : List Felt → Outcome Str Str
  pub report_text : Report → Str

-- An object of the page, and the world beside it.
pub record Beerus : Type 0 where
  pub gateway : GatewayClient
  pub state : Option State

pub record Page (W : Type 0) : Type 0 where
  pub beerus : Beerus
  pub world : W

-- An operation of the client that the object holds, and the write of its field.
abbrev pub of_client : {E W A : Type 0} → (GatewayClient → Run E W A) → Run E (Page W) A
of_client m p = let r = m p.beerus.gateway p.world in (r.0, record p { world = r.1 })

abbrev pub store_state : {W : Type 0} → State → Run Str (Page W) (Unit {0})
store_state state p =
    (ok tt, record p { beerus = record { gateway = p.beerus.gateway; state = some state } })

-- The state as a page is shown it.
unfoldable pub dto_of : State → StateDto
unfolding as_i64
dto_of state = record {
  len = as_i64 state.block_number;
  hash = state.block_hash.value;
  root = state.root.value;
}

module _ {F W : Type 0} (json : PageJson) (vm : VmFelt F)
    (client_new : Config → Run Report W GatewayClient)
    (client_get_state : GatewayClient → Run Report W State)
    (call : FunctionCall → State → Run Report W (List F)) where
  abbrev pub explained : {A : Type 0} → Str → Outcome Report A → Outcome Str A
  explained what = map_err (λ e. what ++ json.report_text e)

  -- `Beerus::new`.
  unfoldable pub web_new : Str → Run Str W Beerus
  web_new config_json = do
    config ← lift (
        map_err (λ e. text "beerus: invalid config JSON: " ++ e) (json.config_from_str config_json))
    gateway ←
        with_error (λ e. text "failed to create client: " ++ json.report_text e)
          (client_new (record {
            starknet_rpc = config.starknet_url;
            gateway_url = some config.gateway_url;
            data_dir = [];
          }))
    lift (ok (record { gateway = gateway; state = none }))

  unfoldable pub web_get_state : Run Str (Page W) Str
  unfolding dto_of
  web_get_state = do
    state ←
        with_error (λ e. text "failed to get state: " ++ json.report_text e)
          (of_client client_get_state)
    ret ← lift (
        map_err (λ e. text "failed to serialize state: " ++ e)
          (json.state_to_string (dto_of state)))
    _ ← store_state state
    lift (ok ret)

  -- The state is asked for once, if there is none.
  unfoldable pub ensure_state : Option State → Run Str (Page W) (Unit {0})
  ensure_state none = do _ ← web_get_state; lift (ok tt)
  ensure_state (some state) = lift (ok tt)

  -- `self.state.clone().unwrap()`
  unfoldable pub stored_state : Run Str (Page W) State
  stored_state p = elim p.beerus.state [ none ↦ (panic, p) | some state ↦ (ok state, p) ]

  -- What follows: the request is parsed and executed on the state.
  unfoldable pub execute_on : Str → State → Run Str (Page W) Str
  execute_on request state = do
    function_call ←
        lift (map_err (λ e. text "failed to parse request: " ++ e) (json.request_from_str request))
    result ←
        with_error (λ e. text "failed to execute call: " ++ json.report_text e)
          (of_client (λ gateway. execute vm call function_call state))
    lift (
        map_err (λ e. text "failed to serialize call result: " ++ e) (json.result_to_string result))

  unfoldable pub web_execute : Str → Run Str (Page W) Str
  unfolding ensure_state stored_state
  web_execute request p =
      (do _ ← ensure_state p.beerus.state; state ← stored_state; execute_on request state) p
