-- ===== src/BeerusWeb/Stored.antt =====
-- src/web/beerus-web/src/lib.rs: which state a call of a page is executed on.
use beerus.Prelude.{
  ◌≡◌, ◌⊎◌, inl, inr, refl, ap, sym, ◌∙◌, Option, none, some, List, ◌++◌, arith, Str, text, Outcome,
  ok, err, panic, map_err, map_err-inv,
}
use beerus.Prelude.Effects.{Run, then_do-inv, ok-pair}
use beerus.Gen.Felt.{Felt}
use beerus.Gen.Types.{FunctionCall}
use beerus.Client.{State}
use beerus.Config.{Config}
use beerus.Exe.Map.{VmFelt}
use beerus.Execute.{execute}
use beerus.Feeder.{Report}
use beerus.Feeder.Gateway.{GatewayClient}
use beerus.BeerusWeb.{
  PageJson, Page, dto_of, web_get_state, ensure_state, stored_state, execute_on, web_execute,
}

-- A run that was given another error.
with_error-inv :
    {E E' W A : Type 0} (f : E → E') (m : Outcome E A × W) {a : A} {w : W}
    → ◌≡◌ {A = Outcome E' A × W} (map_err f m.0, m.1) (ok a, w)
    → m ≡ (ok a, w)
with_error-inv f (ok a, w) h = let e = ok-pair h in cc (e.0, e.1)
with_error-inv f (err e, w) h = absurd (ground arith)
with_error-inv f (panic, w) h = absurd (ground arith)

module _ {F W : Type 0} (json : PageJson) (vm : VmFelt F)
    (client_new : Config → Run Report W GatewayClient)
    (client_get_state : GatewayClient → Run Report W State)
    (call : FunctionCall → State → Run Report W (List F)) where
  -- The gateway told the state, and the object keeps it.
  pub record Told (p p' : Page W) (ret : Str) : Type 0 where
    pub state : State
    pub told : client_get_state p.beerus.gateway p.world ≡ (ok state, p'.world)
    pub shown : json.state_to_string (dto_of state) ≡ ok ret
    pub stored : p'.beerus.state ≡ some state

  web_get_state-Told :
      (p p' : Page W) {ret : Str}
      → web_get_state json vm client_new client_get_state call p ≡ (ok ret, p')
      → Told p p' ret
  unfolding web_get_state
  web_get_state-Told p p' {ret} h =
      let asked = client_get_state p.beerus.gateway p.world in
      let (state, e, h₁) =
        then_do-inv
          (
            map_err (λ e. text "failed to get state: " ++ json.report_text e) asked.0,
            record p { world = asked.1 },
          )
          _ h in
      let got : asked.0 ≡ ok state = map_err-inv _ asked.0 (ap (λ o. o.0) e) in
      let page : Page W = record p { world = asked.1 } in
      let dto = dto_of state in
      let (ret', e', h₂) =
        then_do-inv
          (map_err (λ e. text "failed to serialize state: " ++ e) (json.state_to_string dto), page)
          _ h₁ in
      let shown : json.state_to_string dto ≡ ok ret' =
        map_err-inv _ (json.state_to_string dto) (ap (λ o. o.0) e') in
      let (same, there) = ok-pair h₂ in
      record {
        state = state;
        told = ap (λ o. (o, asked.1)) got ∙ ap (λ (x : Page W). (ok state, x.world)) there;
        shown = shown ∙ ap ok same;
        stored = ap (λ (x : Page W). x.beerus.state) (sym there);
      }

  -- The state that a call is executed on: the stored one, untouched, or, if there was none, the one that
  -- the gateway told at once.
  pub record Ensured (p p' : Page W) : Type 0 where
    pub state : State
    pub stored : p'.beerus.state ≡ some state
    pub origin :
        ((p.beerus.state ≡ some state) × (p' ≡ p))
        ⊎ ((p.beerus.state ≡ none)
            × (client_get_state p.beerus.gateway p.world ≡ (ok state, p'.world)))

  ensure_state-Ensured :
      (held : Option State) (p p' : Page W) {u : Unit {0}}
      → p.beerus.state ≡ held
      → ensure_state json vm client_new client_get_state call held p ≡ (ok u, p')
      → Ensured p p'
  unfolding ensure_state
  ensure_state-Ensured (some state) p p' same h =
      let (_, there) = ok-pair h in
      record {
        state = state;
        stored = ap (λ (x : Page W). x.beerus.state) (sym there) ∙ same;
        origin = inl (same, sym there);
      }
  ensure_state-Ensured none p p' same h =
      let (ret, e, h₁) =
        then_do-inv (web_get_state json vm client_new client_get_state call p) _ h in
      let (_, there) = ok-pair h₁ in
      let told = web_get_state-Told p p' (e ∙ ap (λ x. (ok ret, x)) there) in
      record { state = told.state; stored = told.stored; origin = inr (same, told.told) }

  -- A call of a page.
  pub record Executed (request : Str) (p p' : Page W) (out : Str) : Type 0 where
    pub before : Page W
    pub ensured : Ensured p before
    pub function_call : FunctionCall
    pub result : List Felt
    pub parsed : json.request_from_str request ≡ ok function_call
    pub executed : execute vm call function_call ensured.state before.world ≡ (ok result, p'.world)
    pub shown : json.result_to_string result ≡ ok out
    pub kept : p'.beerus ≡ before.beerus

  execute_on-inv :
      (request : Str) (state : State) (p p' : Page W) {out : Str}
      → execute_on json vm client_new client_get_state call request state p ≡ (ok out, p')
      → (function_call : FunctionCall) × (result : List Felt) × (json.request_from_str request
          ≡ ok function_call)
        × (execute vm call function_call state p.world ≡ (ok result, p'.world))
        × (json.result_to_string result ≡ ok out)
        × (p'.beerus ≡ p.beerus)
  unfolding execute_on
  execute_on-inv request state p p' {out} h =
      let parsing = json.request_from_str request in
      let (function_call, e, h₁) =
        then_do-inv (map_err (λ e. text "failed to parse request: " ++ e) parsing, p) _ h in
      let run = execute vm call function_call state p.world in
      let page : Page W = record p { world = run.1 } in
      let (result, e', h₂) =
        then_do-inv
          (map_err (λ e. text "failed to execute call: " ++ json.report_text e) run.0, page) _ h₁ in
      let showing = json.result_to_string result in
      let got : run.0 ≡ ok result = map_err-inv _ run.0 (ap (λ o. o.0) e') in
      (
        function_call,
        result,
        map_err-inv _ parsing (ap (λ o. o.0) e),
        ap (λ o. (o, run.1)) got ∙ ap (λ (o : Outcome Str Str × Page W). (ok result, o.1.world)) h₂,
        map_err-inv _ showing (ap (λ o. o.0) h₂),
        ap (λ (o : Outcome Str Str × Page W). o.1.beerus) (sym h₂),
      )

  stored_state-some :
      (o : Option State) (p : Page W) (state : State)
      → p.beerus.state ≡ o
      → o ≡ some state
      → stored_state json vm client_new client_get_state call p ≡ (ok state, p)
  unfolding stored_state
  stored_state-some none p state e e' = absurd (cc)
  stored_state-some (some s) p state e e' = ground arith

  stored_state-inv :
      (p p' : Page W) (state state' : State)
      → p.beerus.state ≡ some state
      → stored_state json vm client_new client_get_state call p ≡ (ok state', p')
      → (state' ≡ state) × (p' ≡ p)
  stored_state-inv p p' state state' e h =
      let (a, b) = ok-pair (sym (stored_state-some p.beerus.state p state refl e) ∙ h) in
      (sym a, sym b)

  -- If a page's `execute` returns, the call that it parsed was executed on the state that the object
  -- held, or, if it held none, on the one that the gateway told at once, which the object then holds;
  -- what is returned is the JSON of the result, and the object is otherwise as it was.
  pub web_execute-Executed :
      (request : Str) (p p' : Page W) {out : Str}
      → web_execute json vm client_new client_get_state call request p ≡ (ok out, p')
      → Executed request p p' out
  unfolding web_execute
  web_execute-Executed request p p' {out} h =
      let (u, e, h₁) =
        then_do-inv (ensure_state json vm client_new client_get_state call p.beerus.state p) _ h in
      let before = (ensure_state json vm client_new client_get_state call p.beerus.state p).1 in
      let ensured = ensure_state-Ensured p.beerus.state p before refl e in
      let found = stored_state json vm client_new client_get_state call before in
      let (state, e', h₂) = then_do-inv found _ h₁ in
      let (same, there) = stored_state-inv before found.1 ensured.state state ensured.stored e' in
      let (function_call, result, parsed, executed, shown, kept) =
        execute_on-inv request state found.1 p' h₂ in
      record {
        before = before;
        ensured = ensured;
        function_call = function_call;
        result = result;
        parsed = parsed;
        executed = rw⁻¹ (same, there) executed;
        shown = shown;
        kept = kept ∙ ap (λ (x : Page W). x.beerus) there;
      }
