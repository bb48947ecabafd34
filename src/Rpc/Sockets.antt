-- ===== src/Rpc/Sockets.antt =====
-- `serve` and `serve_on` of src/rpc.rs: the server on its socket. The listener of tokio, the client of
-- reqwest and the server of axum are parameters.
use beerus.Prelude.{ℕ, ◌≡◌, refl, subst, Str, text, ok}
use beerus.Prelude.Effects.{Run, ◌>>=◌, lift, then_do-inv, ok-pair}
use beerus.Exe.Map.{ExeError}

-- `TcpListener::bind` at an address, `ClientBuilder` with the timeouts for a connection and for a
-- request, in seconds, and `local_addr` of a listener.
pub record Sockets (A L H W : Type 0) : Type 0 where
  pub bind : A → Run ExeError W L
  pub build_client : ℕ → ℕ → Run ExeError W H
  pub local_port : L → Run ExeError W ℕ

abbrev pub default_timeout : ℕ
default_timeout = 30

-- `Context` without the shared state: the node's URL, and the client of that URL over HTTP.
pub record ServerContext (H : Type 0) : Type 0 where
  pub url : Str
  pub client_url : Str
  pub http : H

-- `Server`: its port, and of its task the listener, the route and the context of the handler.
pub record Server (L H : Type 0) : Type 0 where
  pub port : ℕ
  pub listener : L
  pub route : Str
  pub context : ServerContext H

module _ {A L H W : Type 0} (sockets : Sockets A L H W) where
  unfoldable pub serve_on : Str → L → Run ExeError W (Server L H)
  serve_on url listener = do
    client ← sockets.build_client default_timeout default_timeout
    let ctx : ServerContext H = record { url = url; client_url = url; http = client }
    port ← sockets.local_port listener
    lift (ok (record { port = port; listener = listener; route = text "/rpc"; context = ctx }))

  unfoldable pub serve : Str → A → Run ExeError W (Server L H)
  unfolding serve_on
  serve url address = do listener ← sockets.bind address; serve_on url listener

  -- What a server was made of.
  pub record Served (url : Str) (address : A) (w : W) (server : Server L H) : Type 0 where
    pub after_bind : W
    pub after_client : W
    pub after_port : W
    pub bound : sockets.bind address w ≡ (ok server.listener, after_bind)
    pub built :
        sockets.build_client default_timeout default_timeout after_bind
        ≡ (ok server.context.http, after_client)
    pub at_port : sockets.local_port server.listener after_client ≡ (ok server.port, after_port)
    pub asks : (server.context.url ≡ url) × (server.context.client_url ≡ url)

  -- A server listens at its address and at the port of its listener, and its node is the given URL.
  pub serve-Served :
      (url : Str) (address : A) (w w' : W) {server : Server L H}
      → serve url address w ≡ (ok server, w')
      → Served url address w server
  unfolding serve serve_on
  serve-Served url address w w' {server} h =
      let (listener, e₁, h₁) = then_do-inv (sockets.bind address w) _ h in
      let w₁ = (sockets.bind address w).1 in
      let (client, e₂, h₂) =
        then_do-inv (sockets.build_client default_timeout default_timeout w₁) _ h₁ in
      let w₂ = (sockets.build_client default_timeout default_timeout w₁).1 in
      let (port, e₃, h₃) = then_do-inv (sockets.local_port listener w₂) _ h₂ in
      subst (Served url address w) (ok-pair h₃).0 (record {
        after_bind = w₁;
        after_client = w₂;
        after_port = (sockets.local_port listener w₂).1;
        bound = e₁;
        built = e₂;
        at_port = e₃;
        asks = (refl, refl);
      })
