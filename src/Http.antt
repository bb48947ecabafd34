-- ===== src/Http.antt =====
-- The HTTP of the client: `post` and `Http` of src/client.rs, and the `Http` of a web page in
-- src/web/beerus-web/src/lib.rs, with its own `post`. The HTTP libraries are parameters.
use beerus.Prelude.{◌≡◌, ok, [], Option, ◌++◌, Str, text, Outcome, Error, ℤ, pos, map_err, ok_or}
use beerus.Prelude.Effects.{Io, Run, ◌>>=◌, lift, then_do-ok}
use beerus.Gen.Client.{Request, Response}

abbrev pub with_error : {E E' W A : Type 0} → (E → E') → Run E W A → Run E' W A
with_error f m w = (map_err f (m w).0, (m w).1)

-- `jsonrpc::Error::new(code, format!("{what}: {e:?}"))`.
abbrev pub http_error : ℤ → Str → Str → Error
http_error code what e = record { code = code; message = what ++ e }

-- `reqwest` and `ureq`: a POST of a value as JSON, and the JSON of its answer; the errors are their texts.
pub record Exchange (Q A R W : Type 0) : Type 0 where
  pub send_json : Str → Q → Run Str W R
  pub read_json : R → Run Str W A

module _ {Q A R W : Type 0} (reqwest : Exchange Q A R W) where
  unfoldable pub http_post : Str → Q → Io W A
  http_post url request = do
    response ←
        with_error (http_error (pos 32101) (text "request failed: "))
          (reqwest.send_json url request)
    with_error (http_error (pos 32102) (text "invalid response: ")) (reqwest.read_json response)

module _ {V R W : Type 0} (ureq : Exchange (Request V) (Response V) R W) where
  -- The blocking `Http` of the client.
  unfoldable pub blocking_post : Str → Request V → Io W (Response V)
  blocking_post url request = do
    response ← with_error (http_error (pos 33101) []) (ureq.send_json url request)
    with_error (http_error (pos 33102) []) (ureq.read_json response)

-- The function of the page that does a request, with `serde_json` and the errors of both as texts.
pub record PageHttp (V J W : Type 0) : Type 0 where
  pub request_to_string : Request V → Outcome Str Str
  pub call2 : Str → Str → Run Str W J
  pub as_string : J → Option Str
  pub response_from_str : Str → Outcome Str (Response V)

module _ {V J W : Type 0} (page : PageHttp V J W) where
  page_error : Str → Error
  page_error = http_error (pos 32101) (text "request failed: ")

  -- The blocking `Http` of the page.
  unfoldable pub page_post : Str → Request V → Io W (Response V)
  unfolding page_error
  page_post url request = do
    json ← lift (map_err page_error (page.request_to_string request))
    answer ← with_error page_error (page.call2 url json)
    result ← lift (ok_or (page_error (text "¯\\_(ツ)_/¯")) (page.as_string answer))
    lift (map_err page_error (page.response_from_str result))

module _ {Q A R W : Type 0} (reqwest : Exchange Q A R W) where
  -- The page's own `post`, and its asynchronous `Http`.
  unfoldable pub web_post : Str → Q → Io W A
  web_post url request = do
    response ←
        with_error (http_error (pos 32101) (text "request failed: "))
          (reqwest.send_json url request)
    with_error (http_error (pos 32102) (text "invalid response: ")) (reqwest.read_json response)

  unfoldable pub page_async_post : Str → Q → Io W A
  page_async_post url request = do response ← web_post url request; lift (ok response)

  -- The page's asynchronous `Http` posts as that of the client does.
  page_async_post-http_post :
      (url : Str) (request : Q) (w : W)
      → page_async_post url request w ≡ http_post reqwest url request w
  unfolding page_async_post http_post web_post
  page_async_post-http_post url request w = then_do-ok (http_post reqwest url request w)
