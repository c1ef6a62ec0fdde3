-- ===== src/Http/Worker.antt =====
-- handle_work of http/request_handler.c from the choice of the rule to its end: what the client is
-- sent, the first request that goes on to the upstream, and how the client is watched again. The
-- choice is in Http/Work. An upstream that handle_proxy_request_async has linked is the client's peer;
-- the client has none before.
pub mod Ends
use caligo_engine.Base.{
  ℕ, Bool, true, false, ◌&&◌, Option, none, some, List, [], ◌∷◌, ◌++◌, ltb, if◌then◌else◌,
}
use caligo_engine.Base.Text.{codes}
use caligo_engine.Http.Cgi.{System, Cgi, server_error, runs, handle_cgi_request}
use caligo_engine.Http.Cgi
use caligo_engine.Http.Files.{Answer}
use caligo_engine.Http.Routes.{RouteType, static, cgi, proxy, RouteRule}
use caligo_engine.Http.Serve.{
  ClientState, Effect, responds, send_502, close, watches, Answers, Proxied, reset,
  handle_proxy_request_async,
}
use caligo_engine.Http.Static.{Response, no_file, no_root, sent, serve_static_file}
use caligo_engine.Http.Work.{
  crlf, Action, rejected, not_found, unauthorized, undefined, serve, status_sent,
}
use caligo_engine.Http.Work

abbrev pub bad_gateway_text : List ℕ
bad_gateway_text =
    codes "HTTP/1.1 502 Bad Gateway" ++ (crlf ++ (codes "Content-Length: 0" ++ (crlf ++ crlf)))

abbrev pub server_error_text : List ℕ
server_error_text = codes "HTTP/1.1 500 Internal Server Error" ++ (crlf ++ crlf)

unfoldable pub static_bytes : Response → List ℕ
static_bytes no_file = status_sent not_found
static_bytes no_root = bad_gateway_text
static_bytes (sent bytes) = bytes

unfoldable pub cgi_bytes : Cgi → List ℕ
cgi_bytes Cgi.not_found = status_sent not_found
cgi_bytes server_error = server_error_text
cgi_bytes (runs name variables body out) = out

-- What send answers for the first request: bytes taken, EAGAIN or EINPROGRESS, another error.
pub data Sent : Type 0 where
  taken : ℕ → Sent
  again failed : Sent

-- The answers to the calls of one request. `ready` is whether the upstream can be written within a
-- second and has no error; `adds_peer` whether one of EPOLL_CTL_ADD and EPOLL_CTL_MOD is taken.
pub record Calls : Type 0 where
  pub realpath : List ℕ → Option (List ℕ)
  pub fopen : List ℕ → Option (List ℕ)
  pub to_header : Answer
  pub answers : ℕ → Answer
  pub system : System
  pub behind : List ℕ
  pub connection : Answers
  pub first : Sent
  pub ready : Bool
  pub second : Sent
  pub adds_client : Bool
  pub adds_peer : Bool

unfoldable pub is_sent : Sent → Bool
is_sent (taken n) = true
is_sent again = false
is_sent failed = false

-- Whether the first request has been sent in the end; how much of it is not looked at.
unfoldable pub is_forwarded : Sent → Calls → Bool
is_forwarded (taken n) calls = true
is_forwarded again calls = calls.ready && is_sent calls.second
is_forwarded failed calls = false

-- With whether handle_work goes on; an upstream that cannot be sent to is closed and freed.
unfoldable pub forward_request : Calls → Proxied → Proxied × Bool
forward_request calls (client, (none, effects)) = ((client, (none, effects)), true)
forward_request calls (client, (some upstream, effects)) =
    if ltb 0 client.bytes_read
    then if is_forwarded calls.first calls then ((client, (some upstream, effects)), true) else (
      (
        record (reset client) { peer = none },
        (none, effects ++ (send_502 client.fd ∷ close upstream.fd ∷ [])),
      ),
      false,
    )
    else ((client, (some upstream, effects)), true)

unfoldable pub watch_peer : Bool → Option ClientState → List Effect
watch_peer adds_peer none = []
watch_peer true (some upstream) = watches upstream.fd ∷ []
watch_peer false (some upstream) = close upstream.fd ∷ []

unfoldable pub watch_ends : Bool → Bool → Proxied → Proxied
watch_ends false adds_peer (client, (upstream, effects)) =
    (client, (upstream, effects ++ (close client.fd ∷ [])))
watch_ends true adds_peer (client, (upstream, effects)) =
    (client, (upstream, effects ++ (watches client.fd ∷ watch_peer adds_peer upstream)))

unfoldable pub after_forward : Calls → Proxied × Bool → Proxied
after_forward calls (p, true) = watch_ends calls.adds_client calls.adds_peer p
after_forward calls (p, false) = p

-- The branch of a PROXY rule.
unfoldable pub proxy_request : Calls → ClientState → Proxied
proxy_request calls client =
    after_forward calls (forward_request calls (handle_proxy_request_async calls.connection client))

-- The end of handle_work: the client is made ready for its next request and watched.
unfoldable pub next_request : Bool → ClientState → List Effect → Proxied
next_request adds_client client effects = (
  reset client,
  (none, effects ++ ((if adds_client then watches client.fd else close client.fd) ∷ [])),
)

-- A request under a rule.
unfoldable pub on_rule : RouteType → Calls → List ℕ → List ℕ → List ℕ → ClientState → Proxied
on_rule static calls request_buffer target path client = next_request calls.adds_client client (
    responds client.fd (
      static_bytes (
        serve_static_file calls.to_header calls.answers calls.realpath calls.fopen request_buffer
          target path))
    ∷ [])
on_rule cgi calls request_buffer target path client = next_request calls.adds_client client (
    responds client.fd
      (cgi_bytes (handle_cgi_request calls.system request_buffer target path calls.behind))
    ∷ [])
on_rule proxy calls request_buffer target path client = proxy_request calls client

-- `none` is the read behind the table of the base64 decoder.
unfoldable pub act : Action → Calls → List ℕ → ClientState → Option Proxied
act rejected calls request_buffer client =
    some (client, (none, responds client.fd (status_sent rejected) ∷ close client.fd ∷ []))
act unauthorized calls request_buffer client =
    some (client, (none, responds client.fd (status_sent unauthorized) ∷ close client.fd ∷ []))
act not_found calls request_buffer client =
    some (next_request calls.adds_client client (responds client.fd (status_sent not_found) ∷ []))
act undefined calls request_buffer client = none
act (serve r path) calls request_buffer client =
    some (on_rule r.kind calls request_buffer r.target path client)

unfoldable pub handle_work : Calls → List RouteRule → List ℕ → ClientState → Option Proxied
handle_work calls rules request_buffer client =
    act (Work.handle_work request_buffer rules) calls request_buffer client
