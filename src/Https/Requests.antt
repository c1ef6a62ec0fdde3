-- ===== src/Https/Requests.antt =====
-- https/request_handler.c but for its write buffer, which is in Https/Outbox. What it has word for word
-- from http/request_handler.c, up to how a status is sent, is named here after the model of that file:
-- the decoder, the headers, the routes, the path and the rule. What it does otherwise: a CGI program's
-- variables are set in the server's own environment and its output goes through the write buffer, the
-- first request goes to a fixed upstream, and a refused request does not close the connection.
-- While a worker has a client its descriptor is off epoll, where ssl_send_response cannot watch it.
pub mod Watching
pub mod Variables
pub mod Output
pub mod Again
use caligo_engine.Base.{
  ℕ, zero, suc, ◌+◌, ◌*◌, Bool, true, false, ◌&&◌, Option, none, some, List, [], ◌∷◌, ◌++◌, length,
  take, drop, ltb, if◌then◌else◌,
}
use mathlib.Core.Option
use caligo_engine.Base.Text.{codes, c_str, find_char}
use caligo_engine.Http.Base64.{Decoded}
use caligo_engine.Http.Base64
use caligo_engine.Http.Cgi.{full_path, cut_query}
use caligo_engine.Http.Files.{Range, find_range, seek}
use caligo_engine.Http.Routes.{RouteType, static, cgi, proxy, RouteRule}
use caligo_engine.Http.Routes
use caligo_engine.Http.Serve.{Resolved, not_found, bad_gateway, opens, resolve_static}
use caligo_engine.Http.Static.{scan_range, header}
use caligo_engine.Http.Work.{Action, rejected, unauthorized, undefined, serve, status_sent}
use caligo_engine.Http.Work
use caligo_engine.Http.Worker.{bad_gateway_text, server_error_text}
use caligo_engine.Https.Outbox.{
  Answer, asleep, Conn, Sent, failed, done, queued, ssl_send_response, Outcome, gives_up, goes_on,
  send_file,
}
use caligo_engine.Https.Events.{read_request, proxying, Client, Fate, watched, after_work}

abbrev pub base64_decode : List ℕ → Decoded
base64_decode = Base64.base64_decode

abbrev pub find_header_value : List ℕ → List ℕ → Option (List ℕ)
find_header_value = Work.find_header_value

abbrev pub get_content_type : List ℕ → List ℕ
get_content_type = Work.get_content_type

abbrev pub check_authentication : List ℕ → Option Bool
check_authentication = Work.check_authentication

abbrev pub load_config_file : List ℕ → Option (List RouteRule)
load_config_file = Routes.load_config_file

-- handle_work from the path to the rule and its credentials.
abbrev pub choose : List ℕ → List RouteRule → Action
choose = Work.handle_work

-- The calls of ssl_send_response whose result is not looked at. EPOLL_CTL_DEL has taken the descriptor
-- off epoll before the worker got it, so the EPOLL_CTL_MOD in there fails and sets no watch.
unfoldable pub send_text : Answer → List ℕ → Conn → Conn
send_text answer text c = record (ssl_send_response answer text c).0 { watch = c.watch }

unfoldable pub conn_of : Outcome → Conn
conn_of (gives_up c) = c
conn_of (goes_on c) = c

-- The header and the file from the first byte of the range to its end.
unfoldable pub serve_opened : (ℕ → Answer) → List ℕ → List ℕ → List ℕ → Conn → Conn
serve_opened answers request_buffer resolved_path file c =
    let scanned = Option.map scan_range (find_header_value request_buffer (codes "Range")) in
    let r = find_range (length file) scanned in
    conn_of (
      send_file answers
        (header (codes "keep-alive") (get_content_type resolved_path) r (length file))
        (seek r.start_byte file) c)

unfoldable pub open_file :
    (ℕ → Answer) → (List ℕ → Option (List ℕ)) → List ℕ → Resolved → Conn → Conn
open_file answers fopen request_buffer not_found c =
    send_text (answers 0) (status_sent Work.not_found) c
open_file answers fopen request_buffer bad_gateway c = send_text (answers 0) bad_gateway_text c
open_file answers fopen request_buffer (opens p) c = elim (fopen p) [
  | none ↦ send_text (answers 0) (status_sent Work.not_found) c
  | some file ↦ serve_opened answers request_buffer p file c
]

-- The two variables that the server sets in its own environment.
pub record Environment : Type 0 where
  pub query_string : List ℕ
  pub http_authorization : Option (List ℕ)

-- A request without credentials leaves those that are set.
unfoldable pub set_authorization : Option (List ℕ) → Environment → Environment
set_authorization none env = env
set_authorization (some auth_header) env = record env { http_authorization = some auth_header }

unfoldable pub set_environment : List ℕ → Environment → Environment
set_environment request_buffer env =
    set_authorization (find_header_value request_buffer (codes "Authorization"))
      (record env { query_string = (cut_query request_buffer).0 })

-- The NUL that a program's query is ended with, where the next space was, is written to the client's own
-- buffer.
unfoldable pub put_nul : Option ℕ → ℕ → List ℕ → List ℕ
put_nul none query buffer = buffer
put_nul (some len) query buffer = take (query + len) buffer ++ 0 ∷ drop (query + len + 1) buffer

unfoldable pub end_query : List ℕ → List ℕ
end_query buffer = elim (find_char b'?' (c_str buffer)) [
  | none ↦ buffer
  | some query ↦ put_nul (find_char 32 (drop query (c_str buffer))) query buffer
]

abbrev pub piece_size : ℕ
piece_size = 1024

abbrev pub most_waiting : ℕ
most_waiting = 4 * 1024 * 1024

-- How the loop over the program's output ends: with the output, with a call that failed, or with the
-- rest of the output left to the event loop.
pub data Relayed : Type 0 where
  whole broken paused : Conn → Relayed

unfoldable pub after_piece : (Conn → Relayed) → Conn × Sent → Relayed
after_piece rest (c, failed) = broken c
after_piece rest (c, done) = rest c
after_piece rest (c, queued) = rest c

-- A round for each piece of the output, with the answers by their numbers. The piece in hand is not
-- part of what is left to the event loop.
unfoldable pub relay : ℕ → (ℕ → Answer) → ℕ → List ℕ → Conn → Relayed
relay zero answers k output c = whole c
relay (suc rounds) answers k [] c = whole c
relay (suc rounds) answers k (b ∷ output) c =
    let rest = relay rounds answers (k + 1) (drop piece_size (b ∷ output)) in
    if ltb most_waiting (length c.pending)
    then paused (record c { file_stream = some (drop piece_size (b ∷ output)); is_cgi = true })
    else after_piece rest (ssl_send_response (answers k) (take piece_size (b ∷ output)) c)

unfoldable pub conn_relayed : Relayed → Conn
conn_relayed (whole c) = c
conn_relayed (broken c) = c
conn_relayed (paused c) = c

-- The output of the program, or `none` where popen fails. Every round but the last reads a byte.
unfoldable pub run : (ℕ → Answer) → Option (List ℕ) → Conn → Conn
run answers none c = send_text (answers 0) server_error_text c
run answers (some output) c =
    conn_relayed (relay (suc (length output)) answers 0 output (record c { is_cgi = false }))

-- What the calls of one request answer.
pub record Calls : Type 0 where
  pub answers : ℕ → Answer
  pub realpath : List ℕ → Option (List ℕ)
  pub fopen : List ℕ → Option (List ℕ)
  pub is_executable : List ℕ → Bool
  pub popen : List ℕ → Environment → Option (List ℕ)
  pub behind : List ℕ
  pub upstream_socket : Bool
  pub connects : Bool
  pub sends : Bool
  pub registers_upstream : Bool
  pub registers : Bool

unfoldable pub serve_static_file : Calls → List ℕ → List ℕ → List ℕ → Conn → Conn
serve_static_file calls request_buffer path_prefix requested_path c =
    open_file calls.answers calls.fopen request_buffer
      (resolve_static calls.realpath path_prefix requested_path) c

unfoldable pub handle_cgi_request :
    Calls → List ℕ → List ℕ → List ℕ → Environment → Conn → Environment × Conn
handle_cgi_request calls request_buffer path_prefix requested_path env c =
    let name = full_path path_prefix requested_path calls.behind in
    let env' = set_environment request_buffer env in
    if calls.is_executable name
    then (env', run calls.answers (calls.popen name env') c)
    else (env, send_text (calls.answers 0) (status_sent Work.not_found) c)

-- The client with no request read, and whether it has a peer.
unfoldable pub reset : Client → Client
reset c = record c { state = read_request; buffer = [] }

unfoldable pub respond : Answer → List ℕ → Client → Client
respond answer text c = record c { conn = send_text answer text c.conn }

-- By whether socket, connect, send and epoll_ctl succeed; with whether an upstream is linked.
unfoldable pub link : Bool → Bool → Bool → Bool → Answer → Client → Client × Bool
link false connects sends registers answer c = (respond answer bad_gateway_text c, false)
link true false sends registers answer c = (reset (respond answer bad_gateway_text c), false)
link true true false registers answer c = (reset (respond answer bad_gateway_text c), false)
link true true true false answer c = (reset c, false)
link true true true true answer c = (record c { state = proxying }, true)

unfoldable pub handle_proxy_request_async : Calls → Client → Client × Bool
handle_proxy_request_async calls c =
    link calls.upstream_socket calls.connects calls.sends calls.registers_upstream (calls.answers 0)
      c

-- How handle_work ends: with its last epoll_ctl, or before it, where the descriptor stays off epoll.
pub data Left : Type 0 where
  rearmed : Fate → Left
  left : Client → Left

-- A return without the last epoll_ctl.
unfoldable pub returns : Client × Bool → Left
returns (c, linked) = left c

unfoldable pub on_rule :
    RouteType → Calls → List ℕ → List ℕ → Environment → Client → Environment × Left
on_rule static calls target path env c = (
  env,
  rearmed (
      after_work calls.registers
        (record c { conn = serve_static_file calls (c_str c.buffer) target path c.conn })),
)
on_rule cgi calls target path env c =
    let (env', conn) = handle_cgi_request calls (c_str c.buffer) target path env c.conn in
    let buffer =
      if calls.is_executable (full_path target path calls.behind)
      then end_query c.buffer
      else c.buffer in
    (env', rearmed (after_work calls.registers (record c { conn = conn; buffer = buffer })))
on_rule proxy calls target path env c = (env, returns (handle_proxy_request_async calls c))

-- `none` is the read behind the table of the base64 decoder.
unfoldable pub act : Action → Calls → Environment → Client → Option (Environment × Left)
act rejected calls env c =
    some (env, returns (respond (calls.answers 0) (status_sent rejected) c, false))
act unauthorized calls env c =
    some (env, returns (respond (calls.answers 0) (status_sent unauthorized) c, false))
act Work.not_found calls env c = some (
  env,
  rearmed (after_work calls.registers (respond (calls.answers 0) (status_sent Work.not_found) c)),
)
act undefined calls env c = none
act (serve r path) calls env c = some (on_rule r.kind calls r.target path env c)

unfoldable pub handle_work :
    Calls → List RouteRule → Environment → Client → Option (Environment × Left)
handle_work calls rules env c = act (choose (c_str c.buffer) rules) calls env c
