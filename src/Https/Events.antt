-- ===== src/Https/Events.antt =====
-- A client of the HTTPS server between its events: perform_ssl_handshake and rearm_client, the
-- readable branches of the event loop of https/server.c for a client with a TLS connection, and the
-- end of handle_work of https/request_handler.c. The answers of OpenSSL, send and epoll_ctl are
-- arguments.
pub mod Watched
use caligo_engine.Base.{
  ℕ, ◌-◌, Bool, true, false, ◌||◌, Option, none, some, List, [], ◌∷◌, ◌++◌, length, take, ltb, leb,
  is_some, if◌then◌else◌,
}
use caligo_engine.Base.Text.{codes, contains, c_str}
use caligo_engine.Https.Outbox.{Watch, Conn}

-- BUFFER_SIZE
abbrev pub buffer_size : ℕ
buffer_size = 4096

pub data ClientConnState : Type 0 where
  ssl_handshake read_request proxying : ClientConnState

-- A client with its write buffer; the first bytes_read bytes of its buffer.
pub record Client : Type 0 where
  pub conn : Conn
  pub state : ClientConnState
  pub ssl_want_write : Bool
  pub buffer : List ℕ

-- What becomes of a client: it is there, it is queued for a worker, cleanup_client has freed it, or it
-- is used after that. `queued_freed` is queued and freed.
pub data Fate : Type 0 where
  kept queued : Client → Fate
  gone used_freed queued_freed : Fate

-- What OpenSSL answers, where `refused` is any other error.
pub data Handshake : Type 0 where
  finished wants_read wants_write refused : Handshake

-- The client, and whether the return is not negative.
unfoldable pub perform_ssl_handshake : Handshake → Client → Client × Bool
perform_ssl_handshake finished c = (record c { state = read_request; ssl_want_write = false }, true)
perform_ssl_handshake wants_read c = (record c { ssl_want_write = false }, true)
perform_ssl_handshake wants_write c = (record c { ssl_want_write = true }, true)
perform_ssl_handshake refused c = (record c { ssl_want_write = false }, false)

unfoldable pub watched : Watch → Client → Client
watched watch c = record c { conn = record c.conn { watch = watch } }

-- With whether epoll_ctl takes the watch.
unfoldable pub rearm_client : Bool → Client → Fate
rearm_client true c =
    kept (watched (record { for_read = true; for_write = c.ssl_want_write; once = true }) c)
rearm_client false c = gone

-- Both returns that are not negative set the watch again.
unfoldable pub after_handshake : Bool → Client × Bool → Fate
after_handshake registers (c, true) = rearm_client registers c
after_handshake registers (c, false) = gone

unfoldable pub handshake : Bool → Handshake → Client → Fate
handshake registers answer c = after_handshake registers (perform_ssl_handshake answer c)

-- What SSL_read and SSL_get_error answer.
pub data Received : Type 0 where
  received : ℕ → List ℕ → Received
  wants : Bool → Received
  closed : Received

abbrev pub header_end : List ℕ
header_end = codes "\r\n\r\n"

-- The bytes of one call, of which no more than the room are taken.
unfoldable pub take_in : List ℕ → Client → Client
take_in bytes c = record c { ssl_want_write = false; buffer = c.buffer ++ bytes }

-- The client is freed, and the test behind the loop reads it; else a full buffer frees it.
unfoldable pub check_size : Fate → Fate
check_size (kept c) = if leb (buffer_size - 1) (length c.buffer) then gone else kept c
check_size (queued c) = if leb (buffer_size - 1) (length c.buffer) then queued_freed else queued c
check_size gone = used_freed
check_size used_freed = used_freed
check_size queued_freed = used_freed

-- The loop of SSL_read; after the answers that are given it wants to read.
unfoldable pub read_loop : Bool → List Received → Client → Fate
read_loop registers [] c = rearm_client registers (record c { ssl_want_write = false })
read_loop registers (wants write ∷ answers) c =
    if ltb (length c.buffer) (buffer_size - 1)
    then rearm_client registers (record c { ssl_want_write = write })
    else kept c
read_loop registers (closed ∷ answers) c =
    if ltb (length c.buffer) (buffer_size - 1) then gone else kept c
read_loop registers (received b bytes ∷ answers) c =
    let c' = take_in (take (buffer_size - length c.buffer - 1) (b ∷ bytes)) c in
    let rest = read_loop registers answers c' in
    if ltb (length c.buffer) (buffer_size - 1)
    then if contains header_end (c_str c'.buffer) then queued c' else rest
    else kept c

-- What `send` to the upstream answers; what it took is not looked at.
pub data Passed : Type 0 where
  passed full broken : Passed

-- After a send that is broken the client is freed, and rearm_client uses it.
unfoldable pub pass_up : Bool → Passed → Client → Fate
pass_up registers passed c = rearm_client registers (record c { ssl_want_write = false })
pass_up registers full c = rearm_client registers (record c { ssl_want_write = false })
pass_up registers broken c = used_freed

unfoldable pub from_browser : Bool → Received → Passed → Client → Fate
from_browser registers (received b bytes) sent c = pass_up registers sent c
from_browser registers (wants write) sent c =
    rearm_client registers (record c { ssl_want_write = write })
from_browser registers closed sent c = gone

-- The answers to the calls of one event, in each state.
pub record Answers : Type 0 where
  pub registers : Bool
  pub accept : Handshake
  pub reads : List Received
  pub read : Received
  pub sent : Passed

unfoldable pub on_state : ClientConnState → Answers → Client → Fate
on_state ssl_handshake a c = handshake a.registers a.accept c
on_state read_request a c = check_size (read_loop a.registers a.reads c)
on_state proxying a c = from_browser a.registers a.read a.sent c

unfoldable pub on_readable : Answers → Client → Fate
on_readable a c = on_state c.state a c

unfoldable pub is_waiting : Client → Bool
is_waiting c = (ltb 0 (length c.conn.pending) || is_some c.conn.file_stream) || c.ssl_want_write

-- The end of handle_work: what waits is watched for, or the next request is.
unfoldable pub after_work : Bool → Client → Fate
after_work registers c =
    if registers
    then if is_waiting c
      then kept (watched (record { for_read = true; for_write = true; once = true }) c)
      else kept (
          watched (record { for_read = true; for_write = false; once = true })
            (record c { state = read_request; buffer = [] }))
    else gone
