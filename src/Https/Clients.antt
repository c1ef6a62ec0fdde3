-- ===== src/Https/Clients.antt =====
-- https/server.c: the clients on the heap, from accept to cleanup_client, and the task queue, which is
-- word for word that of http/server.c and is named here after its model. What the calls answer is an
-- argument.
pub mod Freed
use caligo_engine.Base.{ℕ, Bool, true, false, Option, none, some, List, [], ◌∷◌, ◌++◌}
use caligo_engine.Base.Store.{Store, put}
use caligo_engine.Http.TaskQueue.{Task, TaskQueue, Popped}
use caligo_engine.Http.TaskQueue
use caligo_engine.Https.Outbox.{Watch, asleep}
use caligo_engine.Https.Events.{
  ssl_handshake, read_request, Client, Handshake, perform_ssl_handshake, watched,
}

abbrev pub queue_init : (ℕ → Option Task) → TaskQueue
queue_init = TaskQueue.queue_init

abbrev pub queue_push : ℕ → ℕ → TaskQueue → TaskQueue
queue_push = TaskQueue.queue_push

abbrev pub queue_pop : TaskQueue → Popped
queue_pop = TaskQueue.queue_pop

-- A client with its descriptor and the address of its peer.
pub record ClientState : Type 0 where
  pub fd : ℕ
  pub client : Client
  pub peer : Option ℕ

unfoldable pub create_client_state : ℕ → ClientState
create_client_state fd = record {
  fd = fd;
  client = record {
    conn = record {
      ssl = false;
      wire = [];
      pending = [];
      file_stream = none;
      is_cgi = false;
      watch = asleep;
    };
    state = read_request;
    ssl_want_write = false;
    buffer = [];
  };
  peer = none;
}

-- The calls that give a client's resources back, and the one that has it watched.
pub data Call : Type 0 where
  registers unregisters frees_ssl closes : ℕ → Call

pub record World : Type 0 where
  pub heap : Store ClientState
  pub calls : List Call

-- SSL_shutdown and SSL_free
unfoldable pub free_ssl : Bool → ℕ → List Call
free_ssl true fd = frees_ssl fd ∷ []
free_ssl false fd = []

-- From the test of client->peer to the end: both ends are freed. `none` is an access to memory that is
-- not allocated.
unfoldable pub free_both : ℕ → Option ℕ → World → Option World
free_both at none w = some (record w { heap = put at none w.heap })
free_both at (some peer) w = elim (w.heap peer) [
  | none ↦ none
  | some other ↦ some (record {
    heap = put at none (put peer none w.heap);
    calls = w.calls ++ unregisters other.fd ∷ closes other.fd ∷ [];
  })
]

unfoldable pub close_client : ClientState → List Call
close_client c = unregisters c.fd ∷ (free_ssl c.client.conn.ssl c.fd ++ closes c.fd ∷ [])

unfoldable pub cleanup_client : ℕ → World → Option World
cleanup_client at w = elim (w.heap at) [
  | none ↦ none
  | some c ↦ free_both at c.peer (record w { calls = w.calls ++ close_client c })
]

-- A client after its first handshake, by whether that failed and whether epoll_ctl adds it.
unfoldable pub after_accept : Bool → ℕ → ClientState → Client × Bool → World → Option World
after_accept adds at c (client, false) w =
    cleanup_client at (record w { heap = put at (some (record c { client = client })) w.heap })
after_accept false at c (client, true) w =
    cleanup_client at (record w { heap = put at (some (record c { client = client })) w.heap })
after_accept true at c (client, true) w =
    let watch : Watch = record {
      for_read = true;
      for_write = client.ssl_want_write;
      once = true;
    } in
    some (record {
      heap = put at (some (record c { client = watched watch client })) w.heap;
      calls = w.calls ++ registers c.fd ∷ [];
    })

-- The state of an accepted descriptor before its handshake.
unfoldable pub new_client : ℕ → ClientState
new_client fd =
    let c = create_client_state fd in
    record c {
      client = record c.client {
        conn = record c.client.conn { ssl = true };
        state = ssl_handshake;
      };
    }

-- An accepted descriptor, with the address that calloc returns.
unfoldable pub accept_client : Handshake → Bool → ℕ → ℕ → World → Option World
accept_client answer adds at fd w =
    let c = new_client fd in after_accept adds at c (perform_ssl_handshake answer c.client) w

unfoldable pub next_accept : (World → Option World) → Option World → Option World
next_accept rest none = none
next_accept rest (some w) = rest w

-- The loop of accept, up to the first answer that is an error: what accept, SSL_accept, epoll_ctl and
-- calloc give for each connection.
unfoldable pub accept_loop : List (Handshake × Bool × ℕ × ℕ) → World → Option World
accept_loop [] w = some w
accept_loop ((answer, adds, at, fd) ∷ accepted) w =
    next_accept (accept_loop accepted) (accept_client answer adds at fd w)
