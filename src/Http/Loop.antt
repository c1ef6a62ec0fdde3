-- ===== src/Http/Loop.antt =====
-- http/server.c, the event loop of main: accepting, reading a request until it is queued for a worker,
-- forwarding between a client and its peer, and cleanup_client, on a heap of client states. What the
-- calls of the system answer is an argument.
pub mod Pairs
pub mod Reading
pub mod Events
pub mod Forwarding
pub mod Accepting
pub mod Runs
use caligo_engine.Base.{
  ℕ, ◌-◌, ◌+◌, Bool, true, false, Option, none, some, List, [], ◌∷◌, ◌++◌, map, length, take, ltb,
  leb, if◌then◌else◌,
}
use caligo_engine.Base.Store.{Store, put}
use caligo_engine.Base.Text.{codes, contains, c_str}
use caligo_engine.Http.Serve.{ClientConnState, read_request, proxying}

-- BUFFER_SIZE
abbrev pub buffer_size : ℕ
buffer_size = 4096

-- `none` is the descriptor -1; the first bytes_read bytes of the buffer; the address of the peer.
pub record ClientState : Type 0 where
  pub fd : Option ℕ
  pub buffer : List ℕ
  pub state : ClientConnState
  pub peer : Option ℕ

unfoldable pub create_client_state : ℕ → ClientState
create_client_state fd = record { fd = some fd; buffer = []; state = read_request; peer = none }

-- The calls that leave the program. A descriptor of a peer may be -1.
pub data Call : Type 0 where
  unregisters closes : ℕ → Call
  shuts : ℕ → Call
  sends : Option ℕ → List ℕ → Call

-- The heap, the clients queued for the workers, and the calls so far.
pub record World : Type 0 where
  pub heap : Store ClientState
  pub queued : List ℕ
  pub calls : List Call

unfoldable pub shutdown : Option ℕ → List Call
shutdown none = []
shutdown (some fd) = shuts fd ∷ []

-- From the test of client->peer to free.
unfoldable pub detach : ℕ → Option ℕ → World → Option World
detach at none w = some (record w { heap = put at none w.heap })
detach at (some peer) w = elim (w.heap peer) [
  | none ↦ none
  | some other ↦ some (record w {
    heap = put at none (put peer (some (record other { peer = none })) w.heap);
    calls = w.calls ++ shutdown other.fd;
  })
]

-- The descriptor is taken off epoll and closed, unless that is done.
unfoldable pub close_client : ℕ → ClientState → Option ℕ → World → Option World
close_client at client none w = some w
close_client at client (some fd) w = detach at client.peer (record w {
  heap = put at (some (record client { fd = none })) w.heap;
  calls = w.calls ++ unregisters fd ∷ closes fd ∷ [];
})

-- `none` is an access to memory that is not allocated.
unfoldable pub cleanup_client : ℕ → World → Option World
cleanup_client at w = elim (w.heap at) [
  | none ↦ none
  | some client ↦ close_client at client client.fd w
]

-- What recv answers: bytes, of which no more than the room are taken and where none is the end of the
-- stream; EAGAIN; another error.
pub data Received : Type 0 where
  received : List ℕ → Received
  again failed : Received

-- How a round of reading a request ends: with the next round, with a break, with a break after
-- cleanup_client, or with a break after queue_push.
pub data Round : Type 0 where
  goes_on stops cleans queues : ClientState → Round

abbrev pub header_end : List ℕ
header_end = codes "\r\n\r\n"

unfoldable pub take_in : List ℕ → ClientState → Round
take_in [] client = cleans client
take_in (b ∷ bytes) client =
    let client' : ClientState = record client { buffer = client.buffer ++ b ∷ bytes } in
    if contains header_end (c_str client'.buffer) then queues client' else goes_on client'

unfoldable pub receive : Received → ClientState → Round
receive (received bytes) client =
    take_in (take (buffer_size - length client.buffer - 1) bytes) client
receive again client = stops client
receive failed client = cleans client

unfoldable pub next_round : (ClientState → Round) → Round → Round
next_round rest (goes_on client) = rest client
next_round rest (stops client) = stops client
next_round rest (cleans client) = cleans client
next_round rest (queues client) = queues client

-- The loop of recv; after the answers that are given, EAGAIN.
unfoldable pub read_loop : List Received → ClientState → Round
read_loop [] client = stops client
read_loop (answer ∷ answers) client =
    if ltb (length client.buffer) (buffer_size - 1)
    then next_round (read_loop answers) (receive answer client)
    else stops client

-- The test behind the loop.
unfoldable pub close_too_large : ℕ → World → Option World
close_too_large at w = elim (w.heap at) [
  | none ↦ none
  | some client ↦
      if leb (buffer_size - 1) (length client.buffer) then cleanup_client at w else some w
]

unfoldable pub unregister : Option ℕ → List Call
unregister none = []
unregister (some fd) = unregisters fd ∷ []

unfoldable pub and_then : Option World → (World → Option World) → Option World
and_then none f = none
and_then (some w) f = f w

unfoldable pub after_round : ℕ → World → Round → Option World
after_round at w (goes_on client) = some (record w { heap = put at (some client) w.heap })
after_round at w (stops client) =
    close_too_large at (record w { heap = put at (some client) w.heap })
after_round at w (cleans client) =
    and_then (cleanup_client at (record w { heap = put at (some client) w.heap }))
      (close_too_large at)
after_round at w (queues client) = close_too_large at (record {
  heap = put at (some client) w.heap;
  queued = w.queued ++ at ∷ [];
  calls = w.calls ++ unregister client.fd;
})

-- What send answers.
pub data Sent : Type 0 where
  took : ℕ → Sent
  full broken : Sent

unfoldable pub ends_with : Option World → Option (Bool × World)
ends_with none = none
ends_with (some w) = some (false, w)

-- One piece to the peer: whether the loop goes on, and the world.
unfoldable pub forward : ℕ → ClientState → Sent → List ℕ → World → Option (Bool × World)
forward at peer (took n) bytes w =
    some (true, record w { calls = w.calls ++ sends peer.fd (take n bytes) ∷ [] })
forward at peer full bytes w = some (false, w)
forward at peer broken bytes w = ends_with (cleanup_client at w)

unfoldable pub to_peer : ℕ → Option ℕ → Sent → List ℕ → World → Option (Bool × World)
to_peer at none sent bytes w = some (true, w)
to_peer at (some p) sent bytes w = elim (w.heap p) [
  | none ↦ none
  | some peer ↦ forward at peer sent bytes w
]

unfoldable pub proxy_round : ℕ → Received → Sent → World → Option (Bool × World)
proxy_round at again sent w = some (false, w)
proxy_round at failed sent w = ends_with (cleanup_client at w)
proxy_round at (received []) sent w = ends_with (cleanup_client at w)
proxy_round at (received (b ∷ bytes)) sent w = elim (w.heap at) [
  | none ↦ none
  | some client ↦ to_peer at client.peer sent (take buffer_size (b ∷ bytes)) w
]

unfoldable pub next_piece : (World → Option World) → Option (Bool × World) → Option World
next_piece rest none = none
next_piece rest (some (true, w)) = rest w
next_piece rest (some (false, w)) = some w

-- The loop that forwards, with the answers of recv and send; after them, EAGAIN.
unfoldable pub proxy_loop : ℕ → List (Received × Sent) → World → Option World
proxy_loop at [] w = some w
proxy_loop at ((got, sent) ∷ answers) w =
    next_piece (proxy_loop at answers) (proxy_round at got sent w)

unfoldable pub on_state :
    ClientConnState → ℕ → ClientState → List (Received × Sent) → World → Option World
on_state read_request at client answers w =
    after_round at w (read_loop (map (λ a. a.0) answers) client)
on_state proxying at client answers w = proxy_loop at answers w

-- A readable descriptor of a client, with the answers to either loop.
unfoldable pub on_readable : ℕ → List (Received × Sent) → World → Option World
on_readable at answers w = elim (w.heap at) [
  | none ↦ none
  | some client ↦ on_state client.state at client answers w
]

-- An accepted descriptor, the address that calloc returns, and whether epoll_ctl takes it.
pub record Accepted : Type 0 where
  pub fd : ℕ
  pub address : ℕ
  pub registers : Bool

unfoldable pub accept_client : Accepted → World → World
accept_client a w =
    if a.registers
    then record w { heap = put a.address (some (create_client_state a.fd)) w.heap }
    else record w { heap = put a.address none w.heap; calls = w.calls ++ closes a.fd ∷ [] }

unfoldable pub accept_loop : List Accepted → World → World
accept_loop [] w = w
accept_loop (a ∷ more) w = accept_loop more (accept_client a w)
