-- ===== src/Radio/Main.antt =====
-- radio_server.c, main: the listeners from accept to a sender's list, beside the broadcaster and the
-- sender threads. What the system calls answer is an argument. A descriptor of `watching` is one that
-- epoll_ctl has added, one of `closed` has been closed; the listening socket is in neither. The lock of
-- a list keeps a round of its thread apart from main.
pub mod Count
pub mod Kept
use caligo_engine.Base.{
  ℕ, Bool, true, false, Option, none, some, List, [], ◌∷◌, set, get_or, replicate, ◌==◌,
  if◌then◌else◌,
}
use caligo_engine.Radio.{
  RingBuffer, broadcast, RadioClient, Effect, sends, closes, Answers, Sender, sender_round,
  sender_threads, Listeners, no_listeners, add_listener,
}

pub record Station : Type 0 where
  pub ring : RingBuffer
  pub listeners : Listeners
  pub last_processed : List (Option ℕ)
  pub watching : List ℕ
  pub closed : List ℕ

-- Before the first event.
unfoldable pub start : RingBuffer → Station
start ring = record {
  ring = ring;
  listeners = no_listeners;
  last_processed = replicate sender_threads none;
  watching = [];
  closed = [];
}

-- An accepted descriptor, by whether epoll_ctl adds it.
unfoldable pub accept_client : ℕ → Bool → Station → Station
accept_client client_fd true s = record s { watching = client_fd ∷ s.watching }
accept_client client_fd false s = record s { closed = client_fd ∷ s.closed }

-- The loop of accept, up to the first answer that is an error.
unfoldable pub accept_loop : List (ℕ × Bool) → Station → Station
accept_loop [] s = s
accept_loop ((client_fd, adds) ∷ clients) s = accept_loop clients (accept_client client_fd adds s)

-- EPOLL_CTL_DEL
unfoldable pub unwatch : ℕ → List ℕ → List ℕ
unwatch fd [] = []
unwatch fd (other ∷ fds) = if fd == other then fds else other ∷ unwatch fd fds

-- What recv answers: bytes, EAGAIN, or the end or another error.
pub data Heard : Type 0 where
  request again ended : Heard

unfoldable pub drop_client : ℕ → Station → Station
drop_client client_fd s = record s {
  watching = unwatch client_fd s.watching;
  closed = client_fd ∷ s.closed;
}

-- An event for a client, by whether send takes the header and malloc succeeds.
unfoldable pub on_client : Heard → Bool → Bool → ℕ → Station → Station
on_client again sends_header allocates client_fd s = s
on_client ended sends_header allocates client_fd s = drop_client client_fd s
on_client request false allocates client_fd s = drop_client client_fd s
on_client request true false client_fd s = drop_client client_fd s
on_client request true true client_fd s = record s {
  watching = unwatch client_fd s.watching;
  listeners = add_listener client_fd s.ring.write_index s.listeners;
}

unfoldable pub put_closed : List Effect → List ℕ → List ℕ
put_closed [] closed = closed
put_closed (sends fd bytes ∷ effects) closed = put_closed effects closed
put_closed (closes fd ∷ effects) closed = fd ∷ put_closed effects closed

unfoldable pub after_round : ℕ → Option (Sender × List Effect) → Station → Station
after_round i none s = s
after_round i (some (sender, effects)) s = record s {
  listeners = record s.listeners { lists = set s.listeners.lists i sender.clients };
  last_processed = set s.last_processed i sender.last_processed;
  closed = put_closed effects s.closed;
}

abbrev pub sender_of : ℕ → Station → Sender
sender_of i s = record {
  last_processed = get_or s.last_processed i none;
  clients = get_or s.listeners.lists i [];
}

-- A round of the i-th sender thread.
unfoldable pub sender_turn : ℕ → (ℕ → Answers) → RingBuffer → Station → Station
sender_turn i answers later s = after_round i (sender_round answers s.ring later (sender_of i s)) s

unfoldable pub broadcaster_turn : List ℕ → Station → Station
broadcaster_turn local_buffer s = record s { ring = broadcast local_buffer s.ring }
