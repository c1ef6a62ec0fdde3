-- ===== src/Radio.antt =====
-- radio_server.c: the ring of chunks that the broadcaster fills, a sender thread's round over its
-- listeners, and the choice of the thread for a new listener; the audio file is in Radio/Broadcaster and
-- main in Radio/Main. The pace is left out; what `send` answers is an argument.
pub mod Broadcaster
pub mod Chunks
pub mod Main
pub mod Ring
pub mod Turns
use caligo_engine.Base.{
  ℕ, zero, suc, ◌+◌, ◌%◌, Bool, true, false, Option, none, some, List, [], ◌∷◌, ◌++◌, length, take,
  drop, set, get_elem?, get_or, replicate, ◌==◌, if◌then◌else◌,
}
use caligo_engine.Base.Hex.{hex}

-- BROADCAST_BUFFER_SLOTS and NUM_SENDER_THREADS
abbrev pub slots : ℕ
slots = 64

abbrev pub sender_threads : ℕ
sender_threads = 12

-- g_broadcast_buffer, g_buffer_chunk_size and g_write_index
pub record RingBuffer : Type 0 where
  pub buffers : List (List ℕ)
  pub sizes : List ℕ
  pub write_index : ℕ

abbrev pub next_index : ℕ → ℕ
next_index i = (i + 1) % slots

-- memcpy to the start of a buffer
unfoldable pub copy_into : List ℕ → List ℕ → List ℕ
copy_into bytes buffer = bytes ++ drop (length bytes) buffer

-- What the broadcaster does with the bytes that it has read, under the lock.
unfoldable pub broadcast : List ℕ → RingBuffer → RingBuffer
broadcast local_buffer r =
    let i = next_index r.write_index in
    record {
      buffers = set r.buffers i (copy_into local_buffer (get_or r.buffers i []));
      sizes = set r.sizes i (length local_buffer);
      write_index = i;
    }

pub record RadioClient : Type 0 where
  pub fd : ℕ
  pub read_index : ℕ

-- What `send` answers: how much it took, EAGAIN, or another error.
pub data Answer : Type 0 where
  took : ℕ → Answer
  again broken : Answer

-- How the sending of a chunk ends: `skipped` and `gone` are the failures with EAGAIN and with another
-- error.
pub data Sending : Type 0 where
  delivered skipped gone : Sending

pub data Effect : Type 0 where
  sends : ℕ → List ℕ → Effect
  closes : ℕ → Effect

-- One send; what it took is not compared with the length.
unfoldable pub send_piece : Answer → List ℕ → List ℕ × Sending
send_piece (took n) piece = (take n piece, delivered)
send_piece again piece = ([], skipped)
send_piece broken piece = ([], gone)

-- The next send, unless one before it has failed.
unfoldable pub and_send : List ℕ × Sending → Answer → List ℕ → List ℕ × Sending
and_send (sent, delivered) answer piece =
    let (more, ending) = send_piece answer piece in (sent ++ more, ending)
and_send (sent, skipped) answer piece = (sent, skipped)
and_send (sent, gone) answer piece = (sent, gone)

abbrev pub crlf : List ℕ
crlf = 13 ∷ 10 ∷ []

unfoldable pub chunk_header : ℕ → List ℕ
chunk_header current_chunk_size = hex current_chunk_size ++ crlf

-- The answers to the three sends of one listener.
abbrev pub Answers : Type 0
Answers = Answer × Answer × Answer

unfoldable pub send_chunk : Answers → List ℕ → List ℕ → List ℕ × Sending
send_chunk (first, second, third) header chunk =
    and_send (and_send (send_piece first header) second chunk) third crlf

-- What becomes of a listener, before the listeners behind it.
unfoldable pub settle :
    ℕ
    → RadioClient
    → List ℕ × Sending
    → List RadioClient × List Effect
    → List RadioClient × List Effect
settle index c (sent, delivered) (kept, effects) =
    (record c { read_index = index } ∷ kept, sends c.fd sent ∷ effects)
settle index c (sent, skipped) (kept, effects) = (c ∷ kept, sends c.fd sent ∷ effects)
settle index c (sent, gone) (kept, effects) = (kept, sends c.fd sent ∷ closes c.fd ∷ effects)

-- The loop over the listeners, with the answers by their number.
unfoldable pub send_all :
    (ℕ → Answers) → ℕ → ℕ → List ℕ → List ℕ → List RadioClient → List RadioClient × List Effect
send_all answers k index header chunk [] = ([], [])
send_all answers k index header chunk (c ∷ clients) =
    settle index c (send_chunk (answers k) header chunk)
      (send_all answers (k + 1) index header chunk clients)

-- A sender thread: last_processed_idx, where -1 is `none`, and its listeners.
pub record Sender : Type 0 where
  pub last_processed : Option ℕ
  pub clients : List RadioClient

unfoldable pub has_processed : Option ℕ → ℕ → Bool
has_processed none i = false
has_processed (some j) i = j == i

-- One round of sender_worker_thread, `none` where it waits for new data. The index and the size are
-- read under the lock, the bytes after it, from the ring as it is then.
unfoldable pub sender_round :
    (ℕ → Answers) → RingBuffer → RingBuffer → Sender → Option (Sender × List Effect)
sender_round answers r later s =
    if has_processed s.last_processed r.write_index
    then none
    else let size = get_or r.sizes r.write_index 0 in
      let (kept, effects) =
        send_all answers 0 r.write_index (chunk_header size)
          (take size (get_or later.buffers r.write_index [])) s.clients in
      some (record { last_processed = some r.write_index; clients = kept }, effects)

-- The senders' lists of listeners and current_thread_idx.
pub record Listeners : Type 0 where
  pub lists : List (List RadioClient)
  pub current : ℕ

-- The listeners before the first.
unfoldable pub no_listeners : Listeners
no_listeners = record { lists = replicate sender_threads []; current = 0 }

-- A new listener goes to the head of the current thread's list.
unfoldable pub add_listener : ℕ → ℕ → Listeners → Listeners
add_listener client_fd write_index l = record {
  lists =
      set l.lists l.current
        (record { fd = client_fd; read_index = write_index } ∷ get_or l.lists l.current []);
  current = (l.current + 1) % sender_threads;
}
