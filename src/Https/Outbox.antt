-- ===== src/Https/Outbox.antt =====
-- The write buffer of a connection: ssl_send_response of https/request_handler.c,
-- flush_pending_write of https/server.c, and the two places that send a file through them.
-- The peer of a connection, which a whole flush lets read again, is in Https/Tunnel.
-- OpenSSL is a parameter: each call takes the answer that it gets. SSL_write takes no more bytes than
-- it is given.
pub mod Order
pub mod Progress
pub mod Stall
pub mod Retry
use caligo_engine.Base.{
  ℕ, zero, suc, ◌+◌, Bool, true, false, Option, none, some, List, [], ◌∷◌, ◌++◌, length, take, drop,
  ltb, ◌==◌, if◌then◌else◌,
}

-- What SSL_write and then SSL_get_error answer: so many bytes taken, a call to be made again, or an
-- error.
pub data Answer : Type 0 where
  took : ℕ → Answer
  again broken : Answer

-- What epoll watches the socket for; with `once` an event ends the watch.
pub record Watch : Type 0 where
  pub for_read : Bool
  pub for_write : Bool
  pub once : Bool

abbrev pub asleep : Watch
asleep = record { for_read = false; for_write = false; once = true }

-- The part of ClientState that sending uses. `wire` is what OpenSSL has taken so far, and a file is
-- what has not been read of it yet.
pub record Conn : Type 0 where
  pub ssl : Bool
  pub wire : List ℕ
  pub pending : List ℕ
  pub file_stream : Option (List ℕ)
  pub is_cgi : Bool
  pub watch : Watch

-- The returns -1, 0 and 1.
pub data Sent : Type 0 where
  failed done queued : Sent

-- The interest set behind a write that was not taken whole.
unfoldable pub keep : List ℕ → List ℕ → Conn → Conn
keep taken left c = record c {
  wire = c.wire ++ taken;
  pending = left;
  watch = record { for_read = true; for_write = true; once = false };
}

unfoldable pub write_response : Answer → List ℕ → Conn → Conn × Sent
write_response (took n) response c =
    if ltb n (length response)
    then (keep (take n response) (drop n response) c, queued)
    else (record c { wire = c.wire ++ response }, done)
write_response again response c = (keep [] response c, queued)
write_response broken response c = (c, failed)

-- With bytes waiting already the new ones are put behind them.
unfoldable pub queue_response : List ℕ → Answer → List ℕ → Conn → Conn × Sent
queue_response [] answer response c = write_response answer response c
queue_response (x ∷ xs) answer response c = (record c { pending = (x ∷ xs) ++ response }, queued)

unfoldable pub ssl_send_response : Answer → List ℕ → Conn → Conn × Sent
ssl_send_response answer response c =
    if c.ssl then queue_response c.pending answer response c else (c, failed)

unfoldable pub flush_pending : List ℕ → Answer → Conn → Conn × Sent
flush_pending [] answer c = (c, done)
flush_pending (x ∷ xs) (took n) c =
    if n == length (x ∷ xs)
    then (
      record c {
        wire = c.wire ++ (x ∷ xs);
        pending = [];
        watch = record { for_read = true; for_write = false; once = true };
      },
      done,
    )
    else (record c { wire = c.wire ++ take n (x ∷ xs); pending = drop n (x ∷ xs) }, queued)
flush_pending (x ∷ xs) again c =
    (record c { watch = record { for_read = true; for_write = true; once = true } }, queued)
flush_pending (x ∷ xs) broken c = (c, failed)

unfoldable pub flush_pending_write : Answer → Conn → Conn × Sent
flush_pending_write answer c = flush_pending c.pending answer c

-- fread(file_buffer, 1, BUFFER_SIZE, file): what is read, and what is left.
unfoldable pub read_chunk : List ℕ → List ℕ × List ℕ
read_chunk file = (take 4096 file, drop 4096 file)

-- The event is reported: a watch for one event ends.
unfoldable pub report : Conn → Conn
report c = if c.watch.once then record c { watch = asleep } else c

-- What becomes of a connection; `gives_up` is the call of cleanup_client, or the return of
-- serve_static_file after a write that failed.
pub data Outcome : Type 0 where
  gives_up : Conn → Outcome
  goes_on : Conn → Outcome

unfoldable pub unless_failed : Conn × Sent → Outcome
unless_failed (c, failed) = gives_up c
unless_failed (c, done) = goes_on c
unless_failed (c, queued) = goes_on c

-- The next chunk of the file, or its end.
unfoldable pub next_chunk : Answer → Option (List ℕ) → Conn → Outcome
next_chunk answer none c = goes_on c
next_chunk answer (some []) c = goes_on (record c { file_stream = none; is_cgi = false })
next_chunk answer (some (x ∷ file)) c = unless_failed (
    ssl_send_response answer (read_chunk (x ∷ file)).0
      (record c { file_stream = some (read_chunk (x ∷ file)).1 }))

unfoldable pub after_flush : Answer → Conn × Sent → Outcome
after_flush answer (c, failed) = gives_up c
after_flush answer (c, done) = next_chunk answer c.file_stream c
after_flush answer (c, queued) = goes_on c

-- The EPOLLOUT branch of the event loop, with the answers to its two writes.
unfoldable pub on_writable : Answer → Answer → Conn → Outcome
on_writable first second c = after_flush second (flush_pending_write first (report c))

-- The loop of serve_static_file, a round for each chunk, and the answer to each write by its number.
unfoldable pub send_chunks : ℕ → (ℕ → Answer) → ℕ → List ℕ → Conn → Outcome
send_chunks zero answers k file c = goes_on c
send_chunks (suc rounds) answers k [] c = goes_on (record c { file_stream = none })
send_chunks (suc rounds) answers k (x ∷ file) c =
    let (c', sent) = ssl_send_response (answers k) (read_chunk (x ∷ file)).0 c in
    let rest = (read_chunk (x ∷ file)).1 in
    elim sent [
      | failed ↦ gives_up c'
      | queued ↦ goes_on (record c' { file_stream = some rest })
      | done ↦ send_chunks rounds answers (k + 1) rest c'
    ]

unfoldable pub send_body : (ℕ → Answer) → List ℕ → Conn → List ℕ → Outcome
send_body answers file c [] = send_chunks (suc (length file)) answers 1 file c
send_body answers file c (x ∷ pending) = goes_on (record c { file_stream = some file })

-- serve_static_file from the header on.
unfoldable pub after_header : (ℕ → Answer) → List ℕ → Conn × Sent → Outcome
after_header answers file (c, failed) = gives_up c
after_header answers file (c, done) = send_body answers file c c.pending
after_header answers file (c, queued) = send_body answers file c c.pending

unfoldable pub send_file : (ℕ → Answer) → List ℕ → List ℕ → Conn → Outcome
send_file answers header file c = after_header answers file (ssl_send_response (answers 0) header c)
