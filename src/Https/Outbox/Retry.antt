-- ===== src/Https/Outbox/Retry.antt =====
-- A response that OpenSSL does not take at once.
use caligo_engine.Base.{ℕ, ◌≡◌, true, none, List, ◌∷◌}
use caligo_engine.Https.Outbox.{Conn}

-- A connection without a file that has sent `wire`, with `x ∷ rest` waiting, and that epoll watches for
-- writing.
record IsWaiting (wire : List ℕ) (x : ℕ) (rest : List ℕ) (c : Conn) : Type 0 where
  out : c.wire ≡ wire
  waits : c.pending ≡ x ∷ rest
  no_file : c.file_stream ≡ none
  watched : c.watch.for_write ≡ true
