-- ===== src/Https/Outbox/Order.antt =====
-- No byte is lost, doubled or overtaken on its way through the write buffer.
use caligo_engine.Base.{
  ℕ, zero, suc, ◌+◌, ◌≡◌, refl, sym, ap, ◌∙◌, Bool, true, false, Option, none, some, List, [], ◌∷◌,
  ◌++◌, length, length-drop, ◌<◌, ltb, ◌==◌, if◌then◌else◌, arith, append-nil, append_assoc,
  take-append-drop, Bool-cases, inl, inr,
}
use caligo_engine.Https.Outbox.{
  Answer, took, again, broken, Conn, Sent, failed, done, queued, keep, write_response,
  queue_response, ssl_send_response, flush_pending, flush_pending_write, read_chunk, report,
  Outcome, gives_up, goes_on, unless_failed, asleep, next_chunk, after_flush, on_writable,
  send_chunks, send_body, after_header, send_file,
}

ruleset joins = (append-nil, append_assoc, take-append-drop)

abbrev pub unread : Option (List ℕ) → List ℕ
unread none = []
unread (some file) = file

-- All that a connection has sent or has yet to send, in order.
abbrev pub content : Conn → List ℕ
content c = (c.wire ++ c.pending) ++ unread c.file_stream

-- What a connection is to carry has not changed; one that was given up has sent a first part of it.
abbrev pub Carries : List ℕ → Outcome → Type 0
Carries target (gives_up c) = (rest : List ℕ) × (c.wire ++ rest ≡ target)
Carries target (goes_on c) = content c ≡ target

-- A write that does not fail puts the response behind what was there, and leaves nothing waiting
-- if it is done.
abbrev pub Adds : List ℕ → Conn → Conn × Sent → Type 0
Adds response c (c', failed) =
    (c'.wire ++ c'.pending ≡ c.wire ++ c.pending) × (c'.file_stream ≡ c.file_stream)
Adds response c (c', done) =
    (c'.wire ++ c'.pending ≡ (c.wire ++ c.pending) ++ response)
    × (c'.file_stream ≡ c.file_stream)
    × (c'.pending ≡ [])
Adds response c (c', queued) =
    (c'.wire ++ c'.pending ≡ (c.wire ++ c.pending) ++ response) × (c'.file_stream ≡ c.file_stream)

write_response-Adds :
    (answer : Answer) (response : List ℕ) (c : Conn)
    → c.pending ≡ []
    → Adds response c (write_response answer response c)
unfolding write_response keep
write_response-Adds (took n) response c e = elim (Bool-cases (ltb n (length response))) [
  | inl part ↦ rw (part, e) (simp joins, refl)
  | inr whole ↦ rw (whole, e) (simp joins, refl, refl)
]
write_response-Adds again response c e = rw e (refl, refl)
write_response-Adds broken response c e = (refl, refl)

queue_response-Adds :
    (pending : List ℕ) (answer : Answer) (response : List ℕ) (c : Conn)
    → c.pending ≡ pending
    → Adds response c (queue_response pending answer response c)
unfolding queue_response
queue_response-Adds [] answer response c e = write_response-Adds answer response c e
queue_response-Adds (x ∷ xs) answer response c e = rw e (simp joins, refl)

pub ssl_send_response-Adds :
    (answer : Answer) (response : List ℕ) (c : Conn)
    → Adds response c (ssl_send_response answer response c)
unfolding ssl_send_response
ssl_send_response-Adds answer response c = split c.ssl
  where
    split :
        (b : Bool)
        → Adds response c (if b then queue_response c.pending answer response c else (c, failed))
    split true = queue_response-Adds c.pending answer response c refl
    split false = (refl, refl)

flush_pending-Adds :
    (pending : List ℕ) (answer : Answer) (c : Conn)
    → c.pending ≡ pending
    → Adds [] c (flush_pending pending answer c)
unfolding flush_pending
flush_pending-Adds [] answer c e = (simp joins, refl, e)
flush_pending-Adds (x ∷ xs) (took n) c e = elim (Bool-cases (n == length (x ∷ xs))) [
  | inl all ↦ rw (all, e) (simp joins, refl, refl)
  | inr part ↦ rw (part, e) (simp joins, refl)
]
flush_pending-Adds (x ∷ xs) again c e = (simp joins, refl)
flush_pending-Adds (x ∷ xs) broken c e = (refl, refl)

-- A failed write leaves a first part behind, and any other what is to come.
unless_failed-Carries :
    (target response : List ℕ) (file : List ℕ) (c : Conn) (r : Conn × Sent)
    → Adds response c r
    → c.file_stream ≡ some file
    → (c.wire ++ c.pending) ++ (response ++ file) ≡ target
    → Carries target (unless_failed r)
unfolding unless_failed
unless_failed-Carries target response file c (c', failed) a f e = (
  c'.pending ++ (response ++ file),
  sym (append_assoc c'.wire c'.pending _) ∙ (ap (λ s. s ++ (response ++ file)) a.0 ∙ e),
)
unless_failed-Carries target response file c (c', done) a f e =
    rw (a.0, a.1, f) (append_assoc _ response file ∙ e)
unless_failed-Carries target response file c (c', queued) a f e =
    rw (a.0, a.1, f) (append_assoc _ response file ∙ e)

pub read_chunk-append : (file : List ℕ) → (read_chunk file).0 ++ (read_chunk file).1 ≡ file
unfolding read_chunk
read_chunk-append file = take-append-drop 4096 file

next_chunk-Carries :
    (target : List ℕ) (answer : Answer) (file : Option (List ℕ)) (c : Conn)
    → (c.wire ++ c.pending) ++ unread file ≡ target
    → c.file_stream ≡ file
    → Carries target (next_chunk answer file c)
unfolding next_chunk
next_chunk-Carries target answer none c e f = rw f e
next_chunk-Carries target answer (some []) c e f = e
next_chunk-Carries target answer (some (x ∷ file)) c e f =
    let (chunk, rest) = read_chunk (x ∷ file) in
    unless_failed-Carries target chunk rest (record c { file_stream = some rest }) _
      (ssl_send_response-Adds answer chunk (record c { file_stream = some rest })) refl
      (rw (read_chunk-append (x ∷ file)) e)

after_flush-Carries :
    (target : List ℕ) (answer : Answer) (c : Conn) (r : Conn × Sent)
    → Adds [] c r
    → content c ≡ target
    → Carries target (after_flush answer r)
unfolding after_flush
after_flush-Carries target answer c (c', failed) a e = (
  c'.pending ++ unread c'.file_stream,
  sym (append_assoc c'.wire c'.pending _) ∙ (rw (a.0, a.1) e),
)
after_flush-Carries target answer c (c', done) a e =
    next_chunk-Carries target answer c'.file_stream c' (rw (a.0, a.1, append-nil) e) refl
after_flush-Carries target answer c (c', queued) a e = rw (a.0, a.1, append-nil) e

report-content : (c : Conn) → content (report c) ≡ content c
unfolding report
report-content c = split c.watch.once
  where
    split : (b : Bool) → content (if b then record c { watch = asleep } else c) ≡ content c
    split true = refl
    split false = refl

on_writable-Carries :
    (target : List ℕ) (first second : Answer) (c : Conn)
    → content c ≡ target
    → Carries target (on_writable first second c)
unfolding on_writable flush_pending_write
on_writable-Carries target first second c e =
    after_flush-Carries target second (report c) _
      (flush_pending-Adds (report c).pending first (report c) refl) (report-content c ∙ e)

pub read_chunk-lt : (x : ℕ) (file : List ℕ) → length (read_chunk (x ∷ file)).1 < length (x ∷ file)
unfolding read_chunk
read_chunk-lt x file = omega (arith, length-drop 4096 (x ∷ file))

send_chunks-Carries :
    (target : List ℕ) (rounds : ℕ) (answers : ℕ → Answer) (k : ℕ) (file : List ℕ) (c : Conn)
    → length file < rounds
    → (c.wire ++ c.pending) ++ file ≡ target
    → Carries target (send_chunks rounds answers k file c)
unfolding send_chunks
send_chunks-Carries target zero answers k file c h e = absurd (omega arith)
send_chunks-Carries target (suc rounds) answers k [] c h e = e
send_chunks-Carries target (suc rounds) answers k (x ∷ file) c h e =
    let (chunk, rest) = read_chunk (x ∷ file) in
    each chunk rest
      (λ c'.
        send_chunks-Carries target rounds answers (k + 1) rest c'
          (omega (arith, read_chunk-lt x file)))
      (rw (read_chunk-append (x ∷ file)) e) (ssl_send_response (answers k) chunk c)
      (ssl_send_response-Adds (answers k) chunk c)
  where
    each :
        (chunk rest : List ℕ)
        → ((c' : Conn)
            → (c'.wire ++ c'.pending) ++ rest ≡ target
            → Carries target (send_chunks rounds answers (k + 1) rest c'))
        → (c.wire ++ c.pending) ++ (chunk ++ rest) ≡ target
        → (r : Conn × Sent) → Adds chunk c r
        → Carries target (elim r.1 as (λ _. Outcome) [
          | failed ↦ gives_up r.0
          | queued ↦ goes_on (record r.0 { file_stream = some rest })
          | done ↦ send_chunks rounds answers (k + 1) rest r.0
        ])
    each chunk rest next e' (c', failed) a =
        (c'.pending ++ (chunk ++ rest), sym (append_assoc c'.wire c'.pending _) ∙ (rw (a.0) e'))
    each chunk rest next e' (c', queued) a = rw (a.0) (append_assoc _ chunk rest ∙ e')
    each chunk rest next e' (c', done) a = next c' (rw (a.0) (append_assoc _ chunk rest ∙ e'))

send_body-Carries :
    (target : List ℕ) (answers : ℕ → Answer) (file : List ℕ) (c : Conn) (pending : List ℕ)
    → (c.wire ++ c.pending) ++ file ≡ target
    → Carries target (send_body answers file c pending)
unfolding send_body
send_body-Carries target answers file c [] e =
    send_chunks-Carries target (suc (length file)) answers 1 file c (omega arith) e
send_body-Carries target answers file c (x ∷ pending) e = e

after_header-Carries :
    (target header : List ℕ) (answers : ℕ → Answer) (file : List ℕ) (c : Conn) (r : Conn × Sent)
    → Adds header c r
    → (c.wire ++ c.pending) ++ (header ++ file) ≡ target
    → Carries target (after_header answers file r)
unfolding after_header
after_header-Carries target header answers file c (c', failed) a e =
    (c'.pending ++ (header ++ file), sym (append_assoc c'.wire c'.pending _) ∙ (rw (a.0) e))
after_header-Carries target header answers file c (c', done) a e =
    send_body-Carries target answers file c' c'.pending (rw (a.0) (append_assoc _ header file ∙ e))
after_header-Carries target header answers file c (c', queued) a e =
    send_body-Carries target answers file c' c'.pending (rw (a.0) (append_assoc _ header file ∙ e))

-- A connection through a run of EPOLLOUT events, each with the answers to its two writes.
unfoldable pub after_events : List (Answer × Answer) → Outcome → Outcome
after_events [] o = o
after_events (e ∷ events) (gives_up c) = gives_up c
after_events (e ∷ events) (goes_on c) = after_events events (on_writable e.0 e.1 c)

pub after_events-Carries :
    (target : List ℕ) (events : List (Answer × Answer)) (o : Outcome)
    → Carries target o
    → Carries target (after_events events o)
unfolding after_events
after_events-Carries target [] o e = e
after_events-Carries target (x ∷ events) (gives_up c) e = e
after_events-Carries target (x ∷ events) (goes_on c) e =
    after_events-Carries target events (on_writable x.0 x.1 c)
      (on_writable-Carries target x.0 x.1 c e)

-- Whatever OpenSSL answers, at the writes of serve_static_file and at any run of events after it, what
-- a connection with nothing waiting has sent, keeps waiting and has yet to read makes up the header
-- and the file in order, behind what it had sent before; one that is given up has sent a first part.
pub send_file-Carries :
    (answers : ℕ → Answer) (header file : List ℕ) (events : List (Answer × Answer)) (c : Conn)
    → c.pending ≡ []
    → Carries (c.wire ++ (header ++ file)) (after_events events (send_file answers header file c))
unfolding send_file
send_file-Carries answers header file events c idle =
    after_events-Carries (c.wire ++ (header ++ file)) events _ (
      after_header-Carries _ header answers file c _ (ssl_send_response-Adds (answers 0) header c)
        (rw (idle, append-nil)))
