-- ===== src/Https/Outbox/Progress.antt =====
-- A file that is on its way arrives, if the events for writing are reported and every write takes
-- something.
use caligo_engine.Base.{
  ℕ, suc, ◌+◌, ◌-◌, ◌≤◌, ◌<◌, ◌≡◌, refl, sym, ap, subst, ◌∙◌, Bool, true, false, Option, none, some,
  List, [], ◌∷◌, ◌++◌, length, length-drop, length-append, take, drop, ltb, ◌==◌, if◌then◌else◌,
  arith, All, append-nil,
}
use caligo_engine.Https.Outbox.{
  Answer, took, asleep, Conn, failed, done, queued, keep, write_response, queue_response,
  ssl_send_response, flush_pending, flush_pending_write, read_chunk, report, Outcome, goes_on,
  unless_failed, next_chunk, after_flush, on_writable,
}
use caligo_engine.Https.Outbox.Order.{
  unread, content, Carries, after_events, after_events-Carries, read_chunk-append, read_chunk-lt,
}

-- What is still to be done: the bytes waiting and to be read, and the end of the file.
abbrev pub remaining : Option (List ℕ) → ℕ
remaining none = 0
remaining (some file) = suc (length file)

abbrev pub weight : Conn → ℕ
weight c = length c.pending + remaining c.file_stream

-- An outcome that goes on, and has come at least one step further than `w`.
abbrev Nearer : ℕ → Outcome → Type 0
Nearer w o = (c : Conn) × (o ≡ goes_on c) × (c.ssl ≡ true) × (weight c ≤ w - 1)

length-read_chunk :
    (file : List ℕ) → length (read_chunk file).0 + length (read_chunk file).1 ≡ length file
length-read_chunk file = omega (
  arith,
  length-append (read_chunk file).0 (read_chunk file).1,
  ap length (read_chunk-append file),
)

write_response-Nearer :
    (m : ℕ) (chunk : List ℕ) (c : Conn)
    → c.ssl ≡ true
    → 0 < length chunk
    → Nearer (length chunk + weight c) (unless_failed (write_response (took (suc m)) chunk c))
unfolding write_response unless_failed keep
write_response-Nearer m chunk c secure some_left = split (ltb (suc m) (length chunk))
  where
    split :
        (part : Bool)
        → Nearer (length chunk + weight c) (
            unless_failed (
              if part
              then (keep (take (suc m) chunk) (drop (suc m) chunk) c, queued)
              else (record c { wire = c.wire ++ chunk }, done)))
    split true = (
      keep (take (suc m) chunk) (drop (suc m) chunk) c,
      refl,
      secure,
      omega (arith, length-drop (suc m) chunk),
    )
    split false = (record c { wire = c.wire ++ chunk }, refl, secure, omega arith)

pub ssl_send_response-idle :
    (answer : Answer) (response : List ℕ) (c : Conn)
    → c.ssl ≡ true
    → c.pending ≡ []
    → ssl_send_response answer response c ≡ write_response answer response c
unfolding ssl_send_response queue_response
ssl_send_response-idle answer response c secure idle =
    ap (λ b. if b then queue_response c.pending answer response c else (c, failed)) secure
    ∙ ap (λ p. queue_response p answer response c) idle

-- With nothing waiting, the next chunk brings the file nearer to its end.
next_chunk-Nearer :
    (m : ℕ) (file : Option (List ℕ)) (c : Conn)
    → c.ssl ≡ true
    → c.pending ≡ []
    → c.file_stream ≡ file
    → Nearer (weight c) (next_chunk (took (suc m)) file c)
unfolding next_chunk ssl_send_response queue_response
next_chunk-Nearer m none c secure idle f = (c, refl, secure, rw (idle, f) (omega arith))
next_chunk-Nearer m (some []) c secure idle f =
    (record c { file_stream = none; is_cgi = false }, refl, secure, rw (idle, f) (omega arith))
next_chunk-Nearer m (some (x ∷ file)) c secure idle f =
    let (chunk, rest) = read_chunk (x ∷ file) in
    let c' : Conn = record c { file_stream = some rest } in
    let before = length-read_chunk (x ∷ file) in
    let shorter = read_chunk-lt x file in
    let n = write_response-Nearer m chunk c' secure (omega (arith, before, shorter)) in
    let e : remaining c.file_stream ≡ suc (length (x ∷ file)) = ap remaining f in
    (
      n.0,
      ap unless_failed (ssl_send_response-idle (took (suc m)) chunk c' secure idle) ∙ n.1,
      n.2,
      omega (arith, n.3, e, before),
    )

-- An event whose writes take something brings a connection nearer to having sent all.
advance :
    (n m : ℕ) (pending : List ℕ) (c : Conn)
    → c.ssl ≡ true
    → c.pending ≡ pending
    → Nearer (weight c) (after_flush (took (suc m)) (flush_pending pending (took (suc n)) c))
unfolding flush_pending after_flush
advance n m [] c secure e = next_chunk-Nearer m c.file_stream c secure e refl
advance n m (x ∷ xs) c secure e = split (suc n == length (x ∷ xs))
  where
    split :
        (all : Bool)
        → Nearer (weight c) (
            after_flush (took (suc m)) (
              if all
              then (
                record c {
                  wire = c.wire ++ (x ∷ xs);
                  pending = [];
                  watch = record { for_read = true; for_write = false; once = true };
                },
                done,
              )
              else (
                record c {
                  wire = c.wire ++ take (suc n) (x ∷ xs);
                  pending = drop (suc n) (x ∷ xs);
                },
                queued,
              )))
    split true =
        let c' : Conn = record c {
          wire = c.wire ++ (x ∷ xs);
          pending = [];
          watch = record { for_read = true; for_write = false; once = true };
        } in
        let (c'', is, safe, less) = next_chunk-Nearer m c.file_stream c' secure refl refl in
        (c'', is, safe, omega (arith, less, ap length e))
    split false = (
      record c { wire = c.wire ++ take (suc n) (x ∷ xs); pending = drop (suc n) (x ∷ xs) },
      refl,
      secure,
      omega (arith, length-drop (suc n) (x ∷ xs), ap length e),
    )

report-same : (c : Conn) → ((report c).ssl ≡ c.ssl) × (weight (report c) ≡ weight c)
unfolding report
report-same c = split c.watch.once
  where
    split :
        (b : Bool)
        → ((if b then record c { watch = asleep } else c).ssl ≡ c.ssl)
          × (weight (if b then record c { watch = asleep } else c) ≡ weight c)
    split true = (refl, refl)
    split false = (refl, refl)

on_writable-Nearer :
    (n m : ℕ) (c : Conn)
    → c.ssl ≡ true
    → Nearer (weight c) (on_writable (took (suc n)) (took (suc m)) c)
unfolding on_writable flush_pending_write
on_writable-Nearer n m c secure =
    let s = report-same c in
    let (c', is, safe, less) = advance n m (report c).pending (report c) (s.0 ∙ secure) refl in
    (c', is, safe, omega (arith, less, s.1))

-- An event whose two writes take at least one byte each.
abbrev pub Takes : Answer × Answer → Type 0
Takes e = ((n : ℕ) × (e.0 ≡ took (suc n))) × ((m : ℕ) × (e.1 ≡ took (suc m)))

after_events-ends :
    (events : List (Answer × Answer)) (c : Conn)
    → All Takes events
    → c.ssl ≡ true
    → weight c ≤ length events
    → (c' : Conn) × (after_events events (goes_on c) ≡ goes_on c') × (weight c' ≡ 0)
unfolding after_events
after_events-ends [] c all secure enough = (c, refl, omega arith)
after_events-ends (e ∷ events) c all secure enough =
    let ((n, first), (m, second)) = all.0 in
    let (c', is, safe, less) = on_writable-Nearer n m c secure in
    let (c'', last, none_left) = after_events-ends events c' all.1 safe (omega arith) in
    (c'', rw (first, second) (ap (after_events events) is ∙ last), none_left)

nothing_left :
    (wire pending : List ℕ) (file : Option (List ℕ))
    → length pending + remaining file ≡ 0
    → (wire ++ pending) ++ unread file ≡ wire
nothing_left wire [] none h = simp append-nil
nothing_left wire [] (some file) h = absurd (omega arith)
nothing_left wire (x ∷ xs) file h = absurd (omega arith)

-- A connection over OpenSSL has sent all that it was to carry after as many EPOLLOUT events as there
-- are bytes waiting and unread, and one more for the end of the file, if each write at them takes at
-- least one byte.
pub after_events_deliver :
    (events : List (Answer × Answer)) (c : Conn)
    → All Takes events
    → c.ssl ≡ true
    → weight c ≤ length events
    → (c' : Conn) × (after_events events (goes_on c) ≡ goes_on c') × (c'.wire ≡ content c)
after_events_deliver events c all secure enough =
    let (c', is, none_left) = after_events-ends events c all secure enough in
    let carried =
      subst (Carries (content c)) is (after_events-Carries (content c) events (goes_on c) refl) in
    (c', is, sym (nothing_left c'.wire c'.pending c'.file_stream none_left) ∙ carried)
