-- ===== src/Https/Outbox/Stall.antt =====
-- Two events after which no event for writing is reported any more, though something is still to be
-- sent.
use caligo_engine.Base.{
  ℕ, ◌+◌, ◌≤◌, ◌<◌, ◌≡◌, refl, sym, ap, subst, ==_iff, le→ltb_false, ◌∙◌, Bool, true, false, some,
  List, [], ◌∷◌, ◌++◌, length, length-drop, take, drop, ◌==◌, if◌then◌else◌, arith,
}
use caligo_engine.Https.Outbox.{
  Answer, took, Watch, asleep, Conn, done, queued, write_response, flush_pending,
  flush_pending_write, read_chunk, report, Outcome, gives_up, goes_on, unless_failed, next_chunk,
  after_flush, on_writable,
}
use caligo_engine.Https.Outbox.Order.{unread}
use caligo_engine.Https.Outbox.Progress.{ssl_send_response-idle}

-- The bytes that are still to be sent: those waiting and those of the file that are not read.
abbrev pub unsent : Conn → ℕ
unsent c = length c.pending + length (unread c.file_stream)

-- No event for writing is to come, though at least one byte is still to be sent.
abbrev pub IsStalled : Outcome → Type 0
IsStalled (gives_up c) = ⊥
IsStalled (goes_on c) = (c.watch.for_write ≡ false) × (0 < unsent c)

pub report-once : (c : Conn) → c.watch.once ≡ true → report c ≡ record c { watch = asleep }
unfolding report
report-once c e = ap (λ b. if b then record c { watch = asleep } else c) e

flush_pending-part :
    (n : ℕ) (pending : List ℕ) (second : Answer) (c : Conn)
    → n < length pending
    → c.watch ≡ asleep
    → IsStalled (after_flush second (flush_pending pending (took n) c))
unfolding flush_pending after_flush
flush_pending-part n [] second c part e = absurd (omega arith)
flush_pending-part n (x ∷ xs) second c part e = split (n == length (x ∷ xs)) refl
  where
    split :
        (all : Bool)
        → (n == length (x ∷ xs)) ≡ all
        → IsStalled (
            after_flush second (
              if all
              then (
                record c {
                  wire = c.wire ++ (x ∷ xs);
                  pending = [];
                  watch = record { for_read = true; for_write = false; once = true };
                },
                done,
              )
              else (
                record c { wire = c.wire ++ take n (x ∷ xs); pending = drop n (x ∷ xs) },
                queued,
              )))
    split true all = absurd (omega (arith, (==_iff n (length (x ∷ xs))).0 all))
    split false some_left =
        (ap (λ (w : Watch). w.for_write) e, omega (arith, length-drop n (x ∷ xs)))

-- A connection watched for one event, whose write at it takes a part of what waits only, stalls.
pub on_writable-IsStalled :
    (n : ℕ) (second : Answer) (c : Conn)
    → c.watch.once ≡ true
    → n < length c.pending
    → IsStalled (on_writable (took n) second c)
unfolding on_writable flush_pending_write
on_writable-IsStalled n second c once part =
    let r = report-once c once in
    rw r (flush_pending-part n c.pending second (record c { watch = asleep }) part refl)

write_response-whole :
    (m : ℕ) (chunk : List ℕ) (c : Conn)
    → length chunk ≤ m
    → write_response (took m) chunk c ≡ (record c { wire = c.wire ++ chunk }, done)
unfolding write_response
write_response-whole m chunk c h = rw (le→ltb_false m (length chunk) h)

next_chunk-IsStalled :
    (m x : ℕ) (file : List ℕ) (c : Conn)
    → c.ssl ≡ true
    → c.pending ≡ []
    → c.watch.for_write ≡ false
    → 4096 < length (x ∷ file)
    → length (read_chunk (x ∷ file)).0 ≤ m
    → IsStalled (next_chunk (took m) (some (x ∷ file)) c)
unfolding next_chunk unless_failed
next_chunk-IsStalled m x file c secure idle off long fits =
    let (chunk, rest) = read_chunk (x ∷ file) in
    let c' : Conn = record c { file_stream = some rest } in
    subst (λ r. IsStalled (unless_failed r))
      (sym (
        ssl_send_response-idle (took m) chunk c' secure idle
        ∙ write_response-whole m chunk c' fits))
      (off, unfold read_chunk in omega (arith, length-drop 4096 (x ∷ file), long))

flush_pending-whole :
    (m x n : ℕ) (file pending : List ℕ) (c : Conn)
    → c.ssl ≡ true
    → c.file_stream ≡ some (x ∷ file)
    → n ≡ length pending
    → 0 < length pending
    → 4096 < length (x ∷ file)
    → length (read_chunk (x ∷ file)).0 ≤ m
    → IsStalled (after_flush (took m) (flush_pending pending (took n) c))
unfolding flush_pending after_flush
flush_pending-whole m x n file [] c secure f all waits long fits = absurd (omega arith)
flush_pending-whole m x n file (y ∷ ys) c secure f all waits long fits =
    rw ((==_iff n (length (y ∷ ys))).1 all, f)
      (next_chunk-IsStalled m x file
        (record c {
          wire = c.wire ++ (y ∷ ys);
          pending = [];
          file_stream = some (x ∷ file);
          watch = record { for_read = true; for_write = false; once = true };
        })
        secure refl refl long fits)

-- A connection over OpenSSL with bytes waiting and more than 4096 bytes of a file unread, whose two
-- writes at an event take all that waits and all of the next chunk, is not watched for writing any
-- more, though at least one byte is still to be sent.
pub on_writable_whole-IsStalled :
    (m x : ℕ) (file : List ℕ) (c : Conn)
    → c.ssl ≡ true
    → 0 < length c.pending
    → c.file_stream ≡ some (x ∷ file)
    → 4096 < length (x ∷ file)
    → length (read_chunk (x ∷ file)).0 ≤ m
    → IsStalled (on_writable (took (length c.pending)) (took m) c)
unfolding on_writable flush_pending_write report
on_writable_whole-IsStalled m x file c secure waits f long fits = at_event c.watch.once
  where
    at_event :
        (b : Bool)
        → IsStalled (
            after_flush (took m) (
              flush_pending
                (if b then record c { watch = asleep } else c).pending
                (took (length c.pending))
                (if b then record c { watch = asleep } else c)))
    at_event true =
        flush_pending-whole m x (length c.pending) file c.pending (record c { watch = asleep })
          secure f refl waits long fits
    at_event false =
        flush_pending-whole m x (length c.pending) file c.pending c secure f refl waits long fits
