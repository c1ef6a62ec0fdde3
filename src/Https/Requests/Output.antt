-- ===== src/Https/Requests/Output.antt =====
-- The output of a CGI program on its way into the write buffer.
use caligo_engine.Base.{
  ℕ, zero, suc, ◌+◌, ◌*◌, ◌<◌, ◌≡◌, refl, sym, ap, subst, ◌⊎◌, Bool, true, false, if◌then◌else◌,
  ◌∙◌, some, List, [], ◌∷◌, ◌++◌, length, take, drop, ltb, arith, append-nil, append_assoc,
  take-append-drop, length-drop, Bool-cases, inl, inr,
}
use caligo_engine.Https.Outbox.{
  Answer, took, again, Conn, Sent, failed, done, queued, keep, write_response, queue_response,
  ssl_send_response,
}
use caligo_engine.Https.Outbox.Order.{Adds, ssl_send_response-Adds}
use caligo_engine.Https.Requests.{
  piece_size, most_waiting, Relayed, whole, broken, paused, after_piece, relay,
}

-- A write has met an error, or there is no TLS connection.
abbrev pub HasFailed : (ℕ → Answer) → Conn → Type 0
HasFailed answers c = ((k : ℕ) × (answers k ≡ Answer.broken)) ⊎ (c.ssl ≡ false)

ltb→lt : (a b : ℕ) → ltb a b ≡ true → a < b
ltb→lt a b h = ground arith

-- What is there of an output behind `start`: all of it; a first part, after a write that OpenSSL has
-- refused or without a TLS connection; or, with more than 4 MB waiting, all but a piece between what
-- was sent and what is still to be read.
abbrev pub IsRelayed : (ℕ → Answer) → List ℕ → List ℕ → Relayed → Type 0
IsRelayed answers start output (whole c) = c.wire ++ c.pending ≡ start ++ output
IsRelayed answers start output (broken c) =
    (first rest : List ℕ) × (c.wire ++ c.pending ≡ start ++ first)
    × (first ++ rest ≡ output)
    × HasFailed answers c
IsRelayed answers start output (paused c) =
    (first lost rest : List ℕ) × (c.wire ++ c.pending ≡ start ++ first)
    × (c.file_stream ≡ some rest)
    × (first ++ (lost ++ rest) ≡ output)
    × (0 < length lost)
    × (4 * 1024 * 1024 < length c.pending)

-- One piece more in front.
behind :
    (answers : ℕ → Answer) (start piece output : List ℕ) (r : Relayed)
    → IsRelayed answers (start ++ piece) output r
    → IsRelayed answers start (piece ++ output) r
behind answers start piece output (whole c) e = e ∙ append_assoc start piece output
behind answers start piece output (broken c) (first, rest, e, parts, why) = (
  piece ++ first,
  rest,
  e ∙ append_assoc start piece first,
  append_assoc piece first rest ∙ ap (λ l. piece ++ l) parts,
  why,
)
behind answers start piece output (paused c) (first, lost, rest, e, left, parts, some_lost, full) =
    (
      piece ++ first,
      lost,
      rest,
      e ∙ append_assoc start piece first,
      left,
      append_assoc piece first (lost ++ rest) ∙ ap (λ l. piece ++ l) parts,
      some_lost,
      full,
    )

abbrev answered : Conn × Sent → Sent
answered r = r.1

write_response-HasFailed :
    (answer : Answer) (piece : List ℕ) (c c' : Conn)
    → write_response answer piece c ≡ (c', failed)
    → answer ≡ Answer.broken
unfolding write_response
write_response-HasFailed (took n) piece c c' e = absurd (
    by_case (ltb n (length piece)) (keep (take n piece) (drop n piece) c)
      (record c { wire = c.wire ++ piece }) (ap (λ (r : Conn × Sent). r.1) e))
  where
    by_case : (b : Bool) (x y : Conn) → answered (if b then (x, queued) else (y, done)) ≡ failed → ⊥
    by_case true x y e = cc
    by_case false x y e = cc
write_response-HasFailed again piece c c' e = let f = ap (λ (r : Conn × Sent). r.1) e in cc
write_response-HasFailed Answer.broken piece c c' e = refl

queue_response-HasFailed :
    (pending : List ℕ) (answer : Answer) (piece : List ℕ) (c c' : Conn)
    → queue_response pending answer piece c ≡ (c', failed)
    → answer ≡ Answer.broken
unfolding queue_response
queue_response-HasFailed [] answer piece c c' e = write_response-HasFailed answer piece c c' e
queue_response-HasFailed (x ∷ xs) answer piece c c' e =
    let f = ap (λ (r : Conn × Sent). r.1) e in cc

ssl_send_response-HasFailed :
    (answers : ℕ → Answer) (k : ℕ) (piece : List ℕ) (c c' : Conn)
    → ssl_send_response (answers k) piece c ≡ (c', failed)
    → HasFailed answers c'
unfolding ssl_send_response
ssl_send_response-HasFailed answers k piece c c' = by_case c.ssl refl
  where
    by_case :
        (b : Bool)
        → c.ssl ≡ b
        → (if b then queue_response c.pending (answers k) piece c else (c, failed)) ≡ (c', failed)
        → HasFailed answers c'
    by_case true s e = inl (k, queue_response-HasFailed c.pending (answers k) piece c c' e)
    by_case false s e = inr (ap (λ (r : Conn × Sent). r.0.ssl) (sym e) ∙ s)

after_piece-IsRelayed :
    (answers : ℕ → Answer) (piece output : List ℕ) (rest : Conn → Relayed) (c : Conn)
    (r : Conn × Sent)
    → Adds piece c r
    → ((c' : Conn) → r ≡ (c', failed) → HasFailed answers c')
    → ((c' : Conn) → IsRelayed answers (c'.wire ++ c'.pending) output (rest c'))
    → IsRelayed answers (c.wire ++ c.pending) (piece ++ output) (after_piece rest r)
unfolding after_piece
after_piece-IsRelayed answers piece output rest c (c', failed) a why next =
    ([], piece ++ output, a.0 ∙ sym (append-nil _), refl, why c' refl)
after_piece-IsRelayed answers piece output rest c (c', done) a why next =
    behind answers _ piece output (rest c')
      (subst (λ s. IsRelayed answers s output (rest c')) a.0 (next c'))
after_piece-IsRelayed answers piece output rest c (c', queued) a why next =
    behind answers _ piece output (rest c')
      (subst (λ s. IsRelayed answers s output (rest c')) a.0 (next c'))

-- Whatever OpenSSL answers, with a round for each byte of the output and one more: what has been sent and
-- what waits is what was there before and then all of the output, in order; or a first part of it,
-- where a write has met an error or there is no TLS connection; or, and then more than 4 MB wait, a
-- first part of it, where at least one byte of the output is neither there nor left to be read.
pub relay-IsRelayed :
    (rounds : ℕ) (answers : ℕ → Answer) (k : ℕ) (output : List ℕ) (c : Conn)
    → length output < rounds
    → IsRelayed answers (c.wire ++ c.pending) output (relay rounds answers k output c)
unfolding relay
relay-IsRelayed zero answers k output c h = absurd (omega arith)
relay-IsRelayed (suc rounds) answers k [] c h = sym (append-nil _)
relay-IsRelayed (suc rounds) answers k (b ∷ output) c h =
    elim (Bool-cases (ltb most_waiting (length c.pending))) [
      | inl e ↦ rw e (
        [],
        take piece_size (b ∷ output),
        drop piece_size (b ∷ output),
        sym (append-nil _),
        refl,
        take-append-drop piece_size (b ∷ output),
        omega arith,
        ltb→lt (4 * 1024 * 1024) (length c.pending) e,
      )
      | inr e ↦
          let piece : List ℕ = take piece_size (b ∷ output) in
          let left : List ℕ = drop piece_size (b ∷ output) in
          let answered : Conn × Sent = ssl_send_response (answers k) piece c in
          let rest : Conn → Relayed = relay rounds answers (k + 1) left in
          let sent =
            after_piece-IsRelayed answers piece left rest c answered
              (ssl_send_response-Adds (answers k) piece c)
              (λ c' f. ssl_send_response-HasFailed answers k piece c c' f)
              (λ c'.
                relay-IsRelayed rounds answers (k + 1) left c'
                  (omega (arith, h, length-drop piece_size (b ∷ output)))) in
          rw e (
            subst (λ l. IsRelayed answers (c.wire ++ c.pending) l (after_piece rest answered))
              (take-append-drop piece_size (b ∷ output)) sent)
    ]
