-- ===== src/Https/Events/Watched.antt =====
-- Whether a client is watched after its events.
use caligo_engine.Base.{
  ℕ, ◌+◌, ◌-◌, ◌<◌, ◌≡◌, refl, ap, subst, ◌∙◌, Bool, true, false, ◌||◌, Option, none, some, List,
  [], ◌∷◌, ◌++◌, length, take, ltb, leb, is_some, if◌then◌else◌, arith, Bool-cases, inl, inr,
  le→leb, ltb_false→le, lt→ltb,
}
use caligo_engine.Base.Text.{contains, c_str}
use caligo_engine.Https.Outbox.{
  Answer, Watch, asleep, Conn, goes_on, flush_pending, flush_pending_write, next_chunk, after_flush,
  on_writable, send_file,
}
use caligo_engine.Https.Outbox.Order.{content, Carries, send_file-Carries, after_events}
use caligo_engine.Https.Outbox.Progress.{weight, remaining}
use caligo_engine.Https.Outbox.Stall.{report-once}
use caligo_engine.Https.Events.{
  buffer_size, ClientConnState, ssl_handshake, read_request, proxying, Client, Fate, kept, queued,
  gone, used_freed, queued_freed, Handshake, finished, wants_read, wants_write, refused,
  perform_ssl_handshake, watched, rearm_client, after_handshake, handshake, Received, received,
  wants, closed, header_end, take_in, check_size, read_loop, Passed, passed, full, broken, pass_up,
  from_browser, Answers, on_state, on_readable, is_waiting, after_work,
}

-- A client that is there is watched for reading, and for writing if OpenSSL wants to write.
abbrev pub IsWatched : Fate → Type 0
IsWatched (kept c) = (c.conn.watch.for_read ≡ true) × (c.conn.watch.for_write ≡ c.ssl_want_write)
IsWatched (queued c) = Unit
IsWatched gone = Unit
IsWatched used_freed = Unit
IsWatched queued_freed = Unit

rearm_client-IsWatched : (registers : Bool) (c : Client) → IsWatched (rearm_client registers c)
unfolding rearm_client watched
rearm_client-IsWatched true c = (refl, refl)
rearm_client-IsWatched false c = tt

handshake-IsWatched :
    (registers : Bool) (answer : Handshake) (c : Client) → IsWatched (handshake registers answer c)
unfolding handshake perform_ssl_handshake after_handshake
handshake-IsWatched registers finished c = rearm_client-IsWatched registers _
handshake-IsWatched registers wants_read c = rearm_client-IsWatched registers _
handshake-IsWatched registers wants_write c = rearm_client-IsWatched registers _
handshake-IsWatched registers refused c = tt

from_browser-IsWatched :
    (registers : Bool) (got : Received) (sent : Passed) (c : Client)
    → IsWatched (from_browser registers got sent c)
unfolding from_browser pass_up
from_browser-IsWatched registers (received b bytes) passed c = rearm_client-IsWatched registers _
from_browser-IsWatched registers (received b bytes) full c = rearm_client-IsWatched registers _
from_browser-IsWatched registers (received b bytes) broken c = tt
from_browser-IsWatched registers (wants write) sent c = rearm_client-IsWatched registers _
from_browser-IsWatched registers closed sent c = tt

-- A fate of the loop: watched, or with a full buffer.
abbrev IsReady : Fate → Type 0
IsReady fate = IsWatched (check_size fate)

ready : (fate : Fate) → IsWatched fate → IsReady fate
unfolding check_size
ready (kept c) v = elim (Bool-cases (leb (buffer_size - 1) (length c.buffer))) [
  | inl e ↦ rw e tt
  | inr e ↦ rw e v
]
ready (queued c) v = elim (Bool-cases (leb (buffer_size - 1) (length c.buffer))) [
  | inl e ↦ rw e tt
  | inr e ↦ rw e tt
]
ready gone v = tt
ready used_freed v = tt
ready queued_freed v = tt

filled : (c : Client) → ltb (length c.buffer) (buffer_size - 1) ≡ false → IsReady (kept c)
unfolding check_size
filled c e =
    rw
      (le→leb (buffer_size - 1) (length c.buffer)
        (ltb_false→le (length c.buffer) (buffer_size - 1) e))
      tt

-- The loop, where there is room for the next call.
room :
    (c : Client) (fate : Fate)
    → IsReady fate
    → IsReady (if ltb (length c.buffer) (buffer_size - 1) then fate else kept c)
room c fate v = elim (Bool-cases (ltb (length c.buffer) (buffer_size - 1))) [
  | inl e ↦ rw e v
  | inr e ↦ rw e (filled c e)
]

read_loop-IsReady :
    (registers : Bool) (answers : List Received) (c : Client)
    → IsReady (read_loop registers answers c)
unfolding read_loop
read_loop-IsReady registers [] c = ready _ (rearm_client-IsWatched registers _)
read_loop-IsReady registers (wants write ∷ answers) c =
    room c _ (ready _ (rearm_client-IsWatched registers _))
read_loop-IsReady registers (closed ∷ answers) c = room c gone (ready gone tt)
read_loop-IsReady registers (received b bytes ∷ answers) c =
    room c _
      (chosen (contains header_end (c_str c'.buffer)) _ (read_loop-IsReady registers answers c'))
  where
    c' : Client
    c' = take_in (take (buffer_size - length c.buffer - 1) (b ∷ bytes)) c

    chosen : (b : Bool) (rest : Fate) → IsReady rest → IsReady (if b then queued c' else rest)
    chosen true rest v = ready (queued c') tt
    chosen false rest v = v

-- In each of its states, and whatever OpenSSL, send and epoll_ctl answer, a client that is still there
-- after it was readable, and not queued, is watched for reading, and for writing exactly if OpenSSL
-- wants to write.
pub on_readable-IsWatched : (a : Answers) (c : Client) → IsWatched (on_readable a c)
unfolding on_readable on_state
on_readable-IsWatched a c = by_state c.state
  where
    by_state : (s : ClientConnState) → IsWatched (on_state s a c)
    by_state ssl_handshake = handshake-IsWatched a.registers a.accept c
    by_state read_request = read_loop-IsReady a.registers a.reads c
    by_state proxying = from_browser-IsWatched a.registers a.read a.sent c

on_writable_idle :
    (first second : Answer) (c : Conn)
    → c.pending ≡ []
    → c.file_stream ≡ none
    → c.watch.once ≡ true
    → on_writable first second c ≡ goes_on (record c { watch = asleep })
unfolding on_writable flush_pending_write after_flush next_chunk flush_pending
on_writable_idle first second c idle no_file once = rw (report-once c once) (
    ap (λ p. after_flush second (flush_pending p first c')) idle
    ∙ ap (λ f. next_chunk second f c') no_file)
  where
    c' : Conn
    c' = record c { watch = asleep }

-- A handshake that wants to write is watched for writing; but a client with nothing to send, found
-- writable, is not watched for anything any more, and its handshake is where it was.
pub handshake_stalls :
    (first second : Answer) (c : Client)
    → c.state ≡ ssl_handshake
    → c.conn.pending ≡ []
    → c.conn.file_stream ≡ none
    → (c' : Client) × (handshake true wants_write c ≡ kept c')
      × (c'.conn.watch.for_write ≡ true)
      × (c'.state ≡ ssl_handshake)
      × (on_writable first second c'.conn ≡ goes_on (record c'.conn { watch = asleep }))
unfolding handshake perform_ssl_handshake after_handshake rearm_client watched
handshake_stalls first second c shaking idle no_file =
    let watch : Watch = record { for_read = true; for_write = true; once = true } in
    let conn : Conn = record c.conn { watch = watch } in
    (
      record c { conn = conn; ssl_want_write = true },
      refl,
      refl,
      shaking,
      on_writable_idle first second conn idle no_file refl,
    )

waits :
    (pending : List ℕ) (file : Option (List ℕ)) (want_write : Bool)
    → 0 < length pending + remaining file
    → ((ltb 0 (length pending) || is_some file) || want_write) ≡ true
waits [] none want_write h = absurd (omega arith)
waits [] (some file) want_write h = refl
waits (x ∷ xs) file want_write h = rw (lt→ltb 0 (length (x ∷ xs)) (omega arith)) refl

-- When serve_static_file, called with nothing waiting, has not sent all, the client that handle_work
-- leaves is watched for writing, and what it has sent, keeps waiting and has yet to read makes up the
-- header and the file, in order.
pub after_work-send_file :
    (answers : ℕ → Answer) (header file : List ℕ) (c : Client) (sent : Conn)
    → c.conn.pending ≡ []
    → send_file answers header file c.conn ≡ goes_on sent
    → 0 < weight sent
    → (c' : Client) × (after_work true (record c { conn = sent }) ≡ kept c')
      × (c'.conn.watch.for_write ≡ true)
      × (content c'.conn ≡ c.conn.wire ++ (header ++ file))
unfolding after_work is_waiting watched send_file after_events
after_work-send_file answers header file c sent idle served left =
    let watch : Watch = record { for_read = true; for_write = true; once = true } in
    let carried = send_file-Carries answers header file [] c.conn idle in
    rw (waits sent.pending sent.file_stream c.ssl_want_write left) (
      record c { conn = record sent { watch = watch } },
      refl,
      refl,
      subst (Carries (c.conn.wire ++ (header ++ file))) served carried,
    )
