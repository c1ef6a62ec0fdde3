-- ===== src/Examples/Https.antt =====
-- Concrete inputs for the write buffer of the HTTPS server.
use caligo_engine.Base.{
  ℕ, zero, suc, ◌≡◌, refl, true, false, none, some, List, [], ◌∷◌, ◌++◌, arith, replicate,
  length-replicate, length-take,
}
use caligo_engine.Base.Text.{codes}
use caligo_engine.Https.Clients.{World, accept_client}
use caligo_engine.Https.Clients.Freed.{IsAccepted, accept_client-IsAccepted}
use caligo_engine.Https.Events.{wants_write}
use caligo_engine.Https.Tunnel.{
  Tunnel, received, stays, hold_back, pass_on, receive, unless_waiting, from_upstream, wake,
  flushed, to_browser,
}
use caligo_engine.Https.Tunnel.Flow.{
  IsFlowing, Flows, Event, upstream_readable, browser_writable, step, steps, said_during,
  AreFitting, steps-Flows,
}
use caligo_engine.Https.Outbox.{
  report, flush_pending_write, flush_pending, Answer, took, again, Conn, send_file, on_writable,
  read_chunk,
}
use caligo_engine.Https.Outbox.Order.{Carries, after_events, send_file-Carries}
use caligo_engine.Https.Outbox.Stall.{IsStalled, on_writable_whole-IsStalled}

abbrev fresh : Conn
fresh = record {
  ssl = true;
  wire = [];
  pending = [];
  file_stream = none;
  is_cgi = false;
  watch = record { for_read = true; for_write = false; once = true };
}

abbrev busy : Conn
busy = record fresh { pending = codes "abc"; file_stream = some (codes "de") }

-- The header goes out in part, the rest has to wait.
abbrev first_part : ℕ → Answer
first_part zero = took 3
first_part (suc k) = again

send_file-Carries_example : Carries ([] ++ (codes "HTTP/1.1 200" ++ codes "body")) (
    after_events
      ((took 4, took 9) ∷ (again, again) ∷ [])
      (send_file first_part (codes "HTTP/1.1 200") (codes "body") fresh))
send_file-Carries_example =
    send_file-Carries first_part (codes "HTTP/1.1 200") (codes "body")
      ((took 4, took 9) ∷ (again, again) ∷ []) fresh refl

-- A file of 4097 bytes behind three that wait.
abbrev long : Conn
long = record fresh { pending = codes "abc"; file_stream = some (b'd' ∷ replicate 4096 b'e') }

on_writable_whole-IsStalled_example : IsStalled (on_writable (took 3) (took 4096) long)
on_writable_whole-IsStalled_example =
    on_writable_whole-IsStalled 4096 b'd' (replicate 4096 b'e') long refl (omega arith) refl
      (omega (arith, length-replicate {A = ℕ} 4096 b'e'))
      (unfold read_chunk in
        omega (
          arith,
          length-take {A = ℕ} 4096 (b'd' ∷ replicate 4096 b'e'),
          length-replicate {A = ℕ} 4096 b'e',
        ))

abbrev tunnel : Tunnel
tunnel = record {
  browser = fresh;
  on_epoll = true;
  upstream_watch = record { for_read = true; for_write = false; once = false };
}

tunnel-IsFlowing : IsFlowing [] tunnel
tunnel-IsFlowing = record {
  in_order = refl;
  reads = λ _. refl;
  paused = λ h. absurd (omega (arith, h));
}

-- A part of a message goes out, the rest waits, is flushed, and the next message follows.
abbrev talk : List Event
talk =
    upstream_readable (received (codes "hello")) (took 2)
    ∷ browser_writable (took 3)
    ∷ upstream_readable (received (codes "world")) again
    ∷ []

talk-AreFitting : AreFitting talk (stays tunnel)
unfolding AreFitting steps step from_upstream receive unless_waiting pass_on hold_back to_browser
    flushed flush_pending_write flush_pending report wake
talk-AreFitting = (tt, (omega arith, (tt, tt)))

steps-Flows_example : Flows ([] ++ said_during talk (stays tunnel)) (steps talk (stays tunnel))
steps-Flows_example = steps-Flows [] talk (stays tunnel) tunnel-IsFlowing talk-AreFitting

-- No client yet.
abbrev no_clients : World
no_clients = record { heap = λ at. none; calls = [] }

accept_client-IsAccepted_example :
    (w' : World) × (accept_client wants_write true 1 9 no_clients ≡ some w')
    × IsAccepted wants_write true 9 no_clients w' (w'.heap 1)
accept_client-IsAccepted_example = accept_client-IsAccepted wants_write true 1 9 no_clients
