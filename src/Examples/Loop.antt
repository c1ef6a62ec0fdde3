-- ===== src/Examples/Loop.antt =====
-- Concrete inputs for the event loop and the files of the HTTP server.
use caligo_engine.Base.{
  List, true, false, ℕ, zero, suc, ◌≡◌, ◌≢◌, refl, subst, none, some, [], ◌∷◌, map, arith,
}
use mathlib.Core.Option.{some-injective}
use caligo_engine.Base.Store.{Store, put}
use caligo_engine.Base.Text.{codes, contains, find_sub, is_prefix, c_str}
use caligo_engine.Http.Serve.{read_request, proxying}
use caligo_engine.Http.Loop.{
  ClientState, World, received, again, took, broken, read_loop, on_readable, cleanup_client,
  proxy_loop,
}
use caligo_engine.Http.Loop.{
  Accepted, accept_loop, accept_client, create_client_state, unregisters, closes, on_state, receive,
  take_in, next_round, after_round, close_too_large, unregister,
}
use caligo_engine.Http.Loop.Runs.{Reaches, stays, accepts, reads, Reaches-IsPaired}
use caligo_engine.Http.Loop.Pairs.{peer_of, IsOpen, IsPaired, IsCleaned, cleanup_client-IsCleaned}
use caligo_engine.Http.Loop.Reading.{IsRead, read_loop-IsRead}
use caligo_engine.Http.Loop.Events.{Reaction, on_readable-Reaction}
use caligo_engine.Http.Loop.Forwarding.{Safe, proxy_loop-Safe}

abbrev reader : ClientState
reader = record { fd = some 5; buffer = codes "GET"; state = read_request; peer = none }

abbrev alone : Store ClientState
alone zero = some reader
alone (suc j) = none

alone-IsPaired : IsPaired alone
alone-IsPaired = record { is_open = opens; matched = matches }
  where
    opens : (j : ℕ) → IsOpen (alone j)
    opens zero = (5, refl)
    opens (suc j) = tt

    matches : (j p : ℕ) → peer_of (alone j) ≡ some p → (peer_of (alone p) ≡ some j) × (p ≢ j)
    matches zero p e = absurd (let h : none ≡ some p = e in cc)
    matches (suc j) p e = absurd (let h : none ≡ some p = e in cc)

abbrev one_client : World
one_client = record { heap = alone; queued = 9 ∷ []; calls = [] }

read_loop-IsRead_example :
    IsRead reader
      (codes " / " ∷ codes "\r\n\r\n" ∷ [])
      (read_loop (map received (codes " / " ∷ codes "\r\n\r\n" ∷ [])) reader)
read_loop-IsRead_example =
    read_loop-IsRead (codes " / " ∷ codes "\r\n\r\n" ∷ []) reader (omega arith, (omega arith, tt))
      (omega arith) (unfold contains find_sub is_prefix c_str in refl)

on_readable-Reaction_example :
    Reaction 0 one_client
      (on_readable 0 ((received (codes " / \r\n\r\n"), took 0) ∷ []) one_client)
      (read_loop (received (codes " / \r\n\r\n") ∷ []) reader)
on_readable-Reaction_example =
    on_readable-Reaction 0 ((received (codes " / \r\n\r\n"), took 0) ∷ []) one_client reader
      alone-IsPaired refl refl

abbrev browser : ClientState
browser = record { fd = some 5; buffer = []; state = proxying; peer = some 1 }

abbrev upstream : ClientState
upstream = record { fd = some 6; buffer = []; state = proxying; peer = some 0 }

abbrev two : Store ClientState
two zero = some browser
two (suc zero) = some upstream
two (suc (suc j)) = none

two-IsPaired : IsPaired two
two-IsPaired = record { is_open = opens; matched = matches }
  where
    opens : (j : ℕ) → IsOpen (two j)
    opens zero = (5, refl)
    opens (suc zero) = (6, refl)
    opens (suc (suc j)) = tt

    matches : (j p : ℕ) → peer_of (two j) ≡ some p → (peer_of (two p) ≡ some j) × (p ≢ j)
    matches zero p e =
        subst (λ q. (peer_of (two q) ≡ some 0) × (q ≢ 0)) (some-injective 1 p e)
          (refl, λ f. omega arith)
    matches (suc zero) p e =
        subst (λ q. (peer_of (two q) ≡ some 1) × (q ≢ 1)) (some-injective 0 p e)
          (refl, λ f. omega arith)
    matches (suc (suc j)) p e = absurd (let h : none ≡ some p = e in cc)

abbrev bridged : World
bridged = record { heap = two; queued = []; calls = [] }

cleanup_client-IsCleaned_example :
    (w : World) × (cleanup_client 0 bridged ≡ some w) × IsCleaned 0 bridged w
cleanup_client-IsCleaned_example = cleanup_client-IsCleaned 0 bridged browser two-IsPaired refl

proxy_loop-Safe_example : Safe (
    proxy_loop 0
      ((received (codes "ping"), took 4) ∷ (received (codes "pong"), broken) ∷ (again, took 0) ∷ [])
      bridged)
proxy_loop-Safe_example =
    proxy_loop-Safe 0
      ((received (codes "ping"), took 4) ∷ (received (codes "pong"), broken) ∷ (again, took 0) ∷ [])
      bridged browser two-IsPaired refl

-- Two connections, of which epoll takes the first.
abbrev arrivals : List Accepted
arrivals =
    record { fd = 7; address = 3; registers = true }
    ∷ record { fd = 8; address = 4; registers = false }
    ∷ []

abbrev with_arrivals : World
with_arrivals = accept_loop arrivals one_client

abbrev after_request : World
after_request = record {
  heap = put 0 (some (record reader { buffer = codes "GET / \r\n\r\n" })) with_arrivals.heap;
  queued = 9 ∷ 0 ∷ [];
  calls = closes 8 ∷ unregisters 5 ∷ [];
}

arrivals_then_request : Reaches one_client after_request
unfolding on_readable on_state read_loop receive take_in next_round after_round close_too_large
    unregister accept_loop accept_client create_client_state contains find_sub is_prefix c_str
arrivals_then_request =
    reads 0 ((received (codes " / \r\n\r\n"), took 0) ∷ [])
      (accepts arrivals stays (refl, (refl, tt))) refl

Reaches-IsPaired_example : IsPaired after_request.heap
Reaches-IsPaired_example =
    Reaches-IsPaired one_client after_request arrivals_then_request alone-IsPaired
