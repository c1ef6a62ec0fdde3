-- ===== src/Https/Clients/Freed.antt =====
-- What accept and cleanup_client of the HTTPS server leave of a client.
use caligo_engine.Base.{
  ℕ, ◌≡◌, ◌≢◌, refl, sym, ap, subst, ◌∙◌, Bool, true, false, not, ◌||◌, Option, none, some, [], ◌∷◌,
  ◌++◌, append_assoc,
}
use caligo_engine.Base.Store.{put, put_self, put_other}
use caligo_engine.Https.Outbox.{Watch}
use caligo_engine.Https.Events.{
  Client, Handshake, finished, wants_read, wants_write, refused, perform_ssl_handshake, watched,
}
use caligo_engine.Https.Clients.{
  ClientState, create_client_state, registers, unregisters, frees_ssl, closes, World, free_ssl,
  free_both, close_client, cleanup_client, after_accept, new_client, accept_client,
}

-- What SSL_accept says of the socket: whether it wants to write, and whether it is refused.
abbrev pub asks_write : Handshake → Bool
asks_write wants_write = true
asks_write finished = false
asks_write wants_read = false
asks_write refused = false

abbrev pub is_refused : Handshake → Bool
is_refused refused = true
is_refused finished = false
is_refused wants_read = false
is_refused wants_write = false

-- The client at an address after its accept: watched for reading, and for writing exactly if SSL_accept
-- wants to write, where it is not refused and epoll_ctl adds it; else it is not there, and its TLS
-- connection and its descriptor are given back.
abbrev pub IsAccepted : Handshake → Bool → ℕ → World → World → Option ClientState → Type 0
IsAccepted answer adds fd w w' none =
    (w'.calls ≡ w.calls ++ unregisters fd ∷ frees_ssl fd ∷ closes fd ∷ [])
    × ((is_refused answer || not adds) ≡ true)
IsAccepted answer adds fd w w' (some c) =
    (c.client.conn.watch ≡ record { for_read = true; for_write = asks_write answer; once = true })
    × (w'.calls ≡ w.calls ++ registers fd ∷ [])
    × ((is_refused answer || not adds) ≡ false)

-- A client without a peer is freed.
cleanup_client-alone :
    (at : ℕ) (c : ClientState) (w : World)
    → w.heap at ≡ some c
    → c.peer ≡ none
    → cleanup_client at w
      ≡ some (record { heap = put at none w.heap; calls = w.calls ++ close_client c })
unfolding cleanup_client free_both
cleanup_client-alone at c w here alone = rw (here, cleanup_client, alone, free_both) refl

cleanup_client-IsAccepted :
    (answer : Handshake) (adds : Bool) (at : ℕ) (c : ClientState) (w : World)
    → c.peer ≡ none
    → c.client.conn.ssl ≡ true
    → (is_refused answer || not adds) ≡ true
    → (w' : World) × (cleanup_client at (record w { heap = put at (some c) w.heap }) ≡ some w')
      × IsAccepted answer adds c.fd w w' (w'.heap at)
unfolding close_client free_ssl
cleanup_client-IsAccepted answer adds at c w alone tls why =
    let start : World = record w { heap = put at (some c) w.heap } in
    let w' : World = record { heap = put at none start.heap; calls = w.calls ++ close_client c } in
    (
      w',
      cleanup_client-alone at c start (put_self at (some c) w.heap) alone,
      subst (IsAccepted answer adds c.fd w w') (sym (put_self at none start.heap))
          (ap (λ b. w.calls ++ unregisters c.fd ∷ (free_ssl b c.fd ++ closes c.fd ∷ [])) tls, why),
    )

-- A connection whose handshake is not refused.
added-IsAccepted :
    (answer : Handshake) (adds : Bool) (at : ℕ) (c : ClientState) (client : Client) (w : World)
    → c.peer ≡ none
    → client.conn.ssl ≡ true
    → client.ssl_want_write ≡ asks_write answer
    → is_refused answer ≡ false
    → (w' : World) × (after_accept adds at c (client, true) w ≡ some w')
      × IsAccepted answer adds c.fd w w' (w'.heap at)
unfolding after_accept watched
added-IsAccepted answer false at c client w alone tls asks accepted =
    cleanup_client-IsAccepted answer false at (record c { client = client }) w alone tls
      (ap (λ b. b || true) accepted)
added-IsAccepted answer true at c client w alone tls asks accepted =
    let watch : Watch = record {
      for_read = true;
      for_write = client.ssl_want_write;
      once = true;
    } in
    let c' : ClientState = record c { client = watched watch client } in
    let w' : World = record {
      heap = put at (some c') w.heap;
      calls = w.calls ++ registers c.fd ∷ [];
    } in
    (
      w',
      refl,
      subst (IsAccepted answer true c.fd w w') (sym (put_self at (some c') w.heap)) (
        ap (λ b. record { for_read = true; for_write = b; once = true }) asks,
        refl,
        ap (λ b. b || false) accepted,
      ),
    )

-- Whatever SSL_accept and epoll_ctl answer: a connection that is accepted, whose handshake is not refused
-- and which epoll_ctl adds is watched for reading, and for writing exactly if SSL_accept wants to
-- write; any other has its TLS connection freed, its descriptor closed and its state freed.
pub accept_client-IsAccepted :
    (answer : Handshake) (adds : Bool) (at fd : ℕ) (w : World)
    → (w' : World) × (accept_client answer adds at fd w ≡ some w')
      × IsAccepted answer adds fd w w' (w'.heap at)
unfolding accept_client new_client create_client_state perform_ssl_handshake after_accept
accept_client-IsAccepted finished adds at fd w =
    added-IsAccepted finished adds at (new_client fd) _ w refl refl refl refl
accept_client-IsAccepted wants_read adds at fd w =
    added-IsAccepted wants_read adds at (new_client fd) _ w refl refl refl refl
accept_client-IsAccepted wants_write adds at fd w =
    added-IsAccepted wants_write adds at (new_client fd) _ w refl refl refl refl
accept_client-IsAccepted refused adds at fd w =
    cleanup_client-IsAccepted refused adds at
      (record (new_client fd) { client = record (new_client fd).client { ssl_want_write = false } })
      w refl refl refl

-- What cleanup_client does to two clients that are peers: both are freed, the others are as they were,
-- and of the TLS connections only that of the first is freed.
pub record AreFreed (at peer : ℕ) (c other : ClientState) (w w' : World) : Type 0 where
  pub first : w'.heap at ≡ none
  pub second : w'.heap peer ≡ none
  pub same : (b : ℕ) → b ≢ at → b ≢ peer → w'.heap b ≡ w.heap b
  pub given_back :
      w'.calls
      ≡ w.calls
        ++ unregisters c.fd
          ∷ (free_ssl c.client.conn.ssl c.fd
              ++ closes c.fd ∷ unregisters other.fd ∷ closes other.fd ∷ [])

-- A client with a peer that is there is freed with its peer: both descriptors are taken off epoll and
-- closed once, no other client changes, and no freed memory is used. A TLS connection of the peer is
-- not freed.
pub cleanup_client-AreFreed :
    (at peer : ℕ) (c other : ClientState) (w : World)
    → at ≢ peer
    → w.heap at ≡ some c
    → w.heap peer ≡ some other
    → c.peer ≡ some peer
    → (w' : World) × (cleanup_client at w ≡ some w') × AreFreed at peer c other w w'
unfolding cleanup_client free_both close_client
cleanup_client-AreFreed at peer c other w apart here there linked =
    let w' : World = record {
      heap = put at none (put peer none w.heap);
      calls = (w.calls ++ close_client c) ++ unregisters other.fd ∷ closes other.fd ∷ [];
    } in
    (
      w',
      rw (here, cleanup_client, linked, free_both, there) refl,
      record {
        first = put_self at none (put peer none w.heap);
        second =
            put_other at peer none (put peer none w.heap) (λ e. apart (sym e))
            ∙ put_self peer none w.heap;
        same =
            λ b h g. put_other at b none (put peer none w.heap) h ∙ put_other peer b none w.heap g;
        given_back =
            append_assoc w.calls (close_client c) _
            ∙ ap (λ l. w.calls ++ unregisters c.fd ∷ l)
                (append_assoc (free_ssl c.client.conn.ssl c.fd) (closes c.fd ∷ []) _);
      },
    )
