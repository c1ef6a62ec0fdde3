-- ===== src/Http/Loop/Forwarding.antt =====
-- The loop that forwards: it touches no memory that is freed, and sends the peer the pieces in order.
use caligo_engine.Base.{
  ℕ, ◌≤◌, ◌<◌, ◌≡◌, refl, sym, ap, ◌∙◌, subst, Bool, true, false, Option, none, some, List, [], ◌∷◌,
  ◌++◌, map, length, take, take_all, arith, append_assoc, append-nil,
}
use caligo_engine.Base.Store.{Store}
use caligo_engine.Http.Loop.{
  ClientState, World, buffer_size, cleanup_client, Received, received, again, failed, Call, sends,
  Sent, took, full, broken, forward, ends_with, to_peer, proxy_round, next_piece, proxy_loop,
}
use caligo_engine.Http.Loop.Pairs.{IsPaired, peer_of, cleanup_client-IsCleaned, peer_there}

-- A world with peers matched.
abbrev pub Safe : Option World → Type 0
Safe o = (w' : World) × (o ≡ some w') × IsPaired w'.heap

abbrev SafeRound : World → Option (Bool × World) → Type 0
SafeRound w o =
    (more : Bool) × ((w' : World) × (o ≡ some (more, w'))
      × IsPaired w'.heap
      × (more ≡ true → w'.heap ≡ w.heap))

cleaned_round :
    (at : ℕ) (w : World) (c : ClientState)
    → IsPaired w.heap
    → w.heap at ≡ some c
    → SafeRound w (ends_with (cleanup_client at w))
unfolding ends_with
cleaned_round at w c v here =
    let (w', done, cleaned) = cleanup_client-IsCleaned at w c v here in
    rw done (false, (w', refl, cleaned.paired, λ e. cc))

forward-SafeRound :
    (at : ℕ) (other : ClientState) (sent : Sent) (bytes : List ℕ) (w : World) (c : ClientState)
    → IsPaired w.heap
    → w.heap at ≡ some c
    → SafeRound w (forward at other sent bytes w)
unfolding forward
forward-SafeRound at other (took n) bytes w c v here =
    (true, (record w { calls = w.calls ++ sends other.fd (take n bytes) ∷ [] }, refl, v, λ _. refl))
forward-SafeRound at other full bytes w c v here = (false, (w, refl, v, λ e. cc))
forward-SafeRound at other broken bytes w c v here = cleaned_round at w c v here

to_peer-SafeRound :
    (at : ℕ) (peer : Option ℕ) (sent : Sent) (bytes : List ℕ) (w : World) (c : ClientState)
    → IsPaired w.heap
    → w.heap at ≡ some c
    → c.peer ≡ peer
    → SafeRound w (to_peer at peer sent bytes w)
unfolding to_peer
to_peer-SafeRound at none sent bytes w c v here e = (true, (w, refl, v, λ _. refl))
to_peer-SafeRound at (some p) sent bytes w c v here e =
    let (other, there) = peer_there w.heap at p v (ap peer_of here ∙ e) in
    rw (there, to_peer) (forward-SafeRound at other sent bytes w c v here)

proxy_round-SafeRound :
    (at : ℕ) (got : Received) (sent : Sent) (w : World) (c : ClientState)
    → IsPaired w.heap
    → w.heap at ≡ some c
    → SafeRound w (proxy_round at got sent w)
unfolding proxy_round
proxy_round-SafeRound at again sent w c v here = (false, (w, refl, v, λ e. cc))
proxy_round-SafeRound at failed sent w c v here = cleaned_round at w c v here
proxy_round-SafeRound at (received []) sent w c v here = cleaned_round at w c v here
proxy_round-SafeRound at (received (b ∷ bytes)) sent w c v here =
    rw (here, proxy_round)
      (to_peer-SafeRound at c.peer sent (take buffer_size (b ∷ bytes)) w c v here refl)

next_piece-Safe :
    (rest : World → Option World) (o : Option (Bool × World)) (more : Bool) (w w' : World)
    → o ≡ some (more, w')
    → IsPaired w'.heap
    → (more ≡ true → w'.heap ≡ w.heap)
    → ((w1 : World) → w1.heap ≡ w.heap → Safe (rest w1))
    → Safe (next_piece rest o)
unfolding next_piece
next_piece-Safe rest o true w w' e v same f = rw e (f w' (same refl))
next_piece-Safe rest o false w w' e v same f = rw e (w', refl, v)

-- Whatever recv and send answer, the loop of a client whose peer is matched accesses no memory that
-- is freed, and ends with peers matched.
pub proxy_loop-Safe :
    (at : ℕ) (answers : List (Received × Sent)) (w : World) (c : ClientState)
    → IsPaired w.heap
    → w.heap at ≡ some c
    → Safe (proxy_loop at answers w)
unfolding proxy_loop
proxy_loop-Safe at [] w c v here = (w, refl, v)
proxy_loop-Safe at ((got, sent) ∷ answers) w c v here =
    let (more, rest) = proxy_round-SafeRound at got sent w c v here in
    let (w', done, paired, same) = rest in
    next_piece-Safe (proxy_loop at answers) (proxy_round at got sent w) more w w' done paired same
      (λ w1 e.
        proxy_loop-Safe at answers w1 c (subst IsPaired (sym e) v)
          (ap (λ (h : Store ClientState). h at) e ∙ here))

-- Pieces that a buffer holds, and none is empty.
abbrev pub AreShort : List (List ℕ) → Type 0
AreShort [] = Unit
AreShort (s ∷ pieces) = (0 < length s) × (length s ≤ buffer_size) × AreShort pieces

proxy_round-piece :
    (at p b : ℕ) (s : List ℕ) (w : World) (client peer : ClientState)
    → length (b ∷ s) ≤ buffer_size
    → w.heap at ≡ some client
    → client.peer ≡ some p
    → w.heap p ≡ some peer
    → proxy_round at (received (b ∷ s)) (took (length (b ∷ s))) w
      ≡ some (true, record w { calls = w.calls ++ sends peer.fd (b ∷ s) ∷ [] })
unfolding proxy_round to_peer forward
proxy_round-piece at p b s w client peer short here linked there =
    let whole = take_all buffer_size (b ∷ s) short in
    let sent = take_all (length (b ∷ s)) (b ∷ s) (omega arith) in
    rw (here, proxy_round)
      (ap (λ o. to_peer at o (took (length (b ∷ s))) (take buffer_size (b ∷ s)) w) linked
        ∙ rw (there, to_peer)
            (ap (λ (r : List ℕ). forward at peer (took (length (b ∷ s))) r w) whole
              ∙ ap (λ (r : List ℕ). some (true, after r)) sent))
  where
    after : List ℕ → World
    after r = record w { calls = w.calls ++ sends peer.fd r ∷ [] }

-- While every send to the peer takes all of its piece, the peer is sent each piece that arrives, in
-- the order in which they arrive, and nothing else is done.
pub proxy_loop-in_order :
    (at p : ℕ) (pieces : List (List ℕ)) (w : World) (client peer : ClientState)
    → AreShort pieces
    → w.heap at ≡ some client
    → client.peer ≡ some p
    → w.heap p ≡ some peer
    → proxy_loop at (map (λ s. (received s, took (length s))) pieces) w
      ≡ some (record w { calls = w.calls ++ map (sends peer.fd) pieces })
unfolding proxy_loop next_piece
proxy_loop-in_order at p [] w client peer short here linked there = rw (append-nil w.calls) refl
proxy_loop-in_order at p ([] ∷ pieces) w client peer short here linked there =
    absurd (omega (arith, short.0))
proxy_loop-in_order at p ((b ∷ s) ∷ pieces) w client peer short here linked there =
    let answers = map (λ (r : List ℕ). (received r, took (length r))) pieces in
    let w1 : World = record w { calls = w.calls ++ sends peer.fd (b ∷ s) ∷ [] } in
    ap (next_piece (proxy_loop at answers))
      (proxy_round-piece at p b s w client peer short.1 here linked there)
    ∙ (proxy_loop-in_order at p pieces w1 client peer short.2 here linked there
        ∙ ap (λ (calls : List Call). some (record w { calls = calls }))
            (append_assoc w.calls (sends peer.fd (b ∷ s) ∷ []) (map (sends peer.fd) pieces)))
