-- ===== src/Radio/Main/Kept.antt =====
-- Where the descriptors of the radio server's clients are.
use caligo_engine.Base.{
  ℕ, zero, suc, ◌+◌, ◌<◌, ◌≡◌, refl, ◌∙◌, Bool, true, false, Option, none, some, List, [], ◌∷◌,
  length, get_or, replicate, arith, length-set, Bool-cases, inl, inr,
}
use caligo_engine.Radio.{
  RingBuffer, RadioClient, Effect, Answers, Sender, has_processed, sender_round, sender_threads,
  no_listeners, add_listener,
}
use caligo_engine.Radio.Main.{
  Station, start, accept_client, accept_loop, Heard, request, again, ended, drop_client, on_client,
  put_closed, after_round, sender_of, sender_turn, broadcaster_turn,
}
use caligo_engine.Radio.Main.Count.{
  count, fds, count_listening, count-unwatch, count_listening-set, count-put_closed, send_all-count,
}

-- The descriptors that accept gives in a run of its loop, in front of those before.
unfoldable pub accepted_in : List (ℕ × Bool) → List ℕ → List ℕ
accepted_in [] accepted = accepted
accepted_in ((client_fd, adds) ∷ clients) accepted = accepted_in clients (client_fd ∷ accepted)

-- The stations that are reached, with the descriptors that accept has given.
pub data Reaches : List ℕ → Station → Type 0 where
  starts : (ring : RingBuffer) → Reaches [] (start ring)
  accepts :
      {accepted : List ℕ} {s : Station} (clients : List (ℕ × Bool))
      → Reaches accepted s
      → Reaches (accepted_in clients accepted) (accept_loop clients s)
  hears :
      {accepted : List ℕ} {s : Station} (heard : Heard) (sends_header allocates : Bool)
      (client_fd : ℕ)
      → 0 < count client_fd s.watching
      → Reaches accepted s
      → Reaches accepted (on_client heard sends_header allocates client_fd s)
  sends_round :
      {accepted : List ℕ} {s : Station} (i : ℕ) (answers : ℕ → Answers) (later : RingBuffer)
      → i < sender_threads
      → Reaches accepted s
      → Reaches accepted (sender_turn i answers later s)
  fills :
      {accepted : List ℕ} {s : Station} (local_buffer : List ℕ)
      → Reaches accepted s
      → Reaches accepted (broadcaster_turn local_buffer s)

-- What a station holds of a descriptor.
unfoldable pub held : ℕ → Station → ℕ
held fd s = count fd s.watching + (count_listening fd s.listeners.lists + count fd s.closed)

-- There is a list for each sender thread, and what is held is what was accepted.
record IsKept (accepted : List ℕ) (s : Station) : Type 0 where
  threads : length s.listeners.lists ≡ sender_threads
  turn : s.listeners.current < sender_threads
  all_held : (fd : ℕ) → held fd s ≡ count fd accepted

count_listening-empty : (fd n : ℕ) → count_listening fd (replicate n []) ≡ 0
unfolding count_listening count
count_listening-empty fd zero = refl
count_listening-empty fd (suc n) = omega (arith, count_listening-empty fd n)

start-IsKept : (ring : RingBuffer) → IsKept [] (start ring)
unfolding start no_listeners held count
start-IsKept ring = record {
  threads = refl;
  turn = omega arith;
  all_held = λ fd. omega (arith, count_listening-empty fd 12);
}

accept_client-IsKept :
    (client_fd : ℕ) (adds : Bool) (accepted : List ℕ) (s : Station)
    → IsKept accepted s
    → IsKept (client_fd ∷ accepted) (accept_client client_fd adds s)
unfolding accept_client held count
accept_client-IsKept client_fd true accepted s v = record {
  threads = v.threads;
  turn = v.turn;
  all_held = λ fd. omega (arith, v.all_held fd);
}
accept_client-IsKept client_fd false accepted s v = record {
  threads = v.threads;
  turn = v.turn;
  all_held = λ fd. omega (arith, v.all_held fd);
}

accept_loop-IsKept :
    (clients : List (ℕ × Bool)) (accepted : List ℕ) (s : Station)
    → IsKept accepted s
    → IsKept (accepted_in clients accepted) (accept_loop clients s)
unfolding accept_loop accepted_in
accept_loop-IsKept [] accepted s v = v
accept_loop-IsKept ((client_fd, adds) ∷ clients) accepted s v =
    accept_loop-IsKept clients (client_fd ∷ accepted) (accept_client client_fd adds s)
      (accept_client-IsKept client_fd adds accepted s v)

drop_client-IsKept :
    (client_fd : ℕ) (accepted : List ℕ) (s : Station)
    → 0 < count client_fd s.watching
    → IsKept accepted s
    → IsKept accepted (drop_client client_fd s)
unfolding drop_client held count
drop_client-IsKept client_fd accepted s h v = record {
  threads = v.threads;
  turn = v.turn;
  all_held = λ fd. omega (arith, v.all_held fd, count-unwatch fd client_fd s.watching h);
}

-- A new listener goes from the watched descriptors to a list.
listens-IsKept :
    (client_fd : ℕ) (accepted : List ℕ) (s : Station)
    → 0 < count client_fd s.watching
    → IsKept accepted s
    → IsKept accepted (on_client request true true client_fd s)
unfolding on_client add_listener held count
listens-IsKept client_fd accepted s h v =
    let c : RadioClient = record { fd = client_fd; read_index = s.ring.write_index } in
    let i = s.listeners.current in
    record {
      threads = length-set s.listeners.lists i _ ∙ v.threads;
      turn = omega arith;
      all_held = λ fd. omega (
        arith,
        v.all_held fd,
        count-unwatch fd client_fd s.watching h,
        count_listening-set fd i s.listeners.lists (c ∷ get_or s.listeners.lists i [])
            (omega (arith, v.threads, v.turn)),
      );
    }

on_client-IsKept :
    (heard : Heard) (sends_header allocates : Bool) (client_fd : ℕ) (accepted : List ℕ)
    (s : Station)
    → 0 < count client_fd s.watching
    → IsKept accepted s
    → IsKept accepted (on_client heard sends_header allocates client_fd s)
unfolding on_client
on_client-IsKept again sends_header allocates client_fd accepted s h v = v
on_client-IsKept ended sends_header allocates client_fd accepted s h v =
    drop_client-IsKept client_fd accepted s h v
on_client-IsKept request false allocates client_fd accepted s h v =
    drop_client-IsKept client_fd accepted s h v
on_client-IsKept request true false client_fd accepted s h v =
    drop_client-IsKept client_fd accepted s h v
on_client-IsKept request true true client_fd accepted s h v =
    listens-IsKept client_fd accepted s h v

-- What a round leaves of the listeners of its thread: each is kept or closed.
abbrev IsShared : List RadioClient → Option (Sender × List Effect) → Type 0
IsShared clients none = Unit
IsShared clients (some (sender, effects)) =
    (fd : ℕ)
    → count fd (fds sender.clients) + count fd (put_closed effects []) ≡ count fd (fds clients)

sender_round-IsShared :
    (answers : ℕ → Answers) (r later : RingBuffer) (s : Sender)
    → IsShared s.clients (sender_round answers r later s)
unfolding sender_round
sender_round-IsShared answers r later s =
    elim (Bool-cases (has_processed s.last_processed r.write_index)) [
      | inl e ↦ rw (e, sender_round) tt
      | inr e ↦ rw (e, sender_round) (λ fd. send_all-count fd answers 0 r.write_index _ _ s.clients)
    ]

after_round-IsKept :
    (i : ℕ) (r : Option (Sender × List Effect)) (accepted : List ℕ) (s : Station)
    → i < sender_threads
    → IsShared (get_or s.listeners.lists i []) r
    → IsKept accepted s
    → IsKept accepted (after_round i r s)
unfolding after_round held
after_round-IsKept i none accepted s h shared v = v
after_round-IsKept i (some (sender, effects)) accepted s h shared v = record {
  threads = length-set s.listeners.lists i sender.clients ∙ v.threads;
  turn = v.turn;
  all_held = λ fd. omega (
    arith,
    v.all_held fd,
    shared fd,
    count-put_closed fd effects s.closed,
    count_listening-set fd i s.listeners.lists sender.clients (omega (arith, h, v.threads)),
  );
}

broadcaster_turn-IsKept :
    (local_buffer : List ℕ) (accepted : List ℕ) (s : Station)
    → IsKept accepted s
    → IsKept accepted (broadcaster_turn local_buffer s)
unfolding broadcaster_turn held
broadcaster_turn-IsKept local_buffer accepted s v = record {
  threads = v.threads;
  turn = v.turn;
  all_held = v.all_held;
}

sender_turn-IsKept :
    (i : ℕ) (answers : ℕ → Answers) (later : RingBuffer) (accepted : List ℕ) (s : Station)
    → i < sender_threads
    → IsKept accepted s
    → IsKept accepted (sender_turn i answers later s)
unfolding sender_turn
sender_turn-IsKept i answers later accepted s h v =
    after_round-IsKept i _ accepted s h (sender_round-IsShared answers s.ring later (sender_of i s))
      v

Reaches-IsKept : (accepted : List ℕ) (s : Station) → Reaches accepted s → IsKept accepted s
Reaches-IsKept _ _ (starts ring) = start-IsKept ring
Reaches-IsKept _ _ (accepts clients r) = accept_loop-IsKept clients _ _ (Reaches-IsKept _ _ r)
Reaches-IsKept _ _ (hears heard sends_header allocates client_fd h r) =
    on_client-IsKept heard sends_header allocates client_fd _ _ h (Reaches-IsKept _ _ r)
Reaches-IsKept _ _ (sends_round i answers later h r) =
    sender_turn-IsKept i answers later _ _ h (Reaches-IsKept _ _ r)
Reaches-IsKept _ _ (fills local_buffer r) =
    broadcaster_turn-IsKept local_buffer _ _ (Reaches-IsKept _ _ r)

-- Whatever the system answers, and in whatever order main, the sender threads and the broadcaster have
-- their turns: a descriptor is watched by epoll, in the lists of the sender threads and closed as often
-- in all as accept has given it. So no client is lost, in two lists, or closed twice.
pub Reaches-held :
    (accepted : List ℕ) (s : Station) (fd : ℕ) → Reaches accepted s → held fd s ≡ count fd accepted
Reaches-held accepted s fd r = (Reaches-IsKept accepted s r).all_held fd
