-- ===== src/Http/Loop/Events.antt =====
-- What a readable descriptor does to the heap: every peer stays matched, and where memory is used
-- after cleanup_client has freed it.
use caligo_engine.Base.{
  ℕ, ◌-◌, ◌≤◌, ◌≡◌, ◌≢◌, ◌↔◌, refl, sym, ap, ◌∙◌, subst, Option, none, some, List, [], ◌∷◌, ◌++◌,
  map, length, leb, ltb, take, arith, Bool-cases, inl, inr,
}
use caligo_engine.Base.Store.{Store, put, put_self, put_other}
use caligo_engine.Base.Text.{contains, c_str}
use native.Mathlib.Decide.{ℕ_discrete}
use caligo_engine.Http.Serve.{read_request}
use caligo_engine.Http.Loop.{
  ClientState, World, buffer_size, Received, received, again, failed, Round, goes_on, stops, cleans,
  queues, take_in, receive, next_round, read_loop, header_end, close_too_large, unregister,
  and_then, after_round, Sent, on_state, on_readable,
}
use caligo_engine.Http.Loop.Pairs.{IsPaired, IsOpen, peer_of, cleanup_client-IsCleaned}

-- The client of a round, which has only read more.
abbrev client_of : Round → ClientState
client_of (goes_on c) = c
client_of (stops c) = c
client_of (cleans c) = c
client_of (queues c) = c

abbrev Keeps : ClientState → ClientState → Type 0
Keeps c d = (d.fd ≡ c.fd) × (d.peer ≡ c.peer)

take_in-Keeps : (bytes : List ℕ) (c : ClientState) → Keeps c (client_of (take_in bytes c))
unfolding take_in
take_in-Keeps [] c = (refl, refl)
take_in-Keeps (b ∷ bytes) c =
    elim (Bool-cases (contains header_end (c_str (c.buffer ++ b ∷ bytes)))) [
      | inl e ↦ rw e (refl, refl)
      | inr e ↦ rw e (refl, refl)
    ]

receive-Keeps : (got : Received) (c : ClientState) → Keeps c (client_of (receive got c))
unfolding receive
receive-Keeps (received bytes) c = take_in-Keeps (take (buffer_size - length c.buffer - 1) bytes) c
receive-Keeps again c = (refl, refl)
receive-Keeps failed c = (refl, refl)

next_round-Keeps :
    (rest : ClientState → Round) (c : ClientState) (round : Round)
    → ((d : ClientState) → Keeps d (client_of (rest d)))
    → Keeps c (client_of round)
    → Keeps c (client_of (next_round rest round))
unfolding next_round
next_round-Keeps rest c (goes_on d) f k = ((f d).0 ∙ k.0, (f d).1 ∙ k.1)
next_round-Keeps rest c (stops d) f k = k
next_round-Keeps rest c (cleans d) f k = k
next_round-Keeps rest c (queues d) f k = k

pub read_loop-Keeps :
    (answers : List Received) (c : ClientState) → Keeps c (client_of (read_loop answers c))
unfolding read_loop
read_loop-Keeps [] c = (refl, refl)
read_loop-Keeps (got ∷ answers) c = elim (Bool-cases (ltb (length c.buffer) (buffer_size - 1))) [
  | inl e ↦ rw e (
      next_round-Keeps (read_loop answers) c (receive got c) (read_loop-Keeps answers)
        (receive-Keeps got c))
  | inr e ↦ rw e (refl, refl)
]

-- A client that keeps its descriptor and its peer may change.
put-IsPaired :
    (heap : Store ClientState) (at : ℕ) (c d : ClientState)
    → IsPaired heap
    → heap at ≡ some c
    → Keeps c d
    → IsPaired (put at (some d) heap)
put-IsPaired heap at c d v here (same_fd, same_peer) = record {
  is_open = opens;
  matched = λ b p e. let m = v.matched b p (sym (peers b) ∙ e) in (peers p ∙ m.0, m.1);
}
  where
    opens : (b : ℕ) → IsOpen (put at (some d) heap b)
    opens b = elim (ℕ_discrete b at) [
      | yes f ↦
          let (fd, e) = subst IsOpen (ap heap f ∙ here) (v.is_open b) in
          subst IsOpen (sym (ap (put at (some d) heap) f ∙ put_self at (some d) heap))
            (fd, same_fd ∙ e)
      | no f ↦ subst IsOpen (sym (put_other at b (some d) heap f)) (v.is_open b)
    ]

    peers : (b : ℕ) → peer_of (put at (some d) heap b) ≡ peer_of (heap b)
    peers b = elim (ℕ_discrete b at) [
      | yes f ↦
          ap (λ k. peer_of (put at (some d) heap k)) f
          ∙ (ap peer_of (put_self at (some d) heap)
              ∙ (same_peer ∙ sym (ap peer_of (ap heap f ∙ here))))
      | no f ↦ ap peer_of (put_other at b (some d) heap f)
    ]

abbrev IsOver : Round → Type 0
IsOver (goes_on c) = ⊥
IsOver (stops c) = Unit
IsOver (cleans c) = Unit
IsOver (queues c) = Unit

next_round-IsOver :
    (rest : ClientState → Round) (round : Round)
    → ((d : ClientState) → IsOver (rest d))
    → IsOver (next_round rest round)
unfolding next_round
next_round-IsOver rest (goes_on d) f = f d
next_round-IsOver rest (stops d) f = tt
next_round-IsOver rest (cleans d) f = tt
next_round-IsOver rest (queues d) f = tt

pub read_loop-IsOver : (answers : List Received) (c : ClientState) → IsOver (read_loop answers c)
unfolding read_loop
read_loop-IsOver [] c = tt
read_loop-IsOver (got ∷ answers) c = elim (Bool-cases (ltb (length c.buffer) (buffer_size - 1))) [
  | inl e ↦ rw e (next_round-IsOver (read_loop answers) (receive got c) (read_loop-IsOver answers))
  | inr e ↦ rw e tt
]

-- The test behind the loop frees a client with a full buffer and does nothing else.
pub record IsTested (at : ℕ) (c : ClientState) (w w' : World) : Type 0 where
  pub waiting : w'.queued ≡ w.queued
  pub paired : IsPaired w'.heap
  pub freed : (w'.heap at ≡ none) ↔ (buffer_size - 1 ≤ length c.buffer)

close_too_large-IsTested :
    (at : ℕ) (c : ClientState) (w : World)
    → IsPaired w.heap
    → w.heap at ≡ some c
    → (w' : World) × (close_too_large at w ≡ some w') × IsTested at c w w'
unfolding close_too_large
close_too_large-IsTested at c w v here =
    elim (Bool-cases (leb (buffer_size - 1) (length c.buffer))) [
      | inl e ↦
          let (w', done, cleaned) = cleanup_client-IsCleaned at w c v here in
          rw (here, close_too_large, e, done)
            (
              w',
              refl,
              record {
                waiting = cleaned.waiting;
                paired = cleaned.paired;
                freed = (λ _. ground arith, λ _. cleaned.gone);
              },
            )
      | inr e ↦
          rw (here, close_too_large, e)
            (
              w,
              refl,
              record {
                waiting = refl;
                paired = v;
                freed = (λ f. absurd (there (sym here ∙ f)), λ f. ground arith);
              },
            )
    ]
  where
    there : {c : ClientState} → some c ≢ none
    there e = cc

-- What a readable client that is reading its request comes to, by the end of its loop.
abbrev pub Reaction : ℕ → World → Option World → Round → Type 0
Reaction at w o (goes_on d) = ⊥
Reaction at w o (cleans d) = o ≡ none
Reaction at w o (stops d) = (w' : World) × (o ≡ some w') × IsTested at d w w'
Reaction at w o (queues d) =
    (w' : World) × (o ≡ some w') × IsTested at d (record w { queued = w.queued ++ at ∷ [] }) w'

pub after_round-Reaction :
    (at : ℕ) (w : World) (c : ClientState) (round : Round)
    → IsPaired w.heap
    → w.heap at ≡ some c
    → Keeps c (client_of round)
    → IsOver round
    → Reaction at w (after_round at w round) round
unfolding after_round and_then close_too_large
after_round-Reaction at w c (goes_on d) v here keeps over = over
after_round-Reaction at w c (stops d) v here keeps over =
    let paired = put-IsPaired w.heap at c d v here keeps in
    let w1 : World = record w { heap = put at (some d) w.heap } in
    let (w', done, tested) =
      close_too_large-IsTested at d w1 paired (put_self at (some d) w.heap) in
    (w', done, record { waiting = tested.waiting; paired = tested.paired; freed = tested.freed })
after_round-Reaction at w c (queues d) v here keeps over =
    let paired = put-IsPaired w.heap at c d v here keeps in
    let w1 : World = record {
      heap = put at (some d) w.heap;
      queued = w.queued ++ at ∷ [];
      calls = w.calls ++ unregister d.fd;
    } in
    let (w', done, tested) =
      close_too_large-IsTested at d w1 paired (put_self at (some d) w.heap) in
    (w', done, record { waiting = tested.waiting; paired = tested.paired; freed = tested.freed })
after_round-Reaction at w c (cleans d) v here keeps over =
    let paired = put-IsPaired w.heap at c d v here keeps in
    let w1 : World = record w { heap = put at (some d) w.heap } in
    let (w', done, cleaned) =
      cleanup_client-IsCleaned at w1 d paired (put_self at (some d) w.heap) in
    rw (done, and_then, close_too_large, cleaned.gone) refl

-- In a heap where peers are matched, the event of a client that reads its request ends, by the end of
-- its loop: after the cleanup of a closed or failed connection, with an access to the client that was
-- freed; after a break, with the queue as it was; after a complete request, with the client queued. In
-- the last two peers are matched still, and the client is freed exactly if its buffer is full, also
-- where it is queued.
pub on_readable-Reaction :
    (at : ℕ) (answers : List (Received × Sent)) (w : World) (c : ClientState)
    → IsPaired w.heap
    → w.heap at ≡ some c
    → c.state ≡ read_request
    → Reaction at w (on_readable at answers w) (read_loop (map (λ a. a.0) answers) c)
unfolding on_readable on_state
on_readable-Reaction at answers w c v here reads =
    rw (here, on_readable)
      (subst
        (λ st. Reaction at w (on_state st at c answers w) (read_loop (map (λ a. a.0) answers) c))
        (sym reads)
        (after_round-Reaction at w c (read_loop (map (λ a. a.0) answers) c) v here
          (read_loop-Keeps (map (λ a. a.0) answers) c)
          (read_loop-IsOver (map (λ a. a.0) answers) c)))
