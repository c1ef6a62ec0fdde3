-- ===== src/Http/Loop/Runs.antt =====
-- Runs of the event loop: accepting and readable clients, in any order.
use caligo_engine.Base.{
  ℕ, ◌≡◌, ◌≢◌, sym, ◌∙◌, subst, Option, none, some, List, map, Option-cases, inl, inr,
}
use mathlib.Core.Option.{some-injective}
use caligo_engine.Http.Serve.{ClientConnState, read_request, proxying}
use caligo_engine.Http.Loop.{
  ClientState, World, Accepted, accept_loop, Received, Sent, Round, goes_on, stops, cleans, queues,
  read_loop, on_state, on_readable,
}
use caligo_engine.Http.Loop.Pairs.{IsPaired}
use caligo_engine.Http.Loop.Accepting.{AreFree, accept_loop-IsPaired}
use caligo_engine.Http.Loop.Events.{
  Reaction, after_round-Reaction, read_loop-Keeps, read_loop-IsOver,
}
use caligo_engine.Http.Loop.Forwarding.{proxy_loop-Safe}

-- A run that uses no freed memory: each step accepts connections at free addresses, or handles a
-- readable client.
pub data Reaches : World → World → Type 0 where
  stays : {w : World} → Reaches w w
  accepts :
      {w v : World} (accepted : List Accepted)
      → Reaches w v
      → AreFree accepted v
      → Reaches w (accept_loop accepted v)
  reads :
      {w v u : World} (at : ℕ) (answers : List (Received × Sent))
      → Reaches w v
      → on_readable at answers v ≡ some u
      → Reaches w u

Reaction-IsPaired :
    (at : ℕ) (w u : World) (o : Option World) (round : Round)
    → Reaction at w o round
    → o ≡ some u
    → IsPaired u.heap
Reaction-IsPaired at w u o (goes_on d) r e = absurd r
Reaction-IsPaired at w u o (cleans d) r e = absurd (clash (sym r ∙ e))
  where
    clash : none ≢ some u
    clash e = cc
Reaction-IsPaired at w u o (stops d) (u', done, tested) e =
    subst (λ (x : World). IsPaired x.heap) (some-injective u' u (sym done ∙ e)) tested.paired
Reaction-IsPaired at w u o (queues d) (u', done, tested) e =
    subst (λ (x : World). IsPaired x.heap) (some-injective u' u (sym done ∙ e)) tested.paired

on_state-IsPaired :
    (s : ClientConnState) (at : ℕ) (c : ClientState) (answers : List (Received × Sent))
    (w u : World)
    → IsPaired w.heap
    → w.heap at ≡ some c
    → on_state s at c answers w ≡ some u
    → IsPaired u.heap
unfolding on_state
on_state-IsPaired read_request at c answers w u v here e =
    let got = map (λ a. a.0) answers in
    Reaction-IsPaired at w u _ (read_loop got c)
      (after_round-Reaction at w c (read_loop got c) v here (read_loop-Keeps got c)
        (read_loop-IsOver got c))
      e
on_state-IsPaired proxying at c answers w u v here e =
    let (u', done, paired) = proxy_loop-Safe at answers w c v here in
    subst (λ (x : World). IsPaired x.heap) (some-injective u' u (sym done ∙ e)) paired

on_readable-IsPaired :
    (at : ℕ) (answers : List (Received × Sent)) (w u : World)
    → IsPaired w.heap
    → on_readable at answers w ≡ some u
    → IsPaired u.heap
unfolding on_readable
on_readable-IsPaired at answers w u v e = elim (Option-cases (w.heap at)) [
  | inl gone ↦ absurd (let h = rw (gone, on_readable) at e in cc)
  | inr (c, here) ↦ on_state-IsPaired c.state at c answers w u v here (rw (here, on_readable) at e)
]

-- Through any run of the event loop that uses no freed memory, every client keeps its descriptor and
-- stays matched with its peer, if that is so at the start.
pub Reaches-IsPaired : (w u : World) → Reaches w u → IsPaired w.heap → IsPaired u.heap
Reaches-IsPaired w u stays v = v
Reaches-IsPaired w u (accepts {v = x} accepted run free) v =
    accept_loop-IsPaired accepted x (Reaches-IsPaired w x run v) free
Reaches-IsPaired w u (reads {v = x} at answers run e) v =
    on_readable-IsPaired at answers x u (Reaches-IsPaired w x run v) e
