-- ===== src/Bridge/Session/Alive.antt =====
-- Every pointer that the event loop of the bridge follows leads to a live session.
use caligo_engine.Base.{
  ℕ, zero, suc, ◌<◌, ◌≡◌, refl, lt→ltb, ◌⊎◌, inl, inr, true, false, Option, none, some, List, ◌++◌,
  ◌==◌, arith, Option-cases, Bool-cases,
}
use caligo_engine.Bridge.Session.{
  State, handshake, established, Session, Bridge, update, Effect, Outcome, overrun, endless,
  running, Event, max_events, Found, nothing, dangling_entry, found, on_found, link_target,
  accepted, ready, accept_client, drop_session, open_target, answer_request, client_request,
  forward_client, forward_target, send_frames, serve_client, serve, scan, find_session, use_session,
  step, is_target,
}
use caligo_engine.Base.Text.{contains, c_str}
use caligo_engine.Bridge.Frame.{Stop, finished, overran, out_of_fuel, Forwarded, forward_frames}
use caligo_engine.Bridge.Handshake.{crlf, handshake_response}

-- An entry of `sessions` leads to a live session that has the descriptor.
pub record Owner (b : Bridge) (k id : ℕ) : Type 0 where
  pub session : Session
  pub live : b.heap id ≡ some session
  pub holds : (k ≡ session.client_fd) ⊎ (session.target_fd ≡ some k)

pub record Inv (b : Bridge) : Type 0 where
  pub owner : (k id : ℕ) → b.sessions k ≡ some id → Owner b k id
  pub upgrading :
      (id : ℕ) (s : Session) → b.heap id ≡ some s → s.state ≡ handshake → s.target_fd ≡ none

-- malloc returns no address that is in use.
abbrev pub IsFresh : Bridge → Event → Type 0
IsFresh b (accepted fd fresh) = b.heap fresh ≡ none
IsFresh b (ready fd input socket stack) = Unit {0}

pub accept_client-Inv :
    (b : Bridge) (fd fresh : ℕ) → b.heap fresh ≡ none → Inv b → Inv (accept_client b fd fresh)
unfolding accept_client
accept_client-Inv b fd fresh new v = record {
  owner = λ k id e. elim (Bool-cases (k == fd)) [
    | inl hit ↦ record {
      session = record { client_fd = fd; target_fd = none; state = handshake };
      live = ground arith;
      holds = inl (ground arith);
    }
    | inr miss ↦
        let o = v.owner k id (rw (miss) at e) in
        record { session = o.session; live = ground (arith, o.live); holds = o.holds }
  ];
  upgrading = λ id s e h. ground (arith, v.upgrading id s);
}

drop_session-Inv :
    (b : Bridge) (fd id : ℕ) (s : Session)
    → b.heap id ≡ some s
    → s.client_fd ≡ fd
    → s.state ≡ handshake
    → Inv b
    → Inv (drop_session b fd id)
unfolding drop_session
drop_session-Inv b fd id s live at shaking v = record {
  owner = λ k j e. elim (Bool-cases (k == fd)) [
    | inl hit ↦ absurd (ground arith)
    | inr miss ↦
        let o = v.owner k j (rw (miss) at e) in
        record {
          session = o.session;
          live = ground (arith, o.live, o.holds, v.upgrading id s live shaking);
          holds = o.holds;
        }
  ];
  upgrading = λ j t e h. ground (arith, v.upgrading j t);
}

-- The descriptors of an event, and of the target that it connects, have an entry in the table.
abbrev pub FitsTable : Event → Type 0
FitsTable (accepted fd fresh) = fd < max_events
FitsTable (ready fd input socket stack) =
    (fd < max_events) × ((target : ℕ) → socket ≡ some target → target < max_events)

-- What a step may end in: it never follows a dangling pointer and never leaves the table.
pub data Safe : Outcome → Type 0 where
  stopped : Safe overrun
  hangs : Safe endless
  goes_on : {b : Bridge} {es : List Effect} → Inv b → Safe (running b es)

link_target-Safe :
    (b : Bridge) (fd id : ℕ) (s : Session) (answer : List ℕ) (target : ℕ)
    → b.heap id ≡ some s
    → s.client_fd ≡ fd
    → s.state ≡ handshake
    → Inv b
    → Safe (link_target b fd id answer target)
unfolding link_target
link_target-Safe b fd id s answer target live at shaking v = goes_on (record {
  owner = λ k j e. elim (Bool-cases (k == target)) [
    | inl hit ↦ record {
      session = record { client_fd = fd; target_fd = some target; state = established };
      live = ground arith;
      holds = inr (ground arith);
    }
    | inr miss ↦ kept k j (v.owner k j (rw (miss) at e)) (Bool-cases (j == id))
  ];
  upgrading = λ j t e h. ground (arith, v.upgrading j t);
})
  where
    next : Bridge
    next = record {
      heap =
          update b.heap id
            (some (record { client_fd = fd; target_fd = some target; state = established }));
      sessions = update b.sessions target (some id);
    }

    kept : (k j : ℕ) → Owner b k j → ((j == id) ≡ true) ⊎ ((j == id) ≡ false) → Owner next k j
    kept k j o (inl same) = record {
      session = record { client_fd = fd; target_fd = some target; state = established };
      live = ground arith;
      holds = inl (ground (arith, o.live, o.holds, v.upgrading id s live shaking));
    }
    kept k j o (inr other) = record {
      session = o.session;
      live = ground (arith, o.live);
      holds = o.holds;
    }

open_target-Safe :
    (b : Bridge) (fd id : ℕ) (s : Session) (answer : List ℕ) (socket : Option ℕ)
    → b.heap id ≡ some s
    → s.client_fd ≡ fd
    → s.state ≡ handshake
    → ((target : ℕ) → socket ≡ some target → target < max_events)
    → Inv b
    → Safe (open_target b fd id answer socket)
unfolding open_target
open_target-Safe b fd id s answer none live at shaking fits v =
    goes_on (drop_session-Inv b fd id s live at shaking v)
open_target-Safe b fd id s answer (some target) live at shaking fits v =
    rw (lt→ltb target max_events (fits target refl))
      (link_target-Safe b fd id s answer target live at shaking v)

client_request-Safe :
    (b : Bridge) (fd id : ℕ) (s : Session) (input : Option (List ℕ)) (socket : Option ℕ)
    → b.heap id ≡ some s
    → s.client_fd ≡ fd
    → s.state ≡ handshake
    → ((target : ℕ) → socket ≡ some target → target < max_events)
    → Inv b
    → Safe (client_request b fd id input socket)
unfolding client_request answer_request
client_request-Safe b fd id s none socket live at shaking fits v =
    goes_on (drop_session-Inv b fd id s live at shaking v)
client_request-Safe b fd id s (some input) socket live at shaking fits v =
    elim (Bool-cases (contains (crlf ++ crlf) (c_str input))) [
      | inr more ↦ rw more (goes_on v)
      | inl done ↦ rw done (elim (Option-cases (handshake_response (c_str input))) [
        | inl e ↦ rw (e, answer_request) (goes_on (drop_session-Inv b fd id s live at shaking v))
        | inr (answer, e) ↦
            rw (e, answer_request) (open_target-Safe b fd id s answer socket live at shaking fits v)
      ])
    ]

send_frames-Safe : (b : Bridge) (s : Session) (r : Forwarded) → Inv b → Safe (send_frames b s r)
unfolding send_frames
send_frames-Safe b s r v = go r.stop refl
  where
    go : (t : Stop) → r.stop ≡ t → Safe (send_frames b s r)
    go overran e = rw (e, send_frames) stopped
    go finished e = rw (e, send_frames) (goes_on v)
    go out_of_fuel e = rw (e, send_frames) hangs

forward_client-Safe :
    (b : Bridge) (s : Session) (input : Option (List ℕ)) → Inv b → Safe (forward_client b s input)
unfolding forward_client
forward_client-Safe b s none v = goes_on v
forward_client-Safe b s (some input) v = send_frames-Safe b s (forward_frames input) v

forward_target-Safe :
    (b : Bridge) (s : Session) (input : Option (List ℕ)) (stack : List ℕ)
    → Inv b
    → Safe (forward_target b s input stack)
unfolding forward_target
forward_target-Safe b s none stack v = goes_on v
forward_target-Safe b s (some input) stack v = goes_on v

serve_client-Safe :
    (b : Bridge) (fd id : ℕ) (s : Session) (state : State) (input : Option (List ℕ))
    (socket : Option ℕ)
    → s.state ≡ state
    → b.heap id ≡ some s
    → s.client_fd ≡ fd
    → ((target : ℕ) → socket ≡ some target → target < max_events)
    → Inv b
    → Safe (serve_client b fd id s state input socket)
unfolding serve_client
serve_client-Safe b fd id s handshake input socket is live at fits v =
    client_request-Safe b fd id s input socket live at is fits v
serve_client-Safe b fd id s established input socket is live at fits v =
    forward_client-Safe b s input v

serve-Safe :
    (b : Bridge) (fd id : ℕ) (s : Session) (input : Option (List ℕ)) (socket : Option ℕ)
    (stack : List ℕ)
    → b.heap id ≡ some s
    → ((target : ℕ) → socket ≡ some target → target < max_events)
    → Inv b
    → Safe (serve b fd id s input socket stack)
unfolding serve
serve-Safe b fd id s input socket stack live fits v = elim (Bool-cases (fd == s.client_fd)) [
  | inl mine ↦
      rw mine (serve_client-Safe b fd id s s.state input socket refl live (ground arith) fits v)
  | inr other ↦ elim (Bool-cases (is_target s.target_fd fd)) [
    | inl target ↦ rw (other, target) (forward_target-Safe b s input stack v)
    | inr neither ↦ rw (other, neither) (goes_on v)
  ]
]

-- A search comes to a live session or to none.
abbrev IsLive : Bridge → Found → Type 0
IsLive b nothing = Unit
IsLive b dangling_entry = ⊥
IsLive b (found id) = (s : Session) × (b.heap id ≡ some s)

scan-IsLive : (n k : ℕ) (b : Bridge) (fd : ℕ) → Inv b → IsLive b (scan n k b fd)
unfolding scan
scan-IsLive zero k b fd v = tt
scan-IsLive (suc n) k b fd v = elim (Option-cases (b.sessions k)) [
  | inl e ↦ rw (e, scan) (scan-IsLive n (suc k) b fd v)
  | inr (id, e) ↦
      let o = v.owner k id e in
      elim (Bool-cases (is_target o.session.target_fd fd)) [
        | inl t ↦ rw (e, o.live, t, scan) (o.session, o.live)
        | inr f ↦ rw (e, o.live, f, scan) (scan-IsLive n (suc k) b fd v)
      ]
]

find_session-IsLive : (b : Bridge) (fd : ℕ) → Inv b → IsLive b (find_session b fd)
unfolding find_session
find_session-IsLive b fd v = elim (Option-cases (b.sessions fd)) [
  | inl e ↦ rw (e, find_session) (scan-IsLive max_events 0 b fd v)
  | inr (id, e) ↦ let o = v.owner fd id e in rw (e, find_session) (o.session, o.live)
]

on_found-Safe :
    (b : Bridge) (fd : ℕ) (input : Option (List ℕ)) (socket : Option ℕ) (stack : List ℕ) (r : Found)
    → IsLive b r
    → ((target : ℕ) → socket ≡ some target → target < max_events)
    → Inv b
    → Safe (on_found b fd input socket stack r)
unfolding on_found use_session
on_found-Safe b fd input socket stack nothing live fits v = goes_on v
on_found-Safe b fd input socket stack dangling_entry live fits v = absurd live
on_found-Safe b fd input socket stack (found id) live fits v =
    rw (live.1, use_session) (serve-Safe b fd id live.0 input socket stack live.1 fits v)

-- From a state where every entry of `sessions` points to a session on the heap that has the entry's
-- descriptor, and no session in its handshake has a target, an event whose descriptors are below
-- MAX_EVENTS and whose new session, if it has one, gets a free address uses no freed session and no
-- entry outside the table: it runs a masked frame out of its buffer, meets a frame at which the loop
-- never ends, or leaves a state of that kind.
pub step-Safe : (b : Bridge) (e : Event) → FitsTable e → IsFresh b e → Inv b → Safe (step b e)
unfolding step
step-Safe b (accepted fd fresh) fits new v =
    rw (lt→ltb fd max_events fits) (goes_on (accept_client-Inv b fd fresh new v))
step-Safe b (ready fd input socket stack) fits new v = rw (lt→ltb fd max_events fits.0) (
    on_found-Safe b fd input socket stack (find_session b fd) (find_session-IsLive b fd v) fits.1 v)
