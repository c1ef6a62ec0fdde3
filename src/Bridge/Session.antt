-- ===== src/Bridge/Session.antt =====
-- The sessions of bridge.c and its event loop. `struct Session` objects live on a heap, `sessions`
-- holds pointers to them, and what the system calls return is an argument of the step.
pub mod Alive
use caligo_engine.Base.{
  ℕ, zero, suc, ◌+◌, ◌≡◌, Bool, true, false, Option, none, some, List, [], ◌∷◌, ◌++◌, map, length,
  take, ltb, ◌==◌, if◌then◌else◌,
}
use caligo_engine.Base.Text.{contains, c_str}
use caligo_engine.Bridge.Frame.{
  Stop, finished, overran, out_of_fuel, Forwarded, forward_frames, server_frame,
}
use caligo_engine.Bridge.Handshake.{crlf, handshake_response}

pub data State : Type 0 where
  handshake established : State

-- A target_fd of -1 is `none`.
pub record Session : Type 0 where
  pub client_fd : ℕ
  pub target_fd : Option ℕ
  pub state : State

-- A pointer that the heap does not map is dangling. The table has entries below MAX_EVENTS only, and a
-- step that comes to another is `past_table`.
pub record Bridge : Type 0 where
  pub heap : ℕ → Option Session
  pub sessions : ℕ → Option ℕ

-- MAX_EVENTS, the number of entries of `sessions`
abbrev pub max_events : ℕ
max_events = 1024

abbrev pub update {ℓ} : {A : Type ℓ} (f : ℕ → A) (k : ℕ) (v : A) → ℕ → A
update f k v j = if j == k then v else f j

pub data Effect : Type 0 where
  closes watches : ℕ → Effect
  sends : ℕ → List ℕ → Effect

-- `dangling` is a use of a freed session, `past_table` a use of sessions[fd] behind its last entry,
-- `overrun` a masked frame that runs out of its buffer, and `endless` a loop that never ends.
pub data Outcome : Type 0 where
  dangling past_table overrun endless : Outcome
  running : Bridge → List Effect → Outcome

-- What one call of epoll_wait reports of one descriptor, with the results of the calls made then:
-- `input` is what recv gives (`none` for n <= 0), `socket` the connected target (`none` if connect
-- fails), `stack` what the frame array held before.
pub data Event : Type 0 where
  accepted : (client_fd fresh : ℕ) → Event
  ready : (fd : ℕ) (input : Option (List ℕ)) (socket : Option ℕ) (stack : List ℕ) → Event

unfoldable pub accept_client : Bridge → ℕ → ℕ → Bridge
accept_client b fd fresh = record {
  heap =
      update b.heap fresh (some (record { client_fd = fd; target_fd = none; state = handshake }));
  sessions = update b.sessions fd (some fresh);
}

-- free(s); sessions[fd] = NULL;
unfoldable pub drop_session : Bridge → ℕ → ℕ → Bridge
drop_session b fd id = record { heap = update b.heap id none; sessions = update b.sessions fd none }

-- sessions[s->target_fd] = s;
unfoldable pub link_target : Bridge → ℕ → ℕ → List ℕ → ℕ → Outcome
link_target b fd id answer target =
    running
      (record {
        heap =
            update b.heap id
              (some (record { client_fd = fd; target_fd = some target; state = established }));
        sessions = update b.sessions target (some id);
      })
      (sends fd answer ∷ watches target ∷ [])

-- handle_handshake and what the loop does with its result. A target socket whose connect failed
-- is left open.
unfoldable pub open_target : Bridge → ℕ → ℕ → List ℕ → Option ℕ → Outcome
open_target b fd id answer none = running (drop_session b fd id) (sends fd answer ∷ closes fd ∷ [])
open_target b fd id answer (some target) =
    if ltb target max_events then link_target b fd id answer target else past_table

unfoldable pub answer_request : Bridge → ℕ → ℕ → List ℕ → Option ℕ → Outcome
answer_request b fd id request socket = elim (handshake_response request) [
  | none ↦ running (drop_session b fd id) (closes fd ∷ [])
  | some answer ↦ open_target b fd id answer socket
]

-- A client that has not yet upgraded. What MSG_PEEK has shown, the second recv returns again.
unfoldable pub client_request : Bridge → ℕ → ℕ → Option (List ℕ) → Option ℕ → Outcome
client_request b fd id none socket = running (drop_session b fd id) (closes fd ∷ [])
client_request b fd id (some input) socket =
    if contains (crlf ++ crlf) (c_str input)
    then answer_request b fd id (c_str input) socket
    else running b []

unfoldable pub close_target : Option ℕ → List Effect
close_target none = []
close_target (some target) = closes target ∷ []

unfoldable pub send_all : Option ℕ → List (List ℕ) → List Effect
send_all none payloads = []
send_all (some target) payloads = map (sends target) payloads

unfoldable pub send_frames : Bridge → Session → Forwarded → Outcome
send_frames b s r = elim (r.stop) [
  | overran ↦ overrun
  | finished ↦ running b (send_all s.target_fd r.sent)
  | out_of_fuel ↦ endless
]

-- forward_client_to_target
unfoldable pub forward_client : Bridge → Session → Option (List ℕ) → Outcome
forward_client b s none = running b (closes s.client_fd ∷ close_target s.target_fd)
forward_client b s (some input) = send_frames b s (forward_frames input)

-- forward_target_to_client
unfoldable pub forward_target : Bridge → Session → Option (List ℕ) → List ℕ → Outcome
forward_target b s none stack = running b (closes s.client_fd ∷ close_target s.target_fd)
forward_target b s (some input) stack =
    running b (sends s.client_fd (server_frame stack input) ∷ [])

abbrev pub is_target : Option ℕ → ℕ → Bool
is_target none fd = false
is_target (some target) fd = target == fd

unfoldable pub serve_client :
    Bridge → ℕ → ℕ → Session → State → Option (List ℕ) → Option ℕ → Outcome
serve_client b fd id s handshake input socket = client_request b fd id input socket
serve_client b fd id s established input socket = forward_client b s input

unfoldable pub serve : Bridge → ℕ → ℕ → Session → Option (List ℕ) → Option ℕ → List ℕ → Outcome
serve b fd id s input socket stack =
    if fd == s.client_fd
    then serve_client b fd id s s.state input socket
    else if is_target s.target_fd fd
    then forward_target b s input stack
    else running b []

-- What the search for a session comes to; `dangling_entry` is a look at a freed session.
pub data Found : Type 0 where
  nothing dangling_entry : Found
  found : ℕ → Found

-- for (k...) if (sessions[k] && sessions[k]->target_fd == fd), with the rounds left
unfoldable pub scan : ℕ → ℕ → Bridge → ℕ → Found
scan zero k b fd = nothing
scan (suc n) k b fd =
    let rest = scan n (suc k) b fd in
    elim (b.sessions k) [
      | none ↦ rest
      | some id ↦ elim (b.heap id) [
        | none ↦ dangling_entry
        | some s ↦ if is_target s.target_fd fd then found id else rest
      ]
    ]

-- sessions[fd], or the session whose target fd is.
unfoldable pub find_session : Bridge → ℕ → Found
find_session b fd = elim (b.sessions fd) [ some id ↦ found id | none ↦ scan max_events 0 b fd ]

-- A session that was found is used through its pointer.
unfoldable pub use_session : Bridge → ℕ → ℕ → Option (List ℕ) → Option ℕ → List ℕ → Outcome
use_session b fd id input socket stack = elim (b.heap id) [
  | none ↦ dangling
  | some s ↦ serve b fd id s input socket stack
]

unfoldable pub on_found : Bridge → ℕ → Option (List ℕ) → Option ℕ → List ℕ → Found → Outcome
on_found b fd input socket stack nothing = running b []
on_found b fd input socket stack dangling_entry = dangling
on_found b fd input socket stack (found id) = use_session b fd id input socket stack

unfoldable pub step : Bridge → Event → Outcome
step b (accepted fd fresh) =
    if ltb fd max_events then running (accept_client b fd fresh) (watches fd ∷ []) else past_table
step b (ready fd input socket stack) =
    if ltb fd max_events then on_found b fd input socket stack (find_session b fd) else past_table
