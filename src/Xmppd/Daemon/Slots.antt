-- ===== src/Xmppd/Daemon/Slots.antt =====
-- What every event keeps: 64 slots, each client in the slot of its descriptor, and the room table
-- within its bounds.
use caligo_engine.Base.{
  ℕ, zero, suc, ◌≡◌, refl, ◌∙◌, sym, Bool, true, false, ◌||◌, ◌&&◌, Option, none, some, List, [],
  ◌∷◌, length, set, get_elem?, if◌then◌else◌, arith, length-set, get_elem?-set_self,
  get_elem?-set_ne, ap, Option-cases, Bool-cases, inl, inr, is_some,
}
use native.Mathlib.Decide.{ℕ_discrete}
use caligo_engine.Base.Text.{codes, find_char, contains, c_str}
use caligo_engine.Xmppd.Rooms.Table.{IsTable, add_room_to_memory-IsTable}
use caligo_engine.Xmppd.Xml.{extract_attribute, extract_body, extract_id}
use caligo_engine.Xmppd.Stanza.{disco_items, user_jid, sasl_header, bind_header, sasl_success}
use caligo_engine.Xmppd.Daemon.{
  ConnState, connected, stream_open, authenticated, negotiating, bound, Client, Daemon, Send,
  Outcome, slot_of, is_bound, followed_by, put_client, joined, handle_muc_join, handle_presence,
  handle_bind_request, handle_disco, handle_bound, handle_other, advance, login,
  handle_client_message, disconnect, Event, accepted, ready, new_client, receive, step,
  handle_message,
}

pub record Inv (d : Daemon) : Type 0 where
  pub slots : length d.clients ≡ 64
  pub aligned : (i : ℕ) (c : Client) → get_elem? d.clients i ≡ some (some c) → slot_of c.fd ≡ i
  pub table : IsTable d.known_rooms

-- The invariant after an outcome.
abbrev pub Keeps : Outcome → Type 0
Keeps none = Unit {0}
Keeps (some (d, sent)) = Inv d

put_client-Inv :
    (i : ℕ) (c : Client) (d : Daemon) → slot_of c.fd ≡ i → Inv d → Inv (put_client i c d)
unfolding put_client
put_client-Inv i c d at v = record {
  slots = length-set d.clients i (some c) ∙ v.slots;
  aligned = λ j m e. elim (ℕ_discrete i j) [
    | yes same ↦
        let here = get_elem?-set_self d.clients i (some c) (omega (arith, at, v.slots)) in
        ground (arith, here)
    | no other ↦ v.aligned j m (sym (get_elem?-set_ne d.clients i j (some c) other) ∙ e)
  ];
  table = v.table;
}

followed_by-Keeps :
    (d : Daemon) (sent : List Send) (more : Option (List Send))
    → Inv d
    → Keeps (followed_by d sent more)
unfolding followed_by
followed_by-Keeps d sent none v = tt
followed_by-Keeps d sent (some more) v = v

module _ (i : ℕ) (c : Client) (d : Daemon) (at : slot_of c.fd ≡ i) (v : Inv d) where
  handle_muc_join-Keeps : (room nickname : List ℕ) → Keeps (handle_muc_join i c room nickname d)
  unfolding handle_muc_join joined
  handle_muc_join-Keeps room nickname =
      let w = put_client-Inv i (joined c room nickname) d at v in
      followed_by-Keeps _ _ _ (record {
        slots = w.slots;
        aligned = w.aligned;
        table = add_room_to_memory-IsTable room d.known_rooms v.table;
      })

  handle_presence-Keeps : (to : List ℕ) → Keeps (handle_presence i c to d)
  unfolding handle_presence
  handle_presence-Keeps to = elim (Option-cases (find_char b'@' to)) [
    | inl e ↦ elim (Option-cases (find_char b'/' to)) [
      | inl e' ↦ rw (e, e', handle_presence) (handle_muc_join-Keeps _ _)
      | inr (n, e') ↦ rw (e, e', handle_presence) (handle_muc_join-Keeps _ _)
    ]
    | inr (a, e) ↦ elim (Option-cases (find_char b'/' to)) [
      | inl e' ↦ rw (e, e', handle_presence) (handle_muc_join-Keeps _ _)
      | inr (n, e') ↦ rw (e, e', handle_presence) (handle_muc_join-Keeps _ _)
    ]
  ]

  handle_disco-Keeps : (text stack : List ℕ) → Keeps (handle_disco c text stack d)
  unfolding handle_disco
  handle_disco-Keeps text stack = elim (Bool-cases (contains (codes "disco#info") text)) [
    | inl e ↦ rw (e, handle_disco) v
    | inr e ↦ elim (Bool-cases (contains (codes "disco#items") text)) [
      | inl e' ↦
          elim (Option-cases (
            disco_items (extract_id text stack)
              (extract_attribute text (codes "to") (codes "conference.radio")) c.fd
              d.known_rooms)) [
                | inl r ↦ rw (e, e', r, handle_disco) tt
                | inr (reply, r) ↦ rw (e, e', r, handle_disco) v
              ]
      | inr e' ↦ rw (e, e', handle_disco) v
    ]
  ]

  handle_bound-Keeps : (text raw stack : List ℕ) → Keeps (handle_bound i c text raw stack d)
  unfolding handle_bound
  handle_bound-Keeps text raw stack =
      split (contains (codes "<iq") text && contains (codes "disco#") text)
        (contains (codes "<presence") text) (contains (codes "<message") text)
    where
      split :
          (p q r : Bool)
          → Keeps (
              if p
              then handle_disco c text stack d
              else if q
              then handle_presence i c (extract_attribute text (codes "to") []) d
              else if r
              then some (
                d,
                handle_message c
                    (extract_attribute text (codes "to") [])
                    (extract_body text [])
                    raw
                    d.clients,
              )
              else some (d, []))
      split true q r = handle_disco-Keeps text stack
      split false true r = handle_presence-Keeps _
      split false false true = v
      split false false false = v

  advance-Keeps : (state : ConnState) (reply : List ℕ) → Keeps (advance i c state reply d)
  unfolding advance
  advance-Keeps state reply = put_client-Inv i (record c { state = state }) d at v

  handle_bind_request-Keeps : (text stack : List ℕ) → Keeps (handle_bind_request i c text stack d)
  unfolding handle_bind_request
  handle_bind_request-Keeps text stack =
      followed_by-Keeps _ _ _
        (put_client-Inv i (record c { jid = user_jid c.fd; state = bound }) d at v)

  handle_other-Keeps : (text raw stack : List ℕ) → Keeps (handle_other i c text raw stack d)
  unfolding handle_other
  handle_other-Keeps text raw stack = elim (Bool-cases (contains (codes "<session") text)) [
    | inl e ↦ rw (e, handle_other) v
    | inr e ↦ elim (Bool-cases (is_bound c.state)) [
      | inl e' ↦ rw (e, e', handle_other) (handle_bound-Keeps text raw stack)
      | inr e' ↦ rw (e, e', handle_other) v
    ]
  ]

  -- The step of the login, and what follows where there is none.
  login-Keeps :
      (state : ConnState) (text raw stack : List ℕ)
      → Keeps (elim (login i c state text stack d) as (λ x. Outcome) [
        | none ↦ handle_other i c text raw stack d
        | some done ↦ done
      ])
  unfolding login
  login-Keeps connected text raw stack =
      elim (Bool-cases (contains (codes "<stream:stream") text || contains (codes "<?xml") text)) [
        | inl e ↦ rw (e, login) (advance-Keeps stream_open sasl_header)
        | inr e ↦ rw (e, login) (handle_other-Keeps text raw stack)
      ]
  login-Keeps stream_open text raw stack = elim (Bool-cases (contains (codes "<auth") text)) [
    | inl e ↦ rw (e, login) (advance-Keeps authenticated sasl_success)
    | inr e ↦ rw (e, login) (handle_other-Keeps text raw stack)
  ]
  login-Keeps authenticated text raw stack =
      elim (Bool-cases (contains (codes "<stream:stream") text)) [
        | inl e ↦ rw (e, login) (advance-Keeps negotiating bind_header)
        | inr e ↦ rw (e, login) (handle_other-Keeps text raw stack)
      ]
  login-Keeps negotiating text raw stack = elim (Bool-cases (contains (codes "<bind") text)) [
    | inl e ↦ rw (e, login) (handle_bind_request-Keeps text stack)
    | inr e ↦ rw (e, login) (handle_other-Keeps text raw stack)
  ]
  login-Keeps bound text raw stack = handle_other-Keeps text raw stack

  handle_client_message-Keeps : (raw stack : List ℕ) → Keeps (handle_client_message i c raw stack d)
  unfolding handle_client_message
  handle_client_message-Keeps raw stack = login-Keeps c.state (c_str raw) raw stack

disconnect-Keeps : (fd : ℕ) (d : Daemon) → Inv d → Keeps (disconnect fd d)
unfolding disconnect
disconnect-Keeps fd d v = elim (Option-cases (get_elem? d.clients (slot_of fd))) [
  | inl e ↦ rw (e, disconnect) v
  | inr (none, e) ↦ rw (e, disconnect) v
  | inr (some c, e) ↦
      rw (e, disconnect)
        (followed_by-Keeps _ _ _ (record {
          slots = length-set d.clients (slot_of fd) none ∙ v.slots;
          aligned = λ j m e'. elim (ℕ_discrete (slot_of fd) j) [
            | yes same ↦
                let here =
                  get_elem?-set_self d.clients (slot_of fd) none (omega (arith, v.slots)) in
                ground (arith, here)
            | no other ↦
                v.aligned j m (sym (get_elem?-set_ne d.clients (slot_of fd) j none other) ∙ e')
          ];
          table = v.table;
        }))
]

receive-Keeps : (fd : ℕ) (raw stack : List ℕ) (d : Daemon) → Inv d → Keeps (receive fd raw stack d)
unfolding receive
receive-Keeps fd raw stack d v =
    elim (Bool-cases
      (is_some (find_char b'<' (c_str raw)) && is_some (find_char b'>' (c_str raw)))) [
        | inl e ↦ elim (Option-cases (get_elem? d.clients (slot_of fd))) [
          | inl e' ↦ rw (e, e', receive) v
          | inr (none, e') ↦ rw (e, e', receive) v
          | inr (some c, e') ↦
              rw (e, e', receive)
                (handle_client_message-Keeps (slot_of fd) c d (v.aligned (slot_of fd) c e') v raw
                  stack)
        ]
        | inr e ↦ rw (e, receive) (disconnect-Keeps fd d v)
      ]

-- Every event from a state with 64 slots, each client in the slot of its descriptor, and a room
-- table within its bounds, gives a state with the same property, or none where a text runs over
-- its array.
pub step-Keeps : (e : Event) (d : Daemon) → Inv d → Keeps (step e d)
unfolding step
step-Keeps (accepted fd nickname) d v =
    put_client-Inv (slot_of fd) (new_client fd nickname) d (unfold new_client in refl) v
step-Keeps (ready fd none stack) d v = disconnect-Keeps fd d v
step-Keeps (ready fd (some raw) stack) d v = receive-Keeps fd raw stack d v

set-set :
    (xs : List (Option Client)) (i : ℕ) (v w : Option Client) → set (set xs i v) i w ≡ set xs i w
set-set [] i v w = refl
set-set (x ∷ xs) zero v w = refl
set-set (x ∷ xs) (suc i) v w = ap (λ ys. x ∷ ys) (set-set xs i v w)

-- The state after a run of events, or none where a text runs over its array.
unfoldable pub state_after : List Event → Daemon → Option Daemon
state_after [] d = some d
state_after (e ∷ es) d = elim (step e d) [ none ↦ none | some (d', sent) ↦ state_after es d' ]

-- A connection whose descriptor has the same slot as an earlier one takes its place: whatever
-- comes after, the state is the same as if the earlier client had never connected.
pub step-collision :
    (fd fd' : ℕ) (nickname nickname' : List ℕ) (later : List Event) (d : Daemon)
    → slot_of fd ≡ slot_of fd'
    → state_after (accepted fd nickname ∷ (accepted fd' nickname' ∷ later)) d
      ≡ state_after (accepted fd' nickname' ∷ later) d
unfolding state_after step put_client
step-collision fd fd' nickname nickname' later d same =
    ap (λ cs. state_after later (record d { clients = cs }))
      (ap
          (λ s.
            set (set d.clients s (some (new_client fd nickname))) (slot_of fd')
              (some (new_client fd' nickname')))
          same
        ∙ set-set d.clients (slot_of fd') _ _)
