-- ===== src/Xmppd/Daemon.antt =====
-- The clients of xmppd.c, the handling of a message, and the event loop. `clients[i]` is the i-th
-- slot of a list of 64; a step gives the new state and what is sent, in order, or `none` where a
-- text runs over its array.
pub mod Groups
pub mod Login
pub mod Slots
use caligo_engine.Base.{
  ℕ, zero, suc, ◌+◌, ◌%◌, Bool, true, false, ◌&&◌, ◌||◌, not, Option, none, some, List, [], ◌∷◌,
  ◌++◌, length, take, drop, set, get_elem?, ltb, ◌==◌, if◌then◌else◌, is_some,
}
use caligo_engine.Base.Text.{codes, str_eq, find_char, contains, c_str}
use caligo_engine.Xmppd.Rooms.{add_room_to_memory}
use caligo_engine.Xmppd.Xml.{extract_attribute, extract_body, extract_id}
use caligo_engine.Xmppd.Stanza.{
  room_item, room_list, user_jid, disco_info, disco_items, presence, self_status, group_message,
  iq_result, bind_result, sasl_header, bind_header, sasl_success,
}

pub data ConnState : Type 0 where
  connected stream_open authenticated negotiating bound : ConnState

pub record Client : Type 0 where
  pub fd : ℕ
  pub jid : List ℕ
  pub current_room : List ℕ
  pub nickname : List ℕ
  pub state : ConnState

pub record Daemon : Type 0 where
  pub clients : List (Option Client)
  pub known_rooms : List (List ℕ)

-- A descriptor, and the bytes sent on it.
abbrev pub Send : Type 0
Send = ℕ × List ℕ

abbrev pub Outcome : Type 0
Outcome = Option (Daemon × List Send)

abbrev pub slot_of : ℕ → ℕ
slot_of fd = fd % 64

abbrev pub is_bound : ConnState → Bool
is_bound bound = true
is_bound connected = false
is_bound stream_open = false
is_bound authenticated = false
is_bound negotiating = false

abbrev pub in_room : List ℕ → Client → Bool
in_room room c = is_bound c.state && str_eq c.current_room room

-- for (i...) if (clients[i] && test) what `send` gives
unfoldable pub for_clients : (Client → Bool) → (Client → Send) → List (Option Client) → List Send
for_clients test send [] = []
for_clients test send (none ∷ cs) = for_clients test send cs
for_clients test send (some c ∷ cs) =
    if test c then send c ∷ for_clients test send cs else for_clients test send cs

-- get_users_in_room
unfoldable pub users_in_room : List ℕ → List (Option Client) → ℕ
users_in_room room [] = 0
users_in_room room (none ∷ cs) = users_in_room room cs
users_in_room room (some c ∷ cs) = (if in_room room c then 1 else 0) + users_in_room room cs

unfoldable pub room_items : List (List ℕ) → List (Option Client) → List (List ℕ)
room_items [] clients = []
room_items (r ∷ rooms) clients = room_item r (users_in_room r clients) ∷ room_items rooms clients

-- broadcast_room_list(target_fd): to one descriptor, or (-1) to every bound client.
unfoldable pub room_list_to : ℕ → Daemon → Option (List Send)
room_list_to fd d = elim (room_list (room_items d.known_rooms d.clients)) [
  | none ↦ none
  | some text ↦ some ((fd, text) ∷ [])
]

unfoldable pub room_list_to_all : Daemon → Option (List Send)
room_list_to_all d = elim (room_list (room_items d.known_rooms d.clients)) [
  | none ↦ none
  | some text ↦ some (for_clients (λ c. is_bound c.state) (λ c. (c.fd, text)) d.clients)
]

-- What is sent before, and then a broadcast.
unfoldable pub followed_by : Daemon → List Send → Option (List Send) → Outcome
followed_by d sent none = none
followed_by d sent (some more) = some (d, sent ++ more)

unfoldable pub put_client : ℕ → Client → Daemon → Daemon
put_client i c d = record d { clients = set d.clients i (some c) }

-- The presences of handle_muc_join: of the new member to the room, of the others to it, its own.
unfoldable pub join_sends : Client → List ℕ → List (Option Client) → List Send
join_sends c room clients =
    for_clients (in_room room) (λ m. (m.fd, presence room c.nickname m.jid [])) clients
    ++ (for_clients (λ m. in_room room m && not (m.fd == c.fd))
          (λ m. (c.fd, presence room m.nickname c.jid [])) clients
        ++ ((c.fd, presence room c.nickname c.jid self_status) ∷ []))

-- The client after strncpy of room and nickname.
unfoldable pub joined : Client → List ℕ → List ℕ → Client
joined c room nickname = record c { current_room = take 63 room; nickname = take 63 nickname }

-- handle_muc_join, and the broadcast that its callers make next.
unfoldable pub handle_muc_join : ℕ → Client → List ℕ → List ℕ → Daemon → Outcome
handle_muc_join i c room nickname d =
    let c' = joined c room nickname in
    let d' = record (put_client i c' d) {
      known_rooms = (add_room_to_memory room d.known_rooms).0;
    } in
    followed_by d' (join_sends c' room d'.clients) (room_list_to_all d')

-- The room and nickname of `<presence to='room@host/nick'>`; the NUL over the `@` ends the text.
unfoldable pub handle_presence : ℕ → Client → List ℕ → Daemon → Outcome
handle_presence i c to d = elim (find_char b'@' to) [
  | some at ↦ elim (find_char b'/' to) [
    | some slash ↦ handle_muc_join i c (take at to) (c_str (drop (slash + 1) (set to at 0))) d
    | none ↦ handle_muc_join i c to (codes "WebGuest") d
  ]
  | none ↦ elim (find_char b'/' to) [
    | some slash ↦ handle_muc_join i c (take slash to) (codes "WebGuest") d
    | none ↦ handle_muc_join i c to (codes "WebGuest") d
  ]
]

-- The name of the room that a message is for; `none` is a message for one user.
unfoldable pub room_target : List ℕ → Option (List ℕ)
room_target to = elim (find_char b'@' to) [
  | none ↦ some to
  | some at ↦ if contains (codes "@conference") to then some (take at to) else none
]

unfoldable pub send_to_room : Client → List ℕ → List ℕ → List (Option Client) → List Send
send_to_room c room body clients =
    for_clients (λ m. in_room room m && not (m.fd == c.fd))
      (λ m. (m.fd, group_message room c.nickname m.jid body)) clients

-- The first client whose JID it is gets the bytes as they came.
unfoldable pub send_to_user : List ℕ → List ℕ → List (Option Client) → List Send
send_to_user jid raw [] = []
send_to_user jid raw (none ∷ cs) = send_to_user jid raw cs
send_to_user jid raw (some m ∷ cs) =
    if str_eq m.jid jid then (m.fd, raw) ∷ [] else send_to_user jid raw cs

unfoldable pub handle_message : Client → List ℕ → List ℕ → List ℕ → List (Option Client) → List Send
handle_message c to body raw clients = elim (room_target to) [
  | some room ↦ send_to_room c room body clients
  | none ↦ if ltb 0 (length to) then send_to_user to raw clients else []
]

-- handle_bind_request, and the room list that follows.
unfoldable pub handle_bind_request : ℕ → Client → List ℕ → List ℕ → Daemon → Outcome
handle_bind_request i c text stack d =
    let c' = record c { jid = user_jid c.fd; state = bound } in
    let d' = put_client i c' d in
    followed_by d' ((c.fd, bind_result (extract_id text stack) (user_jid c.fd)) ∷ [])
      (room_list_to c.fd d')

unfoldable pub handle_disco : Client → List ℕ → List ℕ → Daemon → Outcome
handle_disco c text stack d =
    let id = extract_id text stack in
    let to = extract_attribute text (codes "to") (codes "conference.radio") in
    if contains (codes "disco#info") text
    then some (d, (c.fd, disco_info id to c.fd) ∷ [])
    else if contains (codes "disco#items") text
    then elim (disco_items id to c.fd d.known_rooms) [
      | none ↦ none
      | some reply ↦ some (d, (c.fd, reply) ∷ [])
    ]
    else some (d, [])

-- What only a bound client may ask for.
unfoldable pub handle_bound : ℕ → Client → List ℕ → List ℕ → List ℕ → Daemon → Outcome
handle_bound i c text raw stack d =
    if contains (codes "<iq") text && contains (codes "disco#") text
    then handle_disco c text stack d
    else if contains (codes "<presence") text
    then handle_presence i c (extract_attribute text (codes "to") []) d
    else if contains (codes "<message") text
    then some (
      d,
      handle_message c (extract_attribute text (codes "to") []) (extract_body text []) raw
          d.clients,
    )
    else some (d, [])

-- What follows where no step of the login matches.
unfoldable pub handle_other : ℕ → Client → List ℕ → List ℕ → List ℕ → Daemon → Outcome
handle_other i c text raw stack d =
    if contains (codes "<session") text
    then some (d, (c.fd, iq_result 256 (extract_id text stack)) ∷ [])
    else if is_bound c.state
    then handle_bound i c text raw stack d
    else some (d, [])

unfoldable pub advance : ℕ → Client → ConnState → List ℕ → Daemon → Outcome
advance i c state reply d = some (put_client i (record c { state = state }) d, (c.fd, reply) ∷ [])

-- The four steps of the login; `none` where none of them matches.
unfoldable pub login : ℕ → Client → ConnState → List ℕ → List ℕ → Daemon → Option Outcome
login i c connected text stack d =
    if contains (codes "<stream:stream") text || contains (codes "<?xml") text
    then some (advance i c stream_open sasl_header d)
    else none
login i c stream_open text stack d =
    if contains (codes "<auth") text then some (advance i c authenticated sasl_success d) else none
login i c authenticated text stack d =
    if contains (codes "<stream:stream") text
    then some (advance i c negotiating bind_header d)
    else none
login i c negotiating text stack d =
    if contains (codes "<bind") text then some (handle_bind_request i c text stack d) else none
login i c bound text stack d = none

-- handle_client_message(clients[i], raw, len): the text ends at the first NUL.
unfoldable pub handle_client_message : ℕ → Client → List ℕ → List ℕ → Daemon → Outcome
handle_client_message i c raw stack d = elim (login i c c.state (c_str raw) stack d) [
  | some done ↦ done
  | none ↦ handle_other i c (c_str raw) raw stack d
]

-- close(fd), and the slot of the descriptor is emptied.
unfoldable pub disconnect : ℕ → Daemon → Outcome
disconnect fd d = elim (get_elem? d.clients (slot_of fd)) [
  | some (some c) ↦
      let d' = record d { clients = set d.clients (slot_of fd) none } in
      followed_by d' [] (room_list_to_all d')
  | _ ↦ some (d, [])
]

-- What epoll_wait reports: a connection, whose nickname is what malloc left there, or a readable
-- descriptor with what recv returns (`none` for n <= 0) and the contents of `char id[64]`.
pub data Event : Type 0 where
  accepted : (fd : ℕ) (nickname : List ℕ) → Event
  ready : (fd : ℕ) (input : Option (List ℕ)) (stack : List ℕ) → Event

unfoldable pub new_client : ℕ → List ℕ → Client
new_client fd nickname = record {
  fd = fd;
  jid = [];
  current_room = [];
  nickname = nickname;
  state = connected;
}

unfoldable pub receive : ℕ → List ℕ → List ℕ → Daemon → Outcome
receive fd raw stack d =
    if is_some (find_char b'<' (c_str raw)) && is_some (find_char b'>' (c_str raw))
    then elim (get_elem? d.clients (slot_of fd)) [
      | some (some c) ↦ handle_client_message (slot_of fd) c raw stack d
      | _ ↦ some (d, [])
    ]
    else disconnect fd d

unfoldable pub step : Event → Daemon → Outcome
step (accepted fd nickname) d = some (put_client (slot_of fd) (new_client fd nickname) d, [])
step (ready fd none stack) d = disconnect fd d
step (ready fd (some raw) stack) d = receive fd raw stack d
