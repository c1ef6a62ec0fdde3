-- ===== src/Examples/Xmppd.antt =====
-- Concrete inputs for the models of xmppd.c.
use caligo_engine.Base.{
  ℕ, zero, suc, ◌≡◌, ◌≢◌, refl, none, some, List, [], ◌∷◌, get_elem?, replicate, arith,
}
use caligo_engine.Base.Text.{codes}
use caligo_engine.Xmppd.Rooms.Table.{IsTable}
use caligo_engine.Xmppd.Stanza.{group_message}
use caligo_engine.Xmppd.Daemon.{
  Client, Daemon, Send, bound, accepted, slot_of, step, send_to_room, negotiating,
  handle_client_message,
}
use caligo_engine.Xmppd.Daemon.Slots.{Inv, Keeps, step-Keeps}
use caligo_engine.Xmppd.Daemon.Login.{IsPrivate, handle_client_message-IsPrivate}
use caligo_engine.Xmppd.Daemon.Groups.{IsMember, send_to_room-members}

abbrev rooms : List (List ℕ)
rooms = codes "lobby" ∷ codes "jazz" ∷ []

rooms-IsTable : IsTable rooms
rooms-IsTable = record { few = omega arith; short = (omega arith, (omega arith, tt)) }

abbrev start : Daemon
start = record { clients = replicate 64 none; known_rooms = rooms }

start-aligned :
    (n i : ℕ) (c : Client) → get_elem? (replicate n none) i ≡ some (some c) → slot_of c.fd ≡ i
start-aligned zero i c e = cc
start-aligned (suc n) zero c e = cc
start-aligned (suc n) (suc i) c e = absurd (vacant n i c e)
  where
    vacant : (k j : ℕ) (m : Client) → get_elem? (replicate k none) j ≢ some (some m)
    vacant zero j m h = cc
    vacant (suc k) zero m h = cc
    vacant (suc k) (suc j) m h = vacant k j m h

start-Inv : Inv start
start-Inv = record { slots = refl; aligned = start-aligned 64; table = rooms-IsTable }

step-Keeps_example : Keeps (step (accepted 70 []) start)
step-Keeps_example = step-Keeps (accepted 70 []) start start-Inv

abbrev ann : Client
ann = record {
  fd = 5;
  jid = codes "user5@radio/xmpp";
  current_room = codes "jazz";
  nickname = codes "ann";
  state = bound;
}

abbrev bob : Client
bob = record {
  fd = 6;
  jid = codes "user6@radio/xmpp";
  current_room = codes "jazz";
  nickname = codes "bob";
  state = bound;
}

send_to_room-members_example :
    ((k : ℕ) (x : Send)
      → get_elem? (send_to_room ann (codes "jazz") (codes "hi") (some ann ∷ some bob ∷ [])) k
        ≡ some x
      → (m : Client) × IsMember ann (codes "jazz") (some ann ∷ some bob ∷ []) m
        × ((m.fd, group_message (codes "jazz") (codes "ann") m.jid (codes "hi")) ≡ x))
    × ((m : Client)
        → IsMember ann (codes "jazz") (some ann ∷ some bob ∷ []) m
        → (k : ℕ) × (get_elem?
              (send_to_room ann (codes "jazz") (codes "hi") (some ann ∷ some bob ∷ []))
              k
            ≡ some (m.fd, group_message (codes "jazz") (codes "ann") m.jid (codes "hi"))))
send_to_room-members_example =
    send_to_room-members ann (codes "jazz") (codes "hi") (some ann ∷ some bob ∷ [])

abbrev newcomer : Client
newcomer = record { fd = 7; jid = []; current_room = []; nickname = []; state = negotiating }

handle_client_message-IsPrivate_example :
    IsPrivate 7 newcomer start
      (handle_client_message 7 newcomer (codes "<iq id='1'><bind/></iq>") [] start)
handle_client_message-IsPrivate_example =
    handle_client_message-IsPrivate 7 newcomer start (codes "<iq id='1'><bind/></iq>") [] refl
