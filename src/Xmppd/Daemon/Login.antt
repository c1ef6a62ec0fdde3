-- ===== src/Xmppd/Daemon/Login.antt =====
-- What a client can reach before it is bound.
use caligo_engine.Base.{
  ℕ, ◌≡◌, refl, false, ◌||◌, Option, none, some, List, All, Option-cases, Bool-cases, inl, inr,
}
use caligo_engine.Base.Text.{codes, contains, c_str}
use caligo_engine.Xmppd.Stanza.{room_list, user_jid}
use caligo_engine.Xmppd.Daemon.{
  ConnState, connected, stream_open, authenticated, negotiating, bound, Client, Daemon, Send,
  Outcome, is_bound, room_items, room_list_to, followed_by, put_client, handle_bind_request,
  handle_other, advance, login, handle_client_message,
}

-- The room list that a bind of the client is answered with.
abbrev pub list_after_bind : ℕ → Client → Daemon → Option (List ℕ)
list_after_bind i c d = room_list (
    room_items d.known_rooms
      (put_client i (record c { jid = user_jid c.fd; state = bound }) d).clients)

-- The rooms are those of `d`, and all that is sent goes to the client; or the client binds, and the room
-- list runs over its array.
abbrev pub IsPrivate : ℕ → Client → Daemon → Outcome → Type 0
IsPrivate i c d none = (c.state ≡ negotiating) × (list_after_bind i c d ≡ none)
IsPrivate i c d (some (d', sent)) =
    (d'.known_rooms ≡ d.known_rooms) × All (λ (s : Send). s.0 ≡ c.fd) sent

module _ (i : ℕ) (c : Client) (d : Daemon) where
  handle_bind_request-IsPrivate :
      (text stack : List ℕ)
      → c.state ≡ negotiating
      → IsPrivate i c d (handle_bind_request i c text stack d)
  unfolding handle_bind_request room_list_to followed_by put_client
  handle_bind_request-IsPrivate text stack is =
      elim (Option-cases (
        room_list (
          room_items d.known_rooms
            (put_client i (record c { jid = user_jid c.fd; state = bound }) d).clients))) [
              | inl e ↦ rw (e, handle_bind_request, room_list_to, followed_by, put_client) (is, e)
              | inr (text', e) ↦
                  rw (e, handle_bind_request, room_list_to, followed_by, put_client)
                    (refl, (refl, (refl, tt)))
            ]

  handle_other-IsPrivate :
      (text raw stack : List ℕ)
      → is_bound c.state ≡ false
      → IsPrivate i c d (handle_other i c text raw stack d)
  unfolding handle_other
  handle_other-IsPrivate text raw stack unbound =
      elim (Bool-cases (contains (codes "<session") text)) [
        | inl e ↦ rw (e, handle_other) (refl, (refl, tt))
        | inr e ↦ rw (e, unbound, handle_other) (refl, tt)
      ]

  login-IsPrivate :
      (state : ConnState) (text raw stack : List ℕ)
      → c.state ≡ state
      → is_bound c.state ≡ false
      → IsPrivate i c d (elim (login i c state text stack d) as (λ x. Outcome) [
        | none ↦ handle_other i c text raw stack d
        | some done ↦ done
      ])
  unfolding login advance put_client
  login-IsPrivate connected text raw stack is unbound =
      elim (Bool-cases (contains (codes "<stream:stream") text || contains (codes "<?xml") text)) [
        | inl e ↦ rw (e, login) (refl, (refl, tt))
        | inr e ↦ rw (e, login) (handle_other-IsPrivate text raw stack unbound)
      ]
  login-IsPrivate stream_open text raw stack is unbound =
      elim (Bool-cases (contains (codes "<auth") text)) [
        | inl e ↦ rw (e, login) (refl, (refl, tt))
        | inr e ↦ rw (e, login) (handle_other-IsPrivate text raw stack unbound)
      ]
  login-IsPrivate authenticated text raw stack is unbound =
      elim (Bool-cases (contains (codes "<stream:stream") text)) [
        | inl e ↦ rw (e, login) (refl, (refl, tt))
        | inr e ↦ rw (e, login) (handle_other-IsPrivate text raw stack unbound)
      ]
  login-IsPrivate negotiating text raw stack is unbound =
      elim (Bool-cases (contains (codes "<bind") text)) [
        | inl e ↦ rw (e, login) (handle_bind_request-IsPrivate text stack is)
        | inr e ↦ rw (e, login) (handle_other-IsPrivate text raw stack unbound)
      ]
  login-IsPrivate bound text raw stack is unbound = handle_other-IsPrivate text raw stack unbound

-- A message of a client that is not bound changes no room, and what is sent on it goes to the client
-- itself; or it is the bind of a client that negotiates, and the room list that it is answered with
-- runs over its array of 4096 bytes.
pub handle_client_message-IsPrivate :
    (i : ℕ) (c : Client) (d : Daemon) (raw stack : List ℕ)
    → is_bound c.state ≡ false
    → IsPrivate i c d (handle_client_message i c raw stack d)
unfolding handle_client_message
handle_client_message-IsPrivate i c d raw stack unbound =
    login-IsPrivate i c d c.state (c_str raw) raw stack refl unbound
