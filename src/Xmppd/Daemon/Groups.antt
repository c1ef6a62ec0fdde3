-- ===== src/Xmppd/Daemon/Groups.antt =====
-- Who gets what is sent to a group of clients.
use caligo_engine.Base.{
  ℕ, zero, suc, ◌≡◌, ◌≢◌, refl, Bool, true, Option, none, some, List, [], ◌∷◌, get_elem?,
  Bool-cases, inl, inr, ap, ◌∙◌, arith,
}
use caligo_engine.Base.Text.{str_eq_iff}
use caligo_engine.Xmppd.Stanza.{group_message}
use caligo_engine.Xmppd.Daemon.{Client, Send, is_bound, for_clients, send_to_room}

module _ (test : Client → Bool) (send : Client → Send) where
  -- What is sent comes from a client that passes the test.
  for_clients_sound :
      (cs : List (Option Client)) (k : ℕ) (x : Send)
      → get_elem? (for_clients test send cs) k ≡ some x
      → (i : ℕ) × (m : Client) × (get_elem? cs i ≡ some (some m)) × (test m ≡ true) × (send m ≡ x)
  unfolding for_clients
  for_clients_sound [] k x e = absurd cc
  for_clients_sound (none ∷ cs) k x e =
      let (i, m, a, b, d) = for_clients_sound cs k x e in (suc i, m, a, b, d)
  for_clients_sound (some c ∷ cs) k x e = elim (Bool-cases (test c)) [
    | inl y ↦ first k y (rw (y, for_clients) at e) (λ j. for_clients_sound cs j x)
    | inr n ↦ later (for_clients_sound cs k x (rw (n, for_clients) at e))
  ]
    where
      later :
          ((i : ℕ) × (m : Client) × (get_elem? cs i ≡ some (some m))
            × (test m ≡ true)
            × (send m ≡ x))
          → (i : ℕ) × (m : Client) × (get_elem? (some c ∷ cs) i ≡ some (some m))
            × (test m ≡ true)
            × (send m ≡ x)
      later (i, m, a, b, d) = (suc i, m, a, b, d)

      first :
          (j : ℕ)
          → test c ≡ true
          → get_elem? (send c ∷ for_clients test send cs) j ≡ some x
          → ((l : ℕ)
              → get_elem? (for_clients test send cs) l ≡ some x
              → (i : ℕ) × (m : Client) × (get_elem? cs i ≡ some (some m))
                × (test m ≡ true)
                × (send m ≡ x))
          → (i : ℕ) × (m : Client) × (get_elem? (some c ∷ cs) i ≡ some (some m))
            × (test m ≡ true)
            × (send m ≡ x)
      first zero y h rest = (0, c, refl, y, cc)
      first (suc j) y h rest = later (rest j h)

  -- A client that passes the test is sent to.
  for_clients_complete :
      (cs : List (Option Client)) (i : ℕ) (m : Client)
      → get_elem? cs i ≡ some (some m)
      → test m ≡ true
      → (k : ℕ) × (get_elem? (for_clients test send cs) k ≡ some (send m))
  unfolding for_clients
  for_clients_complete [] i m e y = absurd cc
  for_clients_complete (none ∷ cs) zero m e y = absurd cc
  for_clients_complete (none ∷ cs) (suc i) m e y = for_clients_complete cs i m e y
  for_clients_complete (some c ∷ cs) zero m e y =
      let same : c ≡ m = cc in
      let holds : test c ≡ true = ap test same ∙ y in
      rw (holds, for_clients) (0, ap (λ a. some (send a)) same)
  for_clients_complete (some c ∷ cs) (suc i) m e y = elim (Bool-cases (test c)) [
    | inl h ↦ let (k, found) = for_clients_complete cs i m e y in rw (h, for_clients) (suc k, found)
    | inr h ↦ rw (h, for_clients) (for_clients_complete cs i m e y)
  ]

-- A client that stands in a slot, is bound, has joined the room, and is not the sender.
pub record IsMember (c : Client) (room : List ℕ) (clients : List (Option Client)) (m : Client)
    : Type 0 where
  pub slot : ℕ
  pub there : get_elem? clients slot ≡ some (some m)
  pub ready : is_bound m.state ≡ true
  pub inside : m.current_room ≡ room
  pub other : m.fd ≢ c.fd

-- A message to a room goes to its members, other than the sender, and to them only: every text
-- sent is the stanza for a member on the member's descriptor, and for each member it is sent.
pub send_to_room-members :
    (c : Client) (room body : List ℕ) (clients : List (Option Client))
    → ((k : ℕ) (x : Send)
        → get_elem? (send_to_room c room body clients) k ≡ some x
        → (m : Client) × IsMember c room clients m
          × ((m.fd, group_message room c.nickname m.jid body) ≡ x))
      × ((m : Client)
          → IsMember c room clients m
          → (k : ℕ) × (get_elem? (send_to_room c room body clients) k
              ≡ some (m.fd, group_message room c.nickname m.jid body)))
unfolding send_to_room
send_to_room-members c room body clients = (sound, complete)
  where
    sound :
        (k : ℕ) (x : Send)
        → get_elem? (send_to_room c room body clients) k ≡ some x
        → (m : Client) × IsMember c room clients m
          × ((m.fd, group_message room c.nickname m.jid body) ≡ x)
    sound k x e =
        let (i, m, at, passes, is) = for_clients_sound _ _ clients k x e in
        (
          m,
          record {
            slot = i;
            there = at;
            ready = ground arith;
            inside = (str_eq_iff m.current_room room).0 (ground arith);
            other = ground arith;
          },
          is,
        )

    complete :
        (m : Client)
        → IsMember c room clients m
        → (k : ℕ) × (get_elem? (send_to_room c room body clients) k
            ≡ some (m.fd, group_message room c.nickname m.jid body))
    complete m v =
        let same = (str_eq_iff m.current_room room).1 v.inside in
        let r = v.ready in
        let o = v.other in
        for_clients_complete _ _ clients v.slot m v.there (ground (arith, same, r, o))
