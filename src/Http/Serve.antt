-- ===== src/Http/Serve.antt =====
-- The first half of serve_static_file, which decides what file is opened, and the connection that
-- handle_proxy_request_async makes, both of http/request_handler.c. What the system answers is a
-- parameter: `realpath`, and the results of the calls of one connection.
use caligo_engine.Base.{
  ℕ, ◌≡◌, refl, subst, Bool, true, false, Option, none, some, List, [], ◌∷◌, ◌++◌, take,
  if◌then◌else◌, Option-cases, Bool-cases, inl, inr,
}
use caligo_engine.Base.Text.{is_prefix}

-- `opens` goes on to fopen; the other two are answered.
pub data Resolved : Type 0 where
  not_found bad_gateway : Resolved
  opens : List ℕ → Resolved

-- strncmp(resolved_path, resolved_prefix, strlen(resolved_prefix)) == 0
unfoldable pub contained : List ℕ → List ℕ → Resolved
contained resolved_path resolved_prefix =
    if is_prefix resolved_prefix resolved_path then opens resolved_path else not_found

-- serve_static_file up to get_content_type; full_path has room for 511 characters.
unfoldable pub resolve_static : (List ℕ → Option (List ℕ)) → List ℕ → List ℕ → Resolved
resolve_static realpath path_prefix requested_path =
    elim (realpath (take 511 (path_prefix ++ requested_path))) [
      | none ↦ not_found
      | some resolved_path ↦ elim (realpath path_prefix) [
        | none ↦ bad_gateway
        | some resolved_prefix ↦ contained resolved_path resolved_prefix
      ]
    ]

pub data ClientConnState : Type 0 where
  read_request proxying : ClientConnState

-- A ClientState without its buffer; the peer is known by its descriptor.
pub record ClientState : Type 0 where
  pub fd : ℕ
  pub bytes_read : ℕ
  pub state : ClientConnState
  pub peer : Option ℕ

unfoldable pub create_client_state : ℕ → ClientState
create_client_state fd = record { fd = fd; bytes_read = 0; state = read_request; peer = none }

-- The calls that leave the program: what is sent to a client, a close, and an epoll_ctl that is taken.
pub data Effect : Type 0 where
  responds : ℕ → List ℕ → Effect
  send_502 : ℕ → Effect
  close watches : ℕ → Effect

-- What socket, connect and epoll_ctl answer.
pub record Answers : Type 0 where
  pub upstream_socket : Option ℕ
  pub connects : Bool
  pub registers : Bool

-- The client, the upstream state where it is there still, and the calls.
abbrev pub Proxied : Type 0
Proxied = ClientState × (Option ClientState × List Effect)

-- The client after a connection that failed: ready for its next request, with no peer set.
unfoldable pub reset : ClientState → ClientState
reset client = record client { bytes_read = 0; state = read_request }

-- From epoll_ctl on.
unfoldable pub register : Bool → ClientState → ℕ → Proxied
register true client upstream = (
  record client { state = proxying; peer = some upstream },
  (
    some (record (create_client_state upstream) { state = proxying; peer = some client.fd }),
    watches upstream ∷ [],
  ),
)
register false client upstream =
    (record (reset client) { peer = none }, (none, close upstream ∷ []))

-- By what socket, connect and epoll_ctl answer.
unfoldable pub connect_upstream : Option ℕ → Bool → Bool → ClientState → Proxied
connect_upstream none connects registers client = (client, (none, send_502 client.fd ∷ []))
connect_upstream (some upstream) false registers client =
    (reset client, (none, send_502 client.fd ∷ (close upstream ∷ [])))
connect_upstream (some upstream) true registers client = register registers client upstream

unfoldable pub handle_proxy_request_async : Answers → ClientState → Proxied
handle_proxy_request_async answers client =
    connect_upstream answers.upstream_socket answers.connects answers.registers client

-- Whether the two states point at each other and both forward.
pub record IsLinked (client upstream : ClientState) : Type 0 where
  pub there : client.peer ≡ some upstream.fd
  pub back : upstream.peer ≡ some client.fd
  pub both : (client.state ≡ proxying) × (upstream.state ≡ proxying)

-- Either both ends are linked, the upstream is watched and nothing is sent or closed, or the client waits for a request and
-- has no peer.
abbrev pub IsSettled : Proxied → Type 0
IsSettled (client, (none, calls)) = (client.state ≡ read_request) × (client.peer ≡ none)
IsSettled (client, (some upstream, calls)) =
    IsLinked client upstream × (calls ≡ watches upstream.fd ∷ [])

register-IsSettled :
    (registers : Bool) (client : ClientState) (u : ℕ) → IsSettled (register registers client u)
unfolding register reset create_client_state
register-IsSettled false client u = (refl, refl)
register-IsSettled true client u = (record { there = refl; back = refl; both = (refl, refl) }, refl)

-- From a client that waits for a request and has no peer, the connection ends with the client and
-- the upstream state linked both ways, both forwarding, and the upstream watched; or, on every
-- failure, with the client waiting for a request and no peer.
pub handle_proxy_request_async-IsSettled :
    (answers : Answers) (client : ClientState)
    → client.state ≡ read_request
    → client.peer ≡ none
    → IsSettled (handle_proxy_request_async answers client)
unfolding handle_proxy_request_async connect_upstream reset
handle_proxy_request_async-IsSettled answers client waits alone =
    by_answer answers.upstream_socket answers.connects
  where
    by_answer :
        (upstream : Option ℕ) (connects : Bool)
        → IsSettled (connect_upstream upstream connects answers.registers client)
    by_answer none connects = (waits, alone)
    by_answer (some u) false = (refl, alone)
    by_answer (some u) true = register-IsSettled answers.registers client u

abbrev Inside : (List ℕ → Option (List ℕ)) → List ℕ → List ℕ → Resolved → Type 0
Inside realpath path_prefix requested_path (opens p) =
    (realpath (take 511 (path_prefix ++ requested_path)) ≡ some p)
    × ((root : List ℕ) × (realpath path_prefix ≡ some root) × (is_prefix root p ≡ true))
Inside realpath path_prefix requested_path _ = Unit {0}

resolve_static-Inside :
    (realpath : List ℕ → Option (List ℕ)) (path_prefix requested_path : List ℕ)
    → Inside realpath path_prefix requested_path
        (resolve_static realpath path_prefix requested_path)
unfolding resolve_static contained
resolve_static-Inside realpath path_prefix requested_path =
    elim (Option-cases (realpath (take 511 (path_prefix ++ requested_path)))) [
      | inl e ↦ rw (e, resolve_static) tt
      | inr (p, e) ↦ elim (Option-cases (realpath path_prefix)) [
        | inl e' ↦ rw (e, e', resolve_static) tt
        | inr (root, e') ↦ elim (Bool-cases (is_prefix root p)) [
          | inl inside ↦ rw (e, e', inside, resolve_static, contained) (e, (root, e', inside))
          | inr outside ↦ rw (e, e', outside, resolve_static, contained) tt
        ]
      ]
    ]

-- A file that serve_static_file opens is the one that `realpath` gives for the first 511
-- characters of the target and the path together, and the resolved target is a prefix of its name.
pub resolve_static-opens :
    (realpath : List ℕ → Option (List ℕ)) (path_prefix requested_path p : List ℕ)
    → resolve_static realpath path_prefix requested_path ≡ opens p
    → (realpath (take 511 (path_prefix ++ requested_path)) ≡ some p)
      × ((root : List ℕ) × (realpath path_prefix ≡ some root) × (is_prefix root p ≡ true))
resolve_static-opens realpath path_prefix requested_path p e =
    subst (Inside realpath path_prefix requested_path) e
      (resolve_static-Inside realpath path_prefix requested_path)
