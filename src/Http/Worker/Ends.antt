-- ===== src/Http/Worker/Ends.antt =====
-- What becomes of a client whose request has been handled.
use caligo_engine.Base.{
  ℕ, ◌≡◌, refl, Bool, true, false, not, ◌&&◌, ◌||◌, Option, none, some, List, [], ◌∷◌, ◌++◌, ltb,
  ◌==◌, ==_refl, Bool-cases, inl, inr,
}
use caligo_engine.Http.Routes.{RouteType, static, cgi, proxy, RouteRule}
use caligo_engine.Http.Serve.{
  ClientState, Effect, responds, send_502, close, watches, Answers, Proxied, reset, register,
  create_client_state, connect_upstream, handle_proxy_request_async,
}
use caligo_engine.Http.Work.{Action, rejected, not_found, unauthorized, undefined, serve}
use caligo_engine.Http.Work
use caligo_engine.Http.Worker.{
  Calls, is_forwarded, forward_request, watch_ends, after_forward, proxy_request, next_request,
  on_rule, act, handle_work,
}

-- Whether the calls close a descriptor or have it watched.
unfoldable pub is_settled : ℕ → List Effect → Bool
is_settled fd [] = false
is_settled fd (responds other bytes ∷ effects) = is_settled fd effects
is_settled fd (send_502 other ∷ effects) = is_settled fd effects
is_settled fd (close other ∷ effects) = fd == other || is_settled fd effects
is_settled fd (watches other ∷ effects) = fd == other || is_settled fd effects

or_inl : (a b : Bool) → a ≡ true → (a || b) ≡ true
or_inl true b h = refl
or_inl false b h = cc

or_inr : (a b : Bool) → b ≡ true → (a || b) ≡ true
or_inr true b h = refl
or_inr false b h = h

is_settled-append :
    (fd : ℕ) (first : List Effect) (last : Effect) (rest : List Effect)
    → is_settled fd (last ∷ rest) ≡ true
    → is_settled fd (first ++ last ∷ rest) ≡ true
unfolding is_settled
is_settled-append fd [] last rest h = h
is_settled-append fd (responds other bytes ∷ first) last rest h =
    is_settled-append fd first last rest h
is_settled-append fd (send_502 other ∷ first) last rest h = is_settled-append fd first last rest h
is_settled-append fd (close other ∷ first) last rest h =
    or_inr (fd == other) _ (is_settled-append fd first last rest h)
is_settled-append fd (watches other ∷ first) last rest h =
    or_inr (fd == other) _ (is_settled-append fd first last rest h)

-- Whether the upstream is linked, and then the first request cannot be sent to it.
unfoldable pub stuck_with : Option ℕ → Bool → Bool → Calls → ClientState → Bool
stuck_with none connects registers calls client = false
stuck_with (some upstream) connects registers calls client =
    (connects && registers) && (ltb 0 client.bytes_read && not (is_forwarded calls.first calls))

unfoldable pub is_stuck : Calls → ClientState → Bool
is_stuck calls client =
    stuck_with calls.connection.upstream_socket calls.connection.connects calls.connection.registers
      calls client

unfoldable pub rule_stuck : RouteType → Calls → ClientState → Bool
rule_stuck static calls client = false
rule_stuck cgi calls client = false
rule_stuck proxy calls client = is_stuck calls client

-- Only a request under a PROXY rule can be stuck.
unfoldable pub gets_stuck : Action → Calls → ClientState → Bool
gets_stuck rejected calls client = false
gets_stuck not_found calls client = false
gets_stuck unauthorized calls client = false
gets_stuck undefined calls client = false
gets_stuck (serve r path) calls client = rule_stuck r.kind calls client

-- A client that is watched or closed first, whatever is done to its peer then.
watch_ends-settled :
    (adds_client adds_peer : Bool) (client : ClientState) (upstream : Option ClientState)
    (effects : List Effect)
    → is_settled client.fd (watch_ends adds_client adds_peer (client, (upstream, effects))).1.1
      ≡ true
unfolding watch_ends is_settled
watch_ends-settled false adds_peer client upstream effects =
    is_settled-append client.fd effects (close client.fd) [] (or_inl _ _ (==_refl client.fd))
watch_ends-settled true adds_peer client upstream effects =
    is_settled-append client.fd effects (watches client.fd) _ (or_inl _ _ (==_refl client.fd))

-- An upstream that is linked, with another descriptor.
linked-settled :
    (calls : Calls) (client : ClientState) (u : ℕ)
    → (client.fd == u) ≡ false
    → is_settled client.fd
        (after_forward calls (forward_request calls (register true client u))).1.1
      ≡ not (ltb 0 client.bytes_read && not (is_forwarded calls.first calls))
unfolding register create_client_state forward_request after_forward reset
linked-settled calls client u other = elim (Bool-cases (ltb 0 client.bytes_read)) [
  | inr e ↦ rw (e, forward_request) (watch_ends-settled calls.adds_client calls.adds_peer _ _ _)
  | inl e ↦ elim (Bool-cases (is_forwarded calls.first calls)) [
    | inl e' ↦
        rw (e, e', forward_request) (watch_ends-settled calls.adds_client calls.adds_peer _ _ _)
    | inr e' ↦ rw (e, e', forward_request) (unfold is_settled in rw other refl)
  ]
]

-- The descriptor of a socket for the upstream is not the client's.
abbrev pub IsApart : Answers → ClientState → Type 0
IsApart connection client = (u : ℕ) → connection.upstream_socket ≡ some u → (client.fd == u) ≡ false

proxy_request-connected :
    (calls : Calls) (upstream : Option ℕ) (connects registers : Bool) (client : ClientState)
    → ((u : ℕ) → upstream ≡ some u → (client.fd == u) ≡ false)
    → is_settled client.fd
        (after_forward calls
          (forward_request calls (connect_upstream upstream connects registers client))).1.1
      ≡ not (stuck_with upstream connects registers calls client)
unfolding stuck_with connect_upstream reset register forward_request after_forward
proxy_request-connected calls none connects registers client apart =
    watch_ends-settled calls.adds_client calls.adds_peer client none _
proxy_request-connected calls (some u) false registers client apart =
    watch_ends-settled calls.adds_client calls.adds_peer (reset client) none _
proxy_request-connected calls (some u) true false client apart =
    watch_ends-settled calls.adds_client calls.adds_peer (record (reset client) { peer = none })
      none _
proxy_request-connected calls (some u) true true client apart =
    linked-settled calls client u (apart u refl)

proxy_request-settled :
    (calls : Calls) (client : ClientState)
    → IsApart calls.connection client
    → is_settled client.fd (proxy_request calls client).1.1 ≡ not (is_stuck calls client)
unfolding proxy_request is_stuck handle_proxy_request_async
proxy_request-settled calls client apart =
    proxy_request-connected calls calls.connection.upstream_socket calls.connection.connects
      calls.connection.registers client apart

next_request-settled :
    (adds_client : Bool) (client : ClientState) (effects : List Effect)
    → is_settled client.fd (next_request adds_client client effects).1.1 ≡ true
unfolding next_request is_settled
next_request-settled true client effects =
    is_settled-append client.fd effects (watches client.fd) [] (or_inl _ _ (==_refl client.fd))
next_request-settled false client effects =
    is_settled-append client.fd effects (close client.fd) [] (or_inl _ _ (==_refl client.fd))

on_rule-settled :
    (r : RouteRule) (path : List ℕ) (kind : RouteType) (calls : Calls) (request_buffer : List ℕ)
    (client : ClientState)
    → IsApart calls.connection client
    → is_settled client.fd (on_rule kind calls request_buffer r.target path client).1.1
      ≡ not (rule_stuck kind calls client)
unfolding on_rule rule_stuck
on_rule-settled r path static calls request_buffer client apart =
    next_request-settled calls.adds_client client _
on_rule-settled r path cgi calls request_buffer client apart =
    next_request-settled calls.adds_client client _
on_rule-settled r path proxy calls request_buffer client apart =
    proxy_request-settled calls client apart

-- What holds of the result, where there is one.
abbrev pub Ends : Bool → ℕ → Option Proxied → Type 0
Ends stuck fd none = Unit
Ends stuck fd (some (client, (upstream, effects))) = is_settled fd effects ≡ not stuck

act-Ends :
    (action : Action) (calls : Calls) (request_buffer : List ℕ) (client : ClientState)
    → IsApart calls.connection client
    → Ends (gets_stuck action calls client) client.fd (act action calls request_buffer client)
unfolding act gets_stuck is_settled
act-Ends rejected calls request_buffer client apart = rw (==_refl client.fd) refl
act-Ends not_found calls request_buffer client apart =
    next_request-settled calls.adds_client client _
act-Ends unauthorized calls request_buffer client apart = rw (==_refl client.fd) refl
act-Ends undefined calls request_buffer client apart = tt
act-Ends (serve r path) calls request_buffer client apart =
    on_rule-settled r path r.kind calls request_buffer client apart

-- Whatever the system answers, and whatever the request and the rules are: after handle_work the client
-- has been closed or is watched for events again, but for a request under a PROXY rule whose upstream
-- is linked and then does not take the first bytes. That client is neither closed nor watched.
pub handle_work-Ends :
    (calls : Calls) (rules : List RouteRule) (request_buffer : List ℕ) (client : ClientState)
    → IsApart calls.connection client
    → Ends
        (gets_stuck (Work.handle_work request_buffer rules) calls client)
        client.fd
        (handle_work calls rules request_buffer client)
unfolding handle_work
handle_work-Ends calls rules request_buffer client apart =
    act-Ends (Work.handle_work request_buffer rules) calls request_buffer client apart
