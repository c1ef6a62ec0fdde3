-- ===== src/Https/Requests/Watching.antt =====
-- Whether a client is watched after its request has been handled.
use caligo_engine.Base.{
  ℕ, ◌≡◌, refl, sym, Bool, true, false, Option, none, some, List, [], if◌then◌else◌, ◌||◌, ltb,
  length, is_some, ◌∙◌,
}
use caligo_engine.Base.Text.{c_str}
use caligo_engine.Http.Routes.{RouteType, static, cgi, proxy, RouteRule}
use caligo_engine.Http.Work.{Action, rejected, not_found, unauthorized, undefined, serve}
use caligo_engine.Https.Outbox.{Answer, asleep}
use caligo_engine.Https.Events.{
  Client, Fate, kept, queued, gone, used_freed, queued_freed, read_request, watched, is_waiting,
  after_work,
}
use caligo_engine.Https.Requests.{
  Environment, Calls, Left, rearmed, left, choose, send_text, respond, reset, link, returns,
  handle_proxy_request_async, on_rule, act, handle_work,
}

-- A client that is there is watched for reading, and for writing exactly if bytes wait, a file is not
-- read to its end or OpenSSL wants to write; one that epoll does not take has been freed.
abbrev pub IsSettled : Fate → Type 0
IsSettled (kept c) =
    (c.conn.watch.for_read ≡ true)
    × (c.conn.watch.for_write
        ≡ (ltb 0 (length c.conn.pending) || is_some c.conn.file_stream || c.ssl_want_write))
IsSettled gone = Unit
IsSettled (queued c) = ⊥
IsSettled used_freed = ⊥
IsSettled queued_freed = ⊥

-- The descriptor stays off epoll.
abbrev pub IsOff : Left → Type 0
IsOff (left c) = c.conn.watch ≡ asleep
IsOff (rearmed fate) = ⊥

abbrev pub IsRearmed : Left → Type 0
IsRearmed (left c) = ⊥
IsRearmed (rearmed fate) = IsSettled fate

unfoldable pub is_answered : RouteType → Bool
is_answered static = true
is_answered cgi = true
is_answered proxy = false

-- Whether handle_work comes to its last epoll_ctl.
unfoldable pub goes_through : Action → Bool
goes_through rejected = false
goes_through not_found = true
goes_through unauthorized = false
goes_through undefined = false
goes_through (serve r path) = is_answered r.kind

abbrev pub Leaves : Bool → Option (Environment × Left) → Type 0
Leaves b none = Unit
Leaves true (some (env, end)) = IsRearmed end
Leaves false (some (env, end)) = IsOff end

after_work-IsSettled : (registers : Bool) (c : Client) → IsSettled (after_work registers c)
unfolding after_work watched is_waiting
after_work-IsSettled false c = tt
after_work-IsSettled true c = by_waiting (is_waiting c) refl
  where
    by_waiting :
        (b : Bool)
        → is_waiting c ≡ b
        → IsSettled (
            if b
            then kept (watched (record { for_read = true; for_write = true; once = true }) c)
            else kept (
                watched
                  (record { for_read = true; for_write = false; once = true })
                  (record c { state = read_request; buffer = [] })))
    by_waiting true e = (refl, sym e)
    by_waiting false e = (refl, sym e)

-- The branch of a PROXY rule sets no watch of the client.
link-watch :
    (socket connects sends registers : Bool) (answer : Answer) (c : Client)
    → (link socket connects sends registers answer c).0.conn.watch ≡ c.conn.watch
unfolding link respond send_text reset
link-watch false connects sends registers answer c = refl
link-watch true false sends registers answer c = refl
link-watch true true false registers answer c = refl
link-watch true true true false answer c = refl
link-watch true true true true answer c = refl

on_rule-Leaves :
    (kind : RouteType) (calls : Calls) (target path : List ℕ) (env : Environment) (c : Client)
    → c.conn.watch ≡ asleep
    → Leaves (is_answered kind) (some (on_rule kind calls target path env c))
unfolding is_answered on_rule returns handle_proxy_request_async
on_rule-Leaves static calls target path env c off = after_work-IsSettled calls.registers _
on_rule-Leaves cgi calls target path env c off = after_work-IsSettled calls.registers _
on_rule-Leaves proxy calls target path env c off =
    link-watch calls.upstream_socket calls.connects calls.sends calls.registers_upstream
      (calls.answers 0) c
    ∙ off

act-Leaves :
    (action : Action) (calls : Calls) (env : Environment) (c : Client)
    → c.conn.watch ≡ asleep
    → Leaves (goes_through action) (act action calls env c)
unfolding goes_through act returns respond send_text
act-Leaves rejected calls env c off = off
act-Leaves not_found calls env c off = after_work-IsSettled calls.registers _
act-Leaves unauthorized calls env c off = off
act-Leaves undefined calls env c off = tt
act-Leaves (serve r path) calls env c off = on_rule-Leaves r.kind calls r.target path env c off

-- Whatever the calls answer, for a client that EPOLL_CTL_DEL has taken off epoll: one whose request is
-- refused, lacks its credentials or goes to an upstream is off epoll still when handle_work returns.
-- Any other is freed, where epoll does not take it, or watched for reading, and for writing exactly if
-- bytes wait, a file is not read to its end or OpenSSL wants to write.
pub handle_work-Leaves :
    (calls : Calls) (rules : List RouteRule) (env : Environment) (c : Client)
    → c.conn.watch ≡ asleep
    → Leaves (goes_through (choose (c_str c.buffer) rules)) (handle_work calls rules env c)
unfolding handle_work
handle_work-Leaves calls rules env c off =
    act-Leaves (choose (c_str c.buffer) rules) calls env c off
