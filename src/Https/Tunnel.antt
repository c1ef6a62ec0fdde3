-- ===== src/Https/Tunnel.antt =====
-- The forwarding from an upstream to a browser in the event loop of https/server.c: what the browser
-- does not take waits in its write buffer, and the upstream is not read until it has gone. The answers
-- of recv and of OpenSSL are arguments.
pub mod Flow
use caligo_engine.Base.{
  ℕ, Bool, true, false, Option, none, some, List, [], ◌∷◌, ◌++◌, length, take, drop, ltb,
  if◌then◌else◌,
}
use caligo_engine.Https.Outbox.{
  Answer, took, again, broken, Watch, Conn, Sent, failed, done, queued, flush_pending_write, report,
}

-- The browser's connection, whether its descriptor is on epoll, and what epoll watches the upstream's
-- socket for. The descriptor of a browser whose request has gone to an upstream is not put back.
pub record Tunnel : Type 0 where
  pub browser : Conn
  pub on_epoll : Bool
  pub upstream_watch : Watch

-- What recv answers, where no bytes are the end of the stream.
pub data Received : Type 0 where
  received : List ℕ → Received
  nothing : Received

-- What becomes of a tunnel: `lost` is the call of cleanup_client, which frees both ends, and `leaves`
-- ends the loop over the events of one epoll_wait.
pub data Step : Type 0 where
  stays leaves : Tunnel → Step
  lost : Step

-- The browser has taken a part: it is watched for writing, unless EPOLL_CTL_MOD fails because it is not
-- on epoll, and the upstream is watched for nothing.
unfoldable pub hold_back : List ℕ → List ℕ → Tunnel → Step
hold_back taken left t = stays (record t {
  browser = record t.browser {
    wire = t.browser.wire ++ taken;
    pending = left;
    watch =
        if t.on_epoll
        then record { for_read = true; for_write = true; once = true }
        else t.browser.watch;
  };
  upstream_watch = record { for_read = false; for_write = false; once = false };
})

unfoldable pub pass_on : Answer → List ℕ → Tunnel → Step
pass_on (took n) bytes t =
    if ltb n (length bytes)
    then hold_back (take n bytes) (drop n bytes) t
    else stays (record t { browser = record t.browser { wire = t.browser.wire ++ bytes } })
pass_on again bytes t = hold_back [] bytes t
pass_on broken bytes t = lost

unfoldable pub receive : Received → Answer → Tunnel → Step
receive nothing answer t = stays t
receive (received []) answer t = lost
receive (received (b ∷ bytes)) answer t = pass_on answer (take 4096 (b ∷ bytes)) t

unfoldable pub unless_waiting : List ℕ → Tunnel → Step → Step
unless_waiting [] t step = step
unless_waiting (x ∷ pending) t step = leaves t

-- The upstream is readable.
unfoldable pub from_upstream : Received → Answer → Tunnel → Step
from_upstream got answer t = unless_waiting t.browser.pending t (receive got answer t)

-- The watch of the peer that a whole flush sets; a flush of nothing sets none.
unfoldable pub wake : List ℕ → Watch → Watch
wake [] watch = watch
wake (x ∷ pending) watch = record { for_read = true; for_write = false; once = false }

unfoldable pub flushed : List ℕ → Watch → Conn × Sent → Step
flushed pending watch (c, failed) = lost
flushed pending watch (c, done) =
    stays (record { browser = c; on_epoll = true; upstream_watch = wake pending watch })
flushed pending watch (c, queued) =
    stays (record { browser = c; on_epoll = true; upstream_watch = watch })

-- The browser is writable, and so on epoll; a tunnel has no file.
unfoldable pub to_browser : Answer → Tunnel → Step
to_browser answer t =
    flushed t.browser.pending t.upstream_watch (flush_pending_write answer (report t.browser))
