-- ===== src/Https/Tunnel/Flow.antt =====
-- The browser gets what the upstream sends, in order, and the upstream waits while the browser does.
use caligo_engine.Base.{
  ℕ, ◌≤◌, ◌<◌, ◌≡◌, ◌≢◌, refl, sym, ap, subst, ◌∙◌, Bool, true, false, List, [], ◌∷◌, ◌++◌, length,
  length-drop, take, drop, ltb, ltb→lt, ◌==◌, ==_iff, if◌then◌else◌, arith, append-nil,
  append_assoc, take-append-drop, Bool-cases, inl, inr,
}
use caligo_engine.Https.Outbox.{
  Answer, took, again, broken, Watch, asleep, Conn, flush_pending, flush_pending_write, report,
}
use caligo_engine.Https.Tunnel.{
  Tunnel, Received, received, nothing, Step, stays, leaves, lost, hold_back, pass_on, receive,
  unless_waiting, from_upstream, wake, flushed, to_browser,
}

ruleset joins = (append-nil, append_assoc, take-append-drop)

-- The bytes `heard` from the upstream have gone out or wait, in order; the upstream is watched for
-- reading where none wait, and not watched where some do.
pub record IsFlowing (heard : List ℕ) (t : Tunnel) : Type 0 where
  pub in_order : t.browser.wire ++ t.browser.pending ≡ heard
  pub reads : t.browser.pending ≡ [] → t.upstream_watch.for_read ≡ true
  pub paused : 0 < length t.browser.pending → t.upstream_watch.for_read ≡ false

abbrev pub Flows : List ℕ → Step → Type 0
Flows heard lost = Unit
Flows heard (stays t) = IsFlowing heard t
Flows heard (leaves t) = IsFlowing heard t

-- What a readable upstream is heard to say: nothing while the browser has bytes waiting.
abbrev pub said : List ℕ → Received → List ℕ
said [] (received bytes) = take 4096 bytes
said [] nothing = []
said (x ∷ pending) got = []

hold_back-Flows :
    (heard taken left : List ℕ) (t : Tunnel)
    → (t.browser.wire ++ taken) ++ left ≡ heard
    → 0 < length left
    → Flows heard (hold_back taken left t)
unfolding hold_back
hold_back-Flows heard taken left t e waits = record {
  in_order = e;
  reads = λ none_left. absurd (omega (arith, ap length none_left));
  paused = λ _. refl;
}

wire_heard :
    (heard : List ℕ) (t : Tunnel)
    → IsFlowing heard t
    → t.browser.pending ≡ []
    → t.browser.wire ≡ heard
wire_heard heard t v idle =
    sym (append-nil t.browser.wire) ∙ (ap (λ r. t.browser.wire ++ r) (sym idle) ∙ v.in_order)

pass_on-Flows :
    (heard bytes : List ℕ) (answer : Answer) (t : Tunnel)
    → IsFlowing heard t
    → t.browser.pending ≡ []
    → 0 < length bytes
    → Flows (heard ++ bytes) (pass_on answer bytes t)
unfolding pass_on
pass_on-Flows heard bytes (took n) t v idle some_read =
    let w = wire_heard heard t v idle in
    elim (Bool-cases (ltb n (length bytes))) [
      | inl part ↦ rw part (
          hold_back-Flows (heard ++ bytes) (take n bytes) (drop n bytes) t
            (append_assoc t.browser.wire (take n bytes) (drop n bytes)
              ∙ (ap (λ r. t.browser.wire ++ r) (take-append-drop n bytes) ∙ ap (λ r. r ++ bytes) w))
            (omega (arith, ltb→lt n (length bytes) part, length-drop n bytes)))
      | inr whole ↦ rw whole (record {
        in_order =
            ap (λ r. (t.browser.wire ++ bytes) ++ r) idle
            ∙ (append-nil (t.browser.wire ++ bytes) ∙ ap (λ r. r ++ bytes) w);
        reads = v.reads;
        paused = v.paused;
      })
    ]
pass_on-Flows heard bytes again t v idle some_read =
    hold_back-Flows (heard ++ bytes) [] bytes t
      (ap (λ r. r ++ bytes) (append-nil t.browser.wire ∙ wire_heard heard t v idle)) some_read
pass_on-Flows heard bytes broken t v idle some_read = tt

from_upstream-Flows :
    (heard pending : List ℕ) (got : Received) (answer : Answer) (t : Tunnel)
    → IsFlowing heard t
    → t.browser.pending ≡ pending
    → Flows (heard ++ said pending got) (unless_waiting pending t (receive got answer t))
unfolding unless_waiting receive
from_upstream-Flows heard (x ∷ xs) got answer t v e = rw (append-nil heard) v
from_upstream-Flows heard [] nothing answer t v e = rw (append-nil heard) v
from_upstream-Flows heard [] (received []) answer t v e = tt
from_upstream-Flows heard [] (received (b ∷ bytes)) answer t v e =
    pass_on-Flows heard (take 4096 (b ∷ bytes)) answer t v e (omega arith)

report-parts : (c : Conn) → ((report c).wire ≡ c.wire) × ((report c).pending ≡ c.pending)
unfolding report
report-parts c = parts c.watch.once
  where
    parts :
        (b : Bool)
        → ((if b then record c { watch = asleep } else c).wire ≡ c.wire)
          × ((if b then record c { watch = asleep } else c).pending ≡ c.pending)
    parts true = (refl, refl)
    parts false = (refl, refl)

-- SSL_write takes no more bytes than it is given.
abbrev pub Fits : ℕ → Answer → Type 0
Fits given (took n) = n ≤ given
Fits given again = Unit
Fits given broken = Unit

differs : (a b : ℕ) → (a == b) ≡ false → a ≢ b
differs a b h e = let t = (==_iff a b).1 e in cc

-- The browser's connection after its flush, whose bytes waiting before it are `pending`.
flushed-Flows :
    (heard pending : List ℕ) (answer : Answer) (c : Conn) (watch : Watch)
    → c.wire ++ pending ≡ heard
    → c.pending ≡ pending
    → (pending ≡ [] → watch.for_read ≡ true)
    → (0 < length pending → watch.for_read ≡ false)
    → Fits (length pending) answer
    → Flows heard (flushed pending watch (flush_pending pending answer c))
unfolding flushed flush_pending wake
flushed-Flows heard [] answer c watch e idle reads paused fits = record {
  in_order = ap (λ r. c.wire ++ r) idle ∙ e;
  reads = λ _. reads refl;
  paused = λ h. absurd (omega (arith, ap length idle));
}
flushed-Flows heard (x ∷ xs) (took n) c watch e idle reads paused fits =
    elim (Bool-cases (n == length (x ∷ xs))) [
      | inl all ↦ rw all (record {
        in_order = append-nil (c.wire ++ x ∷ xs) ∙ e;
        reads = λ _. refl;
        paused = λ h. absurd (omega arith);
      })
      | inr part ↦ rw part (record {
        in_order =
            append_assoc c.wire (take n (x ∷ xs)) (drop n (x ∷ xs))
            ∙ (ap (λ r. c.wire ++ r) (take-append-drop n (x ∷ xs)) ∙ e);
        reads = λ none_left. absurd (
            omega (
              arith,
              length-drop n (x ∷ xs),
              ap length none_left,
              differs n (length (x ∷ xs)) part,
            ));
        paused = λ _. paused (omega arith);
      })
    ]
flushed-Flows heard (x ∷ xs) again c watch e idle reads paused fits = record {
  in_order = ap (λ r. c.wire ++ r) idle ∙ e;
  reads = λ none_left. absurd (omega (arith, ap length idle, ap length none_left));
  paused = λ _. paused (omega arith);
}
flushed-Flows heard (x ∷ xs) broken c watch e idle reads paused fits = tt

to_browser-Flows :
    (heard : List ℕ) (answer : Answer) (t : Tunnel)
    → IsFlowing heard t
    → Fits (length t.browser.pending) answer
    → Flows heard (to_browser answer t)
unfolding to_browser flush_pending_write
to_browser-Flows heard answer t v fits =
    let parts = report-parts t.browser in
    subst
      (λ p.
        Flows heard
          (flushed t.browser.pending t.upstream_watch (flush_pending p answer (report t.browser))))
      (sym parts.1)
      (flushed-Flows heard t.browser.pending answer (report t.browser) t.upstream_watch
        (ap (λ r. r ++ t.browser.pending) parts.0 ∙ v.in_order) parts.1 v.reads v.paused fits)

-- A readable upstream, with the answers to recv and SSL_write, or a writable browser, with the answer
-- to its flush.
pub data Event : Type 0 where
  upstream_readable : Received → Answer → Event
  browser_writable : Answer → Event

unfoldable pub step : Event → Tunnel → Step
step (upstream_readable got answer) t = from_upstream got answer t
step (browser_writable answer) t = to_browser answer t

unfoldable pub steps : List Event → Step → Step
steps [] s = s
steps (e ∷ events) lost = lost
steps (e ∷ events) (stays t) = steps events (step e t)
steps (e ∷ events) (leaves t) = steps events (step e t)

abbrev pub said_at : Event → Tunnel → List ℕ
said_at (upstream_readable got answer) t = said t.browser.pending got
said_at (browser_writable answer) t = []

-- All that the upstream is heard to say at these events.
unfoldable pub said_during : List Event → Step → List ℕ
said_during [] s = []
said_during (e ∷ events) lost = []
said_during (e ∷ events) (stays t) = said_at e t ++ said_during events (step e t)
said_during (e ∷ events) (leaves t) = said_at e t ++ said_during events (step e t)

abbrev pub FitsAt : Event → Tunnel → Type 0
FitsAt (upstream_readable got answer) t = Unit
FitsAt (browser_writable answer) t = Fits (length t.browser.pending) answer

unfoldable pub AreFitting : List Event → Step → Type 0
AreFitting [] s = Unit
AreFitting (e ∷ events) lost = Unit
AreFitting (e ∷ events) (stays t) = FitsAt e t × AreFitting events (step e t)
AreFitting (e ∷ events) (leaves t) = FitsAt e t × AreFitting events (step e t)

step-Flows :
    (heard : List ℕ) (e : Event) (t : Tunnel)
    → IsFlowing heard t
    → FitsAt e t
    → Flows (heard ++ said_at e t) (step e t)
unfolding step from_upstream
step-Flows heard (upstream_readable got answer) t v fits =
    from_upstream-Flows heard t.browser.pending got answer t v refl
step-Flows heard (browser_writable answer) t v fits =
    subst (λ r. Flows r (to_browser answer t)) (sym (append-nil heard))
      (to_browser-Flows heard answer t v fits)

-- Through any run of events, while both ends are there, the browser has been sent or keeps waiting
-- what the upstream said, in order, and the upstream is watched for reading exactly while nothing
-- waits, if that is so at the start and no flush takes more bytes than wait.
pub steps-Flows :
    (heard : List ℕ) (events : List Event) (s : Step)
    → Flows heard s
    → AreFitting events s
    → Flows (heard ++ said_during events s) (steps events s)
unfolding steps said_during AreFitting
steps-Flows heard [] s v fits = subst (λ r. Flows r s) (sym (append-nil heard)) v
steps-Flows heard (e ∷ events) lost v fits = tt
steps-Flows heard (e ∷ events) (stays t) v fits =
    subst (λ r. Flows r (steps events (step e t)))
      (append_assoc heard (said_at e t) (said_during events (step e t)))
      (steps-Flows (heard ++ said_at e t) events (step e t) (step-Flows heard e t v fits.0) fits.1)
steps-Flows heard (e ∷ events) (leaves t) v fits =
    subst (λ r. Flows r (steps events (step e t)))
      (append_assoc heard (said_at e t) (said_during events (step e t)))
      (steps-Flows (heard ++ said_at e t) events (step e t) (step-Flows heard e t v fits.0) fits.1)
