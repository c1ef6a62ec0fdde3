-- ===== src/Radio/Main/Count.antt =====
-- How often a descriptor is watched, listening or closed, and what the operations change of that.
use caligo_engine.Base.{
  ℕ, zero, suc, ◌+◌, ◌<◌, ◌≡◌, refl, subst, ap, ◌∙◌, Bool, true, false, List, [], ◌∷◌, map, length,
  set, get_or, ◌==◌, ==_iff, if◌then◌else◌, arith,
}
use caligo_engine.Radio.{
  RadioClient, Sending, delivered, skipped, gone, Effect, sends, closes, Answers, settle,
  send_chunk, send_all,
}
use caligo_engine.Radio.Main.{unwatch, put_closed}

unfoldable pub one_if : Bool → ℕ
one_if true = 1
one_if false = 0

-- How often a descriptor is in a list, and in the lists of the sender threads.
unfoldable pub count : ℕ → List ℕ → ℕ
count fd [] = 0
count fd (other ∷ fds) = one_if (fd == other) + count fd fds

abbrev pub fds : List RadioClient → List ℕ
fds clients = map (λ (c : RadioClient). c.fd) clients

unfoldable pub count_listening : ℕ → List (List RadioClient) → ℕ
count_listening fd [] = 0
count_listening fd (clients ∷ lists) = count fd (fds clients) + count_listening fd lists

pub count-unwatch :
    (fd other : ℕ) (l : List ℕ)
    → 0 < count other l
    → one_if (fd == other) + count fd (unwatch other l) ≡ count fd l
unfolding count unwatch
count-unwatch fd other [] h = absurd (omega arith)
count-unwatch fd other (x ∷ l) h = by_case (other == x) refl (count-unwatch fd other l)
  where
    by_case :
        (b : Bool)
        → (other == x) ≡ b
        → (0 < count other l → one_if (fd == other) + count fd (unwatch other l) ≡ count fd l)
        → one_if (fd == other) + count fd (if b then l else x ∷ unwatch other l)
          ≡ one_if (fd == x) + count fd l
    by_case true e rest = ap (λ y. one_if (fd == y) + count fd l) ((==_iff other x).0 e)
    by_case false e rest =
        let found : 0 < count other l =
          subst (λ n. 0 < n) (ap (λ b. one_if b + count other l) e ∙ unfold one_if in omega arith)
            h in
        omega (arith, rest found)

pub count_listening-set :
    (fd i : ℕ) (lists : List (List RadioClient)) (clients : List RadioClient)
    → i < length lists
    → count_listening fd (set lists i clients) + count fd (fds (get_or lists i []))
      ≡ count_listening fd lists + count fd (fds clients)
unfolding count_listening
count_listening-set fd i [] clients h = absurd (omega arith)
count_listening-set fd zero (l ∷ lists) clients h = omega arith
count_listening-set fd (suc i) (l ∷ lists) clients h =
    omega (arith, count_listening-set fd i lists clients (omega (arith, h)))

pub count-put_closed :
    (fd : ℕ) (effects : List Effect) (closed : List ℕ)
    → count fd (put_closed effects closed) ≡ count fd (put_closed effects []) + count fd closed
unfolding count put_closed
count-put_closed fd [] closed = omega arith
count-put_closed fd (sends other bytes ∷ effects) closed = count-put_closed fd effects closed
count-put_closed fd (closes other ∷ effects) closed =
    omega (arith, count-put_closed fd effects closed)

-- A listener is kept or closed.
settle-count :
    (fd index : ℕ) (c : RadioClient) (r : List ℕ × Sending) (rest : List RadioClient × List Effect)
    → count fd (fds (settle index c r rest).0) + count fd (put_closed (settle index c r rest).1 [])
      ≡ one_if (fd == c.fd) + (count fd (fds rest.0) + count fd (put_closed rest.1 []))
unfolding settle count put_closed
settle-count fd index c (sent, delivered) (kept, effects) = omega arith
settle-count fd index c (sent, skipped) (kept, effects) = omega arith
settle-count fd index c (sent, gone) (kept, effects) = omega arith

pub send_all-count :
    (fd : ℕ) (answers : ℕ → Answers) (k index : ℕ) (header chunk : List ℕ)
    (clients : List RadioClient)
    → count fd (fds (send_all answers k index header chunk clients).0)
        + count fd (put_closed (send_all answers k index header chunk clients).1 [])
      ≡ count fd (fds clients)
unfolding send_all count put_closed
send_all-count fd answers k index header chunk [] = refl
send_all-count fd answers k index header chunk (c ∷ clients) = omega (
  arith,
  settle-count fd index c (send_chunk (answers k) header chunk)
      (send_all answers (k + 1) index header chunk clients),
  send_all-count fd answers (k + 1) index header chunk clients,
)
