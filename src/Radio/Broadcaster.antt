-- ===== src/Radio/Broadcaster.antt =====
-- radio_server.c, broadcast_thread_function: the reading of the audio file, from its start again at its
-- end. What fread and fopen answer is an argument; the pace between two chunks is left out.
use caligo_engine.Base.{
  ℕ, ◌≡◌, refl, sym, ap, subst, ◌∙◌, Option, none, some, List, [], ◌∷◌, ◌++◌, length, take, drop,
  append-nil, append_assoc, take-append-drop, length-take, arith,
}
use caligo_engine.Radio.{RingBuffer, broadcast}

-- BUFFER_SIZE
abbrev pub buffer_size : ℕ
buffer_size = 4096

-- The part of the file that is not read yet, and the ring.
pub record Broadcaster : Type 0 where
  pub unread : List ℕ
  pub ring : RingBuffer

-- fread reads until the buffer is full or the file ends, or it fails after some bytes.
pub data Fread : Type 0 where
  fills : Fread
  fails : ℕ → Fread

unfoldable pub fread : Fread → List ℕ → List ℕ
fread fills unread = take buffer_size unread
fread (fails n) unread = take n (take buffer_size unread)

-- What a round does: a chunk goes to the ring, the file is opened again, or nothing.
pub data Did : Type 0 where
  puts opens : List ℕ → Did
  waits : Did

-- `none` is the call of exit.
unfoldable pub reopen : Option (List ℕ) → Broadcaster → Option (Broadcaster × Did)
reopen none b = none
reopen (some file) b = some (record b { unread = file }, opens file)

-- The round with the bytes that were read.
unfoldable pub after_fread :
    List ℕ → Fread → Option (List ℕ) → Broadcaster → Option (Broadcaster × Did)
after_fread [] fills fopen b = reopen fopen b
after_fread [] (fails n) fopen b = some (b, waits)
after_fread (x ∷ bytes) answer fopen b = some (
  record { unread = drop (length (x ∷ bytes)) b.unread; ring = broadcast (x ∷ bytes) b.ring },
  puts (x ∷ bytes),
)

unfoldable pub broadcaster_round :
    Fread → Option (List ℕ) → Broadcaster → Option (Broadcaster × Did)
broadcaster_round answer fopen b = after_fread (fread answer b.unread) answer fopen b

-- What a round takes from the front of what is unread, and what it puts behind it.
unfoldable pub sent : Did → List ℕ
sent (puts bytes) = bytes
sent (opens file) = []
sent waits = []

unfoldable pub opened : Did → List ℕ
opened (puts bytes) = []
opened (opens file) = file
opened waits = []

-- Rounds with their answers, up to exit; with what was sent and what was opened in them.
unfoldable pub after_rounds :
    Did → Option (Broadcaster × (List ℕ × List ℕ)) → Option (Broadcaster × (List ℕ × List ℕ))
after_rounds did none = none
after_rounds did (some (b, (bytes, files))) = some (b, (sent did ++ bytes, opened did ++ files))

unfoldable pub next_rounds :
    (Broadcaster → Option (Broadcaster × (List ℕ × List ℕ)))
    → Option (Broadcaster × Did)
    → Option (Broadcaster × (List ℕ × List ℕ))
next_rounds rest none = none
next_rounds rest (some (b, did)) = after_rounds did (rest b)

unfoldable pub run :
    List (Fread × Option (List ℕ)) → Broadcaster → Option (Broadcaster × (List ℕ × List ℕ))
run [] b = some (b, ([], []))
run ((answer, fopen) ∷ rounds) b = next_rounds (run rounds) (broadcaster_round answer fopen b)

drop-length : (p rest : List ℕ) → drop (length p) (p ++ rest) ≡ rest
drop-length [] rest = refl
drop-length (x ∷ p) rest = drop-length p rest

prefix-drop : (p rest l : List ℕ) → p ++ rest ≡ l → p ++ drop (length p) l ≡ l
prefix-drop p rest l e =
    subst (λ l. p ++ drop (length p) l ≡ l) e (ap (λ r. p ++ r) (drop-length p rest))

fread-drop : (answer : Fread) (l : List ℕ) → fread answer l ++ drop (length (fread answer l)) l ≡ l
unfolding fread
fread-drop fills l =
    prefix-drop (take buffer_size l) (drop buffer_size l) l (take-append-drop buffer_size l)
fread-drop (fails n) l =
    prefix-drop (take n (take buffer_size l)) (drop n (take buffer_size l) ++ drop buffer_size l) l
      (sym (append_assoc (take n (take buffer_size l)) _ _)
        ∙ (ap (λ p. p ++ drop buffer_size l) (take-append-drop n (take buffer_size l))
            ∙ take-append-drop buffer_size l))

fread-nil : (l : List ℕ) → fread fills l ≡ [] → l ≡ []
unfolding fread
fread-nil [] e = refl
fread-nil (x ∷ l) e = absurd (omega (arith, length-take buffer_size (x ∷ l), ap length e))

abbrev IsOfRound : List ℕ → Option (Broadcaster × Did) → Type 0
IsOfRound unread none = Unit
IsOfRound unread (some (b, did)) = sent did ++ b.unread ≡ unread ++ opened did

-- What has been sent and what is unread is what was unread and what has been opened, in order.
abbrev pub IsOfRun : List ℕ → Option (Broadcaster × (List ℕ × List ℕ)) → Type 0
IsOfRun unread none = Unit
IsOfRun unread (some (b, (bytes, files))) = bytes ++ b.unread ≡ unread ++ files

after_fread-IsOfRound :
    (bytes : List ℕ) (answer : Fread) (fopen : Option (List ℕ)) (b : Broadcaster)
    → fread answer b.unread ≡ bytes
    → IsOfRound b.unread (after_fread bytes answer fopen b)
unfolding after_fread reopen sent opened
after_fread-IsOfRound [] fills none b e = tt
after_fread-IsOfRound [] fills (some file) b e = ap (λ u. u ++ file) (sym (fread-nil b.unread e))
after_fread-IsOfRound [] (fails n) fopen b e = sym (append-nil b.unread)
after_fread-IsOfRound (x ∷ bytes) answer fopen b e =
    subst (λ p. p ++ drop (length p) b.unread ≡ b.unread) e (fread-drop answer b.unread)
    ∙ sym (append-nil b.unread)

after_rounds-IsOfRun :
    (unread unread' : List ℕ) (did : Did) (o : Option (Broadcaster × (List ℕ × List ℕ)))
    → sent did ++ unread' ≡ unread ++ opened did
    → IsOfRun unread' o
    → IsOfRun unread (after_rounds did o)
unfolding after_rounds
after_rounds-IsOfRun unread unread' did none e e' = tt
after_rounds-IsOfRun unread unread' did (some (b, (bytes, files))) e e' =
    append_assoc (sent did) bytes b.unread
    ∙ (ap (λ l. sent did ++ l) e'
        ∙ (sym (append_assoc (sent did) unread' files)
            ∙ (ap (λ l. l ++ files) e ∙ append_assoc unread (opened did) files)))

next_rounds-IsOfRun :
    (unread : List ℕ) (rest : Broadcaster → Option (Broadcaster × (List ℕ × List ℕ)))
    (r : Option (Broadcaster × Did))
    → IsOfRound unread r
    → ((b : Broadcaster) → IsOfRun b.unread (rest b))
    → IsOfRun unread (next_rounds rest r)
unfolding next_rounds
next_rounds-IsOfRun unread rest none e h = tt
next_rounds-IsOfRun unread rest (some (b, did)) e h =
    after_rounds-IsOfRun unread b.unread did (rest b) e (h b)

-- Whatever fread and fopen answer, up to exit: the bytes that went to the ring and then those that are
-- not read yet are those that were unread and then each file that was opened, from its start to its
-- end. No byte of the stream is skipped, doubled or put out of order.
pub run-IsOfRun :
    (rounds : List (Fread × Option (List ℕ))) (b : Broadcaster) → IsOfRun b.unread (run rounds b)
unfolding run broadcaster_round
run-IsOfRun [] b = sym (append-nil b.unread)
run-IsOfRun ((answer, fopen) ∷ rounds) b =
    next_rounds-IsOfRun b.unread (run rounds) _
      (after_fread-IsOfRound (fread answer b.unread) answer fopen b refl)
      (λ b'. run-IsOfRun rounds b')
