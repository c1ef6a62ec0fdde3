-- ===== src/Http/Cgi/Runs.antt =====
-- A program that is started: its input and what of its output goes out.
use caligo_engine.Base.{
  ℕ, ◌+◌, ◌≤◌, ◌<◌, ◌≡◌, refl, ap, ◌∙◌, true, some, List, [], ◌∷◌, ◌++◌, All, length, take, drop,
  ltb, arith, take_all, Bool-cases, inl, inr, ltb_false→le,
}
use caligo_engine.Base.Text.{concat, find_sub}
use caligo_engine.Http.Files.{pos, Answer, took, send_read}
use caligo_engine.Http.Loop.{header_end}
use caligo_engine.Http.Cgi.{
  full_path, is_post, content_length, Environment, environment, Round, input, relay, System, runs,
  run, handle_cgi_request,
}
use caligo_engine.Http.Cgi.Body.{IsShort, said, body_of-said}

-- What a read of the program's output gives.
abbrev pub IsPiece : List ℕ → Type 0
IsPiece piece = (0 < length piece) × (length piece ≤ 1024)

-- Every send takes all of such a piece.
abbrev pub AreWhole : (ℕ → Answer) → Type 0
AreWhole answers = (k : ℕ) → (n : ℕ) × (answers k ≡ took n) × (1024 ≤ n)

send_read-whole :
    (n : ℕ) (piece more : List ℕ)
    → IsPiece piece
    → 1024 ≤ n
    → send_read (took n) piece more ≡ piece ++ more
unfolding send_read
send_read-whole n [] more h room = absurd (omega (arith, h.0))
send_read-whole n (b ∷ piece) more h room =
    ap (λ l. l ++ more) (take_all n (b ∷ piece) (omega (arith, h.1, room)))

relay-concat :
    (answers : ℕ → Answer) (k : ℕ) (pieces : List (List ℕ))
    → AreWhole answers
    → All IsPiece pieces
    → relay answers k pieces ≡ concat pieces
unfolding relay
relay-concat answers k [] whole h = refl
relay-concat answers k (piece ∷ pieces) whole h =
    let (n, taken, room) = whole k in
    rw taken (
      send_read-whole n piece (relay answers (k + 1) pieces) h.0 room
      ∙ ap (λ l. piece ++ l) (relay-concat answers (k + 1) pieces whole h.1))

input-said :
    (rounds : List Round) (request_buffer : List ℕ) (at n : ℕ)
    → is_post request_buffer ≡ true
    → find_sub header_end request_buffer ≡ some at
    → All IsShort rounds
    → input rounds request_buffer (pos n) ≡ take n (drop (at + 4) request_buffer ++ said rounds)
unfolding input
input-said rounds request_buffer at n post e h = rw post (elim (Bool-cases (ltb 0 n)) [
  | inl some_left ↦ rw some_left (body_of-said rounds request_buffer at n e h)
  | inr empty ↦
      let zero_left : n ≡ 0 = omega (arith, ltb_false→le 0 n empty) in rw empty (rw zero_left refl)
])

-- A POST request for a program that may be run and is started: it reads the body from behind the
-- header, as it came with the header and then in pieces of 4096 bytes at most, up to as many bytes as
-- the content length makes in an int, if that is not negative; and if every send takes all that it is given, what it writes goes out, piece by piece.
pub handle_cgi_request-runs :
    (s : System) (request_buffer path_prefix requested_path behind : List ℕ) (at n : ℕ)
    → (let name = full_path path_prefix requested_path behind in s.is_executable name ≡ true)
    → s.pipes ≡ true
    → s.forks ≡ true
    → is_post request_buffer ≡ true
    → content_length request_buffer ≡ pos n
    → find_sub header_end request_buffer ≡ some at
    → All IsShort s.rounds
    → AreWhole s.sends
    → ((name : List ℕ) (variables : Environment) (body : List ℕ)
        → All IsPiece (s.program name variables body))
    → let name = full_path path_prefix requested_path behind in
      let variables = environment request_buffer in
      let body = take n (drop (at + 4) request_buffer ++ said s.rounds) in
      handle_cgi_request s request_buffer path_prefix requested_path behind
      ≡ runs name variables body (concat (s.program name variables body))
unfolding handle_cgi_request run
handle_cgi_request-runs s request_buffer path_prefix requested_path behind at n executable pipes
      forks post length_is e h whole pieces =
    let name = full_path path_prefix requested_path behind in
    let variables = environment request_buffer in
    let body_is =
      ap (input s.rounds request_buffer) length_is
      ∙ input-said s.rounds request_buffer at n post e h in
    rw (executable, pipes, forks)
      (ap (λ b. runs name variables b (relay s.sends 0 (s.program name variables b))) body_is
        ∙ ap (runs name variables (take n (drop (at + 4) request_buffer ++ said s.rounds)))
            (relay-concat s.sends 0 _ whole (pieces name variables _)))
