-- ===== src/Http/Cgi.antt =====
-- handle_cgi_request of http/request_handler.c: the program that is started for a request, what it is
-- given, and what of its output goes out. What the system answers is an argument: whether the file may
-- be run, whether the pipes and the process are made, the rounds of epoll_wait and recv, what the
-- program writes, and what send takes. A write to the program's pipe is taken whole.
pub mod Body
pub mod Runs
pub mod Credentials
use caligo_engine.Base.{
  ℕ, zero, suc, ◌+◌, ◌-◌, ◌*◌, ◌%◌, ◌^◌, Bool, true, false, ◌&&◌, Option, none, some, List, [], ◌∷◌,
  ◌++◌, length, take, drop, ltb, leb, ◌==◌, if◌then◌else◌,
}
use caligo_engine.Base.Decimal.{read_decimal}
use caligo_engine.Base.Text.{codes, is_prefix, find_char, find_sub, find_sub_ci, c_str}
use caligo_engine.Http.Files.{ℤ, pos, negsuc, opposite, print_int, Answer, send_read}
use caligo_engine.Http.Loop.{header_end}
use caligo_engine.Http.Routes.{skip_space}
use caligo_engine.Http.Work.{find_header_value}

-- `./`, the target, and the path behind as many characters as the target has; `behind` is what stands
-- in requested_path after the end of the path, of which not all need be set.
unfoldable pub full_path : List ℕ → List ℕ → List ℕ → List ℕ
full_path path_prefix requested_path behind = take 511 (
    codes "./" ++ (path_prefix ++ c_str (drop (length path_prefix) (requested_path ++ 0 ∷ behind))))

-- A long made into an int of 32 bits, where a number that no long holds is the nearest one.
unfoldable pub fold_int : ℕ → ℤ
fold_int low = if ltb low (2 ^ 31) then pos low else opposite (2 ^ 32 - low)

unfoldable pub to_int : ℤ → ℤ
to_int (pos n) = fold_int ((if ltb n (2 ^ 63) then n else 2 ^ 63 - 1) % 2 ^ 32)
to_int (negsuc n) = fold_int ((2 ^ 64 - (if ltb n (2 ^ 63) then suc n else 2 ^ 63)) % 2 ^ 32)

unfoldable pub signed : List ℕ → ℤ
signed [] = pos 0
signed (c ∷ s) =
    if c == b'-'
    then opposite (read_decimal 0 s).0
    else if c == b'+'
    then pos (read_decimal 0 s).0
    else pos (read_decimal 0 (c ∷ s)).0

-- atoi, as strtol made into an int.
unfoldable pub atoi : List ℕ → ℤ
atoi s = to_int (signed (skip_space s))

unfoldable pub is_post : List ℕ → Bool
is_post request_buffer = is_prefix (codes "POST") request_buffer

-- The number behind the first `Content-Length:`, for POST only.
unfoldable pub content_length : List ℕ → ℤ
content_length request_buffer =
    if is_post request_buffer
    then elim (find_sub_ci (codes "Content-Length:") request_buffer) [
      | none ↦ pos 0
      | some at ↦ atoi (drop (at + 15) request_buffer)
    ]
    else pos 0

-- What the program finds in its environment.
pub record Environment : Type 0 where
  pub request_method : List ℕ
  pub content_length : List ℕ
  pub query_string : List ℕ
  pub http_authorization : Option (List ℕ)

-- The query from the first `?` to the next space, and the buffer that the NUL at that space ends.
unfoldable pub cut_query : List ℕ → List ℕ × List ℕ
cut_query request_buffer = elim (find_char b'?' request_buffer) [
  | none ↦ ([], request_buffer)
  | some query ↦ elim (find_char 32 (drop query request_buffer)) [
    | none ↦ ([], request_buffer)
    | some len ↦
        (take (len - 1) (drop (query + 1) request_buffer), take (query + len) request_buffer)
  ]
]

-- The credentials are looked for in the buffer that the query has cut.
unfoldable pub environment : List ℕ → Environment
environment request_buffer = record {
  request_method = if is_post request_buffer then codes "POST" else codes "GET";
  content_length = print_int (content_length request_buffer);
  query_string = (cut_query request_buffer).0;
  http_authorization = find_header_value (cut_query request_buffer).1 (codes "Authorization");
}

-- A round of the loop for the rest of the body: recv takes bytes, no more than there is room for;
-- EAGAIN; or an end, by a timeout, an error or a closed connection.
pub data Round : Type 0 where
  received : List ℕ → Round
  again ended : Round

unfoldable pub piece_size : ℕ → ℕ
piece_size remaining = if ltb 4096 remaining then 4096 else remaining

-- What is passed to the program; after the rounds that are given, the wait times out.
unfoldable pub feed : List Round → ℕ → List ℕ
feed [] remaining = []
feed (ended ∷ rounds) remaining = []
feed (again ∷ rounds) remaining =
    let rest = feed rounds remaining in if remaining == 0 then [] else rest
feed (received [] ∷ rounds) remaining = []
feed (received (b ∷ bytes) ∷ rounds) remaining =
    let piece = take (piece_size remaining) (b ∷ bytes) in
    let rest = feed rounds (remaining - length piece) in
    if remaining == 0 then [] else piece ++ rest

-- The part of the body that came with the header, up to a NUL.
unfoldable pub buffered : ℕ → List ℕ → List ℕ
buffered content_length request_buffer = elim (find_sub header_end request_buffer) [
  | none ↦ []
  | some at ↦ take content_length (drop (at + 4) request_buffer)
]

unfoldable pub body_of : List Round → List ℕ → ℕ → List ℕ
body_of rounds request_buffer content_length =
    let first = buffered content_length request_buffer in
    first
    ++ (if ltb (length first) content_length
        then feed rounds (content_length - length first)
        else [])

-- What the program reads from its standard input.
unfoldable pub input : List Round → List ℕ → ℤ → List ℕ
input rounds request_buffer (negsuc n) = []
input rounds request_buffer (pos n) =
    if is_post request_buffer && ltb 0 n then body_of rounds request_buffer n else []

-- The loop of read and send over the pieces that read gives.
unfoldable pub relay : (ℕ → Answer) → ℕ → List (List ℕ) → List ℕ
relay answers k [] = []
relay answers k (piece ∷ pieces) = send_read (answers k) piece (relay answers (k + 1) pieces)

pub record System : Type 0 where
  pub is_executable : List ℕ → Bool
  pub pipes : Bool
  pub forks : Bool
  pub rounds : List Round
  pub program : List ℕ → Environment → List ℕ → List (List ℕ)
  pub sends : ℕ → Answer

-- What handle_cgi_request does: it answers that there is no such file, or that the program cannot be
-- started; or it starts it, with its environment and its input, and sends what it writes.
pub data Cgi : Type 0 where
  not_found server_error : Cgi
  runs : List ℕ → Environment → List ℕ → List ℕ → Cgi

unfoldable pub run : System → List ℕ → List ℕ → Cgi
run s name request_buffer =
    let variables = environment request_buffer in
    let body = input s.rounds request_buffer (content_length request_buffer) in
    runs name variables body (relay s.sends 0 (s.program name variables body))

unfoldable pub handle_cgi_request : System → List ℕ → List ℕ → List ℕ → List ℕ → Cgi
handle_cgi_request s request_buffer path_prefix requested_path behind =
    let name = full_path path_prefix requested_path behind in
    if s.is_executable name
    then if s.pipes && s.forks then run s name request_buffer else server_error
    else not_found
