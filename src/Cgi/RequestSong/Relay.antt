-- ===== src/Cgi/RequestSong/Relay.antt =====
-- cgi_bin/request_song.c, main: the output of the command as a body in the chunked transfer coding.
-- The content of the request, the directory and the command's output are arguments; a negative
-- CONTENT_LENGTH is left out.
pub mod Dechunked
use caligo_engine.Base.{
  ℕ, zero, suc, Option, none, some, List, [], ◌∷◌, ◌++◌, length, take, ◌==◌, if◌then◌else◌,
}
use mathlib.Core.Option
use caligo_engine.Base.Hex.{hex_upper}
use caligo_engine.Base.Text.{codes, concat, c_str, fgets}
use caligo_engine.Cgi.RequestSong.{Request, no_query, overrun, launches, handle_body}

abbrev pub crlf : List ℕ
crlf = 13 ∷ 10 ∷ []

-- printf("%lX\r\n%s\r\n", strlen(line), line)
unfoldable pub print_chunk : List ℕ → List ℕ
print_chunk line = hex_upper (length line) ++ (crlf ++ (line ++ crlf))

-- printf("0\r\n\r\n")
abbrev pub last_chunk : List ℕ
last_chunk = codes "0" ++ (crlf ++ crlf)

unfoldable pub print_line : List ℕ → List ℕ → List ℕ
print_line line rest = if length line == 0 then rest else print_chunk line ++ rest

-- The loop over the lines of the output, a round for each, with `char line[1024]`.
unfoldable pub relay : ℕ → List ℕ → List ℕ
relay zero output = last_chunk
relay (suc fuel) [] = last_chunk
relay (suc fuel) (c ∷ output) =
    let (line, rest) = fgets 1023 (c ∷ output) in print_line (c_str line) (relay fuel rest)

unfoldable pub print_error : List ℕ → List ℕ
print_error message = print_chunk message ++ last_chunk

-- What popen gives for a command.
unfoldable pub launch_output : Option (List ℕ) → List ℕ
launch_output none = print_error (codes "ERROR: Failed to launch engine." ++ (10 ∷ []))
launch_output (some output) = relay (length output) output

unfoldable pub respond : (List ℕ → Option (List ℕ)) → Request → Option (List ℕ)
respond popen no_query = some (print_error (codes "ERROR: No query provided" ++ (10 ∷ [])))
respond popen overrun = none
respond popen (launches command) = some (launch_output (popen command))

-- The body that main prints, where the content is cut at 2047 bytes; `none` is a run past the end of
-- the query.
unfoldable pub body : List ℕ → (List ℕ → Option (List ℕ)) → Option (List ℕ) → Option (List ℕ)
body cwd popen none = some (print_error (codes "ERROR: No content" ++ (10 ∷ [])))
body cwd popen (some content) = respond popen (handle_body cwd (take 2047 content))

abbrev pub header : List ℕ
header = concat (
    codes "HTTP/1.1 200 OK"
    ∷ crlf
    ∷ codes "Content-Type: text/plain; charset=utf-8"
    ∷ crlf
    ∷ codes "Cache-Control: no-cache, no-transform"
    ∷ crlf
    ∷ codes "X-Accel-Buffering: no"
    ∷ crlf
    ∷ codes "Transfer-Encoding: chunked"
    ∷ crlf
    ∷ crlf
    ∷ [])

unfoldable pub main : List ℕ → (List ℕ → Option (List ℕ)) → Option (List ℕ) → Option (List ℕ)
main cwd popen content = Option.map (λ text. header ++ text) (body cwd popen content)
