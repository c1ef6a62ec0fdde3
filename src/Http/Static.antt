-- ===== src/Http/Static.antt =====
-- serve_static_file of http/request_handler.c as a whole: the file that is opened, the range that the
-- request asks for, the text of the header, and what goes out. The path names, the files and the
-- answers of send are arguments. A number that does not fit `long` is left out.
pub mod Header
pub mod Whole
use caligo_engine.Base.{
  ℕ, zero, suc, ◌+◌, ◌-◌, Bool, true, false, ◌&&◌, Option, none, some, List, [], ◌∷◌, ◌++◌, length,
  take, drop, ◌==◌, if◌then◌else◌,
}
use mathlib.Core.Option
use caligo_engine.Base.Decimal.{digit_value, decimal, read_decimal}
use caligo_engine.Base.Text.{codes, concat, is_prefix}
use caligo_engine.Http.Files.{
  ℤ, pos, opposite, print_int, Scanned, both, first, neither, Range, find_range, content_length,
  Answer, send_read, serve_file,
}
use caligo_engine.Http.Routes.{skip_space}
use caligo_engine.Http.Serve.{not_found, bad_gateway, opens, Resolved, resolve_static}
use caligo_engine.Http.Work.{crlf, find_header_value, get_content_type}

-- The digits of %ld, of which there must be one.
unfoldable pub scan_digits : (ℕ → ℤ) → List ℕ → Option (ℤ × List ℕ)
scan_digits sign [] = none
scan_digits sign (c ∷ s) = elim (digit_value c) [
  | none ↦ none
  | some d ↦ some (sign (read_decimal d s).0, (read_decimal d s).1)
]

unfoldable pub scan_sign : List ℕ → Option (ℤ × List ℕ)
scan_sign [] = none
scan_sign (c ∷ s) =
    if c == b'-'
    then scan_digits opposite s
    else if c == b'+'
    then scan_digits pos s
    else scan_digits pos (c ∷ s)

-- What %ld reads, and what is left.
unfoldable pub scan_long : List ℕ → Option (ℤ × List ℕ)
scan_long s = scan_sign (skip_space s)

unfoldable pub scan_end : ℤ → List ℕ → Scanned
scan_end start_byte [] = first start_byte
scan_end start_byte (c ∷ s) =
    if c == b'-'
    then elim (scan_long s) [
      | none ↦ first start_byte
      | some (end_byte, rest) ↦ both start_byte end_byte
    ]
    else first start_byte

-- The two calls of sscanf, with "bytes=%ld-%ld" and, unless that gives two numbers, "bytes=%ld-".
unfoldable pub scan_range : List ℕ → Scanned
scan_range range_header =
    if is_prefix (codes "bytes=") range_header
    then elim (scan_long (drop 6 range_header)) [
      | none ↦ neither
      | some (start_byte, rest) ↦ scan_end start_byte rest
    ]
    else neither

unfoldable pub reason : ℕ → List ℕ
reason status_code = if status_code == 200 then codes "OK" else codes "Partial Content"

-- The lines of the header; `connection` is how the last one ends.
unfoldable pub header_lines : List ℕ → List ℕ → Range → ℕ → List ℕ
header_lines connection content_type r file_size = concat (
    codes "HTTP/1.1 "
    ∷ decimal r.status_code
    ∷ codes " "
    ∷ reason r.status_code
    ∷ crlf
    ∷ codes "Content-Type: "
    ∷ content_type
    ∷ crlf
    ∷ codes "Content-Length: "
    ∷ print_int (content_length r)
    ∷ crlf
    ∷ codes "Accept-Ranges: bytes"
    ∷ crlf
    ∷ codes "Content-Range: bytes "
    ∷ print_int r.start_byte
    ∷ codes "-"
    ∷ print_int r.end_byte
    ∷ codes "/"
    ∷ decimal file_size
    ∷ crlf
    ∷ codes "Connection: "
    ∷ connection
    ∷ crlf
    ∷ crlf
    ∷ [])

-- The text in `char header[512]`.
unfoldable pub header : List ℕ → List ℕ → Range → ℕ → List ℕ
header connection content_type r file_size =
    take 511 (header_lines connection content_type r file_size)

-- What goes out: a status, or bytes of the header and of the body.
pub data Response : Type 0 where
  no_file no_root : Response
  sent : List ℕ → Response

-- The header goes out in one call of send, whose answer is not looked at.
unfoldable pub send_file : Answer → (ℕ → Answer) → List ℕ → List ℕ → List ℕ → Response
send_file to_header answers request_buffer resolved_path file =
    let scanned = Option.map scan_range (find_header_value request_buffer (codes "Range")) in
    let (r, n, body) = serve_file answers scanned file in
    let text = header (codes "close") (get_content_type resolved_path) r (length file) in
    sent (send_read to_header text [] ++ body)

unfoldable pub open_file :
    Answer → (ℕ → Answer) → (List ℕ → Option (List ℕ)) → List ℕ → Resolved → Response
open_file to_header answers fopen request_buffer not_found = no_file
open_file to_header answers fopen request_buffer bad_gateway = no_root
open_file to_header answers fopen request_buffer (opens p) = elim (fopen p) [
  | none ↦ no_file
  | some file ↦ send_file to_header answers request_buffer p file
]

-- A file whose size fstat does not give is one that `fopen` does not find: both are answered alike.
unfoldable pub serve_static_file :
    Answer
    → (ℕ → Answer)
    → (List ℕ → Option (List ℕ))
    → (List ℕ → Option (List ℕ))
    → List ℕ
    → List ℕ
    → List ℕ
    → Response
serve_static_file to_header answers realpath fopen request_buffer path_prefix requested_path =
    open_file to_header answers fopen request_buffer
      (resolve_static realpath path_prefix requested_path)
