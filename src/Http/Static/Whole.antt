-- ===== src/Http/Static/Whole.antt =====
-- serve_static_file for a range that a client asks for.
use caligo_engine.Base.{
  ℕ, ◌+◌, ◌-◌, ◌^◌, ◌≤◌, ◌<◌, ◌≡◌, refl, ap, ◌∙◌, Option, some, List, [], ◌∷◌, ◌++◌, length, take,
  drop, arith, append-nil, take_all, length-take,
}
use caligo_engine.Base.Decimal.{decimal}
use caligo_engine.Base.Text.{codes}
use caligo_engine.Http.Files.{pos, Scanned, both, find_range, Answer, took, send_read, serve_file}
use caligo_engine.Http.Files.Ranges.{AreWhole, serve_file-range}
use caligo_engine.Http.Serve.{opens, resolve_static}
use caligo_engine.Http.Static.{header_lines, header, sent, send_file, open_file, serve_static_file}
use caligo_engine.Http.Static.Header.{scan_range-both}
use caligo_engine.Http.Work.{find_header_value, get_content_type}

-- The header of a range from `s` to `e`.
abbrev pub range_header : List ℕ → ℕ → ℕ → List ℕ → List ℕ
range_header name s e file =
    header (codes "close") (get_content_type name)
      (record { status_code = 206; start_byte = pos s; end_byte = pos e }) (length file)

send_read-all : (n : ℕ) (text : List ℕ) → length text ≤ n → send_read (took n) text [] ≡ text
unfolding send_read
send_read-all n [] h = refl
send_read-all n (c ∷ text) h = append-nil _ ∙ take_all n (c ∷ text) h

length-header :
    (name : List ℕ) (s e : ℕ) (file : List ℕ) → length (range_header name s e file) ≤ 511
unfolding header
length-header name s e file = omega (
  arith,
  length-take 511 (
      header_lines (codes "close") (get_content_type name)
        (record { status_code = 206; start_byte = pos s; end_byte = pos e }) (length file)),
)

-- A request for a range that lies in the file is answered with the header of that range and then, if
-- every send takes all that it is given, the bytes of the file from its first to its last.
pub serve_static_file-range :
    (n : ℕ) (answers : ℕ → Answer) (realpath fopen : List ℕ → Option (List ℕ))
    → (request_buffer path_prefix requested_path name file : List ℕ) (s e : ℕ) → 511 ≤ n
    → AreWhole answers
    → resolve_static realpath path_prefix requested_path ≡ opens name
    → fopen name ≡ some file
    → find_header_value request_buffer (codes "Range")
      ≡ some (codes "bytes=" ++ (decimal s ++ (b'-' ∷ decimal e)))
    → s ≤ e
    → e < length file
    → length file < 2 ^ 63
    → serve_static_file (took n) answers realpath fopen request_buffer path_prefix requested_path
      ≡ sent (range_header name s e file ++ take (e - s + 1) (drop s file))
unfolding serve_static_file open_file send_file serve_file find_range
serve_static_file-range n answers realpath fopen request_buffer path_prefix requested_path name file
      s e room whole resolved opened asked order inside small =
    let ends : Scanned = both (pos s) (pos e) in
    let scanned =
      scan_range-both s e (omega (arith, order, inside, small)) (omega (arith, inside, small)) in
    let (_, body) =
      serve_file-range answers (some ends) file s e whole refl refl order inside small in
    rw (resolved, open_file)
      (rw (opened, open_file)
        (rw (asked, send_file)
          (ap
              (λ x.
                let (r, _, out) = serve_file answers (some x) file in
                sent (
                  send_read (took n)
                    (header (codes "close") (get_content_type name) r (length file)) []
                  ++ out))
              scanned
            ∙ ap (λ x. sent (x ++ (serve_file answers (some ends) file).2))
                (send_read-all n (range_header name s e file)
                  (omega (arith, length-header name s e file, room)))
            ∙ ap (λ x. sent (range_header name s e file ++ x)) body)))
