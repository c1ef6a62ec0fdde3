-- ===== src/Radio/Chunks.antt =====
-- What a listener is sent, read by a reader of the chunked transfer coding.
use caligo_engine.Base.{
  ℕ, ◌+◌, ◌^◌, ◌≤◌, ◌<◌, ◌≡◌, refl, ap, ◌∙◌, ◌&&◌, Option, none, some, List, [], ◌∷◌, ◌++◌, length,
  take, drop, map, ◌==◌, if◌then◌else◌, arith, append_assoc, length-append, length-take, take_all,
  take-append, drop-append,
}
use caligo_engine.Base.Hex.{hex, hex_value, read_hex, read_hex-hex}
use caligo_engine.Radio.{
  RadioClient, took, Sending, delivered, skipped, gone, Effect, sends, closes, send_piece, and_send,
  crlf, chunk_header, Answers, send_chunk, settle, send_all,
}

unfoldable pub skip_crlf : List ℕ → Option (List ℕ)
skip_crlf [] = none
skip_crlf (a ∷ []) = none
skip_crlf (a ∷ b ∷ s) = if a == 13 && b == 10 then some s else none

abbrev pub unframe_end : List ℕ → Option (List ℕ) → Option (List ℕ × List ℕ)
unframe_end chunk none = none
unframe_end chunk (some rest) = some (chunk, rest)

abbrev pub unframe_data : ℕ → Option (List ℕ) → Option (List ℕ × List ℕ)
unframe_data size none = none
unframe_data size (some body) = unframe_end (take size body) (skip_crlf (drop size body))

abbrev pub unframe_size : ℕ × List ℕ → Option (List ℕ × List ℕ)
unframe_size (size, s) = unframe_data size (skip_crlf s)

-- RFC 7230, section 4.1: the size, the data and their two line ends; the data, and what follows.
abbrev pub unframe : List ℕ → Option (List ℕ × List ℕ)
unframe s = unframe_size (read_hex 0 s)

abbrev pub frame : List ℕ → List ℕ
frame chunk = (chunk_header (length chunk) ++ chunk) ++ crlf

pub unframe_size-length :
    (chunk rest : List ℕ)
    → unframe_size (length chunk, 13 ∷ 10 ∷ (chunk ++ 13 ∷ 10 ∷ rest)) ≡ some (chunk, rest)
unfolding skip_crlf
unframe_size-length chunk rest =
    rw (drop-append chunk (13 ∷ 10 ∷ rest), take-append chunk (13 ∷ 10 ∷ rest))

unframe-frame :
    (chunk rest : List ℕ)
    → length chunk < 2 ^ 64
    → unframe (frame chunk ++ rest) ≡ some (chunk, rest)
unfolding chunk_header
unframe-frame chunk rest fits =
    let e : frame chunk ++ rest ≡ hex (length chunk) ++ 13 ∷ 10 ∷ (chunk ++ 13 ∷ 10 ∷ rest) =
      simp append_assoc in
    let digits =
      read_hex-hex (length chunk) 13 (10 ∷ (chunk ++ 13 ∷ 10 ∷ rest)) fits
        (unfold hex_value in refl) in
    ap unframe e ∙ (ap unframe_size digits ∙ unframe_size-length chunk rest)

send_chunk-whole :
    (a b c : ℕ) (header chunk : List ℕ)
    → length header ≤ a
    → length chunk ≤ b
    → 2 ≤ c
    → send_chunk (took a, took b, took c) header chunk ≡ ((header ++ chunk) ++ crlf, delivered)
unfolding send_chunk and_send send_piece
send_chunk-whole a b c header chunk h k l =
    rw (take_all a header h, take_all b chunk k, take_all c crlf l)

-- A listener whose three sends take all that they are given gets a chunk that a reader of the chunked
-- transfer coding reads as the data of the chunk, whatever follows it.
pub unframe-send_chunk :
    (a b c : ℕ) (chunk rest : List ℕ)
    → length (chunk_header (length chunk)) ≤ a
    → length chunk ≤ b
    → 2 ≤ c
    → length chunk < 2 ^ 64
    → unframe ((send_chunk (took a, took b, took c) (chunk_header (length chunk)) chunk).0 ++ rest)
      ≡ some (chunk, rest)
unframe-send_chunk a b c chunk rest h k l fits =
    ap (λ (s : List ℕ × Sending). unframe (s.0 ++ rest))
      (send_chunk-whole a b c (chunk_header (length chunk)) chunk h k l)
    ∙ unframe-frame chunk rest fits

-- Where the second send takes only a part of the chunk and the others take all, the chunk counts as
-- delivered, though fewer bytes have gone out than the header, the chunk and the line end have.
pub send_chunk_short :
    (a b c : ℕ) (header chunk : List ℕ)
    → b < length chunk
    → ((send_chunk (took a, took b, took c) header chunk).1 ≡ delivered)
      × (length (send_chunk (took a, took b, took c) header chunk).0
          < length ((header ++ chunk) ++ crlf))
unfolding send_chunk and_send send_piece
send_chunk_short a b c header chunk short = (
  refl,
  omega (
    arith,
    length-append (take a header ++ take b chunk) (take c crlf),
    length-append (take a header) (take b chunk),
    length-append (header ++ chunk) crlf,
    length-append header chunk,
    length-take a header,
    length-take b chunk,
    length-take c crlf,
  ),
)

-- The descriptors that the effects close.
abbrev pub closed : List Effect → List ℕ
closed [] = []
closed (sends fd bytes ∷ effects) = closed effects
closed (closes fd ∷ effects) = fd ∷ closed effects

abbrev pub count : ℕ → List ℕ → ℕ
count a [] = 0
count a (x ∷ xs) = (if x == a then 1 else 0) + count a xs

abbrev pub fds : List RadioClient → List ℕ
fds clients = map (λ c. c.fd) clients

settle-count :
    (index fd : ℕ) (c : RadioClient) (r : List ℕ × Sending) (rest : List RadioClient × List Effect)
    → count fd (fds (settle index c r rest).0) + count fd (closed (settle index c r rest).1)
      ≡ (if c.fd == fd then 1 else 0) + (count fd (fds rest.0) + count fd (closed rest.1))
unfolding settle
settle-count index fd c (sent, delivered) (kept, effects) = omega arith
settle-count index fd c (sent, skipped) (kept, effects) = omega arith
settle-count index fd c (sent, gone) (kept, effects) = omega arith

-- Whatever the sends answer, a round over the listeners keeps or closes each descriptor as often as
-- it stood in the list.
pub send_all-count :
    (answers : ℕ → Answers) (k index : ℕ) (header chunk : List ℕ) (clients : List RadioClient)
    (fd : ℕ)
    → count fd (fds (send_all answers k index header chunk clients).0)
        + count fd (closed (send_all answers k index header chunk clients).1)
      ≡ count fd (fds clients)
unfolding send_all
send_all-count answers k index header chunk [] fd = omega arith
send_all-count answers k index header chunk (c ∷ clients) fd =
    settle-count index fd c (send_chunk (answers k) header chunk)
      (send_all answers (k + 1) index header chunk clients)
    ∙ ap (λ n. (if c.fd == fd then 1 else 0) + n)
        (send_all-count answers (k + 1) index header chunk clients fd)
