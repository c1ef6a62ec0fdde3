-- ===== src/Examples/Bridge.antt =====
-- Concrete inputs for the models of bridge.c.
use caligo_engine.Base.{
  ℕ, ◌-◌, ◌/◌, ◌^◌, ◌≤◌, ◌≡◌, ◌≢◌, refl, none, some, List, [], ◌∷◌, ◌++◌, length, arith, ◌↔◌, drop,
}
use caligo_engine.Base.Text.{codes, find_sub, find_sub_ci, is_prefix, to_lower}
use caligo_engine.Bridge.Base64.{base64_encode, encode_loop, encode_quad, encoded_char, pad_loop}
use caligo_engine.Bridge.Sha1.{
  absorb, sha1, digest, initial, compress, rounds, round, mix, schedule, block_words, fill,
  length_bytes, finish, word_bytes, rol,
}
use caligo_engine.Bridge.Sha1.Padding.{hash_blocks, padded, sha1-padded}
use caligo_engine.Bridge.Frame.{
  whole, overrun, sized, header_len, payload_of, parse_frame, forward_frames, finished, out_of_fuel,
  full_payload_len, server_frame, unmask, shift_all, shift_in,
}
use caligo_engine.Bridge.Frame.Client.{Message, client_frame, size_bytes, parse_frame-client_frame}
use caligo_engine.Bridge.Frame.Stream.{
  gets_stuck, is_stuck, stream, forward_frames_ends, forward_frames-stream,
}
use caligo_engine.Bridge.Frame.Bounds.{buffer_size, parse_frame-server_frame, parse_frame-overrun}
use caligo_engine.Bridge.Handshake.{
  accept_key, crlf, header_value, copy_64, protocol_of, response, handshake_response,
}
use caligo_engine.Http.Base64.{bytes, base64_decode}
use caligo_engine.Http.Base64.RoundTrip.{base64_decode-encode}
use mathlib.Core.Option.{some-injective}
use caligo_engine.Bridge.Session.{Bridge, ready, accept_client, step}
use caligo_engine.Bridge.Session.Alive.{Inv, Safe, step-Safe, accept_client-Inv}

abbrev hello : Message
hello = record { opening = 129; k₀ = 1; k₁ = 2; k₂ = 3; k₃ = 4; payload = codes "<hello/>" }

abbrev request : List ℕ
request =
    codes "GET /chat HTTP/1.1"
    ++ (crlf ++ (codes "Sec-WebSocket-Key: dGhlIHNhbXBsZSBub25jZQ==" ++ (crlf ++ crlf)))

-- The key of RFC 6455, section 1.3.
accept_key_rfc :
    accept_key (codes "dGhlIHNhbXBsZSBub25jZQ==") ≡ codes "s3pPLMBiTxaQ9kYGzzhZRbK+xOo="
unfolding accept_key sha1 digest absorb compress rounds round mix schedule block_words fill
    length_bytes finish word_bytes rol base64_encode encode_loop encode_quad encoded_char pad_loop
accept_key_rfc = refl

abbrev empty : Bridge
empty = record { heap = λ _. none; sessions = λ _. none }

empty-Inv : Inv empty
empty-Inv = record { owner = λ k id e. absurd cc; upgrading = λ id s e. absurd cc }

step-Safe_example : Safe (step (accept_client empty 5 7) (ready 5 (some request) (some 6) []))
step-Safe_example =
    step-Safe (accept_client empty 5 7) (ready 5 (some request) (some 6) [])
      (omega arith, λ target e. omega (arith, some-injective 6 target e)) tt
      (accept_client-Inv empty 5 7 refl empty-Inv)

forward_frames-stream_example :
    forward_frames (stream (hello ∷ []) (129 ∷ []))
    ≡ record { sent = codes "<hello/>" ∷ []; stop = finished }
unfolding client_frame size_bytes unmask
forward_frames-stream_example =
    forward_frames-stream (hello ∷ []) hello (129 ∷ []) (drop 1 (client_frame hello))
      (omega arith, (omega arith, tt)) refl (omega arith) (omega arith)

forward_frames_ends_example : (forward_frames (client_frame hello)).stop ≢ out_of_fuel
unfolding client_frame size_bytes unmask
forward_frames_ends_example =
    forward_frames_ends (client_frame hello) (omega arith)
      (unfold gets_stuck is_stuck parse_frame sized header_len full_payload_len payload_of in refl)

parse_frame-client_frame_example :
    parse_frame (client_frame hello ++ (1 ∷ 2 ∷ []))
    ≡ whole (codes "<hello/>") (length (client_frame hello))
parse_frame-client_frame_example = parse_frame-client_frame hello (1 ∷ 2 ∷ []) (omega arith)

parse_frame-server_frame_example :
    (length (server_frame [] (codes "<ok/>")) ≤ buffer_size)
    × (parse_frame (server_frame [] (codes "<ok/>") ++ [])
        ≡ whole (codes "<ok/>") (length (server_frame [] (codes "<ok/>"))))
parse_frame-server_frame_example = parse_frame-server_frame [] (codes "<ok/>") [] (omega arith)

abbrev huge : List ℕ
huge = 255 ∷ 255 ∷ 255 ∷ 255 ∷ 255 ∷ 255 ∷ 255 ∷ 255 ∷ 1 ∷ 2 ∷ 3 ∷ 4 ∷ []

parse_frame-overrun_example :
    (parse_frame (129 ∷ 255 ∷ huge) ≡ overrun) ↔ (2 ^ 64 - 14 ≤ 2 ^ 64 - 1)
parse_frame-overrun_example =
    parse_frame-overrun 129 (2 ^ 64 - 1) huge (omega arith) (omega arith)
      (unfold full_payload_len shift_all shift_in in refl) (omega arith)

sha1-padded_example :
    sha1 (codes "abc")
    ≡ digest (hash_blocks (length (padded (codes "abc")) / 64) (padded (codes "abc")) initial)
sha1-padded_example = sha1-padded (codes "abc") (omega arith)

base64_decode-encode_example :
    base64_decode (base64_encode (codes "admin:password123")) ≡ bytes (codes "admin:password123")
base64_decode-encode_example = base64_decode-encode (codes "admin:password123") (omega arith)

abbrev client_key : List ℕ
client_key = codes "dGhlIHNhbXBsZSBub25jZQ=="

answered : handshake_response request ≡ some (response client_key [])
unfolding handshake_response header_value protocol_of copy_64 find_sub find_sub_ci is_prefix
    to_lower
answered = refl
