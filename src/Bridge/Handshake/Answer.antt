-- ===== src/Bridge/Handshake/Answer.antt =====
-- The answer of the handshake: it fits its array, and its key can be read back.
use caligo_engine.Base.{
  ℕ, ◌+◌, ◌≤◌, ◌<◌, ◌≡◌, ◌∙◌, some, List, [], ◌∷◌, ◌++◌, length, arith, length-append, length-take,
  Option-cases, inl, inr, le→leb, lt→leb_false,
}
use native.Mathlib.Decide.{dec_le}
use caligo_engine.Base.Text.{codes, find_char}
use caligo_engine.Bridge.Sha1.{sha1}
use caligo_engine.Bridge.Sha1.Padding.{sha1-IsBytes}
use caligo_engine.Http.Base64.{bytes, base64_decode}
use caligo_engine.Http.Base64.RoundTrip.{base64_decode-encode, length-base64_encode}
use caligo_engine.Bridge.Handshake.{
  copy_64, header_value, trim_spaces, trim_end, before_comma, protocol_of, accept_key,
  protocol_line, response, handshake_response, ws_guid, crlf,
}

length-copy_64 : (n : ℕ) (s : List ℕ) → length (copy_64 n s) ≤ 63
unfolding copy_64
length-copy_64 n s = elim (dec_le 64 n) [
  | yes h ↦ rw (le→leb 64 n h) (omega (arith, length-take 63 s))
  | no h ↦ rw (lt→leb_false 64 n (omega arith)) (omega (arith, length-take n s))
]

length-header_value : (name s : List ℕ) {v : List ℕ} → header_value name s ≡ some v → length v ≤ 63
unfolding header_value
length-header_value name s h = grind (arith, length-copy_64)

length-trim_spaces : (s : List ℕ) → length (trim_spaces s) ≤ length s
unfolding trim_spaces
length-trim_spaces [] = omega arith
length-trim_spaces (c ∷ s) = ground (arith, length-trim_spaces s)

length-trim_end : (s : List ℕ) → length (trim_end s) ≤ length s
unfolding trim_end
length-trim_end [] = omega arith
length-trim_end (c ∷ s) = omega (arith, length-trim_spaces s)

length-before_comma : (s : List ℕ) → length (before_comma s) ≤ length s
unfolding before_comma
length-before_comma s = elim (Option-cases (find_char b',' s)) [
  | inl e ↦ rw (e, before_comma) (omega arith)
  | inr (i, e) ↦ rw (e, before_comma) (omega (arith, length-take i s))
]

length-protocol_of : (s : List ℕ) → length (protocol_of s) ≤ 63
unfolding protocol_of
length-protocol_of s = elim (Option-cases (header_value (codes "Sec-WebSocket-Protocol: ") s)) [
  | inl e ↦ rw (e, protocol_of) (omega arith)
  | inr (v, e) ↦
      rw (e, protocol_of)
        (omega
          (arith, length-trim_end v, length-header_value (codes "Sec-WebSocket-Protocol: ") s e))
]

length-protocol_line : (s : List ℕ) → length (protocol_line s) ≤ length s + 26
unfolding protocol_line
length-protocol_line [] = omega arith
length-protocol_line (c ∷ s) =
    omega (arith, length-append (before_comma (c ∷ s)) crlf, length-before_comma (c ∷ s))

length-accept_key : (key : List ℕ) → length (accept_key key) ≡ 28
unfolding accept_key
length-accept_key key =
    let h = sha1-IsBytes (key ++ ws_guid) in
    length-base64_encode (sha1 (key ++ ws_guid)) h.0 ∙ rw (h.1)

length-response : (key protocol : List ℕ) → length (response key protocol) ≤ length protocol + 160
unfolding response
length-response key protocol = omega (
  arith,
  length-append (accept_key key) (crlf ++ (protocol_line protocol ++ crlf)),
  length-append (protocol_line protocol) crlf,
  length-accept_key key,
  length-protocol_line protocol,
)

-- An answer to a request, whatever the request holds, is shorter than the array of 512.
pub handshake_response_fits :
    (request : List ℕ) {answer : List ℕ}
    → handshake_response request ≡ some answer
    → length answer < 512
unfolding handshake_response
handshake_response_fits request h = grind (arith, length-response, length-protocol_of request)

-- The accept key, decoded, is the SHA-1 digest of the client's key and the GUID.
pub base64_decode-accept_key :
    (key : List ℕ) → base64_decode (accept_key key) ≡ bytes (sha1 (key ++ ws_guid))
unfolding accept_key
base64_decode-accept_key key =
    base64_decode-encode (sha1 (key ++ ws_guid)) (sha1-IsBytes (key ++ ws_guid)).0
