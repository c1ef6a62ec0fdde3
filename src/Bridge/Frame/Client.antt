-- ===== src/Bridge/Frame/Client.antt =====
-- One masked frame of a WebSocket client, written as RFC 6455 says, is read back by parse_frame.
use caligo_engine.Base.{
  ℕ, suc, ◌+◌, ◌*◌, ◌/◌, ◌%◌, ◌^◌, ◌≤◌, ◌<◌, ◌≡◌, refl, ap, ◌∙◌, true, false, List, [], ◌∷◌, ◌++◌,
  length, get_or, drop, ltb, leb, if◌then◌else◌, arith, length-append, take-append_eq,
  drop-append_eq, drop-drop, append_assoc, le→ltb_false, le→leb, lt→leb_false,
}
use native.Mathlib.Decide.{dec_le}
use caligo_engine.Base.Bytes.{xor_undo}
use caligo_engine.Bridge.Sha1.{length_bytes}
use caligo_engine.Bridge.Frame.{
  whole, header_len, shift_in, shift_all, full_payload_len, unmask, payload_of, sized, parse_frame,
}

-- Masking twice with one key gives the payload back.
pub unmask_undo : (masks : List ℕ) (i : ℕ) (s : List ℕ) → unmask masks i (unmask masks i s) ≡ s
unfolding unmask
unmask_undo masks i [] = refl
unmask_undo masks i (x ∷ s) = rw (xor_undo x (get_or masks (i % 4) 0), unmask_undo masks (suc i) s)

pub length-unmask : (masks : List ℕ) (i : ℕ) (s : List ℕ) → length (unmask masks i s) ≡ length s
unfolding unmask
length-unmask masks i [] = refl
length-unmask masks i (x ∷ s) = ap suc (length-unmask masks (suc i) s)

-- What a client sends: the first byte, a key of four bytes, and the payload.
pub record Message : Type 0 where
  pub opening : ℕ
  pub k₀ : ℕ
  pub k₁ : ℕ
  pub k₂ : ℕ
  pub k₃ : ℕ
  pub payload : List ℕ

abbrev pub key : Message → List ℕ
key m = m.k₀ ∷ m.k₁ ∷ m.k₂ ∷ m.k₃ ∷ []

-- RFC 6455, section 5.2: the shortest of the three forms of the length, with the mask bit.
unfoldable pub size_bytes : ℕ → List ℕ
size_bytes n =
    if leb n 125
    then (128 + n) ∷ []
    else if leb n 65535
    then 254 ∷ n / 2 ^ 8 ∷ n % 2 ^ 8 ∷ []
    else 255 ∷ length_bytes n

unfoldable pub client_frame : Message → List ℕ
client_frame m =
    m.opening ∷ (size_bytes (length m.payload) ++ (key m ++ unmask (key m) 0 m.payload))

-- The eight length bytes are read back.
shift_all-length_bytes : (n : ℕ) → n < 2 ^ 63 → shift_all 0 (length_bytes n) ≡ n
unfolding shift_all shift_in length_bytes
shift_all-length_bytes n h =
    let e₁ : 0 * 2 ^ 8 % 2 ^ 64 + n / 2 ^ 56 % 256 ≡ n / 2 ^ 56 = omega arith in
    let e₂ : n / 2 ^ 56 * 2 ^ 8 % 2 ^ 64 + n / 2 ^ 48 % 256 ≡ n / 2 ^ 48 = omega arith in
    let e₃ : n / 2 ^ 48 * 2 ^ 8 % 2 ^ 64 + n / 2 ^ 40 % 256 ≡ n / 2 ^ 40 = omega arith in
    let e₄ : n / 2 ^ 40 * 2 ^ 8 % 2 ^ 64 + n / 2 ^ 32 % 256 ≡ n / 2 ^ 32 = omega arith in
    let e₅ : n / 2 ^ 32 * 2 ^ 8 % 2 ^ 64 + n / 2 ^ 24 % 256 ≡ n / 2 ^ 24 = omega arith in
    let e₆ : n / 2 ^ 24 * 2 ^ 8 % 2 ^ 64 + n / 2 ^ 16 % 256 ≡ n / 2 ^ 16 = omega arith in
    let e₇ : n / 2 ^ 16 * 2 ^ 8 % 2 ^ 64 + n / 2 ^ 8 % 256 ≡ n / 2 ^ 8 = omega arith in
    let e₈ : n / 2 ^ 8 * 2 ^ 8 % 2 ^ 64 + n % 256 ≡ n = omega arith in
    rw (e₁, e₂, e₃, e₄, e₅, e₆, e₇, e₈)

-- With the length read, the size test passes and the payload is cut out and unmasked.
module _ (hl : ℕ) (header : List ℕ) (m : Message) (rest : List ℕ) (at : length header ≡ hl)
    (small : hl ≤ 10) (fits : length m.payload < 2 ^ 63) where
  abbrev masked : List ℕ
  masked = unmask (key m) 0 m.payload

  abbrev body : List ℕ
  body = header ++ (key m ++ (masked ++ rest))

  length-body : length body ≡ hl + 4 + length m.payload + length rest
  length-body = omega (
    arith,
    length-append header (key m ++ (masked ++ rest)),
    length-append masked rest,
    length-unmask (key m) 0 m.payload,
  )

  drop_header : drop hl body ≡ key m ++ (masked ++ rest)
  drop_header = drop-append_eq hl header _ at

  drop_key : drop (hl + 4) body ≡ masked ++ rest
  drop_key = drop-drop hl 4 body ∙ rw drop_header

  payload_of-body : payload_of hl 4 (length m.payload) body ≡ m.payload
  unfolding payload_of
  payload_of-body =
      rw
        (
          drop_key,
          drop_header,
          take-append_eq (length m.payload) masked rest (length-unmask (key m) 0 m.payload),
        )
        (unmask_undo (key m) 0 m.payload)

  sized-body : sized hl 4 (length m.payload) body ≡ whole m.payload (hl + 4 + length m.payload)
  unfolding sized
  sized-body =
      let uncut : (hl + 4 + length m.payload) % 2 ^ 64 ≡ hl + 4 + length m.payload = omega arith in
      let enough : ltb (length body) (hl + 4 + length m.payload) ≡ false =
        le→ltb_false _ _ (omega (arith, length-body)) in
      rw (uncut, enough, payload_of-body)

-- The tests before the size test, at a masked header.
parse_header :
    (second hl n : ℕ) (frame : List ℕ)
    → get_or frame 1 0 ≡ second
    → 128 ≤ second
    → header_len (second % 128) ≡ hl
    → hl ≤ length frame
    → 2 ≤ length frame
    → full_payload_len (second % 128) frame ≡ n
    → parse_frame frame ≡ sized hl 4 n frame
unfolding parse_frame
parse_header second hl n frame e masked el le two en = rw (
  e,
  el,
  en,
  le→ltb_false (length frame) 2 two,
  le→ltb_false (length frame) hl le,
  le→leb 128 second masked,
)

-- The three forms of the header in front of the key.
abbrev header : Message → List ℕ
header m = m.opening ∷ size_bytes (length m.payload)

module _ (m : Message) (rest : List ℕ) (fits : length m.payload < 2 ^ 63) where
  abbrev n : ℕ
  n = length m.payload

  abbrev whole_frame : List ℕ
  whole_frame = header m ++ (key m ++ (unmask (key m) 0 m.payload ++ rest))

  parse_small : n ≤ 125 → parse_frame whole_frame ≡ whole m.payload (length (header m) + 4 + n)
  unfolding size_bytes header_len full_payload_len
  parse_small le =
      let form : leb n 125 ≡ true = le→leb _ _ le in
      let h : List ℕ = m.opening ∷ (128 + n) ∷ [] in
      let low : (128 + n) % 128 ≡ n = omega arith in
      rw (form) (
        parse_header (128 + n) 2 n (h ++ (key m ++ (unmask (key m) 0 m.payload ++ rest))) refl
          (omega arith) (rw low (ground arith)) (omega arith) (omega arith) (rw low (ground arith))
        ∙ sized-body 2 h m rest refl (omega arith) fits)

  parse_medium :
      125 < n → n ≤ 65535 → parse_frame whole_frame ≡ whole m.payload (length (header m) + 4 + n)
  unfolding size_bytes header_len full_payload_len
  parse_medium gt le =
      let form : leb n 125 ≡ false = lt→leb_false _ _ gt in
      let form' : leb n 65535 ≡ true = le→leb _ _ le in
      let h : List ℕ = m.opening ∷ 254 ∷ n / 2 ^ 8 ∷ n % 2 ^ 8 ∷ [] in
      rw (form, form')
        (parse_header 254 4 n (h ++ (key m ++ (unmask (key m) 0 m.payload ++ rest))) refl
            (omega arith) refl (omega arith) (omega arith) (omega arith)
          ∙ sized-body 4 h m rest refl (omega arith) fits)

  parse_large : 65535 < n → parse_frame whole_frame ≡ whole m.payload (length (header m) + 4 + n)
  unfolding size_bytes header_len full_payload_len length_bytes
  parse_large gt =
      let form : leb n 125 ≡ false = lt→leb_false _ _ (omega arith) in
      let form' : leb n 65535 ≡ false = lt→leb_false _ _ gt in
      let h : List ℕ = m.opening ∷ 255 ∷ length_bytes n in
      rw (form, form')
        (parse_header 255 10 n (h ++ (key m ++ (unmask (key m) 0 m.payload ++ rest))) refl
            (omega arith) refl (omega arith) (omega arith) (shift_all-length_bytes n fits)
          ∙ sized-body 10 h m rest refl (omega arith) fits)

length-client_frame :
    (m : Message) → length (client_frame m) ≡ length (header m) + 4 + length m.payload
unfolding client_frame
length-client_frame m = omega (
  arith,
  length-append (size_bytes (length m.payload)) (key m ++ unmask (key m) 0 m.payload),
  length-unmask (key m) 0 m.payload,
)

client_frame-append :
    (m : Message) (rest : List ℕ)
    → client_frame m ++ rest ≡ header m ++ (key m ++ (unmask (key m) 0 m.payload ++ rest))
unfolding client_frame
client_frame-append m rest =
    ap (λ l. m.opening ∷ l)
      (append_assoc (size_bytes (length m.payload)) (key m ++ unmask (key m) 0 m.payload) rest)

-- A masked frame of a payload below 2 ^ 63 bytes, whatever follows it, is read back as its payload
-- and its size.
pub parse_frame-client_frame :
    (m : Message) (rest : List ℕ)
    → length m.payload < 2 ^ 63
    → parse_frame (client_frame m ++ rest) ≡ whole m.payload (length (client_frame m))
parse_frame-client_frame m rest fits =
    rw (client_frame-append m rest, length-client_frame m)
      (elim (dec_le (length m.payload) 125) [
        | yes le ↦ parse_small m rest fits le
        | no gt ↦ elim (dec_le (length m.payload) 65535) [
          | yes le ↦ parse_medium m rest fits (omega arith) le
          | no gt' ↦ parse_large m rest fits (omega arith)
        ]
      ])
