-- ===== src/Bridge/Frame/Bounds.antt =====
-- Buffers of the frame code: the frame that forward_target_to_client builds fits its array, and the
-- size test of forward_client_to_target lets a wrapped 64-bit length pass.
use caligo_engine.Base.{
  ℕ, suc, ◌+◌, ◌-◌, ◌/◌, ◌%◌, ◌^◌, ◌≤◌, ◌<◌, ◌≡◌, ◌↔◌, refl, ap, ◌∙◌, false, List, [], ◌∷◌, ◌++◌,
  length, get_or, drop, ltb, arith, length-append, take-append, drop-append_eq, le→ltb_false,
  le→leb, lt→leb_false,
}
use native.Mathlib.Decide.{dec_le}
use caligo_engine.Bridge.Frame.{
  overrun, whole, header_len, full_payload_len, payload_of, sized, parse_frame, server_frame,
}

-- BUFFER_SIZE, and the most that `recv` is asked for.
abbrev pub buffer_size : ℕ
buffer_size = 8192

-- An unmasked frame whose length has been read.
sized_plain :
    (hl : ℕ) (header buf rest : List ℕ)
    → length header ≡ hl
    → hl ≤ 4
    → length buf < 2 ^ 16
    → sized hl 0 (length buf) (header ++ (buf ++ rest)) ≡ whole buf (hl + length buf)
unfolding sized payload_of
sized_plain hl header buf rest at small fits =
    let zero_mask : hl + 0 ≡ hl = omega arith in
    let uncut : (hl + length buf) % 2 ^ 64 ≡ hl + length buf = omega arith in
    let enough : ltb (length (header ++ (buf ++ rest))) (hl + length buf) ≡ false =
      le→ltb_false _ _
        (omega (arith, length-append header (buf ++ rest), length-append buf rest)) in
    let cut : drop hl (header ++ (buf ++ rest)) ≡ buf ++ rest = drop-append_eq hl header _ at in
    rw (zero_mask, uncut, enough, cut, take-append buf rest)

-- The tests before the size test, at a header with no mask.
parse_plain :
    (second hl n : ℕ) (frame : List ℕ)
    → get_or frame 1 0 ≡ second
    → second < 128
    → header_len (second % 128) ≡ hl
    → hl ≤ length frame
    → 2 ≤ length frame
    → full_payload_len (second % 128) frame ≡ n
    → parse_frame frame ≡ sized hl 0 n frame
unfolding parse_frame
parse_plain second hl n frame e plain el le two en = rw (
  e,
  el,
  en,
  le→ltb_false (length frame) 2 two,
  le→ltb_false (length frame) hl le,
  lt→leb_false 128 second plain,
)

-- For what `recv` may return, at most 8182 bytes, the frame fits its array of 8192, and is read back
-- as those bytes and its size, whatever follows it.
pub parse_frame-server_frame :
    (stack buf rest : List ℕ)
    → length buf ≤ buffer_size - 10
    → (length (server_frame stack buf) ≤ buffer_size)
      × (parse_frame (server_frame stack buf ++ rest) ≡ whole buf (length (server_frame stack buf)))
unfolding server_frame header_len full_payload_len
parse_frame-server_frame stack buf rest le = elim (dec_le (length buf) 125) [
  | yes small ↦
      let two : 2 + length buf ≡ suc (suc (length buf)) = omega arith in
      let low : length buf % 128 ≡ length buf = omega arith in
      rw (le→leb (length buf) 125 small) (
        omega arith,
        parse_plain (length buf) 2 (length buf) (0x81 ∷ length buf ∷ (buf ++ rest)) refl
              (omega arith) (rw low (ground arith)) (omega arith) (omega arith)
              (rw low (ground arith))
            ∙ sized_plain 2 (0x81 ∷ length buf ∷ []) buf rest refl (omega arith) (omega arith)
            ∙ ap (whole buf) two,
      )
  | no large ↦
      let four : 4 + length buf ≡ suc (suc (suc (suc (length buf)))) = omega arith in
      let high = length buf / 2 ^ 8 % 256 in
      let low = length buf % 256 in
      rw (lt→leb_false (length buf) 125 (omega arith), le→leb (length buf) 65535 (omega arith))
        (
          omega arith,
          parse_plain 126 4 (length buf) (0x81 ∷ 126 ∷ high ∷ low ∷ (buf ++ rest)) refl
                (omega arith) refl (omega arith) (omega arith) (omega arith)
              ∙ sized_plain 4 (0x81 ∷ 126 ∷ high ∷ low ∷ []) buf rest refl (omega arith)
                  (omega arith)
              ∙ ap (whole buf) four,
        )
]

-- A masked frame with a 64-bit length, of at least 14 bytes and at most 2 ^ 63 + 1 received, runs out
-- of the buffer exactly if its length is at least 2 ^ 64 - 14.
pub parse_frame-overrun :
    (b full : ℕ) (f : List ℕ)
    → 12 ≤ length f
    → length f < 2 ^ 63
    → full_payload_len 127 (b ∷ 255 ∷ f) ≡ full
    → full < 2 ^ 64
    → (parse_frame (b ∷ 255 ∷ f) ≡ overrun) ↔ (2 ^ 64 - 14 ≤ full)
unfolding parse_frame sized header_len
parse_frame-overrun b full f long short e fits = rw e (ground arith)
