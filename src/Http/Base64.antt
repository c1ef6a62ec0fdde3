-- ===== src/Http/Base64.antt =====
-- base64_decode of http/request_handler.c, which Basic authentication applies to the token.
pub mod Shape
pub mod RoundTrip
use caligo_engine.Base.{
  ℕ, ◌+◌, ◌-◌, ◌*◌, ◌/◌, ◌%◌, ◌^◌, Bool, true, false, Option, none, some, List, [], ◌∷◌, ◌++◌,
  length, get_or, get_elem?, ◌==◌, ltb, if◌then◌else◌,
}

-- `null` is the NULL of a length that is no multiple of 4. `out_of_bounds` is a read behind the
-- end of `b64_table`, which C leaves undefined.
pub data Decoded : Type 0 where
  null out_of_bounds : Decoded
  bytes : List ℕ → Decoded

-- The 123 entries of the source: the last is that of `z`.
abbrev pub b64_table : List ℕ
b64_table =
    0 ∷ 0 ∷ 0 ∷ 0 ∷ 0 ∷ 0 ∷ 0 ∷ 0 ∷ 0 ∷ 0 ∷ 0 ∷ 0 ∷ 0 ∷ 0 ∷ 0 ∷ 0 ∷ 0 ∷ 0 ∷ 0 ∷ 0 ∷ 0 ∷ 0 ∷ 0 ∷ 0
    ∷ 0 ∷ 0 ∷ 0 ∷ 0 ∷ 0 ∷ 0 ∷ 0 ∷ 0 ∷ 0 ∷ 0 ∷ 0 ∷ 0 ∷ 0 ∷ 0 ∷ 0 ∷ 0 ∷ 0 ∷ 0 ∷ 0 ∷ 62 ∷ 0 ∷ 0 ∷ 0
    ∷ 63 ∷ 52 ∷ 53 ∷ 54 ∷ 55 ∷ 56 ∷ 57 ∷ 58 ∷ 59 ∷ 60 ∷ 61 ∷ 0 ∷ 0 ∷ 0 ∷ 0 ∷ 0 ∷ 0 ∷ 0 ∷ 0 ∷ 1 ∷ 2
    ∷ 3 ∷ 4 ∷ 5 ∷ 6 ∷ 7 ∷ 8 ∷ 9 ∷ 10 ∷ 11 ∷ 12 ∷ 13 ∷ 14 ∷ 15 ∷ 16 ∷ 17 ∷ 18 ∷ 19 ∷ 20 ∷ 21 ∷ 22
    ∷ 23 ∷ 24 ∷ 25 ∷ 0 ∷ 0 ∷ 0 ∷ 0 ∷ 0 ∷ 0 ∷ 26 ∷ 27 ∷ 28 ∷ 29 ∷ 30 ∷ 31 ∷ 32 ∷ 33 ∷ 34 ∷ 35 ∷ 36
    ∷ 37 ∷ 38 ∷ 39 ∷ 40 ∷ 41 ∷ 42 ∷ 43 ∷ 44 ∷ 45 ∷ 46 ∷ 47 ∷ 48 ∷ 49 ∷ 50 ∷ 51 ∷ []

-- What one character stands for; `none` for one behind the table.
unfoldable pub sextet : ℕ → Option ℕ
sextet c = if c == b'=' then some 0 else get_elem? b64_table c

-- `if (j < *output_length) decoded_data[j++] = x`, where j is the number of bytes written.
unfoldable pub put : ℕ → ℕ → List ℕ → List ℕ
put output_length x out = if ltb (length out) output_length then out ++ (x ∷ []) else out

-- `& 0xFF` is the remainder by 256.
unfoldable pub put_triple : ℕ → ℕ → List ℕ → List ℕ
put_triple n triple out =
    put n (triple % 256) (put n (triple / 2 ^ 8 % 256) (put n (triple / 2 ^ 16 % 256) out))

infixl 5 ◌>>=◌
abbrev ◌>>=◌ {ℓ} : {A : Type ℓ} → Option A → (A → Decoded) → Decoded
none >>= k = out_of_bounds
some x >>= k = k x

-- The loop, four characters a round.
unfoldable pub decode_loop : ℕ → List ℕ → List ℕ → Decoded
decode_loop n (a ∷ b ∷ c ∷ d ∷ rest) out = do
  sextet_a ← sextet a
  sextet_b ← sextet b
  sextet_c ← sextet c
  sextet_d ← sextet d
  decode_loop n rest
      (put_triple n (sextet_a * 2 ^ 18 + sextet_b * 2 ^ 12 + sextet_c * 2 ^ 6 + sextet_d) out)
decode_loop n [] out = bytes out
decode_loop n _ out = out_of_bounds

-- `*output_length`, from the length and the last two characters.
unfoldable pub trimmed : ℕ → ℕ → ℕ → ℕ
trimmed whole last but_last =
    let less = if last == b'=' then whole - 1 else whole in
    if but_last == b'=' then less - 1 else less

-- An empty token is followed backwards into `Basic `, so there neither of the two is `=`.
unfoldable pub output_length : List ℕ → ℕ
output_length s = trimmed (length s / 4 * 3) (get_or s (length s - 1) 0) (get_or s (length s - 2) 0)

unfoldable pub base64_decode : List ℕ → Decoded
base64_decode s = if length s % 4 == 0 then decode_loop (output_length s) s [] else null
