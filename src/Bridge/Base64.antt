-- ===== src/Bridge/Base64.antt =====
-- base64_encode of bridge.c, which the handshake applies to the SHA-1 digest.
use caligo_engine.Base.{
  ℕ, zero, suc, ◌+◌, ◌-◌, ◌*◌, ◌/◌, ◌%◌, ◌^◌, List, [], ◌∷◌, ◌++◌, length, get_or, set,
}
use caligo_engine.Base.Text.{codes}

abbrev pub encoding_table : List ℕ
encoding_table = codes "ABCDEFGHIJKLMNOPQRSTUVWXYZabcdefghijklmnopqrstuvwxyz0123456789+/"

unfoldable pub encoded_char : ℕ → ℕ
encoded_char sextet = get_or encoding_table sextet 0

-- `& 0x3F` is the remainder by 64. With octets below 256 the sum fits 24 bits.
unfoldable pub encode_quad : ℕ → ℕ → ℕ → List ℕ
encode_quad octet_a octet_b octet_c =
    let triple = octet_a * 2 ^ 16 + octet_b * 2 ^ 8 + octet_c in
    encoded_char (triple / 2 ^ 18 % 64)
    ∷ encoded_char (triple / 2 ^ 12 % 64)
    ∷ encoded_char (triple / 2 ^ 6 % 64)
    ∷ encoded_char (triple % 64)
    ∷ []

-- The first loop, three octets a round; an octet past the end is 0.
unfoldable pub encode_loop : List ℕ → List ℕ
encode_loop [] = []
encode_loop (a ∷ []) = encode_quad a 0 0
encode_loop (a ∷ b ∷ []) = encode_quad a b 0
encode_loop (a ∷ b ∷ c ∷ rest) = encode_quad a b c ++ encode_loop rest

abbrev pub mod_table : List ℕ
mod_table = 0 ∷ 2 ∷ 1 ∷ []

-- The second loop, which writes `=` backwards from the end; its arguments are the rounds left and i.
unfoldable pub pad_loop : ℕ → ℕ → List ℕ → List ℕ
pad_loop zero i s = s
pad_loop (suc n) i s = pad_loop n (suc i) (set s (length s - 1 - i) b'=')

unfoldable pub base64_encode : List ℕ → List ℕ
base64_encode bytes = pad_loop (get_or mod_table (length bytes % 3) 0) 0 (encode_loop bytes)
