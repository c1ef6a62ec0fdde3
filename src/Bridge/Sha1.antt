-- ===== src/Bridge/Sha1.antt =====
-- sha1 of bridge.c. An `unsigned int` is a number below 2 ^ 32 and each sum is cut to 32 bits. The
-- source writes the block function out three times; here it is `compress`.
pub mod Padding
use caligo_engine.Base.{
  ℕ, zero, suc, ◌+◌, ◌-◌, ◌*◌, ◌/◌, ◌%◌, ◌^◌, bit_and, bit_or, bit_xor, List, [], ◌∷◌, ◌++◌, length,
  get_or, take, drop, replicate, ltb, if◌then◌else◌,
}

abbrev pub u32 : ℕ → ℕ
u32 n = n % 2 ^ 32

-- ROL
unfoldable pub rol : ℕ → ℕ → ℕ
rol val n = bit_or (u32 (val * 2 ^ n)) (val / 2 ^ (32 - n))

-- The five chaining words h, and the registers a to e of a block.
pub record Regs : Type 0 where
  pub a : ℕ
  pub b : ℕ
  pub c : ℕ
  pub d : ℕ
  pub e : ℕ

abbrev pub initial : Regs
initial = record { a = 0x67452301; b = 0xEFCDAB89; c = 0x98BADCFE; d = 0x10325476; e = 0xC3D2E1F0 }

-- (block[j*4] << 24) | (block[j*4+1] << 16) | (block[j*4+2] << 8) | block[j*4+3], for each j
unfoldable pub block_words : List ℕ → List ℕ
block_words (p ∷ q ∷ r ∷ s ∷ rest) =
    bit_or (bit_or (bit_or (p * 2 ^ 24) (q * 2 ^ 16)) (r * 2 ^ 8)) s ∷ block_words rest
block_words _ = []

-- The loop from j = 16, with the rounds left; `w` holds the words below j.
unfoldable pub schedule : ℕ → ℕ → List ℕ → List ℕ
schedule zero j w = w
schedule (suc n) j w =
    let x =
      bit_xor (bit_xor (bit_xor (get_or w (j - 3) 0) (get_or w (j - 8) 0)) (get_or w (j - 14) 0))
        (get_or w (j - 16) 0) in
    schedule n (suc j) (w ++ (rol x 1 ∷ []))

-- f and k of round j; `~b` on 32 bits is 2 ^ 32 - 1 - b.
unfoldable pub mix : ℕ → Regs → ℕ × ℕ
mix j r =
    if ltb j 20
    then (bit_or (bit_and r.b r.c) (bit_and (2 ^ 32 - 1 - r.b) r.d), 0x5A827999)
    else if ltb j 40
    then (bit_xor (bit_xor r.b r.c) r.d, 0x6ED9EBA1)
    else if ltb j 60
    then (bit_or (bit_or (bit_and r.b r.c) (bit_and r.b r.d)) (bit_and r.c r.d), 0x8F1BBCDC)
    else (bit_xor (bit_xor r.b r.c) r.d, 0xCA62C1D6)

-- One round at the word w[j].
unfoldable pub round : ℕ → ℕ → Regs → Regs
round j word r =
    let (f, k) = mix j r in
    record { a = u32 (rol r.a 5 + f + r.e + k + word); b = r.a; c = rol r.b 30; d = r.c; e = r.d }

-- The 80 rounds, over the words in order.
unfoldable pub rounds : ℕ → List ℕ → Regs → Regs
rounds j [] r = r
rounds j (word ∷ w) r = rounds (suc j) w (round j word r)

-- One block of 64 bytes: `h[0] += a` and so on.
unfoldable pub compress : Regs → List ℕ → Regs
compress h block =
    let r = rounds 0 (schedule 64 16 (block_words block)) h in
    record {
      a = u32 (h.a + r.a);
      b = u32 (h.b + r.b);
      c = u32 (h.c + r.c);
      d = u32 (h.d + r.d);
      e = u32 (h.e + r.e);
    }

-- The loop over the whole blocks from the i-th on, with the blocks left. `i * 64` is cut to 32 bits. From
-- 2 ^ 32 blocks on, which are left out, i wraps before it comes to their number.
unfoldable pub absorb : ℕ → ℕ → List ℕ → Regs → Regs
absorb zero i bytes h = h
absorb (suc n) i bytes h =
    absorb n (u32 (suc i)) bytes (compress h (take 64 (drop (u32 (i * 64)) bytes)))

-- while (idx < n) buf[idx++] = 0
unfoldable pub fill : ℕ → List ℕ → List ℕ
fill n buf = buf ++ replicate (n - length buf) 0

-- buf[63 - j] = (bit_len >> (j * 8)) & 0xFF for j from 0 to 7, read in the order of the buffer
unfoldable pub length_bytes : ℕ → List ℕ
length_bytes bit_len =
    bit_len / 2 ^ 56 % 256
    ∷ bit_len / 2 ^ 48 % 256
    ∷ bit_len / 2 ^ 40 % 256
    ∷ bit_len / 2 ^ 32 % 256
    ∷ bit_len / 2 ^ 24 % 256
    ∷ bit_len / 2 ^ 16 % 256
    ∷ bit_len / 2 ^ 8 % 256
    ∷ bit_len % 256
    ∷ []

-- From `idx > 56` on: a buffer with no room for the length is closed by zeros and hashed first.
unfoldable pub finish : ℕ → List ℕ → Regs → Regs
finish len buf h =
    if ltb 56 (length buf)
    then compress (compress h (fill 64 buf)) (fill 56 [] ++ length_bytes (len * 8 % 2 ^ 64))
    else compress h (fill 56 buf ++ length_bytes (len * 8 % 2 ^ 64))

-- The four bytes of a word, and the digest.
unfoldable pub word_bytes : ℕ → List ℕ
word_bytes x = x / 2 ^ 24 % 256 ∷ x / 2 ^ 16 % 256 ∷ x / 2 ^ 8 % 256 ∷ x % 256 ∷ []

unfoldable pub digest : Regs → List ℕ
digest h = word_bytes h.a ++ word_bytes h.b ++ word_bytes h.c ++ word_bytes h.d ++ word_bytes h.e

unfoldable pub sha1 : List ℕ → List ℕ
sha1 bytes =
    let num_blocks = length bytes / 64 in
    let buf = drop (num_blocks * 64) bytes ++ (0x80 ∷ []) in
    digest (finish (length bytes) buf (absorb num_blocks 0 bytes initial))
