-- ===== src/Bridge/Sha1/Padding.antt =====
-- The buffer handling of sha1 is the padding of FIPS 180.
use caligo_engine.Base.{
  true, false, ℕ, zero, suc, ◌+◌, ◌-◌, ◌*◌, ◌/◌, ◌%◌, ◌^◌, ◌≤◌, ◌<◌, ◌≡◌, refl, sym, ap, ◌∙◌, List,
  [], ◌∷◌, ◌++◌, length, take, drop, replicate, ltb, lt→ltb, le→ltb_false, arith, length-append,
  length-replicate, length-drop, append_assoc, take-append_le, drop-append_le, take_all, drop-drop,
  take-append_eq, drop-append_eq, replicate-add,
}
use caligo_engine.Base.Bytes.{IsBytes}
use native.Mathlib.Decide.{dec_le}
use caligo_engine.Bridge.Sha1.{
  Regs, initial, u32, compress, absorb, fill, length_bytes, finish, word_bytes, digest, sha1,
}

-- FIPS 180: a one bit, zeros up to 8 bytes before a multiple of 64, and the length in bits.
unfoldable pub padding : ℕ → List ℕ
padding len = 0x80 ∷ replicate ((119 - len % 64) % 64) 0 ++ length_bytes (len * 8)

abbrev pub padded : List ℕ → List ℕ
padded s = s ++ padding (length s)

-- The digest of so many blocks, each behind the other.
unfoldable pub hash_blocks : ℕ → List ℕ → Regs → Regs
hash_blocks zero s h = h
hash_blocks (suc n) s h = hash_blocks n (drop 64 s) (compress h (take 64 s))

-- Below 2 ^ 32 bytes no index wraps.
absorb-hash_blocks :
    (n i : ℕ) (s : List ℕ) (h : Regs)
    → (i + n) * 64 < 2 ^ 32
    → absorb n i s h ≡ hash_blocks n (drop (i * 64) s) h
unfolding absorb hash_blocks
absorb-hash_blocks zero i s h small = refl
absorb-hash_blocks (suc n) i s h small =
    let next : u32 (suc i) ≡ suc i = omega (arith, small) in
    let here : u32 (i * 64) ≡ i * 64 = omega (arith, small) in
    let d : suc i * 64 ≡ i * 64 + 64 = omega arith in
    rw (next, here)
      (absorb-hash_blocks n (suc i) s (compress h (take 64 (drop (i * 64) s)))
          (omega (arith, small))
        ∙ ap (λ l. hash_blocks n l (compress h (take 64 (drop (i * 64) s))))
            (ap (λ k. drop k s) d ∙ drop-drop (i * 64) 64 s))

hash_blocks-add :
    (n m : ℕ) (s : List ℕ) (h : Regs)
    → hash_blocks (n + m) s h ≡ hash_blocks m (drop (n * 64) s) (hash_blocks n s h)
unfolding hash_blocks
hash_blocks-add zero m s h = let e : 0 + m ≡ m = omega arith in rw e
hash_blocks-add (suc n) m s h =
    let e : suc n + m ≡ suc (n + m) = omega arith in
    let d : suc n * 64 ≡ 64 + n * 64 = omega arith in
    rw (e, d, hash_blocks-add n m (drop 64 s) (compress h (take 64 s)), drop-drop 64 (n * 64) s)

hash_blocks-append :
    (n : ℕ) (s t : List ℕ) (h : Regs)
    → n * 64 ≤ length s
    → hash_blocks n (s ++ t) h ≡ hash_blocks n s h
unfolding hash_blocks
hash_blocks-append zero s t h le = refl
hash_blocks-append (suc n) s t h le =
    rw (take-append_le 64 s t (omega arith), drop-append_le 64 s t (omega arith))
      (hash_blocks-append n (drop 64 s) t (compress h (take 64 s))
        (omega (arith, length-drop 64 s)))

hash_blocks_one : (s : List ℕ) (h : Regs) → length s ≡ 64 → hash_blocks 1 s h ≡ compress h s
unfolding hash_blocks
hash_blocks_one s h e = rw (take_all 64 s (omega arith))

hash_blocks_two :
    (s t : List ℕ) (h : Regs)
    → length s ≡ 64
    → length t ≡ 64
    → hash_blocks 2 (s ++ t) h ≡ compress (compress h s) t
unfolding hash_blocks
hash_blocks_two s t h e f =
    rw (take-append_eq 64 s t e, drop-append_eq 64 s t e, take_all 64 t (omega arith))

length-length_bytes : (n : ℕ) → length (length_bytes n) ≡ 8
unfolding length_bytes
length-length_bytes n = refl

-- The leftover bytes and the one bit behind them.
abbrev closed : List ℕ → List ℕ
closed r = r ++ (0x80 ∷ [])

-- The last block or two, over the leftover bytes `r`: the branches of `finish` are the padding.
module _ (len : ℕ) (r : List ℕ) (h : Regs) (short : len < 2 ^ 61) (left : length r ≡ len % 64) where
  bits : len * 8 % 2 ^ 64 ≡ len * 8
  bits = omega arith

  length-closed : length (closed r) ≡ len % 64 + 1
  length-closed = omega (arith, length-append r (0x80 ∷ []))

  length-zeros : (z : ℕ) → length (replicate {A = ℕ} z 0 ++ length_bytes (len * 8)) ≡ z + 8
  length-zeros z = omega (
    arith,
    length-append (replicate {A = ℕ} z 0) (length_bytes (len * 8)),
    length-replicate {A = ℕ} z 0,
    length-length_bytes (len * 8),
  )

  closed_append : (t : List ℕ) → closed r ++ t ≡ r ++ (0x80 ∷ t)
  closed_append t = append_assoc r (0x80 ∷ []) t

  finish_one : len % 64 ≤ 55 → finish len (closed r) h ≡ hash_blocks 1 (r ++ padding len) h
  unfolding finish fill padding
  finish_one small =
      let fits : ltb 56 (len % 64 + 1) ≡ false = le→ltb_false _ _ (omega arith) in
      let zeros : 56 - (len % 64 + 1) ≡ (119 - len % 64) % 64 = omega arith in
      rw (length-closed, fits, bits, zeros, append_assoc (closed r), closed_append)
        (sym (
          hash_blocks_one _ h
            (omega (arith, length-append r _, length-zeros ((119 - len % 64) % 64)))))

  abbrev filled : List ℕ
  filled = closed r ++ replicate (64 - (len % 64 + 1)) 0

  abbrev closing : List ℕ
  closing = replicate 56 0 ++ length_bytes (len * 8)

  padding_two : 56 ≤ len % 64 → r ++ padding len ≡ filled ++ closing
  unfolding padding
  padding_two large =
      let zeros : (119 - len % 64) % 64 ≡ (64 - (len % 64 + 1)) + 56 = omega arith in
      rw (zeros, replicate-add {A = ℕ} (64 - (len % 64 + 1)) 56 0) (simp append_assoc)

  finish_two : 56 ≤ len % 64 → finish len (closed r) h ≡ hash_blocks 2 (r ++ padding len) h
  unfolding finish fill
  finish_two large =
      let full : ltb 56 (len % 64 + 1) ≡ true = lt→ltb _ _ (omega arith) in
      let first : length filled ≡ 64 = omega (
        arith,
        length-append (closed r) (replicate {A = ℕ} (64 - (len % 64 + 1)) 0),
        length-closed,
        length-replicate {A = ℕ} (64 - (len % 64 + 1)) 0,
      ) in
      rw (length-closed, full, bits, padding_two large)
        (sym (hash_blocks_two filled closing h first (length-zeros 56)))

-- The blocks before the padding are those of the message.
hash_blocks-padded :
    (s t : List ℕ) (m : ℕ)
    → hash_blocks (length s / 64 + m) (s ++ t) initial
      ≡ hash_blocks m (drop (length s / 64 * 64) s ++ t) (hash_blocks (length s / 64) s initial)
hash_blocks-padded s t m =
    let q = length s / 64 in
    let le : q * 64 ≤ length s = omega arith in
    rw (
      hash_blocks-add q m (s ++ t) initial,
      drop-append_le (q * 64) s t le,
      hash_blocks-append q s t initial le,
    )

length-padding : (len : ℕ) → length (padding len) ≡ (119 - len % 64) % 64 + 9
unfolding padding
length-padding len = omega (
  arith,
  length-append (replicate {A = ℕ} ((119 - len % 64) % 64) 0) (length_bytes (len * 8)),
  length-replicate {A = ℕ} ((119 - len % 64) % 64) 0,
  length-length_bytes (len * 8),
)

-- For a message below 2 ^ 32 bytes, sha1 is the digest of all 64-byte blocks of the padded message.
pub sha1-padded :
    (s : List ℕ)
    → length s < 2 ^ 32
    → sha1 s ≡ digest (hash_blocks (length (padded s) / 64) (padded s) initial)
unfolding sha1
sha1-padded s short =
    let n = length s in
    let left : length (drop (n / 64 * 64) s) ≡ n % 64 =
      omega (arith, length-drop (n / 64 * 64) s) in
    let absorbed : absorb (n / 64) 0 s initial ≡ hash_blocks (n / 64) s initial =
      absorb-hash_blocks (n / 64) 0 s initial (omega (arith, short)) in
    elim (dec_le (n % 64) 55) [
      | yes small ↦
          let count : length (padded s) / 64 ≡ n / 64 + 1 =
            omega (arith, length-append s (padding n), length-padding n) in
          rw (absorbed, count, hash_blocks-padded s (padding n) 1)
            (ap digest (finish_one n _ _ (omega (arith, short)) left small))
      | no large ↦
          let count : length (padded s) / 64 ≡ n / 64 + 2 =
            omega (arith, length-append s (padding n), length-padding n) in
          rw (absorbed, count, hash_blocks-padded s (padding n) 2)
            (ap digest (finish_two n _ _ (omega (arith, short)) left (omega arith)))
    ]

-- The digest is 20 numbers below 256.
pub sha1-IsBytes : (s : List ℕ) → IsBytes (sha1 s) × (length (sha1 s) ≡ 20)
unfolding sha1 digest word_bytes
sha1-IsBytes s = (omega arith, refl)
