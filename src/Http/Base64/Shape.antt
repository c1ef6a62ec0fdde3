-- ===== src/Http/Base64/Shape.antt =====
-- The encoder's text, described group by group: what `pad_loop` makes of the last group.
use caligo_engine.Base.{
  ℕ, zero, suc, ◌+◌, ◌-◌, ◌*◌, ◌/◌, ◌%◌, ◌≤◌, ◌<◌, ◌≡◌, refl, ap, List, [], ◌∷◌, ◌++◌, length,
  get_or, set, length-set, arith, length-append,
}
use caligo_engine.Base.Bytes.{IsBytes}
use native.Mathlib.Nat.{add-zero}
use caligo_engine.Bridge.Base64.{
  encoded_char, encode_quad, encode_loop, mod_table, pad_loop, base64_encode,
}

-- RFC 4648: whole groups, and a last group of two or three characters filled up with `=`.
unfoldable pub groups : List ℕ → List ℕ
groups [] = []
groups (a ∷ []) = encoded_char (a / 4) ∷ encoded_char (a % 4 * 16) ∷ b'=' ∷ b'=' ∷ []
groups (a ∷ b ∷ []) =
    encoded_char (a / 4)
    ∷ encoded_char (a % 4 * 16 + b / 16)
    ∷ encoded_char (b % 16 * 4)
    ∷ b'='
    ∷ []
groups (a ∷ b ∷ c ∷ rest) =
    encoded_char (a / 4)
    ∷ encoded_char (a % 4 * 16 + b / 16)
    ∷ encoded_char (b % 16 * 4 + c / 64)
    ∷ encoded_char (c % 64)
    ∷ groups rest

encode_quad-octets :
    (a b c : ℕ)
    → a < 256
    → b < 256
    → c < 256
    → encode_quad a b c
      ≡ encoded_char (a / 4)
        ∷ encoded_char (a % 4 * 16 + b / 16)
        ∷ encoded_char (b % 16 * 4 + c / 64)
        ∷ encoded_char (c % 64)
        ∷ []
unfolding encode_quad
encode_quad-octets a b c ha hb hc =
    let n = a * 65536 + b * 256 + c in
    let e₀ : n / 262144 % 64 ≡ a / 4 = omega arith in
    let e₁ : n / 4096 % 64 ≡ a % 4 * 16 + b / 16 = omega arith in
    let e₂ : n / 64 % 64 ≡ b % 16 * 4 + c / 64 = omega arith in
    let e₃ : n % 64 ≡ c % 64 = omega arith in rw (e₀, e₁, e₂, e₃)

set-append {ℓ} :
    {A : Type ℓ} (q s : List A) (i : ℕ) (v : A) → set (q ++ s) (length q + i) v ≡ q ++ set s i v
set-append [] s i v = let e : 0 + i ≡ i = omega arith in rw e
set-append (x ∷ q) s i v =
    let e : suc (length q) + i ≡ suc (length q + i) = omega arith in
    rw e (ap (λ l. x ∷ l) (set-append q s i v))

-- The padding stays within the last group.
pad_loop-append :
    (q s : List ℕ) (n i : ℕ) → n + i ≤ length s → pad_loop n i (q ++ s) ≡ q ++ pad_loop n i s
unfolding pad_loop
pad_loop-append q s zero i h = refl
pad_loop-append q s (suc n) i h =
    let at : length (q ++ s) - 1 - i ≡ length q + (length s - 1 - i) =
      omega (arith, length-append q s) in
    rw (at, set-append q s (length s - 1 - i) b'=')
      (pad_loop-append q (set s (length s - 1 - i) b'=') n (suc i) (rw length-set (omega arith)))

rounds : List ℕ → ℕ
rounds s = get_or mod_table (length s % 3) 0

rounds-le : (s : List ℕ) → rounds s ≤ length (encode_loop s)
unfolding rounds encode_loop encode_quad
rounds-le [] = omega arith
rounds-le (a ∷ []) = omega arith
rounds-le (a ∷ b ∷ []) = omega arith
rounds-le (a ∷ b ∷ c ∷ rest) =
    let e : suc (suc (suc (length rest))) % 3 ≡ length rest % 3 = omega arith in
    rw e (omega (arith, rounds-le rest))

-- What base64_encode computes by table, loop and backward padding is the text of RFC 4648.
pub base64_encode-groups : (s : List ℕ) → IsBytes s → base64_encode s ≡ groups s
unfolding base64_encode rounds groups encode_loop pad_loop
base64_encode-groups [] h = refl
base64_encode-groups (a ∷ []) h =
    rw (encode_quad-octets a 0 0 h.0 (omega arith) (omega arith), add-zero)
base64_encode-groups (a ∷ b ∷ []) h =
    rw (encode_quad-octets a b 0 h.0 h.1.0 (omega arith), add-zero)
base64_encode-groups (a ∷ b ∷ c ∷ rest) h =
    let e : suc (suc (suc (length rest))) % 3 ≡ length rest % 3 = omega arith in
    rw (
      e,
      pad_loop-append (encode_quad a b c) (encode_loop rest) (rounds rest) 0
          (omega (arith, rounds-le rest)),
      base64_encode-groups rest h.1.1.1,
      encode_quad-octets a b c h.0 h.1.0 h.1.1.0,
    )
