-- ===== src/Http/Base64/RoundTrip.antt =====
-- The decoder of the HTTP server gives back what the encoder of the bridge wrote.
use caligo_engine.Base.{
  ℕ, suc, ◌+◌, ◌-◌, ◌*◌, ◌/◌, ◌%◌, ◌^◌, ◌≤◌, ◌<◌, ◌≡◌, refl, Bool, true, false, Option, none, some,
  List, [], ◌∷◌, ◌++◌, append_assoc, append-nil, length, arith, length-append, ◌==◌, not, ◌&&◌,
  lt→ltb, le→ltb_false,
}
use caligo_engine.Base.Bytes.{IsBytes, all_below, at_each}
use caligo_engine.Bridge.Base64.{encoded_char, base64_encode}
use caligo_engine.Http.Base64.{
  bytes, sextet, put, put_triple, trimmed, decode_loop, output_length, base64_decode,
}
use caligo_engine.Http.Base64.Shape.{groups, base64_encode-groups}

abbrev is_value : ℕ → Option ℕ → Bool
is_value n none = false
is_value n (some m) = m == n

-- Every character of the encoder stands for its value, and is not the filler.
inverse_table :
    all_below 64 (λ n. is_value n (sextet (encoded_char n)) && not (encoded_char n == b'=')) ≡ true
unfolding all_below sextet encoded_char
inverse_table = refl

inverse : (n : ℕ) → n < 64 → (sextet (encoded_char n) ≡ some n) × ((encoded_char n == b'=') ≡ false)
inverse n h =
    split (sextet (encoded_char n)) (encoded_char n == b'=') (at_each _ 64 inverse_table n h)
  where
    split : (o : Option ℕ) (b : Bool) → (is_value n o && not b) ≡ true → (o ≡ some n) × (b ≡ false)
    split o b e = ground arith

filler : sextet b'=' ≡ some 0
unfolding sextet
filler = refl

put_room : (n x : ℕ) (out : List ℕ) → length out < n → put n x out ≡ out ++ (x ∷ [])
unfolding put
put_room n x out h = rw (lt→ltb _ _ h)

put_full : (n x : ℕ) (out : List ℕ) → n ≤ length out → put n x out ≡ out
unfolding put
put_full n x out h = rw (le→ltb_false _ _ h)

-- A group writes as many of its three bytes as there is room for.
put_triple_three :
    (n t a b c : ℕ) (out : List ℕ)
    → length out + 3 ≤ n
    → t / 2 ^ 16 % 256 ≡ a
    → t / 2 ^ 8 % 256 ≡ b
    → t % 256 ≡ c
    → put_triple n t out ≡ out ++ (a ∷ b ∷ c ∷ [])
unfolding put_triple
put_triple_three n t a b c out h ea eb ec = rw (
  ea,
  eb,
  ec,
  put_room n a out (omega arith),
  put_room n b (out ++ (a ∷ [])) (omega (arith, length-append out (a ∷ []))),
  append_assoc,
  put_room n c (out ++ (a ∷ b ∷ [])) (omega (arith, length-append out (a ∷ b ∷ []))),
  append_assoc,
)

put_triple_two :
    (n t a b : ℕ) (out : List ℕ)
    → length out + 2 ≡ n
    → t / 2 ^ 16 % 256 ≡ a
    → t / 2 ^ 8 % 256 ≡ b
    → put_triple n t out ≡ out ++ (a ∷ b ∷ [])
unfolding put_triple
put_triple_two n t a b out h ea eb = rw (
  ea,
  eb,
  put_room n a out (omega arith),
  put_room n b (out ++ (a ∷ [])) (omega (arith, length-append out (a ∷ []))),
  append_assoc,
  put_full n (t % 256) (out ++ (a ∷ b ∷ [])) (omega (arith, length-append out (a ∷ b ∷ []))),
)

put_triple_one :
    (n t a : ℕ) (out : List ℕ)
    → length out + 1 ≡ n
    → t / 2 ^ 16 % 256 ≡ a
    → put_triple n t out ≡ out ++ (a ∷ [])
unfolding put_triple
put_triple_one n t a out h ea = rw (
  ea,
  put_room n a out (omega arith),
  put_full n (t / 2 ^ 8 % 256) (out ++ (a ∷ [])) (omega (arith, length-append out (a ∷ []))),
  put_full n (t % 256) (out ++ (a ∷ [])) (omega (arith, length-append out (a ∷ []))),
)

decode_loop-groups :
    (n : ℕ) (s out : List ℕ)
    → IsBytes s
    → length out + length s ≡ n
    → decode_loop n (groups s) out ≡ bytes (out ++ s)
unfolding decode_loop groups
decode_loop-groups n [] out h e = rw append-nil
decode_loop-groups n (a ∷ []) out h e = rw (
  (inverse (a / 4) (omega arith)).0,
  (inverse (a % 4 * 16) (omega arith)).0,
  filler,
  put_triple_one n (a / 4 * 2 ^ 18 + a % 4 * 16 * 2 ^ 12 + 0 * 2 ^ 6 + 0) a out (omega arith)
      (omega arith),
)
decode_loop-groups n (a ∷ b ∷ []) out h e = rw (
  (inverse (a / 4) (omega arith)).0,
  (inverse (a % 4 * 16 + b / 16) (omega arith)).0,
  (inverse (b % 16 * 4) (omega arith)).0,
  filler,
  put_triple_two n (a / 4 * 2 ^ 18 + (a % 4 * 16 + b / 16) * 2 ^ 12 + b % 16 * 4 * 2 ^ 6 + 0) a b
      out (omega arith) (omega arith) (omega arith),
)
decode_loop-groups n (a ∷ b ∷ c ∷ rest) out h e = rw (
  (inverse (a / 4) (omega arith)).0,
  (inverse (a % 4 * 16 + b / 16) (omega arith)).0,
  (inverse (b % 16 * 4 + c / 64) (omega arith)).0,
  (inverse (c % 64) (omega arith)).0,
  put_triple_three n
      (a / 4 * 2 ^ 18 + (a % 4 * 16 + b / 16) * 2 ^ 12 + (b % 16 * 4 + c / 64) * 2 ^ 6 + c % 64) a b
      c out (omega arith) (omega arith) (omega arith) (omega arith),
  decode_loop-groups n rest (out ++ (a ∷ b ∷ c ∷ [])) h.1.1.1
      (omega (arith, length-append out (a ∷ b ∷ c ∷ []))),
  append_assoc,
)

length-groups : (s : List ℕ) → length (groups s) ≡ (length s + 2) / 3 * 4
unfolding groups
length-groups [] = refl
length-groups (a ∷ []) = refl
length-groups (a ∷ b ∷ []) = refl
length-groups (a ∷ b ∷ c ∷ rest) = omega (arith, length-groups rest)

trimmed_more :
    (w last but_last : ℕ) → 2 ≤ w → trimmed (3 + w) last but_last ≡ 3 + trimmed w last but_last
unfolding trimmed
trimmed_more w last but_last h = ground arith

-- A group before others does not touch the end, which tells the length.
output_length-group :
    (q₀ q₁ q₂ q₃ c₀ c₁ c₂ c₃ : ℕ) (s : List ℕ)
    → output_length (q₀ ∷ q₁ ∷ q₂ ∷ q₃ ∷ c₀ ∷ c₁ ∷ c₂ ∷ c₃ ∷ s)
      ≡ 3 + output_length (c₀ ∷ c₁ ∷ c₂ ∷ c₃ ∷ s)
unfolding output_length
output_length-group q₀ q₁ q₂ q₃ c₀ c₁ c₂ c₃ s =
    let n = length s in
    let last : suc (suc (suc (suc (suc (suc (suc (suc n))))))) - 1
        ≡ suc (suc (suc (suc (suc (suc (suc n)))))) =
      omega arith in
    let but_last : suc (suc (suc (suc (suc (suc (suc (suc n))))))) - 2
        ≡ suc (suc (suc (suc (suc (suc n))))) =
      omega arith in
    let last' : suc (suc (suc (suc n))) - 1 ≡ suc (suc (suc n)) = omega arith in
    let but_last' : suc (suc (suc (suc n))) - 2 ≡ suc (suc n) = omega arith in
    let whole : suc (suc (suc (suc (suc (suc (suc (suc n))))))) / 4 * 3
        ≡ 3 + suc (suc (suc (suc n))) / 4 * 3 =
      omega arith in
    rw (last, but_last, last', but_last', whole)
      (trimmed_more (suc (suc (suc (suc n))) / 4 * 3) _ _ (omega arith))

record Opens (t : List ℕ) : Type 0 where
  c₀ : ℕ
  c₁ : ℕ
  c₂ : ℕ
  c₃ : ℕ
  rest : List ℕ
  is : t ≡ c₀ ∷ c₁ ∷ c₂ ∷ c₃ ∷ rest

groups-Opens : (a : ℕ) (s : List ℕ) → Opens (groups (a ∷ s))
unfolding groups
groups-Opens a [] = record { c₀ = _; c₁ = _; c₂ = _; c₃ = _; rest = _; is = refl }
groups-Opens a (b ∷ []) = record { c₀ = _; c₁ = _; c₂ = _; c₃ = _; rest = _; is = refl }
groups-Opens a (b ∷ c ∷ s) = record { c₀ = _; c₁ = _; c₂ = _; c₃ = _; rest = _; is = refl }

output_length-groups : (s : List ℕ) → IsBytes s → output_length (groups s) ≡ length s
unfolding groups
output_length-groups [] h = unfold output_length trimmed in refl
output_length-groups (a ∷ []) h = unfold output_length trimmed in refl
output_length-groups (a ∷ b ∷ []) h =
    unfold output_length trimmed in rw (inverse (b % 16 * 4) (omega arith)).1
output_length-groups (a ∷ b ∷ c ∷ []) h =
    unfold output_length trimmed in
    rw ((inverse (c % 64) (omega arith)).1, (inverse (b % 16 * 4 + c / 64) (omega arith)).1)
output_length-groups (a ∷ b ∷ c ∷ d ∷ rest) h =
    let o = groups-Opens d rest in
    rw (o.is, output_length-group _ _ _ _ o.c₀ o.c₁ o.c₂ o.c₃ o.rest, ← o.is)
      (omega (arith, output_length-groups (d ∷ rest) h.1.1.1))

-- For every byte string, decoding its encoding gives it back.
pub base64_decode-encode : (s : List ℕ) → IsBytes s → base64_decode (base64_encode s) ≡ bytes s
unfolding base64_decode
base64_decode-encode s h =
    let whole : length (groups s) % 4 ≡ 0 = omega (arith, length-groups s) in
    rw (base64_encode-groups s h, whole, output_length-groups s h)
      (decode_loop-groups (length s) s [] h (omega arith))

pub length-base64_encode :
    (s : List ℕ) → IsBytes s → length (base64_encode s) ≡ (length s + 2) / 3 * 4
length-base64_encode s h = rw (base64_encode-groups s h) (length-groups s)
