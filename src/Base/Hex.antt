-- ===== src/Base/Hex.antt =====
-- Hexadecimal numbers: what printf("%lx") writes, and how they are read.
use Prim.Native.Nat.{ℕ, zero, suc, ◌+◌, ◌-◌, ◌*◌, ◌/◌, ◌%◌, ◌^◌, ◌<◌}
use mathlib.Core.Path.{◌≡◌, refl, sym, ap, ◌∙◌}
use mathlib.Core.Bool.{◌&&◌}
use mathlib.Core.Option.{Option, none, some}
use mathlib.Core.List.{List, [], ◌∷◌, ◌++◌, map}
use native.Mathlib.Omega.{arith}
use package.caligo_engine.Base.Lists.{All}
use package.caligo_engine.Base.Tests.{ltb, leb, if◌then◌else◌, Bool-cases}
use mathlib.Core.Logic.{inl, inr}

unfoldable pub hex_value : ℕ → Option ℕ
hex_value c =
    if leb b'0' c && leb c b'9'
    then some (c - 48)
    else if leb b'a' c && leb c b'f'
    then some (c - 87)
    else if leb b'A' c && leb c b'F'
    then some (c - 55)
    else none

unfoldable pub hex_char : ℕ → ℕ
hex_char n = if ltb n 10 then n + 48 else n + 87

-- A round for each digit.
unfoldable pub hex_loop : ℕ → ℕ → List ℕ → List ℕ
hex_loop zero n digits = digits
hex_loop (suc rounds) n digits =
    let more = hex_loop rounds (n / 16) (hex_char (n % 16) ∷ digits) in
    if ltb n 16 then hex_char n ∷ digits else more

-- %lx of a 64-bit number, which has at most 16 digits.
unfoldable pub hex : ℕ → List ℕ
hex n = hex_loop 16 n []

-- The number that a text starts with, behind the digits read so far, and the rest of the text.
unfoldable pub read_hex : ℕ → List ℕ → ℕ × List ℕ
read_hex n [] = (n, [])
read_hex n (c ∷ s) = elim (hex_value c) [ none ↦ (n, c ∷ s) | some v ↦ read_hex (n * 16 + v) s ]

hex_value-hex_char : (n : ℕ) → n < 16 → hex_value (hex_char n) ≡ some n
unfolding hex_value hex_char
hex_value-hex_char n h = ground arith

read_hex-digit :
    (n d : ℕ) (s : List ℕ) → d < 16 → read_hex n (hex_char d ∷ s) ≡ read_hex (n * 16 + d) s
unfolding read_hex
read_hex-digit n d s h = rw (hex_value-hex_char d h, read_hex)

-- A number that has so many hexadecimal digits at most.
abbrev Fits : ℕ → ℕ → Type 0
Fits zero n = n ≡ 0
Fits (suc rounds) n = Fits rounds (n / 16)

read_hex-hex_loop :
    (rounds n : ℕ) (digits : List ℕ)
    → Fits rounds n
    → read_hex 0 (hex_loop rounds n digits) ≡ read_hex n digits
unfolding hex_loop
read_hex-hex_loop zero n digits h = ap (λ k. read_hex k digits) (sym h)
read_hex-hex_loop (suc rounds) n digits h = elim (Bool-cases (ltb n 16)) [
  | inl last ↦
      let e : 0 * 16 + n ≡ n = omega arith in
      rw last (read_hex-digit 0 n digits (ground arith) ∙ ap (λ k. read_hex k digits) e)
  | inr longer ↦
      let e : n / 16 * 16 + n % 16 ≡ n = omega arith in
      rw longer (
        read_hex-hex_loop rounds (n / 16) (hex_char (n % 16) ∷ digits) h
        ∙ (read_hex-digit (n / 16) (n % 16) digits (omega arith) ∙ ap (λ k. read_hex k digits) e))
]

hex_loop-append :
    (rounds n : ℕ) (digits s : List ℕ)
    → hex_loop rounds n digits ++ s ≡ hex_loop rounds n (digits ++ s)
unfolding hex_loop
hex_loop-append zero n digits s = refl
hex_loop-append (suc rounds) n digits s = elim (Bool-cases (ltb n 16)) [
  | inl last ↦ rw last
  | inr longer ↦ rw longer (hex_loop-append rounds (n / 16) (hex_char (n % 16) ∷ digits) s)
]

-- Every number below 2 ^ 64 is read back from its digits, whatever follows that is no digit.
pub read_hex-hex :
    (n c : ℕ) (s : List ℕ)
    → n < 2 ^ 64
    → hex_value c ≡ none
    → read_hex 0 (hex n ++ c ∷ s) ≡ (n, c ∷ s)
unfolding read_hex hex
read_hex-hex n c s h e =
    ap (read_hex 0) (hex_loop-append 16 n [] (c ∷ s))
    ∙ (read_hex-hex_loop 16 n (c ∷ s) (omega arith) ∙ (rw (e, read_hex)))

-- toupper on ASCII, and %lX, which writes the digits of %lx in upper case.
unfoldable pub to_upper : ℕ → ℕ
to_upper c = if leb b'a' c && leb c b'z' then c - 32 else c

unfoldable pub hex_upper : ℕ → List ℕ
hex_upper n = map to_upper (hex n)

hex_value-to_upper : (c : ℕ) → hex_value (to_upper c) ≡ hex_value c
unfolding hex_value to_upper
hex_value-to_upper c = ground arith

abbrev IsDigit : ℕ → Type 0
IsDigit c = (v : ℕ) × (hex_value c ≡ some v)

read_hex-to_upper :
    (n : ℕ) (digits s : List ℕ)
    → All IsDigit digits
    → read_hex n (map to_upper digits ++ s) ≡ read_hex n (digits ++ s)
unfolding read_hex
read_hex-to_upper n [] s h = refl
read_hex-to_upper n (c ∷ digits) s ((v, e), h) =
    rw (hex_value-to_upper c ∙ e, read_hex)
      (rw (e, read_hex) (read_hex-to_upper (n * 16 + v) digits s h))

hex_loop-IsDigit :
    (rounds n : ℕ) (digits : List ℕ) → All IsDigit digits → All IsDigit (hex_loop rounds n digits)
unfolding hex_loop
hex_loop-IsDigit zero n digits h = h
hex_loop-IsDigit (suc rounds) n digits h = elim (Bool-cases (ltb n 16)) [
  | inl last ↦ rw last ((n, hex_value-hex_char n (ground arith)), h)
  | inr longer ↦ rw longer (
      hex_loop-IsDigit rounds (n / 16) (hex_char (n % 16) ∷ digits)
        ((n % 16, hex_value-hex_char (n % 16) (omega arith)), h))
]

-- The same in upper case.
pub read_hex-hex_upper :
    (n c : ℕ) (s : List ℕ)
    → n < 2 ^ 64
    → hex_value c ≡ none
    → read_hex 0 (hex_upper n ++ c ∷ s) ≡ (n, c ∷ s)
unfolding hex_upper hex
read_hex-hex_upper n c s h e =
    read_hex-to_upper 0 (hex n) (c ∷ s) (hex_loop-IsDigit 16 n [] tt) ∙ read_hex-hex n c s h e
