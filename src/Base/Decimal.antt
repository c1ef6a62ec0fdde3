-- ===== src/Base/Decimal.antt =====
-- Decimal numbers: what printf("%ld") writes, and the digits that atoi and sscanf read.
use Prim.Native.Nat.{ℕ, zero, suc, ◌+◌, ◌-◌, ◌*◌, ◌/◌, ◌%◌, ◌^◌, ◌<◌}
use mathlib.Core.Path.{◌≡◌, refl, sym, ap, ◌∙◌}
use mathlib.Core.Bool.{◌&&◌}
use mathlib.Core.Option.{Option, none, some}
use mathlib.Core.List.{List, [], ◌∷◌, ◌++◌}
use mathlib.Core.Logic.{inl, inr}
use native.Mathlib.Omega.{arith}
use package.caligo_engine.Base.Tests.{ltb, leb, if◌then◌else◌, Bool-cases}

unfoldable pub digit_value : ℕ → Option ℕ
digit_value c = if leb b'0' c && leb c b'9' then some (c - 48) else none

-- A round for each digit.
unfoldable pub decimal_loop : ℕ → ℕ → List ℕ → List ℕ
decimal_loop zero n digits = digits
decimal_loop (suc rounds) n digits =
    let more = decimal_loop rounds (n / 10) ((n % 10 + 48) ∷ digits) in
    if ltb n 10 then (n + 48) ∷ digits else more

-- The digits of a number below 10 ^ 20, as one of 64 bits is.
unfoldable pub decimal : ℕ → List ℕ
decimal n = decimal_loop 20 n []

-- The number that a text starts with, behind the digits read so far, and the rest of the text.
unfoldable pub read_decimal : ℕ → List ℕ → ℕ × List ℕ
read_decimal n [] = (n, [])
read_decimal n (c ∷ s) = elim (digit_value c) [
  | none ↦ (n, c ∷ s)
  | some v ↦ read_decimal (n * 10 + v) s
]

pub digit_value-add : (n : ℕ) → n < 10 → digit_value (n + 48) ≡ some n
unfolding digit_value
digit_value-add n h = ground arith

read_decimal-digit :
    (n d : ℕ) (s : List ℕ) → d < 10 → read_decimal n ((d + 48) ∷ s) ≡ read_decimal (n * 10 + d) s
unfolding read_decimal
read_decimal-digit n d s h = rw (digit_value-add d h, read_decimal)

-- A number that has so many digits at most.
abbrev Fits : ℕ → ℕ → Type 0
Fits zero n = n ≡ 0
Fits (suc rounds) n = Fits rounds (n / 10)

read_decimal-decimal_loop :
    (rounds n : ℕ) (digits : List ℕ)
    → Fits rounds n
    → read_decimal 0 (decimal_loop rounds n digits) ≡ read_decimal n digits
unfolding decimal_loop
read_decimal-decimal_loop zero n digits h = ap (λ k. read_decimal k digits) (sym h)
read_decimal-decimal_loop (suc rounds) n digits h = elim (Bool-cases (ltb n 10)) [
  | inl last ↦
      let e : 0 * 10 + n ≡ n = omega arith in
      rw last (read_decimal-digit 0 n digits (ground arith) ∙ ap (λ k. read_decimal k digits) e)
  | inr longer ↦
      let e : n / 10 * 10 + n % 10 ≡ n = omega arith in
      rw longer (
        read_decimal-decimal_loop rounds (n / 10) ((n % 10 + 48) ∷ digits) h
        ∙ (read_decimal-digit (n / 10) (n % 10) digits (omega arith)
            ∙ ap (λ k. read_decimal k digits) e))
]

decimal_loop-append :
    (rounds n : ℕ) (digits s : List ℕ)
    → decimal_loop rounds n digits ++ s ≡ decimal_loop rounds n (digits ++ s)
unfolding decimal_loop
decimal_loop-append zero n digits s = refl
decimal_loop-append (suc rounds) n digits s = elim (Bool-cases (ltb n 10)) [
  | inl last ↦ rw last
  | inr longer ↦ rw longer (decimal_loop-append rounds (n / 10) ((n % 10 + 48) ∷ digits) s)
]

-- Every number below 2 ^ 64 is read back from its digits.
pub read_decimal-decimal :
    (n : ℕ) (s : List ℕ) → n < 2 ^ 64 → read_decimal 0 (decimal n ++ s) ≡ read_decimal n s
unfolding decimal
read_decimal-decimal n s h =
    ap (read_decimal 0) (decimal_loop-append 20 n [] s)
    ∙ read_decimal-decimal_loop 20 n s (omega arith)

decimal_loop-digit :
    (rounds n d : ℕ) (digits : List ℕ)
    → d < 10
    → (e : ℕ) × (t : List ℕ) × (decimal_loop rounds n ((d + 48) ∷ digits) ≡ (e + 48) ∷ t) × (e < 10)
unfolding decimal_loop
decimal_loop-digit zero n d digits h = (d, digits, refl, h)
decimal_loop-digit (suc rounds) n d digits h = elim (Bool-cases (ltb n 10)) [
  | inl last ↦ rw last (n, (d + 48) ∷ digits, refl, ground arith)
  | inr longer ↦
      rw longer (decimal_loop-digit rounds (n / 10) (n % 10) ((d + 48) ∷ digits) (omega arith))
]

-- A number starts with a digit.
pub decimal-digit : (n : ℕ) → (d : ℕ) × (t : List ℕ) × (decimal n ≡ (d + 48) ∷ t) × (d < 10)
unfolding decimal decimal_loop
decimal-digit n = elim (Bool-cases (ltb n 10)) [
  | inl last ↦ rw last (n, [], refl, ground arith)
  | inr longer ↦ rw longer (decimal_loop-digit 19 (n / 10) (n % 10) [] (omega arith))
]
