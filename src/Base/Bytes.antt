-- ===== src/Base/Bytes.antt =====
-- Bytes, finite checks over them, and the exclusive or on which WebSocket masking rests.
use Prim.Native.Nat.{differ, digits, bitwise, bit_xor-bitwise}
use Prim.Native.Nat.{ℕ, zero, suc, ◌+◌, ◌*◌, ◌/◌, ◌%◌, ◌≤◌, ◌<◌, bit_xor}
use mathlib.Core.Path.{◌≡◌, refl, ◌∙◌}
use mathlib.Core.Bool.{Bool, true, ◌&&◌}
use mathlib.Core.List.{List}
use native.Mathlib.Omega.{arith}
use native.Mathlib.Nat.{le_refl}
use package.caligo_engine.Base.Lists.{All}

abbrev pub IsByte : ℕ → Type 0
IsByte x = x < 256

abbrev pub IsBytes : List ℕ → Type 0
IsBytes = All IsByte

unfoldable pub all_below : ℕ → (ℕ → Bool) → Bool
all_below zero p = true
all_below (suc n) p = p n && all_below n p

-- A test that holds of all numbers below a bound holds of each of them.
pub at_each :
    (test : ℕ → Bool) (bound : ℕ)
    → all_below bound test ≡ true
    → (i : ℕ) → i < bound
    → test i ≡ true
unfolding all_below
at_each test zero holds i inside = absurd (omega arith)
at_each test (suc bound) holds i inside =
    let before : all_below bound test ≡ true = ground arith in
    ground (arith, at_each test bound before i)

-- Exclusive or by its lowest digit, with the fuel of the library's definition dropped.
xor_fuel :
    (n m a b : ℕ) → a ≤ n → a ≤ m → digits (λ y. y) differ n a b ≡ digits (λ y. y) differ m a b
xor_fuel zero zero a b p q = refl
xor_fuel zero (suc m) zero b p q = refl
xor_fuel zero (suc m) (suc a) b p q = absurd (omega arith)
xor_fuel (suc n) zero zero b p q = refl
xor_fuel (suc n) zero (suc a) b p q = absurd (omega arith)
xor_fuel (suc n) (suc m) zero b p q = refl
xor_fuel (suc n) (suc m) (suc a) b p q =
    rw (xor_fuel n m (suc a / 2) (b / 2) (omega arith) (omega arith))

xor-suc :
    (a b : ℕ)
    → bitwise (λ y. y) differ (suc a) b
      ≡ bitwise (λ y. y) differ (suc a / 2) (b / 2) * 2 + differ (suc a % 2) (b % 2)
xor-suc a b = omega (arith, xor_fuel a (suc a / 2) (suc a / 2) (b / 2) (omega arith) (le_refl _))

zero-xor : (b : ℕ) → bit_xor 0 b ≡ b
zero-xor b = simp bit_xor-bitwise

differ_zero : (y : ℕ) → differ 0 y ≡ y
differ_zero y = refl

xor_step : (a b : ℕ) → bit_xor a b ≡ bit_xor (a / 2) (b / 2) * 2 + differ (a % 2) (b % 2)
xor_step zero b = omega (arith, zero-xor b, zero-xor (b / 2), differ_zero (b % 2))
xor_step (suc a) b = simp bit_xor-bitwise (xor-suc a b)

differ_bits : (x k : ℕ) → x < 2 → k < 2 → (differ x k < 2) × (differ (differ x k) k ≡ x)
differ_bits zero zero p q = (omega arith, refl)
differ_bits zero (suc zero) p q = (omega arith, refl)
differ_bits (suc zero) zero p q = (omega arith, refl)
differ_bits (suc zero) (suc zero) p q = (omega arith, refl)
differ_bits zero (suc (suc k)) p q = absurd (omega arith)
differ_bits (suc zero) (suc (suc k)) p q = absurd (omega arith)
differ_bits (suc (suc x)) k p q = absurd (omega arith)

-- The two halves of an exclusive or.
xor_halves :
    (a b : ℕ)
    → (bit_xor a b / 2 ≡ bit_xor (a / 2) (b / 2)) × (bit_xor a b % 2 ≡ differ (a % 2) (b % 2))
xor_halves a b =
    let d = differ_bits (a % 2) (b % 2) (omega arith) (omega arith) in
    (omega (arith, xor_step a b, d.0), omega (arith, xor_step a b, d.0))

xor_undo_below : (n x k : ℕ) → x ≤ n → k ≤ n → bit_xor (bit_xor x k) k ≡ x
xor_undo_below zero zero zero p q = refl
xor_undo_below zero (suc x) k p q = absurd (omega arith)
xor_undo_below zero zero (suc k) p q = absurd (omega arith)
xor_undo_below (suc n) x k p q =
    let h = xor_halves x k in
    let d = differ_bits (x % 2) (k % 2) (omega arith) (omega arith) in
    let below = xor_undo_below n (x / 2) (k / 2) (omega arith) (omega arith) in
    xor_step (bit_xor x k) k ∙ (rw (h.0, h.1, below, d.1) (omega arith))

-- Masking with the same key twice gives the value back.
pub xor_undo : (x k : ℕ) → bit_xor (bit_xor x k) k ≡ x
xor_undo x k = xor_undo_below (x + k) x k (omega arith) (omega arith)
