-- ===== src/Http/Static/Header.antt =====
-- The range of a request, as it is written and read.
use caligo_engine.Base.{
  ℕ, ◌+◌, ◌-◌, ◌*◌, ◌^◌, ◌<◌, ◌≡◌, refl, sym, ap, ◌∙◌, false, some, List, [], ◌∷◌, ◌++◌, arith,
  append-nil, ◌==◌,
}
use caligo_engine.Base.Decimal.{
  digit_value, digit_value-add, decimal, decimal-digit, read_decimal, read_decimal-decimal,
}
use caligo_engine.Base.Text.{codes, is_prefix}
use caligo_engine.Http.Files.{pos, both}
use caligo_engine.Http.Static.{scan_digits, scan_sign, scan_long, scan_end, scan_range}
use caligo_engine.Http.Routes.{is_space, skip_space}

scan_long-digit :
    (d : ℕ) (t : List ℕ)
    → d < 10
    → scan_long ((d + 48) ∷ t)
      ≡ some (pos (read_decimal 0 ((d + 48) ∷ t)).0, (read_decimal 0 ((d + 48) ∷ t)).1)
unfolding scan_long scan_sign scan_digits read_decimal skip_space is_space
scan_long-digit d t h =
    let e : d + 48 - 48 ≡ d = omega arith in
    let z : 0 * 10 + d ≡ d = omega arith in
    rw
      (
        no_space,
        no_minus,
        no_plus,
        digit_value-add d h,
        skip_space,
        scan_sign,
        scan_digits,
        read_decimal,
        z,
      )
      refl
  where
    no_space : is_space (d + 48) ≡ false
    no_space = unfold is_space in ground arith

    no_minus : (d + 48 == b'-') ≡ false
    no_minus = ground arith

    no_plus : (d + 48 == b'+') ≡ false
    no_plus = ground arith

scan_long-decimal :
    (n : ℕ) (s : List ℕ)
    → n < 2 ^ 63
    → read_decimal n s ≡ (n, s)
    → scan_long (decimal n ++ s) ≡ some (pos n, s)
scan_long-decimal n s h e =
    let (d, t, starts, small) = decimal-digit n in
    let read : read_decimal 0 ((d + 48) ∷ (t ++ s)) ≡ (n, s) =
      ap (λ l. read_decimal 0 (l ++ s)) (sym starts)
      ∙ (read_decimal-decimal n s (omega (arith, h)) ∙ e) in
    ap (λ l. scan_long (l ++ s)) starts
    ∙ (scan_long-digit d (t ++ s) small ∙ ap (λ r. some (pos r.0, r.1)) read)

-- Any two numbers below 2 ^ 63, written as a range of bytes, are read back as its two ends.
pub scan_range-both :
    (start_byte end_byte : ℕ)
    → start_byte < 2 ^ 63
    → end_byte < 2 ^ 63
    → scan_range (codes "bytes=" ++ (decimal start_byte ++ (b'-' ∷ decimal end_byte)))
      ≡ both (pos start_byte) (pos end_byte)
unfolding scan_range scan_end read_decimal digit_value is_prefix
scan_range-both start_byte end_byte h h' =
    let tail : List ℕ = b'-' ∷ decimal end_byte in
    let read_start : scan_long (decimal start_byte ++ tail) ≡ some (pos start_byte, tail) =
      scan_long-decimal start_byte tail h refl in
    let read_end : scan_long (decimal end_byte) ≡ some (pos end_byte, []) =
      ap scan_long (sym (append-nil (decimal end_byte))) ∙ scan_long-decimal end_byte [] h' refl in
    rw (read_start, scan_range) (rw (read_end, scan_end) refl)
