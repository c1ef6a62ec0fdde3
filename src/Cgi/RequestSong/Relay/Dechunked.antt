-- ===== src/Cgi/RequestSong/Relay/Dechunked.antt =====
-- What a reader of the chunked transfer coding makes of the relayed output.
use caligo_engine.Base.{
  ℕ, zero, suc, ◌+◌, ◌^◌, ◌≤◌, ◌<◌, ◌≡◌, refl, sym, ap, subst, ◌∙◌, false, Option, none, some, List,
  [], ◌∷◌, ◌++◌, length, ◌==◌, if◌then◌else◌, arith, append_assoc, length-append,
}
use mathlib.Core.Option
use caligo_engine.Base.Hex.{hex_upper, hex_value, read_hex, read_hex-hex_upper}
use caligo_engine.Base.Text.{Without, c_str, fgets, fgets-append, fgets-lt}
use caligo_engine.Cgi.RequestSong.Relay.{print_chunk, last_chunk, print_line, relay, launch_output}
use caligo_engine.Radio.Chunks.{skip_crlf, unframe, unframe_size, unframe_size-length}

-- RFC 7230, section 4.1: chunks up to one of size 0, at most as many as there are rounds.
abbrev pub and_more : Option (List ℕ × List ℕ) → (List ℕ → Option (List ℕ)) → Option (List ℕ)
and_more none read = none
and_more (some ([], rest)) read = some []
and_more (some (c ∷ chunk, rest)) read = Option.map (λ t. (c ∷ chunk) ++ t) (read rest)

unfoldable pub dechunk : ℕ → List ℕ → Option (List ℕ)
dechunk zero s = none
dechunk (suc rounds) s = and_more (unframe s) (dechunk rounds)

unframe-print_chunk :
    (line rest : List ℕ)
    → length line < 2 ^ 64
    → unframe (print_chunk line ++ rest) ≡ some (line, rest)
unfolding print_chunk
unframe-print_chunk line rest fits =
    let e : print_chunk line ++ rest
        ≡ hex_upper (length line) ++ 13 ∷ 10 ∷ (line ++ 13 ∷ 10 ∷ rest) =
      simp append_assoc in
    ap unframe e
    ∙ (ap unframe_size (
          read_hex-hex_upper (length line) 13 (10 ∷ (line ++ 13 ∷ 10 ∷ rest)) fits
            (unfold hex_value in refl))
        ∙ unframe_size-length line rest)

dechunk-last : (n : ℕ) → 0 < n → dechunk n last_chunk ≡ some []
unfolding dechunk read_hex hex_value skip_crlf
dechunk-last zero h = absurd (omega (arith, h))
dechunk-last (suc n) h = refl

-- A line that is empty costs no round, and another one.
dechunk-print_line :
    (rounds : ℕ) (line rest out : List ℕ)
    → length line < 2 ^ 64
    → ((n : ℕ) → rounds ≤ n → dechunk n rest ≡ some out)
    → (n : ℕ) → suc rounds ≤ n
    → dechunk n (print_line line rest) ≡ some (line ++ out)
unfolding print_line dechunk
dechunk-print_line rounds [] rest out fits read n h = read n (omega (arith, h))
dechunk-print_line rounds (c ∷ line) rest out fits read zero h = absurd (omega (arith, h))
dechunk-print_line rounds (c ∷ line) rest out fits read (suc n) h =
    let some_left : (suc (length line) == 0) ≡ false = ground arith in
    ap (λ b. dechunk (suc n) (if b then rest else print_chunk (c ∷ line) ++ rest)) some_left
    ∙ ap (λ u. and_more u (dechunk n)) (unframe-print_chunk (c ∷ line) rest fits)
    ∙ ap (Option.map (λ t. (c ∷ line) ++ t)) (read n (omega (arith, h)))

c_str-Without : (s : List ℕ) → Without 0 s → c_str s ≡ s
unfolding c_str
c_str-Without [] h = refl
c_str-Without (c ∷ s) h = ground (arith, c_str-Without s h.1)

Without-append : (s t : List ℕ) → Without 0 (s ++ t) → Without 0 s × Without 0 t
Without-append [] t h = (tt, h)
Without-append (c ∷ s) t h = let (a, b) = Without-append s t h.1 in ((h.0, a), b)

dechunk-relay :
    (fuel : ℕ) (output : List ℕ)
    → length output ≤ fuel
    → length output < 2 ^ 64
    → Without 0 output
    → (n : ℕ) → suc fuel ≤ n
    → dechunk n (relay fuel output) ≡ some output
unfolding relay
dechunk-relay zero [] h fits clean n room = dechunk-last n (omega (arith, room))
dechunk-relay zero (c ∷ output) h fits clean n room = absurd (omega (arith, h))
dechunk-relay (suc fuel) [] h fits clean n room = dechunk-last n (omega (arith, room))
dechunk-relay (suc fuel) (c ∷ output) h fits clean n room =
    let (line, rest) = fgets 1023 (c ∷ output) in
    let parts : line ++ rest ≡ c ∷ output = fgets-append 1023 (c ∷ output) in
    let shorter = fgets-lt 1022 c output in
    let sizes : length line + length rest ≡ length (c ∷ output) =
      sym (length-append line rest) ∙ ap length parts in
    let (clean_line, clean_rest) = Without-append line rest (subst (Without 0) (sym parts) clean) in
    ap (λ l. dechunk n (print_line l (relay fuel rest))) (c_str-Without line clean_line)
    ∙ (dechunk-print_line (suc fuel) line (relay fuel rest) rest (omega (arith, sizes, fits))
          (λ m.
            dechunk-relay fuel rest (omega (arith, shorter, h)) (omega (arith, sizes, fits))
              clean_rest m)
          n room
        ∙ ap some parts)

-- An output of the command without a NUL, and shorter than 2 ^ 64 bytes, is what a reader of the chunked
-- transfer coding gets from what the program prints, if it reads a chunk for each byte and the last.
pub dechunk-launch_output :
    (output : List ℕ)
    → length output < 2 ^ 64
    → Without 0 output
    → dechunk (suc (length output)) (launch_output (some output)) ≡ some output
unfolding launch_output
dechunk-launch_output output fits clean =
    dechunk-relay (length output) output (omega arith) fits clean (suc (length output))
      (omega arith)
