-- ===== src/Http/Files/Ranges.antt =====
-- The body against the range and the length that the header gives.
use caligo_engine.Base.{
  ℕ, zero, suc, ◌+◌, ◌-◌, ◌%◌, ◌^◌, ◌≤◌, ◌<◌, ◌≡◌, refl, ap, ◌∙◌, Bool, true, false, Option, some,
  List, [], ◌∷◌, ◌++◌, length, take, drop, ◌==◌, if◌then◌else◌, arith, le→leb, take_all,
  length-take, length-drop, length-append, Bool-cases, inl, inr, ==_iff,
}
use caligo_engine.Http.Files.{
  pos, negsuc, diff, minus, increment, to_size, Scanned, first, Range, find_range, content_length,
  seek, Answer, took, failed, buffer_size, bytes_to_read, send_read, send_loop, serve_file,
}

length-send_read :
    (a : Answer) (piece more : List ℕ)
    → length (send_read a piece more) ≤ length piece + length more
unfolding send_read
length-send_read failed [] more = omega arith
length-send_read (took n) [] more = omega arith
length-send_read failed (b ∷ piece) more = omega arith
length-send_read (took n) (b ∷ piece) more =
    omega (arith, length-append (take n (b ∷ piece)) more, length-take n (b ∷ piece))

bytes_to_read_le : (n : ℕ) → bytes_to_read n ≤ n
unfolding bytes_to_read
bytes_to_read_le n = ground arith

bytes_to_read_size : (n : ℕ) → bytes_to_read n ≤ buffer_size
unfolding bytes_to_read
bytes_to_read_size n = ground arith

bytes_to_read_pos : (n : ℕ) → 0 < n → 0 < bytes_to_read n
unfolding bytes_to_read
bytes_to_read_pos n h = ground arith

-- No more goes out than there is left of the file.
length-send_loop :
    (fuel : ℕ) (answers : ℕ → Answer) (k n : ℕ) (file : List ℕ)
    → length (send_loop fuel answers k n file) ≤ length file
unfolding send_loop
length-send_loop zero answers k n file = omega arith
length-send_loop (suc fuel) answers k n file = elim (Bool-cases (n == 0)) [
  | inl e ↦ rw e (omega arith)
  | inr e ↦
      let piece = take (bytes_to_read n) file in
      let rest = drop (length piece) file in
      rw e (
        omega (
          arith,
          length-send_read (answers k) piece
              (send_loop fuel answers (k + 1) (n - length piece) rest),
          length-send_loop fuel answers (k + 1) (n - length piece) rest,
          length-drop (length piece) file,
          length-take (bytes_to_read n) file,
        ))
]

-- Every send takes all that it is given.
abbrev pub AreWhole : (ℕ → Answer) → Type 0
AreWhole answers = (k : ℕ) → (n : ℕ) × (answers k ≡ took n) × (buffer_size ≤ n)

take-empty {ℓ} : {A : Type ℓ} (n : ℕ) → take n [] ≡ (let nothing : List A = [] in nothing)
take-empty zero = refl
take-empty (suc n) = refl

send_read-empty : (a : Answer) (more : List ℕ) → send_read a [] more ≡ []
unfolding send_read
send_read-empty (took n) more = refl
send_read-empty failed more = refl

-- A piece, and what the rest gives behind it.
take-rest :
    (m n : ℕ) (file : List ℕ)
    → m ≤ n
    → take m file ++ take (n - length (take m file)) (drop (length (take m file)) file)
      ≡ take n file
take-rest zero n file h = let e : n - 0 ≡ n = omega arith in ap (λ k. take k file) e
take-rest (suc m) n [] h = let e : n - 0 ≡ n = omega arith in ap (λ k. take k []) e
take-rest (suc m) zero (b ∷ file) h = absurd (omega arith)
take-rest (suc m) (suc n) (b ∷ file) h =
    let e : suc n - suc (length (take m file)) ≡ n - length (take m file) = omega arith in
    rw e (ap (λ r. b ∷ r) (take-rest m n file (omega arith)))

send_read-whole :
    (n : ℕ) (piece more : List ℕ)
    → 0 < length piece
    → length piece ≤ n
    → send_read (took n) piece more ≡ piece ++ more
unfolding send_read
send_read-whole n [] more h k = absurd (omega arith)
send_read-whole n (b ∷ piece) more h k = ap (λ (r : List ℕ). r ++ more) (take_all n (b ∷ piece) k)

send_loop-take :
    (fuel : ℕ) (answers : ℕ → Answer) (k n : ℕ) (file : List ℕ)
    → AreWhole answers
    → length file < fuel
    → send_loop fuel answers k n file ≡ take n file
unfolding send_loop
send_loop-take zero answers k n file whole enough = absurd (omega arith)
send_loop-take (suc fuel) answers k n [] whole enough =
    simp (take-empty, send_read-empty (answers k)) (either (n == 0))
  where
    nothing : List ℕ
    nothing = []

    either : (b : Bool) → (if b then [] else []) ≡ nothing
    either true = refl
    either false = refl
send_loop-take (suc fuel) answers k n (b ∷ file) whole enough = elim (Bool-cases (n == 0)) [
  | inl e ↦ let z = (==_iff n 0).0 e in rw (e, z) refl
  | inr e ↦
      let size = bytes_to_read n in
      let piece = take size (b ∷ file) in
      let (taken, answer, fits) = whole k in
      let some_left : 0 < n = ground arith in
      let some_read : 0 < length piece =
        omega (arith, length-take size (b ∷ file), bytes_to_read_pos n some_left) in
      let fits_in : length piece ≤ taken =
        omega (arith, length-take size (b ∷ file), bytes_to_read_size n, fits) in
      let rest = drop (length piece) (b ∷ file) in
      let less : length rest < fuel =
        omega (arith, length-drop (length piece) (b ∷ file), enough, some_read) in
      rw (e, answer)
        (send_read-whole taken piece _ some_read fits_in
          ∙ (ap (λ r. piece ++ r)
                (send_loop-take fuel answers (k + 1) (n - length piece) rest whole less)
              ∙ take-rest size n (b ∷ file) (bytes_to_read_le n)))
]

-- A range of this many bytes.
content_length-range :
    (r : Range) (s e : ℕ)
    → r.start_byte ≡ pos s
    → r.end_byte ≡ pos e
    → s ≤ e
    → content_length r ≡ pos (e - s + 1)
unfolding content_length minus increment diff
content_length-range r s e from to h =
    ap (λ x. increment (minus x r.start_byte)) to
    ∙ (ap (λ x. increment (minus (pos e) x)) from ∙ (rw (le→leb s e h) refl))

-- Where the header gives a range that lies in the file, however it was asked for, its Content-Length
-- is the number of bytes of the range, and if every send takes all that it is given, the body is the
-- bytes of the file from the first of the range to the last.
pub serve_file-range :
    (answers : ℕ → Answer) (scanned : Option Scanned) (file : List ℕ) (s e : ℕ)
    → AreWhole answers
    → (find_range (length file) scanned).start_byte ≡ pos s
    → (find_range (length file) scanned).end_byte ≡ pos e
    → s ≤ e
    → e < length file
    → length file < 2 ^ 63
    → ((serve_file answers scanned file).1 ≡ pos (e - s + 1))
      × ((serve_file answers scanned file).2 ≡ take (e - s + 1) (drop s file))
unfolding serve_file seek to_size
serve_file-range answers scanned file s e whole from to order inside small =
    let c = content_length-range (find_range (length file) scanned) s e from to order in
    let n : (e - s + 1) % 2 ^ 64 ≡ e - s + 1 = omega arith in
    let enough : length (drop s file) < suc (length file) = omega (arith, length-drop s file) in
    (
      c,
      ap
            (λ x.
              send_loop (suc (length file)) answers 0 (to_size x)
                (seek (find_range (length file) scanned).start_byte file))
            c
          ∙ (ap (λ x. send_loop (suc (length file)) answers 0 ((e - s + 1) % 2 ^ 64) (seek x file))
                from
              ∙ (ap (λ x. send_loop (suc (length file)) answers 0 x (drop s file)) n
                  ∙ send_loop-take (suc (length file)) answers 0 (e - s + 1) (drop s file) whole
                      enough)),
    )

suffix_length : (n k : ℕ) → increment (minus (diff n 1) (negsuc k)) ≡ pos (n + k + 1)
unfolding increment minus diff
suffix_length zero k =
    let e : k - 0 + 1 ≡ 0 + k + 1 = omega arith in rw (le→leb 0 k (omega arith)) (ap pos e)
suffix_length (suc n) k =
    let e : suc n - 1 + k + 1 + 1 ≡ suc n + k + 1 = omega arith in
    rw (le→leb 1 (suc n) (omega arith)) (ap pos e)

-- A range with a negative first byte, as in `bytes=-500`, and no second number: the header promises
-- more bytes than the file has, and whatever the sends answer, fewer go out than it promises.
pub serve_file_suffix :
    (answers : ℕ → Answer) (file : List ℕ) (k : ℕ)
    → ((serve_file answers (some (first (negsuc k))) file).1 ≡ pos (length file + k + 1))
      × (length (serve_file answers (some (first (negsuc k))) file).2 < length file + k + 1)
unfolding serve_file content_length find_range seek
serve_file_suffix answers file k =
    let sent =
      length-send_loop (suc (length file)) answers 0
        (to_size (increment (minus (diff (length file) 1) (negsuc k)))) file in
    (suffix_length (length file) k, omega (arith, sent))
