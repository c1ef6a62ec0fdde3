-- ===== src/Http/Cgi/Body.antt =====
-- The body of a request, as the program reads it.
use caligo_engine.Base.{
  ℕ, zero, suc, ◌+◌, ◌-◌, ◌≤◌, ◌≡◌, refl, sym, ap, ◌∙◌, some, List, [], ◌∷◌, ◌++◌, All, length,
  take, drop, arith, ltb, ltb→lt, ltb_false→le, take_all, if◌then◌else◌, ◌==◌, ==_iff, Bool-cases,
  inl, inr,
}
use caligo_engine.Base.Text.{find_sub}
use caligo_engine.Http.Loop.{header_end}
use caligo_engine.Http.Cgi.{Round, received, again, ended, piece_size, feed, buffered, body_of}

-- The bytes of the rounds up to the one that ends the loop.
unfoldable pub said : List Round → List ℕ
said [] = []
said (ended ∷ rounds) = []
said (again ∷ rounds) = said rounds
said (received [] ∷ rounds) = []
said (received (b ∷ bytes) ∷ rounds) = (b ∷ bytes) ++ said rounds

-- What recv can give at once.
abbrev pub IsShort : Round → Type 0
IsShort (received bytes) = length bytes ≤ 4096
IsShort again = Unit
IsShort ended = Unit

take_split {ℓ} :
    {A : Type ℓ} (n : ℕ) (xs ys : List A)
    → take n (xs ++ ys) ≡ take n xs ++ take (n - length (take n xs)) ys
take_split zero xs ys = refl
take_split (suc n) [] ys = ap (λ k. take k ys) (let e : suc n ≡ suc n - 0 = omega arith in e)
take_split (suc n) (x ∷ xs) ys =
    ap (λ l. x ∷ l) (take_split n xs ys ∙ ap (λ k. take n xs ++ take k ys) less)
  where
    less : n - length (take n xs) ≡ suc n - suc (length (take n xs))
    less = omega arith

piece_size_lem :
    (n : ℕ) (bytes : List ℕ) → length bytes ≤ 4096 → take (piece_size n) bytes ≡ take n bytes
unfolding piece_size
piece_size_lem n bytes h = elim (Bool-cases (ltb 4096 n)) [
  | inl e ↦ rw e (take_all 4096 bytes h ∙ sym (take_all n bytes (omega (arith, ltb→lt 4096 n e))))
  | inr e ↦ rw e
]

take-nil {ℓ} : {A : Type ℓ} (n : ℕ) → take n [] ≡ (let nothing : List A = [] in nothing)
take-nil zero = refl
take-nil (suc n) = refl

feed-said :
    (rounds : List Round) (n : ℕ) → All IsShort rounds → feed rounds n ≡ take n (said rounds)
unfolding feed said
feed-said [] n h = sym (take-nil n)
feed-said (ended ∷ rounds) n h = sym (take-nil n)
feed-said (again ∷ rounds) n h = elim (Bool-cases (n == 0)) [
  | inl e ↦ rw e (rw ((==_iff n 0).0 e) refl)
  | inr e ↦ rw e (feed-said rounds n h.1)
]
feed-said (received [] ∷ rounds) n h = sym (take-nil n)
feed-said (received (b ∷ bytes) ∷ rounds) n h = elim (Bool-cases (n == 0)) [
  | inl e ↦ rw e (rw ((==_iff n 0).0 e) refl)
  | inr e ↦
      rw (e, piece_size_lem n (b ∷ bytes) h.0)
        (ap (λ l. take n (b ∷ bytes) ++ l) (feed-said rounds _ h.1)
          ∙ sym (take_split n (b ∷ bytes) (said rounds)))
]

-- The program reads the body from behind the header, as it came with the header and then in pieces of
-- 4096 bytes at most, up to the content length.
pub body_of-said :
    (rounds : List Round) (request_buffer : List ℕ) (at n : ℕ)
    → find_sub header_end request_buffer ≡ some at
    → All IsShort rounds
    → body_of rounds request_buffer n ≡ take n (drop (at + 4) request_buffer ++ said rounds)
unfolding body_of buffered
body_of-said rounds request_buffer at n e h =
    rw (e, buffered) (rest (take n (drop (at + 4) request_buffer)) (take_split n _ (said rounds)))
  where
    rest :
        (first : List ℕ)
        → take n (drop (at + 4) request_buffer ++ said rounds)
          ≡ first ++ take (n - length first) (said rounds)
        → first ++ (if ltb (length first) n then feed rounds (n - length first) else [])
          ≡ take n (drop (at + 4) request_buffer ++ said rounds)
    rest first parts = elim (Bool-cases (ltb (length first) n)) [
      | inl e ↦ rw e (ap (λ l. first ++ l) (feed-said rounds (n - length first) h) ∙ sym parts)
      | inr e ↦
          let none_left : n - length first ≡ 0 = omega (arith, ltb_false→le (length first) n e) in
          rw e (ap (λ k. first ++ take k (said rounds)) (sym none_left) ∙ sym parts)
    ]
