-- ===== src/Http/Cgi/Credentials.antt =====
-- The variables of a request with a query.
use caligo_engine.Base.{
  ℕ, zero, suc, ◌+◌, ◌-◌, ◌≡◌, refl, sym, ap, ◌∙◌, none, some, List, [], ◌∷◌, ◌++◌, length, take,
  drop, arith, append_assoc, take-append, drop-append, drop-drop, length-append, ◌≢◌, ◌==◌,
  Bool-cases, Option-cases, inl, inr,
}
use caligo_engine.Base.Text.{
  codes, Without, find_char, find_char-append, find_sub, is_prefix, find_sub_ci,
}
use caligo_engine.Http.Work.{crlf, skip_blanks, line_of, find_header_value}
use caligo_engine.Http.Cgi.{cut_query, environment}

Without-drop : (a n : ℕ) (s : List ℕ) → Without a s → Without a (drop n s)
Without-drop a zero s h = h
Without-drop a (suc n) [] h = tt
Without-drop a (suc n) (c ∷ s) h = Without-drop a n s h.1

Without-skip_blanks : (a : ℕ) (s : List ℕ) → Without a s → Without a (skip_blanks s)
unfolding skip_blanks
Without-skip_blanks a [] h = tt
Without-skip_blanks a (c ∷ s) h = elim (Bool-cases (c == 32)) [
  | inl e ↦ rw e (Without-skip_blanks a s h.1)
  | inr e ↦ rw e h
]

find_sub-Without : (s : List ℕ) → Without 13 s → find_sub crlf s ≡ none
unfolding find_sub is_prefix
find_sub-Without [] h = refl
find_sub-Without (c ∷ s) h = ground (arith, find_sub-Without s h.1)

line_of-Without : (s : List ℕ) → Without 13 s → line_of s ≡ none
unfolding line_of
line_of-Without s h = rw (find_sub-Without s h, line_of)

find_header_value-Without : (s name : List ℕ) → Without 13 s → find_header_value s name ≡ none
unfolding find_header_value
find_header_value-Without s name h = elim (Option-cases (find_sub_ci name s)) [
  | inl e ↦ rw (e, find_header_value)
  | inr (at, e) ↦ elim (Option-cases (find_char b':' (drop at s))) [
    | inl e' ↦ rw (e, e', find_header_value)
    | inr (colon, e') ↦
        rw (e, e', find_header_value)
          (line_of-Without _
            (Without-skip_blanks 13 _ (Without-drop 13 (colon + 1) _ (Without-drop 13 at s h))))
  ]
]

query_part :
    (before query rest : List ℕ)
    → take
        (suc (length query) - 1)
        (drop (length before + 1) (before ++ (b'?' ∷ (query ++ 32 ∷ rest))))
      ≡ query
query_part before query rest =
    let n : suc (length query) - 1 ≡ length query = omega arith in
    rw (n, drop-drop (length before) 1, drop-append before (b'?' ∷ (query ++ 32 ∷ rest)))
      (take-append query (32 ∷ rest))

cut_part :
    (before query rest : List ℕ)
    → take (length before + suc (length query)) (before ++ (b'?' ∷ (query ++ 32 ∷ rest)))
      ≡ before ++ (b'?' ∷ query)
cut_part before query rest =
    let n : length before + suc (length query) ≡ length (before ++ (b'?' ∷ query)) =
      sym (length-append before (b'?' ∷ query)) in
    rw (n, ← append_assoc before (b'?' ∷ query) (32 ∷ rest))
      (take-append (before ++ (b'?' ∷ query)) (32 ∷ rest))

cut_query-append :
    (before query rest : List ℕ)
    → Without b'?' before
    → Without 32 query
    → cut_query (before ++ (b'?' ∷ (query ++ 32 ∷ rest))) ≡ (query, before ++ (b'?' ∷ query))
unfolding cut_query
cut_query-append before query rest h h' =
    let request : List ℕ = before ++ (b'?' ∷ (query ++ 32 ∷ rest)) in
    let apart : 32 ≢ b'?' = λ e. omega (arith, e) in
    let at_mark = drop-append before (b'?' ∷ (query ++ 32 ∷ rest)) in
    let end : find_char 32 (drop (length before) request) ≡ some (suc (length query)) =
      ap (find_char 32) at_mark ∙ find_char-append 32 (b'?' ∷ query) rest (apart, h') in
    rw (find_char-append b'?' before (query ++ 32 ∷ rest) h, end, cut_query)
      (λ i. (query_part before query rest i, cut_part before query rest i))

-- The credentials of a request with a query are not passed on: if the text to the end of the query is
-- on one line, the program's QUERY_STRING is the query, and HTTP_AUTHORIZATION is not set, whatever
-- headers follow.
pub environment_query :
    (before query rest : List ℕ)
    → Without b'?' before
    → Without 32 query
    → Without 13 (before ++ (b'?' ∷ query))
    → let variables = environment (before ++ (b'?' ∷ (query ++ 32 ∷ rest))) in
      (variables.query_string ≡ query) × (variables.http_authorization ≡ none)
unfolding environment
environment_query before query rest h h' one_line =
    rw (cut_query-append before query rest h h')
      (refl, find_header_value-Without (before ++ (b'?' ∷ query)) (codes "Authorization") one_line)
