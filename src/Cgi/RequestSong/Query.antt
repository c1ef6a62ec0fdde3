-- ===== src/Cgi/RequestSong/Query.antt =====
-- What the decoder and the mask make of a query.
use caligo_engine.Base.{
  ℕ, ◌+◌, ◌/◌, ◌%◌, ◌≡◌, refl, sym, subst, ◌∙◌, Bool, true, false, ◌||◌, ◌&&◌, Option, none, some,
  List, [], ◌∷◌, ◌++◌, ltb, leb, ◌==◌, if◌then◌else◌, arith, Bool-cases, Option-cases, inl, inr,
  All, ==_iff,
}
use mathlib.Core.Option
use caligo_engine.Base.Text.{find_char, c_str}
use caligo_engine.Base.Hex.{hex_value}
use caligo_engine.Base.Bytes.{IsByte, IsBytes, all_below, at_each}
use caligo_engine.Cgi.RequestSong.{
  code_value, plain_char, url_decode, is_unsafe, mask_query, safe_query,
}

-- Percent-encoding, as a browser encodes a form: letters and digits stand for themselves, a space is
-- a plus sign, and any other byte is its two hexadecimal digits.
abbrev hex_digit : ℕ → ℕ
hex_digit n = if ltb n 10 then n + 48 else n + 55

abbrev is_plain : ℕ → Bool
is_plain c =
    (leb b'0' c && leb c b'9') || ((leb b'A' c && leb c b'Z') || (leb b'a' c && leb c b'z'))

unfoldable pub url_encode : List ℕ → List ℕ
url_encode [] = []
url_encode (c ∷ s) =
    if is_plain c
    then c ∷ url_encode s
    else if c == 32
    then b'+' ∷ url_encode s
    else b'%' ∷ hex_digit (c / 16) ∷ hex_digit (c % 16) ∷ url_encode s

code_table : all_below 256 (λ c. code_value (hex_digit (c / 16)) (hex_digit (c % 16)) == c) ≡ true
unfolding all_below code_value hex_value
code_table = refl

plain_lem : (c : ℕ) → is_plain c ≡ true → ((c == b'%') ≡ false) × ((c == b'+') ≡ false)
plain_lem c h = ground arith

-- A character that is no percent sign is taken as it stands.
url_decode-plain :
    (c : ℕ) (s : List ℕ)
    → (c == b'%') ≡ false
    → url_decode (c ∷ s) ≡ Option.map (λ t. plain_char c ∷ t) (url_decode s)
unfolding url_decode
url_decode-plain c [] e = rw e
url_decode-plain c (a ∷ []) e = rw e
url_decode-plain c (a ∷ b ∷ s) e = rw e

code_step :
    (c : ℕ) (s : List ℕ)
    → IsByte c
    → url_decode (b'%' ∷ hex_digit (c / 16) ∷ hex_digit (c % 16) ∷ s)
      ≡ Option.map (λ t. c ∷ t) (url_decode s)
unfolding url_decode
code_step c s h =
    let e =
      (==_iff (code_value (hex_digit (c / 16)) (hex_digit (c % 16))) c).0
        (at_each _ 256 code_table c h) in
    rw e

-- For every byte string, decoding its percent-encoding gives it back.
pub url_decode-encode : (s : List ℕ) → IsBytes s → url_decode (url_encode s) ≡ some s
unfolding url_encode
url_decode-encode [] h = unfold url_decode in refl
url_decode-encode (c ∷ s) h = elim (Bool-cases (is_plain c)) [
  | inl plain ↦
      let (p, q) = plain_lem c plain in
      rw (plain, url_decode-plain c (url_encode s) p, url_decode-encode s h.1, q)
  | inr other ↦ elim (Bool-cases (c == 32)) [
    | inl space ↦
        let e : c ≡ 32 = (==_iff c 32).0 space in
        rw (other, space, url_decode-plain b'+' (url_encode s) refl, url_decode-encode s h.1, e)
    | inr coded ↦ rw (other, coded) (code_step c (url_encode s) h.0 ∙ rw (url_decode-encode s h.1))
  ]
]

-- Neither the characters that the shell reads in double quotes nor those that end a command are left.
abbrev pub IsSafe : ℕ → Type 0
IsSafe c = is_unsafe c ≡ false

mask_query-IsSafe : (s : List ℕ) → All IsSafe (mask_query s)
unfolding mask_query
mask_query-IsSafe [] = tt
mask_query-IsSafe (c ∷ s) = elim (Bool-cases (is_unsafe c)) [
  | inl bad ↦ rw bad (unfold is_unsafe find_char in refl, mask_query-IsSafe s)
  | inr good ↦ rw (good) (good, mask_query-IsSafe s)
]

-- How a shell reads a text in double quotes, from behind the first, up to the next; `none` where a
-- `$`, a backquote or a backslash makes it read more than the text, or where the text does not end.
unfoldable pub read_quoted : List ℕ → Option (List ℕ × List ℕ)
read_quoted [] = none
read_quoted (c ∷ s) =
    let more = Option.map (λ r. (c ∷ r.0, r.1)) (read_quoted s) in
    if c == 34 then some ([], s) else if (c == b'$' || c == b'`') || c == 92 then none else more

differs : (c d : ℕ) → is_unsafe d ≡ true → IsSafe c → (c == d) ≡ false
differs c d bad good = elim (Bool-cases (c == d)) [
  | inl e ↦
      let same = subst (λ x. is_unsafe x ≡ false) ((==_iff c d).0 e) good in
      absurd (let clash : true ≡ false = sym bad ∙ same in cc)
  | inr e ↦ e
]

read_quoted-IsSafe :
    (s rest : List ℕ) → All IsSafe s → read_quoted (s ++ 34 ∷ rest) ≡ some (s, rest)
unfolding read_quoted
read_quoted-IsSafe [] rest h = refl
read_quoted-IsSafe (c ∷ s) rest h = rw (
  differs c 34 (unfold is_unsafe find_char in refl) h.0,
  differs c b'$' (unfold is_unsafe find_char in refl) h.0,
  differs c b'`' (unfold is_unsafe find_char in refl) h.0,
  differs c 92 (unfold is_unsafe find_char in refl) h.0,
  read_quoted-IsSafe s rest h.1,
)

-- Whatever the form holds, the query that is put between double quotes is read by the shell as one
-- word, itself, and nothing of it as a substitution or as the end of the quotes.
pub safe_query-read_quoted :
    (query : List ℕ) (rest : List ℕ) {s : List ℕ}
    → safe_query query ≡ some s
    → read_quoted (s ++ 34 ∷ rest) ≡ some (s, rest)
unfolding safe_query
safe_query-read_quoted query rest {s = s} e = elim (Option-cases (url_decode query)) [
  | inl stray ↦ absurd (let h = rw (stray, safe_query) at e in cc)
  | inr (t, decoded) ↦
      let h = rw (decoded, safe_query) at e in
      let same : mask_query (c_str t) ≡ s = cc in
      subst (λ q. read_quoted (q ++ 34 ∷ rest) ≡ some (q, rest)) same
        (read_quoted-IsSafe (mask_query (c_str t)) rest (mask_query-IsSafe (c_str t)))
]
