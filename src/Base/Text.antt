-- ===== src/Base/Text.antt =====
-- C strings as lists of byte values with no NUL, and the calls of string.h that the sources make:
-- a pointer into a string is an offset, and a null pointer is `none`.
use Prim.Native.Char.{code}
use Prim.Native.String.{String}
use Prim.Native.Nat.{ℕ, zero, suc, ◌+◌, ◌≤◌, ◌<◌}
use mathlib.Core.Path.{◌≡◌, refl, sym, ap, ◌∙◌}
use mathlib.Core.Logic.{◌↔◌, ◌≢◌, inl, inr}
use mathlib.Core.Bool.{Bool, true, false, ◌&&◌}
use mathlib.Core.Option.{Option, none, some}
use mathlib.Core.Option
use mathlib.Core.List.{List, [], ◌∷◌, ◌++◌, map}
use native.Mathlib.Omega.{arith}
use package.caligo_engine.Base.Tests.{
  leb, ◌==◌, if◌then◌else◌, is_some, ==_refl, ==_iff, Bool-cases,
}
use package.caligo_engine.Base.Lists.{length, drop, All}

-- The byte values of an ASCII literal.
abbrev pub codes : String → List ℕ
codes String.[] = []
codes (String.◌∷◌ c s) = code c ∷ codes s

-- The pieces of a text, one behind the other.
abbrev pub concat : List (List ℕ) → List ℕ
concat [] = []
concat (s ∷ pieces) = s ++ concat pieces

-- strcmp(s, t) == 0
unfoldable pub str_eq : List ℕ → List ℕ → Bool
str_eq [] [] = true
str_eq [] (d ∷ t) = false
str_eq (c ∷ s) [] = false
str_eq (c ∷ s) (d ∷ t) = c == d && str_eq s t

-- strncmp(s, p, strlen(p)) == 0
unfoldable pub is_prefix : List ℕ → List ℕ → Bool
is_prefix [] s = true
is_prefix (p ∷ ps) [] = false
is_prefix (p ∷ ps) (c ∷ s) = p == c && is_prefix ps s

-- strchr(s, c), as an offset
unfoldable pub find_char : ℕ → List ℕ → Option ℕ
find_char c [] = none
find_char c (d ∷ s) = if c == d then some 0 else Option.map suc (find_char c s)

-- strstr(s, needle), as an offset
unfoldable pub find_sub : List ℕ → List ℕ → Option ℕ
unfolding is_prefix
find_sub needle [] = if is_prefix needle [] then some 0 else none
find_sub needle (c ∷ s) =
    if is_prefix needle (c ∷ s) then some 0 else Option.map suc (find_sub needle s)

unfoldable pub contains : List ℕ → List ℕ → Bool
unfolding find_sub
contains needle s = is_some (find_sub needle s)

-- tolower on ASCII
unfoldable pub to_lower : ℕ → ℕ
to_lower c = if leb b'A' c && leb c b'Z' then c + 32 else c

-- strcasestr(s, needle), as an offset
unfoldable pub find_sub_ci : List ℕ → List ℕ → Option ℕ
unfolding find_sub to_lower
find_sub_ci needle s = find_sub (map to_lower needle) (map to_lower s)

-- The string that a buffer holds: its bytes before the first NUL.
unfoldable pub c_str : List ℕ → List ℕ
c_str [] = []
c_str (c ∷ s) = if c == 0 then [] else c ∷ c_str s

-- fgets with room for `n` characters: the line with its newline, and what is left of the file.
unfoldable pub fgets : ℕ → List ℕ → List ℕ × List ℕ
fgets zero file = ([], file)
fgets (suc n) [] = ([], [])
fgets (suc n) (c ∷ file) =
    let (line, rest) = fgets n file in if c == 10 then (c ∷ [], file) else (c ∷ line, rest)

pub str_eq_iff : (s t : List ℕ) → (str_eq s t ≡ true) ↔ (s ≡ t)
unfolding str_eq
str_eq_iff [] [] = (λ _. refl, λ _. refl)
str_eq_iff [] (d ∷ t) = (λ h. cc, λ h. cc)
str_eq_iff (c ∷ s) [] = (λ h. cc, λ h. cc)
str_eq_iff (c ∷ s) (d ∷ t) = ground (arith, str_eq_iff s t)

pub str_eq_refl : (s : List ℕ) → str_eq s s ≡ true
str_eq_refl s = (str_eq_iff s s).1 refl

pub is_prefix-append : (p s : List ℕ) → is_prefix p (p ++ s) ≡ true
unfolding is_prefix
is_prefix-append [] s = refl
is_prefix-append (c ∷ p) s = rw (==_refl c) (is_prefix-append p s)

-- A prefix is followed by the rest.
pub is_prefix-drop : (p s : List ℕ) → is_prefix p s ≡ true → s ≡ p ++ drop (length p) s
unfolding is_prefix
is_prefix-drop [] s h = refl
is_prefix-drop (c ∷ p) [] h = cc
is_prefix-drop (c ∷ p) (d ∷ s) h = ground (arith, is_prefix-drop p s)

pub length-is_prefix : (p s : List ℕ) → is_prefix p s ≡ true → length p ≤ length s
unfolding is_prefix
length-is_prefix [] s h = omega arith
length-is_prefix (c ∷ p) [] h = cc
length-is_prefix (c ∷ p) (d ∷ s) h = ground (arith, length-is_prefix p s)

-- `c` does not stand in `s`.
abbrev pub Without : ℕ → List ℕ → Type 0
Without c = All (λ d. c ≢ d)

pub find_char-append :
    (c : ℕ) (s t : List ℕ) → Without c s → find_char c (s ++ c ∷ t) ≡ some (length s)
unfolding find_char
find_char-append c [] t h = rw (==_refl c)
find_char-append c (d ∷ s) t h = ground (arith, find_char-append c s t h.1)

pub find_char-Without : (c : ℕ) (s : List ℕ) → Without c s → find_char c s ≡ none
unfolding find_char
find_char-Without c [] h = refl
find_char-Without c (d ∷ s) h = ground (arith, find_char-Without c s h.1)

fgets_le : (n : ℕ) (file : List ℕ) → length (fgets n file).1 ≤ length file
unfolding fgets
fgets_le zero file = omega arith
fgets_le (suc n) [] = omega arith
fgets_le (suc n) (c ∷ file) = elim (Bool-cases (c == 10)) [
  | inl e ↦ rw e (omega arith)
  | inr e ↦ rw e (omega (arith, fgets_le n file))
]

pub fgets-append : (n : ℕ) (file : List ℕ) → (fgets n file).0 ++ (fgets n file).1 ≡ file
unfolding fgets
fgets-append zero file = refl
fgets-append (suc n) [] = refl
fgets-append (suc n) (c ∷ file) = elim (Bool-cases (c == 10)) [
  | inl e ↦ rw e refl
  | inr e ↦ rw e (ap (λ l. c ∷ l) (fgets-append n file))
]

-- A line is taken from a file that is not at its end.
pub fgets-lt : (n c : ℕ) (file : List ℕ) → length (fgets (suc n) (c ∷ file)).1 < length (c ∷ file)
unfolding fgets
fgets-lt n c file = elim (Bool-cases (c == 10)) [
  | inl e ↦ rw e (omega arith)
  | inr e ↦ rw e (omega (arith, fgets_le n file))
]

-- strchr finds nothing where the character does not stand.
pub Without-find_char : (c : ℕ) (s : List ℕ) → find_char c s ≡ none → Without c s
unfolding find_char
Without-find_char c [] h = tt
Without-find_char c (d ∷ s) h = elim (Bool-cases (c == d)) [
  | inl e ↦ absurd (found (sym (taken e) ∙ h))
  | inr e ↦ (
    λ same. differ (sym e ∙ (==_iff c d).1 same),
    Without-find_char c s (map_none (find_char c s) (sym (passed e) ∙ h)),
  )
]
  where
    found : (let o : Option ℕ = some 0 in o) ≡ none → ⊥
    found e = cc

    differ : false ≡ true → ⊥
    differ e = cc

    taken : (c == d) ≡ true → (if c == d then some 0 else Option.map suc (find_char c s)) ≡ some 0
    taken e = rw e refl

    passed :
        (c == d) ≡ false
        → (if c == d then some 0 else Option.map suc (find_char c s))
          ≡ Option.map suc (find_char c s)
    passed e = rw e refl

    map_none : (o : Option ℕ) → Option.map suc o ≡ none → o ≡ none
    map_none none e = refl
    map_none (some i) e = cc
