-- ===== src/Cgi/RequestSong.antt =====
-- cgi_bin/request_song.c: the query of a form, decoded and made fit for a command line.
pub mod Query
pub mod Relay
use caligo_engine.Base.{
  ℕ, zero, suc, ◌+◌, ◌-◌, ◌*◌, ◌%◌, Bool, true, false, ◌||◌, ◌&&◌, Option, none, some, List, [],
  ◌∷◌, ◌++◌, map, length, take, drop, ltb, leb, ◌==◌, if◌then◌else◌, is_some,
}
use mathlib.Core.Option
use caligo_engine.Base.Hex.{hex_value}
use caligo_engine.Base.Text.{codes, find_char, find_sub, c_str}

-- White space and a plus sign, which strtoul passes over.
unfoldable pub is_skipped : ℕ → Bool
is_skipped c = (c == 32 || leb 9 c && leb c 13) || c == b'+'

unfoldable pub hex_or_zero : ℕ → ℕ
hex_or_zero c = elim (hex_value c) [ none ↦ 0 | some v ↦ v ]

-- (char)strtoul(code, &end, 16) of two characters.
unfoldable pub code_value : ℕ → ℕ → ℕ
code_value a b = elim (hex_value a) [
  | some v ↦ elim (hex_value b) [ none ↦ v | some w ↦ v * 16 + w ]
  | none ↦
      if is_skipped a then hex_or_zero b else if a == b'-' then (256 - hex_or_zero b) % 256 else 0
]

abbrev pub plain_char : ℕ → ℕ
plain_char c = if c == b'+' then 32 else c

-- url_decode; `none` where a `%` is followed by fewer than two characters, and the loop runs past the
-- end of the text.
unfoldable pub url_decode : List ℕ → Option (List ℕ)
url_decode [] = some []
url_decode (c ∷ []) = if c == b'%' then none else some (plain_char c ∷ [])
url_decode (c ∷ a ∷ []) =
    let rest = Option.map (λ t. plain_char c ∷ t) (url_decode (a ∷ [])) in
    if c == b'%' then none else rest
url_decode (c ∷ a ∷ b ∷ s) =
    let coded = Option.map (λ t. code_value a b ∷ t) (url_decode s) in
    let rest = Option.map (λ t. plain_char c ∷ t) (url_decode (a ∷ b ∷ s)) in
    if c == b'%' then coded else rest

abbrev pub unsafe_chars : List ℕ
unsafe_chars = b';' ∷ 32 ∷ b'|' ∷ b'&' ∷ b'`' ∷ b'$' ∷ 34 ∷ 92 ∷ 39 ∷ b'<' ∷ b'>' ∷ []

unfoldable pub is_unsafe : ℕ → Bool
is_unsafe c = is_some (find_char c unsafe_chars)

-- The loop that puts `_` for each character that the shell might read.
unfoldable pub mask_query : List ℕ → List ℕ
mask_query [] = []
mask_query (c ∷ s) = (if is_unsafe c then b'_' else c) ∷ mask_query s

-- The argument of the command, between its quotes.
unfoldable pub safe_query : List ℕ → Option (List ℕ)
safe_query query = Option.map (λ t. mask_query (c_str t)) (url_decode query)

-- The text in double quotes.
unfoldable pub quote : List ℕ → List ℕ
quote s = 34 ∷ (s ++ (34 ∷ []))

-- The command line, in `char command[4096]`.
unfoldable pub command : List ℕ → List ℕ → List ℕ
command cwd query = take 4095 (
    codes "export PATH="
    ++ (quote (cwd ++ codes "/venv/bin:$PATH")
        ++ (codes "; "
            ++ (quote (cwd ++ codes "/venv/bin/python3")
                ++ (codes " "
                    ++ (quote (cwd ++ codes "/cgi_bin/downloader.py")
                        ++ (codes " " ++ (quote query ++ codes " 2>&1"))))))))

-- What main makes of a body of 2047 bytes at most: the command, an error message, or a run past the
-- end of the query.
pub data Request : Type 0 where
  no_query overrun : Request
  launches : List ℕ → Request

unfoldable pub launch : List ℕ → Option (List ℕ) → Request
launch cwd none = overrun
launch cwd (some query) = launches (command cwd query)

unfoldable pub handle_body : List ℕ → List ℕ → Request
handle_body cwd buffer = elim (find_sub (codes "query=") (c_str buffer)) [
  | none ↦ no_query
  | some start ↦ launch cwd (safe_query (drop (start + 6) (c_str buffer)))
]
