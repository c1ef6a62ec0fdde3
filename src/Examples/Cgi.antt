-- ===== src/Examples/Cgi.antt =====
-- Concrete inputs for the request of a song.
use caligo_engine.Base.{◌≡◌, refl, none, some, ◌∷◌, ◌++◌}
use caligo_engine.Base.Text.{codes, find_char, c_str}
use caligo_engine.Base.Hex.{hex_value}
use caligo_engine.Cgi.RequestSong.{url_decode, code_value, mask_query, is_unsafe, safe_query}
use caligo_engine.Cgi.RequestSong.Query.{read_quoted, safe_query-read_quoted}

safe_query-read_quoted_example :
    read_quoted (codes "a__b" ++ 34 ∷ codes " 2>&1") ≡ some (codes "a__b", codes " 2>&1")
safe_query-read_quoted_example =
    safe_query-read_quoted (codes "a%22%3Bb") (codes " 2>&1") {s = codes "a__b"} (
      unfold safe_query url_decode code_value hex_value c_str mask_query is_unsafe find_char in
      refl)

-- A percent sign at the end of the query.
trailing_percent : safe_query (codes "ab%4") ≡ none
unfolding safe_query url_decode
trailing_percent = refl
