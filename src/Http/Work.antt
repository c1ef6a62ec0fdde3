-- ===== src/Http/Work.antt =====
-- The headers of a request, the Basic authentication, and handle_work of http/request_handler.c up
-- to the call that serves the request.
pub mod Access
pub mod Longer
use caligo_engine.Base.{
  ℕ, zero, suc, ◌+◌, Bool, true, false, ◌&&◌, Option, none, some, List, [], ◌∷◌, ◌++◌, length, take,
  drop, ltb, leb, ◌==◌, if◌then◌else◌,
}
use caligo_engine.Base.Text.{
  codes, str_eq, is_prefix, find_char, find_sub, find_sub_ci, contains, c_str,
}
use caligo_engine.Http.Base64.{Decoded, null, out_of_bounds, bytes, base64_decode}
use caligo_engine.Http.Routes.{RouteType, static, cgi, proxy, RouteRule, best_rule}

abbrev pub crlf : List ℕ
crlf = 13 ∷ 10 ∷ []

unfoldable pub skip_blanks : List ℕ → List ℕ
skip_blanks [] = []
skip_blanks (c ∷ s) = if c == 32 then skip_blanks s else c ∷ s

-- The text up to the end of its line.
unfoldable pub line_of : List ℕ → Option (List ℕ)
line_of s = elim (find_sub crlf s) [ none ↦ none | some end ↦ some (take end s) ]

unfoldable pub find_header_value : List ℕ → List ℕ → Option (List ℕ)
find_header_value request header_name = elim (find_sub_ci header_name request) [
  | none ↦ none
  | some at ↦ elim (find_char b':' (drop at request)) [
    | none ↦ none
    | some colon ↦ line_of (skip_blanks (drop (colon + 1) (drop at request)))
  ]
]

unfoldable pub get_content_type : List ℕ → List ℕ
get_content_type path =
    if contains (codes ".html") path
    then codes "text/html"
    else if contains (codes ".css") path
    then codes "text/css"
    else if contains (codes ".js") path
    then codes "application/javascript"
    else if contains (codes ".mp3") path
    then codes "audio/mpeg"
    else if contains (codes ".jpg") path
    then codes "image/jpeg"
    else if contains (codes ".png") path
    then codes "image/png"
    else codes "application/octet-stream"

-- The comparison with the one account; `none` where the decoder leaves its table.
unfoldable pub is_admin : Decoded → Option Bool
is_admin null = some false
is_admin out_of_bounds = none
is_admin (bytes decoded) = some (str_eq (c_str decoded) (codes "admin:password123"))

unfoldable pub check_authentication : List ℕ → Option Bool
check_authentication request_buffer =
    elim (find_header_value request_buffer (codes "Authorization")) [
      | none ↦ some false
      | some auth_header ↦
          if is_prefix (codes "Basic ") auth_header
          then is_admin (base64_decode (drop 6 auth_header))
          else some false
    ]

-- The end of the path: a `?` before it cuts off the query.
unfoldable pub path_end : List ℕ → ℕ → ℕ
path_end path_start end = elim (find_char b'?' path_start) [
  | none ↦ end
  | some query ↦ if ltb query end then query else end
]

-- A path of one slash is the index page; a path with `..` is refused.
unfoldable pub checked_path : List ℕ → Option (List ℕ)
checked_path path =
    let requested_path = if str_eq path (codes "/") then codes "/index.html" else path in
    if contains (codes "..") requested_path then none else some requested_path

-- requested_path of handle_work, `none` where it sends 404 and closes.
unfoldable pub requested_path : List ℕ → Option (List ℕ)
requested_path request_buffer = elim (find_char 32 request_buffer) [
  | none ↦ none
  | some before ↦
      let path_start = drop (before + 1) request_buffer in
      elim (find_char 32 path_start) [
        | none ↦ none
        | some end ↦
            let path_len = path_end path_start end in
            if ltb 255 path_len then none else checked_path (take path_len path_start)
      ]
]

-- What handle_work does with the request. `rejected` and `unauthorized` close the socket, and
-- `not_found` keeps it; `undefined` is the read behind the table of the decoder.
pub data Action : Type 0 where
  rejected not_found unauthorized undefined : Action
  serve : RouteRule → List ℕ → Action

-- The rule is served where it needs no credentials or they are right.
unfoldable pub authorize : List ℕ → RouteRule → List ℕ → Action
authorize request_buffer r path =
    if r.needs_auth
    then elim (check_authentication request_buffer) [
      | none ↦ undefined
      | some true ↦ serve r path
      | some false ↦ unauthorized
    ]
    else serve r path

unfoldable pub handle_work : List ℕ → List RouteRule → Action
handle_work request_buffer rules = elim (requested_path request_buffer) [
  | none ↦ rejected
  | some path ↦ elim (best_rule path none rules) [
    | none ↦ not_found
    | some r ↦ authorize request_buffer r path
  ]
]

-- What an action sends before the socket is closed or taken again.
unfoldable pub status_sent : Action → List ℕ
status_sent rejected =
    codes "HTTP/1.1 404 Not Found" ++ (crlf ++ (codes "Content-Length: 0" ++ (crlf ++ crlf)))
status_sent not_found =
    codes "HTTP/1.1 404 Not Found" ++ (crlf ++ (codes "Content-Length: 0" ++ (crlf ++ crlf)))
status_sent unauthorized =
    codes "HTTP/1.1 401 Unauthorized"
    ++ (crlf
        ++ (codes "WWW-Authenticate: Basic realm="
            ++ (34 ∷ codes "My Protected Server"
                ++ (34 ∷ crlf ++ (codes "Content-Length: 0" ++ (crlf ++ crlf))))))
status_sent undefined = []
status_sent (serve r path) = []

-- The host and port of a PROXY rule's target, behind `://` where it has one.
unfoldable pub host_start : List ℕ → List ℕ
host_start target_url = elim (find_sub (codes "://") target_url) [
  | none ↦ target_url
  | some p ↦ drop (p + 3) target_url
]

-- target_ip in `char target_ip[64]`, and the text that atoi reads, `none` for port 80.
unfoldable pub upstream : List ℕ → List ℕ × Option (List ℕ)
upstream target_url = elim (find_char b':' (host_start target_url)) [
  | none ↦ (take 63 (host_start target_url), none)
  | some ip_len ↦ (
    if ltb ip_len 64 then take ip_len (host_start target_url) else codes "127.0.0.1",
    some (drop (ip_len + 1) (host_start target_url)),
  )
]
