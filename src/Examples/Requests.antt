-- ===== src/Examples/Requests.antt =====
-- Concrete requests for the workers of the HTTP server.
use caligo_engine.Base.{
  ℕ, ◌+◌, ◌-◌, ◌≡◌, refl, subst, true, false, Option, none, some, List, [], ◌∷◌, ◌++◌, take, drop,
  ◌==◌, arith, length-take,
}
use mathlib.Core.Option.{some-injective}
use caligo_engine.Base.Decimal.{decimal, decimal_loop, read_decimal, digit_value}
use caligo_engine.Base.Text.{
  codes, concat, is_prefix, find_char, find_sub, find_sub_ci, to_lower, Without-find_char,
}
use caligo_engine.Http.Cgi.{
  to_int, fold_int, full_path, is_post, content_length, atoi, signed, environment, received, again,
  System, runs, handle_cgi_request,
}
use caligo_engine.Http.Cgi.Body.{said}
use caligo_engine.Http.Cgi.Credentials.{environment_query}
use caligo_engine.Http.Cgi.Runs.{handle_cgi_request-runs}
use caligo_engine.Http.Files.{pos, took}
use caligo_engine.Http.Routes.{proxy, RouteRule, is_space, skip_space}
use caligo_engine.Http.Serve.{ClientState, read_request, resolve_static, contained}
use caligo_engine.Http.Static.{serve_static_file, sent}
use caligo_engine.Http.Static.Whole.{range_header, serve_static_file-range}
use caligo_engine.Http.Work.{crlf, find_header_value, line_of, skip_blanks}
use caligo_engine.Http.Work
use caligo_engine.Http.Worker.{Calls, again, taken, handle_work}
use caligo_engine.Http.Worker.Ends.{IsApart, gets_stuck, Ends, handle_work-Ends}

-- A form of four bytes, of which two come with the header.
abbrev form : List ℕ
form =
    codes "POST /cgi-bin/echo HTTP/1.1"
    ++ (crlf ++ (codes "Content-Length: 4" ++ (crlf ++ (crlf ++ codes "ab"))))

-- The program writes what it reads behind an equals sign.
abbrev echo : System
echo = record {
  is_executable = λ name. true;
  pipes = true;
  forks = true;
  rounds = received (codes "c") ∷ again ∷ received (codes "de") ∷ [];
  program = λ name variables body. (b'=' ∷ take 1023 body) ∷ [];
  sends = λ k. took 1024;
}

form_length : content_length form ≡ pos 4
unfolding content_length is_post is_prefix find_sub_ci find_sub to_lower atoi to_int fold_int
    skip_space is_space signed read_decimal digit_value
form_length = refl

handle_cgi_request-runs_example :
    (let name = full_path (codes "/cgi-bin") (codes "/cgi-bin/echo") [] in
      let variables = environment form in
      let body = take 4 (drop 50 form ++ said echo.rounds) in
      handle_cgi_request echo form (codes "/cgi-bin") (codes "/cgi-bin/echo") []
      ≡ runs name variables body (concat (echo.program name variables body)))
handle_cgi_request-runs_example =
    handle_cgi_request-runs echo form (codes "/cgi-bin") (codes "/cgi-bin/echo") [] 46 4 refl refl
      refl (unfold is_post is_prefix in refl) form_length (unfold find_sub is_prefix in refl)
      (omega arith, (tt, (omega arith, tt))) (λ k. (1024, refl, omega arith))
      (λ name variables body. (((omega arith), omega (arith, length-take 1023 body)), tt))

environment_query_example :
    (let variables =
        environment (codes "GET /cgi-bin/a" ++ (b'?' ∷ (codes "x=1" ++ 32 ∷ codes "HTTP/1.1"))) in
      (variables.query_string ≡ codes "x=1") × (variables.http_authorization ≡ none))
environment_query_example =
    environment_query (codes "GET /cgi-bin/a") (codes "x=1") (codes "HTTP/1.1")
      (Without-find_char b'?' (codes "GET /cgi-bin/a") (unfold find_char in refl))
      (Without-find_char 32 (codes "x=1") (unfold find_char in refl))
      (Without-find_char 13 (codes "GET /cgi-bin/a" ++ (b'?' ∷ codes "x=1"))
        (unfold find_char in refl))

abbrev absolute : List ℕ → Option (List ℕ)
absolute path = some (codes "/srv/" ++ path)

abbrev page : List ℕ
page = codes "<html></html>"

abbrev range_request : List ℕ
range_request =
    codes "GET /a.html HTTP/1.1" ++ (crlf ++ (codes "Range: bytes=1-4" ++ (crlf ++ crlf)))

serve_static_file-range_example :
    serve_static_file
      (took 511)
      (λ k. took 4096)
      absolute
      (λ name. some page)
      range_request
      (codes "public_html")
      (codes "/a.html")
    ≡ sent
        (range_header (codes "/srv/public_html/a.html") 1 4 page ++ take (4 - 1 + 1) (drop 1 page))
serve_static_file-range_example =
    serve_static_file-range 511 (λ k. took 4096) absolute (λ name. some page) range_request
      (codes "public_html") (codes "/a.html") (codes "/srv/public_html/a.html") page 1 4
      (omega arith) (λ k. (4096, refl, omega arith))
      (unfold resolve_static contained is_prefix in refl) refl
      (unfold find_header_value line_of skip_blanks find_sub_ci find_sub find_char to_lower
          is_prefix decimal decimal_loop in
        refl)
      (omega arith) (omega arith) (omega arith)

abbrev radio : RouteRule
radio = record {
  path = codes "/radio";
  kind = proxy;
  target = codes "127.0.0.1:9001";
  needs_auth = false;
}

abbrev radio_request : List ℕ
radio_request = codes "GET /radio HTTP/1.1" ++ (crlf ++ crlf)

abbrev listener : ClientState
listener = record { fd = 5; bytes_read = 23; state = read_request; peer = none }

-- The upstream is linked, and then takes nothing within the second.
abbrev refused : Calls
refused = record {
  realpath = absolute;
  fopen = λ name. none;
  to_header = took 511;
  answers = λ k. took 4096;
  system = echo;
  behind = [];
  connection = record { upstream_socket = some 9; connects = true; registers = true };
  first = again;
  ready = false;
  second = taken 23;
  adds_client = true;
  adds_peer = true;
}

refused-IsApart : IsApart refused.connection listener
refused-IsApart u e = subst (λ k. (5 == k) ≡ false) (some-injective 9 u e) refl

handle_work-Ends_example :
    Ends
      (gets_stuck (Work.handle_work radio_request (radio ∷ [])) refused listener)
      5
      (handle_work refused (radio ∷ []) radio_request listener)
handle_work-Ends_example =
    handle_work-Ends refused (radio ∷ []) radio_request listener refused-IsApart
