-- ===== src/Examples/Tls.antt =====
-- Concrete requests for the workers of the HTTPS server.
use caligo_engine.Base.{
  ℕ, zero, suc, ◌≡◌, refl, true, false, none, some, List, [], ◌∷◌, ◌++◌, arith,
}
use caligo_engine.Base.Text.{
  codes, is_prefix, find_char, find_sub, find_sub_ci, to_lower, contains, str_eq, c_str,
  Without-find_char,
}
use caligo_engine.Http.Routes.{cgi, RouteRule}
use caligo_engine.Http.Work.{
  crlf, find_header_value, line_of, skip_blanks, requested_path, path_end, checked_path,
}
use caligo_engine.Https.Outbox.{Answer, took, again, asleep, Conn}
use caligo_engine.Https.Events.{
  Client, read_request, finished, kept, queued, Answers, received, closed, passed, is_waiting,
  on_readable, after_work,
}
use caligo_engine.Https.Requests.{Environment, Calls, choose, relay, handle_work}
use caligo_engine.Https.Requests.Again.{after_work_again}
use caligo_engine.Https.Requests.Output.{IsRelayed, relay-IsRelayed}
use caligo_engine.Https.Requests.Variables.{after_requests, after_requests-credentials}
use caligo_engine.Https.Requests.Watching.{goes_through, Leaves, handle_work-Leaves}

abbrev song_request : List ℕ
song_request = codes "GET /song.mp3 HTTP/1.1" ++ (crlf ++ crlf)

-- A part of the song has been sent.
abbrev half_sent : Client
half_sent = record {
  conn = record {
    ssl = true;
    wire = codes "HTTP";
    pending = codes "/1.1 200";
    file_stream = some (codes "la");
    is_cgi = false;
    watch = record { for_read = true; for_write = true; once = false };
  };
  state = read_request;
  ssl_want_write = false;
  buffer = song_request;
}

abbrev next_request : List ℕ
next_request = codes "ET /other HTTP/1.1" ++ (crlf ++ crlf)

abbrev answers : Answers
answers = record {
  registers = true;
  accept = finished;
  reads = received b'G' next_request ∷ [];
  read = closed;
  sent = passed;
}

song_path : requested_path song_request ≡ some (codes "/song.mp3")
unfolding requested_path path_end checked_path find_char contains find_sub is_prefix str_eq
song_path = refl

after_work_again_example :
    (c c2 : Client) × (after_work true half_sent ≡ kept c)
    × (on_readable answers c ≡ queued c2)
    × (c2.buffer ≡ song_request ++ b'G' ∷ next_request)
    × (requested_path (c_str c2.buffer) ≡ some (codes "/song.mp3"))
after_work_again_example =
    after_work_again half_sent answers b'G' next_request [] (codes "/song.mp3")
      (unfold is_waiting in refl) refl refl (omega arith)
      (unfold contains find_sub is_prefix in refl)
      (Without-find_char 0 song_request (unfold find_char in refl)) song_path

abbrev with_token : List ℕ
with_token =
    codes "GET /cgi-bin/a HTTP/1.1" ++ (crlf ++ (codes "Authorization: Basic x" ++ (crlf ++ crlf)))

abbrev without_token : List ℕ
without_token = codes "GET /cgi-bin/a HTTP/1.1" ++ (crlf ++ crlf)

abbrev empty : Environment
empty = record { query_string = []; http_authorization = none }

after_requests-credentials_example :
    (after_requests ([] ++ with_token ∷ without_token ∷ []) empty).http_authorization
    ≡ some (codes "Basic x")
after_requests-credentials_example =
    after_requests-credentials [] (without_token ∷ []) with_token (codes "Basic x") empty
      (unfold find_header_value line_of skip_blanks find_sub_ci find_sub find_char to_lower
          is_prefix in
        refl)
      (unfold find_header_value find_sub_ci find_sub to_lower is_prefix in (refl, tt))

abbrev in_part : ℕ → Answer
in_part zero = took 3
in_part (suc k) = again

abbrev fresh : Conn
fresh = record half_sent.conn { wire = []; pending = []; file_stream = none }

relay-IsRelayed_example :
    IsRelayed in_part ([] ++ []) (codes "hello") (relay 6 in_part 0 (codes "hello") fresh)
relay-IsRelayed_example = relay-IsRelayed 6 in_part 0 (codes "hello") fresh (omega arith)

abbrev program : RouteRule
program = record {
  path = codes "/cgi-bin";
  kind = cgi;
  target = codes "/cgi-bin";
  needs_auth = false;
}

abbrev calls : Calls
calls = record {
  answers = in_part;
  realpath = λ path. some path;
  fopen = λ path. none;
  is_executable = λ path. true;
  popen = λ path env. some (codes "hello");
  behind = [];
  upstream_socket = true;
  connects = true;
  sends = true;
  registers_upstream = true;
  registers = true;
}

handle_work-Leaves_example : Leaves (goes_through (choose (c_str without_token) (program ∷ []))) (
    handle_work calls
      (program ∷ [])
      empty
      (record half_sent { conn = record fresh { watch = asleep }; buffer = without_token }))
handle_work-Leaves_example =
    handle_work-Leaves calls (program ∷ []) empty
      (record half_sent { conn = record fresh { watch = asleep }; buffer = without_token }) refl
