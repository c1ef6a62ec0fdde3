-- ===== src/Https/Requests/Variables.antt =====
-- What a CGI program finds in the server's environment.
use caligo_engine.Base.{ℕ, ◌≡◌, refl, ap, ◌∙◌, Option, none, some, List, [], ◌∷◌, ◌++◌, All}
use caligo_engine.Base.Text.{codes}
use caligo_engine.Http.Cgi.{cut_query}
use caligo_engine.Https.Requests.{
  find_header_value, Environment, set_authorization, set_environment,
}

-- The environment after a run of requests for programs.
unfoldable pub after_requests : List (List ℕ) → Environment → Environment
after_requests [] env = env
after_requests (request ∷ requests) env = after_requests requests (set_environment request env)

abbrev pub credentials : List ℕ → Option (List ℕ)
credentials request = find_header_value request (codes "Authorization")

abbrev pub IsAnonymous : List ℕ → Type 0
IsAnonymous request = credentials request ≡ none

after_requests-stay :
    (requests : List (List ℕ)) (env : Environment)
    → All IsAnonymous requests
    → (after_requests requests env).http_authorization ≡ env.http_authorization
unfolding after_requests set_environment set_authorization
after_requests-stay [] env h = refl
after_requests-stay (request ∷ requests) env h =
    after_requests-stay requests _ h.1
    ∙ ap
        (λ o.
          (set_authorization o
            (record env { query_string = (cut_query request).0 })).http_authorization)
        h.0

-- Programs started for requests without credentials, however many and whoever sends them, find the
-- credentials of the last request for a program that had some.
pub after_requests-credentials :
    (before others : List (List ℕ)) (request auth_header : List ℕ) (env : Environment)
    → credentials request ≡ some auth_header
    → All IsAnonymous others
    → (after_requests (before ++ request ∷ others) env).http_authorization ≡ some auth_header
unfolding after_requests set_environment set_authorization
after_requests-credentials [] others request auth_header env e h =
    after_requests-stay others _ h
    ∙ ap
        (λ o.
          (set_authorization o
            (record env { query_string = (cut_query request).0 })).http_authorization)
        e
after_requests-credentials (first ∷ before) others request auth_header env e h =
    after_requests-credentials before others request auth_header _ e h
