-- ===== src/Http/Routes.antt =====
-- The routing table of http/request_handler.c, the file server.conf that fills it, and the choice
-- of a rule for a request.
pub mod Choice
pub mod Loading
use caligo_engine.Base.{
  ℕ, zero, suc, ◌+◌, Bool, true, false, ◌&&◌, ◌||◌, Option, none, some, List, [], ◌∷◌, ◌++◌, length,
  take, drop, ltb, leb, ◌==◌, if◌then◌else◌,
}
use caligo_engine.Base.Text.{codes, str_eq, is_prefix, find_char, contains, c_str, fgets}

pub data RouteType : Type 0 where
  static cgi proxy : RouteType

pub record RouteRule : Type 0 where
  pub path : List ℕ
  pub kind : RouteType
  pub target : List ℕ
  pub needs_auth : Bool

-- MAX_ROUTES
abbrev pub max_routes : ℕ
max_routes = 32

-- isspace in the C locale
unfoldable pub is_space : ℕ → Bool
is_space c = c == 32 || leb 9 c && leb c 13

unfoldable pub skip_space : List ℕ → List ℕ
skip_space [] = []
skip_space (c ∷ s) = if is_space c then skip_space s else c ∷ s

-- What one %s reads at a character that is no space, and what is left.
unfoldable pub word : List ℕ → List ℕ × List ℕ
word [] = ([], [])
word (c ∷ s) = let (w, rest) = word s in if is_space c then ([], c ∷ s) else (c ∷ w, rest)

-- The words that sscanf(line, "%s ... %s") stores, at most `n` of them.
unfoldable pub scan : ℕ → List ℕ → List (List ℕ)
scan zero s = []
scan (suc n) s =
    let rest = scan n (word (skip_space s)).1 in
    elim (skip_space s) [ [] ↦ [] | c ∷ t ↦ (word (c ∷ t)).0 ∷ rest ]

unfoldable pub route_type : List ℕ → Option RouteType
route_type type_str =
    if str_eq type_str (codes "STATIC")
    then some static
    else if str_eq type_str (codes "CGI")
    then some cgi
    else if str_eq type_str (codes "PROXY")
    then some proxy
    else none

-- What becomes of the table at one line; `overrun` is a word that runs over its array.
pub data Loaded : Type 0 where
  more stop : List RouteRule → Loaded
  overrun : Loaded

-- A line of three words.
unfoldable pub add_route : List ℕ → List ℕ → List ℕ → List RouteRule → Loaded
add_route type_str path target rules =
    if ltb (length rules) max_routes
    then elim (route_type type_str) [
      | none ↦ more rules
      | some kind ↦ more (
          rules
          ++ (record {
            path = take 255 path;
            kind = kind;
            target = take 255 target;
            needs_auth = false;
          }
              ∷ []))
    ]
    else stop rules

-- The loop of an AUTH line.
unfoldable pub protect : List ℕ → List RouteRule → List RouteRule
protect path [] = []
protect path (r ∷ rules) =
    (if str_eq r.path path then record r { needs_auth = true } else r) ∷ protect path rules

unfoldable pub words_fit : ℕ → List ℕ → List ℕ → Bool
words_fit n type_str path = ltb (length type_str) 32 && ltb (length path) n

unfoldable pub load_words : List (List ℕ) → List RouteRule → Loaded
load_words (type_str ∷ path ∷ target ∷ _) rules =
    if words_fit 256 type_str path && ltb (length target) 256
    then add_route type_str path target rules
    else overrun
load_words (type_str ∷ path ∷ []) rules =
    if words_fit 256 type_str path
    then more (if str_eq type_str (codes "AUTH") then protect path rules else rules)
    else overrun
load_words (type_str ∷ []) rules = if ltb (length type_str) 32 then more rules else overrun
load_words [] rules = more rules

-- A comment and an empty line are passed over.
unfoldable pub load_line : List ℕ → List RouteRule → Loaded
load_line [] rules = more rules
load_line (c ∷ line) rules =
    if c == b'#' || (c == 10 || c == 13)
    then more rules
    else load_words (scan 3 (c_str (c ∷ line))) rules

-- The loop over the lines, `char line[512]`, a round for each.
unfoldable pub load_lines : ℕ → List ℕ → List RouteRule → Option (List RouteRule)
load_lines zero file rules = some rules
load_lines (suc fuel) [] rules = some rules
load_lines (suc fuel) (c ∷ file) rules = elim (load_line (fgets 511 (c ∷ file)).0 rules) [
  | more rules' ↦ load_lines fuel (fgets 511 (c ∷ file)).1 rules'
  | stop rules' ↦ some rules'
  | overrun ↦ none
]

-- load_config_file, on the contents of the file.
unfoldable pub load_config_file : List ℕ → Option (List RouteRule)
load_config_file file = load_lines (length file) file []

-- Whether a rule takes the place of the best one so far.
unfoldable pub is_better : List ℕ → RouteRule → Option RouteRule → Bool
is_better requested_path r none = is_prefix r.path requested_path
is_better requested_path r (some best) =
    is_prefix r.path requested_path && ltb (length best.path) (length r.path)

-- The loop of handle_work over the rules.
unfoldable pub best_rule : List ℕ → Option RouteRule → List RouteRule → Option RouteRule
best_rule requested_path best [] = best
best_rule requested_path best (r ∷ rules) =
    best_rule requested_path (if is_better requested_path r best then some r else best) rules
