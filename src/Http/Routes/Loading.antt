-- ===== src/Http/Routes/Loading.antt =====
-- The table that load_config_file builds: its bounds, and what an AUTH line changes in it.
use caligo_engine.Base.{
  ℕ, zero, suc, ◌≤◌, ◌≡◌, refl, ap, subst, false, ◌&&◌, ◌||◌, Option, none, some, List, [], ◌∷◌,
  length, take, ltb, ◌==◌, arith, Option-cases, Bool-cases, inl, inr, All, All-snoc, length-append,
  length-take, ltb→lt,
}
use caligo_engine.Base.Text.{codes, str_eq, c_str, fgets}
use caligo_engine.Http.Routes.{
  RouteRule, max_routes, scan, route_type, Loaded, more, stop, overrun, add_route, protect,
  words_fit, load_words, load_line, load_lines, load_config_file,
}

-- A rule fits its arrays.
abbrev pub Fits : RouteRule → Type 0
Fits r = (length r.path ≤ 255) × (length r.target ≤ 255)

pub record IsTable (rules : List RouteRule) : Type 0 where
  pub bound : length rules ≤ max_routes
  pub fits : All Fits rules

abbrev Holds : Loaded → Type 0
Holds (more rules) = IsTable rules
Holds (stop rules) = IsTable rules
Holds overrun = Unit {0}

add_route-Holds :
    (type_str path target : List ℕ) (rules : List RouteRule)
    → IsTable rules
    → Holds (add_route type_str path target rules)
unfolding add_route
add_route-Holds type_str path target rules v = elim (Bool-cases (ltb (length rules) max_routes)) [
  | inr full ↦ rw (full, add_route) v
  | inl room ↦ elim (Option-cases (route_type type_str)) [
    | inl e ↦ rw (room, e, add_route) v
    | inr (kind, e) ↦
        let fewer = ltb→lt (length rules) max_routes room in
        rw (room, e, add_route)
          (record {
            bound = omega (
              arith,
              length-append rules (
                  record {
                    path = take 255 path;
                    kind = kind;
                    target = take 255 target;
                    needs_auth = false;
                  }
                  ∷ []),
            );
            fits =
                All-snoc Fits _
                  (omega (arith, length-take 255 path), omega (arith, length-take 255 target)) rules
                  v.fits;
          })
  ]
]

length-protect :
    (path : List ℕ) (rules : List RouteRule) → length (protect path rules) ≡ length rules
unfolding protect
length-protect path [] = refl
length-protect path (r ∷ rules) = ap suc (length-protect path rules)

protect-Fits :
    (path : List ℕ) (rules : List RouteRule) → All Fits rules → All Fits (protect path rules)
unfolding protect
protect-Fits path [] h = h
protect-Fits path (r ∷ rules) h = (
  elim (Bool-cases (str_eq r.path path)) [ inl e ↦ rw e h.0 | inr e ↦ rw e h.0 ],
  protect-Fits path rules h.1,
)

protect-IsTable :
    (path : List ℕ) (rules : List RouteRule) → IsTable rules → IsTable (protect path rules)
protect-IsTable path rules v = record {
  bound = omega (arith, length-protect path rules, v.bound);
  fits = protect-Fits path rules v.fits;
}

load_words-Holds :
    (words : List (List ℕ)) (rules : List RouteRule)
    → IsTable rules
    → Holds (load_words words rules)
unfolding load_words
load_words-Holds [] rules v = v
load_words-Holds (t ∷ []) rules v = elim (Bool-cases (ltb (length t) 32)) [
  | inl e ↦ rw e v
  | inr e ↦ rw e tt
]
load_words-Holds (t ∷ p ∷ []) rules v = elim (Bool-cases (words_fit 256 t p)) [
  | inr e ↦ rw e tt
  | inl e ↦ elim (Bool-cases (str_eq t (codes "AUTH"))) [
    | inl a ↦ rw (e, a) (protect-IsTable p rules v)
    | inr a ↦ rw (e, a) v
  ]
]
load_words-Holds (t ∷ p ∷ g ∷ rest) rules v =
    elim (Bool-cases (words_fit 256 t p && ltb (length g) 256)) [
      | inl e ↦ rw e (add_route-Holds t p g rules v)
      | inr e ↦ rw e tt
    ]

load_line-Holds :
    (line : List ℕ) (rules : List RouteRule) → IsTable rules → Holds (load_line line rules)
unfolding load_line
load_line-Holds [] rules v = v
load_line-Holds (c ∷ line) rules v = elim (Bool-cases (c == b'#' || (c == 10 || c == 13))) [
  | inl e ↦ rw e v
  | inr e ↦ rw e (load_words-Holds (scan 3 (c_str (c ∷ line))) rules v)
]

abbrev HoldsIf : Option (List RouteRule) → Type 0
HoldsIf none = Unit {0}
HoldsIf (some rules) = IsTable rules

load_lines-HoldsIf :
    (fuel : ℕ) (file : List ℕ) (rules : List RouteRule)
    → IsTable rules
    → HoldsIf (load_lines fuel file rules)
unfolding load_lines
load_lines-HoldsIf zero file rules v = v
load_lines-HoldsIf (suc fuel) [] rules v = v
load_lines-HoldsIf (suc fuel) (c ∷ file) rules v =
    next (λ rules' w. load_lines-HoldsIf fuel (fgets 511 (c ∷ file)).1 rules' w)
      (load_line (fgets 511 (c ∷ file)).0 rules) (load_line-Holds _ rules v)
  where
    next :
        ((rules' : List RouteRule)
          → IsTable rules'
          → HoldsIf (load_lines fuel (fgets 511 (c ∷ file)).1 rules'))
        → (l : Loaded) → Holds l
        → HoldsIf (elim l as (λ _. Option (List RouteRule)) [
          | more rules' ↦ load_lines fuel (fgets 511 (c ∷ file)).1 rules'
          | stop rules' ↦ some rules'
          | overrun ↦ none
        ])
    next after (more rules') w = after rules' w
    next after (stop rules') w = w
    next after overrun w = tt

-- A table that load_config_file builds has at most 32 rules, and each path and each target is at
-- most 255 characters.
pub load_config_file-IsTable :
    (file : List ℕ) (rules : List RouteRule) → load_config_file file ≡ some rules → IsTable rules
unfolding load_config_file
load_config_file-IsTable file rules e =
    subst HoldsIf e
      (load_lines-HoldsIf (length file) file [] (record { bound = omega arith; fits = tt }))
