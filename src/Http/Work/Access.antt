-- ===== src/Http/Work/Access.antt =====
-- What handle_work lets through: the path that it serves, the rule it serves it under, and the
-- credentials.
use caligo_engine.Base.{
  ℕ, zero, suc, ◌+◌, ◌≤◌, ◌≡◌, refl, subst, Bool, true, false, Option, none, some, List, [], ◌∷◌,
  length, take, drop, ltb, if◌then◌else◌, arith, Option-cases, Bool-cases, inl, inr, ltb_false→le,
}
use caligo_engine.Base.Text.{codes, str_eq, is_prefix, find_char, find_sub, contains}
use caligo_engine.Http.Routes.{RouteRule, best_rule}
use caligo_engine.Http.Routes.Choice.{IsFirstLongest, best_rule-IsFirstLongest}
use caligo_engine.Http.Work.{
  check_authentication, path_end, checked_path, requested_path, Action, unauthorized, undefined,
  serve, authorize, handle_work,
}

-- What a request that is served has shown.
pub record IsServed (request : List ℕ) (rules : List RouteRule) (r : RouteRule) (path : List ℕ)
    : Type 0 where
  pub no_parent : contains (codes "..") path ≡ false
  pub fits : length path ≤ 255
  pub index : ℕ
  pub rule : IsFirstLongest path rules r index
  pub credentials : r.needs_auth ≡ true → check_authentication request ≡ some true

-- A requested path, where there is one, is short and has no `..`.
abbrev IsChecked : Option (List ℕ) → Type 0
IsChecked none = Unit {0}
IsChecked (some path) = (contains (codes "..") path ≡ false) × (length path ≤ 255)

abbrev Grants : List ℕ → List RouteRule → Action → Type 0
Grants request rules (serve r path) = IsServed request rules r path
Grants request rules _ = Unit {0}

length-take-le : (n : ℕ) (s : List ℕ) → length (take n s) ≤ n
length-take-le zero s = omega arith
length-take-le (suc n) [] = omega arith
length-take-le (suc n) (c ∷ s) = omega (arith, length-take-le n s)

checked_path-IsChecked : (path : List ℕ) → length path ≤ 255 → IsChecked (checked_path path)
unfolding checked_path
checked_path-IsChecked path h = elim (Bool-cases (str_eq path (codes "/"))) [
  | inl e ↦ rw (e, checked_path) (unfold contains find_sub is_prefix in (refl, omega arith))
  | inr e ↦ elim (Bool-cases (contains (codes "..") path)) [
    | inl dots ↦ rw (e, dots, checked_path) tt
    | inr none_there ↦ rw (e, none_there, checked_path) (none_there, h)
  ]
]

requested_path-IsChecked : (request : List ℕ) → IsChecked (requested_path request)
unfolding requested_path
requested_path-IsChecked request = elim (Option-cases (find_char 32 request)) [
  | inl x ↦ rw (x, requested_path) tt
  | inr (before, x) ↦ elim (Option-cases (find_char 32 (drop (before + 1) request))) [
    | inl y ↦ rw (x, y, requested_path) tt
    | inr (end, y) ↦
        let n = path_end (drop (before + 1) request) end in
        elim (Bool-cases (ltb 255 n)) [
          | inl long ↦ rw (x, y, long, requested_path) tt
          | inr short ↦
              rw (x, y, short, requested_path)
                (checked_path-IsChecked (take n (drop (before + 1) request)) (
                  omega (
                    arith,
                    length-take-le n (drop (before + 1) request),
                    ltb_false→le 255 n short,
                  )))
        ]
  ]
]

authorize-Grants :
    (request : List ℕ) (rules : List RouteRule) (r : RouteRule) (path : List ℕ) (i : ℕ)
    → IsChecked (some path)
    → IsFirstLongest path rules r i
    → Grants request rules (authorize request r path)
unfolding authorize
authorize-Grants request rules r path i safe first =
    split r.needs_auth (check_authentication request) (λ e. e) (λ e. e)
  where
    split :
        (needed : Bool) (answer : Option Bool)
        → (r.needs_auth ≡ true → needed ≡ true)
        → (answer ≡ some true → check_authentication request ≡ some true)
        → Grants request rules (
            if needed
            then elim answer as (λ _. Action) [
              | none ↦ undefined
              | some true ↦ serve r path
              | some false ↦ unauthorized
            ]
            else serve r path)
    split true none needs right = tt
    split true (some false) needs right = tt
    split true (some true) needs right = record {
      no_parent = safe.0;
      fits = safe.1;
      index = i;
      rule = first;
      credentials = λ _. right refl;
    }
    split false answer needs right = record {
      no_parent = safe.0;
      fits = safe.1;
      index = i;
      rule = first;
      credentials = λ n. let e = needs n in cc;
    }

handle_work-Grants :
    (request : List ℕ) (rules : List RouteRule) → Grants request rules (handle_work request rules)
unfolding handle_work
handle_work-Grants request rules = elim (Option-cases (requested_path request)) [
  | inl e ↦ rw (e, handle_work) tt
  | inr (path, e) ↦ elim (Option-cases (best_rule path none rules)) [
    | inl e' ↦ rw (e, e', handle_work) tt
    | inr (r, e') ↦
        let (i, first) = best_rule-IsFirstLongest path rules r e' in
        rw (e, e', handle_work)
          (authorize-Grants request rules r path i
            (subst IsChecked e (requested_path-IsChecked request)) first)
  ]
]

-- A request that handle_work serves, under a rule and with a path, has a path of at most 255
-- characters without `..`, the rule is the first of the longest that match it, and where the rule
-- needs credentials they are right.
pub handle_work-IsServed :
    (request : List ℕ) (rules : List RouteRule) (r : RouteRule) (path : List ℕ)
    → handle_work request rules ≡ serve r path
    → IsServed request rules r path
handle_work-IsServed request rules r path e =
    subst (Grants request rules) e (handle_work-Grants request rules)
