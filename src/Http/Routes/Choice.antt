-- ===== src/Http/Routes/Choice.antt =====
-- The rule that handle_work chooses is the first of the longest that match.
use caligo_engine.Base.{
  ℕ, zero, suc, ◌≤◌, ◌<◌, ◌≡◌, refl, sym, subst, true, false, Option, none, some, List, [], ◌∷◌,
  length, get_elem?, arith, Bool-cases, inl, inr, ◌⊎◌, ltb→lt,
}
use caligo_engine.Base.Text.{is_prefix}
use caligo_engine.Http.Routes.{RouteRule, is_better, best_rule}

abbrev pub Matches : List ℕ → RouteRule → Type 0
Matches path r = is_prefix r.path path ≡ true

-- `r` stands at `i`, matches, is at least as long as every rule that matches, and longer than
-- those before it.
pub record IsFirstLongest (path : List ℕ) (rules : List RouteRule) (r : RouteRule) (i : ℕ)
    : Type 0 where
  pub at : get_elem? rules i ≡ some r
  pub match_path : Matches path r
  pub longest :
      (j : ℕ) (m : RouteRule)
      → get_elem? rules j ≡ some m
      → Matches path m
      → length m.path ≤ length r.path
  pub first :
      (j : ℕ) (m : RouteRule)
      → j < i
      → get_elem? rules j ≡ some m
      → Matches path m
      → length m.path < length r.path

abbrev Exceeds : Option RouteRule → RouteRule → Type 0
Exceeds none r = Unit {0}
Exceeds (some b) r = length b.path < length r.path

-- No rule that matches is longer than `r`.
abbrev Tops : List ℕ → List RouteRule → RouteRule → Type 0
Tops path rules r =
    (j : ℕ) (m : RouteRule)
    → get_elem? rules j ≡ some m
    → Matches path m
    → length m.path ≤ length r.path

is_better-true :
    (path : List ℕ) (r : RouteRule) (best : Option RouteRule)
    → is_better path r best ≡ true
    → Matches path r × Exceeds best r
unfolding is_better
is_better-true path r none h = (h, tt)
is_better-true path r (some b) h = ground (arith, ltb→lt (length b.path) (length r.path))

is_better-false :
    (path : List ℕ) (r m : RouteRule) (best : Option RouteRule)
    → is_better path m best ≡ false
    → Matches path m
    → Exceeds best r
    → length m.path < length r.path
unfolding is_better
is_better-false path r m none h e x = cc
is_better-false path r m (some b) h e x = ground arith

is_better-le :
    (path : List ℕ) (r m : RouteRule)
    → is_better path m (some r) ≡ false
    → Matches path m
    → length m.path ≤ length r.path
unfolding is_better
is_better-le path r m h e = ground arith

Exceeds-trans :
    (best : Option RouteRule) (a r : RouteRule)
    → Exceeds best a
    → length a.path < length r.path
    → Exceeds best r
Exceeds-trans none a r x h = tt
Exceeds-trans (some b) a r x h = omega arith

some-inj : (a b : RouteRule) → some a ≡ some b → a ≡ b
some-inj a b e = cc

-- What holds of the rules behind the first, and of the first, holds of all.
module _ (path : List ℕ) (r0 : RouteRule) (rules : List RouteRule) (r : RouteRule) where
  Tops-cons :
      (Matches path r0 → length r0.path ≤ length r.path)
      → Tops path rules r
      → Tops path (r0 ∷ rules) r
  Tops-cons h hs zero m e x =
      subst (λ a. Matches path a → length a.path ≤ length r.path) (some-inj r0 m e) h x
  Tops-cons h hs (suc j) m e x = hs j m e x

  IsFirstLongest-cons :
      (i : ℕ)
      → (Matches path r0 → length r0.path < length r.path)
      → IsFirstLongest path rules r i
      → IsFirstLongest path (r0 ∷ rules) r (suc i)
  IsFirstLongest-cons i h v = record {
    at = v.at;
    match_path = v.match_path;
    longest = Tops-cons (λ x. omega (arith, h x)) v.longest;
    first = λ j m lt e x. before j m lt e x;
  }
    where
      before :
          (j : ℕ) (m : RouteRule)
          → j < suc i
          → get_elem? (r0 ∷ rules) j ≡ some m
          → Matches path m
          → length m.path < length r.path
      before zero m lt e x =
          subst (λ a. Matches path a → length a.path < length r.path) (some-inj r0 m e) h x
      before (suc j) m lt e x = v.first j m (omega arith) e x

best_rule-search :
    (path : List ℕ) (best : Option RouteRule) (rules : List RouteRule) (r : RouteRule)
    → best_rule path best rules ≡ some r
    → ((best ≡ some r) × Tops path rules r)
      ⊎ ((i : ℕ) × IsFirstLongest path rules r i × Exceeds best r)
unfolding best_rule
best_rule-search path best [] r h = inl (h, λ j m e. absurd cc)
best_rule-search path best (r0 ∷ rules) r h = elim (Bool-cases (is_better path r0 best)) [
  | inl e ↦
      taken (is_better-true path r0 best e)
        (best_rule-search path (some r0) rules r (rw (e, best_rule) at h))
  | inr e ↦ passed e (best_rule-search path best rules r (rw (e, best_rule) at h))
]
  where
    taken :
        Matches path r0 × Exceeds best r0
        → ((some r0 ≡ some r) × Tops path rules r)
          ⊎ ((i : ℕ) × IsFirstLongest path rules r i × Exceeds (some r0) r)
        → ((best ≡ some r) × Tops path (r0 ∷ rules) r)
          ⊎ ((i : ℕ) × IsFirstLongest path (r0 ∷ rules) r i × Exceeds best r)
    taken b (inl (same, tops)) =
        let e = some-inj r0 r same in
        inr (
          0,
          record {
            at = same;
            match_path = subst (Matches path) e b.0;
            longest =
                Tops-cons path r0 rules r
                  (λ _. subst (λ a. length r0.path ≤ length a.path) e (omega arith)) tops;
            first = λ j m lt. absurd (omega arith);
          },
          subst (Exceeds best) e b.1,
        )
    taken b (inr (i, v, lt)) =
        inr
          (suc i, IsFirstLongest-cons path r0 rules r i (λ _. lt) v, Exceeds-trans best r0 r b.1 lt)

    passed :
        is_better path r0 best ≡ false
        → ((best ≡ some r) × Tops path rules r)
          ⊎ ((i : ℕ) × IsFirstLongest path rules r i × Exceeds best r)
        → ((best ≡ some r) × Tops path (r0 ∷ rules) r)
          ⊎ ((i : ℕ) × IsFirstLongest path (r0 ∷ rules) r i × Exceeds best r)
    passed e (inl (same, tops)) = inl (
      same,
      Tops-cons path r0 rules r
          (is_better-le path r r0 (subst (λ b. is_better path r0 b ≡ false) same e)) tops,
    )
    passed e (inr (i, v, x)) = inr (
      suc i,
      IsFirstLongest-cons path r0 rules r i (λ m. is_better-false path r r0 best e m x) v,
      x,
    )

-- A rule that best_rule chooses from a table stands in it and is a prefix of the path, is at least
-- as long as every rule that is a prefix of the path, and is longer than every such rule before it.
pub best_rule-IsFirstLongest :
    (path : List ℕ) (rules : List RouteRule) (r : RouteRule)
    → best_rule path none rules ≡ some r
    → (i : ℕ) × IsFirstLongest path rules r i
best_rule-IsFirstLongest path rules r h = elim (best_rule-search path none rules r h) [
  | inl (e, _) ↦ absurd cc
  | inr (i, v, _) ↦ (i, v)
]

best_rule-some :
    (path : List ℕ) (best : RouteRule) (rules : List RouteRule)
    → (r : RouteRule) × (best_rule path (some best) rules ≡ some r)
unfolding best_rule
best_rule-some path best [] = (best, refl)
best_rule-some path best (r0 ∷ rules) = elim (Bool-cases (is_better path r0 (some best))) [
  | inl e ↦ rw (e, best_rule) (best_rule-some path r0 rules)
  | inr e ↦ rw (e, best_rule) (best_rule-some path best rules)
]

-- Where a rule of the table is a prefix of the path, best_rule chooses one.
pub best_rule-total :
    (path : List ℕ) (rules : List RouteRule) (i : ℕ) (m : RouteRule)
    → get_elem? rules i ≡ some m
    → Matches path m
    → (r : RouteRule) × (best_rule path none rules ≡ some r)
unfolding best_rule is_better
best_rule-total path (r0 ∷ rules) zero m e x =
    rw ((subst (Matches path) (sym (some-inj r0 m e)) x), best_rule, is_better)
      (best_rule-some path r0 rules)
best_rule-total path (r0 ∷ rules) (suc i) m e x = elim (Bool-cases (is_prefix r0.path path)) [
  | inl y ↦ rw (y, best_rule, is_better) (best_rule-some path r0 rules)
  | inr n ↦ rw (n, best_rule, is_better) (best_rule-total path rules i m e x)
]
best_rule-total path [] i m e x = cc
