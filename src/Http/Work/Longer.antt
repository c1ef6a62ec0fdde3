-- ===== src/Http/Work/Longer.antt =====
-- The path of a request that has more text behind it.
use caligo_engine.Base.{
  ℕ, suc, ◌+◌, ◌≤◌, ◌<◌, ◌≡◌, refl, sym, ap, ◌∙◌, Bool, true, false, Option, none, some, List, [],
  ◌∷◌, ◌++◌, ◌==◌, length, take, drop, ltb, if◌then◌else◌, arith, take-append_le, drop-append_le,
  Option-cases, inl, inr, le→ltb_false,
}
use mathlib.Core.Option
use caligo_engine.Base.Text.{find_char}
use caligo_engine.Http.Work.{path_end, checked_path, requested_path}

suc-some : (o : Option ℕ) (i : ℕ) → Option.map suc o ≡ some i → (j : ℕ) × (o ≡ some j) × (i ≡ suc j)
suc-some none i h = cc
suc-some (some j) i h = (j, refl, cc)

pub find_char-more :
    (c : ℕ) (s t : List ℕ) (i : ℕ)
    → find_char c s ≡ some i
    → (find_char c (s ++ t) ≡ some i) × (i < length s)
unfolding find_char
find_char-more c [] t i h = cc
find_char-more c (d ∷ s) t i h = by_case (find_char-more c s t) (c == d) h
  where
    by_case :
        ((j : ℕ) → find_char c s ≡ some j → (find_char c (s ++ t) ≡ some j) × (j < length s))
        → (b : Bool) → (if b then some 0 else Option.map suc (find_char c s)) ≡ some i
        → ((if b then some 0 else Option.map suc (find_char c (s ++ t))) ≡ some i)
          × (i < suc (length s))
    by_case rest true e = let z : 0 ≡ i = cc in (e, omega (arith, z))
    by_case rest false e =
        let (j, found, is) = suc-some (find_char c s) i e in
        let (more, inside) = rest j found in
        (ap (Option.map suc) more ∙ ap some (sym is), omega (arith, is, inside))

no_suc : (o : Option ℕ) → Option.map suc o ≡ none → o ≡ none
no_suc none e = refl
no_suc (some j) e = cc

find_char-later :
    (c : ℕ) (s t : List ℕ) (i : ℕ)
    → find_char c s ≡ none
    → find_char c (s ++ t) ≡ some i
    → length s ≤ i
unfolding find_char
find_char-later c [] t i h h' = omega arith
find_char-later c (d ∷ s) t i h h' = by_case (find_char-later c s t) (c == d) h h'
  where
    by_case :
        ((j : ℕ) → find_char c s ≡ none → find_char c (s ++ t) ≡ some j → length s ≤ j)
        → (b : Bool) → (if b then some 0 else Option.map suc (find_char c s)) ≡ none
        → (if b then some 0 else Option.map suc (find_char c (s ++ t))) ≡ some i
        → suc (length s) ≤ i
    by_case rest true e e' = absurd (clash e)
      where
        clash : (let o : Option ℕ = some 0 in o) ≡ none → ⊥
        clash e = cc
    by_case rest false e e' =
        let (j, found, is) = suc-some (find_char c (s ++ t)) i e' in
        omega (arith, is, rest j (no_suc (find_char c s) e) found)

path_end-more : (x t : List ℕ) (end : ℕ) → end ≤ length x → path_end (x ++ t) end ≡ path_end x end
unfolding path_end
path_end-more x t end h = elim (Option-cases (find_char b'?' x)) [
  | inr (q, e) ↦ rw (e, (find_char-more b'?' x t q e).0, path_end)
  | inl e ↦ elim (Option-cases (find_char b'?' (x ++ t))) [
    | inl e' ↦ rw (e, e', path_end)
    | inr (q, e') ↦
        let far = find_char-later b'?' x t q e e' in
        rw (e, e', path_end) (rw (le→ltb_false q end (omega (arith, far))) refl)
  ]
]

path_end_le : (x : List ℕ) (end : ℕ) → path_end x end ≤ end
unfolding path_end
path_end_le x end = elim (Option-cases (find_char b'?' x)) [
  | inl e ↦ rw (e, path_end) (omega arith)
  | inr (q, e) ↦ rw (e, path_end) (ground arith)
]

no_path : (path : List ℕ) → none ≡ some path → ⊥
no_path path e = cc

requested_path-no_space : (s : List ℕ) → find_char 32 s ≡ none → requested_path s ≡ none
unfolding requested_path
requested_path-no_space s e = rw (e, requested_path) refl

requested_path-one_space :
    (s : List ℕ) (before : ℕ)
    → find_char 32 s ≡ some before
    → find_char 32 (drop (before + 1) s) ≡ none
    → requested_path s ≡ none
unfolding requested_path
requested_path-one_space s before e e' = rw (e, e', requested_path) refl

requested_path-two_spaces :
    (s : List ℕ) (before end : ℕ)
    → find_char 32 s ≡ some before
    → find_char 32 (drop (before + 1) s) ≡ some end
    → let x = drop (before + 1) s in
      requested_path s
      ≡ (if ltb 255 (path_end x end) then none else checked_path (take (path_end x end) x))
unfolding requested_path
requested_path-two_spaces s before end e e' = rw (e, e', requested_path) refl

-- Text behind a request whose path is found changes nothing of the path.
pub requested_path-more :
    (s t path : List ℕ) → requested_path s ≡ some path → requested_path (s ++ t) ≡ some path
requested_path-more s t path h = elim (Option-cases (find_char 32 s)) [
  | inl e ↦ absurd (no_path path (sym (requested_path-no_space s e) ∙ h))
  | inr (before, e) ↦
      let (more, inside) = find_char-more 32 s t before e in
      let x = drop (before + 1) s in
      let longer = drop-append_le (before + 1) s t (omega (arith, inside)) in
      elim (Option-cases (find_char 32 x)) [
        | inl e' ↦ absurd (no_path path (sym (requested_path-one_space s before e e') ∙ h))
        | inr (end, e') ↦
            let (more', inside') = find_char-more 32 x t end e' in
            let same = path_end-more x t end (omega (arith, inside')) in
            let shorter = path_end_le x end in
            let text = take-append_le (path_end x end) x t (omega (arith, shorter, inside')) in
            requested_path-two_spaces (s ++ t) before end more (ap (find_char 32) longer ∙ more')
            ∙ (ap
                  (λ y.
                    if ltb 255 (path_end y end)
                    then none
                    else checked_path (take (path_end y end) y))
                  longer
                ∙ (ap (λ n. if ltb 255 n then none else checked_path (take n (x ++ t))) same
                    ∙ (ap (λ y. if ltb 255 (path_end x end) then none else checked_path y) text
                        ∙ (sym (requested_path-two_spaces s before end e e') ∙ h))))
      ]
]
