-- ===== src/Xmppd/Xml.antt =====
-- The text scanning of xmppd.c. A destination array is given with the string that it held before
-- the call, since a function that finds nothing leaves it alone.
pub mod Bounds
use caligo_engine.Base.{
  ℕ, suc, ◌+◌, Bool, ◌||◌, Option, none, some, List, [], ◌∷◌, ◌++◌, length, take, drop, leb, ◌==◌,
  if◌then◌else◌,
}
use mathlib.Core.Option
use caligo_engine.Base.Text.{codes, find_sub}

-- strpbrk(s, "'\"")
unfoldable pub find_quote : List ℕ → Option ℕ
find_quote [] = none
find_quote (c ∷ s) = if c == 39 || c == 34 then some 0 else Option.map suc (find_quote s)

-- What stands from the opening quote to the next quote of either kind, cut to 63 characters.
unfoldable pub quoted : List ℕ → List ℕ → List ℕ
quoted start dest = elim (find_quote start) [
  | none ↦ dest
  | some len ↦ take (if leb 63 len then 63 else len) start
]

-- The offset behind `attr='`, or else behind `attr="`; attribute names are at most two characters.
unfoldable pub attribute_start : List ℕ → List ℕ → Option ℕ
attribute_start xml attr = elim (find_sub (attr ++ (b'=' ∷ 39 ∷ [])) xml) [
  | some i ↦ some (i + (length attr + 2))
  | none ↦ elim (find_sub (attr ++ (b'=' ∷ 34 ∷ [])) xml) [
    | some i ↦ some (i + (length attr + 2))
    | none ↦ none
  ]
]

unfoldable pub extract_attribute : List ℕ → List ℕ → List ℕ → List ℕ
extract_attribute xml attr dest = elim (attribute_start xml attr) [
  | none ↦ dest
  | some i ↦ quoted (drop i xml) dest
]

unfoldable pub extract_body : List ℕ → List ℕ → List ℕ
extract_body xml dest = elim (find_sub (codes "<body>") xml) [
  | none ↦ dest
  | some i ↦
      let start = drop (i + 6) xml in
      elim (find_sub (codes "</body>") start) [ none ↦ dest | some len ↦ take len start ]
]

-- The array is not set before the call: `dest` is what the stack holds.
unfoldable pub extract_id : List ℕ → List ℕ → List ℕ
extract_id xml dest = elim (extract_attribute xml (codes "id") dest) [
  | [] ↦ codes "unknown"
  | c ∷ id ↦ c ∷ id
]
