-- ===== src/Examples/Json.antt =====
-- A small value of JSON in place of Jansson's, with the laws of the interface.
use caligo_engine.Base.{
  ℕ, ◌≡◌, ◌≢◌, refl, sym, ap, ◌∙◌, Option-cases, Bool, true, false, Option, none, some, List, [],
  ◌∷◌, ◌++◌, if◌then◌else◌, Bool-cases, inl, inr,
}
use mathlib.Core.Option
use mathlib.Core.Option.{some-injective}
use caligo_engine.Base.Text.{codes, str_eq, str_eq_iff, str_eq_refl}
use caligo_engine.Cgi.Jansson.{Jansson, IsJansson}

-- An object is `empty` or an `entry` before another, an array `nil` or a `cell` before another.
pub data Json : Type 0 where
  text : List ℕ → Json
  flag : Bool → Json
  nil : Json
  cell : Json → Json → Json
  empty : Json
  entry : List ℕ → Json → Json → Json

unfoldable pub get_json : Json → List ℕ → Option Json
get_json (text s) key = none
get_json (flag b) key = none
get_json nil key = none
get_json (cell w rest) key = none
get_json empty key = none
get_json (entry k v rest) key = if str_eq k key then some v else get_json rest key

abbrev pub json_text : Json → Option (List ℕ)
json_text (text s) = some s
json_text (flag b) = none
json_text nil = none
json_text (cell w rest) = none
json_text empty = none
json_text (entry k v rest) = none

abbrev pub json_flag : Json → Bool
json_flag (flag b) = b
json_flag (text s) = false
json_flag nil = false
json_flag (cell w rest) = false
json_flag empty = false
json_flag (entry k v rest) = false

abbrev pub is_json_object : Json → Bool
is_json_object (text s) = false
is_json_object (flag b) = false
is_json_object nil = false
is_json_object (cell w rest) = false
is_json_object empty = true
is_json_object (entry k v rest) = true

abbrev pub set_json : Json → List ℕ → Json → Json
set_json (text s) key v = text s
set_json (flag b) key v = flag b
set_json nil key v = nil
set_json (cell w rest) key v = cell w rest
set_json empty key v = entry key v empty
set_json (entry k w rest) key v = entry key v (entry k w rest)

abbrev pub append_json : Json → Json → Json
append_json nil v = cell v nil
append_json (cell w rest) v = cell w (append_json rest v)
append_json (text s) v = text s
append_json (flag b) v = flag b
append_json empty v = empty
append_json (entry k w rest) v = entry k w rest

abbrev pub json_elements : Json → Option (List Json)
json_elements nil = some []
json_elements (cell w rest) = Option.map (λ vs. w ∷ vs) (json_elements rest)
json_elements (text s) = none
json_elements (flag b) = none
json_elements empty = none
json_elements (entry k v rest) = none

abbrev pub small : Jansson
small = record {
  Value = Json;
  File = Json;
  get = λ o key. get_json o key;
  string_value = json_text;
  is_true = json_flag;
  is_object = is_json_object;
  object = empty;
  string = λ s. some (text s);
  set = set_json;
  array = nil;
  append = append_json;
  integer = λ n. text (n ∷ []);
  elements = json_elements;
  dumps = λ n v. [];
  dump = λ o. o;
  load_file = λ file. some file;
  load_text = λ s. some (entry (codes "action") (text s) empty);
}

get-set :
    (o v : Json) (key : List ℕ) → is_json_object o ≡ true → get_json (set_json o key v) key ≡ some v
unfolding get_json
get-set (text s) v key h = absurd (let e : false ≡ true = h in cc)
get-set (flag b) v key h = absurd (let e : false ≡ true = h in cc)
get-set nil v key h = absurd (let e : false ≡ true = h in cc)
get-set (cell w rest) v key h = absurd (let e : false ≡ true = h in cc)
get-set empty v key h = rw (str_eq_refl key) refl
get-set (entry k w rest) v key h = rw (str_eq_refl key) refl

other_key : (key other : List ℕ) → key ≢ other → str_eq key other ≡ false
other_key key other apart = elim (Bool-cases (str_eq key other)) [
  | inl e ↦ absurd (apart ((str_eq_iff key other).0 e))
  | inr e ↦ e
]

get-set_other :
    (o v : Json) (key other : List ℕ)
    → key ≢ other
    → get_json (set_json o key v) other ≡ get_json o other
unfolding get_json
get-set_other (text s) v key other apart = refl
get-set_other (flag b) v key other apart = refl
get-set_other nil v key other apart = refl
get-set_other (cell w rest) v key other apart = refl
get-set_other empty v key other apart = rw (other_key key other apart) refl
get-set_other (entry k w rest) v key other apart = rw (other_key key other apart) refl

set-is_object : (o v : Json) (key : List ℕ) → is_json_object (set_json o key v) ≡ is_json_object o
set-is_object (text s) v key = refl
set-is_object (flag b) v key = refl
set-is_object nil v key = refl
set-is_object (cell w rest) v key = refl
set-is_object empty v key = refl
set-is_object (entry k w rest) v key = refl

string_value-string : (s : List ℕ) (v : Json) → some (text s) ≡ some v → json_text v ≡ some s
string_value-string s v e = sym (ap json_text (some-injective (text s) v e))

elements-append :
    (a v : Json) (vs : List Json)
    → json_elements a ≡ some vs
    → json_elements (append_json a v) ≡ some (vs ++ v ∷ [])
elements-append nil v vs h = ap (λ l. some (l ++ v ∷ [])) (some-injective [] vs h)
elements-append (cell w rest) v vs h = elim (Option-cases (json_elements rest)) [
  | inl e ↦ absurd (let c : none ≡ some vs = ap (Option.map (λ l. w ∷ l)) (sym e) ∙ h in cc)
  | inr (ws, e) ↦
      let is : w ∷ ws ≡ vs = some-injective _ _ (ap (Option.map (λ l. w ∷ l)) (sym e) ∙ h) in
      ap (Option.map (λ l. w ∷ l)) (elements-append rest v ws e) ∙ ap (λ l. some (l ++ v ∷ [])) is
]
elements-append (text s) v vs h = absurd (let c : none ≡ some vs = h in cc)
elements-append (flag b) v vs h = absurd (let c : none ≡ some vs = h in cc)
elements-append empty v vs h = absurd (let c : none ≡ some vs = h in cc)
elements-append (entry k w rest) v vs h = absurd (let c : none ≡ some vs = h in cc)

pub small-IsJansson : IsJansson small
small-IsJansson = record {
  get-set = get-set;
  get-set_other = get-set_other;
  set-is_object = set-is_object;
  object-is_object = refl;
  string_value-string = string_value-string;
  string-string_value = λ v s h. (text s, refl);
  elements-array = refl;
  elements-append = elements-append;
  load-dump = λ o h. refl;
}
