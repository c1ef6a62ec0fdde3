-- ===== src/Cgi/Jansson.antt =====
-- The calls of the Jansson library that the CGI programs make, and what its manual says of them. A null
-- pointer is `none`.
use caligo_engine.Base.{ℕ, ◌≡◌, ◌≢◌, Bool, true, Option, some, List, [], ◌∷◌, ◌++◌}

pub record Jansson : Type 1 where
  pub Value : Type 0
  -- The contents of a file.
  pub File : Type 0
  -- json_object_get, json_string_value and json_is_true of a value that is there
  pub get : Value → List ℕ → Option Value
  pub string_value : Value → Option (List ℕ)
  pub is_true : Value → Bool
  pub is_object : Value → Bool
  pub object : Value
  -- json_string, which refuses a text that is not UTF-8
  pub string : List ℕ → Option Value
  -- json_object_set_new of a value that is there
  pub set : Value → List ℕ → Value → Value
  -- json_array and json_array_append of a value that is there
  pub array : Value
  pub append : Value → Value → Value
  -- json_integer of a number that is not negative
  pub integer : ℕ → Value
  -- json_is_array, and then the elements that json_array_foreach goes through
  pub elements : Value → Option (List Value)
  -- json_dumps, with the spaces of its indent
  pub dumps : ℕ → Value → List ℕ
  -- json_dumpf, json_loadf and json_loads
  pub dump : Value → File
  pub load_file : File → Option Value
  pub load_text : List ℕ → Option Value

-- Keys and texts are taken to be valid UTF-8; Jansson refuses others.
pub record IsJansson (j : Jansson) : Type 0 where
  pub get-set :
      (o v : j.Value) (key : List ℕ) → j.is_object o ≡ true → j.get (j.set o key v) key ≡ some v
  pub get-set_other :
      (o v : j.Value) (key other : List ℕ)
      → key ≢ other
      → j.get (j.set o key v) other ≡ j.get o other
  pub set-is_object : (o v : j.Value) (key : List ℕ) → j.is_object (j.set o key v) ≡ j.is_object o
  pub object-is_object : j.is_object j.object ≡ true
  pub string_value-string :
      (s : List ℕ) (v : j.Value) → j.string s ≡ some v → j.string_value v ≡ some s
  -- The text of a value is UTF-8.
  pub string-string_value :
      (v : j.Value) (s : List ℕ) → j.string_value v ≡ some s → (w : j.Value) × (j.string s ≡ some w)
  pub elements-array : j.elements j.array ≡ some []
  pub elements-append :
      (a v : j.Value) (vs : List j.Value)
      → j.elements a ≡ some vs
      → j.elements (j.append a v) ≡ some (vs ++ v ∷ [])
  pub load-dump : (o : j.Value) → j.is_object o ≡ true → j.load_file (j.dump o) ≡ some o
