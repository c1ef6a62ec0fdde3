-- ===== src/Cgi/ChatRooms/Listing.antt =====
-- The rooms that are listed against those that the XMPP daemon loads.
use caligo_engine.Base.{
  ℕ, zero, suc, ◌≤◌, ◌<◌, ◌≡◌, ◌≢◌, refl, sym, ap, ◌∙◌, Bool, true, false, Option, none, some, List,
  [], ◌∷◌, ◌++◌, All, map, length, ltb, if◌then◌else◌, append-nil, append_assoc, take_all, lt→ltb,
  Bool-cases, inl, inr,
}
use caligo_engine.Base.Text.{codes, fgets, str_eq, str_eq_iff}
use caligo_engine.Cgi.Accounts.{get_string, set_new}
use caligo_engine.Cgi.ChatRooms.{room_object, add_room, read_rooms, root_array}
use caligo_engine.Cgi.Jansson.{Jansson, IsJansson}
use caligo_engine.Xmppd.Rooms.{
  max_rooms, max_name, is_known, add_room_to_memory, strip_eol, add_line, load_loop,
  load_persistent_rooms,
}

unfoldable pub keep_line : List ℕ → List (List ℕ) → List (List ℕ)
keep_line line rest = if ltb 0 (length line) then line ∷ rest else rest

-- The lines of the file that are not empty, without their ends.
unfoldable pub names : ℕ → List ℕ → List (List ℕ)
names zero file = []
names (suc fuel) [] = []
names (suc fuel) (c ∷ file) =
    keep_line (strip_eol (fgets 127 (c ∷ file)).0) (names fuel (fgets 127 (c ∷ file)).1)

-- Names for which the daemon's table has room behind `rooms`: each is new, and of 63 characters at most.
abbrev pub Fits : List (List ℕ) → List (List ℕ) → Type 0
Fits rooms [] = Unit
Fits rooms (name ∷ rest) =
    (is_known name rooms ≡ false)
    × (length name ≤ max_name)
    × (length rooms < max_rooms)
    × Fits (rooms ++ name ∷ []) rest

add_line-new :
    (name : List ℕ) (rooms : List (List ℕ))
    → is_known name rooms ≡ false
    → length name ≤ max_name
    → length rooms < max_rooms
    → (add_room_to_memory name rooms).0 ≡ rooms ++ name ∷ []
unfolding add_room_to_memory
add_line-new name rooms new short room =
    rw (new, lt→ltb (length rooms) max_rooms room) (rw (take_all max_name name short) refl)

Fits-keep_line :
    (line : List ℕ) (rest rooms : List (List ℕ)) (load : List (List ℕ) → List (List ℕ))
    → ((rooms : List (List ℕ)) → Fits rooms rest → load rooms ≡ rooms ++ rest)
    → Fits rooms (keep_line line rest)
    → load (add_line line rooms) ≡ rooms ++ keep_line line rest
unfolding keep_line add_line
Fits-keep_line line rest rooms load next = by_case (ltb 0 (length line))
  where
    by_case :
        (b : Bool)
        → Fits rooms (if b then line ∷ rest else rest)
        → load (if b then (add_room_to_memory line rooms).0 else rooms)
          ≡ rooms ++ (if b then line ∷ rest else rest)
    by_case false h = next rooms h
    by_case true (new, short, room, h) =
        ap load (add_line-new line rooms new short room)
        ∙ (next (rooms ++ line ∷ []) h ∙ append_assoc rooms (line ∷ []) rest)

load_loop-names :
    (fuel : ℕ) (file : List ℕ) (rooms : List (List ℕ))
    → Fits rooms (names fuel file)
    → load_loop fuel file rooms ≡ rooms ++ names fuel file
unfolding load_loop names
load_loop-names zero file rooms h = sym (append-nil rooms)
load_loop-names (suc fuel) [] rooms h = sym (append-nil rooms)
load_loop-names (suc fuel) (c ∷ file) rooms h =
    let (line, rest) = fgets 127 (c ∷ file) in
    Fits-keep_line (strip_eol line) (names fuel rest) rooms (load_loop fuel rest)
      (load_loop-names fuel rest) h

count_name : codes "count" ≢ codes "name"
unfolding str_eq
count_name e = let t = (str_eq_iff (codes "count") (codes "name")).1 e in absurd (differ t)
  where
    differ : str_eq (codes "count") (codes "name") ≢ true
    differ t = let h : false ≡ true = t in cc

module _ (j : Jansson) (laws : IsJansson j) where
  -- The names in an array of objects.
  abbrev pub listed : Option (List j.Value) → List (Option (List ℕ))
  listed none = []
  listed (some rooms) = map (λ room. get_string j room (codes "name")) rooms

  add_room-elements :
      (line : List ℕ) (rest : List (List ℕ)) (root : j.Value) (rooms : List j.Value)
      → j.elements root ≡ some rooms
      → (read : j.Value → j.Value)
      → ((root : j.Value) (rooms : List j.Value)
          → j.elements root ≡ some rooms
          → j.elements (read root) ≡ some (rooms ++ map (room_object j) rest))
      → j.elements (read (add_room j line root))
        ≡ some (rooms ++ map (room_object j) (keep_line line rest))
  unfolding add_room keep_line
  add_room-elements line rest root rooms h read next = elim (Bool-cases (ltb 0 (length line))) [
    | inr e ↦ rw e (next root rooms h)
    | inl e ↦ rw e (
        next (j.append root (room_object j line)) _
          (laws.elements-append root (room_object j line) rooms h)
        ∙ ap some (append_assoc rooms (room_object j line ∷ []) (map (room_object j) rest)))
  ]

  read_rooms-elements :
      (fuel : ℕ) (file : List ℕ) (root : j.Value) (rooms : List j.Value)
      → j.elements root ≡ some rooms
      → j.elements (read_rooms j fuel file root)
        ≡ some (rooms ++ map (room_object j) (names fuel file))
  unfolding read_rooms names
  read_rooms-elements zero file root rooms h = h ∙ ap some (sym (append-nil rooms))
  read_rooms-elements (suc fuel) [] root rooms h = h ∙ ap some (sym (append-nil rooms))
  read_rooms-elements (suc fuel) (c ∷ file) root rooms h =
      let (line, rest) = fgets 127 (c ∷ file) in
      add_room-elements (strip_eol line) (names fuel rest) root rooms h (read_rooms j fuel rest)
        (read_rooms-elements fuel rest)

  room_object-name :
      (name : List ℕ) (v : j.Value)
      → j.string name ≡ some v
      → get_string j (room_object j name) (codes "name") ≡ some name
  unfolding get_string room_object set_new
  room_object-name name v e =
      let named = j.set j.object (codes "name") v in
      let set : room_object j name ≡ j.set named (codes "count") (j.integer 0) =
        ap (λ o. j.set (set_new j j.object (codes "name") o) (codes "count") (j.integer 0)) e in
      let found : j.get (room_object j name) (codes "name") ≡ some v =
        ap (λ o. j.get o (codes "name")) set
        ∙ (laws.get-set_other named (j.integer 0) (codes "count") (codes "name") count_name
            ∙ laws.get-set j.object v (codes "name") laws.object-is_object) in
      ap
        (λ (o : Option j.Value). elim o as (λ _. Option (List ℕ)) [
          | none ↦ none
          | some v ↦ j.string_value v
        ])
        found
      ∙ laws.string_value-string name v e

  listed-names :
      (rooms : List (List ℕ))
      → All (λ name. (v : j.Value) × (j.string name ≡ some v)) rooms
      → listed (some (map (room_object j) rooms)) ≡ map some rooms
  listed-names [] h = refl
  listed-names (name ∷ rooms) h =
      λ i. room_object-name name h.0.0 h.0.1 i ∷ listed-names rooms h.1 i

  -- Where every name of the file can be written in JSON, is new in it, and has 63 characters at most, and
  -- there are no more than 64, the program lists just the rooms that the daemon knows after its start,
  -- in the same order.
  pub root_array-load_persistent_rooms :
      (file : List ℕ)
      → Fits [] (names (length file) file)
      → All (λ name. (v : j.Value) × (j.string name ≡ some v)) (names (length file) file)
      → listed (j.elements (root_array j (some file))) ≡ map some (load_persistent_rooms file [])
  unfolding root_array load_persistent_rooms
  root_array-load_persistent_rooms file fits written =
      ap listed (read_rooms-elements (length file) file j.array [] laws.elements-array)
      ∙ (listed-names (names (length file) file) written
          ∙ ap (map some) (sym (load_loop-names (length file) file [] fits)))
