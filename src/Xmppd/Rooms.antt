-- ===== src/Xmppd/Rooms.antt =====
-- known_rooms of xmppd.c: the names in the order in which they came, and the file they start from.
pub mod Table
use caligo_engine.Base.{
  ℕ, zero, suc, ◌+◌, Bool, true, false, ◌&&◌, ◌||◌, List, [], ◌∷◌, ◌++◌, length, take, ltb, ◌==◌,
  if◌then◌else◌,
}
use caligo_engine.Base.Text.{str_eq, fgets}

-- MAX_ROOMS, and MAX_ROOM_NAME - 1
abbrev pub max_rooms : ℕ
max_rooms = 64

abbrev pub max_name : ℕ
max_name = 63

unfoldable pub is_known : List ℕ → List (List ℕ) → Bool
is_known room_name [] = false
is_known room_name (r ∷ rooms) = str_eq r room_name || is_known room_name rooms

-- add_room_to_memory: the table after the call, and its result.
unfoldable pub add_room_to_memory : List ℕ → List (List ℕ) → List (List ℕ) × Bool
add_room_to_memory room_name rooms =
    if is_known room_name rooms
    then (rooms, false)
    else if ltb (length rooms) max_rooms
    then (rooms ++ (take max_name room_name ∷ []), true)
    else (rooms, false)

-- line[strcspn(line, "\r\n")] = 0
unfoldable pub strip_eol : List ℕ → List ℕ
strip_eol [] = []
strip_eol (c ∷ line) = if c == 0 || c == 13 || c == 10 then [] else c ∷ strip_eol line

unfoldable pub add_line : List ℕ → List (List ℕ) → List (List ℕ)
add_line line rooms = if ltb 0 (length line) then (add_room_to_memory line rooms).0 else rooms

-- load_persistent_rooms, with a round for each line and `char line[128]`.
unfoldable pub load_loop : ℕ → List ℕ → List (List ℕ) → List (List ℕ)
load_loop zero file rooms = rooms
load_loop (suc fuel) [] rooms = rooms
load_loop (suc fuel) (c ∷ file) rooms =
    load_loop fuel (fgets 127 (c ∷ file)).1 (add_line (strip_eol (fgets 127 (c ∷ file)).0) rooms)

unfoldable pub load_persistent_rooms : List ℕ → List (List ℕ) → List (List ℕ)
load_persistent_rooms file rooms = load_loop (length file) file rooms
