-- ===== src/Cgi/ChatRooms.antt =====
-- cgi_bin/get_chat_rooms.c: the rooms of the file from which the XMPP daemon loads its rooms, as an
-- array of JSON, over the interface of Jansson. `line` has room for 127 characters.
pub mod Listing
use caligo_engine.Base.{
  ℕ, zero, suc, Option, none, some, List, [], ◌∷◌, ◌++◌, length, ltb, if◌then◌else◌,
}
use caligo_engine.Base.Decimal.{decimal}
use caligo_engine.Base.Text.{codes, concat, fgets}
use caligo_engine.Cgi.Accounts.{set_new}
use caligo_engine.Cgi.Jansson.{Jansson}
use caligo_engine.Xmppd.Rooms.{strip_eol}

abbrev crlf : List ℕ
crlf = 13 ∷ 10 ∷ []

module _ (j : Jansson) where
  unfoldable pub room_object : List ℕ → j.Value
  room_object name =
      j.set (set_new j j.object (codes "name") (j.string name)) (codes "count") (j.integer 0)

  unfoldable pub add_room : List ℕ → j.Value → j.Value
  add_room line root = if ltb 0 (length line) then j.append root (room_object line) else root

  -- The loop over the lines, a round for each.
  unfoldable pub read_rooms : ℕ → List ℕ → j.Value → j.Value
  read_rooms zero file root = root
  read_rooms (suc fuel) [] root = root
  read_rooms (suc fuel) (c ∷ file) root =
      let (line, rest) = fgets 127 (c ∷ file) in
      read_rooms fuel rest (add_room (strip_eol line) root)

  -- `none` is a file that is not there.
  unfoldable pub root_array : Option (List ℕ) → j.Value
  root_array none = j.array
  root_array (some file) = read_rooms (length file) file j.array

  -- What main prints.
  unfoldable pub respond : Option (List ℕ) → List ℕ
  respond file =
      let json_str = j.dumps 0 (root_array file) in
      concat (
        codes "HTTP/1.1 200 OK"
        ∷ crlf
        ∷ codes "Content-Type: application/json"
        ∷ crlf
        ∷ codes "Content-Length: "
        ∷ decimal (length json_str)
        ∷ crlf
        ∷ codes "Cache-Control: no-cache"
        ∷ crlf
        ∷ crlf
        ∷ json_str
        ∷ [])
