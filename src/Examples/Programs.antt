-- ===== src/Examples/Programs.antt =====
-- Concrete inputs for the programs that list rooms and albums and that relay a command's output.
use caligo_engine.Base.{ℕ, suc, All, ◌≡◌, refl, true, some, List, [], ◌∷◌, ◌++◌, length, map, arith}
use caligo_engine.Base.Text.{codes, str_eq, find_char, fgets, Without-find_char}
use caligo_engine.Cgi.Accounts.{get_string}
use caligo_engine.Cgi.ChatRooms.{root_array}
use caligo_engine.Cgi.ChatRooms.Listing.{
  Fits, names, keep_line, listed, root_array-load_persistent_rooms,
}
use caligo_engine.Cgi.Mixtape.{elements_of, entry_album, root_object, is_dots}
use caligo_engine.Cgi.Mixtape.Fields.{filter_map}
use caligo_engine.Cgi.Mixtape.Listing.{tracks_listed, root_object-album}
use caligo_engine.Cgi.RequestSong.Relay.{launch_output}
use caligo_engine.Cgi.RequestSong.Relay.Dechunked.{dechunk, dechunk-launch_output}
use caligo_engine.Examples.Json.{
  Json, text, nil, cell, empty, entry, get_json, json_elements, small, small-IsJansson,
}
use caligo_engine.Xmppd.Rooms.{is_known, strip_eol, load_persistent_rooms}

abbrev output : List ℕ
output = codes "one" ++ (10 ∷ (10 ∷ codes "two"))

dechunk-launch_output_example :
    dechunk (suc (length output)) (launch_output (some output)) ≡ some output
dechunk-launch_output_example =
    dechunk-launch_output output (omega arith)
      (Without-find_char 0 output (unfold find_char in refl))

abbrev rooms_file : List ℕ
rooms_file = codes "lobby" ++ (10 ∷ (10 ∷ (codes "music" ++ (13 ∷ 10 ∷ []))))

rooms_names : names (length rooms_file) rooms_file ≡ codes "lobby" ∷ codes "music" ∷ []
unfolding names keep_line fgets strip_eol
rooms_names = refl

rooms_fit : Fits [] (names (length rooms_file) rooms_file)
unfolding names keep_line fgets strip_eol is_known str_eq
rooms_fit = (refl, omega arith, omega arith, (refl, omega arith, omega arith, tt))

rooms_written :
    All (λ name. (v : Json) × (small.string name ≡ some v)) (names (length rooms_file) rooms_file)
unfolding names keep_line fgets strip_eol
rooms_written = ((text (codes "lobby"), refl), ((text (codes "music"), refl), tt))

root_array-load_persistent_rooms_example :
    listed small small-IsJansson (json_elements (root_array small (some rooms_file)))
    ≡ map some (load_persistent_rooms rooms_file [])
root_array-load_persistent_rooms_example =
    root_array-load_persistent_rooms small small-IsJansson rooms_file rooms_fit rooms_written

abbrev metadata : Json
metadata = entry (codes "albumTitle") (text (codes "Night")) (
    entry (codes "albumArtist") (text (codes "Ana")) (
      entry (codes "coverFile") (text (codes "c.png")) (
        entry (codes "tracks")
          (cell
            (entry (codes "file") (text (codes "1.mp3"))
              (entry (codes "title") (text (codes "One")) empty))
            (cell (entry (codes "file") (text (codes "2.mp3")) empty) nil))
          empty)))

root_object-album_example :
    (let others = filter_map (entry_album small (λ path. true) (λ path. some metadata)) in
      (v : Json) × (elements_of small (
          get_json
            (root_object small
              (λ path. true)
              (λ path. some metadata)
              (some (codes "." ∷ codes "night" ∷ [])))
            (codes "albums"))
        ≡ some (others (codes "." ∷ []) ++ v ∷ others []))
      × (get_string small v (codes "name") ≡ some (codes "Night"))
      × (get_string small v (codes "artist") ≡ some (codes "Ana"))
      × (elements_of small (get_json v (codes "tracks"))
          ≡ some (
              tracks_listed small (codes "night") (
                entry
                  (codes "file")
                  (text (codes "1.mp3"))
                  (entry (codes "title") (text (codes "One")) empty)
                ∷ entry (codes "file") (text (codes "2.mp3")) empty
                ∷ []))))
root_object-album_example =
    root_object-album small small-IsJansson (λ path. true) (λ path. some metadata) (codes "." ∷ [])
      [] (codes "night") (codes "Night") (codes "Ana") (codes "c.png") metadata
      (entry (codes "file") (text (codes "1.mp3"))
          (entry (codes "title") (text (codes "One")) empty)
        ∷ entry (codes "file") (text (codes "2.mp3")) empty
        ∷ [])
      (unfold is_dots str_eq in refl) refl refl (unfold get_string get_json str_eq in refl)
      (unfold get_string get_json str_eq in refl) (unfold get_string get_json str_eq in refl)
      (unfold elements_of get_json str_eq in refl)
